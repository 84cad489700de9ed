-- ===== src/Examples/Values.antt =====
-- The theorem on pages at values.
use synctv.Base.{◌*◌, String, List, [], ◌∷◌, ◌≡◌, take, some, arith}
use synctv.Utils.Page.Laws.{pages, pages-eq-take}

abbrev items : List String
items = "a" ∷ "b" ∷ "c" ∷ []

pages-eq-take_example : pages items 2 2 ≡ some (take (2 * 2) items)
pages-eq-take_example = pages-eq-take items 2 2 (omega arith) (omega arith)
