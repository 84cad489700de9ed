-- ===== src/Utils/Page.antt =====
-- utils/utils.go: pages of a slice, and membership in a slice.
pub mod Laws
use Prim.Native.Nat.{ℕ, suc, ◌+◌, ◌-◌, ◌*◌}
use synctv.Base.Int.{ℤ, pos, negsuc, int64, lt_int}
use synctv.Base.{
  ◌&&◌, Bool, true, false, ◌||◌, String, List, [], ◌∷◌, Option, none, some, str_eq, ltb, leb, ◌==◌,
  if◌then◌else◌, length, take, drop,
}

-- `int` arguments that are 0 or negative give the empty page; they are 0 here. The products wrap.
unfoldable pub get_page_items_range : ℕ → ℕ → ℕ → ℤ × ℤ
get_page_items_range total page page_size =
    if leb page_size 0 || leb page 0 then (pos 0, pos 0) else (
      let start = int64 ((page - 1) * page_size) in
          if lt_int (pos total) start then pos total else start,
      let end = int64 (page * page_size) in if lt_int (pos total) end then pos total else end,
    )

module _ {ℓ} {A : Type ℓ} where
  -- `items[start:end]`, where `none` is a panic.
  abbrev pub slice : List A → ℤ → ℤ → Option (List A)
  slice items (negsuc start) end = none
  slice items (pos start) (negsuc end) = none
  slice items (pos start) (pos end) =
      if leb start end && leb end (length items)
      then some (take (end - start) (drop start items))
      else none

  unfoldable pub get_page_items : List A → ℕ → ℕ → Option (List A)
  get_page_items items page page_size =
      let (start, end) = get_page_items_range (length items) page page_size in slice items start end

-- `none` stands for -1.
unfoldable pub index : List String → String → Option ℕ
index [] item = none
index (v ∷ items) item =
    let rest = index items item in
    if str_eq v item then some 0 else elim rest [ none ↦ none | some i ↦ some (suc i) ]

unfoldable pub in_list : List String → String → Bool
unfolding index
in_list items item = elim (index items item) [ none ↦ false | some i ↦ true ]
