-- ===== src/Examples/Deletions.antt =====
-- The theorems on the cache of movies at a folder with a film and a folder with another.
use synctv.Base.{
  String, Bool, true, false, [], ◌∷◌, none, some, if◌then◌else◌, ◌≡◌, ◌≢◌, ◌∙◌, refl, sym, ap,
  arith, str_eq, eq_iff,
}
use synctv.Base.Result.{ok}
use synctv.Base.Dict.{lookup}
use synctv.Utils.Page.{in_list}
use synctv.Op.Movies.Tree.{Table, is_parent_of, is_parent_folder}
use synctv.Op.Movies.Tree.Above.{HasAbove, at_root, under, IsTable, IsView, beyond}
use synctv.Op.Movies.Tree.Folders.{is_parent_of-beyond, is_parent_folder-answer}
use mathlib.Core.List.{Memᴰ}
use mathlib.Core.List.Memᴰ
use synctv.Model.Movie.{Movie}
use synctv.Op.Movies.{Movies, delete_movie_and_child_cache}
use synctv.Op.Movies.Deletion.{IsPruned, delete_movie_and_child_cache-IsPruned, deleted-kept}

abbrev entry : String → String → Bool → String × Movie
entry id parent_id is_folder = (
  id,
  record {
    id = id;
    room_id = "room";
    creator_id = "owner";
    base = record {
      vendor = "";
      url = "";
      name = id;
      parent_id = parent_id;
      live = false;
      proxy = false;
      rtmp_source = false;
      is_folder = is_folder;
    };
    position = 1;
  },
)

abbrev movies : Movies
movies =
    entry "films" "" true
    ∷ entry "old" "films" true
    ∷ entry "nosferatu" "old" false
    ∷ entry "news" "" false
    ∷ []

not_empty : (id : String) → str_eq id "" ≡ false → id ≢ ""
not_empty id h e = ground (arith, eq_iff id "")

not_root : ¬ Memᴰ {A = String} "" ("films" ∷ [])
not_root mem = not_empty "films" refl (sym (Memᴰ.eq_of_singleton mem))

delete_movie_and_child_cache-IsPruned_example :
    (k : Movies) × (delete_movie_and_child_cache ("films" ∷ []) movies ≡ some k)
    × IsPruned ("films" ∷ []) movies k
delete_movie_and_child_cache-IsPruned_example =
    delete_movie_and_child_cache-IsPruned ("films" ∷ []) movies not_root

-- An entry of these ids has an id.
id_of :
    (f : String × Movie) (id : String) (p : String) (b : Bool)
    → f ≡ entry id p b
    → str_eq id "" ≡ false
    → f.1.id ≢ ""
id_of f id p b h ne e = not_empty id ne (sym (ap (λ (x : String × Movie). x.1.id) h) ∙ e)

named : (f : String × Movie) → Memᴰ f movies → f.1.id ≢ ""
named f (Memᴰ.head h) = id_of f "films" "" true h refl
named f (Memᴰ.tail (Memᴰ.head h)) = id_of f "old" "films" true h refl
named f (Memᴰ.tail (Memᴰ.tail (Memᴰ.head h))) = id_of f "nosferatu" "old" false h refl
named f (Memᴰ.tail (Memᴰ.tail (Memᴰ.tail (Memᴰ.head h)))) = id_of f "news" "" false h refl
named f (Memᴰ.tail (Memᴰ.tail (Memᴰ.tail (Memᴰ.tail m)))) = elim m [ ]

deleted-kept_example :
    (k : Movies) × (delete_movie_and_child_cache ("films" ∷ []) movies ≡ some k)
    × Memᴰ (entry "films" "" true) k
deleted-kept_example = deleted-kept movies (entry "films" "" true) (Memᴰ.head refl) refl named

abbrev table : Table
table id =
    if str_eq id "films"
    then some (entry "films" "" true).1
    else if str_eq id "old"
    then some (entry "old" "films" true).1
    else if str_eq id "nosferatu"
    then some (entry "nosferatu" "old" false).1
    else none

table-IsTable : IsTable table
table-IsTable = record {
  row_id = λ id mv e. ground (arith, eq_iff id "films", eq_iff id "old", eq_iff id "nosferatu");
}

nosferatu_above : HasAbove table "nosferatu" ("old" ∷ "films" ∷ [])
nosferatu_above =
    under "nosferatu" (entry "nosferatu" "old" false).1 ("films" ∷ []) (not_empty "nosferatu" refl)
      refl (not_empty "old" refl)
      (under "old" (entry "old" "films" true).1 [] (not_empty "old" refl) refl
        (not_empty "films" refl)
        (at_root "films" (entry "films" "" true).1 (not_empty "films" refl) refl refl))

nothing_cached : IsView table []
unfolding lookup
nothing_cached id mv e = ground arith

is_parent_of-beyond_example :
    (k : Movies) × (is_parent_of none table 3 "nosferatu" "old" []
      ≡ some (ok (beyond "old" ("old" ∷ "films" ∷ [])), k))
    × IsView table k
is_parent_of-beyond_example =
    is_parent_of-beyond table table-IsTable 3 "nosferatu" "old" (entry "old" "films" true).1
      ("old" ∷ "films" ∷ []) [] (not_empty "old" refl) refl refl nosferatu_above (omega arith)
      nothing_cached

is_parent_folder-answer_example :
    (k : Movies) × (is_parent_folder none table 3 "nosferatu" "films" []
      ≡ some (
        ok (
            if (entry "films" "" true).1.is_folder
            then in_list ("old" ∷ "films" ∷ []) "films"
            else beyond (entry "films" "" true).1.parent_id ("old" ∷ "films" ∷ [])),
        k,
      ))
    × IsView table k
is_parent_folder-answer_example =
    is_parent_folder-answer table table-IsTable 3 "nosferatu" "films" (entry "films" "" true).1
      ("old" ∷ "films" ∷ []) [] (not_empty "films" refl) refl nosferatu_above (omega arith)
      nothing_cached
