-- ===== src/Op/Movies.antt =====
-- internal/op/movies.go: the cache of a room's movies, and what deletions drop from it. Movies that
-- are dropped are closed as well; what closing returns is ignored.
pub mod Dropped
pub mod Deletion
pub mod Tree
use synctv.Base.{
  ℕ, zero, suc, String, Bool, true, false, Option, none, some, List, [], ◌∷◌, length, if◌then◌else◌,
}
use synctv.Model.Movie.{Movie}
use synctv.Utils.Page.{in_list}

-- The concurrent map of the cache, by id.
abbrev pub Movies : Type 0
Movies = List (String × Movie)

unfoldable pub clear_cache : Movies → Movies
clear_cache m = []

-- The folders among the dropped: the keys of the map `next`.
abbrev pub add_folder : Movie → List String → List String
add_folder value next = if value.is_folder then value.id ∷ next else next

-- One pass over the cache: what is kept, and the folders that were dropped.
unfoldable pub sweep : List String → Movies → Movies × List String
unfolding in_list
sweep ids [] = ([], [])
sweep ids ((key, value) ∷ m) =
    let (kept, next) = sweep ids m in
    if in_list ids value.parent_id
    then (kept, add_folder value next)
    else ((key, value) ∷ kept, next)

-- Another pass if folders were dropped.
unfoldable pub and_then :
    (List String → Movies → Option Movies) → List String → Movies → Option Movies
and_then pass [] kept = some kept
and_then pass (id ∷ next) kept = pass (id ∷ next) kept

-- `none`: out of fuel.
unfoldable pub delete_children_cache : ℕ → List String → Movies → Option Movies
unfolding sweep and_then
delete_children_cache zero ids m = none
delete_children_cache (suc fuel) ids m =
    let (kept, next) = sweep ids m in and_then (λ i k. delete_children_cache fuel i k) next kept

-- With the root among the ids, everything goes.
unfoldable pub delete_movie_and_child_cache : List String → Movies → Option Movies
unfolding in_list clear_cache delete_children_cache
delete_movie_and_child_cache ids m =
    if in_list ids "" then some (clear_cache m) else delete_children_cache (suc (length m)) ids m
