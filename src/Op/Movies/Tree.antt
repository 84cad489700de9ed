-- ===== src/Op/Movies/Tree.antt =====
-- internal/op/movies.go: a movie by its id, through the cache, and the tests of the folders above a
-- movie. The table has the room's movies by id; `fails` is the error of a query, if it fails.
pub mod Above
pub mod Folders
use synctv.Base.{
  ℕ, zero, suc, String, Bool, true, false, not, Option, none, some, List, [], ◌∷◌, str_eq,
  if◌then◌else◌,
}
use synctv.Base.Result.{Error, failure, not_found, driver_failure, wrapped, Result, ok, err}
use synctv.Base.Dict.{lookup, store}
use synctv.Model.Movie.{Movie}
use synctv.Op.Movies.{Movies}

abbrev pub Table : Type 0
Table = String → Option Movie

-- `LoadOrStore`.
unfoldable pub load_or_store : Movie → Movies → Result Movie × Movies
unfolding lookup store
load_or_store mv m = elim (lookup mv.id m) [
  | some cached ↦ (ok cached, m)
  | none ↦ (ok mv, store mv.id mv m)
]

module _ (fails : Option String) (table : Table) where
  unfoldable pub get_movie_by_id : String → Movies → Result Movie × Movies
  unfolding lookup load_or_store
  get_movie_by_id id m =
      if str_eq id "" then (err (failure "movie id is nil"), m) else elim (lookup id m) [
        | some cached ↦ (ok cached, m)
        | none ↦ elim fails [
          | some e ↦ (err (driver_failure e), m)
          | none ↦ elim (table id) [
            | none ↦ (err (not_found "room or movie"), m)
            | some mv ↦ load_or_store mv m
          ]
        ]
      ]

  -- One level up, before the levels above it.
  unfoldable pub level :
      (String → Movies → Option (Result Bool × Movies))
      → String
      → Bool
      → Result Movie
      → Movies
      → Option (Result Bool × Movies)
  level above parent_id first_check (err e) m = some (err e, m)
  level above parent_id first_check (ok mv) m =
      if str_eq mv.parent_id ""
      then some (ok false, m)
      else if str_eq mv.parent_id parent_id
      then some (ok (not first_check), m)
      else above mv.parent_id m

  -- `isParentOf`; `none`: out of fuel. The code does not end on a cycle of parents.
  unfoldable pub is_parent_of_from :
      ℕ → String → String → Bool → Movies → Option (Result Bool × Movies)
  unfolding get_movie_by_id level
  is_parent_of_from zero id parent_id first_check m = none
  is_parent_of_from (suc fuel) id parent_id first_check m =
      let (mv, m') = get_movie_by_id id m in
      level (λ i k. is_parent_of_from fuel i parent_id false k) parent_id first_check mv m'

  unfoldable pub folder_checked :
      ℕ → String → String → Result Movie → Movies → Option (Result Bool × Movies)
  unfolding is_parent_of_from
  folder_checked fuel id parent_id (err e) m = some (err (wrapped "get parent movie failed: " e), m)
  folder_checked fuel id parent_id (ok mv) m =
      if not mv.is_folder then some (ok false, m) else is_parent_of_from fuel id parent_id true m

  unfoldable pub is_parent_of : ℕ → String → String → Movies → Option (Result Bool × Movies)
  unfolding get_movie_by_id folder_checked
  is_parent_of fuel id parent_id m =
      if str_eq parent_id ""
      then some (ok (not (str_eq id "")), m)
      else let (mv, m') = get_movie_by_id parent_id m in folder_checked fuel id parent_id mv m'

  unfoldable pub folder_or_parent :
      ℕ → String → String → Result Movie → Movies → Option (Result Bool × Movies)
  unfolding is_parent_of_from
  folder_or_parent fuel id parent_id (err e) m =
      some (err (wrapped "get parent movie failed: " e), m)
  folder_or_parent fuel id parent_id (ok mv) m =
      if mv.is_folder
      then is_parent_of_from fuel id parent_id false m
      else is_parent_of_from fuel id mv.parent_id true m

  unfoldable pub is_parent_folder : ℕ → String → String → Movies → Option (Result Bool × Movies)
  unfolding get_movie_by_id folder_or_parent
  is_parent_folder fuel id parent_id m =
      if str_eq parent_id ""
      then some (ok (not (str_eq id "")), m)
      else let (mv, m') = get_movie_by_id parent_id m in folder_or_parent fuel id parent_id mv m'
