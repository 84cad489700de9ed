-- ===== src/Op/Movies/Tree/Folders.antt =====
-- What `IsParentOf` and `IsParentFolder` answer.
use synctv.Base.{
  if_false, ℕ, ◌<◌, String, true, false, none, some, List, str_eq, eq_iff, length, if◌then◌else◌,
  ◌≡◌, ◌≢◌, arith, ◌∙◌, ap, inl, inr, Bool-cases,
}
use synctv.Base.Result.{ok}
use synctv.Model.Movie.{Movie}
use synctv.Utils.Page.{in_list}
use synctv.Op.Movies.{Movies}
use synctv.Op.Movies.Tree.{
  Table, get_movie_by_id, folder_checked, is_parent_of, folder_or_parent, is_parent_folder,
}
use synctv.Op.Movies.Tree.Above.{
  HasAbove, IsTable, IsView, beyond, met-in_list, met-beyond, get-found, get-IsView, walk,
}

module _ (table : Table) (is : IsTable table) where
  folder-answer :
      (fuel : ℕ) (id parent_id : String) (mv : Movie) (ids : List String) (m : Movies)
      → mv.is_folder ≡ true
      → HasAbove table id ids
      → length ids < fuel
      → IsView table m
      → (k : Movies) × (folder_checked none table fuel id parent_id (ok mv) m
          ≡ some (ok (beyond parent_id ids), k))
        × IsView table k
  unfolding folder_checked
  folder-answer fuel id parent_id mv ids m folder above l view =
      let (k, e, now) = walk table is fuel id parent_id true ids m above l view in
      (k, rw folder (e ∙ ap (λ b. some (ok b, k)) (met-beyond parent_id ids)), now)

  -- While the database answers queries, for a movie below a known list of folders up to the root,
  -- with fuel for that list and a cache that agrees with the table, the test whether a folder is
  -- the parent of the movie ends, and holds exactly if the folder is in the list and is not the
  -- nearest: it does not hold of the parent itself. The cache still agrees with the table.
  pub is_parent_of-beyond :
      (fuel : ℕ) (id parent_id : String) (mv : Movie) (ids : List String) (m : Movies)
      → parent_id ≢ ""
      → table parent_id ≡ some mv
      → mv.is_folder ≡ true
      → HasAbove table id ids
      → length ids < fuel
      → IsView table m
      → (k : Movies) × (is_parent_of none table fuel id parent_id m
          ≡ some (ok (beyond parent_id ids), k))
        × IsView table k
  unfolding is_parent_of
  is_parent_of-beyond fuel id parent_id mv ids m named row folder above l view =
      let other : str_eq parent_id "" ≡ false = ground (arith, eq_iff parent_id "") in
      let got = get_movie_by_id none table parent_id m in
      let (k, e, now) =
        folder-answer fuel id parent_id mv ids got.1 folder above l
          (get-IsView table is parent_id mv m named row view) in
      (
        k,
        if_false (str_eq parent_id "") _ _ other
            ∙ ap (λ r. folder_checked none table fuel id parent_id r got.1)
                (get-found table is parent_id mv m named row view)
            ∙ e,
        now,
      )

  parent-answer :
      (fuel : ℕ) (id parent_id : String) (mv : Movie) (ids : List String) (m : Movies)
      → HasAbove table id ids
      → length ids < fuel
      → IsView table m
      → (k : Movies) × (folder_or_parent none table fuel id parent_id (ok mv) m
          ≡ some (ok (if mv.is_folder then in_list ids parent_id else beyond mv.parent_id ids), k))
        × IsView table k
  unfolding folder_or_parent
  parent-answer fuel id parent_id mv ids m above l view = elim (Bool-cases mv.is_folder) [
    | inl folder ↦
        let (k, e, now) = walk table is fuel id parent_id false ids m above l view in
        (k, rw folder (e ∙ ap (λ b. some (ok b, k)) (met-in_list parent_id ids)), now)
    | inr leaf ↦
        let (k, e, now) = walk table is fuel id mv.parent_id true ids m above l view in
        (k, rw leaf (e ∙ ap (λ b. some (ok b, k)) (met-beyond mv.parent_id ids)), now)
  ]

  -- While the database answers queries, for a movie below a known list of folders up to the root,
  -- with fuel for that list and a cache that agrees with the table, the test whether it is in a
  -- folder ends: for a folder it holds exactly if that is one of the list, and for another movie
  -- exactly if that movie's folder is in the list and not the nearest. The cache still agrees
  -- with the table.
  pub is_parent_folder-answer :
      (fuel : ℕ) (id parent_id : String) (mv : Movie) (ids : List String) (m : Movies)
      → parent_id ≢ ""
      → table parent_id ≡ some mv
      → HasAbove table id ids
      → length ids < fuel
      → IsView table m
      → (k : Movies) × (is_parent_folder none table fuel id parent_id m
          ≡ some (ok (if mv.is_folder then in_list ids parent_id else beyond mv.parent_id ids), k))
        × IsView table k
  unfolding is_parent_folder
  is_parent_folder-answer fuel id parent_id mv ids m named row above l view =
      let other : str_eq parent_id "" ≡ false = ground (arith, eq_iff parent_id "") in
      let got = get_movie_by_id none table parent_id m in
      let (k, e, now) =
        parent-answer fuel id parent_id mv ids got.1 above l
          (get-IsView table is parent_id mv m named row view) in
      (
        k,
        if_false (str_eq parent_id "") _ _ other
            ∙ ap (λ r. folder_or_parent none table fuel id parent_id r got.1)
                (get-found table is parent_id mv m named row view)
            ∙ e,
        now,
      )
