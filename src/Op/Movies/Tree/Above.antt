-- ===== src/Op/Movies/Tree/Above.antt =====
-- What the tests of folders answer in a tree of movies.
use synctv.Base.{
  ℕ, zero, suc, ◌<◌, String, Bool, true, false, not, Option, none, some, List, [], ◌∷◌, str_eq,
  eq_iff, length, if◌then◌else◌, ◌≡◌, ◌≢◌, refl, arith, Option-cases, ◌⊎◌, ◌&&◌, sym, inl, inr,
  Bool-cases,
}
use mathlib.Core.Path.{subst}
use synctv.Base.Dict.{lookup, store, lookup-store}
use synctv.Base.Result.{Result, ok}
use synctv.Model.Movie.{Movie}
use synctv.Utils.Page.{in_list}
use synctv.Op.Movies.{Movies}
use synctv.Op.Movies.Tree.{Table, get_movie_by_id, load_or_store, level, is_parent_of_from}

-- The ids above a movie, the nearest first, up to the root.
pub data HasAbove (table : Table) : String → List String → Type 0 where
  at_root :
      (id : String) (mv : Movie)
      → id ≢ ""
      → table id ≡ some mv
      → mv.parent_id ≡ ""
      → HasAbove table id []
  under :
      (id : String) (mv : Movie) (ids : List String)
      → id ≢ ""
      → table id ≡ some mv
      → mv.parent_id ≢ ""
      → HasAbove table mv.parent_id ids
      → HasAbove table id (mv.parent_id ∷ ids)

-- Rows have the id of their key, and the cache holds rows of the table.
pub record IsTable (table : Table) : Type 0 where
  pub row_id : (id : String) (mv : Movie) → table id ≡ some mv → mv.id ≡ id

abbrev pub IsView : Table → Movies → Type 0
IsView table m = (id : String) (mv : Movie) → lookup id m ≡ some mv → table id ≡ some mv

-- What the walk up the ids answers.
abbrev pub met : Bool → String → List String → Bool
met first_check parent_id [] = false
met first_check parent_id (id ∷ ids) =
    if str_eq id parent_id then not first_check else met false parent_id ids

-- Above the nearest of the ids, and not the nearest itself.
abbrev pub beyond : String → List String → Bool
beyond parent_id [] = false
beyond parent_id (id ∷ ids) = not (str_eq id parent_id) && in_list ids parent_id

pub met-in_list :
    (parent_id : String) (ids : List String) → met false parent_id ids ≡ in_list ids parent_id
unfolding in_list
met-in_list parent_id [] = refl
met-in_list parent_id (id ∷ ids) = ground (arith, met-in_list parent_id ids)

pub met-beyond :
    (parent_id : String) (ids : List String) → met true parent_id ids ≡ beyond parent_id ids
met-beyond parent_id [] = refl
met-beyond parent_id (id ∷ ids) = ground (arith, met-in_list parent_id ids)

module _ (table : Table) (is : IsTable table) where
  -- A movie of the table is found.
  pub get-found :
      (id : String) (mv : Movie) (m : Movies)
      → id ≢ ""
      → table id ≡ some mv
      → IsView table m
      → (get_movie_by_id none table id m).0 ≡ ok mv
  unfolding get_movie_by_id load_or_store
  get-found id mv m named row view = elim (Option-cases (lookup id m)) [
    | inr (c, e) ↦ ground (arith, eq_iff id "", view id c e)
    | inl e ↦ ground (arith, eq_iff id "", is.row_id id mv row)
  ]

  get-state :
      (id : String) (mv : Movie) (m : Movies)
      → id ≢ ""
      → table id ≡ some mv
      → ((get_movie_by_id none table id m).1 ≡ m)
        ⊎ ((get_movie_by_id none table id m).1 ≡ store mv.id mv m)
  unfolding get_movie_by_id load_or_store
  get-state id mv m named row = elim (Option-cases (lookup id m)) [
    | inr (c, e) ↦ inl (ground (arith, eq_iff id ""))
    | inl e ↦ elim (Option-cases (lookup mv.id m)) [
      | inr (c, d) ↦ inl (ground (arith, eq_iff id ""))
      | inl d ↦ inr (ground (arith, eq_iff id ""))
    ]
  ]

  stored-IsView :
      (id : String) (mv : Movie) (m : Movies)
      → table id ≡ some mv
      → IsView table m
      → IsView table (store mv.id mv m)
  stored-IsView id mv m row view k v e = elim (Bool-cases (str_eq mv.id k)) [
    | inl hit ↦ ground (arith, eq_iff mv.id k, is.row_id id mv row, lookup-store mv.id k mv m)
    | inr miss ↦ view k v (ground (arith, lookup-store mv.id k mv m))
  ]

  -- The cache stays a view of the table.
  pub get-IsView :
      (id : String) (mv : Movie) (m : Movies)
      → id ≢ ""
      → table id ≡ some mv
      → IsView table m
      → IsView table (get_movie_by_id none table id m).1
  get-IsView id mv m named row view = elim (get-state id mv m named row) [
    | inl e ↦ subst (λ k. IsView table k) (sym e) view
    | inr e ↦ subst (λ k. IsView table k) (sym e) (stored-IsView id mv m row view)
  ]

  level-root :
      (above : String → Movies → Option (Result Bool × Movies)) (parent_id : String)
      (first_check : Bool) (mv : Movie) (m : Movies)
      → mv.parent_id ≡ ""
      → level none table above parent_id first_check (ok mv) m ≡ some (ok false, m)
  unfolding level
  level-root above parent_id first_check mv m e = ground (arith, eq_iff mv.parent_id "")

  level-up :
      (above : String → Movies → Option (Result Bool × Movies)) (parent_id : String)
      (first_check : Bool) (mv : Movie) (m : Movies) (ids : List String)
      → mv.parent_id ≢ ""
      → (k : Movies) × (above mv.parent_id m ≡ some (ok (met false parent_id ids), k))
        × IsView table k
      → IsView table m
      → (k : Movies) × (level none table above parent_id first_check (ok mv) m
          ≡ some (ok (met first_check parent_id (mv.parent_id ∷ ids)), k))
        × IsView table k
  unfolding level
  level-up above parent_id first_check mv m ids deep (k, e, view) now =
      elim (Bool-cases (str_eq mv.parent_id parent_id)) [
        | inl hit ↦ (m, ground (arith, eq_iff mv.parent_id ""), now)
        | inr miss ↦ (k, ground (arith, eq_iff mv.parent_id ""), view)
      ]

  pub walk :
      (fuel : ℕ) (id parent_id : String) (first_check : Bool) (ids : List String) (m : Movies)
      → HasAbove table id ids
      → length ids < fuel
      → IsView table m
      → (k : Movies) × (is_parent_of_from none table fuel id parent_id first_check m
          ≡ some (ok (met first_check parent_id ids), k))
        × IsView table k
  unfolding is_parent_of_from
  walk zero id parent_id first_check ids m h l view = absurd (omega arith)
  walk (suc fuel) id parent_id first_check [] m (at_root _ mv named row root) l view =
      let kept = get-IsView id mv m named row view in
      (
        (get_movie_by_id none table id m).1,
        rw (get-found id mv m named row view) (
            level-root (λ i k. is_parent_of_from none table fuel i parent_id false k) parent_id
              first_check mv (get_movie_by_id none table id m).1 root),
        kept,
      )
  walk (suc fuel) id parent_id first_check _ m (under _ mv ids named row deep above) l view =
      rw (get-found id mv m named row view) (
        level-up (λ i k. is_parent_of_from none table fuel i parent_id false k) parent_id
          first_check mv (get_movie_by_id none table id m).1 ids deep
          (walk fuel mv.parent_id parent_id false ids (get_movie_by_id none table id m).1 above
            (omega arith) (get-IsView id mv m named row view))
          (get-IsView id mv m named row view))
