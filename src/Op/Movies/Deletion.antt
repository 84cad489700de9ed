-- ===== src/Op/Movies/Deletion.antt =====
-- A deletion drops exactly the movies below its ids from the cache, and its passes end.
use synctv.Base.{
  ℕ, zero, suc, ◌<◌, String, true, Option, some, List, [], ◌∷◌, length, ◌≡◌, ◌≢◌, ◌∙◌, refl, sym,
  arith, ◌⊎◌, inl, inr, Bool-cases, ◌↔◌,
}
use mathlib.Core.List.{Memᴰ}
use mathlib.Core.List.Memᴰ
use synctv.Model.Movie.{Movie}
use synctv.Utils.Page.{in_list}
use synctv.Utils.Page.Laws.{in_list_iff}
use synctv.Op.Movies.{Movies, sweep, and_then, delete_children_cache, delete_movie_and_child_cache}
use synctv.Op.Movies.Dropped.{
  IsBelow, child, deeper, kept_of_Mem, Mem_of_kept, next_of_Mem, Mem_of_next, sweep-less,
}

Mem_of_below : (ids : List String) (m : Movies) (e : String × Movie) → IsBelow ids m e → Memᴰ e m
Mem_of_below ids m e (child _ here parent) = here
Mem_of_below ids m e (deeper _ f here above folder parent) = here

-- A movie below the ids goes in the first pass, or is below the folders of that pass.
IsBelow-first :
    (ids : List String) (m : Movies) (e : String × Movie)
    → IsBelow ids m e
    → (in_list ids e.1.parent_id ≡ true)
      ⊎ (Memᴰ e (sweep ids m).0 × IsBelow (sweep ids m).1 (sweep ids m).0 e)
IsBelow-first ids m e (child _ here parent) = inl ((in_list_iff e.1.parent_id ids).1 parent)
IsBelow-first ids m e (deeper _ f here above folder parent) =
    elim (Bool-cases (in_list ids e.1.parent_id)) [
      | inl drop ↦ inl drop
      | inr keep ↦
          let kept : Memᴰ e (sweep ids m).0 = kept_of_Mem ids m e here keep in
          inr (
            kept,
            elim (IsBelow-first ids m f above) [
              | inl gone ↦
                  let mem : Memᴰ f.1.id (sweep ids m).1 =
                    next_of_Mem ids m f (Mem_of_below ids m f above) gone folder in
                  child e kept (rw parent mem)
              | inr (still, below) ↦ deeper e f kept below folder parent
            ],
          )
    ]

-- And the movies below those folders are below the ids.
IsBelow-later :
    (ids : List String) (m : Movies) (e : String × Movie)
    → IsBelow (sweep ids m).1 (sweep ids m).0 e
    → IsBelow ids m e
IsBelow-later ids m e (child _ here parent) =
    let (f, there, gone, folder, same) = Mem_of_next ids m e.1.parent_id parent in
    deeper e f (Mem_of_kept ids m e here).0 (child f there ((in_list_iff f.1.parent_id ids).0 gone))
      folder same
IsBelow-later ids m e (deeper _ f here above folder parent) =
    deeper e f (Mem_of_kept ids m e here).0 (IsBelow-later ids m f above) folder parent

not-IsBelow_nothing : (m : Movies) (e : String × Movie) → ¬ IsBelow [] m e
not-IsBelow_nothing m e (child _ here parent) = elim parent [ ]
not-IsBelow_nothing m e (deeper _ f here above folder parent) = not-IsBelow_nothing m f above

-- What a cache is after the movies below the ids are dropped.
abbrev pub IsPruned : List String → Movies → Movies → Type 0
IsPruned ids m k = (e : String × Movie) → Memᴰ e k ↔ (Memᴰ e m × (¬ IsBelow ids m e))

-- A last pass, which drops no folder.
last_pass : (ids : List String) (m : Movies) → (sweep ids m).1 ≡ [] → IsPruned ids m (sweep ids m).0
last_pass ids m none_next e = (
  λ kept.
      let (here, keep) = Mem_of_kept ids m e kept in
      (
        here,
        λ below. elim (IsBelow-first ids m e below) [
          | inl gone ↦ ground arith
          | inr (still, later) ↦ not-IsBelow_nothing (sweep ids m).0 e (rw none_next at later)
        ],
      ),
  λ (here, out). elim (Bool-cases (in_list ids e.1.parent_id)) [
    | inl gone ↦ absurd (out (child e here ((in_list_iff e.1.parent_id ids).0 gone)))
    | inr keep ↦ kept_of_Mem ids m e here keep
  ],
)

-- A pass and those that follow it.
more_passes :
    (ids : List String) (m k : Movies)
    → IsPruned (sweep ids m).1 (sweep ids m).0 k
    → IsPruned ids m k
more_passes ids m k rest e = (
  λ left.
      let (kept, not_later) = (rest e).0 left in
      let (here, keep) = Mem_of_kept ids m e kept in
      (
        here,
        λ below. elim (IsBelow-first ids m e below) [
          | inl gone ↦ ground arith
          | inr (still, later) ↦ not_later later
        ],
      ),
  λ (here, out). elim (Bool-cases (in_list ids e.1.parent_id)) [
    | inl gone ↦ absurd (out (child e here ((in_list_iff e.1.parent_id ids).0 gone)))
    | inr keep ↦
        (rest e).1 (kept_of_Mem ids m e here keep, λ later. out (IsBelow-later ids m e later))
  ],
)

-- The passes that follow the first, by the folders that it dropped.
then-IsPruned :
    (pass : List String → Movies → Option Movies) (ids : List String) (m : Movies)
    (next : List String)
    → (sweep ids m).1 ≡ next
    → ((id : String) (ids' : List String)
        → next ≡ id ∷ ids'
        → (k : Movies) × (pass next (sweep ids m).0 ≡ some k) × IsPruned next (sweep ids m).0 k)
    → (k : Movies) × (and_then pass next (sweep ids m).0 ≡ some k) × IsPruned ids m k
unfolding and_then
then-IsPruned pass ids m [] e follow = ((sweep ids m).0, refl, last_pass ids m e)
then-IsPruned pass ids m (id ∷ next) e follow =
    let (k, ends, pruned) = follow id next refl in (k, ends, more_passes ids m k (rw e pruned))

passes-IsPruned :
    (fuel : ℕ) (ids : List String) (m : Movies)
    → length m < fuel
    → (k : Movies) × (delete_children_cache fuel ids m ≡ some k) × IsPruned ids m k
unfolding delete_children_cache
passes-IsPruned zero ids m h = absurd (omega arith)
passes-IsPruned (suc fuel) ids m h =
    then-IsPruned (λ i k. delete_children_cache fuel i k) ids m (sweep ids m).1 refl
      (λ id next e.
        passes-IsPruned fuel (sweep ids m).1 (sweep ids m).0
          (omega (arith, sweep-less ids m id next e, h)))

-- Dropping ids from the cache of movies, the root not among them, ends, and a cached movie is
-- left exactly if it is not below the ids: its parent is none of them, and is no cached folder
-- that is below them.
pub delete_movie_and_child_cache-IsPruned :
    (ids : List String) (m : Movies)
    → ¬ Memᴰ "" ids
    → (k : Movies) × (delete_movie_and_child_cache ids m ≡ some k) × IsPruned ids m k
unfolding delete_movie_and_child_cache
delete_movie_and_child_cache-IsPruned ids m no_root = elim (Bool-cases (in_list ids "")) [
  | inl root ↦ absurd (no_root ((in_list_iff "" ids).0 root))
  | inr deep ↦ rw deep (passes-IsPruned (suc (length m)) ids m (omega arith))
]

-- Where no cached movie has an empty id, dropping the id of a cached movie of the root list
-- leaves that movie itself in the cache.
pub deleted-kept :
    (m : Movies) (e : String × Movie)
    → Memᴰ e m
    → e.1.parent_id ≡ ""
    → ((f : String × Movie) → Memᴰ f m → f.1.id ≢ "")
    → (k : Movies) × (delete_movie_and_child_cache (e.1.id ∷ []) m ≡ some k) × Memᴰ e k
deleted-kept m e here root named =
    let (k, ends, pruned) =
      delete_movie_and_child_cache-IsPruned (e.1.id ∷ []) m
        (λ mem. named e here (sym (Memᴰ.eq_of_singleton mem))) in
    (k, ends, (pruned e).1 (here, λ below. at_root below))
  where
    at_root : IsBelow (e.1.id ∷ []) m e → ⊥
    at_root (child _ there parent) = named e here (sym (Memᴰ.eq_of_singleton parent) ∙ root)
    at_root (deeper _ f there above folder parent) =
        named f (Mem_of_below (e.1.id ∷ []) m f above) (sym parent ∙ root)
