-- ===== src/Op/Movies/Dropped.antt =====
-- Which movies a deletion drops from the cache.
use synctv.Base.{
  ◌<◌, ◌≤◌, String, true, false, List, [], ◌∷◌, length, ◌≡◌, refl, ap, arith, inl, inr, Bool-cases,
}
use mathlib.Core.List.{Memᴰ}
use mathlib.Core.List.Memᴰ
use synctv.Model.Movie.{Movie}
use synctv.Utils.Page.{in_list}
use synctv.Op.Movies.{Movies, sweep}

-- The movies below one of the ids: their parent is one, or a folder in the cache that is below one.
pub data IsBelow (ids : List String) (m : Movies) : String × Movie → Type 0 where
  child : (e : String × Movie) → Memᴰ e m → Memᴰ e.1.parent_id ids → IsBelow ids m e
  deeper :
      (e f : String × Movie)
      → Memᴰ e m
      → IsBelow ids m f
      → f.1.is_folder ≡ true
      → e.1.parent_id ≡ f.1.id
      → IsBelow ids m e

-- A pass keeps the movies whose parent is none of the ids.
pub kept_of_Mem :
    (ids : List String) (m : Movies) (e : String × Movie)
    → Memᴰ e m
    → in_list ids e.1.parent_id ≡ false
    → Memᴰ e (sweep ids m).0
unfolding sweep
kept_of_Mem ids [] e mem out = elim mem [ ]
kept_of_Mem ids (v ∷ m) e (Memᴰ.head h) out =
    let keep : in_list ids v.1.parent_id ≡ false = rw⁻¹ h out in rw keep (Memᴰ.head h)
kept_of_Mem ids (v ∷ m) e (Memᴰ.tail h) out =
    let there : Memᴰ e (sweep ids m).0 = kept_of_Mem ids m e h out in
    elim (Bool-cases (in_list ids v.1.parent_id)) [
      | inl drop ↦ rw drop there
      | inr keep ↦ rw keep (Memᴰ.tail there)
    ]

pub Mem_of_kept :
    (ids : List String) (m : Movies) (e : String × Movie)
    → Memᴰ e (sweep ids m).0
    → Memᴰ e m × (in_list ids e.1.parent_id ≡ false)
unfolding sweep
Mem_of_kept ids [] e mem = elim mem [ ]
Mem_of_kept ids (v ∷ m) e mem = elim (Bool-cases (in_list ids v.1.parent_id)) [
  | inl drop ↦ let (there, out) = Mem_of_kept ids m e (rw drop at mem) in (Memᴰ.tail there, out)
  | inr keep ↦ elim (Memᴰ.cases_cons (rw keep at mem)) [
    | inl h ↦ (Memᴰ.head h, rw h keep)
    | inr h ↦ let (there, out) = Mem_of_kept ids m e h in (Memᴰ.tail there, out)
  ]
]

-- The folders that it drops are those whose parent is one of the ids.
pub next_of_Mem :
    (ids : List String) (m : Movies) (e : String × Movie)
    → Memᴰ e m
    → in_list ids e.1.parent_id ≡ true
    → e.1.is_folder ≡ true
    → Memᴰ e.1.id (sweep ids m).1
unfolding sweep
next_of_Mem ids [] e mem here folder = elim mem [ ]
next_of_Mem ids (v ∷ m) e (Memᴰ.head h) here folder =
    let drop : in_list ids v.1.parent_id ≡ true = rw⁻¹ h here in
    let is : v.1.is_folder ≡ true = rw⁻¹ h folder in
    rw (drop, is) (Memᴰ.head (ap (λ (x : String × Movie). x.1.id) h))
next_of_Mem ids (v ∷ m) e (Memᴰ.tail h) here folder =
    let there : Memᴰ e.1.id (sweep ids m).1 = next_of_Mem ids m e h here folder in
    elim (Bool-cases (in_list ids v.1.parent_id)) [
      | inr keep ↦ rw keep there
      | inl drop ↦ elim (Bool-cases v.1.is_folder) [
        | inl is ↦ rw (drop, is) (Memᴰ.tail there)
        | inr isnt ↦ rw (drop, isnt) there
      ]
    ]

pub Mem_of_next :
    (ids : List String) (m : Movies) (id : String)
    → Memᴰ id (sweep ids m).1
    → (e : String × Movie) × Memᴰ e m
      × (in_list ids e.1.parent_id ≡ true)
      × (e.1.is_folder ≡ true)
      × (id ≡ e.1.id)
unfolding sweep
Mem_of_next ids [] id mem = elim mem [ ]
Mem_of_next ids (v ∷ m) id mem = elim (Bool-cases (in_list ids v.1.parent_id)) [
  | inr keep ↦ later (Mem_of_next ids m id (rw keep at mem))
  | inl drop ↦ elim (Bool-cases v.1.is_folder) [
    | inr isnt ↦ later (Mem_of_next ids m id (rw (drop, isnt) at mem))
    | inl is ↦ elim (Memᴰ.cases_cons (rw (drop, is) at mem)) [
      | inl h ↦ (v, Memᴰ.head refl, drop, is, h)
      | inr h ↦ later (Mem_of_next ids m id h)
    ]
  ]
]
  where
    later :
        (e : String × Movie) × Memᴰ e m
          × (in_list ids e.1.parent_id ≡ true)
          × (e.1.is_folder ≡ true)
          × (id ≡ e.1.id)
        → (e : String × Movie) × Memᴰ e (v ∷ m)
          × (in_list ids e.1.parent_id ≡ true)
          × (e.1.is_folder ≡ true)
          × (id ≡ e.1.id)
    later (e, h, gone, folder, same) = (e, Memᴰ.tail h, gone, folder, same)

sweep-length : (ids : List String) (m : Movies) → length (sweep ids m).0 ≤ length m
unfolding sweep
sweep-length ids [] = omega arith
sweep-length ids (e ∷ m) = ground (arith, sweep-length ids m)

-- A pass that drops a folder leaves fewer movies.
pub sweep-less :
    (ids : List String) (m : Movies) (id : String) (next : List String)
    → (sweep ids m).1 ≡ id ∷ next
    → length (sweep ids m).0 < length m
unfolding sweep
sweep-less ids [] id next e = ground arith
sweep-less ids (v ∷ m) id next e = elim (Bool-cases (in_list ids v.1.parent_id)) [
  | inl drop ↦ ground (arith, sweep-length ids m)
  | inr keep ↦ ground (arith, sweep-less ids m id next (ground arith))
]
