-- ===== src/Op/Room/Password.antt =====
-- A password that was set.
use mathlib.Core.Path.{subst}
use synctv.Base.{
  ℕ, String, Bool, true, false, not, some, List, [], ◌≡◌, ◌≢◌, ◌∙◌, ◌∷◌, refl, arith, str_eq,
  Bool-cases, inl, inr, ◌⊎◌, Option-cases,
}
use synctv.Base.Dict.{str_eq_refl}
use synctv.Base.Result.{Result-cases, Result, ok}
use synctv.Db.{Driver, RoomRow}
use synctv.Db.Room.{set_room_hashed_password, update_room_row}
use synctv.Op.Room.{World}
use synctv.Op.Room.Settings.{
  need_password, check_password, set_password, store_password, store_generated,
}

-- What `NeedPassword` says of a hash.
nonempty :
    (hashed : List ℕ)
    → hashed ≢ []
    → elim hashed as (λ _. Bool) [ [] ↦ false | x ∷ xs ↦ true ] ≡ true
nonempty [] full = absurd (full refl)
nonempty (x ∷ xs) full = refl

module _ (driver : Driver) {Msg : Type 0} where
  stored :
      (hashed : List ℕ) (w : World Msg)
      → (store_password driver hashed w).0 ≡ ok tt
      → (row : RoomRow) × ((store_password driver hashed w).1.db.rooms w.room.id ≡ some row)
        × (row.hashed_password ≡ hashed)
  unfolding set_room_hashed_password update_room_row
  stored hashed w e = elim (Option-cases (w.db.rooms w.room.id)) [
    | inl missing ↦ ground arith
    | inr (row, found) ↦
        (record row { hashed_password = hashed }, ground (arith, str_eq_refl w.room.id), refl)
  ]

  -- What a call that succeeds has stored.
  set_password-done :
      (compare_hash : List ℕ → String → Bool) (generate : String → Result (List ℕ))
      (password : String) (w : World Msg)
      → (set_password driver compare_hash generate password w).0 ≡ ok tt
      → (hashed : List ℕ) × (((str_eq password "" ≡ true) × (hashed ≡ []))
          ⊎ ((str_eq password "" ≡ false) × (generate password ≡ ok hashed)))
        × (set_password driver compare_hash generate password w ≡ store_password driver hashed w)
  unfolding set_password store_generated
  set_password-done compare_hash generate password w e = elim (Bool-cases (str_eq password "")) [
    | inl empty ↦ ([], inl (empty, refl), ground arith)
    | inr given ↦ elim (Result-cases (generate password)) [
      | inl (hashed, g) ↦ (hashed, inr (given, g), ground arith)
      | inr (x, g) ↦ ground arith
    ]
  ]

  -- With a hash function whose hashes are not empty and match their password, after a password is
  -- set with success the room needs one unless it is empty, the password passes the check, and
  -- the table holds the same hash as the room.
  pub set_password-check_password :
      (compare_hash : List ℕ → String → Bool) (generate : String → Result (List ℕ))
      (password : String) (w : World Msg)
      → ((p : String) (hashed : List ℕ)
          → generate p ≡ ok hashed
          → (hashed ≢ []) × (compare_hash hashed p ≡ true))
      → (set_password driver compare_hash generate password w).0 ≡ ok tt
      → let after = (set_password driver compare_hash generate password w).1 in
        (need_password after.room ≡ not (str_eq password ""))
        × (check_password compare_hash after.room password ≡ true)
        × ((row : RoomRow) × (after.db.rooms w.room.id ≡ some row)
            × (row.hashed_password ≡ after.room.hashed_password))
  unfolding check_password need_password
  set_password-check_password compare_hash generate password w bcrypt e =
      let (hashed, by, same) = set_password-done compare_hash generate password w e in
      let (row, found, holds) = stored hashed w (subst (λ r. r.0 ≡ ok tt) same e) in
      elim by [
        | inl (empty, h) ↦ rw (same, empty, h) (refl, refl, (row, rw h at found, holds ∙ h))
        | inr (given, g) ↦
            let (full, passes) = bcrypt password hashed g in
            rw (same, given, passes)
              (nonempty hashed full, rw (nonempty hashed full) refl, (row, found, holds))
      ]
