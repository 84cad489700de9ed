-- ===== src/Op/Room/Coherence/Settings.antt =====
-- The settings, the status and the password keep the cache of members coherent.
use synctv.Base.{String, Bool, ◌&&◌, List, [], ℕ, str_eq, ◌≡◌, refl, inl, inr, arith, if_cases}
use synctv.Base.Result.{Result-cases, Result, ok, err}
use synctv.Model.Room.{RoomSettings, RoomStatus}
use synctv.Db.{Driver, Db}
use synctv.Db.Room.{
  save_room_settings, update_room_settings, set_room_status, set_room_hashed_password,
}
use synctv.Op.Room.{Room, World, close_room}
use synctv.Op.Room.Settings.{
  set_settings, update_settings, set_status, set_password, shuts, store_password, store_generated,
  check_password, need_password,
}
use synctv.Op.Room.Coherence.Loads.{IsCoherent}
use synctv.Op.Room.Coherence.Changes.{untouched-IsCoherent, after_update-IsCoherent}

module _ (driver : Driver) where
  save_settings-members :
      (db : Db) (id : String) (rs : RoomSettings)
      → (save_room_settings driver db id rs).1.members ≡ db.members
  unfolding save_room_settings
  save_settings-members db id rs = ground arith

  update_settings-members :
      (db : Db) (id : String) (columns : RoomSettings → RoomSettings)
      → (update_room_settings driver db id columns).1.members ≡ db.members
  unfolding update_room_settings
  update_settings-members db id columns = ground arith

  set_status-members :
      (db : Db) (id : String) (status : RoomStatus)
      → (set_room_status driver db id status).1.members ≡ db.members
  unfolding set_room_status
  set_status-members db id status = ground arith

  set_password-members :
      (db : Db) (id : String) (password : List ℕ)
      → (set_room_hashed_password driver db id password).1.members ≡ db.members
  unfolding set_room_hashed_password
  set_password-members db id password = ground arith

module _ (driver : Driver) {Msg : Type 0} where
  -- A change of the database that leaves the table of members alone.
  same_members-IsCoherent :
      (db : Db) (w : World Msg)
      → db.members ≡ w.db.members
      → IsCoherent w
      → IsCoherent (record w { db = db })
  same_members-IsCoherent db w same h =
      untouched-IsCoherent w (record w { db = db }) refl refl refl refl same h

  pub set_settings-IsCoherent :
      (rs : RoomSettings) (w : World Msg) → IsCoherent w → IsCoherent (set_settings driver rs w).1
  unfolding set_settings
  set_settings-IsCoherent rs w h =
      let saved : Result (Unit {0}) × Db = save_room_settings driver w.db w.room.id rs in
      let coherent : IsCoherent (record w { db = saved.1 }) =
        same_members-IsCoherent saved.1 w (save_settings-members driver w.db w.room.id rs) h in
      elim (Result-cases saved.0) [
        | inl (_, e) ↦
            rw (e, set_settings) (after_update-IsCoherent rs (record w { db = saved.1 }) coherent)
        | inr (_, e) ↦ rw (e, set_settings) coherent
      ]

  pub update_settings-IsCoherent :
      (columns : RoomSettings → RoomSettings) (w : World Msg)
      → IsCoherent w
      → IsCoherent (update_settings driver columns w).1
  unfolding update_settings
  update_settings-IsCoherent columns w h =
      let saved : Result RoomSettings × Db = update_room_settings driver w.db w.room.id columns in
      let coherent : IsCoherent (record w { db = saved.1 }) =
        same_members-IsCoherent saved.1 w (update_settings-members driver w.db w.room.id columns)
          h in
      elim (Result-cases saved.0) [
        | inl (rs, e) ↦
            rw (e, update_settings)
              (after_update-IsCoherent rs (record w { db = saved.1 }) coherent)
        | inr (_, e) ↦ rw (e, update_settings) coherent
      ]

  -- A room that is closed caches nobody.
  pub set_status-IsCoherent :
      (status : RoomStatus) (w : World Msg)
      → IsCoherent w
      → IsCoherent (set_status driver status w).1
  unfolding set_status close_room
  set_status-IsCoherent status w h =
      let saved : Result (Unit {0}) × Db = set_room_status driver w.db w.room.id status in
      elim (Result-cases saved.0) [
        | inl (_, e) ↦
            rw (e, set_status)
              (if_cases (λ (r : Room Msg). IsCoherent (record w { room = r; db = saved.1 }))
                (shuts status) _ _ (λ _ v. inl refl)
                (λ _.
                  untouched-IsCoherent w
                    (record w { room = record w.room { status = status }; db = saved.1 }) refl refl
                    refl refl (set_status-members driver w.db w.room.id status) h))
        | inr (_, e) ↦
            rw (e, set_status)
              (same_members-IsCoherent saved.1 w (set_status-members driver w.db w.room.id status)
                h)
      ]

  store_password-IsCoherent :
      (hashed : List ℕ) (w : World Msg)
      → IsCoherent w
      → IsCoherent (store_password driver hashed w).1
  store_password-IsCoherent hashed w h =
      untouched-IsCoherent w (store_password driver hashed w).1 refl refl refl refl
        (set_password-members driver w.db w.room.id hashed) h

  -- The worlds after `SetPassword`: the one before, or one with a new hash.
  store_generated_cases :
      (P : World Msg → Type 0) (r : Result (List ℕ)) (w : World Msg)
      → P w
      → ((hashed : List ℕ) → P (store_password driver hashed w).1)
      → P (store_generated driver r w).1
  unfolding store_generated
  store_generated_cases P (ok hashed) w same stored = stored hashed
  store_generated_cases P (err e) w same stored = same

  set_password_cases :
      (P : World Msg → Type 0) (compare_hash : List ℕ → String → Bool)
      (generate : String → Result (List ℕ)) (password : String) (w : World Msg)
      → P w
      → ((hashed : List ℕ) → P (store_password driver hashed w).1)
      → P (set_password driver compare_hash generate password w).1
  unfolding set_password
  set_password_cases P compare_hash generate password w same stored =
      let Q : Result (Unit {0}) × World Msg → Type 0 = λ r. P r.1 in
      if_cases Q (check_password compare_hash w.room password && need_password w.room) _ _
        (λ _. same)
        (λ _.
          if_cases Q (str_eq password "") _ _ (λ _. stored [])
            (λ _. store_generated_cases P (generate password) w same stored))

  pub set_password-IsCoherent :
      (compare_hash : List ℕ → String → Bool) (generate : String → Result (List ℕ))
      (password : String) (w : World Msg)
      → IsCoherent w
      → IsCoherent (set_password driver compare_hash generate password w).1
  set_password-IsCoherent compare_hash generate password w h =
      set_password_cases IsCoherent compare_hash generate password w h
        (λ hashed. store_password-IsCoherent hashed w h)
