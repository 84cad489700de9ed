-- ===== src/Op/Room/Settings.antt =====
-- internal/op/room.go: the password, the status and the settings of a room.
use synctv.Base.{
  ℕ, String, Bool, true, false, ◌&&◌, ◌||◌, not, List, [], ◌∷◌, str_eq, ◌==◌, if◌then◌else◌,
}
use synctv.Base.Result.{failure, Result, ok, err, M}
use synctv.Model.Member.Permission.{RoomMemberPermission}
use synctv.Model.Room.{RoomStatus, banned, pending, RoomSettings}
use synctv.Db.{Driver}
use synctv.Db.Room.{
  save_room_settings, update_room_settings, set_room_hashed_password, set_room_status,
}
use synctv.Op.Room.{Room, World, guest_user_id, kick_room_user, forget, close_room}

abbrev pub shuts : RoomStatus → Bool
shuts banned = true
shuts pending = true
shuts RoomStatus.active = false

module _ {Msg : Type 0} where
  unfoldable pub need_password : Room Msg → Bool
  need_password r = elim r.hashed_password [ [] ↦ false | _ ∷ _ ↦ true ]

  -- A step on the room alone.
  abbrev pub on_room : {A : Type 0} → M (Room Msg) A → M (World Msg) A
  on_room m w = let (result, r) = m w.room in (result, record w { room = r })

  unfoldable pub after_update_settings : RoomSettings → M (World Msg) (Unit {0})
  after_update_settings rs w =
      let r =
        if not (w.room.settings.guest_permissions == rs.guest_permissions)
        then forget guest_user_id w.room
        else w.room in
      let v = record w { room = record r { settings = rs } } in
      if rs.disable_guest then on_room (kick_room_user guest_user_id) v else (ok tt, v)

-- `compare_hash` and `generate` are bcrypt's `CompareHashAndPassword` and `GenerateFromPassword`.
module _ (compare_hash : List ℕ → String → Bool) where
  unfoldable pub check_password : {Msg : Type 0} → Room Msg → String → Bool
  unfolding need_password
  check_password r password = not (need_password r) || compare_hash r.hashed_password password

module _ (driver : Driver) {Msg : Type 0} where
  abbrev pub store_password : List ℕ → M (World Msg) (Unit {0})
  store_password hashed w =
      let (result, db) = set_room_hashed_password driver w.db w.room.id hashed in
      (result, record w { room = record w.room { hashed_password = hashed }; db = db })

  unfoldable pub store_generated : Result (List ℕ) → M (World Msg) (Unit {0})
  store_generated (err e) w = (err e, w)
  store_generated (ok hashed) w = store_password hashed w

  unfoldable pub set_password :
      (compare_hash : List ℕ → String → Bool) (generate : String → Result (List ℕ))
      → String
      → M (World Msg) (Unit {0})
  set_password compare_hash generate password w =
      if check_password compare_hash w.room password && need_password w.room
      then (err (failure "password is the same"), w)
      else if str_eq password ""
      then store_password [] w
      else store_generated (generate password) w

  unfoldable pub set_settings : RoomSettings → M (World Msg) (Unit {0})
  set_settings settings w =
      let (result, db) = save_room_settings driver w.db w.room.id settings in
      elim result [
        | err e ↦ (err e, record w { db = db })
        | ok _ ↦ after_update_settings settings (record w { db = db })
      ]

  unfoldable pub update_settings : (RoomSettings → RoomSettings) → M (World Msg) (Unit {0})
  update_settings columns w =
      let (result, db) = update_room_settings driver w.db w.room.id columns in
      elim result [
        | err e ↦ (err e, record w { db = db })
        | ok rs ↦ after_update_settings rs (record w { db = db })
      ]

  unfoldable pub set_guest_permissions : RoomMemberPermission → M (World Msg) (Unit {0})
  unfolding update_settings
  set_guest_permissions permissions =
      update_settings (λ s. record s { guest_permissions = permissions })

  unfoldable pub set_status : RoomStatus → M (World Msg) (Unit {0})
  set_status status w =
      let (result, db) = set_room_status driver w.db w.room.id status in
      elim result [
        | err e ↦ (err e, record w { db = db })
        | ok _ ↦
            let r = record w.room { status = status } in
            (ok tt, record w { room = if shuts status then (close_room r).1 else r; db = db })
      ]
