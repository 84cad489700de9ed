-- ===== src/Db/Room.antt =====
-- internal/db/room.go: the statements on a room's row and on its settings that the rooms use.
use synctv.Base.{ℕ, String, none, some, List, str_eq, ◌==◌, if◌then◌else◌}
use synctv.Base.Text.{codes, byte_length}
use synctv.Base.Result.{failure, not_found, driver_failure, Result, ok, err}
use synctv.Model.Room.{RoomStatus, RoomSettings, default_room_settings}
use synctv.Db.{
  save_settings, update_settings, update_room, select_room, create_settings, Driver, Db, RoomRow,
  handle_update_result,
}

abbrev set_settings_row : Db → String → RoomSettings → Db
set_settings_row db room_id rs = record db {
  settings = λ r. if str_eq r room_id then some rs else db.settings r;
}

module _ (driver : Driver) where
  unfoldable pub get_room_by_id : Db → String → Result RoomRow
  get_room_by_id db id =
      if byte_length (codes id) == 32
      then elim (driver select_room) [
        | some e ↦ err (driver_failure e)
        | none ↦ elim (db.rooms id) [ some row ↦ ok row | none ↦ err (not_found "room") ]
      ]
      else err (failure "room id is not 32 bit")

  unfoldable pub create_or_load_room_settings : Db → String → Result RoomSettings × Db
  create_or_load_room_settings db room_id = elim (driver create_settings) [
    | some e ↦ (err (driver_failure e), db)
    | none ↦ elim (db.settings room_id) [
      | some rs ↦ (ok rs, db)
      | none ↦ (ok default_room_settings, set_settings_row db room_id default_room_settings)
    ]
  ]

  -- gorm's `Save` inserts the row if it is missing.
  unfoldable pub save_room_settings : Db → String → RoomSettings → Result (Unit {0}) × Db
  save_room_settings db room_id rs = elim (driver save_settings) [
    | some e ↦ (err (driver_failure e), db)
    | none ↦ (ok tt, set_settings_row db room_id rs)
  ]

  -- The map of columns is the function that it makes of a row.
  unfoldable pub update_room_settings :
      Db → String → (RoomSettings → RoomSettings) → Result RoomSettings × Db
  update_room_settings db room_id columns = elim (driver update_settings) [
    | some e ↦ (err (driver_failure e), db)
    | none ↦ elim (db.settings room_id) [
      | none ↦ (err (not_found "room settings"), db)
      | some rs ↦ (ok (columns rs), set_settings_row db room_id (columns rs))
    ]
  ]

  unfoldable pub update_room_row : Db → String → (RoomRow → RoomRow) → Result (Unit {0}) × Db
  unfolding handle_update_result
  update_room_row db room_id change = elim (driver update_room) [
    | some e ↦ (
      handle_update_result (record { error = some (driver_failure e); rows_affected = 0 }) "room",
      db,
    )
    | none ↦ elim (db.rooms room_id) [
      | none ↦ (handle_update_result (record { error = none; rows_affected = 0 }) "room", db)
      | some row ↦ (
        handle_update_result (record { error = none; rows_affected = 1 }) "room",
        record db { rooms = λ r. if str_eq r room_id then some (change row) else db.rooms r },
      )
    ]
  ]

  unfoldable pub set_room_hashed_password : Db → String → List ℕ → Result (Unit {0}) × Db
  unfolding update_room_row
  set_room_hashed_password db room_id hashed_password =
      update_room_row db room_id (λ row. record row { hashed_password = hashed_password })

  unfoldable pub set_room_status : Db → String → RoomStatus → Result (Unit {0}) × Db
  unfolding update_room_row
  set_room_status db room_id status =
      update_room_row db room_id (λ row. record row { status = status })
