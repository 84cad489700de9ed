-- ===== src/Db.antt =====
-- internal/db: the tables that the rooms use, and the outcome of a query.
-- A table is a function from its primary key. Whether the database driver fails a query is an
-- argument, `Driver`; a failed statement leaves the tables as they were. An update reports the
-- number of rows that its condition matched.
pub mod Member
pub mod Room
pub mod User
use synctv.Base.{ℕ, String, Option, none, some, List, ◌==◌, if◌then◌else◌}
use synctv.Base.Result.{Error, not_found, driver_failure, Result, ok, err}
use synctv.Model.Member.{RoomMember}
use synctv.Model.Room.{RoomStatus, RoomSettings}

-- The statements by kind.
pub data Query : Type 0 where
  select_member create_member update_member delete_member : Query
  save_settings update_settings update_room select_room create_settings : Query

-- `none` if the driver carries the statement out.
abbrev pub Driver : Type 0
Driver = Query → Option String

pub record RoomRow : Type 0 where
  pub creator_id : String
  pub hashed_password : List ℕ
  pub status : RoomStatus

pub record Db : Type 0 where
  -- by room and user
  pub members : String → String → Option RoomMember
  pub rooms : String → Option RoomRow
  pub settings : String → Option RoomSettings

-- What gorm returns of a statement: `Error` and `RowsAffected`.
pub record Outcome : Type 0 where
  pub error : Option Error
  pub rows_affected : ℕ

-- The error is the driver's: gorm's own missing record arises in `First` only.
unfoldable pub handle_update_result : Outcome → String → Result (Unit {0})
handle_update_result o entity = elim o.error [
  | some e ↦ err e
  | none ↦ if o.rows_affected == 0 then err (not_found entity) else ok tt
]
