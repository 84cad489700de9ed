-- ===== src/Examples.antt =====
-- A room, a table of members and hubs, and the theorems of the development at them.
pub mod Members
pub mod Hubs
pub mod Values
pub mod Players
pub mod Slices
pub mod Deletions
pub mod Caches
pub mod Headers
pub mod Users
pub mod Accesses
pub mod Options
use synctv.Base.{
  ℕ, String, Bool, true, false, ◌&&◌, Option, none, some, List, [], ◌∷◌, str_eq, ◌==◌,
  if◌then◌else◌,
}
use synctv.Base.Result.{Result, ok, err}
use synctv.Model.Member.Status.{RoomMemberStatus, active, pending}
use synctv.Model.Member.Role.{member}
use synctv.Model.Member.{RoomMember}
use synctv.Model.Room
use synctv.Model.Room.{default_room_settings}
use synctv.Db.{Driver, Db, RoomRow, delete_member, update_settings}
use synctv.Op.Room.{Room, World}

-- A database that fails two kinds of statement.
abbrev pub steady : Driver
steady (update_settings) = some "timeout"
steady _ = none

abbrev pub row : String → RoomMemberStatus → RoomMember
row user_id status = record {
  user_id = user_id;
  room_id = "room";
  permissions = 65;
  admin_permissions = 0;
  status = status;
  role = member;
}

abbrev pub room_row : RoomRow
room_row = record { creator_id = "owner"; hashed_password = []; status = Room.active }

abbrev pub tables : Db
tables = record {
  members = λ r u.
      if str_eq u "ann"
      then some (row "ann" active)
      else if str_eq u "bob"
      then some (row "bob" pending)
      else none;
  rooms = λ r. some room_row;
  settings = λ r. none;
}

abbrev pub world : World ℕ
world = record {
  room = record {
    id = "room";
    creator_id = "owner";
    hashed_password = [];
    status = Room.active;
    settings = default_room_settings;
    members = λ u. none;
    movies = [];
    hub = none;
  };
  db = tables;
}

-- Stands for bcrypt: a hash that tells one password from all others.
abbrev pub code : String → ℕ
code p = if str_eq p "secret" then 1 else 0

abbrev pub hash : String → Result (List ℕ)
hash p = ok (code p ∷ [])

abbrev pub compare_hash : List ℕ → String → Bool
compare_hash [] p = false
compare_hash (c ∷ hashed) p = c == code p
