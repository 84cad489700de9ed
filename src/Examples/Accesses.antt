-- ===== src/Examples/Accesses.antt =====
-- The theorems on access at a site with an administrator and a room.
use synctv.Base.{
  ℕ, String, true, false, Option, none, some, List, [], ◌∷◌, str_eq, ◌==◌, ◌≡◌, refl, if◌then◌else◌,
}
use synctv.Base.Text.{Text, codes, is_empty, trim_prefix}
use synctv.Base.Result.{ok}
use synctv.Model.User
use synctv.Model.User.{UserRow}
use synctv.Model.Member.Status
use synctv.Op.Room
use synctv.Db.{Db}
use synctv.Db.User.{Users, UserDriver}
use synctv.Op.User.{User, is_site_admin}
use synctv.Op.Site.{Site, close_user_by_id}
use synctv.Server.Access.{AuthClaims}
use synctv.Server.Access.Middleware.{
  Request, get_room_id, get_authorization_token, auth_admin_middleware, auth_user_middleware,
  auth_room_middleware,
}
use synctv.Server.Access.Admitted.{IsToken}
use synctv.Server.Access.Rooms.{IsAdmitted}
use synctv.Server.Access.Runs.{
  SiteCall, asks_room, asks_user, closes_user, site_run, site_call, started, started-IsSound,
  site_run-IsAdmitted, site_run-admin,
}
use synctv.Examples.{steady, room_row, tables, hash, compare_hash}
use synctv.Examples.Users.{user_row, checksum}

abbrev user_id : String
user_id = "0000000000000000000000000000000a"

abbrev room_id : String
room_id = "0000000000000000000000000000000b"

abbrev admin_row : UserRow
admin_row = record user_row { role = User.admin }

abbrev accounts : Users
accounts id = if str_eq id user_id then some admin_row else none

abbrev db : Db
db = record tables { rooms = λ r. some (record room_row { creator_id = user_id }) }

abbrev driver : UserDriver
driver query = none

-- Two tokens, of which one was given out before the password changed.
abbrev parse : Text → Option AuthClaims
parse [] = none
parse (c ∷ token) =
    if c == b'A'
    then some (record { user_id = user_id; user_version = 1 })
    else if c == b'B'
    then some (record { user_id = user_id; user_version = 0 })
    else none

abbrev request : Request
request = record {
  authorization_header = codes "Bearer A";
  is_websocket = false;
  protocol_header = [];
  token_query = [];
  room_id_header = "";
  room_id_query = room_id;
  room_id_param = "";
}

abbrev calls : List SiteCall
calls = asks_room request ∷ closes_user "nobody" ∷ asks_user request ∷ []

abbrev start : Site ℕ
start = started parse driver steady true checksum compare_hash hash accounts db

abbrev admin : User
admin = record { id = user_id; row = admin_row; version = 1 }

site_run-IsAdmitted_example :
    (get_room_id request ≡ ok room_id)
    × IsAdmitted parse driver steady true checksum
        (get_authorization_token request)
        room_id
        admin
        (auth_room_middleware parse driver steady true checksum request
          (site_run parse driver steady true checksum compare_hash hash calls start)).1
unfolding auth_room_middleware site_run is_empty trim_prefix Room.is_creator Status.is_banned
    Status.is_pending site_call auth_user_middleware close_user_by_id
site_run-IsAdmitted_example =
    site_run-IsAdmitted parse driver steady true checksum compare_hash hash calls start request
      admin room_id refl
      (started-IsSound parse driver steady true checksum compare_hash hash accounts db) refl

site_run-admin_example :
    IsToken parse driver steady true checksum
      (site_run parse driver steady true checksum compare_hash hash calls start).accounts
      (get_authorization_token request)
      admin
    × (is_site_admin admin ≡ true)
unfolding auth_admin_middleware site_run is_empty trim_prefix User.is_admin site_call
    close_user_by_id auth_room_middleware Room.is_creator Status.is_banned Status.is_pending
site_run-admin_example =
    site_run-admin parse driver steady true checksum compare_hash hash calls start request admin
      refl (started-IsSound parse driver steady true checksum compare_hash hash accounts db) refl
