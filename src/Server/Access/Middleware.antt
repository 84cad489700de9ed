-- ===== src/Server/Access/Middleware.antt =====
-- server/middlewares/auth.go: the middlewares, from a request to what its handler may use. The
-- fields of the log are left out; the entries in a context have the types that were put there.
use synctv.Base.{
  ℕ, String, Bool, true, false, Option, none, some, List, str_eq, ◌==◌, if◌then◌else◌,
}
use synctv.Base.Text.{Text, codes, byte_length, is_empty}
use synctv.Base.Result.{Error, Result, ok, err}
use synctv.Model.User.{is_root}
use synctv.Db.{Driver}
use synctv.Db.User.{UserDriver}
use synctv.Op.Room.{Room}
use synctv.Op.Room.Members.{is_room_admin}
use synctv.Op.User.{User, is_site_admin, is_guest_user}
use synctv.Op.Site.{Site, in_room}
use synctv.Server.Access.{
  AuthClaims, invalid_room_id, empty_token, user_guest, not_room_admin, not_room_creator, not_admin,
  not_root, authenticate_user, auth_room,
}

-- What a request says of its token and its room, by the place where it says it.
pub record Request : Type 0 where
  pub authorization_header : Text
  pub is_websocket : Bool
  pub protocol_header : Text
  pub token_query : Text
  pub room_id_header : String
  pub room_id_query : String
  pub room_id_param : String

-- What a middleware makes of a request: an answer with a status and an error, or a handler that
-- uses what it is about.
pub data Passage (A : Type 0) : Type 0 where
  aborted : ℕ → Error → Passage A
  passed : A → Passage A

unfoldable pub get_authorization_token : Request → Text
get_authorization_token r =
    if is_empty r.authorization_header
    then if r.is_websocket
      then if is_empty r.protocol_header then r.token_query else r.protocol_header
      else r.token_query
    else r.authorization_header

abbrev pub checked_room_id : String → Result String
checked_room_id id = if byte_length (codes id) == 32 then ok id else err invalid_room_id

unfoldable pub get_room_id : Request → Result String
get_room_id r =
    if str_eq r.room_id_header ""
    then if str_eq r.room_id_query ""
      then if str_eq r.room_id_param ""
        then err invalid_room_id
        else checked_room_id r.room_id_param
      else checked_room_id r.room_id_query
    else checked_room_id r.room_id_header

abbrev pub aborts : {A B : Type 0} → ℕ → Result A × B → Passage A × B
aborts status (err e, s) = (aborted status e, s)
aborts status (ok a, s) = (passed a, s)

-- A further test of what has passed.
abbrev pub only_if : {A B : Type 0} → (A → Bool) → Error → Passage A × B → Passage A × B
only_if test e (aborted status x, s) = (aborted status x, s)
only_if test e (passed a, s) = (if test a then passed a else aborted 403 e, s)

abbrev pub decided : {A B : Type 0} → A → Error → Bool × B → Passage A × B
decided a e (permitted, s) = (if permitted then passed a else aborted 403 e, s)

module _ (parse : Text → Option AuthClaims) (user_driver : UserDriver) (driver : Driver)
    (enable_guest : Bool) (checksum : List ℕ → ℕ) {Msg : Type 0} where
  unfoldable pub auth_user_middleware : Request → Site Msg → Passage User × Site Msg
  unfolding get_authorization_token authenticate_user
  auth_user_middleware r s =
      if is_empty (get_authorization_token r)
      then (aborted 401 empty_token, s)
      else aborts 401 (
          authenticate_user parse user_driver driver enable_guest checksum
            (get_authorization_token r) s)

  unfoldable pub auth_admin_middleware : Request → Site Msg → Passage User × Site Msg
  unfolding auth_user_middleware is_site_admin
  auth_admin_middleware r s = only_if is_site_admin not_admin (auth_user_middleware r s)

  unfoldable pub auth_root_middleware : Request → Site Msg → Passage User × Site Msg
  unfolding auth_user_middleware is_root
  auth_root_middleware r s = only_if (λ u. is_root u.row) not_root (auth_user_middleware r s)

  unfoldable pub auth_room_middleware : Request → Site Msg → Passage (User × String) × Site Msg
  unfolding get_room_id get_authorization_token auth_room
  auth_room_middleware r s = elim (get_room_id r) [
    | err e ↦ (aborted 401 e, s)
    | ok room_id ↦ aborts 401 (
        auth_room parse user_driver driver enable_guest checksum (get_authorization_token r) room_id
          s)
  ]

  unfoldable pub auth_room_without_guest_middleware :
      Request → Site Msg → Passage (User × String) × Site Msg
  unfolding auth_room_middleware is_guest_user
  auth_room_without_guest_middleware r s =
      only_if (λ p. if is_guest_user p.0 then false else true) user_guest (auth_room_middleware r s)

  abbrev pub tested_admin : Passage (User × String) × Site Msg → Passage (User × String) × Site Msg
  tested_admin (aborted status e, s) = (aborted status e, s)
  tested_admin (passed (u, room_id), s) =
      decided (u, room_id) not_room_admin
        (in_room false room_id (is_room_admin driver enable_guest u.id) s)

  unfoldable pub auth_room_admin_middleware :
      Request → Site Msg → Passage (User × String) × Site Msg
  unfolding auth_room_middleware is_room_admin
  auth_room_admin_middleware r s = tested_admin (auth_room_middleware r s)

  abbrev pub created_by : User → Option (Room Msg) → Bool
  created_by u none = false
  created_by u (some r) = str_eq r.creator_id u.id

  abbrev pub tested_creator :
      Passage (User × String) × Site Msg → Passage (User × String) × Site Msg
  tested_creator (aborted status e, s) = (aborted status e, s)
  tested_creator (passed (u, room_id), s) =
      decided (u, room_id) not_room_creator (created_by u (s.rooms room_id), s)

  unfoldable pub auth_room_creator_middleware :
      Request → Site Msg → Passage (User × String) × Site Msg
  unfolding auth_room_middleware
  auth_room_creator_middleware r s = tested_creator (auth_room_middleware r s)
