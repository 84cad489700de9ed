-- ===== src/Server/Access.antt =====
-- server/middlewares/auth.go: from a token and the id of a room to a user and a room. A handler
-- comes after its middleware, if that does not abort. JWT is a library's: `parse` gives the claims
-- of a token whose signature and times are valid.
pub mod Middleware
pub mod Entry
pub mod Entered
pub mod Admitted
pub mod Rooms
pub mod Requests
pub mod Runs
use synctv.Base.{
  ℕ, String, Bool, true, false, ◌&&◌, not, Option, none, some, List, [], ◌∷◌, str_eq, ◌==◌,
  if◌then◌else◌,
}
use synctv.Base.Text.{Text, codes, byte_length, is_empty, trim_prefix}
use synctv.Base.Result.{Error, failure, Result, ok, err, M}
use synctv.Model.Member.Status.{RoomMemberStatus}
use synctv.Model.Member.Status as Status
use synctv.Model.User.{is_banned, is_pending, is_root}
use synctv.Model.Room as RoomStatus
use synctv.Db.{Driver}
use synctv.Db.User.{UserDriver}
use synctv.Op.Room.{Room, World, is_guest, is_creator}
use synctv.Op.Room.Members.{load_member_status, load_or_create_member_status, is_room_admin}
use synctv.Op.Room.Settings.{need_password}
use synctv.Op.User.{User, check_version, is_site_admin, is_guest_user}
use synctv.Op.Site.{
  Site, in_room, load_or_init_user_by_id, load_or_init_guest_user, load_or_init_room_by_id,
}

abbrev pub auth_failed : Error
auth_failed = failure "authentication failed"

abbrev pub auth_expired : Error
auth_expired = failure "authentication token expired"

abbrev pub user_banned : Error
user_banned = failure "user account has been banned"

abbrev pub user_pending : Error
user_pending = failure "user account is pending approval"

abbrev pub user_guest : Error
user_guest = failure "guests are not allowed to perform this action"

abbrev pub room_banned : Error
room_banned = failure "room has been banned"

abbrev pub room_pending : Error
room_pending = failure "room is pending approval"

abbrev pub user_banned_from_room : Error
user_banned_from_room = failure "user has been banned from this room"

abbrev pub invalid_room_id : Error
invalid_room_id = failure "invalid room ID"

abbrev pub empty_token : Error
empty_token = failure "authentication token is empty"

abbrev pub not_room_admin : Error
not_room_admin = failure "user is not a room administrator"

abbrev pub not_room_creator : Error
not_room_creator = failure "user is not the room creator"

abbrev pub not_admin : Error
not_admin = failure "user is not an administrator"

abbrev pub not_root : Error
not_root = failure "user is not a root user"

pub record AuthClaims : Type 0 where
  pub user_id : String
  pub user_version : ℕ

-- `validateUser` and `validateAuthUser`, which are the same.
unfoldable pub validate_user : User → ℕ → Result (Unit {0})
unfolding is_guest_user check_version is_banned is_pending
validate_user u user_version =
    if is_guest_user u
    then err user_guest
    else if not (check_version u user_version)
    then err auth_expired
    else if is_banned u.row
    then err user_banned
    else if is_pending u.row
    then err user_pending
    else ok tt

-- Whether a token is given out.
unfoldable pub validate_new_auth_user_token : User → Result (Unit {0})
unfolding is_banned is_pending is_guest_user
validate_new_auth_user_token u =
    if is_banned u.row
    then err user_banned
    else if is_pending u.row
    then err user_pending
    else if is_guest_user u
    then err user_guest
    else ok tt

unfoldable pub new_auth_user_claims : User → Result AuthClaims
unfolding validate_new_auth_user_token
new_auth_user_claims u = elim (validate_new_auth_user_token u) [
  | err e ↦ err e
  | ok _ ↦ ok (record { user_id = u.id; user_version = u.version })
]

abbrev pub validate_status : Result RoomMemberStatus → Result (Unit {0})
validate_status (err e) = err e
validate_status (ok status) =
    if Status.is_banned status
    then err user_banned_from_room
    else if Status.is_pending status
    then err user_pending
    else ok tt

-- The checks of a room by itself.
abbrev pub validate_room : Bool → Bool → Bool → RoomStatus.RoomStatus → Result (Unit {0})
validate_room guest disable_guest locked status =
    if guest && disable_guest
    then err user_guest
    else if guest && locked
    then err user_guest
    else elim status [
      | RoomStatus.banned ↦ err room_banned
      | RoomStatus.pending ↦ err room_pending
      | RoomStatus.active ↦ ok tt
    ]

module _ (driver : Driver) (enable_guest : Bool) {Msg : Type 0} where
  -- A room with a password loads a member, any other room creates one on demand.
  unfoldable pub member_status : String → M (World Msg) RoomMemberStatus
  unfolding need_password load_member_status load_or_create_member_status
  member_status user_id w =
      if need_password w.room
      then load_member_status driver enable_guest user_id w
      else load_or_create_member_status driver enable_guest user_id w

  unfoldable pub validate_room_access : String → M (World Msg) (Unit {0})
  unfolding is_guest need_password member_status
  validate_room_access user_id w =
      elim (validate_room (is_guest w.room user_id) w.room.settings.disable_guest
        (need_password w.room) w.room.status) [
          | err e ↦ (err e, w)
          | ok _ ↦ let (status, w') = member_status user_id w in (validate_status status, w')
        ]

-- `authUser`, with the test of the id that both of its callers make.
unfoldable pub auth_claims : (Text → Option AuthClaims) → Text → Result AuthClaims
auth_claims parse authorization = elim (parse (trim_prefix authorization (codes "Bearer "))) [
  | none ↦ err auth_failed
  | some claims ↦ if byte_length (codes claims.user_id) == 32 then ok claims else err auth_failed
]

-- `enable_guest` is the site's setting of that name, `checksum` is CRC-32.
module _ (parse : Text → Option AuthClaims) (user_driver : UserDriver) (driver : Driver)
    (enable_guest : Bool) (checksum : List ℕ → ℕ) {Msg : Type 0} where
  abbrev pub accepted : User → Result (Unit {0}) → Site Msg → Result User × Site Msg
  accepted u (err e) s = (err e, s)
  accepted u (ok _) s = (ok u, s)

  abbrev pub validated : ℕ → Result User × Site Msg → Result User × Site Msg
  validated user_version (err e, s) = (err e, s)
  validated user_version (ok u, s) = accepted u (validate_user u user_version) s

  -- `authenticateUser` and `AuthUser`, which are the same.
  unfoldable pub authenticate_user : Text → M (Site Msg) User
  unfolding auth_claims validate_user load_or_init_user_by_id
  authenticate_user authorization s = elim (auth_claims parse authorization) [
    | err e ↦ (err e, s)
    | ok claims ↦
        validated claims.user_version
          (load_or_init_user_by_id user_driver checksum claims.user_id s)
  ]

  unfoldable pub authenticate_guest : M (Site Msg) User
  unfolding load_or_init_guest_user
  authenticate_guest s =
      if enable_guest then load_or_init_guest_user user_driver checksum s else (err user_guest, s)

  unfoldable pub authenticate_user_or_guest : Text → M (Site Msg) User
  unfolding authenticate_user authenticate_guest
  authenticate_user_or_guest authorization s =
      if is_empty authorization then authenticate_guest s else authenticate_user authorization s

  abbrev pub accessed : String → Result (Unit {0}) × Site Msg → Result String × Site Msg
  accessed room_id (err e, s) = (err e, s)
  accessed room_id (ok _, s) = (ok room_id, s)

  -- The result is the id of the entry in the cache of rooms.
  unfoldable pub authenticate_room_access : String → User → M (Site Msg) String
  unfolding load_or_init_room_by_id validate_room_access
  authenticate_room_access room_id u s =
      let (result, s') = load_or_init_room_by_id user_driver checksum driver room_id s in
      elim result [
        | err e ↦ (err e, s')
        | ok r ↦ accessed room_id (
            in_room (err invalid_room_id) room_id (validate_room_access driver enable_guest u.id)
              s')
      ]

  abbrev pub with_user : User → Result String × Site Msg → Result (User × String) × Site Msg
  with_user u (err e, s) = (err e, s)
  with_user u (ok room_id, s) = (ok (u, room_id), s)

  abbrev pub entered : String → Result User × Site Msg → Result (User × String) × Site Msg
  entered room_id (err e, s) = (err e, s)
  entered room_id (ok u, s) = with_user u (authenticate_room_access room_id u s)

  unfoldable pub auth_room : Text → String → M (Site Msg) (User × String)
  unfolding authenticate_user_or_guest authenticate_room_access
  auth_room authorization room_id s =
      if byte_length (codes room_id) == 32
      then entered room_id (authenticate_user_or_guest authorization s)
      else (err invalid_room_id, s)
