-- ===== src/Op/Site.antt =====
-- internal/op/users.go and rooms.go: the caches of users and of rooms, above the tables. An entry of
-- a cache is known by its id: each function is one step, in which the entry that it has just loaded
-- is the one of the cache. The times of expiration are left out. A room that is closed leaves the
-- cache; what that does to its connections is in Op/Room.
pub mod Sound
pub mod Loads
pub mod Rooms
pub mod Steps
pub mod Changes
use synctv.Base.{
  ℕ, String, Bool, true, false, ◌||◌, Option, none, some, List, [], str_eq, ◌==◌, if◌then◌else◌,
}
use synctv.Base.Text.{codes, byte_length}
use synctv.Base.Result.{Error, failure, not_found, driver_failure, wrapped, Result, ok, err, M}
use synctv.Model.User.{UserRow, is_banned, is_pending}
use synctv.Model.Room.{RoomStatus, RoomSettings}
use synctv.Db.{Driver, Db, RoomRow}
use synctv.Db.User.{Users, UserDriver, get_user_by_id}
use synctv.Db.Room.{get_room_by_id, create_or_load_room_settings}
use synctv.Op.Room.{Room, World, guest_user_id, viewer_count}
use synctv.Op.Room.Settings.{set_status}
use synctv.Op.User.{User}
use synctv.Op.User.Account.{Account}

pub record Site (Msg : Type 0) : Type 0 where
  -- `userCache` and `roomCache`
  pub users : String → Option User
  pub rooms : String → Option (Room Msg)
  pub accounts : Users
  pub db : Db

abbrev pub room_creator_banned : Error
room_creator_banned = failure "room creator is banned"

abbrev pub room_creator_pending : Error
room_creator_pending = failure "room creator is pending approval, please wait for admin to review"

-- `errors.Is` of either of these two.
abbrev pub is_creator_error : Error → Bool
is_creator_error (failure s) =
    str_eq s "room creator is banned"
    || str_eq s "room creator is pending approval, please wait for admin to review"
is_creator_error (not_found s) = false
is_creator_error (driver_failure s) = false
is_creator_error (wrapped s e) = is_creator_error e

abbrev pub invalid_room_id : Error
invalid_room_id = failure "invalid room ID: must be 32 characters long"

module _ {Msg : Type 0} where
  -- A step on a cached room and the tables of rooms.
  abbrev pub in_cached :
      {A : Type 0}
      → A
      → String
      → (World Msg → A × World Msg)
      → Site Msg
      → Option (Room Msg)
      → A × Site Msg
  in_cached missing id step s none = (missing, s)
  in_cached missing id step s (some r) =
      let (a, w) = step (record { room = r; db = s.db }) in
      (a, record s { rooms = λ i. if str_eq i id then some w.room else s.rooms i; db = w.db })

  abbrev pub in_room :
      {A : Type 0} → A → String → (World Msg → A × World Msg) → Site Msg → A × Site Msg
  in_room missing id step s = in_cached missing id step s (s.rooms id)

  -- A step on the account of a cached user.
  abbrev pub in_account : M Account (Unit {0}) → String → Site Msg → Option User → Site Msg
  in_account step id s none = s
  in_account step id s (some u) =
      let a : Account = (step (record { user = u; users = s.accounts })).1 in
      record s { users = λ i. if str_eq i id then some a.user else s.users i; accounts = a.users }

  -- `CompareAndCloseRoom` of the entry that was loaded, and `CloseRoomByID`.
  unfoldable pub close_room_by_id : String → Site Msg → Site Msg
  close_room_by_id id s = record s { rooms = λ i. if str_eq i id then none else s.rooms i }

  abbrev pub unless_created_by : String → Option (Room Msg) → Option (Room Msg)
  unless_created_by id none = none
  unless_created_by id (some r) = if str_eq r.creator_id id then none else some r

  unfoldable pub close_user_by_id : String → Site Msg → Site Msg
  close_user_by_id id s = record s {
    users = λ i. if str_eq i id then none else s.users i;
    rooms = λ i. unless_created_by id (s.rooms i);
  }

  unfoldable pub site_viewer_count : String → Site Msg → ℕ
  unfolding viewer_count
  site_viewer_count room_id s = elim (s.rooms room_id) [ some r ↦ viewer_count r | none ↦ 0 ]

module _ {Msg : Type 0} where
  abbrev pub new_room : String → RoomRow → RoomSettings → Room Msg
  new_room id row settings = record {
    id = id;
    creator_id = row.creator_id;
    hashed_password = row.hashed_password;
    status = row.status;
    settings = settings;
    members = λ u. none;
    movies = [];
    hub = none;
  }

  -- `LoadOrStore` again.
  abbrev pub store_room : String → Room Msg → Site Msg → Room Msg × Site Msg
  store_room id new s = elim (s.rooms id) [
    | some r ↦ (r, s)
    | none ↦ (new, record s { rooms = λ i. if str_eq i id then some new else s.rooms i })
  ]

abbrev pub creator_status : Result User → Result (Unit {0})
creator_status (err e) = err (wrapped "load room creator error: " e)
creator_status (ok u) =
    if is_banned u.row
    then err room_creator_banned
    else if is_pending u.row
    then err room_creator_pending
    else ok tt

-- `checksum` is CRC-32.
module _ (user_driver : UserDriver) (checksum : List ℕ → ℕ) {Msg : Type 0} where
  -- `LoadOrStore`: a user that is cached already wins.
  unfoldable pub load_or_init_user : String → UserRow → Site Msg → User × Site Msg
  load_or_init_user id row s = elim (s.users id) [
    | some u ↦ (u, s)
    | none ↦
        let u : User = record { id = id; row = row; version = checksum row.hashed_password } in
        (u, record s { users = λ i. if str_eq i id then some u else s.users i })
  ]

  unfoldable pub load_or_init_user_by_id : String → M (Site Msg) User
  unfolding load_or_init_user get_user_by_id
  load_or_init_user_by_id id s = elim (s.users id) [
    | some u ↦ (ok u, s)
    | none ↦ elim (get_user_by_id user_driver s.accounts id) [
      | err e ↦ (err e, s)
      | ok row ↦ let (u, s') = load_or_init_user id row s in (ok u, s')
    ]
  ]

  unfoldable pub load_or_init_guest_user : M (Site Msg) User
  unfolding load_or_init_user_by_id
  load_or_init_guest_user = load_or_init_user_by_id guest_user_id

  unfoldable pub get_user_name : String → Site Msg → String × Site Msg
  unfolding load_or_init_user_by_id
  get_user_name id s =
      let (result, s') = load_or_init_user_by_id id s in
      (elim result [ ok u ↦ u.row.username | err e ↦ "" ], s')

  unfoldable pub check_room_creator_status : String → M (Site Msg) (Unit {0})
  unfolding load_or_init_user_by_id is_banned is_pending
  check_room_creator_status creator_id s =
      let (result, s') = load_or_init_user_by_id creator_id s in (creator_status result, s')

  unfoldable pub load_or_init_room : String → RoomRow → RoomSettings → M (Site Msg) (Room Msg)
  unfolding check_room_creator_status
  load_or_init_room id row settings s =
      let (result, s') = check_room_creator_status row.creator_id s in
      elim result [
        | err e ↦ (err e, s')
        | ok _ ↦ let (r, s'') = store_room id (new_room id row settings) s' in (ok r, s'')
      ]

  -- A cached room, with the check of its creator.
  unfoldable pub load_cached_room : String → Room Msg → M (Site Msg) (Room Msg)
  unfolding check_room_creator_status close_room_by_id
  load_cached_room id r s =
      let (result, s') = check_room_creator_status r.creator_id s in
      elim result [
        | ok _ ↦ (ok r, s')
        | err e ↦ (err e, if is_creator_error e then close_room_by_id id s' else s')
      ]

  unfoldable pub load_room_by_id : String → M (Site Msg) (Room Msg)
  unfolding load_cached_room
  load_room_by_id id s = elim (s.rooms id) [
    | none ↦ (err (failure "room not found in cache"), s)
    | some r ↦ load_cached_room id r s
  ]

  module _ (driver : Driver) where
    -- A room that is not cached.
    unfoldable pub init_room_by_id : String → M (Site Msg) (Room Msg)
    unfolding get_room_by_id create_or_load_room_settings load_or_init_room
    init_room_by_id id s = elim (get_room_by_id driver s.db id) [
      | err e ↦ (err e, s)
      | ok row ↦
          let (result, db) = create_or_load_room_settings driver s.db id in
          elim result [
            | err e ↦ (err e, record s { db = db })
            | ok settings ↦ load_or_init_room id row settings (record s { db = db })
          ]
    ]

    unfoldable pub load_or_init_room_by_id : String → M (Site Msg) (Room Msg)
    unfolding load_cached_room init_room_by_id
    load_or_init_room_by_id id s =
        if byte_length (codes id) == 32
        then elim (s.rooms id) [ some r ↦ load_cached_room id r s | none ↦ init_room_by_id id s ]
        else (err invalid_room_id, s)

    unfoldable pub set_room_status_by_id : String → RoomStatus → M (Site Msg) (Unit {0})
    unfolding load_or_init_room_by_id set_status
    set_room_status_by_id id status s =
        let (result, s') = load_or_init_room_by_id id s in
        elim result [
          | err e ↦ (err e, s')
          | ok r ↦ in_room (err invalid_room_id) id (set_status driver status) s'
        ]
