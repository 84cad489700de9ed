-- ===== src/Op/Room.antt =====
-- internal/op/room.go: a room in memory. It keeps a cache of its members and, once somebody has
-- connected, a hub. `World` adds the database. Each method is one step on it: the caches are
-- concurrent maps and a room's methods take no lock across their calls.
pub mod Members
pub mod Changes
pub mod Settings
pub mod Coherence
pub mod Access
pub mod Effects
pub mod Password
use synctv.Base.{ℕ, String, Bool, true, false, Option, none, some, List, [], str_eq, if◌then◌else◌}
use synctv.Base.Result.{Error, Result, ok, err, M}
use synctv.Model.Member.{RoomMember}
use synctv.Model.Room.{RoomStatus, RoomSettings}
use synctv.Model.Movie.{Movie}
use synctv.Db.{Db}
use synctv.Op.Client.{Client}
use synctv.Op.Hub.{
  Hub, new_hub, kick_user, client_num, BroadcastMessage, broadcast_message, send_to_user, close_hub,
}

pub record Room (Msg : Type 0) : Type 0 where
  pub id : String
  pub creator_id : String
  pub hashed_password : List ℕ
  pub status : RoomStatus
  pub settings : RoomSettings
  -- the cache of members by user
  pub members : String → Option RoomMember
  -- the cache of movies by id
  pub movies : List (String × Movie)
  -- `nil` until it is first needed
  pub hub : Option (Hub Msg)

pub record World (Msg : Type 0) : Type 0 where
  pub room : Room Msg
  pub db : Db

abbrev pub guest_user_id : String
guest_user_id = "00000000000000000000000000000001"

module _ {Msg : Type 0} where
  unfoldable pub is_creator : Room Msg → String → Bool
  is_creator r user_id = str_eq r.creator_id user_id

  unfoldable pub is_guest : Room Msg → String → Bool
  is_guest r user_id = str_eq user_id guest_user_id

  unfoldable pub hub_is_not_inited : Room Msg → Bool
  hub_is_not_inited r = elim r.hub [ none ↦ true | some _ ↦ false ]

  unfoldable pub lazy_init_hub : Room Msg → Hub Msg × Room Msg
  lazy_init_hub r = elim r.hub [
    | some h ↦ (h, r)
    | none ↦ let h : Hub Msg = new_hub r.id in (h, record r { hub = some h })
  ]

  unfoldable pub viewer_count : Room Msg → ℕ
  viewer_count r = elim r.hub [ none ↦ 0 | some h ↦ client_num h ]

  unfoldable pub kick_room_user : String → M (Room Msg) (Unit {0})
  kick_room_user user_id r = elim r.hub [
    | none ↦ (ok tt, r)
    | some h ↦ let (result, h') = kick_user user_id h in (result, record r { hub = some h' })
  ]

  -- `none`: the channel of a connection is full, and the call waits.
  unfoldable pub send_to_user_with_id :
      String → Msg → Room Msg → Option (Result (Unit {0}) × Room Msg)
  send_to_user_with_id user_id msg r = elim r.hub [
    | none ↦ some (ok tt, r)
    | some h ↦ elim (send_to_user user_id msg h) [
      | none ↦ none
      | some (result, h') ↦ some (result, record r { hub = some h' })
    ]
  ]

  -- `none`: the hub's channel is full, and the call waits.
  unfoldable pub broadcast_room :
      Msg
      → List (BroadcastMessage Msg → BroadcastMessage Msg)
      → Room Msg
      → Option (Result (Unit {0}) × Room Msg)
  broadcast_room msg conf r = elim r.hub [
    | none ↦ some (ok tt, r)
    | some h ↦ elim (broadcast_message msg conf h) [
      | none ↦ none
      | some (result, h') ↦ some (result, record r { hub = some h' })
    ]
  ]

  -- The cache of members after `Delete`.
  abbrev pub forget : String → Room Msg → Room Msg
  forget user_id r = record r { members = λ u. if str_eq u user_id then none else r.members u }

  -- The result holds the connections as the hub's `Close` leaves them. The movies are closed too;
  -- their errors are dropped.
  unfoldable pub close_room : Room Msg → List (Client Msg) × Room Msg
  close_room r =
      let closed : List (Client Msg) = elim r.hub [
        | none ↦ []
        | some h ↦ elim (close_hub h).0 [ ok cs ↦ cs | err _ ↦ [] ]
      ] in
      (closed, record r { hub = none; movies = []; members = λ u. none })
