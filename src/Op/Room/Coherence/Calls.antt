-- ===== src/Op/Room/Coherence/Calls.antt =====
-- internal/op/room.go: the calls on a room, and histories of them.
use synctv.Base.{String, Bool, ℕ, List, [], ◌∷◌}
use synctv.Base.Result.{Result}
use synctv.Model.Member.Permission.{RoomMemberPermission, RoomAdminPermission}
use synctv.Model.Room.{RoomSettings, RoomStatus}
use synctv.Db.{Driver}
use synctv.Op.Room.{World, kick_room_user}
use synctv.Op.Room.Members.{
  load_member, load_or_create_member, has_permission, room_has_admin_permission,
}
use synctv.Op.Room.Settings.{set_settings, update_settings, set_status, set_password, on_room}
use synctv.Op.Room.Changes
use synctv.Op.Room.Changes.{then_forget, for_admin, when_admin}

-- The calls on a room that concern its members, settings, status and password.
pub data Call : Type 0 where
  loads loads_or_creates kicks approves bans unbans deletes resets resets_admin : String → Call
  asks_permission : String → RoomMemberPermission → Call
  asks_admin_permission : String → RoomAdminPermission → Call
  sets_permissions adds_permissions removes_permissions sets_member :
      String → RoomMemberPermission → Call
  sets_admin sets_admin_permissions adds_admin_permissions removes_admin_permissions :
      String → RoomAdminPermission → Call
  sets_settings : RoomSettings → Call
  updates_settings : (RoomSettings → RoomSettings) → Call
  sets_status : RoomStatus → Call
  sets_password : String → Call

module _ (driver : Driver) (enable_guest : Bool) (compare_hash : List ℕ → String → Bool)
    (generate : String → Result (List ℕ)) {Msg : Type 0} where
  unfoldable pub call : Call → World Msg → World Msg
  call (loads u) w = (load_member driver enable_guest u w).1
  call (loads_or_creates u) w = (load_or_create_member driver enable_guest u w).1
  call (kicks u) w = (on_room (kick_room_user u) w).1
  call (approves u) w = (Changes.approve_pending_member driver u w).1
  call (bans u) w = (Changes.ban_member driver u w).1
  call (unbans u) w = (Changes.unban_member driver u w).1
  call (deletes u) w = (Changes.delete_member driver u w).1
  call (resets u) w = (Changes.reset_member_permissions driver u w).1
  call (resets_admin u) w = (Changes.reset_admin_permissions driver enable_guest u w).1
  call (asks_permission u p) w = (has_permission driver enable_guest u p w).1
  call (asks_admin_permission u p) w = (room_has_admin_permission driver enable_guest u p w).1
  call (sets_permissions u p) w = (Changes.set_member_permissions driver u p w).1
  call (adds_permissions u p) w = (Changes.add_member_permissions driver enable_guest u p w).1
  call (removes_permissions u p) w = (Changes.remove_member_permissions driver enable_guest u p w).1
  call (sets_member u p) w = (Changes.set_member driver u p w).1
  call (sets_admin u p) w = (Changes.set_admin driver u p w).1
  call (sets_admin_permissions u p) w = (Changes.set_admin_permissions driver enable_guest u p w).1
  call (adds_admin_permissions u p) w = (Changes.add_admin_permissions driver enable_guest u p w).1
  call (removes_admin_permissions u p) w =
      (Changes.remove_admin_permissions driver enable_guest u p w).1
  call (sets_settings rs) w = (set_settings driver rs w).1
  call (updates_settings columns) w = (update_settings driver columns w).1
  call (sets_status status) w = (set_status driver status w).1
  call (sets_password password) w = (set_password driver compare_hash generate password w).1

  unfoldable pub run : List Call → World Msg → World Msg
  run [] w = w
  run (c ∷ cs) w = run cs (call c w)
