-- ===== src/Op/User/Members/Calls.antt =====
-- The calls by which a user changes a room, as values.
use synctv.Base.{ℕ, String, Bool, List}
use synctv.Base.Result.{Result, M}
use synctv.Model.Member.Permission.{RoomMemberPermission, RoomAdminPermission}
use synctv.Model.Room.{RoomSettings}
use synctv.Db.{Driver}
use synctv.Op.Room.{World}
use synctv.Op.User.{User}
use synctv.Op.User.Members.{
  Notice, SiteSettings, ban_user_member, unban_user_member, delete_user_member, approve_user_member,
  set_user_room_settings, update_user_room_settings, set_user_room_password, set_user_permissions,
  add_user_permissions, remove_user_permissions, reset_user_permissions, set_user_room_admin,
  set_user_room_member, set_user_admin_permissions, add_user_admin_permissions,
  remove_user_admin_permissions, reset_user_admin_permissions,
}

-- The calls by which a user changes the members, the settings or the password of a room.
pub data Change : Type 0 where
  bans unbans deletes approves resets resets_admin : String → Change
  sets adds removes makes_member : String → RoomMemberPermission → Change
  makes_admin sets_admin adds_admin removes_admin : String → RoomAdminPermission → Change
  sets_settings : RoomSettings → Change
  updates_settings : (RoomSettings → RoomSettings) → Change
  sets_password : String → Change

module _ (driver : Driver) (enable_guest : Bool) (compare_hash : List ℕ → String → Bool)
    (generate : String → Result (List ℕ)) (site : SiteSettings) {Msg : Type 0}
    (status : Notice Msg) where
  unfoldable pub change : User → Change → M (World Msg) (Unit {0})
  change u (bans t) = ban_user_member driver enable_guest u t
  change u (unbans t) = unban_user_member driver enable_guest u t
  change u (deletes t) = delete_user_member driver enable_guest u t
  change u (approves t) = approve_user_member driver enable_guest u t
  change u (resets t) = reset_user_permissions driver enable_guest status u t
  change u (resets_admin t) = reset_user_admin_permissions driver enable_guest status u t
  change u (sets t p) = set_user_permissions driver enable_guest status u t p
  change u (adds t p) = add_user_permissions driver enable_guest status u t p
  change u (removes t p) = remove_user_permissions driver enable_guest status u t p
  change u (makes_member t p) = set_user_room_member driver enable_guest status u t p
  change u (makes_admin t p) = set_user_room_admin driver enable_guest status u t p
  change u (sets_admin t p) = set_user_admin_permissions driver enable_guest status u t p
  change u (adds_admin t p) = add_user_admin_permissions driver enable_guest status u t p
  change u (removes_admin t p) = remove_user_admin_permissions driver enable_guest status u t p
  change u (sets_settings s) = set_user_room_settings driver enable_guest u s
  change u (updates_settings f) = update_user_room_settings driver enable_guest u f
  change u (sets_password p) =
      set_user_room_password driver enable_guest compare_hash generate site u p
