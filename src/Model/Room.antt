-- ===== src/Model/Room.antt =====
-- internal/model/room.go: the status and the settings of a room.
use synctv.Base.{Bool, true, false, String}
use synctv.Model.Member.Permission.{RoomMemberPermission, default_permissions, no_permission}

pub data RoomStatus : Type 0 where
  banned pending active : RoomStatus

unfoldable pub status_string : RoomStatus → String
status_string banned = "banned"
status_string pending = "pending"
status_string active = "active"

-- The `ID` and the time of the last update belong to the database layer.
pub record RoomSettings : Type 0 where
  pub user_default_permissions : RoomMemberPermission
  pub guest_permissions : RoomMemberPermission
  pub disable_guest : Bool
  pub join_need_review : Bool
  pub disable_join_new_user : Bool
  pub hidden : Bool
  pub can_get_movie_list : Bool
  pub can_add_movie : Bool
  pub can_delete_movie : Bool
  pub can_edit_movie : Bool
  pub can_set_current_movie : Bool
  pub can_set_current_status : Bool
  pub can_send_chat_message : Bool

abbrev pub default_room_settings : RoomSettings
default_room_settings = record {
  user_default_permissions = default_permissions;
  guest_permissions = no_permission;
  disable_guest = false;
  join_need_review = false;
  disable_join_new_user = false;
  hidden = false;
  can_get_movie_list = true;
  can_add_movie = true;
  can_delete_movie = true;
  can_edit_movie = true;
  can_set_current_movie = true;
  can_set_current_status = true;
  can_send_chat_message = true;
}
