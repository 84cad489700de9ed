-- ===== src/Model/Member/Permission.antt =====
-- internal/model/member.go: the two uint32 permission sets, which share `Has`, `Add` and `Remove`.
pub mod Laws
use synctv.Base.{ℕ, ◌-◌, ◌^◌, Bool, bit_and, bit_or, ◌==◌}

abbrev pub RoomMemberPermission : Type 0
RoomMemberPermission = ℕ

abbrev pub RoomAdminPermission : Type 0
RoomAdminPermission = ℕ

abbrev pub max_uint32 : ℕ
max_uint32 = 2 ^ 32 - 1

-- `^p` on a uint32.
abbrev pub complement : ℕ → ℕ
complement p = 2 ^ 32 - 1 - p

abbrev pub get_movie_list : RoomMemberPermission
get_movie_list = 1

abbrev pub add_movie : RoomMemberPermission
add_movie = 2

abbrev pub delete_movie : RoomMemberPermission
delete_movie = 4

abbrev pub edit_movie : RoomMemberPermission
edit_movie = 8

abbrev pub set_current_movie : RoomMemberPermission
set_current_movie = 16

abbrev pub set_current_status : RoomMemberPermission
set_current_status = 32

abbrev pub send_chat_message : RoomMemberPermission
send_chat_message = 64

abbrev pub web_rtc : RoomMemberPermission
web_rtc = 128

abbrev pub all_permissions : RoomMemberPermission
all_permissions = max_uint32

abbrev pub no_permission : RoomMemberPermission
no_permission = 0

abbrev pub default_permissions : RoomMemberPermission
default_permissions = bit_or (bit_or get_movie_list send_chat_message) web_rtc

abbrev pub approve_pending_member : RoomAdminPermission
approve_pending_member = 1

abbrev pub ban_room_member : RoomAdminPermission
ban_room_member = 2

abbrev pub set_user_permission : RoomAdminPermission
set_user_permission = 4

abbrev pub set_room_settings : RoomAdminPermission
set_room_settings = 8

abbrev pub set_room_password : RoomAdminPermission
set_room_password = 16

abbrev pub delete_room : RoomAdminPermission
delete_room = 32

abbrev pub all_admin_permissions : RoomAdminPermission
all_admin_permissions = max_uint32

abbrev pub no_admin_permission : RoomAdminPermission
no_admin_permission = 0

abbrev pub default_admin_permissions : RoomAdminPermission
default_admin_permissions =
    bit_or
      (bit_or (bit_or (bit_or approve_pending_member ban_room_member) set_user_permission)
        set_room_settings)
      set_room_password

unfoldable pub has : ℕ → ℕ → Bool
has p permission = bit_and p permission == permission

unfoldable pub add : ℕ → ℕ → ℕ
add p permission = bit_or p permission

-- `p &^ permission`.
unfoldable pub remove : ℕ → ℕ → ℕ
remove p permission = bit_and p (complement permission)
