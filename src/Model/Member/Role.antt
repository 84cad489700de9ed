-- ===== src/Model/Member/Role.antt =====
-- internal/model/member.go: RoomMemberRole. The uint8 constants are constructors.
use synctv.Base.{Bool, true, false, ◌||◌, String}

pub data RoomMemberRole : Type 0 where
  unknown member admin creator : RoomMemberRole

unfoldable pub to_string : RoomMemberRole → String
to_string member = "member"
to_string admin = "admin"
to_string creator = "creator"
to_string _ = "unknown"

unfoldable pub is_creator : RoomMemberRole → Bool
is_creator creator = true
is_creator _ = false

equals_admin : RoomMemberRole → Bool
equals_admin admin = true
equals_admin _ = false

equals_member : RoomMemberRole → Bool
equals_member member = true
equals_member _ = false

unfoldable pub is_admin : RoomMemberRole → Bool
unfolding equals_admin is_creator
is_admin r = equals_admin r || is_creator r

unfoldable pub is_member : RoomMemberRole → Bool
unfolding equals_member is_admin
is_member r = equals_member r || is_admin r
