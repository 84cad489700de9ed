-- ===== src/Model/Member/Status.antt =====
-- internal/model/member.go: RoomMemberStatus. The uint8 constants are constructors.
use synctv.Base.{Bool, true, false, not, String}

pub data RoomMemberStatus : Type 0 where
  not_joined banned pending active : RoomMemberStatus

unfoldable pub to_string : RoomMemberStatus → String
to_string banned = "banned"
to_string pending = "pending"
to_string active = "active"
to_string _ = "unknown"

unfoldable pub is_pending : RoomMemberStatus → Bool
is_pending pending = true
is_pending _ = false

unfoldable pub is_active : RoomMemberStatus → Bool
is_active active = true
is_active _ = false

unfoldable pub is_not_active : RoomMemberStatus → Bool
unfolding is_active
is_not_active r = not (is_active r)

unfoldable pub is_banned : RoomMemberStatus → Bool
is_banned banned = true
is_banned _ = false
