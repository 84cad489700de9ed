-- ===== src/Model/Member.antt =====
-- internal/model/member.go: the record of a room member and the two permission tests on it.
-- `CreatedAt` and `UpdatedAt` are written by the database layer only and are left out.
pub mod Status
pub mod Role
pub mod Permission
pub mod Access
use synctv.Base.{Bool, true, false, not, String, if◌then◌else◌}
use Status.{RoomMemberStatus}
use Status
use Role.{RoomMemberRole}
use Role
use Permission.{RoomMemberPermission, RoomAdminPermission, has}

pub record RoomMember : Type 0 where
  pub user_id : String
  pub room_id : String
  pub permissions : RoomMemberPermission
  pub admin_permissions : RoomAdminPermission
  pub status : RoomMemberStatus
  pub role : RoomMemberRole

unfoldable pub has_permission : RoomMember → RoomMemberPermission → Bool
has_permission r permission =
    if Role.is_admin r.role
    then true
    else if not (Role.is_member r.role)
    then false
    else if not (Status.is_active r.status)
    then false
    else has r.permissions permission

unfoldable pub has_admin_permission : RoomMember → RoomAdminPermission → Bool
has_admin_permission r permission =
    if Role.is_creator r.role
    then true
    else if not (Role.is_admin r.role)
    then false
    else if not (Status.is_active r.status)
    then false
    else has r.admin_permissions permission
