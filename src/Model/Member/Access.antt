-- ===== src/Model/Member/Access.antt =====
-- What the two permission tests of a member decide.
use synctv.Base.{◌≡◌, ◌↔◌, ◌⊎◌, true, arith}
use synctv.Model.Member.Status.{active, is_active}
use synctv.Model.Member.Role.{member, admin, creator, is_creator, is_admin, is_member}
use synctv.Model.Member.Permission.{RoomMemberPermission, RoomAdminPermission, has}
use synctv.Model.Member.{RoomMember, has_permission, has_admin_permission}

-- A permission is granted exactly to administrators and creators in any status, and to active
-- plain members whose set has it.
has_permission_iff :
    (r : RoomMember) (p : RoomMemberPermission)
    → (has_permission r p ≡ true) ↔ (
        (r.role ≡ admin)
        ⊎ (r.role ≡ creator)
        ⊎ ((r.role ≡ member) × (r.status ≡ active) × (has r.permissions p ≡ true)))
unfolding has_permission is_admin is_member is_active
has_permission_iff r p = ground arith

-- An administrative permission is granted exactly to creators in any status, and to active
-- administrators whose administrative set has it.
has_admin_permission_iff :
    (r : RoomMember) (p : RoomAdminPermission)
    → (has_admin_permission r p ≡ true) ↔ (
        (r.role ≡ creator)
        ⊎ ((r.role ≡ admin) × (r.status ≡ active) × (has r.admin_permissions p ≡ true)))
unfolding has_admin_permission is_admin is_creator is_active
has_admin_permission_iff r p = ground arith
