-- ===== src/Model/User.antt =====
-- internal/model/user.go: accounts of the site.
use synctv.Base.{ℕ, String, Bool, true, false, List}

pub data Role : Type 0 where
  banned pending user admin root : Role

-- `Role.String`; the number of no role is "unknown".
unfoldable pub role_string : Role → String
role_string banned = "banned"
role_string pending = "pending"
role_string user = "user"
role_string admin = "admin"
role_string root = "root"

-- The columns of an account, without its associations and times.
pub record UserRow : Type 0 where
  pub username : String
  -- `EmptyNullString`: "" is the NULL of the table
  pub email : String
  pub hashed_password : List ℕ
  pub role : Role
  pub registered_by_email : Bool

abbrev pub is_root_role : Role → Bool
is_root_role root = true
is_root_role other = false

abbrev pub is_banned_role : Role → Bool
is_banned_role banned = true
is_banned_role other = false

abbrev pub is_pending_role : Role → Bool
is_pending_role pending = true
is_pending_role other = false

unfoldable pub is_root : UserRow → Bool
is_root u = is_root_role u.role

unfoldable pub is_admin : UserRow → Bool
unfolding is_root
is_admin u = elim u.role [ admin ↦ true | other ↦ is_root u ]

unfoldable pub is_user : UserRow → Bool
unfolding is_admin
is_user u = elim u.role [ user ↦ true | other ↦ is_admin u ]

unfoldable pub is_pending : UserRow → Bool
is_pending u = is_pending_role u.role

unfoldable pub is_banned : UserRow → Bool
is_banned u = is_banned_role u.role
