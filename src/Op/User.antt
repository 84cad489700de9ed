-- ===== src/Op/User.antt =====
-- internal/op/user.go: an account in memory.
pub mod Account
pub mod Members
use synctv.Base.{ℕ, String, Bool, true, false, List, str_eq, ◌==◌}
use synctv.Model.User.{UserRow, is_admin}
use synctv.Op.Room.{guest_user_id}

pub record User : Type 0 where
  pub id : String
  pub row : UserRow
  -- a checksum of the hashed password, by which tokens are checked
  pub version : ℕ

unfoldable pub check_version : User → ℕ → Bool
check_version u version = u.version == version

unfoldable pub is_site_admin : User → Bool
is_site_admin u = is_admin u.row

unfoldable pub is_guest_user : User → Bool
is_guest_user u = str_eq u.id guest_user_id
