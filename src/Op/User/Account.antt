-- ===== src/Op/User/Account.antt =====
-- internal/op/user.go: what an account changes of itself, in memory and in its row.
pub mod Saved
pub mod Own
use synctv.Base.{ℕ, String, Bool, true, false, List, str_eq, if◌then◌else◌}
use synctv.Base.Result.{Error, failure, Result, ok, err, M}
use synctv.Model.User.{Role, banned, user, admin, root, UserRow}
use synctv.Db.User.{
  Users, UserDriver, ban_user_by_id, unban_user_by_id, set_user_role_by_id, set_admin_role_by_id,
  set_root_role_by_id, set_username_by_id, set_user_hashed_password, bind_email, unbind_email,
}
use synctv.Op.User.{User, is_guest_user}

-- An account and the table of accounts.
pub record Account : Type 0 where
  pub user : User
  pub users : Users

-- A statement; if it succeeds, the same change in memory.
unfoldable pub saved :
    (Users → String → Result (Unit {0}) × Users) → (UserRow → UserRow) → M Account (Unit {0})
saved statement change a =
    let (result, users) = statement a.users a.user.id in
    elim result [
      | err e ↦ (err e, record a { users = users })
      | ok _ ↦ (ok tt, record a { user = record a.user { row = change a.user.row }; users = users })
    ]

abbrev pub not_for_guest : String → M Account (Unit {0}) → M Account (Unit {0})
not_for_guest text change a = if is_guest_user a.user then (err (failure text), a) else change a

abbrev pub with_role : Role → UserRow → UserRow
with_role role u = record u { role = role }

module _ (driver : UserDriver) where
  unfoldable pub set_user_role : M Account (Unit {0})
  unfolding saved
  set_user_role =
      not_for_guest "cannot set guest role" (saved (set_user_role_by_id driver) (with_role user))

  unfoldable pub set_admin_role : M Account (Unit {0})
  unfolding saved
  set_admin_role =
      not_for_guest "guest cannot be admin" (saved (set_admin_role_by_id driver) (with_role admin))

  unfoldable pub set_root_role : M Account (Unit {0})
  unfolding saved
  set_root_role =
      not_for_guest "guest cannot be root" (saved (set_root_role_by_id driver) (with_role root))

  unfoldable pub ban : M Account (Unit {0})
  unfolding saved
  ban = not_for_guest "guest cannot be banned" (saved (ban_user_by_id driver) (with_role banned))

  unfoldable pub unban : M Account (Unit {0})
  unfolding saved
  unban = saved (unban_user_by_id driver) (with_role user)

  unfoldable pub set_username : String → M Account (Unit {0})
  unfolding saved
  set_username username =
      saved (set_username_by_id driver username) (λ u. record u { username = username })

  unfoldable pub bind_user_email : String → M Account (Unit {0})
  unfolding saved
  bind_user_email email = saved (bind_email driver email) (λ u. record u { email = email })

  unfoldable pub unbind_user_email : M Account (Unit {0})
  unfolding saved
  unbind_user_email = saved (unbind_email driver) (λ u. record u { email = "" })

  -- `compare_hash` and `generate` are bcrypt's, and `checksum` is CRC-32. The memory changes first.
  module _ (compare_hash : List ℕ → String → Bool) (generate : String → Result (List ℕ))
      (checksum : List ℕ → ℕ) where
    abbrev pub store_hash : List ℕ → M Account (Unit {0})
    store_hash hashed a =
        let (result, users) = set_user_hashed_password driver hashed a.users a.user.id in
        (
          result,
          record {
            user = record a.user {
              row = record a.user.row { hashed_password = hashed };
              version = checksum hashed;
            };
            users = users;
          },
        )

    unfoldable pub store_hashed : Result (List ℕ) → M Account (Unit {0})
    store_hashed (err e) a = (err e, a)
    store_hashed (ok hashed) a = store_hash hashed a

    unfoldable pub set_user_password : String → M Account (Unit {0})
    unfolding store_hashed
    set_user_password password a =
        if is_guest_user a.user
        then (err (failure "guest cannot set password"), a)
        else if compare_hash a.user.row.hashed_password password
        then (err (failure "password is the same"), a)
        else store_hashed (generate password) a
