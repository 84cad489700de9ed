-- ===== src/Db/User.antt =====
-- internal/db/user.go: the statements that an account makes on its own row. A failed statement
-- leaves the table as it was.
use synctv.Base.{ℕ, String, Option, none, some, List, str_eq, ◌==◌, if◌then◌else◌}
use synctv.Base.Text.{codes, byte_length}
use synctv.Base.Result.{failure, not_found, driver_failure, Result, ok, err}
use synctv.Model.User.{Role, banned, user, admin, root, UserRow}
use synctv.Db.{handle_update_result}

abbrev pub Users : Type 0
Users = String → Option UserRow

-- The driver's answer to the statements of an account: its updates, and the query of one row.
pub data UserQuery : Type 0 where
  select_user update_role update_username update_password update_email : UserQuery

abbrev pub UserDriver : Type 0
UserDriver = UserQuery → Option String

abbrev user_not_found : String
user_not_found = "user"

module _ (driver : UserDriver) where
  unfoldable pub get_user_by_id : Users → String → Result UserRow
  get_user_by_id users id =
      if byte_length (codes id) == 32
      then elim (driver select_user) [
        | some e ↦ err (driver_failure e)
        | none ↦ elim (users id) [ some row ↦ ok row | none ↦ err (not_found user_not_found) ]
      ]
      else err (failure "user id is not 32 bit")

  -- `Model(&User{}).Where("id = ?", id).Update(…)`
  unfoldable pub update_user :
      UserQuery → Users → String → (UserRow → UserRow) → Result (Unit {0}) × Users
  unfolding handle_update_result
  update_user query users id change = elim (driver query) [
    | some e ↦ (
      handle_update_result (record { error = some (driver_failure e); rows_affected = 0 })
          user_not_found,
      users,
    )
    | none ↦ elim (users id) [
      | none ↦
          (handle_update_result (record { error = none; rows_affected = 0 }) user_not_found, users)
      | some row ↦ (
        handle_update_result (record { error = none; rows_affected = 1 }) user_not_found,
        λ u. if str_eq u id then some (change row) else users u,
      )
    ]
  ]

  unfoldable pub set_role_by_id : Role → Users → String → Result (Unit {0}) × Users
  unfolding update_user
  set_role_by_id role users id = update_user update_role users id (λ u. record u { role = role })

  unfoldable pub ban_user_by_id : Users → String → Result (Unit {0}) × Users
  unfolding set_role_by_id
  ban_user_by_id = set_role_by_id banned

  unfoldable pub unban_user_by_id : Users → String → Result (Unit {0}) × Users
  unfolding set_role_by_id
  unban_user_by_id = set_role_by_id user

  unfoldable pub set_user_role_by_id : Users → String → Result (Unit {0}) × Users
  unfolding set_role_by_id
  set_user_role_by_id = set_role_by_id user

  unfoldable pub set_admin_role_by_id : Users → String → Result (Unit {0}) × Users
  unfolding set_role_by_id
  set_admin_role_by_id = set_role_by_id admin

  unfoldable pub set_root_role_by_id : Users → String → Result (Unit {0}) × Users
  unfolding set_role_by_id
  set_root_role_by_id = set_role_by_id root

  unfoldable pub set_username_by_id : String → Users → String → Result (Unit {0}) × Users
  unfolding update_user
  set_username_by_id username users id =
      update_user update_username users id (λ u. record u { username = username })

  unfoldable pub set_user_hashed_password : List ℕ → Users → String → Result (Unit {0}) × Users
  unfolding update_user
  set_user_hashed_password hashed users id =
      update_user update_password users id (λ u. record u { hashed_password = hashed })

  unfoldable pub bind_email : String → Users → String → Result (Unit {0}) × Users
  unfolding update_user
  bind_email email users id = update_user update_email users id (λ u. record u { email = email })

  -- One transaction.
  unfoldable pub unbind_email : Users → String → Result (Unit {0}) × Users
  unfolding update_user
  unbind_email users id = elim (driver select_user) [
    | some e ↦ (err (driver_failure e), users)
    | none ↦ elim (users id) [
      | none ↦ (err (not_found user_not_found), users)
      | some row ↦
          if row.registered_by_email
          then (err (failure "user must have one email"), users)
          else if str_eq row.email ""
          then (ok tt, users)
          else update_user update_email users id (λ u. record u { email = "" })
    ]
  ]
