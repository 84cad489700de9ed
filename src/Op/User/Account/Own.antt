-- ===== src/Op/User/Account/Own.antt =====
-- An account changes its own row only.
use synctv.Base.{ℕ, String, Bool, false, List, str_eq, ◌≡◌, refl, arith, inl, inr, Bool-cases}
use synctv.Base.Result.{Result, M, Result-cases}
use synctv.Model.User.{Role, user, admin, root, banned, UserRow}
use synctv.Db.User.{
  Users, UserDriver, UserQuery, update_role, update_username, update_password, update_email,
  update_user, set_role_by_id, ban_user_by_id, unban_user_by_id, set_user_role_by_id,
  set_admin_role_by_id, set_root_role_by_id, set_username_by_id, set_user_hashed_password,
  bind_email, unbind_email,
}
use synctv.Op.User.{is_guest_user}
use synctv.Op.User.Account.{
  Account, saved, not_for_guest, with_role, set_user_role, set_admin_role, set_root_role, ban,
  unban, set_username, bind_user_email, unbind_user_email, store_hashed, set_user_password,
}
use synctv.Op.User.Account.Saved.{
  AccountCall, sets_user_role, sets_admin_role, sets_root_role, bans, unbans, unbinds,
  sets_username, binds, sets_password, account_call,
}

pub record IsOwn (a b : Account) : Type 0 where
  pub same_id : b.user.id ≡ a.user.id
  pub others : (k : String) → str_eq k a.user.id ≡ false → b.users k ≡ a.users k

-- A statement on one row.
abbrev IsOnRow : (Users → String → Result (Unit {0}) × Users) → Type 0
IsOnRow f = (users : Users) (id k : String) → str_eq k id ≡ false → (f users id).1 k ≡ users k

update-IsOnRow :
    (driver : UserDriver) (query : UserQuery) (change : UserRow → UserRow)
    → IsOnRow (λ users id. update_user driver query users id change)
unfolding update_user
update-IsOnRow driver query change users id k h = ground arith

unbind-IsOnRow : (driver : UserDriver) → IsOnRow (unbind_email driver)
unfolding unbind_email update_user
unbind-IsOnRow driver users id k h = ground arith

self-IsOwn : (a : Account) → IsOwn a a
self-IsOwn a = record { same_id = refl; others = λ k h. refl }

saved-IsOwn :
    (f : Users → String → Result (Unit {0}) × Users) (change : UserRow → UserRow) (a : Account)
    → IsOnRow f
    → IsOwn a (saved f change a).1
unfolding saved
saved-IsOwn f change a h = elim (Result-cases (f a.users a.user.id).0) [
  | inl (x, e) ↦ rw (e, saved) (record { same_id = refl; others = λ k o. h a.users a.user.id k o })
  | inr (x, e) ↦ rw (e, saved) (record { same_id = refl; others = λ k o. h a.users a.user.id k o })
]

not_for_guest-IsOwn :
    (text : String) (f : M Account (Unit {0})) (a : Account)
    → IsOwn a (f a).1
    → IsOwn a (not_for_guest text f a).1
not_for_guest-IsOwn text f a h = elim (Bool-cases (is_guest_user a.user)) [
  | inl g ↦ rw g (self-IsOwn a)
  | inr g ↦ rw g h
]

module _ (driver : UserDriver) (compare_hash : List ℕ → String → Bool)
    (generate : String → Result (List ℕ)) (checksum : List ℕ → ℕ) where
  updated-IsOwn :
      (query : UserQuery) (change : UserRow → UserRow) (a : Account)
      → IsOwn a (saved (λ users id. update_user driver query users id change) change a).1
  updated-IsOwn query change a =
      saved-IsOwn (λ users id. update_user driver query users id change) change a
        (update-IsOnRow driver query change)

  role-IsOwn :
      (text : String) (role : Role) (a : Account)
      → IsOwn a (not_for_guest text (saved (set_role_by_id driver role) (with_role role)) a).1
  unfolding set_role_by_id
  role-IsOwn text role a =
      not_for_guest-IsOwn text (saved (set_role_by_id driver role) (with_role role)) a
        (updated-IsOwn update_role (with_role role) a)

  password-IsOwn :
      (password : String) (a : Account)
      → IsOwn a (set_user_password driver compare_hash generate checksum password a).1
  unfolding set_user_password store_hashed set_user_hashed_password
  password-IsOwn password a = elim (Bool-cases (is_guest_user a.user)) [
    | inl g ↦ rw g (self-IsOwn a)
    | inr g ↦ elim (Bool-cases (compare_hash a.user.row.hashed_password password)) [
      | inl c ↦ rw (g, c) (self-IsOwn a)
      | inr c ↦ elim (Result-cases (generate password)) [
        | inl (hashed, e) ↦
            rw (g, c, e)
              (record {
                same_id = refl;
                others = λ k o.
                    update-IsOnRow driver update_password
                      (λ u. record u { hashed_password = hashed }) a.users a.user.id k o;
              })
        | inr (x, e) ↦ rw (g, c, e) (self-IsOwn a)
      ]
    ]
  ]

  pub call-IsOwn :
      (c : AccountCall) (a : Account)
      → IsOwn a (account_call driver compare_hash generate checksum c a).1
  unfolding account_call set_user_role set_admin_role set_root_role ban unban set_username
      bind_user_email unbind_user_email ban_user_by_id unban_user_by_id set_user_role_by_id
      set_admin_role_by_id set_root_role_by_id set_username_by_id bind_email set_role_by_id
  call-IsOwn sets_user_role a = role-IsOwn "cannot set guest role" user a
  call-IsOwn sets_admin_role a = role-IsOwn "guest cannot be admin" admin a
  call-IsOwn sets_root_role a = role-IsOwn "guest cannot be root" root a
  call-IsOwn bans a = role-IsOwn "guest cannot be banned" banned a
  call-IsOwn unbans a = updated-IsOwn update_role (with_role user) a
  call-IsOwn unbinds a =
      saved-IsOwn (unbind_email driver) (λ u. record u { email = "" }) a (unbind-IsOnRow driver)
  call-IsOwn (sets_username s) a = updated-IsOwn update_username (λ u. record u { username = s }) a
  call-IsOwn (binds s) a = updated-IsOwn update_email (λ u. record u { email = s }) a
  call-IsOwn (sets_password s) a = password-IsOwn s a
