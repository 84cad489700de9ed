-- ===== src/Op/User/Account/Saved.antt =====
-- An account in memory is what its row holds, after any of its changes.
use synctv.Base.{
  ℕ, String, Bool, none, some, List, [], ◌∷◌, str_eq, ◌≡◌, refl, arith, ap, sym, ◌∙◌, inl, inr,
  Bool-cases, Option-cases, eq_iff,
}
use synctv.Base.Dict.{str_eq_refl}
use synctv.Base.Result.{Error, failure, driver_failure, Result, ok, err, M, Result-cases}
use synctv.Model.User.{Role, banned, user, admin, root, UserRow}
use synctv.Db.{handle_update_result}
use synctv.Db.User.{
  Users, UserDriver, UserQuery, select_user, update_user, update_role, update_username,
  update_password, update_email, set_role_by_id, ban_user_by_id, unban_user_by_id,
  set_user_role_by_id, set_admin_role_by_id, set_root_role_by_id, set_username_by_id,
  set_user_hashed_password, bind_email, unbind_email,
}
use synctv.Op.User.{is_guest_user}
use synctv.Op.User.Account.{
  Account, saved, not_for_guest, with_role, set_user_role, set_admin_role, set_root_role, ban,
  unban, set_username, bind_user_email, unbind_user_email, store_hashed, set_user_password,
}

pub data AccountCall : Type 0 where
  sets_user_role sets_admin_role sets_root_role bans unbans unbinds : AccountCall
  sets_username binds sets_password : String → AccountCall

module _ (driver : UserDriver) (compare_hash : List ℕ → String → Bool)
    (generate : String → Result (List ℕ)) (checksum : List ℕ → ℕ) where
  unfoldable pub account_call : AccountCall → M Account (Unit {0})
  account_call sets_user_role = set_user_role driver
  account_call sets_admin_role = set_admin_role driver
  account_call sets_root_role = set_root_role driver
  account_call bans = ban driver
  account_call unbans = unban driver
  account_call unbinds = unbind_user_email driver
  account_call (sets_username s) = set_username driver s
  account_call (binds s) = bind_user_email driver s
  account_call (sets_password s) = set_user_password driver compare_hash generate checksum s

  unfoldable pub account_run : List AccountCall → Account → Account
  account_run [] a = a
  account_run (c ∷ cs) a = account_run cs (account_call c a).1

  -- The row is the account's, and tokens are checked against the password in it.
  pub record IsSaved (a : Account) : Type 0 where
    pub row : a.users a.user.id ≡ some a.user.row
    pub version : a.user.version ≡ checksum a.user.row.hashed_password

  -- The answers of a statement on one row that is there.
  update_user-row :
      (query : UserQuery) (users : Users) (id : String) (row : UserRow) (change : UserRow → UserRow)
      → users id ≡ some row
      → ((update_user driver query users id change).0 ≡ ok tt
          → (update_user driver query users id change).1 id ≡ some (change row))
        × ((e : Error)
            → (update_user driver query users id change).0 ≡ err e
            → (update_user driver query users id change).1 ≡ users)
  unfolding update_user handle_update_result
  update_user-row query users id row change h = elim (Option-cases (driver query)) [
    | inl d ↦ (λ e. ground (arith, str_eq_refl id), λ x e. ground arith)
    | inr (t, d) ↦ (λ e. ground arith, λ x e. ground arith)
  ]

  saved-IsSaved :
      (statement : Users → String → Result (Unit {0}) × Users) (change : UserRow → UserRow)
      (a : Account)
      → ((statement a.users a.user.id).0 ≡ ok tt
          → (statement a.users a.user.id).1 a.user.id ≡ some (change a.user.row))
      → ((e : Error)
          → (statement a.users a.user.id).0 ≡ err e
          → (statement a.users a.user.id).1 ≡ a.users)
      → (change a.user.row).hashed_password ≡ a.user.row.hashed_password
      → IsSaved a
      → IsSaved (saved statement change a).1
  unfolding saved
  saved-IsSaved statement change a good bad same v =
      elim (Result-cases (statement a.users a.user.id).0) [
        | inl (x, e) ↦
            rw (e, saved) (record { row = good e; version = v.version ∙ ap checksum (sym same) })
        | inr (x, e) ↦
            rw (e, saved)
              (record { row = ap (λ t. t a.user.id) (bad x e) ∙ v.row; version = v.version })
      ]

  -- An update of another column than the password.
  updated-IsSaved :
      (query : UserQuery) (change : UserRow → UserRow) (a : Account)
      → (change a.user.row).hashed_password ≡ a.user.row.hashed_password
      → IsSaved a
      → IsSaved (saved (λ users id. update_user driver query users id change) change a).1
  updated-IsSaved query change a same v =
      let (good, bad) = update_user-row query a.users a.user.id a.user.row change v.row in
      saved-IsSaved (λ users id. update_user driver query users id change) change a good bad same v

  role-IsSaved :
      (text : String) (role : Role) (a : Account)
      → IsSaved a
      → IsSaved (not_for_guest text (saved (set_role_by_id driver role) (with_role role)) a).1
  unfolding set_role_by_id
  role-IsSaved text role a v = elim (Bool-cases (is_guest_user a.user)) [
    | inl g ↦ rw g v
    | inr g ↦ rw g (updated-IsSaved update_role (with_role role) a refl v)
  ]

  no_email : (row : UserRow) → row.email ≡ "" → row ≡ record row { email = "" }
  no_email row e = λ i. record row { email = e i }

  unbind_email-row :
      (users : Users) (id : String) (row : UserRow)
      → users id ≡ some row
      → ((unbind_email driver users id).0 ≡ ok tt
          → (unbind_email driver users id).1 id ≡ some (record row { email = "" }))
        × ((e : Error)
            → (unbind_email driver users id).0 ≡ err e
            → (unbind_email driver users id).1 ≡ users)
  unfolding unbind_email
  unbind_email-row users id row h = elim (Option-cases (driver select_user)) [
    | inr (t, d) ↦
        let is : unbind_email driver users id ≡ (err (driver_failure t), users) = ground arith in
        rw is (λ e. cc, λ x e. refl)
    | inl d ↦ elim (Bool-cases row.registered_by_email) [
      | inl b ↦
          let is : unbind_email driver users id
              ≡ (err (failure "user must have one email"), users) =
            ground arith in
          rw is (λ e. cc, λ x e. refl)
      | inr b ↦ elim (Bool-cases (str_eq row.email "")) [
        | inl n ↦
            let is : unbind_email driver users id ≡ (ok tt, users) = ground arith in
            rw is (λ e. h ∙ ap some (no_email row ((eq_iff row.email "").0 n)), λ x e. refl)
        | inr n ↦
            let is : unbind_email driver users id
                ≡ update_user driver update_email users id (λ u. record u { email = "" }) =
              ground arith in
            rw is (update_user-row update_email users id row (λ u. record u { email = "" }) h)
      ]
    ]
  ]

  unbound-IsSaved : (a : Account) → IsSaved a → IsSaved (unbind_user_email driver a).1
  unfolding unbind_user_email
  unbound-IsSaved a v =
      let (good, bad) = unbind_email-row a.users a.user.id a.user.row v.row in
      saved-IsSaved (unbind_email driver) (λ u. record u { email = "" }) a good bad refl v

  password-IsSaved :
      (password : String) (a : Account)
      → driver update_password ≡ none
      → IsSaved a
      → IsSaved (set_user_password driver compare_hash generate checksum password a).1
  unfolding set_user_password store_hashed set_user_hashed_password update_user handle_update_result
  password-IsSaved password a d v = elim (Bool-cases (is_guest_user a.user)) [
    | inl g ↦ rw g v
    | inr g ↦ elim (Bool-cases (compare_hash a.user.row.hashed_password password)) [
      | inl c ↦ rw (g, c) v
      | inr c ↦ elim (Result-cases (generate password)) [
        | inl (hashed, e) ↦
            rw (g, c, e)
              (record { row = ground (arith, d, v.row, str_eq_refl a.user.id); version = refl })
        | inr (x, e) ↦ rw (g, c, e) v
      ]
    ]
  ]

  pub call-IsSaved :
      (c : AccountCall) (a : Account)
      → driver update_password ≡ none
      → IsSaved a
      → IsSaved (account_call c a).1
  unfolding account_call set_user_role set_admin_role set_root_role ban unban set_username
      bind_user_email ban_user_by_id unban_user_by_id set_user_role_by_id set_admin_role_by_id
      set_root_role_by_id set_username_by_id bind_email set_role_by_id
  call-IsSaved sets_user_role a d v = role-IsSaved "cannot set guest role" user a v
  call-IsSaved sets_admin_role a d v = role-IsSaved "guest cannot be admin" admin a v
  call-IsSaved sets_root_role a d v = role-IsSaved "guest cannot be root" root a v
  call-IsSaved bans a d v = role-IsSaved "guest cannot be banned" banned a v
  call-IsSaved unbans a d v = updated-IsSaved update_role (with_role user) a refl v
  call-IsSaved unbinds a d v = unbound-IsSaved a v
  call-IsSaved (sets_username s) a d v =
      updated-IsSaved update_username (λ u. record u { username = s }) a refl v
  call-IsSaved (binds s) a d v = updated-IsSaved update_email (λ u. record u { email = s }) a refl v
  call-IsSaved (sets_password s) a d v = password-IsSaved s a d v

  -- If the statement that stores a password does not fail, after any changes of an account that
  -- agreed with its row, also where the database fails other statements, the account in memory is
  -- what its row holds and its version is the checksum of the password in it.
  pub account_run-IsSaved :
      (cs : List AccountCall) (a : Account)
      → driver update_password ≡ none
      → IsSaved a
      → IsSaved (account_run cs a)
  unfolding account_run
  account_run-IsSaved [] a d v = v
  account_run-IsSaved (c ∷ cs) a d v =
      account_run-IsSaved cs (account_call c a).1 d (call-IsSaved c a d v)
