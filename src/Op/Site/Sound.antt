-- ===== src/Op/Site/Sound.antt =====
-- The caches of users and of rooms agree with the tables, and loading keeps them so.
use synctv.Base.{
  ℕ, String, false, some, List, str_eq, eq_iff, ◌≡◌, refl, arith, sym, ◌∙◌, inl, inr, Bool-cases,
  Option-cases, if◌then◌else◌, if_true, if_false,
}
use synctv.Base.Result.{Result, ok, Result-cases}
use synctv.Model.User.{UserRow, is_banned, is_pending}
use synctv.Db.{Db, RoomRow}
use synctv.Db.User.{Users, UserDriver, get_user_by_id}
use synctv.Op.Room.{Room}
use synctv.Op.Room.Coherence.{IsCoherent}
use synctv.Op.User.{User}
use synctv.Op.Site.{Site, load_or_init_user, load_or_init_user_by_id}

-- The row of a room in memory.
abbrev pub row_of : {Msg : Type 0} → Room Msg → RoomRow
row_of r = record {
  creator_id = r.creator_id;
  hashed_password = r.hashed_password;
  status = r.status;
}

pub record IsTrueRoom {Msg : Type 0} (db : Db) (id : String) (r : Room Msg) : Type 0 where
  pub same_id : r.id ≡ id
  pub row : db.rooms id ≡ some (row_of r)
  pub coherent : IsCoherent (record { room = r; db = db })

pub record IsTrueUser (checksum : List ℕ → ℕ) (accounts : Users) (id : String) (u : User)
    : Type 0 where
  pub same_id : u.id ≡ id
  pub row : accounts id ≡ some u.row
  pub version : u.version ≡ checksum u.row.hashed_password

pub record IsSound {Msg : Type 0} (checksum : List ℕ → ℕ) (s : Site Msg) : Type 0 where
  pub users : (id : String) (u : User) → s.users id ≡ some u → IsTrueUser checksum s.accounts id u
  pub rooms : (id : String) (r : Room Msg) → s.rooms id ≡ some r → IsTrueRoom s.db id r

-- A row of an account that may enter.
abbrev pub IsGood : Users → String → Type 0
IsGood accounts id =
    (row : UserRow) × (accounts id ≡ some row) × (is_banned row ≡ false) × (is_pending row ≡ false)

get_user_by_id-row :
    (driver : UserDriver) (users : Users) (id : String) (row : UserRow)
    → get_user_by_id driver users id ≡ ok row
    → users id ≡ some row
unfolding get_user_by_id
get_user_by_id-row driver users id row e = ground arith

new_user-IsTrueUser :
    (checksum : List ℕ → ℕ) (id : String) (row : UserRow) (accounts : Users)
    → accounts id ≡ some row
    → IsTrueUser checksum accounts id
        (record { id = id; row = row; version = checksum row.hashed_password })
new_user-IsTrueUser checksum id row accounts e = record { same_id = refl; row = e; version = refl }

module _ (user_driver : UserDriver) (checksum : List ℕ → ℕ) {Msg : Type 0} where
  -- What a load of a user leaves and gives.
  pub record IsUserLoad (id : String) (s : Site Msg) (r : Result User × Site Msg) : Type 0 where
    pub sound : IsSound checksum r.1
    pub accounts : r.1.accounts ≡ s.accounts
    pub db : r.1.db ≡ s.db
    pub rooms : r.1.rooms ≡ s.rooms
    pub gives : (u : User) → r.0 ≡ ok u → IsTrueUser checksum s.accounts id u

  stored_user-IsSound :
      (id : String) (u : User) (s : Site Msg)
      → IsSound checksum s
      → IsTrueUser checksum s.accounts id u
      → IsSound checksum (record s { users = λ i. if str_eq i id then some u else s.users i })
  stored_user-IsSound id u s h t = record {
    users = λ i v e. elim (Bool-cases (str_eq i id)) [
      | inl hit ↦
          let same : some u ≡ some v = sym (if_true (str_eq i id) _ _ hit) ∙ e in
          let is : u ≡ v = cc same in let name : i ≡ id = (eq_iff i id).0 hit in rw (name, ← is) t
      | inr miss ↦ h.users i v (sym (if_false (str_eq i id) _ _ miss) ∙ e)
    ];
    rooms = h.rooms;
  }

  pub user-IsUserLoad :
      (id : String) (s : Site Msg)
      → IsSound checksum s
      → IsUserLoad id s (load_or_init_user_by_id user_driver checksum id s)
  unfolding load_or_init_user_by_id load_or_init_user
  user-IsUserLoad id s h = elim (Option-cases (s.users id)) [
    | inr (u, e) ↦
        let t = h.users id u e in
        rw (e, load_or_init_user_by_id)
          (record {
            sound = h;
            accounts = refl;
            db = refl;
            rooms = refl;
            gives = λ v k. let is : u ≡ v = cc k in rw (← is) t;
          })
    | inl e ↦ elim (Result-cases (get_user_by_id user_driver s.accounts id)) [
      | inr (x, g) ↦
          rw (e, g, load_or_init_user_by_id)
            (record {
              sound = h;
              accounts = refl;
              db = refl;
              rooms = refl;
              gives = λ v k. absurd (cc k);
            })
      | inl (row, g) ↦
          let t =
            new_user-IsTrueUser checksum id row s.accounts
              (get_user_by_id-row user_driver s.accounts id row g) in
          let u : User = record { id = id; row = row; version = checksum row.hashed_password } in
          rw (e, g, load_or_init_user_by_id, e, load_or_init_user)
            (record {
              sound = stored_user-IsSound id u s h t;
              accounts = refl;
              db = refl;
              rooms = refl;
              gives = λ v k. let is : u ≡ v = cc k in rw (← is) t;
            })
    ]
  ]
