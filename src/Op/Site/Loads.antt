-- ===== src/Op/Site/Loads.antt =====
-- What a load of a room leaves of the site and gives.
use synctv.Base.{
  ℕ, String, false, none, some, List, str_eq, eq_iff, ◌≡◌, refl, arith, ap, sym, ◌∙◌, inl, inr,
  Bool-cases, if◌then◌else◌, if_true, if_false,
}
use synctv.Base.Dict.{str_eq_refl}
use synctv.Base.Result.{Result, ok, err, Result-cases}
use synctv.Model.User.{is_banned, is_pending}
use synctv.Model.Room.{RoomSettings}
use synctv.Db.{Driver, Db, RoomRow}
use synctv.Db.User.{UserDriver}
use synctv.Db.Room.{get_room_by_id, create_or_load_room_settings}
use synctv.Op.Room.{Room}
use synctv.Op.User.{User}
use synctv.Op.Site.{
  Site, load_or_init_user_by_id, check_room_creator_status, creator_status, load_or_init_room,
  load_cached_room, close_room_by_id, new_room, store_room, is_creator_error,
}
use synctv.Op.Site.Sound.{IsTrueRoom, IsSound, IsGood, user-IsUserLoad}

pub get_room_by_id-row :
    (driver : Driver) (db : Db) (id : String) (row : RoomRow)
    → get_room_by_id driver db id ≡ ok row
    → db.rooms id ≡ some row
unfolding get_room_by_id
get_room_by_id-row driver db id row e = ground arith

pub settings_kept :
    (driver : Driver) (db : Db) (id : String)
    → ((create_or_load_room_settings driver db id).1.members ≡ db.members)
      × ((create_or_load_room_settings driver db id).1.rooms ≡ db.rooms)
unfolding create_or_load_room_settings
settings_kept driver db id = (ground arith, ground arith)

creator_status_ok :
    (result : Result User)
    → creator_status result ≡ ok tt
    → (u : User) × (result ≡ ok u) × (is_banned u.row ≡ false) × (is_pending u.row ≡ false)
creator_status_ok (err e) h = cc
creator_status_ok (ok u) h = (u, refl, ground arith, ground arith)

module _ {Msg : Type 0} (checksum : List ℕ → ℕ) where
  -- The tables of rooms and members are read only.
  pub db-IsSound :
      (s : Site Msg) (db : Db)
      → db.members ≡ s.db.members
      → db.rooms ≡ s.db.rooms
      → IsSound checksum s
      → IsSound checksum (record s { db = db })
  db-IsSound s db members table h = record {
    users = h.users;
    rooms = λ id r e.
        let t = h.rooms id r e in
        record {
          same_id = t.same_id;
          row = ap (λ f. f id) table ∙ t.row;
          coherent = λ u. rw members (t.coherent u);
        };
  }

  pub closed-IsSound :
      (id : String) (s : Site Msg) → IsSound checksum s → IsSound checksum (close_room_by_id id s)
  unfolding close_room_by_id
  closed-IsSound id s h = record {
    users = h.users;
    rooms = λ i r e. elim (Bool-cases (str_eq i id)) [
      | inl hit ↦ absurd (cc (sym (if_true (str_eq i id) _ _ hit) ∙ e))
      | inr miss ↦ h.rooms i r (sym (if_false (str_eq i id) _ _ miss) ∙ e)
    ];
  }

  stored_room-IsSound :
      (id : String) (r : Room Msg) (s : Site Msg)
      → IsSound checksum s
      → IsTrueRoom s.db id r
      → IsSound checksum (record s { rooms = λ i. if str_eq i id then some r else s.rooms i })
  stored_room-IsSound id r s h t = record {
    users = h.users;
    rooms = λ i v e. elim (Bool-cases (str_eq i id)) [
      | inl hit ↦
          let is : r ≡ v = cc (sym (if_true (str_eq i id) _ _ hit) ∙ e) in
          let name : i ≡ id = (eq_iff i id).0 hit in rw (name, ← is) t
      | inr miss ↦ h.rooms i v (sym (if_false (str_eq i id) _ _ miss) ∙ e)
    ];
  }

  pub record IsRoomLoad (id : String) (s : Site Msg) (r : Result (Room Msg) × Site Msg)
      : Type 0 where
    pub sound : IsSound checksum r.1
    pub accounts : r.1.accounts ≡ s.accounts
    pub members : r.1.db.members ≡ s.db.members
    pub table : r.1.db.rooms ≡ s.db.rooms
    pub gives :
        (x : Room Msg) → r.0 ≡ ok x → (r.1.rooms id ≡ some x) × IsGood s.accounts x.creator_id

  module _ (user_driver : UserDriver) where
    record IsCreatorLoad (creator_id : String) (s : Site Msg) (r : Result (Unit {0}) × Site Msg)
        : Type 0 where
      sound : IsSound checksum r.1
      accounts : r.1.accounts ≡ s.accounts
      db : r.1.db ≡ s.db
      rooms : r.1.rooms ≡ s.rooms
      good : r.0 ≡ ok tt → IsGood s.accounts creator_id

    check-IsCreatorLoad :
        (creator_id : String) (s : Site Msg)
        → IsSound checksum s
        → IsCreatorLoad creator_id s (check_room_creator_status user_driver checksum creator_id s)
    unfolding check_room_creator_status
    check-IsCreatorLoad creator_id s h =
        let load = user-IsUserLoad user_driver checksum creator_id s h in
        record {
          sound = load.sound;
          accounts = load.accounts;
          db = load.db;
          rooms = load.rooms;
          good = λ e.
              let (u, is, free, done) =
                creator_status_ok (load_or_init_user_by_id user_driver checksum creator_id s).0 e in
              let t = load.gives u is in (u.row, t.row, free, done);
        }

    pub cached-IsRoomLoad :
        (id : String) (r : Room Msg) (s : Site Msg)
        → IsSound checksum s
        → s.rooms id ≡ some r
        → IsRoomLoad id s (load_cached_room user_driver checksum id r s)
    unfolding load_cached_room close_room_by_id
    cached-IsRoomLoad id r s h e =
        let check = check_room_creator_status user_driver checksum r.creator_id s in
        let load = check-IsCreatorLoad r.creator_id s h in
        elim (Result-cases check.0) [
          | inl (x, k) ↦
              rw (k, load_cached_room)
                (record {
                  sound = load.sound;
                  accounts = load.accounts;
                  members = ap (λ d. d.members) load.db;
                  table = ap (λ d. d.rooms) load.db;
                  gives = λ y g.
                      let is : r ≡ y = cc g in
                      (ap (λ f. f id) load.rooms ∙ e ∙ ap some is, rw (← is) (load.good k));
                })
          | inr (x, k) ↦ elim (Bool-cases (is_creator_error x)) [
            | inl b ↦
                rw (k, load_cached_room, b)
                  (record {
                    sound = closed-IsSound id check.1 load.sound;
                    accounts = load.accounts;
                    members = ap (λ d. d.members) load.db;
                    table = ap (λ d. d.rooms) load.db;
                    gives = λ y g. absurd (cc g);
                  })
            | inr b ↦
                rw (k, load_cached_room, b)
                  (record {
                    sound = load.sound;
                    accounts = load.accounts;
                    members = ap (λ d. d.members) load.db;
                    table = ap (λ d. d.rooms) load.db;
                    gives = λ y g. absurd (cc g);
                  })
          ]
        ]

    new_room-IsTrueRoom :
        (id : String) (row : RoomRow) (settings : RoomSettings) (db : Db)
        → db.rooms id ≡ some row
        → IsTrueRoom {Msg = Msg} db id (new_room id row settings)
    new_room-IsTrueRoom id row settings db e = record {
      same_id = refl;
      row = e;
      coherent = λ u. inl refl;
    }

    -- A new room, where none is cached.
    pub init_room-IsRoomLoad :
        (id : String) (row : RoomRow) (settings : RoomSettings) (s : Site Msg)
        → IsSound checksum s
        → s.rooms id ≡ none
        → s.db.rooms id ≡ some row
        → IsRoomLoad id s (load_or_init_room user_driver checksum id row settings s)
    unfolding load_or_init_room
    init_room-IsRoomLoad id row settings s h missing e =
        let check = check_room_creator_status user_driver checksum row.creator_id s in
        let load = check-IsCreatorLoad row.creator_id s h in
        let new : Room Msg = new_room id row settings in
        let gone : check.1.rooms id ≡ none = ap (λ f. f id) load.rooms ∙ missing in
        let there : check.1.db.rooms id ≡ some row = ap (λ d. d.rooms id) load.db ∙ e in
        elim (Result-cases check.0) [
          | inl (x, k) ↦
              rw (k, load_or_init_room, store_room, gone)
                (record {
                  sound =
                      stored_room-IsSound id new check.1 load.sound
                        (new_room-IsTrueRoom id row settings check.1.db there);
                  accounts = load.accounts;
                  members = ap (λ d. d.members) load.db;
                  table = ap (λ d. d.rooms) load.db;
                  gives = λ y g.
                      let is : new ≡ y = cc g in
                      (
                        if_true (str_eq id id) _ _ (str_eq_refl id) ∙ ap some is,
                        rw (← is) (load.good k),
                      );
                })
          | inr (x, k) ↦
              rw (k, load_or_init_room)
                (record {
                  sound = load.sound;
                  accounts = load.accounts;
                  members = ap (λ d. d.members) load.db;
                  table = ap (λ d. d.rooms) load.db;
                  gives = λ y g. absurd (cc g);
                })
        ]
