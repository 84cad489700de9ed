-- ===== src/Op/Site/Rooms.antt =====
-- Loading a room by its id, from the cache or from the tables.
use synctv.Base.{
  ℕ, String, none, List, ◌≡◌, refl, ap, ◌∙◌, inl, inr, Bool-cases, Option-cases, ◌==◌,
}
use synctv.Base.Text.{codes, byte_length}
use synctv.Base.Result.{Result, ok, err, Result-cases}
use synctv.Db.{Driver, Db}
use synctv.Db.User.{UserDriver}
use synctv.Db.Room.{get_room_by_id, create_or_load_room_settings}
use synctv.Op.Room.{Room}
use synctv.Op.Site.{Site, init_room_by_id, load_or_init_room_by_id}
use synctv.Op.Site.Sound.{IsSound}
use synctv.Op.Site.Loads.{
  IsRoomLoad, get_room_by_id-row, settings_kept, db-IsSound, cached-IsRoomLoad,
  init_room-IsRoomLoad,
}

module _ {Msg : Type 0} (checksum : List ℕ → ℕ) (user_driver : UserDriver) (driver : Driver) where
  nothing-IsRoomLoad :
      (id : String) (s : Site Msg) (db : Db) (r : Result (Room Msg))
      → IsSound checksum s
      → db.members ≡ s.db.members
      → db.rooms ≡ s.db.rooms
      → ((x : Room Msg) → r ≡ ok x → ⊥)
      → IsRoomLoad checksum id s (r, record s { db = db })
  nothing-IsRoomLoad id s db r h members table failed = record {
    sound = db-IsSound checksum s db members table h;
    accounts = refl;
    members = members;
    table = table;
    gives = λ x g. absurd (failed x g);
  }

  init-IsRoomLoad :
      (id : String) (s : Site Msg)
      → IsSound checksum s
      → s.rooms id ≡ none
      → IsRoomLoad checksum id s (init_room_by_id user_driver checksum driver id s)
  unfolding init_room_by_id
  init-IsRoomLoad id s h missing = elim (Result-cases (get_room_by_id driver s.db id)) [
    | inr (x, e) ↦
        rw (e, init_room_by_id) (nothing-IsRoomLoad id s s.db (err x) h refl refl (λ y g. cc g))
    | inl (row, e) ↦
        let made = create_or_load_room_settings driver s.db id in
        let (members, table) = settings_kept driver s.db id in
        elim (Result-cases made.0) [
          | inr (x, k) ↦
              rw (e, init_room_by_id, k)
                (nothing-IsRoomLoad id s made.1 (err x) h members table (λ y g. cc g))
          | inl (settings, k) ↦
              let there = ap (λ f. f id) table ∙ get_room_by_id-row driver s.db id row e in
              let load =
                init_room-IsRoomLoad checksum user_driver id row settings (record s { db = made.1 })
                  (db-IsSound checksum s made.1 members table h) missing there in
              rw (e, init_room_by_id, k)
                (record {
                  sound = load.sound;
                  accounts = load.accounts;
                  members = load.members ∙ members;
                  table = load.table ∙ table;
                  gives = load.gives;
                })
        ]
  ]

  pub room-IsRoomLoad :
      (id : String) (s : Site Msg)
      → IsSound checksum s
      → IsRoomLoad checksum id s (load_or_init_room_by_id user_driver checksum driver id s)
  unfolding load_or_init_room_by_id
  room-IsRoomLoad id s h = elim (Bool-cases (byte_length (codes id) == 32)) [
    | inr e ↦ rw e (nothing-IsRoomLoad id s s.db (err _) h refl refl (λ y g. cc g))
    | inl e ↦ elim (Option-cases (s.rooms id)) [
      | inr (r, k) ↦
          rw (e, load_or_init_room_by_id, k) (cached-IsRoomLoad checksum user_driver id r s h k)
      | inl k ↦ rw (e, load_or_init_room_by_id, k) (init-IsRoomLoad id s h k)
    ]
  ]
