-- ===== src/Op/User/Members/Untouched.antt =====
-- What a permission test leaves of a room and of its tables.
use synctv.Base.{String, Bool, ◌≡◌, refl, arith, sym, inl, inr, Option-cases}
use synctv.Base.Result.{Result, Result-cases}
use synctv.Model.Member.{RoomMember}
use synctv.Db.{Driver, Db}
use synctv.Db.Member.{first_or_create_room_member_relation}
use synctv.Op.Room.{World}
use synctv.Op.Room.Members.{load_or_create_member, create_member, store_member, create_conf}
use synctv.Op.Room.Coherence.{
  load_member_cases, load_or_create_cases, ChangesOnly, first_or_create-ChangesOnly,
}

-- All of a room and of its tables but one user's row and the cache of members.
pub record IsUntouched {Msg : Type 0} (user_id : String) (w v : World Msg) : Type 0 where
  pub rows : ChangesOnly w.room.id user_id w.db v.db
  pub table_settings : v.db.settings ≡ w.db.settings
  pub table_rooms : v.db.rooms ≡ w.db.rooms
  pub id : v.room.id ≡ w.room.id
  pub creator : v.room.creator_id ≡ w.room.creator_id
  pub hashed_password : v.room.hashed_password ≡ w.room.hashed_password
  pub status : v.room.status ≡ w.room.status
  pub settings : v.room.settings ≡ w.room.settings
  pub movies : v.room.movies ≡ w.room.movies
  pub hub : v.room.hub ≡ w.room.hub

module _ {Msg : Type 0} where
  pub IsUntouched-self : (u : String) (w : World Msg) → IsUntouched u w w
  IsUntouched-self u w = record {
    rows = λ v h. refl;
    table_settings = refl;
    table_rooms = refl;
    id = refl;
    creator = refl;
    hashed_password = refl;
    status = refl;
    settings = refl;
    movies = refl;
    hub = refl;
  }

  -- Storing in the cache, after a statement that touches no other row.
  pub store-IsUntouched :
      (u t : String) (m : RoomMember) (w v : World Msg)
      → IsUntouched u w v
      → IsUntouched u w (store_member t m v).1
  unfolding store_member
  store-IsUntouched u t m w v h = elim (Option-cases (v.room.members t)) [
    | inl e ↦
        rw (e, store_member)
          (record {
            rows = h.rows;
            table_settings = h.table_settings;
            table_rooms = h.table_rooms;
            id = h.id;
            creator = h.creator;
            hashed_password = h.hashed_password;
            status = h.status;
            settings = h.settings;
            movies = h.movies;
            hub = h.hub;
          })
    | inr (k, e) ↦ rw (e, store_member) h
  ]

module _ (driver : Driver) (enable_guest : Bool) {Msg : Type 0} where
  created-IsUntouched :
      (u : String) (w : World Msg) (db : Db)
      → (first_or_create_room_member_relation driver w.db w.room.id u (create_conf w.room u)).1 ≡ db
      → IsUntouched u w (record w { db = db })
  unfolding first_or_create_room_member_relation
  created-IsUntouched u w db e = record {
    rows = λ v h.
        rw (sym e) (first_or_create-ChangesOnly driver w.db w.room.id u (create_conf w.room u) v h);
    table_settings = ground arith;
    table_rooms = ground arith;
    id = refl;
    creator = refl;
    hashed_password = refl;
    status = refl;
    settings = refl;
    movies = refl;
    hub = refl;
  }

  create-IsUntouched :
      (u : String) (w : World Msg) → IsUntouched u w (create_member driver enable_guest u w).1
  unfolding create_member
  create-IsUntouched u w =
      let conf = create_conf w.room u in
      let made : Result RoomMember × Db =
        first_or_create_room_member_relation driver w.db w.room.id u conf in
      let same = created-IsUntouched u w made.1 refl in
      elim (Result-cases made.0) [
        | inl (m, e) ↦
            rw (e, create_member) (store-IsUntouched u u m w (record w { db = made.1 }) same)
        | inr (x, e) ↦ rw (e, create_member) same
      ]

  pub load_or_create-IsUntouched :
      (u : String) (w : World Msg)
      → IsUntouched u w (load_or_create_member driver enable_guest u w).1
  load_or_create-IsUntouched u w =
      load_or_create_cases driver enable_guest (IsUntouched u w) u w (IsUntouched-self u w)
        (load_member_cases driver enable_guest (IsUntouched u w) u w (IsUntouched-self u w)
          (λ m row. store-IsUntouched u u m w w (IsUntouched-self u w)))
        (λ missing. create-IsUntouched u w)
