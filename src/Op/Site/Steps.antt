-- ===== src/Op/Site/Steps.antt =====
-- A step on a cached room that keeps to one user of that room keeps the caches true.
use synctv.Base.{
  ℕ, String, Bool, false, some, List, str_eq, eq_iff, ◌≡◌, refl, ap, sym, ◌∙◌, inl, inr, arith,
  Bool-cases, Option-cases, if◌then◌else◌, if_true, if_false,
}
use synctv.Model.Member.{RoomMember}
use synctv.Db.{Driver, Db}
use synctv.Base.Result.{Result-cases}
use synctv.Op.Room.{World, Room}
use synctv.Op.Room.Members.{
  load_member, load_or_create_member, create_member, create_conf, store_member,
}
use synctv.Db.Member.{CreateRoomMemberRelationConfig, first_or_create_room_member_relation}
use synctv.Op.Room.Coherence.{
  IsCoherent, load_member_cases, load_or_create_cases, load_member-IsCoherent,
  load_or_create_member-IsCoherent,
}
use synctv.Op.User.Members.Untouched.{
  IsUntouched, IsUntouched-self, store-IsUntouched, load_or_create-IsUntouched,
}
use synctv.Op.Site.{Site}
use synctv.Op.Site.Sound.{IsTrueRoom, IsSound}

first_or_create_others :
    (driver : Driver) (db : Db) (room_id user_id : String)
    (conf : List CreateRoomMemberRelationConfig) (r u : String)
    → str_eq r room_id ≡ false
    → (first_or_create_room_member_relation driver db room_id user_id conf).1.members r u
      ≡ db.members r u
unfolding first_or_create_room_member_relation
first_or_create_others driver db room_id user_id conf r u h = ground arith

module _ {Msg : Type 0} where
  -- The members of the other rooms are as they were.
  abbrev pub OthersKept : World Msg → World Msg → Type 0
  OthersKept w v =
      (r : String) → str_eq r w.room.id ≡ false → (u : String) → v.db.members r u ≡ w.db.members r u

  pub record IsQuiet (user_id : String) (w v : World Msg) : Type 0 where
    pub untouched : IsUntouched user_id w v
    pub others : OthersKept w v
    pub coherent : IsCoherent v

  store_member-OthersKept :
      (u : String) (m : RoomMember) (w v : World Msg)
      → OthersKept w v
      → OthersKept w (store_member u m v).1
  unfolding store_member
  store_member-OthersKept u m w v h = elim (Option-cases (v.room.members u)) [
    | inl e ↦ rw (e, store_member) h
    | inr (k, e) ↦ rw (e, store_member) h
  ]

  pub self-IsQuiet : (u : String) (w : World Msg) → IsCoherent w → IsQuiet u w w
  self-IsQuiet u w h = record {
    untouched = IsUntouched-self u w;
    others = λ r other x. refl;
    coherent = h;
  }

  module _ (driver : Driver) (enable_guest : Bool) where
    pub load-IsQuiet :
        (u : String) (w : World Msg)
        → IsCoherent w
        → IsQuiet u w (load_member driver enable_guest u w).1
    load-IsQuiet u w h = record {
      untouched =
          load_member_cases driver enable_guest (IsUntouched u w) u w (IsUntouched-self u w)
            (λ m row. store-IsUntouched u u m w w (IsUntouched-self u w));
      others =
          load_member_cases driver enable_guest (OthersKept w) u w (λ r other x. refl)
            (λ m row. store_member-OthersKept u m w w (λ r other x. refl));
      coherent = load_member-IsCoherent driver enable_guest u w h;
    }

    create-OthersKept :
        (u : String) (w : World Msg) → OthersKept w (create_member driver enable_guest u w).1
    unfolding create_member
    create-OthersKept u w =
        let conf = create_conf w.room u in
        let made = first_or_create_room_member_relation driver w.db w.room.id u conf in
        let kept : OthersKept w (record w { db = made.1 }) =
          λ r other x. first_or_create_others driver w.db w.room.id u conf r x other in
        elim (Result-cases made.0) [
          | inl (m, e) ↦
              rw (e, create_member) (store_member-OthersKept u m w (record w { db = made.1 }) kept)
          | inr (x, e) ↦ rw (e, create_member) kept
        ]

    pub load_or_create-IsQuiet :
        (u : String) (w : World Msg)
        → IsCoherent w
        → IsQuiet u w (load_or_create_member driver enable_guest u w).1
    load_or_create-IsQuiet u w h = record {
      untouched = load_or_create-IsUntouched driver enable_guest u w;
      others =
          load_or_create_cases driver enable_guest (OthersKept w) u w (λ r other x. refl)
            (load-IsQuiet u w h).others (λ missing. create-OthersKept u w);
      coherent = load_or_create_member-IsCoherent driver enable_guest u w h;
    }

  -- A step on a cached room that leaves the rows of other rooms.
  pub changed-IsSound :
      (checksum : List ℕ → ℕ) (id : String) (r : Room Msg) (s : Site Msg) (v : World Msg)
      → IsSound checksum s
      → s.rooms id ≡ some r
      → IsTrueRoom v.db id v.room
      → ((i : String) → str_eq i id ≡ false → v.db.rooms i ≡ s.db.rooms i)
      → OthersKept (record { room = r; db = s.db }) v
      → IsSound checksum
          (record s { rooms = λ i. if str_eq i id then some v.room else s.rooms i; db = v.db })
  changed-IsSound checksum id r s v h e here table others = record {
    users = h.users;
    rooms = λ i x k. elim (Bool-cases (str_eq i id)) [
      | inl hit ↦
          let is : v.room ≡ x = cc (sym (if_true (str_eq i id) _ _ hit) ∙ k) in
          let name : i ≡ id = (eq_iff i id).0 hit in rw (name, ← is) here
      | inr miss ↦
          let t = h.rooms i x (sym (if_false (str_eq i id) _ _ miss) ∙ k) in
          let other : str_eq x.id r.id ≡ false =
            ground (arith, t.same_id, (h.rooms id r e).same_id) in
          record {
            same_id = t.same_id;
            row = table i miss ∙ t.row;
            coherent = λ u. rw (others x.id other u) (t.coherent u);
          }
    ];
  }

  quiet-IsTrueRoom :
      (id user_id : String) (w v : World Msg)
      → IsTrueRoom w.db id w.room
      → IsQuiet user_id w v
      → IsTrueRoom v.db id v.room
  quiet-IsTrueRoom id user_id w v t q =
      let k = q.untouched in
      record {
        same_id = k.id ∙ t.same_id;
        row = ap (λ f. f id) k.table_rooms ∙ t.row ∙ (λ j. some (record {
          creator_id = sym k.creator j;
          hashed_password = sym k.hashed_password j;
          status = sym k.status j;
        }));
        coherent = q.coherent;
      }

  -- A step that leaves all but a user's row and the cache of members.
  pub step-IsSound :
      (checksum : List ℕ → ℕ) (id user_id : String) (r : Room Msg) (s : Site Msg) (v : World Msg)
      → IsSound checksum s
      → s.rooms id ≡ some r
      → IsQuiet user_id (record { room = r; db = s.db }) v
      → IsSound checksum
          (record s { rooms = λ i. if str_eq i id then some v.room else s.rooms i; db = v.db })
  step-IsSound checksum id user_id r s v h e q =
      changed-IsSound checksum id r s v h e
        (quiet-IsTrueRoom id user_id (record { room = r; db = s.db }) v (h.rooms id r e) q)
        (λ i other. ap (λ f. f i) q.untouched.table_rooms) q.others
