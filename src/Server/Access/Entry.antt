-- ===== src/Server/Access/Entry.antt =====
-- What the checks of a room let in.
use synctv.Base.{
  String, Bool, true, false, none, some, ◌≡◌, refl, arith, ap, sym, ◌∙◌, inl, inr, Bool-cases,
  Option-cases, if_cases,
}
use synctv.Base.Dict.{str_eq_refl}
use synctv.Base.Result.{Error, is_not_found, Result, ok, err, Result-cases}
use synctv.Model.Member.Status.{is_banned, is_pending}
use synctv.Model.Member.{RoomMember}
use synctv.Model.Room as Room
use synctv.Db.{Driver}
use synctv.Db.Member.{get_room_member, first_or_create_room_member_relation, room_member_not_found}
use synctv.Op.Room.{World, is_creator, is_guest}
use synctv.Op.Room.Members.{
  amend, store_member, load_member, load_or_create_member, create_member, create_conf,
  guest_refused,
}
use synctv.Op.Room.Settings.{need_password}
use synctv.Op.Room.Coherence.{IsCoherent, load_member_cases}

-- Where the user has a row in the room, it is neither banned nor pending, unless the room amends it.
pub record IsWelcome {Msg : Type 0} (u : String) (w : World Msg) : Type 0 where
  pub free :
      (row : RoomMember)
      → w.db.members w.room.id u ≡ some row
      → is_creator w.room u ≡ false
      → is_guest w.room u ≡ false
      → (is_banned row.status ≡ false) × (is_pending row.status ≡ false)

pub record IsEntered {Msg : Type 0} (u : String) (w : World Msg) : Type 0 where
  pub guest :
      is_guest w.room u ≡ true
      → (w.room.settings.disable_guest ≡ false) × (need_password w.room ≡ false)
  pub active : w.room.status ≡ Room.active
  pub welcome : IsWelcome u w

module _ {Msg : Type 0} where
  stored-cached :
      (u : String) (row m : RoomMember) (w : World Msg)
      → (store_member u row w).0 ≡ ok m
      → (store_member u row w).1.room.members u ≡ some m
  unfolding store_member
  stored-cached u row m w e = elim (Option-cases (w.room.members u)) [
    | inl k ↦ ground (arith, str_eq_refl u)
    | inr (c, k) ↦ ground arith
  ]

  -- What a member in the cache says of his row.
  pub cached-IsWelcome :
      (u : String) (m : RoomMember) (w : World Msg)
      → IsCoherent w
      → w.room.members u ≡ some m
      → is_banned m.status ≡ false
      → is_pending m.status ≡ false
      → IsWelcome u w
  unfolding amend is_creator is_guest
  cached-IsWelcome u m w h c b p = record {
    free = λ row e creator guest. (ground (arith, h u), ground (arith, h u));
  }

  module _ (driver : Driver) (enable_guest : Bool) where
    pub load-cached :
        (u : String) (m : RoomMember) (w : World Msg)
        → (load_member driver enable_guest u w).0 ≡ ok m
        → (load_member driver enable_guest u w).1.room.members u ≡ some m
    unfolding load_member
    load-cached u m w e = elim (Bool-cases (guest_refused driver enable_guest w.room u)) [
      | inl g ↦ ground arith
      | inr g ↦ elim (Option-cases (w.room.members u)) [
        | inr (k, c) ↦ ground arith
        | inl c ↦ elim (Result-cases (get_room_member driver w.db w.room.id u)) [
          | inl (row, x) ↦
              let is : load_member driver enable_guest u w ≡ store_member u row w = ground arith in
              rw is (stored-cached u row m w (ap (λ r. r.0) (sym is) ∙ e))
          | inr (y, x) ↦ ground arith
        ]
      ]
    ]

    create-cached :
        (u : String) (m : RoomMember) (w : World Msg)
        → (create_member driver enable_guest u w).0 ≡ ok m
        → (create_member driver enable_guest u w).1.room.members u ≡ some m
    unfolding create_member
    create-cached u m w e =
        let made =
          first_or_create_room_member_relation driver w.db w.room.id u (create_conf w.room u) in
        elim (Result-cases made.0) [
          | inl (row, x) ↦
              let v = record w { db = made.1 } in
              let is : create_member driver enable_guest u w ≡ store_member u row v =
                rw (x, create_member) refl in
              rw is (stored-cached u row m v (ap (λ r. r.0) (sym is) ∙ e))
          | inr (y, x) ↦ ground arith
        ]

    pub load_or_create-cached :
        (u : String) (m : RoomMember) (w : World Msg)
        → (load_or_create_member driver enable_guest u w).0 ≡ ok m
        → (load_or_create_member driver enable_guest u w).1.room.members u ≡ some m
    unfolding load_or_create_member
    load_or_create-cached u m w =
        if_cases (λ (r : Result RoomMember × World Msg). r.0 ≡ ok m → r.1.room.members u ≡ some m)
          w.room.settings.disable_join_new_user _ _ (λ _. load-cached u m w)
          (λ _.
            if_cases
              (λ (r : Result RoomMember × World Msg). r.0 ≡ ok m → r.1.room.members u ≡ some m)
              (guest_refused driver enable_guest w.room u) _ _ (λ _ e. cc e)
              (λ _. elim (Option-cases (w.room.members u)) [
                | inr (k, c) ↦ rw c (λ e. ground arith)
                | inl c ↦ rw c (create-cached u m w)
              ]))

    -- A load that finds no record leaves the database, in which there is none.
    pub load-missing :
        (u : String) (e : Error) (w : World Msg)
        → (load_member driver enable_guest u w).0 ≡ err e
        → is_not_found room_member_not_found e ≡ true
        → w.db.members w.room.id u ≡ none
    unfolding load_member get_room_member store_member
    load-missing u e w f n = ground arith

    pub load-db : (u : String) (w : World Msg) → (load_member driver enable_guest u w).1.db ≡ w.db
    unfolding store_member
    load-db u w =
        load_member_cases driver enable_guest (λ v. v.db ≡ w.db) u w refl (λ m row. ground arith)
