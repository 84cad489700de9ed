-- ===== src/Op/Room/Coherence/Creation.antt =====
-- Creating a member on demand keeps the cache of members coherent.
use synctv.Base.{String, Bool, none, ◌≡◌, refl, inl, inr, Option-cases, if_cases}
use synctv.Base.Result.{Result-cases, Result}
use synctv.Model.Member.{RoomMember}
use synctv.Db.{Driver, Db}
use synctv.Db.Member.{first_or_create_room_member_relation}
use synctv.Op.Room.{World}
use synctv.Op.Room.Members.{
  load_member, load_or_create_member, create_member, create_conf, guest_refused,
}
use synctv.Op.Room.Coherence.Loads.{IsCoherent, store_member-IsCoherent, load_member-IsCoherent}
use synctv.Op.Room.Coherence.Statements.{
  forgotten-IsCoherent, first_or_create-ChangesOnly, first_or_create-row,
}

module _ (driver : Driver) (enable_guest : Bool) {Msg : Type 0} where
  create_member-IsCoherent :
      (u : String) (w : World Msg)
      → w.room.members u ≡ none
      → IsCoherent w
      → IsCoherent (create_member driver enable_guest u w).1
  unfolding create_member
  create_member-IsCoherent u w missing h =
      let conf = create_conf w.room u in
      let made : Result RoomMember × Db =
        first_or_create_room_member_relation driver w.db w.room.id u conf in
      let coherent : IsCoherent (record w { db = made.1 }) =
        forgotten-IsCoherent u w (record w { db = made.1 })
          (first_or_create-ChangesOnly driver w.db w.room.id u conf) refl refl refl missing
          (λ v _. refl) h in
      elim (Result-cases made.0) [
        | inl (m, e) ↦
            rw (e, create_member)
              (store_member-IsCoherent u m (record w { db = made.1 })
                (first_or_create-row driver w.db w.room.id u conf m e) coherent)
        | inr (x, e) ↦ rw (e, create_member) coherent
      ]

  -- The worlds after `LoadOrCreateMember`.
  pub load_or_create_cases :
      (P : World Msg → Type 0) (u : String) (w : World Msg)
      → P w
      → P (load_member driver enable_guest u w).1
      → (w.room.members u ≡ none → P (create_member driver enable_guest u w).1)
      → P (load_or_create_member driver enable_guest u w).1
  unfolding load_or_create_member
  load_or_create_cases P u w same loaded created =
      if_cases (λ (r : Result RoomMember × World Msg). P r.1) w.room.settings.disable_join_new_user
        _ _ (λ _. loaded)
        (λ _.
          if_cases (λ (r : Result RoomMember × World Msg). P r.1)
            (guest_refused driver enable_guest w.room u) _ _ (λ _. same)
            (λ _. elim (Option-cases (w.room.members u)) [
              | inr (m, c) ↦ rw (c, load_or_create_member) same
              | inl c ↦ rw c (created c)
            ]))

  -- `LoadOrCreateMember` keeps the cache coherent, also when it creates the row.
  pub load_or_create_member-IsCoherent :
      (u : String) (w : World Msg)
      → IsCoherent w
      → IsCoherent (load_or_create_member driver enable_guest u w).1
  load_or_create_member-IsCoherent u w h =
      load_or_create_cases IsCoherent u w h (load_member-IsCoherent driver enable_guest u w h)
        (λ missing. create_member-IsCoherent u w missing h)
