-- ===== src/Op/Room/Coherence/Loads.antt =====
-- Coherence of the cache of members, and loading.
use mathlib.Core.Option
use synctv.Base.{
  String, Bool, Option, none, some, str_eq, eq_iff, if◌then◌else◌, ◌≡◌, refl, ap, ◌⊎◌, inl, inr,
  arith, Bool-cases, Option-cases,
}
use synctv.Base.Result.{Result-cases, ok}
use synctv.Model.Member.{RoomMember}
use synctv.Db.{Driver, Db}
use synctv.Db.Member.{get_room_member}
use synctv.Op.Room.{Room, World}
use synctv.Op.Room.Members.{amend, store_member, load_member, guest_refused}

module _ {Msg : Type 0} where
  -- Where a user is cached, it is as what `storeMember` makes of the row in the table.
  abbrev pub IsCoherent : World Msg → Type 0
  IsCoherent w =
      (u : String)
      → (w.room.members u ≡ none)
        ⊎ (w.room.members u ≡ Option.map (amend w.room u) (w.db.members w.room.id u))

  -- `amend` reads the creator and the guest's permissions of the room only.
  pub amend-cong :
      (r s : Room Msg) (u : String) (m : RoomMember)
      → r.creator_id ≡ s.creator_id
      → r.settings.guest_permissions ≡ s.settings.guest_permissions
      → amend r u m ≡ amend s u m
  unfolding amend
  amend-cong r s u m c g = rw (c, g)

  pub amend-map_cong :
      (r s : Room Msg) (u : String) (row : Option RoomMember)
      → r.creator_id ≡ s.creator_id
      → r.settings.guest_permissions ≡ s.settings.guest_permissions
      → Option.map (amend r u) row ≡ Option.map (amend s u) row
  amend-map_cong r s u none c g = refl
  amend-map_cong r s u (some m) c g = ap some (amend-cong r s u m c g)

  -- The room with one more member in its cache.
  abbrev cached_with : Room Msg → String → RoomMember → Room Msg
  cached_with r u m = record r { members = λ v. if str_eq v u then some m else r.members v }

  store_new :
      (u : String) (m : RoomMember) (w : World Msg) (v : String)
      → w.db.members w.room.id u ≡ some m
      → (w.room.members v ≡ none)
        ⊎ (w.room.members v ≡ Option.map (amend w.room v) (w.db.members w.room.id v))
      → let r = cached_with w.room u (amend w.room u m) in
        (r.members v ≡ none) ⊎ (r.members v ≡ Option.map (amend r v) (w.db.members w.room.id v))
  store_new u m w v row h =
      let r = cached_with w.room u (amend w.room u m) in
      rw (amend-map_cong r w.room v (w.db.members w.room.id v) refl refl)
        (elim (Bool-cases (str_eq v u)) [
          | inl hit ↦ inr (rw (hit, (eq_iff v u).0 hit, row))
          | inr miss ↦ rw miss h
        ])

  -- A member that is stored comes from its row.
  pub store_member-IsCoherent :
      (u : String) (m : RoomMember) (w : World Msg)
      → w.db.members w.room.id u ≡ some m
      → IsCoherent w
      → IsCoherent (store_member u m w).1
  unfolding store_member
  store_member-IsCoherent u m w row h v = elim (Option-cases (w.room.members u)) [
    | inr (cached, e) ↦ rw (e, store_member) (h v)
    | inl e ↦ rw (e, store_member) (store_new u m w v row (h v))
  ]

module _ (driver : Driver) where
  pub get_room_member-row :
      (db : Db) (room_id user_id : String) (m : RoomMember)
      → get_room_member driver db room_id user_id ≡ ok m
      → db.members room_id user_id ≡ some m
  unfolding get_room_member
  get_room_member-row db room_id user_id m e = ground arith

module _ (driver : Driver) (enable_guest : Bool) {Msg : Type 0} where
  -- The worlds after a load: the one before, or one where a row of the table is stored.
  pub load_member_cases :
      (P : World Msg → Type 0) (u : String) (w : World Msg)
      → P w
      → ((m : RoomMember) → w.db.members w.room.id u ≡ some m → P (store_member u m w).1)
      → P (load_member driver enable_guest u w).1
  unfolding load_member
  load_member_cases P u w same stored =
      elim (Bool-cases (guest_refused driver enable_guest w.room u)) [
        | inl e ↦ rw e same
        | inr e ↦ rw e (elim (Option-cases (w.room.members u)) [
          | inr (m, d) ↦ rw (d, load_member) same
          | inl d ↦ rw d (elim (Result-cases (get_room_member driver w.db w.room.id u)) [
            | inl (m, g) ↦ rw g (stored m (get_room_member-row driver w.db w.room.id u m g))
            | inr (x, g) ↦ rw g same
          ])
        ])
      ]

  -- `LoadMember` keeps the cache coherent.
  pub load_member-IsCoherent :
      (u : String) (w : World Msg)
      → IsCoherent w
      → IsCoherent (load_member driver enable_guest u w).1
  load_member-IsCoherent u w h =
      load_member_cases IsCoherent u w h (λ m row. store_member-IsCoherent u m w row h)
