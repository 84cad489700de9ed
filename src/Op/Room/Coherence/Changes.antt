-- ===== src/Op/Room/Coherence/Changes.antt =====
-- The changes of members and of settings keep the cache of members coherent.
use mathlib.Core.Option
use synctv.Base.{
  String, false, not, Option, none, some, str_eq, ◌==◌, if◌then◌else◌, ◌≡◌, refl, ap, inl, inr,
  arith, Bool-cases, Option-cases, if_cases,
}
use synctv.Base.Dict.{str_eq_refl}
use synctv.Base.Result.{Result}
use synctv.Model.Member.{RoomMember}
use synctv.Model.Room.{RoomSettings}
use synctv.Db.{Db}
use synctv.Op.Room.{Room, World, kick_room_user, forget, guest_user_id, is_guest}
use synctv.Op.Room.Members.{amend}
use synctv.Op.Room.Settings.{on_room, after_update_settings}
use synctv.Op.Room.Changes.{then_forget}
use synctv.Op.Room.Coherence.Loads.{IsCoherent, amend-map_cong}
use synctv.Op.Room.Coherence.Statements.{ChangesOnly, forgotten-IsCoherent}

module _ {Msg : Type 0} where
  -- A step that leaves alone what coherence reads.
  pub untouched-IsCoherent :
      (w w' : World Msg)
      → w'.room.members ≡ w.room.members
      → w'.room.id ≡ w.room.id
      → w'.room.creator_id ≡ w.room.creator_id
      → w'.room.settings.guest_permissions ≡ w.room.settings.guest_permissions
      → w'.db.members ≡ w.db.members
      → IsCoherent w
      → IsCoherent w'
  untouched-IsCoherent w w' m i c g d h v = ground (
    arith,
    h v,
    amend-map_cong w'.room w.room v (w.db.members w.room.id v) c g,
    ap (λ f. f v) m,
    ap (λ f. f w.room.id v) d,
  )

  pub then_forget-IsCoherent :
      (u : String) (statement : Db → Result (Unit {0}) × Db) (w : World Msg)
      → ChangesOnly w.room.id u w.db (statement w.db).1
      → IsCoherent w
      → IsCoherent (then_forget u statement w).1
  then_forget-IsCoherent u statement w frame h =
      forgotten-IsCoherent u w (then_forget u statement w).1 frame refl refl refl
        (rw (str_eq_refl u)) (λ v miss. rw miss) h

  pub kick-frame :
      (u : String) (r : Room Msg)
      → let s = (kick_room_user u r).1 in
        (s.members ≡ r.members)
        × (s.id ≡ r.id)
        × (s.creator_id ≡ r.creator_id)
        × (s.settings ≡ r.settings)
  unfolding kick_room_user
  kick-frame u r = elim (Option-cases r.hub) [
    | inl e ↦ rw (e, kick_room_user) (refl, refl, refl, refl)
    | inr (hub, e) ↦ rw (e, kick_room_user) (refl, refl, refl, refl)
  ]

  pub kick-IsCoherent :
      (u : String) (w : World Msg) → IsCoherent w → IsCoherent (on_room (kick_room_user u) w).1
  kick-IsCoherent u w h =
      let (members, id, creator, settings) = kick-frame u w.room in
      untouched-IsCoherent w (on_room (kick_room_user u) w).1 members id creator
        (ap (λ (s : RoomSettings). s.guest_permissions) settings) refl h

  amend-not_guest :
      (r s : Room Msg) (u : String) (row : Option RoomMember)
      → str_eq u guest_user_id ≡ false
      → r.creator_id ≡ s.creator_id
      → Option.map (amend r u) row ≡ Option.map (amend s u) row
  unfolding amend is_guest
  amend-not_guest r s u none g c = refl
  amend-not_guest r s u (some m) g c = rw (c, g)

  -- The world of `afterUpdateSettings` before it kicks the guests.
  abbrev resettled : RoomSettings → World Msg → World Msg
  resettled rs w =
      let r =
        if not (w.room.settings.guest_permissions == rs.guest_permissions)
        then forget guest_user_id w.room
        else w.room in
      record w { room = record r { settings = rs } }

  forgot_guest-IsCoherent :
      (rs : RoomSettings) (w : World Msg)
      → IsCoherent w
      → IsCoherent (record w { room = record (forget guest_user_id w.room) { settings = rs } })
  forgot_guest-IsCoherent rs w h v = elim (Bool-cases (str_eq v guest_user_id)) [
    | inl hit ↦ inl (rw hit)
    | inr miss ↦ rw miss (
        rw
          (amend-not_guest (record (forget guest_user_id w.room) { settings = rs }) w.room v
            (w.db.members w.room.id v) miss refl)
          (h v))
  ]

  -- New settings with another value of the guest's permissions come with the guest dropped.
  resettled-IsCoherent :
      (rs : RoomSettings) (w : World Msg) → IsCoherent w → IsCoherent (resettled rs w)
  resettled-IsCoherent rs w h =
      if_cases (λ (r : Room Msg). IsCoherent (record w { room = record r { settings = rs } }))
        (not (w.room.settings.guest_permissions == rs.guest_permissions)) _ _
        (λ _. forgot_guest-IsCoherent rs w h)
        (λ same.
          untouched-IsCoherent w (record w { room = record w.room { settings = rs } }) refl refl
            refl (ground arith) refl h)

  pub after_update-IsCoherent :
      (rs : RoomSettings) (w : World Msg) → IsCoherent w → IsCoherent (after_update_settings rs w).1
  unfolding after_update_settings
  after_update-IsCoherent rs w h =
      let coherent : IsCoherent (resettled rs w) = resettled-IsCoherent rs w h in
      if_cases (λ (r : Result (Unit {0}) × World Msg). IsCoherent r.1) rs.disable_guest _ _
        (λ _. kick-IsCoherent guest_user_id (resettled rs w) coherent) (λ _. coherent)
