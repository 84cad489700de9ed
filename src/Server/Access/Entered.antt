-- ===== src/Server/Access/Entered.antt =====
-- The checks of a room as a whole.
use synctv.Base.{
  ℕ, List, [], ◌∷◌, String, Bool, true, false, none, some, ◌≡◌, refl, arith, ap, ◌∙◌, inl, inr,
  Bool-cases,
}
use synctv.Base.Result.{Error, is_not_found, Result, ok, err, Result-cases}
use synctv.Model.Member.Status.{RoomMemberStatus, active, is_banned, is_pending}
use synctv.Model.Member.{RoomMember}
use synctv.Model.Room as Room
use synctv.Db.{Driver}
use synctv.Db.Member.{room_member_not_found}
use synctv.Op.Room.{World, is_creator, is_guest}
use synctv.Op.Room.Members.{
  load_member, load_or_create_member, load_member_status, load_or_create_member_status,
  not_joined_yet,
}
use synctv.Op.Room.Settings.{need_password}
use synctv.Op.Room.Coherence.{IsCoherent}
use synctv.Op.Site.Steps.{IsQuiet, self-IsQuiet, load-IsQuiet, load_or_create-IsQuiet}
use synctv.Server.Access.{member_status, validate_room_access, validate_room, validate_status}
use synctv.Server.Access.Entry.{
  IsWelcome, IsEntered, cached-IsWelcome, load-cached, load_or_create-cached, load-missing, load-db,
}

validate_room_ok :
    (guest disable_guest locked : Bool) (status : Room.RoomStatus)
    → validate_room guest disable_guest locked status ≡ ok tt
    → (guest ≡ true → (disable_guest ≡ false) × (locked ≡ false)) × (status ≡ Room.active)
validate_room_ok guest disable_guest locked Room.banned e = ground arith
validate_room_ok guest disable_guest locked Room.pending e = ground arith
validate_room_ok guest disable_guest locked Room.active e =
    (λ g. (ground arith, ground arith), refl)

validate_status_ok :
    (r : Result RoomMemberStatus)
    → validate_status r ≡ ok tt
    → (status : RoomMemberStatus) × (r ≡ ok status)
      × (is_banned status ≡ false)
      × (is_pending status ≡ false)
validate_status_ok (err e) h = cc
validate_status_ok (ok status) h = (status, refl, ground arith, ground arith)

module _ (driver : Driver) (enable_guest : Bool) {Msg : Type 0} where
  -- What asking for a status leaves and tells.
  record IsAsked (u : String) (w : World Msg) (r : Result RoomMemberStatus × World Msg)
      : Type 0 where
    quiet : IsQuiet u w r.1
    tells :
        (status : RoomMemberStatus)
        → r.0 ≡ ok status
        → is_banned status ≡ false
        → is_pending status ≡ false
        → IsWelcome u r.1

  creator-IsAsked :
      (u : String) (w : World Msg)
      → IsCoherent w
      → is_creator w.room u ≡ true
      → IsAsked u w (ok active, w)
  creator-IsAsked u w h c = record {
    quiet = self-IsQuiet u w h;
    tells = λ status e b p. record { free = λ row at other guest. absurd (cc (c, other)) };
  }

  loaded-IsAsked :
      (u : String) (w v : World Msg) (m : RoomMember)
      → IsQuiet u w v
      → v.room.members u ≡ some m
      → IsAsked u w (ok m.status, v)
  loaded-IsAsked u w v m q c = record {
    quiet = q;
    tells = λ status e b p.
        let same : m.status ≡ status = cc e in
        cached-IsWelcome u m v q.coherent c (ap is_banned same ∙ b) (ap is_pending same ∙ p);
  }

  failed-IsAsked :
      (u : String) (w v : World Msg) (e : Error) → IsQuiet u w v → IsAsked u w (err e, v)
  failed-IsAsked u w v e q = record { quiet = q; tells = λ status k b p. absurd (cc k) }

  missing-IsAsked :
      (u : String) (w v : World Msg) (e : Error)
      → IsQuiet u w v
      → (is_not_found room_member_not_found e ≡ true → v.db.members v.room.id u ≡ none)
      → IsAsked u w (not_joined_yet driver enable_guest e v)
  unfolding not_joined_yet
  missing-IsAsked u w v e q gone = elim (Bool-cases (is_not_found room_member_not_found e)) [
    | inr n ↦ rw n (failed-IsAsked u w v e q)
    | inl n ↦ rw n (record {
      quiet = q;
      tells = λ status k b p. record { free = λ row at c g. absurd (cc (gone n, at)) };
    })
  ]

  load_member_status-IsAsked :
      (u : String) (w : World Msg)
      → IsCoherent w
      → IsAsked u w (load_member_status driver enable_guest u w)
  unfolding load_member_status
  load_member_status-IsAsked u w h = elim (Bool-cases (is_creator w.room u)) [
    | inl c ↦ rw c (creator-IsAsked u w h c)
    | inr c ↦
        let load = load_member driver enable_guest u w in
        let q = load-IsQuiet driver enable_guest u w h in
        elim (Result-cases load.0) [
          | inl (m, e) ↦
              rw (c, load_member_status, e)
                (loaded-IsAsked u w load.1 m q (load-cached driver enable_guest u m w e))
          | inr (x, e) ↦
              rw (c, load_member_status, e)
                (missing-IsAsked u w load.1 x q (λ n.
                  (λ i. (load-db driver enable_guest u w i).members (q.untouched.id i) u)
                  ∙ load-missing driver enable_guest u x w e n))
        ]
  ]

  abbrev status_of : Result RoomMember → World Msg → Result RoomMemberStatus × World Msg
  status_of r v = elim r [ ok m ↦ (ok m.status, v) | err e ↦ (err e, v) ]

  status_of-IsAsked :
      (u : String) (w : World Msg) (r : Result RoomMember) (v : World Msg)
      → IsQuiet u w v
      → ((m : RoomMember) → r ≡ ok m → v.room.members u ≡ some m)
      → IsAsked u w (status_of r v)
  status_of-IsAsked u w (ok m) v q c = loaded-IsAsked u w v m q (c m refl)
  status_of-IsAsked u w (err e) v q c = failed-IsAsked u w v e q

  load_or_create_member_status-IsAsked :
      (u : String) (w : World Msg)
      → IsCoherent w
      → IsAsked u w (load_or_create_member_status driver enable_guest u w)
  unfolding load_or_create_member_status
  load_or_create_member_status-IsAsked u w h = elim (Bool-cases (is_creator w.room u)) [
    | inl c ↦ rw c (creator-IsAsked u w h c)
    | inr c ↦
        let load = load_or_create_member driver enable_guest u w in
        rw c (
          status_of-IsAsked u w load.0 load.1 (load_or_create-IsQuiet driver enable_guest u w h)
            (λ m e. load_or_create-cached driver enable_guest u m w e))
  ]

  member_status-IsAsked :
      (u : String) (w : World Msg)
      → IsCoherent w
      → IsAsked u w (member_status driver enable_guest u w)
  unfolding member_status
  member_status-IsAsked u w h = elim (Bool-cases (need_password w.room)) [
    | inl b ↦ rw b (load_member_status-IsAsked u w h)
    | inr b ↦ rw b (load_or_create_member_status-IsAsked u w h)
  ]

  IsEntered-after :
      (u : String) (w v : World Msg)
      → IsQuiet u w v
      → (is_guest w.room u ≡ true
          → (w.room.settings.disable_guest ≡ false) × (need_password w.room ≡ false))
      → w.room.status ≡ Room.active
      → IsWelcome u v
      → IsEntered u v
  unfolding is_guest need_password
  IsEntered-after u w v q guest unlocked welcome = record {
    guest = λ g. (
      ap (λ s. s.disable_guest) q.untouched.settings ∙ (guest g).0,
      ap (λ (h : List ℕ). elim h [ [] ↦ false | _ ∷ _ ↦ true ]) q.untouched.hashed_password
          ∙ (guest g).1,
    );
    active = q.untouched.status ∙ unlocked;
    welcome = welcome;
  }

  -- A coherent room, of which little changes; who passes has entered.
  pub access-IsEntered :
      (u : String) (w : World Msg)
      → IsCoherent w
      → let r = validate_room_access driver enable_guest u w in
        IsQuiet u w r.1 × (r.0 ≡ ok tt → IsEntered u r.1)
  unfolding validate_room_access
  access-IsEntered u w h =
      elim (Result-cases (
        validate_room (is_guest w.room u) w.room.settings.disable_guest (need_password w.room)
          w.room.status)) [
            | inr (x, e) ↦
                rw (e, validate_room_access) (self-IsQuiet u w h, λ done. absurd (cc done))
            | inl (x, e) ↦
                let asked = member_status-IsAsked u w h in
                let (guest, unlocked) =
                  validate_room_ok (is_guest w.room u) w.room.settings.disable_guest
                    (need_password w.room) w.room.status e in
                rw (e, validate_room_access)
                  (
                    asked.quiet,
                    λ done.
                        let (status, is, b, p) =
                          validate_status_ok (member_status driver enable_guest u w).0 done in
                        IsEntered-after u w (member_status driver enable_guest u w).1 asked.quiet
                          guest unlocked (asked.tells status is b p),
                  )
          ]
