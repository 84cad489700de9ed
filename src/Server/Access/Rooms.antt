-- ===== src/Server/Access/Rooms.antt =====
-- Who is let into a room, and which room.
use synctv.Base.{
  ℕ, String, Bool, Option, some, List, str_eq, ◌==◌, ◌≡◌, refl, ap, sym, ◌∙◌, inl, inr, Bool-cases,
  if◌then◌else◌, if_true,
}
use synctv.Base.Dict.{str_eq_refl}
use synctv.Base.Text.{Text, codes, byte_length}
use synctv.Base.Result.{Result, ok, err, Result-cases}
use synctv.Db.{Driver}
use synctv.Db.User.{UserDriver}
use synctv.Op.Room.{Room, World}
use synctv.Op.User.{User}
use synctv.Op.Site.{Site, in_cached, in_room, load_or_init_room_by_id}
use synctv.Op.Site.Sound.{row_of, IsSound, IsGood}
use synctv.Op.Site.Rooms.{room-IsRoomLoad}
use synctv.Op.Site.Steps.{step-IsSound}
use synctv.Server.Access.{
  AuthClaims, authenticate_user_or_guest, accessed, authenticate_room_access, with_user, entered,
  auth_room, validate_room_access, invalid_room_id,
}
use synctv.Server.Access.Entry.{IsEntered}
use synctv.Server.Access.Entered.{access-IsEntered}
use synctv.Server.Access.Admitted.{
  IsKnown, IsAuthenticated, authenticate_user_or_guest-IsAuthenticated,
}

-- The room is cached as the tables have it, its creator may enter the site, and the user the room.
pub record IsRoomOf {Msg : Type 0} (id user_id : String) (s : Site Msg) : Type 0 where
  pub room : Room Msg
  pub cached : s.rooms id ≡ some room
  pub row : s.db.rooms id ≡ some (row_of room)
  pub creator : IsGood s.accounts room.creator_id
  pub enters : IsEntered user_id (record { room = room; db = s.db })

module _ {Msg : Type 0} where
  -- The site after a step on a cached room.
  abbrev stepped : String → World Msg → Site Msg → Site Msg
  stepped id v s = record s {
    rooms = λ i. if str_eq i id then some v.room else s.rooms i;
    db = v.db;
  }

  in_room-is :
      {A : Type 0} (missing : A) (id : String) (step : World Msg → A × World Msg) (s : Site Msg)
      (r : Room Msg)
      → s.rooms id ≡ some r
      → let w : World Msg = record { room = r; db = s.db } in
        in_room missing id step s ≡ ((step w).0, stepped id (step w).1 s)
  in_room-is missing id step s r e = ap (in_cached missing id step s) e

module _ (parse : Text → Option AuthClaims) (user_driver : UserDriver) (driver : Driver)
    (enable_guest : Bool) (checksum : List ℕ → ℕ) {Msg : Type 0} where
  pub record IsAccess (id : String) (u : User) (s : Site Msg) (r : Result String × Site Msg)
      : Type 0 where
    pub sound : IsSound checksum r.1
    pub accounts : r.1.accounts ≡ s.accounts
    pub gives : (i : String) → r.0 ≡ ok i → (i ≡ id) × IsRoomOf id u.id r.1

  accessed-IsAccess :
      (id : String) (u : User) (s s' : Site Msg) (r : Result (Unit {0}))
      → IsSound checksum s'
      → s'.accounts ≡ s.accounts
      → (r ≡ ok tt → IsRoomOf id u.id s')
      → IsAccess id u s (accessed parse user_driver driver enable_guest checksum id (r, s'))
  accessed-IsAccess id u s s' (err x) h a g = record {
    sound = h;
    accounts = a;
    gives = λ i k. absurd (cc k);
  }
  accessed-IsAccess id u s s' (ok x) h a g = record {
    sound = h;
    accounts = a;
    gives = λ i k. (sym (cc k), g refl);
  }

  authenticate_room_access-IsAccess :
      (id : String) (u : User) (s : Site Msg)
      → IsSound checksum s
      → IsAccess id u s
          (authenticate_room_access parse user_driver driver enable_guest checksum id u s)
  unfolding authenticate_room_access
  authenticate_room_access-IsAccess id u s h =
      let load = load_or_init_room_by_id user_driver checksum driver id s in
      let l = room-IsRoomLoad checksum user_driver driver id s h in
      elim (Result-cases load.0) [
        | inr (x, e) ↦
            rw (e, authenticate_room_access)
              (record { sound = l.sound; accounts = l.accounts; gives = λ i k. absurd (cc k) })
        | inl (r, e) ↦
            let (cached, good) = l.gives r e in
            let t = l.sound.rooms id r cached in
            let w : World Msg = record { room = r; db = load.1.db } in
            let access = validate_room_access driver enable_guest u.id w in
            let (quiet, enters) = access-IsEntered driver enable_guest u.id w t.coherent in
            let after = stepped id access.1 load.1 in
            let sound : IsSound checksum after =
              step-IsSound checksum id u.id r load.1 access.1 l.sound cached quiet in
            let here : after.rooms id ≡ some access.1.room =
              if_true (str_eq id id) _ _ (str_eq_refl id) in
            let is =
              in_room-is (err invalid_room_id) id (validate_room_access driver enable_guest u.id)
                load.1 r cached in
            rw (e, authenticate_room_access, is)
              (accessed-IsAccess id u s after access.0 sound l.accounts (λ done. record {
                room = access.1.room;
                cached = here;
                row = (sound.rooms id access.1.room here).row;
                creator = rw (l.accounts, quiet.untouched.creator) good;
                enters = enters done;
              }))
      ]

  -- What is known of a user that is let into a room, and of the room.
  pub record IsAdmitted (authorization : Text) (id : String) (u : User) (s : Site Msg)
      : Type 0 where
    pub who : IsKnown parse user_driver driver enable_guest checksum s.accounts authorization u
    pub where_to : IsRoomOf id u.id s

  pub record IsEntry (authorization : Text) (id : String) (s : Site Msg)
      (r : Result (User × String) × Site Msg) : Type 0 where
    pub sound : IsSound checksum r.1
    pub accounts : r.1.accounts ≡ s.accounts
    pub gives :
        (u : User) (i : String) → r.0 ≡ ok (u, i) → (i ≡ id) × IsAdmitted authorization id u r.1

  admitted_if :
      (authorization : Text) (id : String) (u : User) (s : Site Msg) (r : Result String × Site Msg)
      → IsKnown parse user_driver driver enable_guest checksum s.accounts authorization u
      → IsAccess id u s r
      → IsEntry authorization id s (with_user parse user_driver driver enable_guest checksum u r)
  admitted_if authorization id u s (err e, s') known a = record {
    sound = a.sound;
    accounts = a.accounts;
    gives = λ v i k. absurd (cc k);
  }
  admitted_if authorization id u s (ok j, s') known a = record {
    sound = a.sound;
    accounts = a.accounts;
    gives = λ v i k.
        let same : u ≡ v = cc k in
        let name : j ≡ i = cc k in
        let (is, there) = a.gives j refl in
        rw (← same) (sym name ∙ is, record { who = rw a.accounts known; where_to = there });
  }

  entered-IsEntry :
      (authorization : Text) (id : String) (s : Site Msg) (r : Result User × Site Msg)
      → IsAuthenticated parse user_driver driver enable_guest checksum
          (IsKnown parse user_driver driver enable_guest checksum s.accounts authorization)
          s
          r
      → IsEntry authorization id s (entered parse user_driver driver enable_guest checksum id r)
  entered-IsEntry authorization id s (err e, s') a = record {
    sound = a.sound;
    accounts = a.accounts;
    gives = λ v i k. absurd (cc k);
  }
  entered-IsEntry authorization id s (ok u, s') a =
      let access = authenticate_room_access-IsAccess id u s' a.sound in
      let k =
        admitted_if authorization id u s'
          (authenticate_room_access parse user_driver driver enable_guest checksum id u s')
          (rw a.accounts (a.who u refl)) access in
      record { sound = k.sound; accounts = k.accounts ∙ a.accounts; gives = k.gives }

  pub auth_room-IsEntry :
      (authorization : Text) (id : String) (s : Site Msg)
      → IsSound checksum s
      → IsEntry authorization id s
          (auth_room parse user_driver driver enable_guest checksum authorization id s)
  unfolding auth_room
  auth_room-IsEntry authorization id s h = elim (Bool-cases (byte_length (codes id) == 32)) [
    | inr e ↦ rw e (record { sound = h; accounts = refl; gives = λ u i k. absurd (cc k) })
    | inl e ↦ rw e (
        entered-IsEntry authorization id s
          (authenticate_user_or_guest parse user_driver driver enable_guest checksum authorization
            s)
          (authenticate_user_or_guest-IsAuthenticated parse user_driver driver enable_guest checksum
            authorization s h))
  ]
