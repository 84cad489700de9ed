-- ===== src/Server/Access/Requests.antt =====
-- Requests one after the other, and what closes rooms and users between them.
use synctv.Base.{
  ℕ, String, Bool, Option, none, some, List, ◌≡◌, refl, arith, ap, sym, ◌∙◌, inl, inr, Bool-cases,
}
use synctv.Base.Text.{Text, is_empty}
use synctv.Base.Result.{Result, ok, err, Result-cases}
use synctv.Db.{Driver}
use synctv.Db.User.{UserDriver}
use synctv.Op.Room.{Room}
use synctv.Op.User.{User}
use synctv.Op.Site.{Site, close_user_by_id, unless_created_by}
use synctv.Op.Site.Sound.{IsSound}
use synctv.Server.Access.{AuthClaims, authenticate_user, auth_room}
use synctv.Server.Access.Middleware
use synctv.Server.Access.Middleware.{
  Request, Passage, aborted, passed, get_authorization_token, get_room_id, auth_user_middleware,
  auth_admin_middleware, auth_room_middleware,
}
use synctv.Server.Access.Admitted.{IsToken, IsAuthenticated, user-IsAuthenticated}
use synctv.Server.Access.Rooms.{IsAdmitted, IsEntry, auth_room-IsEntry}

module _ (parse : Text → Option AuthClaims) (user_driver : UserDriver) (driver : Driver)
    (enable_guest : Bool) (checksum : List ℕ → ℕ) {Msg : Type 0} where
  -- What a request for a room leaves, and what is so if it passes.
  pub record IsRoomPassage (r : Request) (s : Site Msg) (out : Passage (User × String) × Site Msg)
      : Type 0 where
    pub sound : IsSound checksum out.1
    pub accounts : out.1.accounts ≡ s.accounts
    pub gives :
        (u : User) (id : String)
        → out.0 ≡ passed (u, id)
        → (get_room_id r ≡ ok id)
          × IsAdmitted parse user_driver driver enable_guest checksum
              (get_authorization_token r)
              id
              u
              out.1

  entry-IsRoomPassage :
      (r : Request) (id : String) (s : Site Msg) (e : Result (User × String) × Site Msg)
      → get_room_id r ≡ ok id
      → IsEntry parse user_driver driver enable_guest checksum (get_authorization_token r) id s e
      → IsRoomPassage r s (Middleware.aborts 401 e)
  entry-IsRoomPassage r id s (err x, s') known e = record {
    sound = e.sound;
    accounts = e.accounts;
    gives = λ u i k. absurd (cc k);
  }
  entry-IsRoomPassage r id s (ok (u, i), s') known e = record {
    sound = e.sound;
    accounts = e.accounts;
    gives = λ v j k.
        let same : u ≡ v = cc k in
        let name : i ≡ j = cc k in
        let (is, there) = e.gives u i refl in
        rw (← same, ← name) (known ∙ ap ok (sym is), rw is there);
  }

  pub room_request-IsRoomPassage :
      (r : Request) (s : Site Msg)
      → IsSound checksum s
      → IsRoomPassage r s (auth_room_middleware parse user_driver driver enable_guest checksum r s)
  unfolding auth_room_middleware
  room_request-IsRoomPassage r s h = elim (Result-cases (get_room_id r)) [
    | inr (x, e) ↦
        rw (e, auth_room_middleware)
          (record { sound = h; accounts = refl; gives = λ u i k. absurd (cc k) })
    | inl (id, e) ↦
        rw (e, auth_room_middleware)
          (entry-IsRoomPassage r id s
            (auth_room parse user_driver driver enable_guest checksum (get_authorization_token r) id
              s)
            e
            (auth_room-IsEntry parse user_driver driver enable_guest checksum
              (get_authorization_token r) id s h))
  ]

  pub record IsUserPassage (r : Request) (s : Site Msg) (out : Passage User × Site Msg)
      : Type 0 where
    pub sound : IsSound checksum out.1
    pub accounts : out.1.accounts ≡ s.accounts
    pub gives :
        (u : User)
        → out.0 ≡ passed u
        → IsToken parse user_driver driver enable_guest checksum s.accounts
            (get_authorization_token r)
            u

  aborts-IsUserPassage :
      (r : Request) (s : Site Msg) (a : Result User × Site Msg)
      → IsAuthenticated parse user_driver driver enable_guest checksum
          (IsToken parse user_driver driver enable_guest checksum s.accounts
            (get_authorization_token r))
          s
          a
      → IsUserPassage r s (Middleware.aborts 401 a)
  aborts-IsUserPassage r s (err x, s') a = record {
    sound = a.sound;
    accounts = a.accounts;
    gives = λ u k. absurd (cc k);
  }
  aborts-IsUserPassage r s (ok u, s') a = record {
    sound = a.sound;
    accounts = a.accounts;
    gives = λ v k. let same : u ≡ v = cc k in rw (← same) (a.who u refl);
  }

  pub user_request-IsUserPassage :
      (r : Request) (s : Site Msg)
      → IsSound checksum s
      → IsUserPassage r s (auth_user_middleware parse user_driver driver enable_guest checksum r s)
  unfolding auth_user_middleware
  user_request-IsUserPassage r s h = elim (Bool-cases (is_empty (get_authorization_token r))) [
    | inl e ↦
        rw (e, auth_user_middleware)
          (record { sound = h; accounts = refl; gives = λ u k. absurd (cc k) })
    | inr e ↦
        rw (e, auth_user_middleware)
          (aborts-IsUserPassage r s
            (authenticate_user parse user_driver driver enable_guest checksum
              (get_authorization_token r) s)
            (user-IsAuthenticated parse user_driver driver enable_guest checksum
              (get_authorization_token r) s h))
  ]

pub closed_user-IsSound :
    {Msg : Type 0} (checksum : List ℕ → ℕ) (id : String) (s : Site Msg)
    → IsSound checksum s
    → IsSound checksum (close_user_by_id id s)
unfolding close_user_by_id
closed_user-IsSound checksum id s h = record {
  users = λ i u e. h.users i u (ground arith);
  rooms = λ i r e. h.rooms i r (kept (s.rooms i) e);
}
  where
    kept :
        {Msg : Type 0} {r : Room Msg} (o : Option (Room Msg))
        → unless_created_by id o ≡ some r
        → o ≡ some r
    kept none e = e
    kept (some x) e = ground arith
