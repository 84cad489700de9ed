-- ===== src/Server/Access/Runs.antt =====
-- Requests after any calls on the site.
use synctv.Base.{
  ℕ, String, Bool, true, Option, none, List, [], ◌∷◌, ◌≡◌, arith, ap, inl, inr, Bool-cases,
}
use synctv.Base.Text.{Text}
use synctv.Base.Result.{Result, err, Result-cases, ok}
use synctv.Model.Room.{RoomStatus}
use synctv.Db.{Driver, Db}
use synctv.Db.User.{Users, UserDriver, update_password}
use synctv.Op.Room.Settings.{set_status}
use synctv.Op.User.{User, is_site_admin}
use synctv.Op.User.Account.Saved.{AccountCall, account_call}
use synctv.Op.Site.{
  Site, in_account, in_cached, load_or_init_room_by_id, set_room_status_by_id, close_room_by_id,
  close_user_by_id, invalid_room_id,
}
use synctv.Op.Site.Sound.{IsSound}
use synctv.Op.Site.Loads.{closed-IsSound}
use synctv.Op.Site.Rooms.{room-IsRoomLoad}
use synctv.Op.Site.Changes.{account-IsSound, status-IsSound}
use synctv.Server.Access.{AuthClaims, not_admin}
use synctv.Server.Access.Middleware
use synctv.Server.Access.Middleware.{
  Request, Passage, get_room_id, aborted, passed, get_authorization_token, auth_user_middleware,
  auth_admin_middleware, auth_room_middleware,
}
use synctv.Server.Access.Admitted.{IsToken}
use synctv.Server.Access.Rooms.{IsAdmitted}
use synctv.Server.Access.Requests.{
  room_request-IsRoomPassage, user_request-IsUserPassage, closed_user-IsSound,
}

pub data SiteCall : Type 0 where
  asks_room asks_user : Request → SiteCall
  loads_room closes_room closes_user : String → SiteCall
  changes_account : String → AccountCall → SiteCall
  sets_room_status : String → RoomStatus → SiteCall

module _ (parse : Text → Option AuthClaims) (user_driver : UserDriver) (driver : Driver)
    (enable_guest : Bool) (checksum : List ℕ → ℕ) (compare_hash : List ℕ → String → Bool)
    (generate : String → Result (List ℕ)) {Msg : Type 0} where
  unfoldable pub site_call : SiteCall → Site Msg → Site Msg
  site_call (asks_room r) s =
      (auth_room_middleware parse user_driver driver enable_guest checksum r s).1
  site_call (asks_user r) s =
      (auth_user_middleware parse user_driver driver enable_guest checksum r s).1
  site_call (loads_room id) s = (load_or_init_room_by_id user_driver checksum driver id s).1
  site_call (closes_room id) s = close_room_by_id id s
  site_call (closes_user id) s = close_user_by_id id s
  site_call (changes_account id c) s =
      in_account (account_call user_driver compare_hash generate checksum c) id s (s.users id)
  site_call (sets_room_status id status) s =
      (set_room_status_by_id user_driver checksum driver id status s).1

  unfoldable pub site_run : List SiteCall → Site Msg → Site Msg
  site_run [] s = s
  site_run (c ∷ cs) s = site_run cs (site_call c s)

  -- A site that has just been started.
  abbrev pub started : Users → Db → Site Msg
  started accounts db = record {
    users = λ i. none;
    rooms = λ i. none;
    accounts = accounts;
    db = db;
  }

  pub started-IsSound : (accounts : Users) (db : Db) → IsSound checksum (started accounts db)
  started-IsSound accounts db = record {
    users = λ i u e. absurd (cc e);
    rooms = λ i r e. absurd (cc e);
  }

  set_room_status-IsSound :
      (id : String) (status : RoomStatus) (s : Site Msg)
      → IsSound checksum s
      → IsSound checksum (set_room_status_by_id user_driver checksum driver id status s).1
  unfolding set_room_status_by_id
  set_room_status-IsSound id status s h =
      let load = load_or_init_room_by_id user_driver checksum driver id s in
      let l = room-IsRoomLoad checksum user_driver driver id s h in
      elim (Result-cases load.0) [
        | inr (x, e) ↦ rw (e, set_room_status_by_id) l.sound
        | inl (r, e) ↦
            let cached = (l.gives r e).0 in
            let is =
              ap (in_cached (err invalid_room_id) id (set_status driver status) load.1) cached in
            rw (e, set_room_status_by_id, is)
              (status-IsSound driver checksum status id r load.1 l.sound cached)
      ]

  call-IsSound :
      (c : SiteCall) (s : Site Msg)
      → user_driver update_password ≡ none
      → IsSound checksum s
      → IsSound checksum (site_call c s)
  unfolding site_call
  call-IsSound (asks_room r) s d h =
      (room_request-IsRoomPassage parse user_driver driver enable_guest checksum r s h).sound
  call-IsSound (asks_user r) s d h =
      (user_request-IsUserPassage parse user_driver driver enable_guest checksum r s h).sound
  call-IsSound (loads_room id) s d h = (room-IsRoomLoad checksum user_driver driver id s h).sound
  call-IsSound (closes_room id) s d h = closed-IsSound checksum id s h
  call-IsSound (closes_user id) s d h = closed_user-IsSound checksum id s h
  call-IsSound (changes_account id c) s d h =
      account-IsSound user_driver compare_hash generate checksum c id s d h
  call-IsSound (sets_room_status id status) s d h = set_room_status-IsSound id status s h

  site_run-IsSound :
      (cs : List SiteCall) (s : Site Msg)
      → user_driver update_password ≡ none
      → IsSound checksum s
      → IsSound checksum (site_run cs s)
  unfolding site_run
  site_run-IsSound [] s d h = h
  site_run-IsSound (c ∷ cs) s d h = site_run-IsSound cs (site_call c s) d (call-IsSound c s d h)

  -- On a site whose caches agree with the tables, if the statement that stores a password does
  -- not fail, after any requests, loads and closings, changes of accounts and of the status of
  -- rooms, a request for a room that passes names that room and comes from the site's guest
  -- without a token, where guests are enabled, or has a token whose account has a row that is
  -- neither banned nor pending and whose password has the checksum that the token carries; the
  -- room is as its row, which is active, its creator's row is neither banned nor pending, a guest
  -- enters no room that disables guests or has a password, and the user's row in the room, if
  -- there is one, is neither banned nor pending, unless he is the creator or the guest.
  pub site_run-IsAdmitted :
      (cs : List SiteCall) (start : Site Msg) (r : Request) (u : User) (id : String)
      → user_driver update_password ≡ none
      → IsSound checksum start
      → (let s = site_run cs start in
          (auth_room_middleware parse user_driver driver enable_guest checksum r s).0
          ≡ passed (u, id))
      → (get_room_id r ≡ ok id)
        × IsAdmitted parse user_driver driver enable_guest checksum
            (get_authorization_token r)
            id
            u
            (auth_room_middleware parse user_driver driver enable_guest checksum r
              (site_run cs start)).1
  site_run-IsAdmitted cs start r u id d h e =
      (room_request-IsRoomPassage parse user_driver driver enable_guest checksum r
          (site_run cs start) (site_run-IsSound cs start d h)).gives
        u id e

  only_admin :
      (u : User) (p : Passage User × Site Msg)
      → (Middleware.only_if is_site_admin not_admin p).0 ≡ passed u
      → (p.0 ≡ passed u) × (is_site_admin u ≡ true)
  only_admin u (aborted n x, s) e = cc e
  only_admin u (passed v, s) e = elim (Bool-cases (is_site_admin v)) [
    | inl b ↦
        let is : passed v ≡ passed u = ground arith in
        let same : v ≡ u = cc is in (is, rw (← same) b)
    | inr b ↦ ground arith
  ]

  -- On a site whose caches agree with the tables, if the statement that stores a password does
  -- not fail, after any requests, loads and closings, changes of accounts and of the status of
  -- rooms, a request for the site's administrators passes only with a token whose account has the
  -- row of an administrator whose password has the checksum that the token carries.
  pub site_run-admin :
      (cs : List SiteCall) (start : Site Msg) (r : Request) (u : User)
      → user_driver update_password ≡ none
      → IsSound checksum start
      → (let s = site_run cs start in
          (auth_admin_middleware parse user_driver driver enable_guest checksum r s).0 ≡ passed u)
      → IsToken parse user_driver driver enable_guest checksum
          (site_run cs start).accounts
          (get_authorization_token r)
          u
        × (is_site_admin u ≡ true)
  unfolding auth_admin_middleware
  site_run-admin cs start r u d h e =
      let s = site_run cs start in
      let sound = site_run-IsSound cs start d h in
      let out = auth_user_middleware parse user_driver driver enable_guest checksum r s in
      let (is, admin) = only_admin u out e in
      (
        (user_request-IsUserPassage parse user_driver driver enable_guest checksum r s sound).gives
            u is,
        admin,
      )
