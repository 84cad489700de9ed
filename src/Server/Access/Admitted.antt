-- ===== src/Server/Access/Admitted.antt =====
-- Who is let into a room, by what the tables hold.
use synctv.Base.{
  ℕ, Bool, true, false, Option, some, List, [], ◌∷◌, ◌≡◌, refl, arith, sym, ◌∙◌, ◌⊎◌, inl, inr,
  Bool-cases, Option-cases, if_true, if_false,
}
use synctv.Base.Text.{Text, codes, is_empty, trim_prefix}
use synctv.Base.Result.{Error, Result, ok, err, Result-cases}
use synctv.Model.User.{is_banned, is_pending}
use synctv.Db.{Driver}
use synctv.Db.User.{Users, UserDriver}
use synctv.Op.Room.{guest_user_id}
use synctv.Op.User.{User, check_version}
use synctv.Op.Site.{Site, load_or_init_user_by_id, load_or_init_guest_user}
use synctv.Op.Site.Sound.{IsSound, IsUserLoad, user-IsUserLoad}
use synctv.Server.Access.{
  AuthClaims, validate_user, auth_claims, accepted, validated, authenticate_user,
  authenticate_guest, authenticate_user_or_guest, user_guest,
}

validate_user_ok :
    (u : User) (version : ℕ)
    → validate_user u version ≡ ok tt
    → (u.version ≡ version) × (is_banned u.row ≡ false) × (is_pending u.row ≡ false)
unfolding validate_user check_version
validate_user_ok u version e = (ground arith, ground arith, ground arith)

auth_claims_ok :
    (parse : Text → Option AuthClaims) (authorization : Text) (claims : AuthClaims)
    → auth_claims parse authorization ≡ ok claims
    → parse (trim_prefix authorization (codes "Bearer ")) ≡ some claims
unfolding auth_claims
auth_claims_ok parse authorization claims e =
    elim (Option-cases (parse (trim_prefix authorization (codes "Bearer ")))) [
      | inl k ↦ ground arith
      | inr (c, k) ↦ ground arith
    ]

module _ (parse : Text → Option AuthClaims) (user_driver : UserDriver) (driver : Driver)
    (enable_guest : Bool) (checksum : List ℕ → ℕ) where
  -- The token is of the account, whose row has the password of the token and may enter.
  pub record IsToken (accounts : Users) (authorization : Text) (u : User) : Type 0 where
    pub claims : AuthClaims
    pub parsed : parse (trim_prefix authorization (codes "Bearer ")) ≡ some claims
    pub named : u.id ≡ claims.user_id
    pub row : accounts claims.user_id ≡ some u.row
    pub current : checksum u.row.hashed_password ≡ claims.user_version
    pub not_banned : is_banned u.row ≡ false
    pub not_pending : is_pending u.row ≡ false

  -- The guest of the site, without a token.
  abbrev pub IsGuest : Text → User → Type 0
  IsGuest authorization u = (authorization ≡ []) × (enable_guest ≡ true) × (u.id ≡ guest_user_id)

  abbrev pub IsKnown : Users → Text → User → Type 0
  IsKnown accounts authorization u = IsGuest authorization u ⊎ IsToken accounts authorization u

  module _ {Msg : Type 0} where
    pub record IsAuthenticated (P : User → Type 0) (s : Site Msg) (r : Result User × Site Msg)
        : Type 0 where
      pub sound : IsSound checksum r.1
      pub accounts : r.1.accounts ≡ s.accounts
      pub who : (u : User) → r.0 ≡ ok u → P u

    refused-IsAuthenticated :
        (P : User → Type 0) (s : Site Msg) (e : Error)
        → IsSound checksum s
        → IsAuthenticated P s (err e, s)
    refused-IsAuthenticated P s e h = record {
      sound = h;
      accounts = refl;
      who = λ u k. absurd (cc k);
    }

    accepted-IsAuthenticated :
        (authorization : Text) (claims : AuthClaims) (s s' : Site Msg) (u : User)
        (r : Result (Unit {0}))
        → validate_user u claims.user_version ≡ r
        → parse (trim_prefix authorization (codes "Bearer ")) ≡ some claims
        → IsUserLoad user_driver checksum claims.user_id s (ok u, s')
        → IsAuthenticated
            (IsToken s.accounts authorization)
            s
            (accepted parse user_driver driver enable_guest checksum u r s')
    accepted-IsAuthenticated authorization claims s s' u (err x) e p l = record {
      sound = l.sound;
      accounts = l.accounts;
      who = λ v k. absurd (cc k);
    }
    accepted-IsAuthenticated authorization claims s s' u (ok x) e p l =
        let (version, b, n) = validate_user_ok u claims.user_version e in
        let t = l.gives u refl in
        record {
          sound = l.sound;
          accounts = l.accounts;
          who = λ v k.
              let is : u ≡ v = cc k in
              rw (← is) (record {
                claims = claims;
                parsed = p;
                named = t.same_id;
                row = t.row;
                current = sym t.version ∙ version;
                not_banned = b;
                not_pending = n;
              });
        }

    validated-IsAuthenticated :
        (authorization : Text) (claims : AuthClaims) (s : Site Msg) (r : Result User × Site Msg)
        → parse (trim_prefix authorization (codes "Bearer ")) ≡ some claims
        → IsUserLoad user_driver checksum claims.user_id s r
        → IsAuthenticated
            (IsToken s.accounts authorization)
            s
            (validated parse user_driver driver enable_guest checksum claims.user_version r)
    validated-IsAuthenticated authorization claims s (err e, s') p l = record {
      sound = l.sound;
      accounts = l.accounts;
      who = λ u k. absurd (cc k);
    }
    validated-IsAuthenticated authorization claims s (ok u, s') p l =
        accepted-IsAuthenticated authorization claims s s' u (validate_user u claims.user_version)
          refl p l

    pub user-IsAuthenticated :
        (authorization : Text) (s : Site Msg)
        → IsSound checksum s
        → IsAuthenticated
            (IsToken s.accounts authorization)
            s
            (authenticate_user parse user_driver driver enable_guest checksum authorization s)
    unfolding authenticate_user
    user-IsAuthenticated authorization s h = elim (Result-cases (auth_claims parse authorization)) [
      | inr (x, e) ↦
          rw (e, authenticate_user)
            (refused-IsAuthenticated (IsToken s.accounts authorization) s x h)
      | inl (claims, e) ↦
          rw (e, authenticate_user)
            (validated-IsAuthenticated authorization claims s
              (load_or_init_user_by_id user_driver checksum claims.user_id s)
              (auth_claims_ok parse authorization claims e)
              (user-IsUserLoad user_driver checksum claims.user_id s h))
    ]

    guest-IsAuthenticated :
        (s : Site Msg)
        → IsSound checksum s
        → IsAuthenticated
            (IsKnown s.accounts [])
            s
            (authenticate_guest parse user_driver driver enable_guest checksum s)
    unfolding authenticate_guest load_or_init_guest_user
    guest-IsAuthenticated s h = elim (Bool-cases enable_guest) [
      | inr e ↦
          let is : authenticate_guest parse user_driver driver enable_guest checksum s
              ≡ (err user_guest, s) =
            if_false enable_guest _ _ e in
          rw is (refused-IsAuthenticated (IsKnown s.accounts []) s user_guest h)
      | inl e ↦
          let l = user-IsUserLoad user_driver checksum guest_user_id s h in
          let is : authenticate_guest parse user_driver driver enable_guest checksum s
              ≡ load_or_init_user_by_id user_driver checksum guest_user_id s =
            if_true enable_guest _ _ e in
          rw is (record {
            sound = l.sound;
            accounts = l.accounts;
            who = λ u k. inl (refl, e, (l.gives u k).same_id);
          })
    ]

    pub authenticate_user_or_guest-IsAuthenticated :
        (authorization : Text) (s : Site Msg)
        → IsSound checksum s
        → IsAuthenticated (IsKnown s.accounts authorization) s (
            authenticate_user_or_guest parse user_driver driver enable_guest checksum authorization
              s)
    unfolding authenticate_user_or_guest is_empty
    authenticate_user_or_guest-IsAuthenticated [] s h = guest-IsAuthenticated s h
    authenticate_user_or_guest-IsAuthenticated (c ∷ cs) s h =
        let a = user-IsAuthenticated (c ∷ cs) s h in
        record { sound = a.sound; accounts = a.accounts; who = λ u k. inr (a.who u k) }
