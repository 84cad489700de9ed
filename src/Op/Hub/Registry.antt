-- ===== src/Op/Hub/Registry.antt =====
-- Which connections the hub holds after `RegClient` and `UnRegClient`.
use mathlib.Core.Option
use synctv.Base.{
  not, String, Bool, true, false, ◌&&◌, none, some, [], ◌∷◌, str_eq, eq_iff, if◌then◌else◌, ◌≡◌,
  ◌≢◌, ◌↔◌, refl, arith, ◌⊎◌, inl, inr, Bool-cases, Option-cases,
}
use synctv.Base.Result.{Error, Result, is_ok, Result-cases, ok, err}
use synctv.Base.Dict.{lookup, store, delete, lookup-store, lookup-delete}
use synctv.Op.Client.{Client, close, already_closed}
use synctv.Op.Hub.Delivery.{lookup-map_clients}
use synctv.Op.Hub.{
  Hub, Clients, reg_client, un_reg_client, clients_of, get_client_by_conn_id, store_rest,
  map_clients, change_user, kick_user,
}

module _ {Msg : Type 0} where
  -- A registration that succeeds adds the connection under its user and id; it changes no other,
  -- and one that fails changes none.
  pub get_client-reg_client :
      (cli : Client Msg) (h : Hub Msg) (u k : String)
      → get_client_by_conn_id (reg_client cli h).1 u k ≡ (
          if is_ok (reg_client cli h).0 && (str_eq cli.user_id u && str_eq cli.conn_id k)
          then some cli
          else get_client_by_conn_id h u k)
  unfolding reg_client get_client_by_conn_id lookup
  get_client-reg_client cli h u k = ground (
    arith,
    eq_iff cli.user_id u,
    lookup-store cli.user_id u (store cli.conn_id cli (clients_of h cli.user_id)) h.clients,
    lookup-store cli.conn_id k cli (clients_of h cli.user_id),
  )

  reg_client_refuses :
      (cli : Client Msg) (h : Hub Msg)
      → (h.is_closed ≡ true)
        ⊎ ((c : Client Msg) × (get_client_by_conn_id h cli.user_id cli.conn_id ≡ some c))
      → (reg_client cli h).0 ≢ ok tt
  unfolding reg_client get_client_by_conn_id lookup
  reg_client_refuses cli h (inl shut) success = ground arith
  reg_client_refuses cli h (inr (c, held)) success = ground arith

  -- A registration fails exactly on a closed hub and for a connection id that the user already
  -- has in the hub.
  pub reg_client_fails :
      (cli : Client Msg) (h : Hub Msg)
      → (reg_client cli h).0 ≢ ok tt
        ↔ (h.is_closed ≡ true)
          ⊎ ((c : Client Msg) × (get_client_by_conn_id h cli.user_id cli.conn_id ≡ some c))
  unfolding reg_client get_client_by_conn_id lookup
  reg_client_fails cli h = (
    λ refused. elim (Bool-cases h.is_closed) [
      | inl shut ↦ inl shut
      | inr open_hub ↦ inr (elim (Option-cases (get_client_by_conn_id h cli.user_id cli.conn_id)) [
        | inl missing ↦ absurd (refused (ground arith))
        | inr held ↦ held
      ])
    ],
    λ reason success. reg_client_refuses cli h reason success,
  )

  un_reg_clients :
      (cli : Client Msg) (h : Hub Msg)
      → (un_reg_client (some cli) h).0 ≡ ok tt
      → (c : Clients Msg) × (lookup cli.user_id h.clients ≡ some c)
        × ((un_reg_client (some cli) h).1 ≡ store_rest cli.user_id (delete cli.conn_id c) h)
  unfolding un_reg_client
  un_reg_clients cli h e = ground arith

  lookup-store_rest :
      (user u k : String) (c : Clients Msg) (h : Hub Msg)
      → get_client_by_conn_id (store_rest user c h) u k
        ≡ (if str_eq user u then lookup k c else get_client_by_conn_id h u k)
  unfolding store_rest get_client_by_conn_id lookup
  lookup-store_rest user u k [] h = ground (arith, lookup-delete user u h.clients)
  lookup-store_rest user u k (e ∷ m) h = ground (arith, lookup-store user u (e ∷ m) h.clients)

  without-clients :
      (cli : Client Msg) (h : Hub Msg) (u k : String) (c : Clients Msg)
      → lookup cli.user_id h.clients ≡ some c
      → get_client_by_conn_id (store_rest cli.user_id (delete cli.conn_id c) h) u k ≡ (
          if str_eq cli.user_id u && str_eq cli.conn_id k
          then none
          else get_client_by_conn_id h u k)
  unfolding get_client_by_conn_id
  without-clients cli h u k c found =
      rw (lookup-store_rest cli.user_id u k (delete cli.conn_id c) h)
        (ground (arith, eq_iff cli.user_id u, lookup-delete cli.conn_id k c))

  get_client-removed :
      (cli : Client Msg) (h : Hub Msg) (u k : String)
      → (un_reg_client (some cli) h).0 ≡ ok tt
      → get_client_by_conn_id (un_reg_client (some cli) h).1 u k ≡ (
          if str_eq cli.user_id u && str_eq cli.conn_id k
          then none
          else get_client_by_conn_id h u k)
  get_client-removed cli h u k e =
      let (c, found, after) = un_reg_clients cli h e in rw after (without-clients cli h u k c found)

  un_reg_client-failed :
      (cli : Client Msg) (h : Hub Msg) (x : Error)
      → (un_reg_client (some cli) h).0 ≡ err x
      → (un_reg_client (some cli) h).1 ≡ h
  unfolding un_reg_client
  un_reg_client-failed cli h x e = ground arith

  -- An unregistration that succeeds takes out that connection alone, and one that fails none.
  get_client-un_reg_client :
      (cli : Client Msg) (h : Hub Msg) (u k : String)
      → get_client_by_conn_id (un_reg_client (some cli) h).1 u k ≡ (
          if is_ok (un_reg_client (some cli) h).0 && (str_eq cli.user_id u && str_eq cli.conn_id k)
          then none
          else get_client_by_conn_id h u k)
  get_client-un_reg_client cli h u k = elim (Result-cases (un_reg_client (some cli) h).0) [
    | inl (t, e) ↦ rw e (get_client-removed cli h u k e)
    | inr (x, e) ↦ rw (e, un_reg_client-failed cli h x e) refl
  ]

  -- What a change of one user's connections makes of any connection.
  get_client-change_user :
      (f : Client Msg → Client Msg) (h : Hub Msg) (user u k : String)
      → get_client_by_conn_id (change_user user f h) u k ≡ (
          if str_eq user u
          then Option.map f (get_client_by_conn_id h u k)
          else get_client_by_conn_id h u k)
  unfolding get_client_by_conn_id lookup
  get_client-change_user f h user u k = elim (Option-cases (lookup user h.clients)) [
    | inl e ↦ ground (arith, eq_iff user u)
    | inr (c, e) ↦ ground (
      arith,
      eq_iff user u,
      lookup-store user u (map_clients f c) h.clients,
      lookup-map_clients f k c,
    )
  ]

  -- The two branches of `KickUser`, by its test.
  kick_either :
      (h : Hub Msg) (user u k : String) (shut : Bool)
      → let done : Result (Unit {0}) × Hub Msg =
          if shut
          then (err already_closed, h)
          else (ok tt, change_user user (λ (c : Client Msg). (close c).1) h) in
        (done.0 ≡ (if shut then err already_closed else ok tt))
        × (get_client_by_conn_id done.1 u k ≡ (
            if not shut && str_eq user u
            then Option.map (λ c. (close c).1) (get_client_by_conn_id h u k)
            else get_client_by_conn_id h u k))
  kick_either h user u k true = (refl, refl)
  kick_either h user u k false = (refl, get_client-change_user (λ c. (close c).1) h user u k)

  -- Kicking a user of an open hub closes each of the user's connections, which stay registered,
  -- and changes no other user's; on a closed hub it fails as already closed and changes none.
  pub get_client-kick_user :
      (h : Hub Msg) (user u k : String)
      → ((kick_user user h).0 ≡ (if h.is_closed then err already_closed else ok tt))
        × (get_client_by_conn_id (kick_user user h).1 u k ≡ (
            if not h.is_closed && str_eq user u
            then Option.map (λ c. (close c).1) (get_client_by_conn_id h u k)
            else get_client_by_conn_id h u k))
  unfolding kick_user
  get_client-kick_user h user u k = kick_either h user u k h.is_closed
