-- ===== src/Op/Hub.antt =====
-- internal/op/hub.go: the connections of a room and the messages on their way to them.
-- Each method is one step. `serve` is one round of the goroutine of that name; it runs only from
-- when `Start` has started it to when it returns. The goroutine `ping` only broadcasts on a timer. Messages are of any type.
pub mod Delivery
pub mod Registry
pub mod Lifecycle
use synctv.Base.{
  ℕ, String, Bool, true, false, ◌&&◌, ◌||◌, not, Option, none, some, List, [], ◌∷◌, ◌++◌, map, ltb,
  ◌==◌, if◌then◌else◌, length,
}
use synctv.Base.Result.{Error, failure, Result, ok, err, M}
use synctv.Base.Dict.{lookup, store, delete, each}
use synctv.Utils.Once.{Once, new, done, perform}
use synctv.Utils.Page.{in_list}
use synctv.Op.Client.{Client, already_closed, send, close}

pub record BroadcastMessage (Msg : Type 0) : Type 0 where
  pub payload : Msg
  pub ignore_conn_id : List String
  pub ignore_user_id : List String
  pub rtc_joined : Bool

-- The connections of one user by their id.
abbrev pub Clients : Type 0 → Type 0
Clients Msg = List (String × Client Msg)

pub record Hub (Msg : Type 0) : Type 0 where
  pub id : String
  pub broadcast : List (BroadcastMessage Msg)
  pub clients : List (String × Clients Msg)
  pub once : Once
  pub is_closed : Bool
  -- whether the goroutine `serve` runs
  pub serving : Bool

-- How a round of `serve` ends: it goes on, it returns, it waits for a message or for the reader of
-- a connection whose channel is full, or it dereferences nil. A round that waits is not done: what
-- it has put on other channels by then is not shown.
pub data Round (Msg : Type 0) : Type 0 where
  continues returns : Hub Msg → Round Msg
  waits panics : Round Msg

abbrev pub broadcast_capacity : ℕ
broadcast_capacity = 128

module _ {Msg : Type 0} where
  abbrev pub with_rtc_joined : BroadcastMessage Msg → BroadcastMessage Msg
  with_rtc_joined bm = record bm { rtc_joined = true }

  abbrev pub with_ignore_conn_id : List String → BroadcastMessage Msg → BroadcastMessage Msg
  with_ignore_conn_id conn_id bm = record bm { ignore_conn_id = conn_id }

  abbrev pub with_ignore_id : List String → BroadcastMessage Msg → BroadcastMessage Msg
  with_ignore_id id bm = record bm { ignore_user_id = id }

  abbrev pub configure :
      List (BroadcastMessage Msg → BroadcastMessage Msg)
      → BroadcastMessage Msg
      → BroadcastMessage Msg
  configure [] msg = msg
  configure (c ∷ conf) msg = configure conf (c msg)

module _ {Msg : Type 0} where
  -- `if err := c.Send(…); err != nil { c.Close() }`.
  abbrev pub send_or_close : Msg → Client Msg → Option (Client Msg)
  send_or_close payload c = elim (send payload c) [
    | none ↦ none
    | some (ok _, c') ↦ some c'
    | some (err _, c') ↦ some (close c').1
  ]

  -- The body of the loop of `serve` over the connections; `none`: it waits for the connection.
  unfoldable pub deliver : BroadcastMessage Msg → Client Msg → Option (Client Msg)
  unfolding send close
  deliver message c =
      if in_list message.ignore_user_id c.user_id || in_list message.ignore_conn_id c.conn_id
      then some c
      else if message.rtc_joined && not c.rtc_joined
      then some c
      else send_or_close message.payload c

  abbrev pub map_clients : (Client Msg → Client Msg) → Clients Msg → Clients Msg
  map_clients f [] = []
  map_clients f ((k, c) ∷ m) = (k, f c) ∷ map_clients f m

  -- The round that receives a message, or nil from the channel that `Close` has closed.
  serve_next : List (BroadcastMessage Msg) → Hub Msg → Round Msg
  unfolding each
  serve_next [] h = if h.is_closed then panics else waits
  serve_next (message ∷ rest) h = elim (each (each (deliver message)) h.clients) [
    | none ↦ waits
    | some clients ↦ continues (record h { broadcast = rest; clients = clients })
  ]

  -- One round. Once the hub is closed, `exits` is the choice of `select` between its two channels.
  unfoldable pub serve : Bool → Hub Msg → Round Msg
  unfolding serve_next
  serve exits h =
      if not h.serving
      then waits
      else if h.is_closed && exits
      then returns (record h { serving = false })
      else serve_next h.broadcast h

  unfoldable pub start : M (Hub Msg) (Unit {0})
  unfolding perform
  start h =
      let (once, started) = perform h.once (λ (g : Hub Msg). record g { serving = true }) h in
      (ok tt, record started { once = once })

  -- All connections of the hub.
  abbrev pub all_clients : List (String × Clients Msg) → List (Client Msg)
  all_clients [] = []
  all_clients ((u, m) ∷ us) = map (λ e. e.1) m ++ all_clients us

  -- The result holds the connections as `Close` leaves them.
  unfoldable pub close_hub : M (Hub Msg) (List (Client Msg))
  unfolding close
  close_hub h = if h.is_closed then (err already_closed, h) else (
    ok (map (λ c. (close c).1) (all_clients h.clients)),
    record h { is_closed = true; clients = [] },
  )

  -- `none`: the channel is full, and the call waits for `serve` or `Close`.
  unfoldable pub broadcast_message :
      Msg
      → List (BroadcastMessage Msg → BroadcastMessage Msg)
      → Hub Msg
      → Option (Result (Unit {0}) × Hub Msg)
  unfolding done
  broadcast_message payload conf h =
      if h.is_closed
      then some (err already_closed, h)
      else let once = (done h.once).1 in
        let msg = configure conf (record {
          payload = payload;
          ignore_conn_id = [];
          ignore_user_id = [];
          rtc_joined = false;
        }) in
        if ltb (length h.broadcast) broadcast_capacity
        then some (ok tt, record h { once = once; broadcast = h.broadcast ++ msg ∷ [] })
        else none

  -- The map of a user that has no entry is the empty one that `LoadOrStore` stores.
  abbrev pub clients_of : Hub Msg → String → Clients Msg
  clients_of h user_id = elim (lookup user_id h.clients) [ none ↦ [] | some c ↦ c ]

  unfoldable pub reg_client : Client Msg → M (Hub Msg) (Unit {0})
  unfolding start
  reg_client cli h =
      if h.is_closed
      then (err already_closed, h)
      else let started = (start h).1 in
        let c = clients_of started cli.user_id in
        elim (lookup cli.conn_id c) [
          | some _ ↦ (err (failure "client already exists"), started)
          | none ↦ (
            ok tt,
            record started {
              clients = store cli.user_id (store cli.conn_id cli c) started.clients;
            },
          )
        ]

  -- What is left of a user's connections; the user goes with the last one.
  store_rest : String → Clients Msg → Hub Msg → Hub Msg
  store_rest user_id [] h = record h { clients = delete user_id h.clients }
  store_rest user_id (e ∷ m) h = record h { clients = store user_id (e ∷ m) h.clients }

  unfoldable pub un_reg_client : Option (Client Msg) → M (Hub Msg) (Unit {0})
  unfolding store_rest
  un_reg_client none h =
      if h.is_closed then (err already_closed, h) else (err (failure "user is nil"), h)
  un_reg_client (some cli) h =
      if h.is_closed then (err already_closed, h) else elim (lookup cli.user_id h.clients) [
        | none ↦ (err (failure "client not found"), h)
        | some c ↦ elim (lookup cli.conn_id c) [
          | none ↦ (err (failure "client not found"), h)
          | some _ ↦ (ok tt, store_rest cli.user_id (delete cli.conn_id c) h)
        ]
      ]

  -- The number of users, not of connections.
  unfoldable pub client_num : Hub Msg → ℕ
  client_num h = length h.clients

  unfoldable pub get_client_by_conn_id : Hub Msg → String → String → Option (Client Msg)
  get_client_by_conn_id h user_id conn_id = elim (lookup user_id h.clients) [
    | none ↦ none
    | some c ↦ lookup conn_id c
  ]

  unfoldable pub is_online : Hub Msg → String → Bool
  is_online h user_id = elim (lookup user_id h.clients) [ none ↦ false | some _ ↦ true ]

  online_in : String → Clients Msg → Hub Msg → ℕ × Hub Msg
  online_in user_id [] h = (0, record h { clients = delete user_id h.clients })
  online_in user_id (e ∷ m) h = (length (e ∷ m), h)

  unfoldable pub online_count : String → Hub Msg → ℕ × Hub Msg
  unfolding online_in
  online_count user_id h = elim (lookup user_id h.clients) [
    | none ↦ (0, h)
    | some c ↦ online_in user_id c h
  ]

  -- A change of each connection of one user.
  abbrev pub change_user : String → (Client Msg → Client Msg) → Hub Msg → Hub Msg
  change_user user_id f h = elim (lookup user_id h.clients) [
    | none ↦ h
    | some c ↦ record h { clients = store user_id (map_clients f c) h.clients }
  ]

  unfoldable pub kick_user : String → M (Hub Msg) (Unit {0})
  unfolding close
  kick_user user_id h =
      if h.is_closed
      then (err already_closed, h)
      else (ok tt, change_user user_id (λ c. (close c).1) h)

  abbrev pub send_error : Msg → Client Msg → Result (Unit {0})
  send_error payload c = elim (send payload c) [ none ↦ ok tt | some (result, c') ↦ result ]

  -- The error that `SendToUser` returns: that of the last connection it visits.
  last_error : Msg → Clients Msg → Result (Unit {0})
  unfolding send
  last_error payload [] = ok tt
  last_error payload ((k, c) ∷ []) = send_error payload c
  last_error payload (e ∷ d ∷ m) = last_error payload (d ∷ m)

  -- `none`: a channel is full, and the call waits for its reader.
  unfoldable pub send_to_user : String → Msg → Hub Msg → Option (Result (Unit {0}) × Hub Msg)
  unfolding send close last_error each
  send_to_user user_id payload h =
      if h.is_closed then some (err already_closed, h) else elim (lookup user_id h.clients) [
        | none ↦ some (ok tt, h)
        | some c ↦ elim (each (send_or_close payload) c) [
          | none ↦ none
          | some sent ↦
              some (last_error payload c, record h { clients = store user_id sent h.clients })
        ]
      ]

unfoldable pub new_hub : {Msg : Type 0} → String → Hub Msg
unfolding new
new_hub id = record {
  id = id;
  broadcast = [];
  clients = [];
  once = new;
  is_closed = false;
  serving = false;
}
