-- ===== src/Op/Hub/Lifecycle.antt =====
-- When a hub serves, and what is left of it once closed.
use synctv.Base.{
  ℕ, String, Bool, true, false, none, some, Option, List, [], ◌∷◌, ◌≡◌, refl, arith, ◌⊎◌, inl, inr,
  Option-cases, map, str_eq, if◌then◌else◌,
}
use synctv.Base.Result.{ok, err}
use synctv.Base.Dict.{lookup, delete, each}
use synctv.Op.Client.{Client, already_closed, close, receive}
use synctv.Op.Hub.{
  Hub, BroadcastMessage, start, serve, reg_client, un_reg_client, kick_user, send_to_user,
  broadcast_message, close_hub, online_count, all_clients, new_hub, Clients, store_rest, online_in,
  serve_next, Round, continues, returns, waits, panics, change_user, deliver,
}

-- The calls on a hub, a round of `serve` and a reader's receiving from a connection among them.
pub data Call (Msg : Type 0) : Type 0 where
  registers : Client Msg → Call Msg
  unregisters : Option (Client Msg) → Call Msg
  kicks counts : String → Call Msg
  reads : String → String → Call Msg
  sends : String → Msg → Call Msg
  broadcasts : Msg → List (BroadcastMessage Msg → BroadcastMessage Msg) → Call Msg
  serves : Bool → Call Msg
  closes starts : Call Msg

module _ {Msg : Type 0} where
  -- The hub after a round.
  abbrev after_round : Hub Msg → Round Msg → Hub Msg
  after_round h (continues h') = h'
  after_round h (returns h') = h'
  after_round h waits = h
  after_round h panics = h

  -- A call that waits has not happened yet. A panic of `serve` ends the program; the calls that
  -- follow it here are none of the program's.
  unfoldable pub step : Hub Msg → Call Msg → Hub Msg
  step h (registers c) = (reg_client c h).1
  step h (unregisters c) = (un_reg_client c h).1
  step h (kicks u) = (kick_user u h).1
  step h (counts u) = (online_count u h).1
  step h (sends u m) = elim (send_to_user u m h) [ none ↦ h | some (r, h') ↦ h' ]
  step h (broadcasts m conf) = elim (broadcast_message m conf h) [ none ↦ h | some (r, h') ↦ h' ]
  step h (serves exits) = after_round h (serve exits h)
  step h (reads u k) = change_user u (λ c. if str_eq c.conn_id k then receive c else c) h
  step h closes = (close_hub h).1
  step h starts = (start h).1

  unfoldable pub run : Hub Msg → List (Call Msg) → Hub Msg
  run h [] = h
  run h (c ∷ cs) = run (step h c) cs

  -- The goroutine runs or not, unless it has returned from a closed hub, and the call of `Start`
  -- that would change that has been used up.
  abbrev Serves : Bool → ℕ → Hub Msg → Type 0
  Serves b n h =
      ((h.serving ≡ b) ⊎ ((h.is_closed ≡ true) × (h.serving ≡ false))) × (h.once.done ≡ n)

  store_rest-Serves :
      (b : Bool) (n : ℕ) (u : String) (m : Clients Msg) (h : Hub Msg)
      → Serves b n h
      → Serves b n (store_rest u m h)
  unfolding store_rest
  store_rest-Serves b n u [] h s = s
  store_rest-Serves b n u (e ∷ m) h s = s

  online_in-Serves :
      (b : Bool) (n : ℕ) (u : String) (m : Clients Msg) (h : Hub Msg)
      → Serves b n h
      → Serves b n (online_in u m h).1
  unfolding online_in
  online_in-Serves b n u [] h s = s
  online_in-Serves b n u (e ∷ m) h s = s

  idle_round : (h : Hub Msg) (shut : Bool) → after_round h (if shut then panics else waits) ≡ h
  idle_round h true = refl
  idle_round h false = refl

  serve_next-Serves :
      (b : Bool) (n : ℕ) (q : List (BroadcastMessage Msg)) (h : Hub Msg)
      → Serves b n h
      → Serves b n (after_round h (serve_next q h))
  unfolding serve_next
  serve_next-Serves b n [] h s = rw (idle_round h h.is_closed) s
  serve_next-Serves b n (m ∷ q) h s = elim (Option-cases (each (each (deliver m)) h.clients)) [
    | inl e ↦ rw (e, serve_next) s
    | inr (clients, e) ↦ rw (e, serve_next) s
  ]

  serve-Serves :
      (b exits : Bool) (n : ℕ) (h : Hub Msg)
      → Serves b n h
      → Serves b n (after_round h (serve exits h))
  unfolding serve
  serve-Serves b exits n h s = ground (arith, serve_next-Serves b n h.broadcast h s)

  online_count-Serves :
      (b : Bool) (n : ℕ) (u : String) (h : Hub Msg) → Serves b n h → Serves b n (online_count u h).1
  unfolding online_count
  online_count-Serves b n u h s = elim (Option-cases (lookup u h.clients)) [
    | inl e ↦ rw (e, online_count) s
    | inr (m, e) ↦ rw (e, online_count) (online_in-Serves b n u m h s)
  ]

  -- An unregistration that succeeds stores what is left; one that fails changes nothing.
  un_reg_client-Serves :
      (b : Bool) (n : ℕ) (c : Client Msg) (h : Hub Msg)
      → Serves b n h
      → Serves b n (un_reg_client (some c) h).1
  unfolding un_reg_client
  un_reg_client-Serves b n c h s = elim (Option-cases (lookup c.user_id h.clients)) [
    | inl e ↦ ground arith
    | inr (m, e) ↦ ground (arith, store_rest-Serves b n c.user_id (delete c.conn_id m) h s)
  ]

  un_reg_client-nil :
      (b : Bool) (n : ℕ) (h : Hub Msg) → Serves b n h → Serves b n (un_reg_client none h).1
  unfolding un_reg_client
  un_reg_client-nil b n h s = ground arith

  -- `Start` is spent once `done` is not 0, and no call sets it back.
  step-Serves :
      (b : Bool) (n : ℕ) (h : Hub Msg) (c : Call Msg)
      → (n ≡ 1) ⊎ (n ≡ 2)
      → Serves b n h
      → Serves b n (step h c)
  unfolding step reg_client kick_user send_to_user broadcast_message serve close_hub start
  step-Serves b n h (registers c) u s = ground arith
  step-Serves b n h (unregisters none) u s = un_reg_client-nil b n h s
  step-Serves b n h (unregisters (some c)) u s = un_reg_client-Serves b n c h s
  step-Serves b n h (kicks user) u s = ground arith
  step-Serves b n h (counts user) u s = online_count-Serves b n user h s
  step-Serves b n h (sends user m) u s = ground arith
  step-Serves b n h (broadcasts m conf) u s = ground arith
  step-Serves b n h (serves exits) u s = serve-Serves b exits n h s
  step-Serves b n h (reads user conn) u s = ground arith
  step-Serves b n h closes u s = ground arith
  step-Serves b n h starts u s = ground arith

  run-Serves :
      (b : Bool) (n : ℕ) (h : Hub Msg) (cs : List (Call Msg))
      → (n ≡ 1) ⊎ (n ≡ 2)
      → Serves b n h
      → Serves b n (run h cs)
  unfolding run
  run-Serves b n h [] u s = s
  run-Serves b n h (c ∷ cs) u s = run-Serves b n (step h c) cs u (step-Serves b n h c u s)

  -- A hub whose first call is a registration serves, after any calls that follow which leave it
  -- open.
  pub registers-serving :
      (id : String) (c : Client Msg) (cs : List (Call Msg))
      → let after = run (new_hub id) (registers c ∷ cs) in
        after.is_closed ≡ false → after.serving ≡ true
  unfolding run step reg_client new_hub lookup
  registers-serving id c cs still =
      let s = run-Serves true 1 (step (new_hub id) (registers c)) cs (inl refl) (inl refl, refl) in
      elim s.0 [ inl runs ↦ runs | inr (shut, _) ↦ absurd (cc (still, shut)) ]

  -- A hub whose first call is a broadcast does not serve, after any calls that follow,
  -- registrations and starts among them.
  pub broadcasts-serving :
      (id : String) (m : Msg) (conf : List (BroadcastMessage Msg → BroadcastMessage Msg))
      (cs : List (Call Msg))
      → (run (new_hub id) (broadcasts m conf ∷ cs)).serving ≡ false
  unfolding run step broadcast_message new_hub
  broadcasts-serving id m conf cs =
      let s =
        run-Serves false 2 (step (new_hub id) (broadcasts m conf)) cs (inr refl) (inl refl, refl) in
      elim s.0 [ inl idle ↦ idle | inr (_, idle) ↦ idle ]

  abbrev pub IsShut : Hub Msg → Type 0
  IsShut h = (h.is_closed ≡ true) × (h.clients ≡ [])

  online_count-IsShut : (u : String) (h : Hub Msg) → IsShut h → IsShut (online_count u h).1
  unfolding online_count lookup
  online_count-IsShut u h s = rw (s.1, online_count) s

  change_user-IsShut :
      (u : String) (f : Client Msg → Client Msg) (h : Hub Msg)
      → IsShut h
      → IsShut (change_user u f h)
  unfolding lookup
  change_user-IsShut u f h s =
      let missing : lookup u h.clients ≡ none = rw s.1 refl in rw (change_user, missing) s

  serve_next-IsShut :
      (q : List (BroadcastMessage Msg)) (h : Hub Msg)
      → IsShut h
      → IsShut (after_round h (serve_next q h))
  unfolding serve_next each
  serve_next-IsShut [] h s = ground arith
  serve_next-IsShut (m ∷ q) h s = ground arith

  serve-IsShut : (exits : Bool) (h : Hub Msg) → IsShut h → IsShut (after_round h (serve exits h))
  unfolding serve
  serve-IsShut exits h s = ground (arith, serve_next-IsShut h.broadcast h s)

  step-IsShut : (h : Hub Msg) (c : Call Msg) → IsShut h → IsShut (step h c)
  unfolding step reg_client un_reg_client kick_user send_to_user broadcast_message serve close_hub
      start
  step-IsShut h (registers c) s = ground arith
  step-IsShut h (unregisters none) s = ground arith
  step-IsShut h (unregisters (some c)) s = ground arith
  step-IsShut h (kicks user) s = ground arith
  step-IsShut h (counts user) s = online_count-IsShut user h s
  step-IsShut h (sends user m) s = ground arith
  step-IsShut h (broadcasts m conf) s = ground arith
  step-IsShut h (serves exits) s = serve-IsShut exits h s
  step-IsShut h (reads user conn) s = change_user-IsShut user _ h s
  step-IsShut h closes s = ground arith
  step-IsShut h starts s = ground arith

  run-IsShut : (h : Hub Msg) (cs : List (Call Msg)) → IsShut h → IsShut (run h cs)
  unfolding run
  run-IsShut h [] s = s
  run-IsShut h (c ∷ cs) s = run-IsShut (step h c) cs (step-IsShut h c s)

  abbrev pub AllClosed : List (Client Msg) → Type 0
  AllClosed [] = Unit {0}
  AllClosed (c ∷ cs) = (c.is_closed ≡ true) × AllClosed cs

  close-AllClosed : (cs : List (Client Msg)) → AllClosed (map (λ c. (close c).1) cs)
  unfolding close
  close-AllClosed [] = tt
  close-AllClosed (c ∷ cs) = (ground arith, close-AllClosed cs)

  -- Closing an open hub closes every connection that it holds; after any calls that follow the
  -- hub is closed and holds no connection, and a registration, a broadcast and a second close are
  -- refused as already closed and change nothing.
  pub close_hub-IsShut :
      (h : Hub Msg) (cs : List (Call Msg)) (c : Client Msg) (m : Msg)
      (conf : List (BroadcastMessage Msg → BroadcastMessage Msg))
      → h.is_closed ≡ false
      → let after = run (close_hub h).1 cs in
        ((close_hub h).0 ≡ ok (map (λ d. (close d).1) (all_clients h.clients)))
        × AllClosed (map (λ d. (close d).1) (all_clients h.clients))
        × IsShut after
        × (reg_client c after ≡ (err already_closed, after))
        × (broadcast_message m conf after ≡ some (err already_closed, after))
        × (close_hub after ≡ (err already_closed, after))
  unfolding close_hub reg_client broadcast_message
  close_hub-IsShut h cs c m conf e =
      let shut : IsShut (close_hub h).1 = ground arith in
      let still : IsShut (run (close_hub h).1 cs) = run-IsShut (close_hub h).1 cs shut in
      (
        ground arith,
        close-AllClosed (all_clients h.clients),
        still,
        rw (still.0, reg_client),
        rw (still.0, broadcast_message),
        rw (still.0, close_hub),
      )
