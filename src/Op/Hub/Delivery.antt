-- ===== src/Op/Hub/Delivery.antt =====
-- Whom a message reaches.
use synctv.Base.{
  ◌∙◌, Option, none, Bool, length, ltb, ◌<◌, ◌≤◌, if◌then◌else◌, String, true, false, not, ◌&&◌,
  ◌||◌, some, List, [], ◌∷◌, ◌++◌, ◌≡◌, refl, arith, Option-cases, Bool-cases, ◌⊎◌, inl, inr, ◌↔◌,
}
use synctv.Base.Dict.{lookup, each, each-none, each-some, SomeOf}
use synctv.Op.Client.{Client}
use synctv.Utils.Page.{in_list}
use synctv.Op.Hub.{
  Hub, Clients, BroadcastMessage, serve, deliver, map_clients, get_client_by_conn_id, waits,
  continues, serve_next,
}
use mathlib.Core.Option
use mathlib.Core.List.{Memᴰ}
use synctv.Utils.Page.Laws.{in_list_iff}

module _ {Msg : Type 0} where
  pub lookup-map_clients :
      (f : Client Msg → Client Msg) (k : String) (m : Clients Msg)
      → lookup k (map_clients f m) ≡ Option.map f (lookup k m)
  unfolding lookup
  lookup-map_clients f k [] = refl
  lookup-map_clients f k ((j, c) ∷ m) = ground (arith, lookup-map_clients f k m)

  -- A change of every connection, if none of them fails, is a change of the one that is asked for.
  get_client-each :
      (f : Client Msg → Option (Client Msg)) (h h' : Hub Msg) (u k : String) (c : Client Msg)
      → each (each f) h.clients ≡ some h'.clients
      → get_client_by_conn_id h u k ≡ some c
      → (c' : Client Msg) × (f c ≡ some c') × (get_client_by_conn_id h' u k ≡ some c')
  unfolding get_client_by_conn_id
  get_client-each f h h' u k c e found = elim (Option-cases (lookup u h.clients)) [
    | inl missing ↦ ground arith
    | inr (m, held) ↦
        let (m', all, kept) = each-some (each f) u h.clients h'.clients m e held in
        let (c', one, there) = each-some f k m m' c all (ground arith) in (c', one, ground arith)
  ]

  -- The connections that a message passes by.
  abbrev pub Skips : BroadcastMessage Msg → Client Msg → Type 0
  Skips message c =
      Memᴰ c.user_id message.ignore_user_id
      ⊎ Memᴰ c.conn_id message.ignore_conn_id
      ⊎ ((message.rtc_joined ≡ true) × (c.rtc_joined ≡ false))

  skipped_iff :
      (message : BroadcastMessage Msg) (c : Client Msg)
      → ((in_list message.ignore_user_id c.user_id ≡ true)
          ⊎ (in_list message.ignore_conn_id c.conn_id ≡ true)
          ⊎ ((message.rtc_joined ≡ true) × (c.rtc_joined ≡ false)))
        ↔ Skips message c
  skipped_iff message c = (
    λ h. elim h [
      | inl u ↦ inl ((in_list_iff c.user_id message.ignore_user_id).0 u)
      | inr (inl k) ↦ inr (inl ((in_list_iff c.conn_id message.ignore_conn_id).0 k))
      | inr (inr r) ↦ inr (inr r)
    ],
    λ h. elim h [
      | inl u ↦ inl ((in_list_iff c.user_id message.ignore_user_id).1 u)
      | inr (inl k) ↦ inr (inl ((in_list_iff c.conn_id message.ignore_conn_id).1 k))
      | inr (inr r) ↦ inr (inr r)
    ],
  )

  -- What a connection is after a message: as it was, if it is passed by or closed, or else with
  -- the message at the end of its channel, which had a place.
  abbrev pub Delivered : BroadcastMessage Msg → Client Msg → Client Msg → Type 0
  Delivered message c c' =
      ((Skips message c ⊎ (c.is_closed ≡ true)) × (c' ≡ c))
      ⊎ ((¬ Skips message c)
          × (c.is_closed ≡ false)
          × (length c.sent < 128)
          × (c' ≡ record c { sent = c.sent ++ message.payload ∷ [] }))

  -- A connection that a message is for and that has no place for it.
  abbrev pub IsFull : BroadcastMessage Msg → Client Msg → Type 0
  IsFull message c = (¬ Skips message c) × (c.is_closed ≡ false) × (128 ≤ length c.sent)

  -- The tests of `serve` decide it.
  Skips-cases :
      (message : BroadcastMessage Msg) (c : Client Msg) → Skips message c ⊎ (¬ Skips message c)
  Skips-cases message c =
      elim (Bool-cases (
        in_list message.ignore_user_id c.user_id
        || in_list message.ignore_conn_id c.conn_id
        || (message.rtc_joined && not c.rtc_joined))) [
          | inl e ↦ inl ((skipped_iff message c).0 (ground arith))
          | inr e ↦ inr (λ s. no_skip e ((skipped_iff message c).1 s))
        ]
    where
      no_skip :
          (in_list message.ignore_user_id c.user_id
              || in_list message.ignore_conn_id c.conn_id
              || (message.rtc_joined && not c.rtc_joined))
            ≡ false
          → ¬ (
              (in_list message.ignore_user_id c.user_id ≡ true)
              ⊎ (in_list message.ignore_conn_id c.conn_id ≡ true)
              ⊎ ((message.rtc_joined ≡ true) × (c.rtc_joined ≡ false)))
      no_skip e h = ground arith

  deliver_skipped :
      (message : BroadcastMessage Msg) (c : Client Msg)
      → ((in_list message.ignore_user_id c.user_id ≡ true)
          ⊎ (in_list message.ignore_conn_id c.conn_id ≡ true)
          ⊎ ((message.rtc_joined ≡ true) × (c.rtc_joined ≡ false)))
      → deliver message c ≡ some c
  unfolding deliver
  deliver_skipped message c (inl h) = ground arith
  deliver_skipped message c (inr (inl h)) = ground arith
  deliver_skipped message c (inr (inr h)) = ground arith

  deliver_closed :
      (message : BroadcastMessage Msg) (c : Client Msg)
      → c.is_closed ≡ true
      → deliver message c ≡ some c
  unfolding deliver
  deliver_closed message c h = ground arith

  -- What is put on the channel of an open connection that a message is for.
  abbrev put : BroadcastMessage Msg → Client Msg → Option (Client Msg)
  put message c =
      if ltb (length c.sent) 128
      then some (record c { sent = c.sent ++ message.payload ∷ [] })
      else none

  deliver_open :
      (message : BroadcastMessage Msg) (c : Client Msg)
      → ¬ (
          (in_list message.ignore_user_id c.user_id ≡ true)
          ⊎ (in_list message.ignore_conn_id c.conn_id ≡ true)
          ⊎ ((message.rtc_joined ≡ true) × (c.rtc_joined ≡ false)))
      → c.is_closed ≡ false
      → deliver message c ≡ put message c
  unfolding deliver
  deliver_open message c h o = ground arith

  -- The three ends of a delivery.
  deliver-cases :
      (message : BroadcastMessage Msg) (c : Client Msg)
      → ((deliver message c ≡ none) × IsFull message c)
        ⊎ ((c' : Client Msg) × (deliver message c ≡ some c') × Delivered message c c')
  deliver-cases message c = elim (Skips-cases message c) [
    | inl s ↦ inr (c, deliver_skipped message c ((skipped_iff message c).1 s), inl (inl s, refl))
    | inr meant ↦ elim (Bool-cases c.is_closed) [
      | inl shut ↦ inr (c, deliver_closed message c shut, inl (inr shut, refl))
      | inr still ↦
          let open_is = deliver_open message c (λ h. meant ((skipped_iff message c).0 h)) still in
          elim (Bool-cases (ltb (length c.sent) 128)) [
            | inl room ↦ inr (
              record c { sent = c.sent ++ message.payload ∷ [] },
              rw (open_is, room) refl,
              inr (meant, still, ground arith, refl),
            )
            | inr full ↦ inl (rw (open_is, full) refl, (meant, still, ground arith))
          ]
    ]
  ]

  deliver-none :
      (message : BroadcastMessage Msg) (c : Client Msg)
      → deliver message c ≡ none
      → IsFull message c
  deliver-none message c e = elim (deliver-cases message c) [
    | inl (_, full) ↦ full
    | inr (c', there, _) ↦ absurd (cc (e, there))
  ]

  deliver-some :
      (message : BroadcastMessage Msg) (c c' : Client Msg)
      → deliver message c ≡ some c'
      → Delivered message c c'
  deliver-some message c c' e = elim (deliver-cases message c) [
    | inl (missing, _) ↦ absurd (cc (e, missing))
    | inr (d, there, delivered) ↦ let same : d ≡ c' = cc (e, there) in rw (← same) delivered
  ]

  serve_receives :
      (exits : Bool) (h : Hub Msg) (message : BroadcastMessage Msg)
      (rest : List (BroadcastMessage Msg))
      → h.serving ≡ true
      → h.is_closed ≡ false
      → h.broadcast ≡ message ∷ rest
      → serve exits h ≡ serve_next (message ∷ rest) h
  unfolding serve
  serve_receives exits h message rest s o e = ground arith

  serve_next-waits :
      (h : Hub Msg) (message : BroadcastMessage Msg) (rest : List (BroadcastMessage Msg))
      → each (each (deliver message)) h.clients ≡ none
      → serve_next (message ∷ rest) h ≡ waits
  unfolding serve_next
  serve_next-waits h message rest all = ground arith

  serve_next-continues :
      (h : Hub Msg) (message : BroadcastMessage Msg) (rest : List (BroadcastMessage Msg))
      (clients : List (String × Clients Msg))
      → each (each (deliver message)) h.clients ≡ some clients
      → serve_next (message ∷ rest) h ≡ continues (record h { broadcast = rest; clients = clients })
  unfolding serve_next
  serve_next-continues h message rest clients all = ground arith

  -- A round of a running open hub with a message on its channel either waits, and then some open
  -- connection that the message is for has all 128 places of its channel taken, or takes that
  -- oldest message off and changes each connection as follows: one that is ignored by its user or
  -- its id, one outside the call when only its members are meant, and a closed one stay as they
  -- are; any other had a free place and has the message put at the end of its channel.
  pub serve-Delivered :
      (exits : Bool) (h : Hub Msg) (message : BroadcastMessage Msg)
      (rest : List (BroadcastMessage Msg)) (u k : String) (c : Client Msg)
      → h.serving ≡ true
      → h.is_closed ≡ false
      → h.broadcast ≡ message ∷ rest
      → get_client_by_conn_id h u k ≡ some c
      → ((serve exits h ≡ waits) × SomeOf (SomeOf (IsFull message)) h.clients)
        ⊎ ((h' : Hub Msg) × (serve exits h ≡ continues h')
            × (h'.broadcast ≡ rest)
            × ((c' : Client Msg) × (get_client_by_conn_id h' u k ≡ some c')
                × Delivered message c c'))
  serve-Delivered exits h message rest u k c s o e found =
      let received = serve_receives exits h message rest s o e in
      elim (Option-cases (each (each (deliver message)) h.clients)) [
        | inl full ↦ inl (
          received ∙ serve_next-waits h message rest full,
          each-none (each (deliver message)) (SomeOf (IsFull message)) h.clients
              (λ m missing.
                each-none (deliver message) (IsFull message) m (deliver-none message) missing)
              full,
        )
        | inr (clients, all) ↦
            let h' = record h { broadcast = rest; clients = clients } in
            let (c', there, held) = get_client-each (deliver message) h h' u k c all found in
            inr (
              h',
              received ∙ serve_next-continues h message rest clients all,
              refl,
              (c', held, deliver-some message c c' there),
            )
      ]
