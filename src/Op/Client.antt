-- ===== src/Op/Client.antt =====
-- internal/op/client.go: one connection of a user. The channel `c` is the list of what was put on
-- it and not yet received, oldest first. It has 128 places, and `Send` waits while it is full.
use synctv.Base.{
  ℕ, String, Bool, true, Option, none, some, List, [], ◌∷◌, ◌++◌, if◌then◌else◌, ltb, length, drop,
}
use synctv.Base.Result.{Error, failure, Result, ok, err, M}

abbrev pub already_closed : Error
already_closed = failure "already closed"

abbrev pub client_capacity : ℕ
client_capacity = 128

pub record Client (Msg : Type 0) : Type 0 where
  pub user_id : String
  pub conn_id : String
  pub rtc_joined : Bool
  pub is_closed : Bool
  pub sent : List Msg

module _ {Msg : Type 0} where
  -- `none`: the channel is full, and the call waits for its reader.
  unfoldable pub send : Msg → Client Msg → Option (Result (Unit {0}) × Client Msg)
  send msg c =
      if c.is_closed
      then some (err already_closed, c)
      else if ltb (length c.sent) client_capacity
      then some (ok tt, record c { sent = c.sent ++ msg ∷ [] })
      else none

  -- A reader of the channel takes the oldest message.
  unfoldable pub receive : Client Msg → Client Msg
  receive c = record c { sent = drop 1 c.sent }

  unfoldable pub close : M (Client Msg) (Unit {0})
  close c = if c.is_closed then (err already_closed, c) else (ok tt, record c { is_closed = true })

  unfoldable pub set_rtc_joined : Bool → Client Msg → Client Msg
  set_rtc_joined joined c = record c { rtc_joined = joined }
