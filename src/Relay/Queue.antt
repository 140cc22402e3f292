-- ===== src/Relay/Queue.antt =====
-- `RelayConnection::send` and `receive_timeout` of src/relay.rs: the user's side of the channels.
use turntf_rs.Prelude.{
  ℕ, ◌≡◌, ◌≢◌, ◌↔◌, refl, Bool, true, false, [], ◌∷◌, Option, none, some, Result, ok, err,
  if◌then◌else◌, ltb, if_cases,
}
use turntf_rs.Types.{Bytes, RelayState, RelayError}
use turntf_rs.Relay.Connection.{Connection, relay_error}

-- How the `select!` of `send` ends: the channel takes the data, its receiver is gone, the time is
-- up, or the close notification comes.
pub data SendEnd : Type 0 where
  taken receiver_gone out_of_time close_notified : SendEnd

abbrev pub connection_closed : RelayError
connection_closed = relay_error "client_closed" "connection closed"

-- The result, and whether the data went into the channel. Without a timeout the time is never up.
end_send : Bool → SendEnd → Option (Result RelayError (Unit {0}) × Bool)
end_send timed taken = some (ok tt, true)
end_send timed receiver_gone = some (err connection_closed, false)
end_send true out_of_time =
    some (err (relay_error "send_timeout" "send timeout waiting for buffer space"), false)
end_send false out_of_time = none
end_send timed close_notified = some (err connection_closed, false)

send_open : SendEnd → Connection → Option (Result RelayError (Unit {0}) × Bool)
unfolding end_send
send_open how c =
    if c.closed
    then some (err connection_closed, false)
    else end_send (ltb 0 c.config.send_timeout_ms) how

send_in : RelayState → SendEnd → Connection → Option (Result RelayError (Unit {0}) × Bool)
unfolding send_open
send_in RelayState.«open» how c = send_open how c
send_in _ how c = some (err (relay_error "not_connected" "connection not open"), false)

-- `send`; `none` where it waits on.
unfoldable pub send : Bytes → SendEnd → Connection → Option (Result RelayError (Unit {0}) × Bool)
unfolding send_in
send [] how c = some (ok tt, false)
send (b ∷ bs) how c = send_in c.state how c

-- How the `select!` of `receive_timeout` ends.
pub data ReceiveEnd : Type 0 where
  item : Bytes → ReceiveEnd
  lagged_or_gone : ReceiveEnd
  late : ReceiveEnd
  close_seen : ReceiveEnd

end_receive : Bool → ReceiveEnd → Option (Result RelayError Bytes)
end_receive timed (item payload) = some (ok payload)
end_receive timed lagged_or_gone = some (err connection_closed)
end_receive true late = some (err (relay_error "receive_timeout" "receive timeout"))
end_receive false late = none
end_receive timed close_seen = some (err connection_closed)

chosen : Option ℕ → ℕ → ℕ
chosen none configured = configured
chosen (some t) configured = t

-- `receive_timeout`; `none` where it waits on.
unfoldable pub receive_timeout :
    Option ℕ → ReceiveEnd → Connection → Option (Result RelayError Bytes)
unfolding end_receive chosen
receive_timeout timeout how c = end_receive (ltb 0 (chosen timeout c.config.receive_timeout_ms)) how

-- What lets data of the user into the channel of the send loop.
pub record Admits (payload : Bytes) (how : SendEnd) (c : Connection) : Type 0 where
  pub nonempty : payload ≢ []
  pub is_open : c.state ≡ RelayState.«open»
  pub running : c.closed ≡ false
  pub room : how ≡ SendEnd.taken

end_send-room :
    (timed : Bool) (how : SendEnd) (r : Result RelayError (Unit {0}))
    → end_send timed how ≡ some (r, true)
    → (how ≡ SendEnd.taken) × (r ≡ ok tt)
unfolding end_send
end_send-room timed SendEnd.taken r h = (refl, cc h)
end_send-room timed SendEnd.receiver_gone r h = absurd (cc h)
end_send-room true SendEnd.out_of_time r h = absurd (cc h)
end_send-room false SendEnd.out_of_time r h = absurd (cc h)
end_send-room timed SendEnd.close_notified r h = absurd (cc h)

send_in-Admits :
    (s : RelayState) (payload : Bytes) (how : SendEnd) (c : Connection)
    (r : Result RelayError (Unit {0}))
    → payload ≢ []
    → c.state ≡ s
    → send_in s how c ≡ some (r, true)
    → Admits payload how c × (r ≡ ok tt)
unfolding send_in send_open
send_in-Admits RelayState.«open» payload how c r full state h =
    if_cases (λ o. o ≡ some (r, true) → Admits payload how c × (r ≡ ok tt)) c.closed
      (some (err connection_closed, false)) (end_send (ltb 0 c.config.send_timeout_ms) how)
      (λ _ h. absurd (cc h))
      (λ running h.
        let (room, done) = end_send-room (ltb 0 c.config.send_timeout_ms) how r h in
        (record { nonempty = full; is_open = state; running = running; room = room }, done))
      h
send_in-Admits RelayState.closed payload how c r full state h = absurd (cc h)
send_in-Admits RelayState.opening payload how c r full state h = absurd (cc h)
send_in-Admits RelayState.closing payload how c r full state h = absurd (cc h)

-- `send` puts the user's data into the channel and succeeds exactly if the data is not empty, the
-- connection is open and not marked closed, and the channel takes the data.
pub send-Admits :
    (payload : Bytes) (how : SendEnd) (c : Connection)
    → (send payload how c ≡ some (ok tt, true)) ↔ Admits payload how c
unfolding send
send-Admits [] how c = (λ h. absurd (cc h), λ a. absurd (a.nonempty refl))
send-Admits (b ∷ bs) how c = (
  λ h. (send_in-Admits c.state (b ∷ bs) how c (ok tt) (λ e. cc e) refl h).0,
  λ a. rw (a.is_open, a.running, a.room, send_in, send_open, end_send) refl,
)
