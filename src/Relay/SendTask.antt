-- ===== src/Relay/SendTask.antt =====
-- The send loops of src/relay.rs: `send_loop_best_effort`, `send_loop_reliable` and `retransmit`.
--
-- A loop is a machine: `send_loop` says at which `select!` it waits, and a step is what one event
-- makes it do up to the next wait. An event at which the loop does not poll does nothing.
use turntf_rs.Prelude.{
  ℕ, ◌+◌, Bool, false, List, [], ◌∷◌, Option, none, some, Result, ltb, if◌then◌else◌, ℕ_discrete,
}
use turntf_rs.Prelude.Dict.{lookup, insert, keys}
use turntf_rs.Types.{Bytes, Reliability, RelayKind, RelayError}
use turntf_rs.Relay.Connection.{
  Net, Connection, Closes, UnackedFrame, SendLoop, wrap64, wrap32, sub64, relay_error, send_frame,
  handle_close,
}

unfoldable pub resend_frame : Net → ℕ → Option UnackedFrame → Connection → Connection
resend_frame net seq none c = c
resend_frame net seq (some frame) c =
    let bumped : UnackedFrame = record frame { retransmit = wrap32 (frame.retransmit + 1) } in
    (send_frame net RelayKind.«data» seq 0 frame.«data»
      (record c { unacked = insert ℕ_discrete seq bumped c.unacked })).1

-- The loop of `retransmit` over the sequence numbers that it collected.
unfoldable pub resend : Net → List ℕ → Connection → Connection
unfolding resend_frame
resend net [] c = c
resend net (seq ∷ seqs) c =
    resend net seqs (resend_frame net seq (lookup ℕ_discrete seq c.unacked) c)

abbrev pub counted : Connection → Connection
counted c = record c { retrans_cnt = wrap32 (c.retrans_cnt + 1) }

abbrev pub max_retransmit : RelayError
max_retransmit = relay_error "max_retransmit" "max retransmits exceeded"

-- `retransmit`: counts a round, and gives up when there were too many in a row; otherwise sends
-- every frame that is not acknowledged once more.
unfoldable pub retransmit : Net → Connection → Closes
retransmit net c =
    if ltb c.config.max_retransmits (counted c).retrans_cnt
    then handle_close (some max_retransmit) (counted c)
    else (resend net (keys c.unacked) (counted c), false)

-- What can wake a send loop: the user's data, or `none` when every sender is gone; the
-- acknowledgement timer; the close notification.
pub data Wake : Type 0 where
  received : Option Bytes → Wake
  ticked : Wake
  close_notified : Wake

abbrev pub at : SendLoop → Connection → Connection
at loop c = record c { send_loop = loop }

-- The test for window space, in wrapping u64 arithmetic.
unfoldable pub window_open : Connection → Bool
window_open c = ltb (sub64 c.next_seq c.send_base) c.config.window_size

-- The inner loop's test: on to the outer `select!`, or wait for space.
unfoldable pub wait_window : Connection → Connection
wait_window c = if window_open c then at SendLoop.selecting c else at SendLoop.stalled c

-- The head of the outer loop of `send_loop_reliable`.
unfoldable pub loop_head : Connection → Connection
loop_head c = if c.closed then at SendLoop.returned c else wait_window c

unfoldable pub after_send : Result RelayError (Unit {0}) × Connection → Closes
after_send (Result.ok _, c) = (loop_head c, false)
after_send (Result.err e, c) =
    let (closed, removed) = handle_close (some e) c in (at SendLoop.returned closed, removed)

abbrev pub new_frame : Bytes → UnackedFrame
new_frame payload = record { «data» = payload; retransmit = 0 }

-- The next sequence number goes to the data, which is kept until it is acknowledged.
abbrev pub numbered : Bytes → Connection → Connection
numbered payload c = record c {
  next_seq = wrap64 (c.next_seq + 1);
  unacked = insert ℕ_discrete c.next_seq (new_frame payload) c.unacked;
}

-- Numbers the data and sends it.
unfoldable pub transmit : Net → Bytes → Connection → Closes
unfolding after_send
transmit net payload c =
    after_send (send_frame net RelayKind.«data» c.next_seq 0 payload (numbered payload c))

abbrev pub channel_closed : RelayError
channel_closed = relay_error "client_closed" "send channel closed"

-- The step of `send_loop_reliable`.
unfoldable pub reliable_step : Net → SendLoop → Wake → Connection → Closes
reliable_step net SendLoop.selecting (received none) c =
    let (closed, removed) = handle_close (some channel_closed) c in
    (at SendLoop.returned closed, removed)
reliable_step net SendLoop.selecting (received (some payload)) c =
    if c.closed then (at SendLoop.returned c, false) else transmit net payload c
reliable_step net SendLoop.selecting ticked c =
    let (c', removed) = retransmit net c in (loop_head c', removed)
reliable_step net SendLoop.selecting close_notified c = (at SendLoop.returned c, false)
reliable_step net SendLoop.stalled ticked c =
    let (c', removed) = retransmit net c in (wait_window c', removed)
reliable_step net SendLoop.stalled close_notified c =
    (if c.closed then at SendLoop.returned c else wait_window c, false)
reliable_step net _ _ c = (c, false)

-- The head of the loop of `send_loop_best_effort`.
unfoldable pub best_effort_head : Connection → Connection
best_effort_head c = if c.closed then at SendLoop.returned c else at SendLoop.selecting c

unfoldable pub after_best_effort : Result RelayError (Unit {0}) × Connection → Closes
unfolding best_effort_head
after_best_effort (Result.ok _, c) = (best_effort_head c, false)
after_best_effort (Result.err e, c) =
    let (closed, removed) = handle_close (some e) c in (at SendLoop.returned closed, removed)

-- The step of `send_loop_best_effort`.
unfoldable pub best_effort_step : Net → SendLoop → Wake → Connection → Closes
unfolding after_best_effort
best_effort_step net SendLoop.selecting (received none) c = (at SendLoop.returned c, false)
best_effort_step net SendLoop.selecting (received (some payload)) c =
    after_best_effort (send_frame net RelayKind.«data» 0 0 payload c)
best_effort_step net SendLoop.selecting close_notified c = (at SendLoop.returned c, false)
best_effort_step net _ _ c = (c, false)

unfoldable pub step_of : Net → Reliability → Wake → Connection → Closes
unfolding best_effort_step reliable_step
step_of net Reliability.best_effort wake c = best_effort_step net c.send_loop wake c
step_of net _ wake c = reliable_step net c.send_loop wake c

-- One step of the send loop that `spawn_send_loop` started.
unfoldable pub loop_step : Net → Wake → Connection → Closes
unfolding step_of
loop_step net wake c = step_of net c.config.reliability wake c

unfoldable pub spawn_of : Reliability → Connection → Connection
unfolding best_effort_head
spawn_of Reliability.best_effort c = best_effort_head c
spawn_of _ c = loop_head c

-- `spawn_send_loop`: the loop runs to its first wait.
unfoldable pub spawn_send_loop : Connection → Connection
unfolding spawn_of
spawn_send_loop c = spawn_of c.config.reliability c
