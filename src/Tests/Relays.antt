-- ===== src/Tests/Relays.antt =====
-- The theorems on src/relay.rs at concrete connections.
use turntf_rs.Prelude.{
  ◌↔◌, leb, ◌&&◌, if◌then◌else◌, ℕ, suc, ◌+◌, ◌^◌, ◌≤◌, ◌<◌, ◌≡◌, ◌≢◌, refl, inl, inr, [], ◌∷◌,
  ◌++◌, map, true, false, none, some, ok, ◌>>=◌, arith, All, ℕ_discrete,
}
use turntf_rs.Prelude.Dict.{Dict, lookup, insert}
use turntf_rs.Types.{Bytes, RelayError, RelayKind, RelayState, RelayEnvelope, Reliability}
use turntf_rs.Relay.Wire.{
  encode_relay_envelope, decode_relay_envelope, decode-encode_relay_envelope,
}
use turntf_rs.Relay.Connection.{Connection, new_connection, SendLoop, relay_error, send_frame}
use turntf_rs.Relay.Handlers.{handle_data, handle_ack, acknowledge, accept_ordered}
use turntf_rs.Relay.SendTask.{received, loop_head, window_open, wait_window}
use turntf_rs.Relay.Ordering.{before, IsFrame}
use turntf_rs.Relay.Ordering.Connections.{
  handle_frames, arrival, IsFresh, ordered_delivery, buffered_in_window, window_delivered,
}
use turntf_rs.Relay.Ordering.Progress.{HasArrival}
use turntf_rs.Relay.Window.Steps.{IsFlowing}
use turntf_rs.Relay.Window.Runs.{wake, connection_step, Run, start, step, IsIdle, in_flight_bounded}
use turntf_rs.Relay.Queue.{SendEnd, Admits, send, send-Admits}
use turntf_rs.Relay.Loss.{handle_ack_cumulative, gap_forgotten, ack_ahead_stalls}
use turntf_rs.Relay.Stall.{ticks, IsStuck, closed_loop_waits}
use turntf_rs.Relay.Closing.{closes, callbacks_once}
use turntf_rs.Tests.Formats.{plain_codec}
use turntf_rs.Tests.Fixtures.{
  world, opened, from_far, counting, data_frame, shuffled, in_flight, worn_out,
}

decode-encode_relay_envelope_example :
    (encode_relay_envelope plain_codec (data_frame 7) >>= decode_relay_envelope plain_codec)
    ≡ ok (data_frame 7)
decode-encode_relay_envelope_example = decode-encode_relay_envelope plain_codec (data_frame 7)

pub opened-IsFresh : IsFresh opened
unfolding new_connection
opened-IsFresh = record { mode = refl; first = refl; empty = refl; silent = refl }

genuine : (k : ℕ) → 1 ≤ k → k + 1 < 2 ^ 64 → IsFrame counting (arrival (data_frame k))
genuine k low high = (low, high, refl)

shuffled-genuine : All (IsFrame counting) (map arrival shuffled)
shuffled-genuine = (
  genuine 2 (omega arith) (omega arith),
  (
    genuine 1 (omega arith) (omega arith),
    (genuine 2 (omega arith) (omega arith), (genuine 3 (omega arith) (omega arith), tt)),
  ),
)

ordered_delivery_example :
    (handle_frames world shuffled opened).delivered
    ≡ before counting (handle_frames world shuffled opened).expected_seq
ordered_delivery_example =
    ordered_delivery counting world shuffled opened opened-IsFresh shuffled-genuine

-- Frame 3 alone waits.
waiting :
    lookup ℕ_discrete 3 (handle_frames world (data_frame 3 ∷ []) opened).recv_buf
    ≡ some (counting 3)
unfolding handle_frames new_connection acknowledge lookup insert send_frame accept_ordered
    ℕ_discrete encode_relay_envelope
waiting = refl

buffered_in_window_example :
    (counting 3 ≡ counting 3)
    × ((handle_frames world (data_frame 3 ∷ []) opened).expected_seq < 3)
    × (3
        < (handle_frames world (data_frame 3 ∷ []) opened).expected_seq + opened.config.window_size)
buffered_in_window_example =
    buffered_in_window counting world (data_frame 3 ∷ []) opened 3 (counting 3) opened-IsFresh
      (genuine 3 (omega arith) (omega arith), tt) waiting

all_three : (k : ℕ) → 1 ≤ k → k ≤ 3 → HasArrival k (map arrival shuffled)
all_three k low high = elim (ℕ_discrete 1 k) [
  | yes e ↦ inr (inl e)
  | no other ↦ elim (ℕ_discrete 2 k) [
    | yes e ↦ inl e
    | no another ↦ inr (inr (inr (inl (omega arith))))
  ]
]

window_delivered_example :
    let c' = handle_frames world shuffled opened in
    (c'.delivered ≡ before counting c'.expected_seq) × (3 < c'.expected_seq)
window_delivered_example =
    window_delivered counting world shuffled opened 3 opened-IsFresh shuffled-genuine
      (unfold new_connection in omega arith) all_three

pub opened-IsIdle : IsIdle opened
unfolding new_connection
opened-IsIdle = record { base = refl; next = refl; none_kept = refl }

pub one_sent :
    Run world
      (loop_head opened)
      (connection_step world (wake (received (some (7 ∷ [])))) (loop_head opened))
unfolding new_connection loop_head wait_window window_open
one_sent = step start (wake (received (some (7 ∷ [])))) (λ e. cc e) tt (omega arith)

in_flight_bounded_example :
    IsFlowing (connection_step world (wake (received (some (7 ∷ [])))) (loop_head opened))
in_flight_bounded_example = in_flight_bounded world opened _ opened-IsIdle one_sent

modes_differ : Reliability.reliable_ordered ≢ Reliability.best_effort
modes_differ e = cc e

acks : ℕ → RelayEnvelope
acks n = from_far RelayKind.ack 0 n []

handle_ack_cumulative_example :
    let s' = handle_ack (acks 1) in_flight in
    (s'.send_base ≡ 1 + 1)
    × (s'.retrans_cnt ≡ 0)
    × (lookup ℕ_discrete 2 s'.unacked
        ≡ (if leb 1 2 && leb 2 1 then none else lookup ℕ_discrete 2 in_flight.unacked))
unfolding acks new_connection
handle_ack_cumulative_example =
    handle_ack_cumulative (acks 1) in_flight 2 modes_differ (omega arith) (omega arith)

gap_forgotten_example :
    ((handle_data world (data_frame 2) opened).delivered ≡ opened.delivered)
    × ((handle_data world (data_frame 2) opened).expected_seq ≡ opened.expected_seq)
    × ((b : Dict ℕ Bytes) × (handle_data world (data_frame 2) opened
          ≡ acknowledge world 2 (record opened { recv_buf = b })))
    × (lookup ℕ_discrete opened.expected_seq (handle_ack (acks 2) in_flight).unacked ≡ none)
unfolding acks new_connection
gap_forgotten_example =
    gap_forgotten world (data_frame 2) (acks 2) opened in_flight refl modes_differ (omega arith)
      (omega arith) refl

ack_ahead_stalls_example : window_open (handle_ack (acks 3) in_flight) ≡ false
unfolding acks new_connection
ack_ahead_stalls_example =
    ack_ahead_stalls (acks 3) in_flight modes_differ (omega arith) (omega arith) (omega arith)
      (omega arith)

worn_out-IsStuck : IsStuck worn_out
unfolding new_connection window_open
worn_out-IsStuck = record { mode = modes_differ; stalled = refl; full = refl }

closed_loop_waits_example :
    ((ticks world (suc 9) worn_out).closed ≡ true)
    × ((ticks world (suc 9) worn_out).send_loop ≡ SendLoop.stalled)
unfolding new_connection
closed_loop_waits_example =
    closed_loop_waits world 9 worn_out worn_out-IsStuck (λ e. cc e) (omega arith) (omega arith)

abbrev broken : RelayError
broken = relay_error "protocol_error" "broken"

watched : Connection
watched = record opened { on_close = 4 ∷ 9 ∷ [] }

callbacks_once_example :
    let (d, asked) = closes (some broken ∷ none ∷ some broken ∷ []) watched in
    (d.notified ≡ watched.notified ++ map (λ callback. (callback, some broken)) watched.on_close)
    × (d.on_close ≡ [])
    × (d.state ≡ RelayState.closed)
    × (d.closed ≡ true)
    × (asked ≡ true ∷ false ∷ false ∷ [])
unfolding watched new_connection
callbacks_once_example = callbacks_once (some broken) (none ∷ some broken ∷ []) watched (λ e. cc e)

send-Admits_example :
    (send (7 ∷ []) SendEnd.taken opened ≡ some (ok tt, true)) ↔ Admits (7 ∷ []) SendEnd.taken opened
send-Admits_example = send-Admits (7 ∷ []) SendEnd.taken opened
