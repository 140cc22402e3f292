-- ===== src/Relay/Window/Steps.antt =====
-- The sender's window and the steps of the reliable send loop of src/relay.rs.
use turntf_rs.Prelude.{
  ℕ, ◌+◌, ◌^◌, ◌<◌, ◌≡◌, ◌≢◌, refl, sym, ap, inl, inr, List, [], ◌∷◌, false, Option, none, some,
  Result, arith, Bool-cases, ltb, ltb→lt, ℕ_discrete, if_cases,
}
use turntf_rs.Prelude.Dict.{lookup, keys}
use mathlib.Core.Path.{subst}
use turntf_rs.Types.{Bytes, RelayError, RelayState, RelayKind, Reliability}
use turntf_rs.Relay.Connection.{
  Net, Connection, Closes, UnackedFrame, SendLoop, sub64, send_frame, handle_close, close_from,
}
use turntf_rs.Relay.Frames.{send_frame_lem}
use turntf_rs.Relay.SendTask.{
  Wake, received, ticked, close_notified, resend_frame, resend, counted, max_retransmit, retransmit,
  new_frame, numbered, channel_closed, at, window_open, wait_window, loop_head, after_send,
  transmit, reliable_step, step_of, loop_step,
}
use turntf_rs.Relay.Window.{Outbound, outbound, IsWindowed, push-IsWindowed, replace-IsWindowed}

-- The window is right, and there is room for a frame where the loop waits for one.
pub record Flows (o : Outbound) (loop : SendLoop) : Type 0 where
  pub windowed : IsWindowed o
  pub ready : loop ≡ SendLoop.selecting → o.next < o.base + o.window

abbrev pub IsFlowing : Connection → Type 0
IsFlowing c = Flows (outbound c) c.send_loop

outbound-close_from :
    (state : RelayState) (reason : Option RelayError) (c : Connection)
    → outbound (close_from state reason c).0 ≡ outbound c
unfolding close_from
outbound-close_from RelayState.closed reason c = refl
outbound-close_from _ reason c = refl

pub outbound-handle_close :
    (reason : Option RelayError) (c : Connection) → outbound (handle_close reason c).0 ≡ outbound c
unfolding handle_close
outbound-handle_close reason c = outbound-close_from c.state reason c

pub outbound-send_frame :
    (net : Net) (kind : RelayKind) (seq ack_seq : ℕ) (payload : Bytes) (c : Connection)
    → outbound (send_frame net kind seq ack_seq payload c).1 ≡ outbound c
outbound-send_frame net kind seq ack_seq payload c =
    ap outbound (send_frame_lem net kind seq ack_seq payload c)

-- Where the loop goes on to wait for data, the test for room has passed.
wait_window-IsFlowing : (c : Connection) → IsWindowed (outbound c) → IsFlowing (wait_window c)
unfolding wait_window window_open
wait_window-IsFlowing c w =
    elim (Bool-cases (ltb (sub64 c.next_seq c.send_base) c.config.window_size)) [
      | inl room ↦
          rw room (record {
            windowed = w;
            ready = λ _. omega (arith, ltb→lt _ _ room, w.ordered, w.fits);
          })
      | inr full ↦ rw full (record { windowed = w; ready = λ e. cc })
    ]

pub loop_head-IsFlowing : (c : Connection) → IsWindowed (outbound c) → IsFlowing (loop_head c)
unfolding loop_head
loop_head-IsFlowing c w =
    if_cases IsFlowing c.closed (at SendLoop.returned c) (wait_window c)
      (λ _. record { windowed = w; ready = λ e. cc }) (λ _. wait_window-IsFlowing c w)

abbrev Keeps : Connection → Connection → Type 0
Keeps c d = IsWindowed (outbound c) → IsWindowed (outbound d)

returned-IsFlowing : (c : Connection) → IsWindowed (outbound c) → IsFlowing (at SendLoop.returned c)
returned-IsFlowing c w = record { windowed = w; ready = λ e. cc }

handle_close-Keeps :
    (reason : Option RelayError) (c : Connection) → Keeps c (handle_close reason c).0
handle_close-Keeps reason c = subst IsWindowed (sym (outbound-handle_close reason c))

send_frame-Keeps :
    (net : Net) (kind : RelayKind) (seq ack_seq : ℕ) (payload : Bytes) (c : Connection)
    → Keeps c (send_frame net kind seq ack_seq payload c).1
send_frame-Keeps net kind seq ack_seq payload c =
    subst IsWindowed (sym (outbound-send_frame net kind seq ack_seq payload c))

resend_frame-Keeps :
    (net : Net) (seq : ℕ) (f : Option UnackedFrame) (c : Connection)
    → lookup ℕ_discrete seq c.unacked ≡ f
    → Keeps c (resend_frame net seq f c)
unfolding resend_frame
resend_frame-Keeps net seq none c e w = w
resend_frame-Keeps net seq (some f) c e w =
    send_frame-Keeps net RelayKind.«data» seq 0 f.«data» _
      (replace-IsWindowed (outbound c) seq f _ e w)

resend-Keeps : (net : Net) (seqs : List ℕ) (c : Connection) → Keeps c (resend net seqs c)
unfolding resend
resend-Keeps net [] c w = w
resend-Keeps net (seq ∷ seqs) c w =
    resend-Keeps net seqs _ (resend_frame-Keeps net seq (lookup ℕ_discrete seq c.unacked) c refl w)

retransmit-Keeps : (net : Net) (c : Connection) → Keeps c (retransmit net c).0
unfolding retransmit
retransmit-Keeps net c w =
    if_cases (λ (p : Closes). IsWindowed (outbound p.0))
      (ltb c.config.max_retransmits (counted c).retrans_cnt) _ _
      (λ _. handle_close-Keeps (some max_retransmit) (counted c) w)
      (λ _. resend-Keeps net (keys c.unacked) (counted c) w)

after_send-IsFlowing :
    (r : Result RelayError (Unit {0}) × Connection)
    → IsWindowed (outbound r.1)
    → IsFlowing (after_send r).0
unfolding after_send
after_send-IsFlowing (Result.ok _, c) w = loop_head-IsFlowing c w
after_send-IsFlowing (Result.err e, c) w =
    returned-IsFlowing (handle_close (some e) c).0 (handle_close-Keeps (some e) c w)

transmit-IsFlowing :
    (net : Net) (payload : Bytes) (c : Connection)
    → IsWindowed (outbound c)
    → c.next_seq < c.send_base + c.config.window_size
    → c.next_seq + 1 < 2 ^ 64
    → IsFlowing (transmit net payload c).0
unfolding transmit
transmit-IsFlowing net payload c w room fits =
    after_send-IsFlowing (send_frame net RelayKind.«data» c.next_seq 0 payload (numbered payload c))
      (send_frame-Keeps net RelayKind.«data» c.next_seq 0 payload (numbered payload c)
        (push-IsWindowed (outbound c) (new_frame payload) room fits w))

reliable_step-IsFlowing :
    (net : Net) (wake : Wake) (loop : SendLoop) (c : Connection)
    → loop ≡ c.send_loop
    → c.next_seq + 1 < 2 ^ 64
    → IsFlowing c
    → IsFlowing (reliable_step net loop wake c).0
unfolding reliable_step
reliable_step-IsFlowing net (received none) SendLoop.selecting c at_loop fits f =
    returned-IsFlowing (handle_close (some channel_closed) c).0
      (handle_close-Keeps (some channel_closed) c f.windowed)
reliable_step-IsFlowing net (received (some payload)) SendLoop.selecting c at_loop fits f =
    if_cases (λ (p : Closes). IsFlowing p.0) c.closed (at SendLoop.returned c, false)
      (transmit net payload c) (λ _. returned-IsFlowing c f.windowed)
      (λ _. transmit-IsFlowing net payload c f.windowed (f.ready (sym at_loop)) fits)
reliable_step-IsFlowing net ticked SendLoop.selecting c at_loop fits f =
    loop_head-IsFlowing (retransmit net c).0 (retransmit-Keeps net c f.windowed)
reliable_step-IsFlowing net close_notified SendLoop.selecting c at_loop fits f =
    returned-IsFlowing c f.windowed
reliable_step-IsFlowing net ticked SendLoop.stalled c at_loop fits f =
    wait_window-IsFlowing (retransmit net c).0 (retransmit-Keeps net c f.windowed)
reliable_step-IsFlowing net close_notified SendLoop.stalled c at_loop fits f =
    if_cases IsFlowing c.closed (at SendLoop.returned c) (wait_window c)
      (λ _. returned-IsFlowing c f.windowed) (λ _. wait_window-IsFlowing c f.windowed)
reliable_step-IsFlowing net (received p) SendLoop.stalled c at_loop fits f = f
reliable_step-IsFlowing net wake SendLoop.returned c at_loop fits f = f
reliable_step-IsFlowing net wake SendLoop.not_spawned c at_loop fits f = f

pub loop_step-IsFlowing :
    (net : Net) (wake : Wake) (c : Connection)
    → c.config.reliability ≢ Reliability.best_effort
    → c.next_seq + 1 < 2 ^ 64
    → IsFlowing c
    → IsFlowing (loop_step net wake c).0
unfolding loop_step
loop_step-IsFlowing net wake c mode fits f = go c.config.reliability mode
  where
    go : (m : Reliability) → m ≢ Reliability.best_effort → IsFlowing (step_of net m wake c).0
    go Reliability.best_effort h = absurd (h refl)
    go Reliability.at_least_once h =
        unfold step_of in reliable_step-IsFlowing net wake c.send_loop c refl fits f
    go Reliability.reliable_ordered h =
        unfold step_of in reliable_step-IsFlowing net wake c.send_loop c refl fits f
