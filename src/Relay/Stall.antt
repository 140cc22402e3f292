-- ===== src/Relay/Stall.antt =====
-- The wait for window space in `send_loop_reliable` of src/relay.rs, once the connection is closed.
use turntf_rs.Prelude.{
  ℕ, zero, suc, ◌+◌, ◌^◌, ◌≤◌, ◌<◌, ◌≡◌, ◌≢◌, refl, sym, ap, ◌∙◌, List, [], ◌∷◌, true, false,
  Option, none, some, arith, ltb, ℕ_discrete, if_cases,
}
use turntf_rs.Prelude.Dict.{lookup, keys}
use mathlib.Core.Path.{subst}
use turntf_rs.Types.{RelayConfig, RelayState, Reliability}
use turntf_rs.Relay.Connection.{Net, Connection, Closes, SendLoop, sub64, handle_close}
use turntf_rs.Relay.Closing.{handle_close_alive}
use turntf_rs.Relay.SendTask.{
  ticked, resend, counted, max_retransmit, retransmit, at, window_open, wait_window, reliable_step,
  step_of, loop_step,
}
use turntf_rs.Relay.Connection.{run_callbacks, close_from, UnackedFrame}
use turntf_rs.Relay.Frames.{send_frame_lem}
use turntf_rs.Relay.SendTask.{resend_frame}
use turntf_rs.Types.{RelayError, RelayKind}

-- `n` ticks of the acknowledgement timer, with nothing else happening.
unfoldable pub ticks : Net → ℕ → Connection → Connection
unfolding loop_step
ticks net zero c = c
ticks net (suc n) c = ticks net n (loop_step net ticked c).0

-- The loop waits for window space that it does not have.
pub record IsStuck (c : Connection) : Type 0 where
  pub mode : c.config.reliability ≢ Reliability.best_effort
  pub stalled : c.send_loop ≡ SendLoop.stalled
  pub full : window_open c ≡ false

-- What the test for window space and the choice of the loop depend on, and whether the connection
-- has been marked closed.
pub record Flow : Type 0 where
  config : RelayConfig
  base : ℕ
  next : ℕ

abbrev pub flow : Connection → Flow
flow c = record { config = c.config; base = c.send_base; next = c.next_seq }

abbrev pub StaysClosed : Connection → Connection → Type 0
StaysClosed c d = (flow d ≡ flow c) × (c.closed ≡ true → d.closed ≡ true)

close_from-StaysClosed :
    (state : RelayState) (reason : Option RelayError) (c : Connection)
    → StaysClosed c (close_from state reason c).0
unfolding close_from
close_from-StaysClosed RelayState.closed reason c = (refl, λ e. e)
close_from-StaysClosed _ reason c = (refl, λ e. refl)

resend_frame-StaysClosed :
    (net : Net) (seq : ℕ) (f : Option UnackedFrame) (c : Connection)
    → StaysClosed c (resend_frame net seq f c)
unfolding resend_frame
resend_frame-StaysClosed net seq none c = (refl, λ e. e)
resend_frame-StaysClosed net seq (some f) c =
    let sent = send_frame_lem net RelayKind.«data» seq 0 f.«data» _ in
    (ap flow sent, λ e. ap (λ (d : Connection). d.closed) sent ∙ e)

resend-StaysClosed :
    (net : Net) (seqs : List ℕ) (c : Connection) → StaysClosed c (resend net seqs c)
unfolding resend
resend-StaysClosed net [] c = (refl, λ e. e)
resend-StaysClosed net (seq ∷ seqs) c =
    let one = resend_frame-StaysClosed net seq (lookup ℕ_discrete seq c.unacked) c in
    let rest =
      resend-StaysClosed net seqs (resend_frame net seq (lookup ℕ_discrete seq c.unacked) c) in
    (rest.0 ∙ one.0, λ e. rest.1 (one.1 e))

pub retransmit-StaysClosed : (net : Net) (c : Connection) → StaysClosed c (retransmit net c).0
unfolding retransmit handle_close
retransmit-StaysClosed net c =
    if_cases (λ (p : Closes). StaysClosed c p.0)
      (ltb c.config.max_retransmits (counted c).retrans_cnt)
      (handle_close (some max_retransmit) (counted c))
      (resend net (keys c.unacked) (counted c), false)
      (λ _. close_from-StaysClosed c.state (some max_retransmit) (counted c))
      (λ _. resend-StaysClosed net (keys c.unacked) (counted c))

window_open-flow : (c d : Connection) → flow d ≡ flow c → window_open d ≡ window_open c
unfolding window_open
window_open-flow c d e = ap (λ (f : Flow). ltb (sub64 f.next f.base) f.config.window_size) e

wait_window_full : (c : Connection) → window_open c ≡ false → wait_window c ≡ at SendLoop.stalled c
unfolding wait_window
wait_window_full c full = simp full

tick_of :
    (net : Net) (m : Reliability) (loop : SendLoop) (c : Connection)
    → m ≢ Reliability.best_effort
    → loop ≡ SendLoop.stalled
    → c.send_loop ≡ loop
    → step_of net m ticked c ≡ (wait_window (retransmit net c).0, (retransmit net c).1)
unfolding step_of reliable_step
tick_of net Reliability.best_effort loop c mode e q = absurd (mode refl)
tick_of net Reliability.at_least_once loop c mode e q =
    ap (λ l. reliable_step net l ticked c) (q ∙ e)
tick_of net Reliability.reliable_ordered loop c mode e q =
    ap (λ l. reliable_step net l ticked c) (q ∙ e)

-- A tick at which no space is found retransmits, and the loop waits on.
tick_stuck :
    (net : Net) (c : Connection)
    → IsStuck c
    → (loop_step net ticked c).0 ≡ at SendLoop.stalled (retransmit net c).0
unfolding loop_step
tick_stuck net c s =
    ap (λ (p : Closes). p.0) (tick_of net c.config.reliability _ c s.mode refl s.stalled)
    ∙ wait_window_full _
        (window_open-flow c (retransmit net c).0 (retransmit-StaysClosed net c).0 ∙ s.full)

tick-IsStuck :
    (net : Net) (c : Connection)
    → IsStuck c
    → IsStuck (loop_step net ticked c).0
      × (c.closed ≡ true → (loop_step net ticked c).0.closed ≡ true)
tick-IsStuck net c s =
    let stays = retransmit-StaysClosed net c in
    rw (tick_stuck net c s) (
      record {
        mode =
            subst (λ (f : Flow). f.config.reliability ≢ Reliability.best_effort) (sym stays.0)
              s.mode;
        stalled = refl;
        full = unfold window_open in (window_open-flow c (retransmit net c).0 stays.0 ∙ s.full);
      },
      stays.1,
    )

ticks-IsStuck :
    (net : Net) (n : ℕ) (c : Connection)
    → IsStuck c
    → IsStuck (ticks net n c) × (c.closed ≡ true → (ticks net n c).closed ≡ true)
unfolding ticks
ticks-IsStuck net zero c s = (s, λ e. e)
ticks-IsStuck net (suc n) c s =
    let one = tick-IsStuck net c s in
    let rest = ticks-IsStuck net n (loop_step net ticked c).0 one.0 in
    (rest.0, λ e. rest.1 (one.1 e))

pub gives_up :
    (net : Net) (c : Connection)
    → c.state ≢ RelayState.closed
    → c.config.max_retransmits ≤ c.retrans_cnt
    → c.retrans_cnt + 1 < 2 ^ 32
    → (retransmit net c).0.closed ≡ true
unfolding retransmit run_callbacks
gives_up net c alive worn small =
    if_cases (λ (p : Closes). p.0.closed ≡ true)
      (ltb c.config.max_retransmits (counted c).retrans_cnt)
      (handle_close (some max_retransmit) (counted c))
      (resend net (keys c.unacked) (counted c), false)
      (λ _.
        ap (λ (p : Closes). p.0.closed)
          (handle_close_alive (some max_retransmit) (counted c) alive))
      (λ h. absurd (ground arith))

-- Let the send loop wait for window space when the retransmissions run out. The tick at which it
-- gives up closes the connection, and the loop then waits on: after any number of further ticks it
-- has still not returned, though the connection is closed.
pub closed_loop_waits :
    (net : Net) (n : ℕ) (c : Connection)
    → IsStuck c
    → c.state ≢ RelayState.closed
    → c.config.max_retransmits ≤ c.retrans_cnt
    → c.retrans_cnt + 1 < 2 ^ 32
    → ((ticks net (suc n) c).closed ≡ true) × ((ticks net (suc n) c).send_loop ≡ SendLoop.stalled)
unfolding ticks
closed_loop_waits net n c s alive worn small =
    let one = tick-IsStuck net c s in
    let rest = ticks-IsStuck net n (loop_step net ticked c).0 one.0 in
    (
      rest.1 (
          ap (λ (d : Connection). d.closed) (tick_stuck net c s) ∙ gives_up net c alive worn small),
      rest.0.stalled,
    )
