-- ===== src/Relay/Exhaustion.antt =====
-- How long `send_loop_reliable` of src/relay.rs retransmits when nothing is acknowledged.
use turntf_rs.Prelude.{
  ℕ, zero, suc, ◌+◌, ◌^◌, ◌≤◌, ◌<◌, ◌≡◌, ◌≢◌, refl, sym, ap, ◌∙◌, ◌⊎◌, inl, inr, List, [], ◌∷◌,
  Bool, true, false, Option, none, some, arith, ltb, ℕ_discrete, if_cases, Bool-cases, ltb→lt,
}
use mathlib.Core.Path.{ap₂}
use turntf_rs.Prelude.Dict.{lookup, keys}
use turntf_rs.Types.{RelayConfig, RelayState, RelayKind, Reliability}
use turntf_rs.Relay.Connection.{Net, Connection, Closes, UnackedFrame, SendLoop, handle_close}
use turntf_rs.Relay.Frames.{send_frame_lem}
use turntf_rs.Relay.SendTask.{
  ticked, resend_frame, resend, counted, max_retransmit, retransmit, at, window_open, wait_window,
  loop_head, reliable_step, best_effort_step, step_of, loop_step,
}
use turntf_rs.Relay.Stall.{ticks, retransmit-StaysClosed, gives_up}

-- What decides whether the loop gives up.
record Timer : Type 0 where
  config : RelayConfig
  count : ℕ
  state : RelayState
  closed : Bool

abbrev timer : Connection → Timer
timer c = record { config = c.config; count = c.retrans_cnt; state = c.state; closed = c.closed }

timer-resend_frame :
    (net : Net) (seq : ℕ) (f : Option UnackedFrame) (c : Connection)
    → timer (resend_frame net seq f c) ≡ timer c
unfolding resend_frame
timer-resend_frame net seq none c = refl
timer-resend_frame net seq (some f) c =
    ap timer (send_frame_lem net RelayKind.«data» seq 0 f.«data» _)

timer-resend : (net : Net) (seqs : List ℕ) (c : Connection) → timer (resend net seqs c) ≡ timer c
unfolding resend
timer-resend net [] c = refl
timer-resend net (seq ∷ seqs) c =
    timer-resend net seqs (resend_frame net seq (lookup ℕ_discrete seq c.unacked) c)
    ∙ timer-resend_frame net seq (lookup ℕ_discrete seq c.unacked) c

timer-wait_window : (c : Connection) → timer (wait_window c) ≡ timer c
unfolding wait_window
timer-wait_window c =
    if_cases (λ d. timer d ≡ timer c) (window_open c) (at SendLoop.selecting c)
      (at SendLoop.stalled c) (λ _. refl) (λ _. refl)

timer-loop_head : (c : Connection) → timer (loop_head c) ≡ timer c
unfolding loop_head
timer-loop_head c =
    if_cases (λ d. timer d ≡ timer c) c.closed (at SendLoop.returned c) (wait_window c) (λ _. refl)
      (λ _. timer-wait_window c)

-- The loop polls the timer.
abbrev pub IsPolling : SendLoop → Type 0
IsPolling loop = (loop ≡ SendLoop.selecting) ⊎ (loop ≡ SendLoop.stalled)

wait_window-IsPolling : (c : Connection) → IsPolling (wait_window c).send_loop
unfolding wait_window
wait_window-IsPolling c =
    if_cases (λ (d : Connection). IsPolling d.send_loop) (window_open c) (at SendLoop.selecting c)
      (at SendLoop.stalled c) (λ _. inl refl) (λ _. inr refl)

loop_head-IsPolling : (c : Connection) → (c.closed ≡ true) ⊎ IsPolling (loop_head c).send_loop
unfolding loop_head
loop_head-IsPolling c =
    if_cases (λ (d : Connection). (c.closed ≡ true) ⊎ IsPolling d.send_loop) c.closed
      (at SendLoop.returned c) (wait_window c) (λ e. inl e) (λ _. inr (wait_window-IsPolling c))

-- One tick of a loop that polls the timer is a round of `retransmit`, and the loop polls on unless
-- the connection is closed.
abbrev IsRound : Net → Connection → Connection → Type 0
IsRound net c d =
    (timer d ≡ timer (retransmit net c).0)
    × (((retransmit net c).0.closed ≡ true) ⊎ IsPolling d.send_loop)

reliable_step-IsRound :
    (net : Net) (loop : SendLoop) (c : Connection)
    → IsPolling loop
    → IsRound net c (reliable_step net loop ticked c).0
unfolding reliable_step
reliable_step-IsRound net SendLoop.selecting c p =
    (timer-loop_head (retransmit net c).0, loop_head-IsPolling (retransmit net c).0)
reliable_step-IsRound net SendLoop.stalled c p =
    (timer-wait_window (retransmit net c).0, inr (wait_window-IsPolling (retransmit net c).0))
reliable_step-IsRound net SendLoop.returned c (inl e) = absurd (cc e)
reliable_step-IsRound net SendLoop.returned c (inr e) = absurd (cc e)
reliable_step-IsRound net SendLoop.not_spawned c (inl e) = absurd (cc e)
reliable_step-IsRound net SendLoop.not_spawned c (inr e) = absurd (cc e)

tick-IsRound :
    (net : Net) (c : Connection)
    → c.config.reliability ≢ Reliability.best_effort
    → IsPolling c.send_loop
    → IsRound net c (loop_step net ticked c).0
unfolding loop_step
tick-IsRound net c mode p = go c.config.reliability mode
  where
    go : (m : Reliability) → m ≢ Reliability.best_effort → IsRound net c (step_of net m ticked c).0
    go Reliability.best_effort h = absurd (h refl)
    go Reliability.at_least_once h = unfold step_of in reliable_step-IsRound net c.send_loop c p
    go Reliability.reliable_ordered h = unfold step_of in reliable_step-IsRound net c.send_loop c p

-- A closed connection stays closed at a tick.
stays_closed :
    (net : Net) (loop : SendLoop) (c : Connection)
    → c.closed ≡ true
    → (reliable_step net loop ticked c).0.closed ≡ true
unfolding reliable_step
stays_closed net SendLoop.selecting c e =
    ap (λ (t : Timer). t.closed) (timer-loop_head (retransmit net c).0)
    ∙ (retransmit-StaysClosed net c).1 e
stays_closed net SendLoop.stalled c e =
    ap (λ (t : Timer). t.closed) (timer-wait_window (retransmit net c).0)
    ∙ (retransmit-StaysClosed net c).1 e
stays_closed net SendLoop.returned c e = e
stays_closed net SendLoop.not_spawned c e = e

idle_tick :
    (net : Net) (loop : SendLoop) (c : Connection) → (best_effort_step net loop ticked c).0 ≡ c
unfolding best_effort_step
idle_tick net SendLoop.selecting c = refl
idle_tick net _ c = refl

tick_stays_closed :
    (net : Net) (c : Connection) → c.closed ≡ true → (loop_step net ticked c).0.closed ≡ true
unfolding loop_step
tick_stays_closed net c e = go c.config.reliability
  where
    go : (m : Reliability) → (step_of net m ticked c).0.closed ≡ true
    go Reliability.best_effort =
        unfold step_of in (ap (λ (d : Connection). d.closed) (idle_tick net c.send_loop c) ∙ e)
    go Reliability.at_least_once = unfold step_of in stays_closed net c.send_loop c e
    go Reliability.reliable_ordered = unfold step_of in stays_closed net c.send_loop c e

ticks_closed :
    (net : Net) (n : ℕ) (c : Connection) → c.closed ≡ true → (ticks net n c).closed ≡ true
unfolding ticks
ticks_closed net zero c e = e
ticks_closed net (suc n) c e =
    ticks_closed net n (loop_step net ticked c).0 (tick_stays_closed net c e)

-- A reliable send loop runs, and has counted at most `max_retransmits` rounds since the last
-- acknowledgement.
pub record IsRetrying (c : Connection) : Type 0 where
  pub mode : c.config.reliability ≢ Reliability.best_effort
  pub polling : IsPolling c.send_loop
  pub alive : c.state ≢ RelayState.closed
  pub running : c.closed ≡ false
  pub counting : c.retrans_cnt ≤ c.config.max_retransmits
  pub small : c.config.max_retransmits + 1 < 2 ^ 32

timer-retransmit :
    (net : Net) (c : Connection)
    → c.retrans_cnt + 1 ≤ c.config.max_retransmits
    → c.config.max_retransmits + 1 < 2 ^ 32
    → timer (retransmit net c).0 ≡ record (timer c) { count = c.retrans_cnt + 1 }
unfolding retransmit
timer-retransmit net c room small =
    if_cases (λ (p : Closes). timer p.0 ≡ record (timer c) { count = c.retrans_cnt + 1 })
      (ltb c.config.max_retransmits (counted c).retrans_cnt)
      (handle_close (some max_retransmit) (counted c))
      (resend net (keys c.unacked) (counted c), false) (λ h. absurd (ground arith))
      (λ _.
        timer-resend net (keys c.unacked) (counted c)
        ∙ ap (λ n. record (timer c) { count = n }) (omega arith))

-- A round that is not the last leaves a loop that retries.
tick-IsRetrying :
    (net : Net) (c : Connection)
    → IsRetrying c
    → c.retrans_cnt + 1 ≤ c.config.max_retransmits
    → let d = (loop_step net ticked c).0 in
      IsRetrying d
      × (d.retrans_cnt ≡ c.retrans_cnt + 1)
      × (d.config.max_retransmits ≡ c.config.max_retransmits)
tick-IsRetrying net c w room =
    let d = (loop_step net ticked c).0 in
    let (same, polling) = tick-IsRound net c w.mode w.polling in
    let round = timer-retransmit net c room w.small in
    let t = same ∙ round in
    let config : d.config ≡ c.config = ap (λ (x : Timer). x.config) t in
    let count : d.retrans_cnt ≡ c.retrans_cnt + 1 = ap (λ (x : Timer). x.count) t in
    let most : d.config.max_retransmits ≡ c.config.max_retransmits =
      ap (λ (g : RelayConfig). g.max_retransmits) config in
    let open_still = ap (λ (x : Timer). x.closed) round ∙ w.running in
    (
      record {
        mode = λ e. w.mode (sym (ap (λ (g : RelayConfig). g.reliability) config) ∙ e);
        polling = elim polling [ inl e ↦ absurd (cc (e, open_still)) | inr p ↦ p ];
        alive = λ e. w.alive (sym (ap (λ (x : Timer). x.state) t) ∙ e);
        running = ap (λ (x : Timer). x.closed) t ∙ w.running;
        counting = omega (arith, count, most, room);
        small = omega (arith, most, w.small);
      },
      count,
      most,
    )

not_over : (most n : ℕ) → n ≤ most → ltb most (n + 0) ≡ false
not_over most n h = ground arith

not_less : (n most : ℕ) → ltb n most ≡ false → most ≤ n
not_less n most h = ground arith

over : (most n k : ℕ) → most ≤ n → ltb most (n + suc k) ≡ true
over most n k h = ground arith

-- While nothing is acknowledged and the user sends nothing, a reliable connection whose
-- `max_retransmits` is less than 2^32 - 1 is closed after exactly as many ticks of the
-- acknowledgement timer as there are retransmissions left, and one more: before that it is not
-- closed, and from then on it is. This holds with frames in flight and without: a round is counted
-- whether or not there is a frame to send again.
pub retransmissions_end :
    (net : Net) (n : ℕ) (c : Connection)
    → IsRetrying c
    → (ticks net n c).closed ≡ ltb c.config.max_retransmits (c.retrans_cnt + n)
unfolding ticks
retransmissions_end net zero c w =
    w.running ∙ sym (not_over c.config.max_retransmits c.retrans_cnt w.counting)
retransmissions_end net (suc n) c w =
    elim (Bool-cases (ltb c.retrans_cnt c.config.max_retransmits)) [
      | inl more ↦
          let (next, count, most) = tick-IsRetrying net c w (omega (arith, ltb→lt _ _ more)) in
          retransmissions_end net n (loop_step net ticked c).0 next
          ∙ ap₂ ltb most (omega (arith, count))
      | inr last ↦
          let (same, _) = tick-IsRound net c w.mode w.polling in
          let spent : c.config.max_retransmits ≤ c.retrans_cnt = not_less _ _ last in
          let shut = gives_up net c w.alive spent (omega (arith, w.counting, w.small)) in
          ticks_closed net n (loop_step net ticked c).0 (ap (λ (x : Timer). x.closed) same ∙ shut)
          ∙ sym (over c.config.max_retransmits c.retrans_cnt n spent)
    ]
