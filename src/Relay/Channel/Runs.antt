-- ===== src/Relay/Channel/Runs.antt =====
-- The payloads that a connection of src/relay.rs takes and sends, over its runs.
use turntf_rs.Prelude.{
  ℕ, ◌+◌, ◌<◌, ◌^◌, ◌≡◌, ◌≢◌, refl, sym, inl, inr, Bool, true, false, List, [], ◌∷◌, ◌++◌, Option,
  none, some, Result, arith, ltb, leb, if◌then◌else◌, if_cases, ℕ_discrete,
}
use turntf_rs.Prelude.Dict.{lookup, keys, lookup-insert_self}
use mathlib.Core.Path.{subst}
use turntf_rs.Types.{Bytes, RelayKind, RelayEnvelope, RelayError, RelayState, Reliability}
use turntf_rs.Relay.Connection.{
  Net, Connection, Closes, UnackedFrame, SendLoop, wrap64, send_frame, handle_close, close_from,
  run_callbacks,
}
use turntf_rs.Relay.Handlers.{
  handle_data, receive, acknowledge, handle_ack, acknowledged, handle_ping, dispatch,
  handle_envelope, free_through, deliver, accept_ordered, with_inbound, inbound,
}
use turntf_rs.Relay.SendTask.{
  Wake, received, ticked, close_notified, at, window_open, wait_window, loop_head, counted,
  max_retransmit, resend_frame, resend, retransmit, after_send, new_frame, numbered, transmit,
  channel_closed, reliable_step, step_of, loop_step,
}
use turntf_rs.Relay.Window.Runs.{Input, frame, wake, Run, start, step, connection_step}
use turntf_rs.Relay.Channel.{
  Carries, outgoing, push-Carries, replace-Carries, remove-Carries, send_frame-Carries,
}

-- The payload that a step takes from the channel of `send`: only while the loop waits for data, and
-- only if the connection is not closed.
abbrev pub taken_from : SendLoop → Bool → Bytes → Option Bytes
taken_from SendLoop.selecting false p = some p
taken_from _ _ p = none

abbrev pub taken_by : SendLoop → Bool → Wake → Option Bytes
taken_by loop shut (received (some p)) = taken_from loop shut p
taken_by loop shut _ = none

abbrev pub takes : Input → Connection → Option Bytes
takes (frame _) c = none
takes (wake w) c = taken_by c.send_loop c.closed w

abbrev pub extend : List Bytes → Option Bytes → List Bytes
extend taken none = taken
extend taken (some p) = taken ++ p ∷ []

-- The payloads that a run takes, in order.
abbrev pub taken : {net : Net} {c d : Connection} → Run net c d → List Bytes
taken start = []
taken (step {d = d} r i mode honest fits) = extend (taken r) (takes i d)

outgoing-close_from :
    (state : RelayState) (reason : Option RelayError) (c : Connection)
    → outgoing (close_from state reason c).0 ≡ outgoing c
unfolding close_from run_callbacks
outgoing-close_from RelayState.closed reason c = refl
outgoing-close_from _ reason c = refl

pub outgoing-loop_head : (c : Connection) → outgoing (loop_head c) ≡ outgoing c
unfolding loop_head wait_window
outgoing-loop_head c =
    if_cases (λ d. outgoing d ≡ outgoing c) c.closed (at SendLoop.returned c) (wait_window c)
      (λ _. refl)
      (λ _.
        if_cases (λ d. outgoing d ≡ outgoing c) (window_open c) (at SendLoop.selecting c)
          (at SendLoop.stalled c) (λ _. refl) (λ _. refl))

outgoing-wait_window : (c : Connection) → outgoing (wait_window c) ≡ outgoing c
unfolding wait_window
outgoing-wait_window c =
    if_cases (λ d. outgoing d ≡ outgoing c) (window_open c) (at SendLoop.selecting c)
      (at SendLoop.stalled c) (λ _. refl) (λ _. refl)

module _ (net : Net) (fed : List Bytes) where
  abbrev Fed : Connection → Type 0
  Fed c = Carries net.codec fed (outgoing c)

  handle_close-Fed :
      (reason : Option RelayError) (c : Connection) → Fed c → Fed (handle_close reason c).0
  unfolding handle_close
  handle_close-Fed reason c =
      subst (Carries net.codec fed) (sym (outgoing-close_from c.state reason c))

  loop_head-Fed : (c : Connection) → Fed c → Fed (loop_head c)
  loop_head-Fed c = subst (Carries net.codec fed) (sym (outgoing-loop_head c))

  wait_window-Fed : (c : Connection) → Fed c → Fed (wait_window c)
  wait_window-Fed c = subst (Carries net.codec fed) (sym (outgoing-wait_window c))

  resend_frame-Fed :
      (seq : ℕ) (f : Option UnackedFrame) (c : Connection)
      → lookup ℕ_discrete seq c.unacked ≡ f
      → Fed c
      → Fed (resend_frame net seq f c)
  unfolding resend_frame
  resend_frame-Fed seq none c e w = w
  resend_frame-Fed seq (some f) c e w =
      send_frame-Carries fed net RelayKind.«data» seq 0 f.«data» _ (inr (w.kept seq f e))
        (replace-Carries net.codec fed seq f _ (outgoing c) e refl w)

  resend-Fed : (seqs : List ℕ) (c : Connection) → Fed c → Fed (resend net seqs c)
  unfolding resend
  resend-Fed [] c w = w
  resend-Fed (seq ∷ seqs) c w =
      resend-Fed seqs _ (resend_frame-Fed seq (lookup ℕ_discrete seq c.unacked) c refl w)

  retransmit-Fed : (c : Connection) → Fed c → Fed (retransmit net c).0
  unfolding retransmit
  retransmit-Fed c w =
      if_cases (λ (p : Closes). Fed p.0) (ltb c.config.max_retransmits (counted c).retrans_cnt) _ _
        (λ _. handle_close-Fed (some max_retransmit) (counted c) w)
        (λ _. resend-Fed (keys c.unacked) (counted c) w)

  after_send-Fed : (r : Result RelayError (Unit {0}) × Connection) → Fed r.1 → Fed (after_send r).0
  unfolding after_send
  after_send-Fed (Result.ok _, c) w = loop_head-Fed c w
  after_send-Fed (Result.err e, c) w = handle_close-Fed (some e) c w

  acknowledge-Fed : (seq : ℕ) (c : Connection) → Fed c → Fed (acknowledge net seq c)
  unfolding acknowledge
  acknowledge-Fed seq c =
      send_frame-Carries fed net RelayKind.ack 0 seq [] c (inl (λ e. absurd (cc e)))

  receive-Fed :
      (m : Reliability) (env : RelayEnvelope) (c : Connection) → Fed c → Fed (receive net m env c)
  unfolding receive deliver
  receive-Fed Reliability.best_effort env c w = w
  receive-Fed Reliability.at_least_once env c w = acknowledge-Fed env.seq c w
  receive-Fed Reliability.reliable_ordered env c w =
      acknowledge-Fed env.seq
        (with_inbound (accept_ordered c.config.window_size env.seq env.payload (inbound c)) c) w

  acknowledged-Fed :
      (m : Reliability) (ack_seq : ℕ) (c : Connection) → Fed c → Fed (acknowledged m ack_seq c)
  unfolding acknowledged
  acknowledged-Fed Reliability.best_effort ack_seq c w = w
  acknowledged-Fed _ ack_seq c w =
      if_cases Fed (leb c.send_base ack_seq) (free_through ack_seq c) c
        (λ _. remove-Carries net.codec fed _ c.send_base (outgoing c) w) (λ _. w)

  dispatch-Fed :
      (kind : RelayKind) (env : RelayEnvelope) (c : Connection)
      → Fed c
      → Fed (dispatch net kind env c)
  unfolding dispatch handle_data handle_ack handle_ping
  dispatch-Fed RelayKind.«data» env c w = receive-Fed c.config.reliability env c w
  dispatch-Fed RelayKind.ack env c w = acknowledged-Fed c.config.reliability env.ack_seq c w
  dispatch-Fed RelayKind.ping env c w =
      send_frame-Carries fed net RelayKind.error 0 0 [] c (inl (λ e. absurd (cc e))) w
  dispatch-Fed _ env c w = w

wrap_next : (n : ℕ) → n + 1 < 2 ^ 64 → wrap64 (n + 1) ≡ n + 1
wrap_next n h = omega arith

module _ (net : Net) (fed : List Bytes) where
  transmit-Fed :
      (p : Bytes) (c : Connection)
      → c.next_seq + 1 < 2 ^ 64
      → Fed net fed c
      → Fed net (fed ++ p ∷ []) (transmit net p c).0
  unfolding transmit
  transmit-Fed p c fits w =
      let kept = push-Carries net.codec fed p (new_frame p) (outgoing c) refl w in
      let numbered_lem =
        subst
          (λ n. Carries net.codec (fed ++ p ∷ []) (record (outgoing (numbered p c)) { next = n }))
          (sym (wrap_next c.next_seq fits)) kept in
      after_send-Fed net (fed ++ p ∷ [])
        (send_frame net RelayKind.«data» c.next_seq 0 p (numbered p c))
        (send_frame-Carries (fed ++ p ∷ []) net RelayKind.«data» c.next_seq 0 p (numbered p c)
          (inr (
            kept.kept c.next_seq (new_frame p)
              (lookup-insert_self ℕ_discrete c.next_seq (new_frame p) c.unacked)))
          numbered_lem)

  take_step-Fed :
      (p : Bytes) (shut : Bool) (c : Connection)
      → c.next_seq + 1 < 2 ^ 64
      → Fed net fed c
      → Fed net
          (extend fed (taken_by SendLoop.selecting shut (received (some p))))
          (if shut then (at SendLoop.returned c, false) else transmit net p c).0
  take_step-Fed p true c fits w = w
  take_step-Fed p false c fits w = transmit-Fed p c fits w

  reliable_step-Fed :
      (loop : SendLoop) (wk : Wake) (c : Connection)
      → c.next_seq + 1 < 2 ^ 64
      → Fed net fed c
      → Fed net (extend fed (taken_by loop c.closed wk)) (reliable_step net loop wk c).0
  unfolding reliable_step
  reliable_step-Fed SendLoop.selecting (received none) c fits w =
      handle_close-Fed net fed (some channel_closed) c w
  reliable_step-Fed SendLoop.selecting (received (some p)) c fits w =
      take_step-Fed p c.closed c fits w
  reliable_step-Fed SendLoop.selecting ticked c fits w =
      loop_head-Fed net fed (retransmit net c).0 (retransmit-Fed net fed c w)
  reliable_step-Fed SendLoop.selecting close_notified c fits w = w
  reliable_step-Fed SendLoop.stalled ticked c fits w =
      wait_window-Fed net fed (retransmit net c).0 (retransmit-Fed net fed c w)
  reliable_step-Fed SendLoop.stalled close_notified c fits w =
      if_cases (Fed net fed) c.closed (at SendLoop.returned c) (wait_window c) (λ _. w)
        (λ _. wait_window-Fed net fed c w)
  reliable_step-Fed SendLoop.stalled (received none) c fits w = w
  reliable_step-Fed SendLoop.stalled (received (some p)) c fits w = w
  reliable_step-Fed SendLoop.returned (received none) c fits w = w
  reliable_step-Fed SendLoop.returned (received (some p)) c fits w = w
  reliable_step-Fed SendLoop.returned ticked c fits w = w
  reliable_step-Fed SendLoop.returned close_notified c fits w = w
  reliable_step-Fed SendLoop.not_spawned (received none) c fits w = w
  reliable_step-Fed SendLoop.not_spawned (received (some p)) c fits w = w
  reliable_step-Fed SendLoop.not_spawned ticked c fits w = w
  reliable_step-Fed SendLoop.not_spawned close_notified c fits w = w

  loop_step-Fed :
      (wk : Wake) (c : Connection)
      → c.config.reliability ≢ Reliability.best_effort
      → c.next_seq + 1 < 2 ^ 64
      → Fed net fed c
      → Fed net (extend fed (taken_by c.send_loop c.closed wk)) (loop_step net wk c).0
  unfolding loop_step
  loop_step-Fed wk c mode fits w = go c.config.reliability mode
    where
      go :
          (m : Reliability)
          → m ≢ Reliability.best_effort
          → Fed net (extend fed (taken_by c.send_loop c.closed wk)) (step_of net m wk c).0
      go Reliability.best_effort h = absurd (h refl)
      go Reliability.at_least_once h = unfold step_of in reliable_step-Fed c.send_loop wk c fits w
      go Reliability.reliable_ordered h =
          unfold step_of in reliable_step-Fed c.send_loop wk c fits w

  connection_step-Fed :
      (i : Input) (c : Connection)
      → c.config.reliability ≢ Reliability.best_effort
      → c.next_seq + 1 < 2 ^ 64
      → Fed net fed c
      → Fed net (extend fed (takes i c)) (connection_step net i c)
  unfolding connection_step handle_envelope
  connection_step-Fed (frame env) c mode fits w = dispatch-Fed net fed env.kind env c w
  connection_step-Fed (wake wk) c mode fits w = loop_step-Fed wk c mode fits w

-- In every run, each data frame that was sent has the payload of its number.
pub Run-Carries :
    {net : Net} {c d : Connection} (r : Run net c d)
    → Carries net.codec [] (outgoing c)
    → Carries net.codec (taken r) (outgoing d)
Run-Carries start w = w
Run-Carries {net} (step {d = d} r i mode honest fits) w =
    connection_step-Fed net (taken r) i d mode fits (Run-Carries r w)
