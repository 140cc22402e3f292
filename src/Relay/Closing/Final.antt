-- ===== src/Relay/Closing/Final.antt =====
-- What frames and the send loop's steps of src/relay.rs do to a connection that is closed.
use turntf_rs.Prelude.{
  String, ℕ, ◌≡◌, refl, ap, ◌∙◌, List, [], ◌∷◌, Bool, false, Option, none, some, Result, ltb, leb,
  ℕ_discrete, if_cases,
}
use turntf_rs.Prelude.Dict.{lookup, keys}
use turntf_rs.Types.{Bytes, RelayError, RelayState, RelayKind, RelayEnvelope, Reliability}
use turntf_rs.Relay.Connection.{
  Net, Connection, Closes, UnackedFrame, SendLoop, send_frame, handle_close, close, close_open,
}
use turntf_rs.Relay.Frames.{send_frame_lem, acknowledge_lem}
use turntf_rs.Relay.Handlers.{
  receive, acknowledged, free_through, handle_data, handle_ack, handle_ping, dispatch,
  accept_ordered, with_inbound, inbound,
}
use turntf_rs.Relay.SendTask.{
  Wake, received, ticked, close_notified, resend_frame, resend, counted, max_retransmit, retransmit,
  numbered, channel_closed, at, window_open, wait_window, loop_head, after_send, transmit,
  reliable_step, after_best_effort, best_effort_step, step_of, loop_step,
}
use turntf_rs.Relay.Closing.{handle_close_closed}

-- What an application sees of the end of a connection.
pub record Life : Type 0 where
  pub id : String
  pub state : RelayState
  pub marked : Bool
  pub callbacks : List ℕ
  pub called : List (ℕ × Option RelayError)

abbrev pub life : Connection → Life
life c = record {
  id = c.relay_id;
  state = c.state;
  marked = c.closed;
  callbacks = c.on_close;
  called = c.notified;
}

-- `d` ends as `c` did, if `c` was closed.
abbrev pub Same : Connection → Connection → Type 0
Same c d = c.state ≡ RelayState.closed → life d ≡ life c

-- The close state of `d` is that of `c` in any case.
abbrev pub Alike : Connection → Connection → Type 0
Alike c d = life d ≡ life c

state-Alike :
    (c d : Connection) → Alike c d → c.state ≡ RelayState.closed → d.state ≡ RelayState.closed
state-Alike c d e closed = ap (λ (l : Life). l.state) e ∙ closed

pub handle_close-Same :
    (reason : Option RelayError) (c : Connection) → Same c (handle_close reason c).0
handle_close-Same reason c closed =
    ap (λ (p : Closes). life p.0) (handle_close_closed reason c closed)

pub send_frame-Alike :
    (net : Net) (kind : RelayKind) (seq ack_seq : ℕ) (payload : Bytes) (c : Connection)
    → Alike c (send_frame net kind seq ack_seq payload c).1
send_frame-Alike net kind seq ack_seq payload c =
    ap life (send_frame_lem net kind seq ack_seq payload c)

resend_frame-Alike :
    (net : Net) (seq : ℕ) (f : Option UnackedFrame) (c : Connection)
    → Alike c (resend_frame net seq f c)
unfolding resend_frame
resend_frame-Alike net seq none c = refl
resend_frame-Alike net seq (some f) c =
    ap life (send_frame_lem net RelayKind.«data» seq 0 f.«data» _)

resend-Alike : (net : Net) (seqs : List ℕ) (c : Connection) → Alike c (resend net seqs c)
unfolding resend
resend-Alike net [] c = refl
resend-Alike net (seq ∷ seqs) c =
    resend-Alike net seqs (resend_frame net seq (lookup ℕ_discrete seq c.unacked) c)
    ∙ resend_frame-Alike net seq (lookup ℕ_discrete seq c.unacked) c

retransmit-Same : (net : Net) (c : Connection) → Same c (retransmit net c).0
unfolding retransmit
retransmit-Same net c closed =
    if_cases (λ (p : Closes). life p.0 ≡ life c)
      (ltb c.config.max_retransmits (counted c).retrans_cnt)
      (handle_close (some max_retransmit) (counted c))
      (resend net (keys c.unacked) (counted c), false)
      (λ _. handle_close-Same (some max_retransmit) (counted c) closed)
      (λ _. resend-Alike net (keys c.unacked) (counted c))

wait_window-Alike : (c : Connection) → Alike c (wait_window c)
unfolding wait_window
wait_window-Alike c =
    if_cases (Alike c) (window_open c) (at SendLoop.selecting c) (at SendLoop.stalled c) (λ _. refl)
      (λ _. refl)

pub loop_head-Alike : (c : Connection) → Alike c (loop_head c)
unfolding loop_head
loop_head-Alike c =
    if_cases (Alike c) c.closed (at SendLoop.returned c) (wait_window c) (λ _. refl)
      (λ _. wait_window-Alike c)

after_send-Same : (r : Result RelayError (Unit {0}) × Connection) → Same r.1 (after_send r).0
unfolding after_send
after_send-Same (Result.ok _, c) closed = loop_head-Alike c
after_send-Same (Result.err e, c) closed = handle_close-Same (some e) c closed

transmit-Same : (net : Net) (payload : Bytes) (c : Connection) → Same c (transmit net payload c).0
unfolding transmit
transmit-Same net payload c closed =
    let sent = send_frame-Alike net RelayKind.«data» c.next_seq 0 payload (numbered payload c) in
    after_send-Same (send_frame net RelayKind.«data» c.next_seq 0 payload (numbered payload c))
      (ap (λ (l : Life). l.state) sent ∙ closed)
    ∙ sent

reliable_step-Same :
    (net : Net) (loop : SendLoop) (w : Wake) (c : Connection)
    → Same c (reliable_step net loop w c).0
unfolding reliable_step
reliable_step-Same net SendLoop.selecting (received none) c closed =
    handle_close-Same (some channel_closed) c closed
reliable_step-Same net SendLoop.selecting (received (some payload)) c closed =
    if_cases (λ (p : Closes). life p.0 ≡ life c) c.closed (at SendLoop.returned c, false)
      (transmit net payload c) (λ _. refl) (λ _. transmit-Same net payload c closed)
reliable_step-Same net SendLoop.selecting ticked c closed =
    loop_head-Alike (retransmit net c).0 ∙ retransmit-Same net c closed
reliable_step-Same net SendLoop.stalled ticked c closed =
    wait_window-Alike (retransmit net c).0 ∙ retransmit-Same net c closed
reliable_step-Same net SendLoop.stalled close_notified c closed =
    if_cases (Alike c) c.closed (at SendLoop.returned c) (wait_window c) (λ _. refl)
      (λ _. wait_window-Alike c)
reliable_step-Same net _ _ c closed = refl

after_best_effort-Same :
    (r : Result RelayError (Unit {0}) × Connection) → Same r.1 (after_best_effort r).0
unfolding after_best_effort
after_best_effort-Same (Result.ok _, c) closed =
    if_cases (Alike c) c.closed (at SendLoop.returned c) (at SendLoop.selecting c) (λ _. refl)
      (λ _. refl)
after_best_effort-Same (Result.err e, c) closed = handle_close-Same (some e) c closed

best_effort_step-Same :
    (net : Net) (loop : SendLoop) (w : Wake) (c : Connection)
    → Same c (best_effort_step net loop w c).0
unfolding best_effort_step
best_effort_step-Same net SendLoop.selecting (received (some payload)) c closed =
    let sent = send_frame-Alike net RelayKind.«data» 0 0 payload c in
    after_best_effort-Same (send_frame net RelayKind.«data» 0 0 payload c)
      (ap (λ (l : Life). l.state) sent ∙ closed)
    ∙ sent
best_effort_step-Same net _ _ c closed = refl

step_of-Same :
    (net : Net) (m : Reliability) (w : Wake) (c : Connection) → Same c (step_of net m w c).0
unfolding step_of
step_of-Same net Reliability.best_effort w c closed =
    best_effort_step-Same net c.send_loop w c closed
step_of-Same net _ w c closed = reliable_step-Same net c.send_loop w c closed

receive-Alike :
    (net : Net) (m : Reliability) (env : RelayEnvelope) (c : Connection)
    → Alike c (receive net m env c)
unfolding receive
receive-Alike net Reliability.best_effort env c = refl
receive-Alike net Reliability.at_least_once env c = ap life (acknowledge_lem net env.seq c)
receive-Alike net Reliability.reliable_ordered env c = ap life (
    acknowledge_lem net env.seq
      (with_inbound (accept_ordered c.config.window_size env.seq env.payload (inbound c)) c))

acknowledged-Alike :
    (m : Reliability) (ack_seq : ℕ) (c : Connection) → Alike c (acknowledged m ack_seq c)
unfolding acknowledged
acknowledged-Alike Reliability.best_effort ack_seq c = refl
acknowledged-Alike _ ack_seq c =
    if_cases (Alike c) (leb c.send_base ack_seq) (free_through ack_seq c) c (λ _. refl) (λ _. refl)

pub dispatch-Alike :
    (net : Net) (kind : RelayKind) (env : RelayEnvelope) (c : Connection)
    → Alike c (dispatch net kind env c)
unfolding dispatch handle_data handle_ack handle_ping
dispatch-Alike net RelayKind.«data» env c = receive-Alike net c.config.reliability env c
dispatch-Alike net RelayKind.ack env c = acknowledged-Alike c.config.reliability env.ack_seq c
dispatch-Alike net RelayKind.ping env c = send_frame-Alike net RelayKind.error 0 0 [] c
dispatch-Alike net _ env c = refl

pub loop_step-Same : (net : Net) (w : Wake) (c : Connection) → Same c (loop_step net w c).0
unfolding loop_step
loop_step-Same net w c closed = step_of-Same net c.config.reliability w c closed

pub close-Same : (net : Net) (c : Connection) → Same c (close net c).0
unfolding close close_open
close-Same net c closed = rw closed refl
