-- ===== src/Relay/Window/Runs.antt =====
-- The sender's window over whole runs of a connection of src/relay.rs.
use turntf_rs.Prelude.{
  ℕ, ◌+◌, ◌^◌, ◌<◌, ◌≡◌, ◌≢◌, refl, sym, ap, [], arith, leb, leb→le, if◌then◌else◌, if_cases,
}
use turntf_rs.Prelude.Dict.{lookup}
use mathlib.Core.Path.{subst₂}
use turntf_rs.Types.{RelayKind, RelayEnvelope, Reliability}
use turntf_rs.Relay.Connection.{Net, Connection, send_frame}
use turntf_rs.Relay.Frames.{send_frame_lem, acknowledge_lem}
use turntf_rs.Relay.Handlers.{
  handle_data, receive, acknowledge, handle_ack, acknowledged, handle_ping, dispatch,
  handle_envelope, free_through, accept_ordered, with_inbound, inbound,
}
use turntf_rs.Relay.SendTask.{Wake, loop_head, loop_step}
use turntf_rs.Relay.Window.{outbound, IsWindowed, ack-IsWindowed}
use turntf_rs.Relay.Window.Steps.{Flows, IsFlowing, loop_head-IsFlowing, loop_step-IsFlowing}

-- An arriving data frame or ping leaves the window and the loop alone.
unchanged-IsFlowing :
    (c d : Connection)
    → outbound d ≡ outbound c
    → d.send_loop ≡ c.send_loop
    → IsFlowing c
    → IsFlowing d
unchanged-IsFlowing c d o l f = subst₂ Flows (sym o) (sym l) f

acknowledge-IsFlowing :
    (net : Net) (seq : ℕ) (c : Connection) → IsFlowing c → IsFlowing (acknowledge net seq c)
acknowledge-IsFlowing net seq c =
    unchanged-IsFlowing c (acknowledge net seq c) (ap outbound (acknowledge_lem net seq c))
      (ap (λ (d : Connection). d.send_loop) (acknowledge_lem net seq c))

receive-IsFlowing :
    (net : Net) (m : Reliability) (env : RelayEnvelope) (c : Connection)
    → IsFlowing c
    → IsFlowing (receive net m env c)
unfolding receive
receive-IsFlowing net Reliability.best_effort env c f = f
receive-IsFlowing net Reliability.at_least_once env c f = acknowledge-IsFlowing net env.seq c f
receive-IsFlowing net Reliability.reliable_ordered env c f =
    acknowledge-IsFlowing net env.seq
      (with_inbound (accept_ordered c.config.window_size env.seq env.payload (inbound c)) c) f

freed-IsFlowing :
    (ack_seq : ℕ) (c : Connection)
    → ack_seq < c.next_seq
    → IsFlowing c
    → IsFlowing (if leb c.send_base ack_seq then free_through ack_seq c else c)
freed-IsFlowing ack_seq c h f =
    if_cases IsFlowing (leb c.send_base ack_seq) (free_through ack_seq c) c
      (λ low. record {
        windowed = ack-IsWindowed (outbound c) ack_seq (leb→le _ _ low) h f.windowed;
        ready = λ e. omega (arith, leb→le _ _ low, f.ready e, h, f.windowed.fits);
      })
      (λ _. f)

acknowledged-IsFlowing :
    (m : Reliability) (ack_seq : ℕ) (c : Connection)
    → ack_seq < c.next_seq
    → IsFlowing c
    → IsFlowing (acknowledged m ack_seq c)
unfolding acknowledged
acknowledged-IsFlowing Reliability.best_effort ack_seq c h f = f
acknowledged-IsFlowing _ ack_seq c h f = freed-IsFlowing ack_seq c h f

handle_ping-IsFlowing : (net : Net) (c : Connection) → IsFlowing c → IsFlowing (handle_ping net c)
unfolding handle_ping
handle_ping-IsFlowing net c =
    unchanged-IsFlowing c (send_frame net RelayKind.error 0 0 [] c).1
      (ap outbound (send_frame_lem net RelayKind.error 0 0 [] c))
      (ap (λ (d : Connection). d.send_loop) (send_frame_lem net RelayKind.error 0 0 [] c))

dispatch-IsFlowing :
    (net : Net) (kind : RelayKind) (env : RelayEnvelope) (c : Connection)
    → (kind ≡ RelayKind.ack → env.ack_seq < c.next_seq)
    → IsFlowing c
    → IsFlowing (dispatch net kind env c)
unfolding dispatch handle_data handle_ack
dispatch-IsFlowing net RelayKind.«data» env c h f =
    receive-IsFlowing net c.config.reliability env c f
dispatch-IsFlowing net RelayKind.ack env c h f =
    acknowledged-IsFlowing c.config.reliability env.ack_seq c (h refl) f
dispatch-IsFlowing net RelayKind.ping env c h f = handle_ping-IsFlowing net c f
dispatch-IsFlowing net _ env c h f = f

-- What can happen to a connection: a frame for `handle_envelope`, or an event of its send loop.
pub data Input : Type 0 where
  frame : RelayEnvelope → Input
  wake : Wake → Input

unfoldable pub connection_step : Net → Input → Connection → Connection
unfolding handle_envelope loop_step
connection_step net (frame env) c = handle_envelope net env c
connection_step net (wake w) c = (loop_step net w c).0

abbrev pub IsHonest : Input → Connection → Type 0
IsHonest (frame env) c = env.kind ≡ RelayKind.ack → env.ack_seq < c.next_seq
IsHonest (wake w) c = Unit {0}

-- A run of a connection in a mode with acknowledgements, whose peer acknowledges only frames that
-- were sent, and which numbers fewer than 2 ^ 64 - 1 frames.
pub data Run (net : Net) (c : Connection) : Connection → Type 0 where
  start : Run net c c
  step :
      {d : Connection}
      → Run net c d
      → (i : Input) → d.config.reliability ≢ Reliability.best_effort
      → IsHonest i d
      → d.next_seq + 1 < 2 ^ 64
      → Run net c (connection_step net i d)

connection_step-IsFlowing :
    (net : Net) (i : Input) (c : Connection)
    → c.config.reliability ≢ Reliability.best_effort
    → IsHonest i c
    → c.next_seq + 1 < 2 ^ 64
    → IsFlowing c
    → IsFlowing (connection_step net i c)
unfolding connection_step handle_envelope
connection_step-IsFlowing net (frame env) c mode honest fits f =
    dispatch-IsFlowing net env.kind env c honest f
connection_step-IsFlowing net (wake w) c mode honest fits f =
    loop_step-IsFlowing net w c mode fits f

Run-IsFlowing : {net : Net} {c d : Connection} → Run net c d → IsFlowing c → IsFlowing d
Run-IsFlowing start f = f
Run-IsFlowing {net} (step {d = d} r i mode honest fits) f =
    connection_step-IsFlowing net i d mode honest fits (Run-IsFlowing r f)

-- A connection that has sent nothing, its send loop spawned.
pub record IsIdle (c : Connection) : Type 0 where
  pub base : c.send_base ≡ 1
  pub next : c.next_seq ≡ 1
  pub none_kept : c.unacked ≡ []

idle-IsWindowed : (c : Connection) → IsIdle c → IsWindowed (outbound c)
unfolding lookup
idle-IsWindowed c i =
    rw (i.base, i.next, i.none_kept)
      (record {
        ordered = omega arith;
        fits = omega arith;
        flight = omega arith;
        kept = λ k low high. absurd (omega arith);
        only = λ k h. absurd (cc h.1);
      })

-- After any run of a connection that began with nothing sent and its reliable send loop spawned,
-- the frames from `send_base` up to `next_seq` are at most a window's size in number, exactly these
-- are in `unacked`, and the loop waits for more data only while there is room for one more frame.
-- The peer acknowledges only frames that were sent, and the numbers stay below 2 ^ 64 - 1.
pub in_flight_bounded :
    (net : Net) (c d : Connection) → IsIdle c → Run net (loop_head c) d → IsFlowing d
in_flight_bounded net c d i r = Run-IsFlowing r (loop_head-IsFlowing c (idle-IsWindowed c i))
