-- ===== src/Client/Ping.antt =====
-- `ping_loop` of src/client.rs. A round is what becomes of one ping; the rounds' results are an
-- argument, since other tasks run between them.
use turntf_rs.Prelude.{ℕ, ◌≡◌, refl, ap, ◌∙◌, Bool, true, false, List, [], ◌∷◌, ok, err}
use turntf_rs.Errors.{Error, Fallible, protocol}
use turntf_rs.Proto
use turntf_rs.Client.Session.{Inner, RpcValue, ClientEvent, emit_event}
use turntf_rs.Client.Calls.{Sink, Outcome, begin_rpc, end_rpc, begin_rpc_closed}

module _ {S R : Type 0} where
  -- A failed ping ends the loop if there is no connection, and is reported otherwise.
  unfoldable pub ping_failed : Error → Inner S R → Bool × Inner S R
  unfolding emit_event
  ping_failed Error.not_connected x = (false, x)
  ping_failed Error.closed x = (false, x)
  ping_failed Error.disconnected x = (false, x)
  ping_failed e x = (true, emit_event (ClientEvent.error e) x)

  -- Whether the loop goes on, and the state.
  unfoldable pub ping_round : Fallible (RpcValue R) → Inner S R → Bool × Inner S R
  unfolding ping_failed
  ping_round (ok RpcValue.unit) x = (true, x)
  ping_round (ok _) x = (true, emit_event (ClientEvent.error (protocol "missing pong response")) x)
  ping_round (err e) x = ping_failed e x

-- One turn of the loop: what other tasks do while it sleeps and while the ping waits, and how the
-- wait ends.
pub record Turn (S R : Type 0) : Type 0 where
  pub slept : Inner S R → Inner S R
  pub waited : Inner S R → Inner S R
  pub outcome : Outcome R

module _ {S R : Type 0} (sink : Sink) where
  ping_result : Fallible (RpcValue R) × Inner S R → Bool × Inner S R
  unfolding ping_round
  ping_result (r, x) = ping_round r x

  unfoldable pub ping_sent : Turn S R → Fallible ℕ × Inner S R → Bool × Inner S R
  unfolding ping_result
  ping_sent turn (err e, x) = ping_failed e x
  ping_sent turn (ok id, x) = ping_result (end_rpc id turn.outcome (turn.waited x))

  unfoldable pub ping_turn : Turn S R → Inner S R → Bool × Inner S R
  unfolding ping_sent
  ping_turn turn x = ping_sent turn (begin_rpc sink Proto.ClientBody.ping (turn.slept x))

  go_on : (Inner S R → Bool × Inner S R) → Bool × Inner S R → Bool × Inner S R
  go_on next (true, x) = next x
  go_on next (false, x) = (false, x)

  -- `ping_loop` over its turns: whether it still runs after them.
  unfoldable pub ping_loop : List (Turn S R) → Inner S R → Bool × Inner S R
  unfolding go_on ping_turn
  ping_loop [] x = (true, x)
  ping_loop (turn ∷ turns) x = go_on (ping_loop turns) (ping_turn turn x)

  refused_turn :
      (turn : Turn S R) (turns : List (Turn S R)) (p : Fallible ℕ × Inner S R)
      → p.0 ≡ err Error.closed
      → go_on (ping_loop turns) (ping_sent turn p) ≡ (false, p.1)
  unfolding go_on ping_sent ping_failed
  refused_turn turn turns (ok id, x) e = absurd (cc e)
  refused_turn turn turns (err f, x) e = let same : f ≡ Error.closed = cc e in rw same refl

  -- If the client is closed when a ping is due, the loop ends with it: it writes nothing and reports
  -- nothing.
  pub ping_loop_ends :
      (turn : Turn S R) (turns : List (Turn S R)) (x : Inner S R)
      → (turn.slept x).state.closed ≡ true
      → let r = ping_loop (turn ∷ turns) x in
        (r.0 ≡ false)
        × (r.1.written ≡ (turn.slept x).written)
        × (r.1.events ≡ (turn.slept x).events)
  unfolding ping_loop ping_turn
  ping_loop_ends turn turns x shut =
      let begun = begin_rpc sink Proto.ClientBody.ping (turn.slept x) in
      let refused = begin_rpc_closed sink Proto.ClientBody.ping (turn.slept x) shut in
      let ended = refused_turn turn turns begun refused.0 in
      (
        ap (λ p. p.0) ended,
        ap (λ p. p.1.written) ended ∙ refused.1,
        ap (λ p. p.1.events) ended ∙ refused.2,
      )
