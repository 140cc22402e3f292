-- ===== src/Client/Calls.antt =====
-- The calls of `rpc` in src/client.rs, cut at the wait for the answer, and what becomes of each.
use turntf_rs.Prelude.{
  ℕ, ◌+◌, ◌%◌, ◌^◌, ◌/◌, ◌≡◌, refl, String, true, List, [], ◌∷◌, ◌++◌, Option, none, some, ok, err,
  if◌then◌else◌, if_cases, ℕ_discrete,
}
use Prim.Native.String.{◌++◌ as ◌⧺◌}
use turntf_rs.Prelude.Dict.{lookup, insert, remove, lookup-remove_self}
use turntf_rs.Errors.{Error, Fallible, show}
use turntf_rs.Proto.{ClientBody}
use turntf_rs.Client.Session.{
  Inner, RpcValue, ClientEnvelope, request, is_closed, resolve_pending, answer, announce_closed,
  mark_closed, emit_event, disconnect,
}

-- The websocket's sink: the error of a write, if it fails.
abbrev pub Sink : Type 0
Sink = List ClientEnvelope → ClientEnvelope → Option String

-- How the wait ends: with an answer, with the sender dropped, or by the timeout.
pub data Outcome (R : Type 0) : Type 0 where
  received : Fallible (RpcValue R) → Outcome R
  dropped : Outcome R
  timed_out : Outcome R

unfoldable pub result_of : {R : Type 0} → ℕ → ℕ → Outcome R → Fallible (RpcValue R)
result_of timeout id (received r) = r
result_of timeout id dropped = err Error.disconnected
result_of timeout id timed_out =
    err (
      Error.connection ("request " ⧺ show id)
        ("timed out after " ⧺ show (timeout / 1000000) ⧺ "ms"))

module _ {S R : Type 0} where
  unfoldable pub written_by :
      Option String → ClientEnvelope → Inner S R → Fallible (Unit {0}) × Inner S R
  written_by (some cause) env x = (err (Error.connection "write" cause), x)
  written_by none env x = (ok tt, record x { written = x.written ++ env ∷ [] })

  unfoldable pub write_to :
      Sink → ClientEnvelope → Option ℕ → Inner S R → Fallible (Unit {0}) × Inner S R
  unfolding written_by
  write_to sink env none x = (err Error.not_connected, x)
  write_to sink env (some session_id) x = written_by (sink x.written env) env x

  -- `send_envelope`
  unfoldable pub send_envelope : Sink → ClientEnvelope → Inner S R → Fallible (Unit {0}) × Inner S R
  unfolding write_to
  send_envelope sink env x =
      if is_closed x then (err Error.closed, x) else write_to sink env x.writer x

  unfoldable pub sent : ℕ → Fallible (Unit {0}) × Inner S R → Fallible ℕ × Inner S R
  sent id (ok _, x) = (ok id, x)
  sent id (err e, x) = (err e, record x { pending = remove ℕ_discrete id x.pending })

  -- The next request id, and the call that waits under it.
  unfoldable pub register : Inner S R → ℕ × Inner S R
  register x =
      let id = (x.request_id + 1) % 2 ^ 64 in
      (
        id,
        record x {
          request_id = id;
          calls = x.calls + 1;
          pending = insert ℕ_discrete id x.calls x.pending;
        },
      )

  -- `rpc` up to the wait for the answer; it fails when the request cannot be written.
  unfoldable pub begin_rpc : Sink → ClientBody → Inner S R → Fallible ℕ × Inner S R
  unfolding sent register
  begin_rpc sink body x =
      let (id, y) = register x in sent id (send_envelope sink (request id body) y)

  -- `rpc` after the wait.
  unfoldable pub end_rpc : ℕ → Outcome R → Inner S R → Fallible (RpcValue R) × Inner S R
  unfolding result_of
  end_rpc id outcome x = (
    result_of x.cfg.request_timeout id outcome,
    record x { pending = remove ℕ_discrete id x.pending },
  )

  -- Let a call wait under a request id. When an answer for the id comes, this call receives it and
  -- no other does, and no call waits under the id any more: a second answer changes nothing.
  pub answered_once :
      (id call : ℕ) (r r' : Fallible (RpcValue R)) (x : Inner S R)
      → lookup ℕ_discrete id x.pending ≡ some call
      → let y = resolve_pending id r x in
        (y.answered ≡ x.answered ++ (call, r) ∷ [])
        × (lookup ℕ_discrete id y.pending ≡ none)
        × (resolve_pending id r' y ≡ y)
  unfolding resolve_pending
  answered_once id call r r' x e =
      let gone = lookup-remove_self ℕ_discrete id x.pending in
      rw (e, answer, gone) (refl, refl, refl)

  -- If the write failed, `id` waits no more, and what was written and answered is as in `x`.
  abbrev Fails : ℕ → Error → Inner S R → Fallible (Unit {0}) × Inner S R → Type 0
  Fails id e x r =
      (sent id r).0 ≡ err e
      → (lookup ℕ_discrete id (sent id r).1.pending ≡ none)
        × ((sent id r).1.written ≡ x.written)
        × ((sent id r).1.answered ≡ x.answered)

  refused-Fails : (id : ℕ) (e f : Error) (x : Inner S R) → Fails id e x (err f, x)
  unfolding sent
  refused-Fails id e f x h = (lookup-remove_self ℕ_discrete id x.pending, refl, refl)

  written_by-Fails :
      (id : ℕ) (e : Error) (o : Option String) (env : ClientEnvelope) (x : Inner S R)
      → Fails id e x (written_by o env x)
  unfolding sent written_by
  written_by-Fails id e none env x h = absurd (cc h)
  written_by-Fails id e (some cause) env x h = refused-Fails id e _ x (unfold sent in h)

  write_to-Fails :
      (id : ℕ) (e : Error) (sink : Sink) (w : Option ℕ) (env : ClientEnvelope) (x : Inner S R)
      → Fails id e x (write_to sink env w x)
  unfolding write_to
  write_to-Fails id e sink none env x = refused-Fails id e Error.not_connected x
  write_to-Fails id e sink (some _) env x = written_by-Fails id e (sink x.written env) env x

  -- A call of `rpc` that fails before it waits leaves no call waiting under its id, and nothing
  -- written.
  pub begin_rpc_failed :
      (sink : Sink) (body : ClientBody) (x : Inner S R) (e : Error)
      → (begin_rpc sink body x).0 ≡ err e
      → let (id, y) = register x in
        (lookup ℕ_discrete id (begin_rpc sink body x).1.pending ≡ none)
        × ((begin_rpc sink body x).1.written ≡ x.written)
        × ((begin_rpc sink body x).1.answered ≡ x.answered)
  unfolding begin_rpc send_envelope
  begin_rpc_failed sink body x e =
      let (id, y) = register x in
      if_cases (Fails id e y) (is_closed y) (err Error.closed, y)
        (write_to sink (request id body) y.writer y) (λ _. refused-Fails id e Error.closed y)
        (λ _. write_to-Fails id e sink y.writer (request id body) y)

  pub announce_closed_lem :
      (x : Inner S R)
      → let y = announce_closed x in
        (y.pending ≡ x.pending)
        × (y.answered ≡ x.answered)
        × (y.written ≡ x.written)
        × (y.state.closed ≡ true)
  unfolding emit_event mark_closed announce_closed
  announce_closed_lem x =
      if_cases
        (λ (y : Inner S R).
          (y.pending ≡ x.pending)
          × (y.answered ≡ x.answered)
          × (y.written ≡ x.written)
          × (y.state.closed ≡ true))
        (is_closed x) x (emit_event (disconnect Error.closed) (mark_closed x))
        (λ shut. (refl, refl, refl, shut)) (λ _. (refl, refl, refl, refl))

  pub begin_rpc_closed :
      (sink : Sink) (body : ClientBody) (x : Inner S R)
      → x.state.closed ≡ true
      → ((begin_rpc sink body x).0 ≡ err Error.closed)
        × ((begin_rpc sink body x).1.written ≡ x.written)
        × ((begin_rpc sink body x).1.events ≡ x.events)
        × ((begin_rpc sink body x).1.state ≡ x.state)
  unfolding begin_rpc send_envelope
  begin_rpc_closed sink body x shut =
      let (id, y) = register x in
      if_cases
        (λ r.
          ((sent id r).0 ≡ err Error.closed)
          × ((sent id r).1.written ≡ x.written)
          × ((sent id r).1.events ≡ x.events)
          × ((sent id r).1.state ≡ x.state))
        (is_closed y) (err Error.closed, y) (write_to sink (request id body) y.writer y)
        (λ _. (refl, refl, refl, refl)) (λ running. absurd (cc (running, shut)))
