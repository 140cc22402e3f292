-- ===== src/Client/Closing.antt =====
-- What can still happen in the client of src/client.rs once it is closed.
use turntf_rs.Prelude.{
  ℕ, ◌≡◌, refl, ap, ◌∙◌, true, false, List, [], ◌∷◌, ◌++◌, map, Option, none, some, ok, err, Bool,
  if_cases,
}
use turntf_rs.Errors.{Error, Fallible, unauthorized}
use turntf_rs.Types.{Packet, LoginInfo}
use turntf_rs.Proto.{ClientBody}
use turntf_rs.Store.{CursorStore}
use turntf_rs.Client.Session.{
  Inner, ClientEvent, ClientEnvelope, emit_event, fail_all_pending, set_connected,
  set_terminal_error, set_relay_packet_tx, clear_writer, ensure_started, close, is_closed,
}
use turntf_rs.Client.Calls.{
  Sink, Outcome, begin_rpc, end_rpc, begin_rpc_closed, announce_closed_lem,
}
use turntf_rs.Client.Incoming.{
  ServerEnvelope, error, refuse_login, expect_login, handle_server_envelope, read_one,
}
use turntf_rs.Client.Shut.{IsShut, emit_event-IsShut, handle-IsShut, report-IsShut}
use turntf_rs.Client.Run.{
  should_retry, next_delay, after_ok, stop, run_step, begin_session, end_session,
}

-- What the tasks of the client and the calls of its users do, one part after the other.
pub data Activity (R : Type 0) : Type 0 where
  ensures_started : Bool → Activity R
  begins_rpc : ClientBody → Activity R
  ends_rpc : ℕ → Outcome R → Activity R
  reads : ServerEnvelope R → Activity R
  expects_login : ServerEnvelope R → Activity R
  begins_session : LoginInfo → Activity R
  ends_session : ℕ → Fallible (Unit {0}) → Activity R
  ends_round : Fallible (Unit {0}) → ℕ → Activity R
  shows : ClientEvent → Activity R
  routes_packets : Option (List Packet) → Activity R
  closes : Activity R

module _ {S R : Type 0} (store : CursorStore S) (sink : Sink) where
  pub activity : Activity R → Inner S R → Inner S R
  activity (ensures_started running) x = ensure_started running x
  activity (begins_rpc body) x = (begin_rpc sink body x).1
  activity (ends_rpc id outcome) x = (end_rpc id outcome x).1
  activity (reads env) x = read_one store sink env x
  activity (expects_login env) x = (expect_login env x).1
  activity (begins_session info) x = (begin_session info x).1
  activity (ends_session id result) x = end_session id result x
  activity (ends_round result delay) x = (run_step result delay x).1
  activity (shows event) x = emit_event event x
  activity (routes_packets tx) x = set_relay_packet_tx tx x
  activity closes x = close x

  pub activities : List (Activity R) → Inner S R → Inner S R
  unfolding activity
  activities [] x = x
  activities (a ∷ later) x = activities later (activity a x)

  module _ (written : List ClientEnvelope) where
    expect_login-IsShut :
        (env : ServerEnvelope R) (x : Inner S R)
        → IsShut store sink written x
        → IsShut store sink written (expect_login env x).1
    unfolding expect_login refuse_login
    expect_login-IsShut (error e) x h =
        if_cases (IsShut store sink written) (unauthorized e)
          (record x { state = record (x.state) { stop_reconnect = true } }) x (λ _. h) (λ _. h)
    expect_login-IsShut _ x h = h

    ensure_started-IsShut :
        (running : Bool) (x : Inner S R)
        → IsShut store sink written x
        → IsShut store sink written (ensure_started running x)
    unfolding ensure_started
    ensure_started-IsShut true x h = h
    ensure_started-IsShut false x h = h

    begin_session-IsShut :
        (info : LoginInfo) (x : Inner S R)
        → IsShut store sink written x
        → IsShut store sink written (begin_session info x).1
    unfolding begin_session set_connected
    begin_session-IsShut info x h =
        emit_event-IsShut store sink written (ClientEvent.login info) _ h

    end_session-IsShut :
        (id : ℕ) (result : Fallible (Unit {0})) (x : Inner S R)
        → IsShut store sink written x
        → IsShut store sink written (end_session id result x)
    unfolding end_session fail_all_pending clear_writer set_connected
    end_session-IsShut id result x h =
        let y = clear_writer id (set_connected false x) in
        if_cases (IsShut store sink written) (is_closed y) y _ (λ _. h)
          (λ _. emit_event-IsShut store sink written _ (fail_all_pending Error.disconnected y) h)

    run_step-IsShut :
        (result : Fallible (Unit {0})) (delay : ℕ) (x : Inner S R)
        → IsShut store sink written x
        → IsShut store sink written (run_step result delay x).1
    unfolding run_step after_ok stop set_terminal_error fail_all_pending
    run_step-IsShut (ok _) delay x h =
        if_cases (λ (p : Option ℕ × Inner S R). IsShut store sink written p.1) (is_closed x)
          (none, set_terminal_error Error.closed x) (some x.cfg.initial_reconnect_delay, x) (λ _. h)
          (λ _. h)
    run_step-IsShut (err e) delay x h =
        if_cases (λ (p : Option ℕ × Inner S R). IsShut store sink written p.1) (should_retry e x)
          (some (next_delay x.cfg.max_reconnect_delay delay), emit_event (ClientEvent.error e) x)
          (none, stop e x) (λ _. emit_event-IsShut store sink written (ClientEvent.error e) x h)
          (λ _. h)

    close-IsShut :
        (x : Inner S R) → IsShut store sink written x → IsShut store sink written (close x)
    unfolding close
    close-IsShut x h = let told = announce_closed_lem x in (told.3, refl, told.2 ∙ h.2)

    activity-IsShut :
        (a : Activity R) (x : Inner S R)
        → IsShut store sink written x
        → IsShut store sink written (activity a x)
    unfolding activity read_one end_rpc set_relay_packet_tx
    activity-IsShut (ensures_started running) x h = ensure_started-IsShut running x h
    activity-IsShut (begins_rpc body) x h =
        let refused = begin_rpc_closed sink body x h.0 in
        (ap (λ s. s.closed) refused.3 ∙ h.0, refused.2 ∙ h.1, refused.1 ∙ h.2)
    activity-IsShut (ends_rpc id outcome) x h = h
    activity-IsShut (reads env) x h =
        report-IsShut store sink written (handle_server_envelope store sink env x)
          (handle-IsShut store sink written env x h)
    activity-IsShut (expects_login env) x h = expect_login-IsShut env x h
    activity-IsShut (begins_session info) x h = begin_session-IsShut info x h
    activity-IsShut (ends_session id result) x h = end_session-IsShut id result x h
    activity-IsShut (ends_round result delay) x h = run_step-IsShut result delay x h
    activity-IsShut (shows event) x h = emit_event-IsShut store sink written event x h
    activity-IsShut (routes_packets tx) x h = h
    activity-IsShut closes x h = close-IsShut x h

    activities-IsShut :
        (later : List (Activity R)) (x : Inner S R)
        → IsShut store sink written x
        → IsShut store sink written (activities later x)
    unfolding activities
    activities-IsShut [] x h = h
    activities-IsShut (a ∷ later) x h =
        activities-IsShut later (activity a x) (activity-IsShut a x h)

  -- After `close` no call waits; each call that waited has received the error that the client is
  -- closed, once; the event channel and the writer are gone. And whatever the tasks of the client and
  -- its users do from then on, in any order, the client stays closed and without an event channel,
  -- its session writes nothing, and every call of `rpc` fails with that error.
  pub close_is_final :
      (body : ClientBody) (later : List (Activity R)) (x : Inner S R)
      → let y = close x in
        let z = activities later y in
        (y.pending ≡ [])
        × (y.answered ≡ x.answered ++ map (λ (id, call). (call, err Error.closed)) x.pending)
        × (y.writer ≡ none)
        × (z.state.closed ≡ true)
        × (z.events ≡ none)
        × (z.written ≡ x.written)
        × ((begin_rpc sink body z).0 ≡ err Error.closed)
        × ((begin_rpc sink body z).1.written ≡ x.written)
  unfolding close fail_all_pending
  close_is_final body later x =
      let told = announce_closed_lem x in
      let kept = activities-IsShut x.written later (close x) (told.3, refl, told.2) in
      let refused = begin_rpc_closed sink body (activities later (close x)) kept.0 in
      (
        refl,
        (λ i. told.1 i ++ map (λ (id, call). (call, err Error.closed)) (told.0 i)),
        refl,
        kept.0,
        kept.1,
        kept.2,
        refused.0,
        refused.1 ∙ kept.2,
      )
