-- ===== src/Client/Shut.antt =====
-- What `handle_server_envelope` of src/client.rs does to a client that is closed.
use turntf_rs.Prelude.{
  ℕ, ◌≡◌, refl, ap, true, List, [], ◌∷◌, ◌++◌, Option, none, some, ok, err, if_cases, ◌==◌,
  ℕ_discrete,
}
use turntf_rs.Prelude.Dict.{lookup}
use turntf_rs.Errors.{Error, Fallible}
use turntf_rs.Types.{Message, Packet, cursor}
use turntf_rs.Store.{CursorStore}
use turntf_rs.Client.Session.{
  Inner, ClientEvent, ClientEnvelope, RpcValue, ack_message, answer, emit_event, resolve_pending,
  is_closed,
}
use turntf_rs.Client.Calls.{Sink, send_envelope, write_to}
use turntf_rs.Client.Incoming.{
  ServerEnvelope, Step, SendResponse, message_pushed, packet_pushed, send_message_response, pong,
  response, metrics_response, error, login_response, stored, transient_accepted, as_record,
  after_ack, push_to, push_packet, resolve_with, server_error, report, persist_message, acknowledge,
  after_persist, push_message, resolve_stored, send_response, handle_server_envelope,
}
use turntf_rs.Client.Delivery.{persist_message_lem}

module _ {S R : Type 0} (store : CursorStore S) (sink : Sink) where
  -- The client is closed, its event channel is gone, and `written` is what it wrote.
  abbrev pub IsShut : List ClientEnvelope → Inner S R → Type 0
  IsShut written x = (x.state.closed ≡ true) × (x.events ≡ none) × (x.written ≡ written)

  module _ (written : List ClientEnvelope) where
    pub emit_event-IsShut :
        (event : ClientEvent) (x : Inner S R)
        → IsShut written x
        → IsShut written (emit_event event x)
    unfolding emit_event
    emit_event-IsShut event x h = (
      h.0,
      ap
          (λ (o : Option (List ClientEvent)). elim o [
            | none ↦ none
            | some es ↦ some (es ++ event ∷ [])
          ])
          h.1,
      h.2,
    )

    send_envelope_lem :
        (env : ClientEnvelope) (x : Inner S R)
        → IsShut written x
        → send_envelope sink env x ≡ (err Error.closed, x)
    unfolding send_envelope
    send_envelope_lem env x h =
        if_cases (λ r. r ≡ (err Error.closed, x)) (is_closed x) (err Error.closed, x)
          (write_to sink env x.writer x) (λ _. refl) (λ running. absurd (cc (running, h.0)))

    acknowledge-IsShut :
        (m : Message) (x : Inner S R)
        → IsShut written x
        → IsShut written (acknowledge store sink m x)
    unfolding acknowledge after_ack
    acknowledge-IsShut m x h =
        if_cases (IsShut written) x.cfg.ack_messages
          (after_ack (send_envelope sink (ack_message (cursor m)) x)) x
          (λ _. rw (send_envelope_lem (ack_message (cursor m)) x h) h) (λ _. h)

    persist_message-IsShut :
        (m : Message) (x : Inner S R)
        → IsShut written x
        → IsShut written (persist_message store sink m x).1
    persist_message-IsShut m x h = rw (persist_message_lem store sink m x) h

    after_persist-IsShut :
        (m : Message) (p : Step S R)
        → IsShut written p.1
        → IsShut written (after_persist store sink m p).1
    unfolding after_persist
    after_persist-IsShut m (err e, x) h = h
    after_persist-IsShut m (ok _, x) h =
        emit_event-IsShut (ClientEvent.message m) (acknowledge store sink m x)
          (acknowledge-IsShut m x h)

    resolve_pending-IsShut :
        (id : ℕ) (r : Fallible (RpcValue R)) (x : Inner S R)
        → IsShut written x
        → IsShut written (resolve_pending id r x)
    unfolding resolve_pending
    resolve_pending-IsShut id r x h = go (lookup ℕ_discrete id x.pending)
      where
        go : (o : Option ℕ) → IsShut written (answer id r o x)
        go none = unfold answer in h
        go (some call) = unfold answer in h

    push_to-IsShut :
        (p : Packet) (o : Option (List Packet)) (x : Inner S R)
        → IsShut written x
        → IsShut written (push_to p o x)
    unfolding push_to
    push_to-IsShut p none x h = emit_event-IsShut (ClientEvent.packet p) x h
    push_to-IsShut p (some ps) x h = h

    send_response-IsShut :
        (id : ℕ) (body : SendResponse) (x : Inner S R)
        → IsShut written x
        → IsShut written (send_response store sink id body x).1
    unfolding send_response resolve_stored
    send_response-IsShut id (stored (err e)) x h = h
    send_response-IsShut id (stored (ok m)) x h =
        resolve_pending-IsShut id _ _ (persist_message-IsShut m x h)
    send_response-IsShut id (transient_accepted (err e)) x h = h
    send_response-IsShut id (transient_accepted (ok a)) x h = resolve_pending-IsShut id _ x h
    send_response-IsShut id SendResponse.nothing x h = resolve_pending-IsShut id _ x h

    resolve_with-IsShut :
        (id : ℕ) (r : Fallible (RpcValue R)) (x : Inner S R)
        → IsShut written x
        → IsShut written (resolve_with id r x).1
    unfolding resolve_with
    resolve_with-IsShut id (err e) x h = h
    resolve_with-IsShut id (ok v) x h = resolve_pending-IsShut id (ok v) x h

    pub handle-IsShut :
        (env : ServerEnvelope R) (x : Inner S R)
        → IsShut written x
        → IsShut written (handle_server_envelope store sink env x).1
    unfolding handle_server_envelope push_message push_packet server_error
    handle-IsShut (message_pushed (err e)) x h = h
    handle-IsShut (message_pushed (ok m)) x h =
        after_persist-IsShut m (persist_message store sink m x) (persist_message-IsShut m x h)
    handle-IsShut (packet_pushed (err e)) x h = h
    handle-IsShut (packet_pushed (ok p)) x h = push_to-IsShut p x.relay_packet_tx x h
    handle-IsShut (send_message_response id body) x h = send_response-IsShut id body x h
    handle-IsShut (pong id) x h = resolve_pending-IsShut id _ x h
    handle-IsShut (response id content) x h = resolve_with-IsShut id (as_record content) x h
    handle-IsShut (metrics_response id text) x h = resolve_pending-IsShut id _ x h
    handle-IsShut (error e) x h =
        if_cases (λ (r : Step S R). IsShut written r.1) (e.request_id == 0)
          (err (Error.server e), x) (ok tt, resolve_pending e.request_id (err (Error.server e)) x)
          (λ _. h) (λ _. resolve_pending-IsShut e.request_id _ x h)
    handle-IsShut (login_response _) x h = h
    handle-IsShut ServerEnvelope.unsupported x h = h

    pub report-IsShut : (p : Step S R) → IsShut written p.1 → IsShut written (report p)
    unfolding report
    report-IsShut (ok _, x) h = h
    report-IsShut (err e, x) h = emit_event-IsShut (ClientEvent.error e) x h
