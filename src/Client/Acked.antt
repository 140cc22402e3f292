-- ===== src/Client/Acked.antt =====
-- Acknowledgements and the cursor store in memory, over a whole session of src/client.rs.
use turntf_rs.Prelude.{
  ℕ, ◌==◌, ◌≡◌, true, List, [], ◌∷◌, ◌++◌, Option, none, some, ok, err, if_cases, All, All-append,
  ℕ_discrete, String,
}
use turntf_rs.Prelude.Dict.{lookup}
use turntf_rs.Errors.{Error, Fallible}
use turntf_rs.Types.{Message, cursor, Packet}
use turntf_rs.Store.Memory.{MemoryCursorStore, contains, save_message, save_cursor, memory}
use turntf_rs.Store.Seen.{persisted_is_seen, contains-append_old}
use turntf_rs.Client.Session.{
  Inner, RpcValue, ClientEnvelope, ack_message, request, emit_event, resolve_pending, answer,
  is_closed,
}
use turntf_rs.Client.Calls.{Sink, send_envelope, write_to, written_by}
use turntf_rs.Client.Incoming.{
  ServerEnvelope, message_pushed, packet_pushed, send_message_response, pong, response,
  metrics_response, error, stored, transient_accepted, nothing, SendResponse, Step, persist_message,
  after_ack, acknowledge, push_message, push_to, push_packet, resolve_with, send_response,
  server_error, as_record, handle_server_envelope, report, read_one,
}

-- An acknowledgement is backed by the store: its cursor is one that the store lists as seen.
abbrev pub IsBacked : MemoryCursorStore → ClientEnvelope → Type 0
IsBacked s (ack_message c) = contains c s.order ≡ true
IsBacked s (request id body) = Unit {0}

-- The store after a message and its cursor.
abbrev pub persisted : Message → MemoryCursorStore → MemoryCursorStore
persisted m s = save_cursor (cursor m) (save_message m s)

persisted-IsBacked :
    (m : Message) (s : MemoryCursorStore) (env : ClientEnvelope)
    → IsBacked s env
    → IsBacked (persisted m s) env
unfolding save_cursor save_message
persisted-IsBacked m s (request id body) h = tt
persisted-IsBacked m s (ack_message c) h =
    if_cases (λ cs. contains c cs ≡ true) (contains (cursor m) s.order) s.order
      (s.order ++ cursor m ∷ []) (λ _. h) (λ _. contains-append_old c (cursor m) s.order h)

persisted-All :
    (m : Message) (s : MemoryCursorStore) (envs : List ClientEnvelope)
    → All (IsBacked s) envs
    → All (IsBacked (persisted m s)) envs
persisted-All m s [] h = tt
persisted-All m s (env ∷ envs) h = (persisted-IsBacked m s env h.0, persisted-All m s envs h.1)

module _ {R : Type 0} where
  -- Every acknowledgement that the client has written is backed by its store.
  abbrev pub IsAcked : Inner MemoryCursorStore R → Type 0
  IsAcked x = All (IsBacked x.store) x.written

  resolve_pending-IsAcked :
      (id : ℕ) (r : Fallible (RpcValue R)) (x : Inner MemoryCursorStore R)
      → IsAcked x
      → IsAcked (resolve_pending id r x)
  unfolding resolve_pending
  resolve_pending-IsAcked id r x h = go (lookup ℕ_discrete id x.pending)
    where
      go : (o : Option ℕ) → IsAcked (answer id r o x)
      go none = unfold answer in h
      go (some call) = unfold answer in h

  after_ack-IsAcked : (p : Step MemoryCursorStore R) → IsAcked p.1 → IsAcked (after_ack p)
  unfolding after_ack emit_event
  after_ack-IsAcked (ok _, x) h = h
  after_ack-IsAcked (err Error.not_connected, x) h = h
  after_ack-IsAcked (err Error.closed, x) h = h
  after_ack-IsAcked (err _, x) h = h

  push_to-IsAcked :
      (p : Packet) (o : Option (List Packet)) (x : Inner MemoryCursorStore R)
      → IsAcked x
      → IsAcked (push_to p o x)
  unfolding push_to emit_event
  push_to-IsAcked p none x h = h
  push_to-IsAcked p (some ps) x h = h

module _ {R : Type 0} (sink : Sink) where
  write-IsAcked :
      (env : ClientEnvelope) (w : Option ℕ) (x : Inner MemoryCursorStore R)
      → IsBacked x.store env
      → IsAcked x
      → IsAcked (write_to sink env w x).1
  unfolding write_to
  write-IsAcked env none x b h = h
  write-IsAcked env (some _) x b h = go (sink x.written env)
    where
      go : (o : Option String) → IsAcked (written_by o env x).1
      go (some cause) = unfold written_by in h
      go none = unfold written_by in All-append (IsBacked x.store) x.written (env ∷ []) h (b, tt)

  acknowledge-IsAcked :
      (m : Message) (x : Inner MemoryCursorStore R)
      → IsBacked x.store (ack_message (cursor m))
      → IsAcked x
      → IsAcked (acknowledge memory sink m x)
  unfolding acknowledge send_envelope
  acknowledge-IsAcked m x b h =
      let env = ack_message (cursor m) in
      if_cases IsAcked x.cfg.ack_messages (after_ack (send_envelope sink env x)) x
        (λ _. after_ack-IsAcked (send_envelope sink env x) (
          if_cases (λ (p : Step MemoryCursorStore R). IsAcked p.1) (is_closed x)
            (err Error.closed, x) (write_to sink env x.writer x) (λ _. h)
            (λ _. write-IsAcked env x.writer x b h)))
        (λ _. h)

  push_message-IsAcked :
      (m : Fallible Message) (x : Inner MemoryCursorStore R)
      → IsAcked x
      → IsAcked (push_message memory sink m x).1
  unfolding push_message persist_message emit_event
  push_message-IsAcked (err e) x h = h
  push_message-IsAcked (ok m) x h =
      acknowledge-IsAcked m (record x { store = persisted m x.store })
        (persisted_is_seen m x.store).1 (persisted-All m x.store x.written h)

  send_response-IsAcked :
      (id : ℕ) (body : SendResponse) (x : Inner MemoryCursorStore R)
      → IsAcked x
      → IsAcked (send_response memory sink id body x).1
  unfolding send_response persist_message
  send_response-IsAcked id (stored (err e)) x h = h
  send_response-IsAcked id (stored (ok m)) x h =
      resolve_pending-IsAcked id (ok (RpcValue.message m))
        (record x { store = persisted m x.store }) (persisted-All m x.store x.written h)
  send_response-IsAcked id (transient_accepted (err e)) x h = h
  send_response-IsAcked id (transient_accepted (ok a)) x h =
      resolve_pending-IsAcked id (ok (RpcValue.relay_accepted a)) x h
  send_response-IsAcked id nothing x h =
      resolve_pending-IsAcked id (err (Error.protocol "empty send_message_response")) x h

  handle-IsAcked :
      (env : ServerEnvelope R) (x : Inner MemoryCursorStore R)
      → IsAcked x
      → IsAcked (handle_server_envelope memory sink env x).1
  unfolding handle_server_envelope push_packet server_error resolve_with as_record
  handle-IsAcked (message_pushed m) x h = push_message-IsAcked m x h
  handle-IsAcked (packet_pushed (err e)) x h = h
  handle-IsAcked (packet_pushed (ok p)) x h = push_to-IsAcked p x.relay_packet_tx x h
  handle-IsAcked (send_message_response id body) x h = send_response-IsAcked id body x h
  handle-IsAcked (pong id) x h = resolve_pending-IsAcked id (ok RpcValue.unit) x h
  handle-IsAcked (response id (err e)) x h = h
  handle-IsAcked (response id (ok v)) x h =
      resolve_pending-IsAcked id (ok (RpcValue.record_of v)) x h
  handle-IsAcked (metrics_response id text) x h =
      resolve_pending-IsAcked id (ok (RpcValue.metrics text)) x h
  handle-IsAcked (error e) x h =
      if_cases (λ (p : Step MemoryCursorStore R). IsAcked p.1) (e.request_id == 0)
        (err (Error.server e), x) (ok tt, resolve_pending e.request_id (err (Error.server e)) x)
        (λ _. h) (λ _. resolve_pending-IsAcked e.request_id (err (Error.server e)) x h)
  handle-IsAcked _ x h = h

  report-IsAcked : (p : Step MemoryCursorStore R) → IsAcked p.1 → IsAcked (report p)
  unfolding report emit_event
  report-IsAcked (ok _, x) h = h
  report-IsAcked (err _, x) h = h

  -- The envelopes of a session, read one after the other.
  pub read_all : List (ServerEnvelope R) → Inner MemoryCursorStore R → Inner MemoryCursorStore R
  unfolding read_one
  read_all [] x = x
  read_all (env ∷ envs) x = read_all envs (read_one memory sink env x)

  -- With the store in memory, whatever the server sends in a session and whichever writes fail,
  -- every acknowledgement that the client writes is of a message whose cursor the store lists as
  -- seen, so that the next login reports it, if that held when the session began.
  pub read_all-IsAcked :
      (envs : List (ServerEnvelope R)) (x : Inner MemoryCursorStore R)
      → IsAcked x
      → IsAcked (read_all envs x)
  unfolding read_all
  read_all-IsAcked [] x h = h
  read_all-IsAcked (env ∷ envs) x h =
      read_all-IsAcked envs (read_one memory sink env x)
        (report-IsAcked (handle_server_envelope memory sink env x) (handle-IsAcked env x h))
