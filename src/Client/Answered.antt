-- ===== src/Client/Answered.antt =====
-- A typed call of src/client.rs from its request to what it returns.
use turntf_rs.Prelude.{
  ℕ, String, List, ◌≡◌, ◌/◌, refl, ap, false, err, [], ◌∷◌, ◌++◌, Option, none, some, ok,
  ℕ_discrete,
}
use turntf_rs.Prelude.Dict.{lookup, lookup-insert_self, lookup-remove_self}
use Prim.Native.String.{◌++◌ as ◌⧺◌}
use turntf_rs.Errors.{protocol, connection, show}
use turntf_rs.Mapping.{
  user_from_proto, user_metadata_from_proto, attachment_from_proto, operations_status_from_proto,
}
use turntf_rs.Types.{Json, Message, RelayAccepted, cursor}
use turntf_rs.Proto.{ClientBody}
use turntf_rs.Store.{CursorStore}
use turntf_rs.Client.Session.{
  Inner, ClientEvent, RpcValue, request, unit, message, relay_accepted, metrics, record_of,
  resolve_pending, answer, emit_event,
}
use turntf_rs.Client.Calls.{
  Sink, received, timed_out, begin_rpc, end_rpc, register, send_envelope, write_to, written_by,
  sent, result_of,
}
use turntf_rs.Client.Incoming.{
  ServerEnvelope, response, pong, metrics_response, send_message_response, stored,
  transient_accepted, read_one, report, handle_server_envelope, resolve_with, as_record,
  send_response, resolve_stored, persist_message, save_cursor_of,
}
use turntf_rs.Client.Answers.{
  Answer, ServerBody, read_envelope, read_body, answered_by, create_user_response,
  get_user_response, update_user_response, get_user_metadata_response,
  upsert_user_metadata_response, delete_user_metadata_response, upsert_user_attachment_response,
  delete_user_attachment_response, operations_status_response,
}
use turntf_rs.Client.Call.{Call, start, begin_call, end_call, taken}

module _ {S : Type 0} {J : Json} {A : Type 0} (sink : Sink) (call : Call J A) where
  -- The request of the call is written and waits under its id.
  begin_call_lem :
      (body : ClientBody) (w : ℕ) (x : Inner S (Answer J))
      → call.request ≡ ok body
      → x.state.closed ≡ false
      → x.writer ≡ some w
      → sink x.written (request (register x).0 body) ≡ none
      → begin_call call sink x ≡ (
        ok (register x).0,
        record ((register x).1) { written = x.written ++ request (register x).0 body ∷ [] },
      )
  unfolding begin_call start begin_rpc send_envelope write_to written_by sent register
  begin_call_lem body w x e running connected written = rw (e, running, connected, written) refl

-- The envelope answers the request `id` with the value: the content of an answer, and for
-- a message that was sent, one that the store takes from the state `s`.
pub data Brings {S R : Type 0} (store : CursorStore S) (s : S) (id : ℕ)
    : ServerEnvelope R → RpcValue R → Type 0 where
  converted : (v : R) → Brings store s id (response id (ok v)) (record_of v)
  ponged : Brings store s id (pong id) unit
  measured : (text : String) → Brings store s id (metrics_response id text) (metrics text)
  accepted :
      (a : RelayAccepted)
      → Brings store s id (send_message_response id (transient_accepted (ok a))) (relay_accepted a)
  persisted :
      (m : Message) (saved done : S)
      → store.save_message m s ≡ (ok tt, saved)
      → store.save_cursor (cursor m) saved ≡ (ok tt, done)
      → Brings store s id (send_message_response id (stored (ok m))) (message m)

module _ {S : Type 0} {J : Json} (store : CursorStore S) (sink : Sink) where
  resolve_lem :
      (id waiting : ℕ) (v : RpcValue (Answer J)) (y : Inner S (Answer J))
      → lookup ℕ_discrete id y.pending ≡ some waiting
      → let z = resolve_pending id (ok v) y in
        (z.answered ≡ y.answered ++ (waiting, ok v) ∷ []) × (lookup ℕ_discrete id z.pending ≡ none)
  unfolding resolve_pending answer
  resolve_lem id waiting v y e = rw (e, lookup-remove_self ℕ_discrete id y.pending) (refl, refl)

  -- An answer reaches the call that waits for it.
  read_answer_lem :
      (id waiting : ℕ) (env : ServerEnvelope (Answer J)) (v : RpcValue (Answer J))
      (y : Inner S (Answer J))
      → Brings store y.store id env v
      → lookup ℕ_discrete id y.pending ≡ some waiting
      → let z = read_one store sink env y in
        (z.answered ≡ y.answered ++ (waiting, ok v) ∷ []) × (lookup ℕ_discrete id z.pending ≡ none)
  unfolding read_one report handle_server_envelope resolve_with as_record send_response
      resolve_stored persist_message save_cursor_of
  read_answer_lem id waiting _ _ y (converted v) e = resolve_lem id waiting (record_of v) y e
  read_answer_lem id waiting _ _ y ponged e = resolve_lem id waiting unit y e
  read_answer_lem id waiting _ _ y (measured text) e = resolve_lem id waiting (metrics text) y e
  read_answer_lem id waiting _ _ y (accepted a) e = resolve_lem id waiting (relay_accepted a) y e
  read_answer_lem id waiting _ _ y (persisted m saved done kept listed) e =
      rw (kept, listed) (resolve_lem id waiting (message m) (record y { store = done }) e)

  -- Let the checks of a call pass, the client be connected and not closed, and the write succeed. When
  -- the server then answers the request's id with a value of the variant that the call takes, whose
  -- content is converted and, if it is a message, stored: the call receives this answer and no other,
  -- nothing waits under the id any more, and the call returns the content.
  pub call_returns :
      {A : Type 0} (call : Call J A) (body : ClientBody) (w : ℕ) (v : RpcValue (Answer J)) (a : A)
      (env : Option ServerBody) (x : Inner S (Answer J))
      → call.request ≡ ok body
      → x.state.closed ≡ false
      → x.writer ≡ some w
      → sink x.written (request (register x).0 body) ≡ none
      → Brings store x.store (register x).0 (read_envelope env) v
      → call.answer_of v ≡ some a
      → let (started, y) = begin_call call sink x in
        let z = read_one store sink (read_envelope env) y in
        (started ≡ ok (register x).0)
        × (z.answered ≡ x.answered ++ (x.calls, ok v) ∷ [])
        × (lookup ℕ_discrete (register x).0 z.pending ≡ none)
        × ((end_call call (register x).0 (received (ok v)) z).0 ≡ ok a)
  unfolding end_call taken end_rpc result_of register
  call_returns call body w v a env x e running connected written brings fits =
      let sent_lem = begin_call_lem sink call body w x e running connected written in
      let y = record ((register x).1) { written = x.written ++ request (register x).0 body ∷ [] } in
      let got =
        read_answer_lem (register x).0 x.calls (read_envelope env) v y brings
          (lookup-insert_self ℕ_discrete _ x.calls x.pending) in
      rw (sent_lem, fits) (refl, got.0, got.1, refl)

-- The answer to the request `id` lacks the content that it should have.
pub data LacksContent (id : ℕ) : ServerBody → Type 0 where
  no_created_user : LacksContent id (create_user_response id none)
  no_user : LacksContent id (get_user_response id none)
  no_updated_user : LacksContent id (update_user_response id none)
  no_metadata : LacksContent id (get_user_metadata_response id none)
  no_upserted_metadata : LacksContent id (upsert_user_metadata_response id none)
  no_deleted_metadata : LacksContent id (delete_user_metadata_response id none)
  no_upserted_attachment : LacksContent id (upsert_user_attachment_response id none)
  no_deleted_attachment : LacksContent id (delete_user_attachment_response id none)
  no_status : LacksContent id (operations_status_response id none)

module _ {S : Type 0} {J : Json} (store : CursorStore S) (sink : Sink) where
  emit_lem :
      (event : ClientEvent) (es : List ClientEvent) (x : Inner S (Answer J))
      → x.events ≡ some es
      → emit_event event x ≡ record x { events = some (es ++ event ∷ []) }
  unfolding emit_event
  emit_lem event es x shown =
      ap
        (λ (o : Option (List ClientEvent)). record x {
          events = elim o [ none ↦ none | some es ↦ some (es ++ event ∷ []) ];
        })
        shown

  -- What the read loop makes of the answer: an event, with nothing else changed.
  abbrev pub Reported : ServerBody → List ClientEvent → Inner S (Answer J) → Type 0
  Reported body es x =
      (text : String) × (read_one store sink (read_envelope (some body)) x
        ≡ record x { events = some (es ++ ClientEvent.error (protocol text) ∷ []) })

  lacking-Reported :
      (id : ℕ) (body : ServerBody) (es : List ClientEvent) (x : Inner S (Answer J))
      → LacksContent id body
      → x.events ≡ some es
      → Reported body es x
  unfolding read_one report handle_server_envelope resolve_with as_record read_envelope read_body
      answered_by user_from_proto user_metadata_from_proto attachment_from_proto
      operations_status_from_proto
  lacking-Reported id _ es x no_created_user shown = (_, emit_lem _ es x shown)
  lacking-Reported id _ es x no_user shown = (_, emit_lem _ es x shown)
  lacking-Reported id _ es x no_updated_user shown = (_, emit_lem _ es x shown)
  lacking-Reported id _ es x no_metadata shown = (_, emit_lem _ es x shown)
  lacking-Reported id _ es x no_upserted_metadata shown = (_, emit_lem _ es x shown)
  lacking-Reported id _ es x no_deleted_metadata shown = (_, emit_lem _ es x shown)
  lacking-Reported id _ es x no_upserted_attachment shown = (_, emit_lem _ es x shown)
  lacking-Reported id _ es x no_deleted_attachment shown = (_, emit_lem _ es x shown)
  lacking-Reported id _ es x no_status shown = (_, emit_lem _ es x shown)

  -- Let the answer to a request lack the content that it should have. It is reported as a protocol
  -- error to the application, and nothing else changes: the call that waits under the id goes on
  -- waiting, and fails by its timeout.
  pub unreadable_unanswered :
      {A : Type 0} (call : Call J A) (id : ℕ) (body : ServerBody) (es : List ClientEvent)
      (x : Inner S (Answer J))
      → LacksContent id body
      → x.events ≡ some es
      → let y = read_one store sink (read_envelope (some body)) x in
        Reported body es x
        × ((end_call call id timed_out y).0
            ≡ err (
                connection
                  ("request " ⧺ show id)
                  ("timed out after " ⧺ show (x.cfg.request_timeout / 1000000) ⧺ "ms")))
  unfolding end_call taken end_rpc result_of
  unreadable_unanswered call id body es x lacks shown =
      let told = lacking-Reported id body es x lacks shown in
      (told, ap (λ (y : Inner S (Answer J)). (end_call call id timed_out y).0) told.1)
