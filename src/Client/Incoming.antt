-- ===== src/Client/Incoming.antt =====
-- What the client does with each envelope from the server: `handle_server_envelope` of src/client.rs,
-- with `persist_message` and `expect_login`.
--
-- The conversions of src/mapping.rs and the frames' decoding come before: an envelope here carries
-- what the conversion of its content gave, a value or the error that `?` returns.
use turntf_rs.Prelude.{
  ℕ, ◌==◌, String, true, List, [], ◌∷◌, ◌++◌, Option, none, some, Result, ok, err, if◌then◌else◌,
  map_err,
}
use turntf_rs.Errors.{Error, Fallible, ServerError, unauthorized}
use turntf_rs.Types.{Message, cursor, Packet, LoginInfo, RelayAccepted}
use turntf_rs.Store.{CursorStore}
use turntf_rs.Client.Session.{
  Inner, RpcValue, ClientEvent, ack_message, emit_event, resolve_pending,
}
use turntf_rs.Client.Calls.{Sink, send_envelope}

-- `proto::send_message_response::Body`
pub data SendResponse : Type 0 where
  stored : Fallible Message → SendResponse
  transient_accepted : Fallible RelayAccepted → SendResponse
  nothing : SendResponse

-- `proto::server_envelope::Body`. `response` stands for the answers whose content is converted and
-- handed to the call, all in the same way.
pub data ServerEnvelope (R : Type 0) : Type 0 where
  message_pushed : Fallible Message → ServerEnvelope R
  packet_pushed : Fallible Packet → ServerEnvelope R
  send_message_response : ℕ → SendResponse → ServerEnvelope R
  pong : ℕ → ServerEnvelope R
  response : ℕ → Fallible R → ServerEnvelope R
  metrics_response : ℕ → String → ServerEnvelope R
  error : ServerError → ServerEnvelope R
  login_response : Fallible LoginInfo → ServerEnvelope R
  unsupported : ServerEnvelope R

-- The result of a handler, and the state that it leaves.
abbrev pub Step : Type 0 → Type 0 → Type 0
Step S R = Fallible (Unit {0}) × Inner S R

unfoldable pub as_record : {R : Type 0} → Fallible R → Fallible (RpcValue R)
as_record (err e) = err e
as_record (ok v) = ok (RpcValue.record_of v)

module _ {S R : Type 0} where
  -- An acknowledgement that cannot be written is reported, unless the client is not connected.
  unfoldable pub after_ack : Step S R → Inner S R
  after_ack (ok _, x) = x
  after_ack (err Error.not_connected, x) = x
  after_ack (err Error.closed, x) = x
  after_ack (err e, x) = emit_event (ClientEvent.error e) x

  -- A packet goes to the relay if its channel is set, and else to the application. The receiver of
  -- the channel is `Relay::start`'s task, which is taken to live.
  unfoldable pub push_to : Packet → Option (List Packet) → Inner S R → Inner S R
  push_to p none x = emit_event (ClientEvent.packet p) x
  push_to p (some ps) x = record x { relay_packet_tx = some (ps ++ p ∷ []) }

  unfoldable pub push_packet : Fallible Packet → Inner S R → Step S R
  unfolding push_to
  push_packet (err e) x = (err e, x)
  push_packet (ok p) x = (ok tt, push_to p x.relay_packet_tx x)

  -- A content that was converted resolves the call; `?` returns on one that was not.
  unfoldable pub resolve_with : ℕ → Fallible (RpcValue R) → Inner S R → Step S R
  resolve_with id (err e) x = (err e, x)
  resolve_with id (ok v) x = (ok tt, resolve_pending id (ok v) x)

  unfoldable pub server_error : ServerError → Inner S R → Step S R
  server_error e x =
      if e.request_id == 0
      then (err (Error.server e), x)
      else (ok tt, resolve_pending e.request_id (err (Error.server e)) x)

  unfoldable pub report : Step S R → Inner S R
  report (ok _, x) = x
  report (err e, x) = emit_event (ClientEvent.error e) x

  unfoldable pub refuse_login : ServerError → Inner S R → Fallible LoginInfo × Inner S R
  refuse_login e x = (
    err (Error.server e),
    if unauthorized e then record x { state = record (x.state) { stop_reconnect = true } } else x,
  )

  -- `expect_login`; its `try_lock` is taken to succeed.
  unfoldable pub expect_login : ServerEnvelope R → Inner S R → Fallible LoginInfo × Inner S R
  unfolding refuse_login
  expect_login (login_response info) x = (info, x)
  expect_login (error e) x = refuse_login e x
  expect_login _ x = (err (Error.protocol "expected login_response or error"), x)

module _ {S R : Type 0} (store : CursorStore S) (sink : Sink) where
  unfoldable pub save_cursor_of : Message → Result String (Unit {0}) × S → Inner S R → Step S R
  save_cursor_of m (err e, s) x = (err (Error.store "save_message" e), record x { store = s })
  save_cursor_of m (ok _, s) x =
      let (r, s') = store.save_cursor (cursor m) s in
      (map_err (Error.store "save_cursor") r, record x { store = s' })

  -- `persist_message`: the message, and then its cursor.
  unfoldable pub persist_message : Message → Inner S R → Step S R
  unfolding save_cursor_of
  persist_message m x = save_cursor_of m (store.save_message m x.store) x

  unfoldable pub acknowledge : Message → Inner S R → Inner S R
  unfolding after_ack
  acknowledge m x =
      if x.cfg.ack_messages then after_ack (send_envelope sink (ack_message (cursor m)) x) else x

  unfoldable pub after_persist : Message → Step S R → Step S R
  after_persist m (err e, x) = (err e, x)
  after_persist m (ok _, x) = (ok tt, emit_event (ClientEvent.message m) (acknowledge m x))

  unfoldable pub push_message : Fallible Message → Inner S R → Step S R
  unfolding after_persist
  push_message (err e) x = (err e, x)
  push_message (ok m) x = after_persist m (persist_message m x)

  unfoldable pub resolve_stored : ℕ → Message → Step S R → Step S R
  resolve_stored id m (r, x) =
      (ok tt, resolve_pending id (elim r [ ok _ ↦ ok (RpcValue.message m) | err e ↦ err e ]) x)

  unfoldable pub send_response : ℕ → SendResponse → Inner S R → Step S R
  unfolding resolve_stored
  send_response id (stored (err e)) x = (err e, x)
  send_response id (stored (ok m)) x = resolve_stored id m (persist_message m x)
  send_response id (transient_accepted (err e)) x = (err e, x)
  send_response id (transient_accepted (ok a)) x =
      (ok tt, resolve_pending id (ok (RpcValue.relay_accepted a)) x)
  send_response id nothing x =
      (ok tt, resolve_pending id (err (Error.protocol "empty send_message_response")) x)

  -- `handle_server_envelope`
  unfoldable pub handle_server_envelope : ServerEnvelope R → Inner S R → Step S R
  unfolding push_message push_packet send_response server_error as_record resolve_with
  handle_server_envelope (message_pushed m) x = push_message m x
  handle_server_envelope (packet_pushed p) x = push_packet p x
  handle_server_envelope (send_message_response id body) x = send_response id body x
  handle_server_envelope (pong id) x = (ok tt, resolve_pending id (ok RpcValue.unit) x)
  handle_server_envelope (response id content) x = resolve_with id (as_record content) x
  handle_server_envelope (metrics_response id text) x =
      (ok tt, resolve_pending id (ok (RpcValue.metrics text)) x)
  handle_server_envelope (error e) x = server_error e x
  handle_server_envelope (login_response _) x =
      (err (Error.protocol "unexpected login_response after authentication"), x)
  handle_server_envelope unsupported x = (err (Error.protocol "unsupported server envelope"), x)

  -- One round of `read_loop` on an envelope that was read.
  unfoldable pub read_one : ServerEnvelope R → Inner S R → Inner S R
  unfolding report
  read_one env x = report (handle_server_envelope env x)
