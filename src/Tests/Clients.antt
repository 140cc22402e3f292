-- ===== src/Tests/Clients.antt =====
-- The theorems on src/client.rs and src/store.rs at concrete clients and stores.
use turntf_rs.Prelude.{
  ℕ, suc, pos, ◌≡◌, ◌≢◌, refl, true, false, List, [], ◌∷◌, ◌++◌, none, some, ok, err, min, arith,
  ℕ_discrete, inr,
}
use turntf_rs.Prelude.Dict.{lookup, insert, lookup-insert_self}
use turntf_rs.Errors.{Error}
use turntf_rs.Types.{
  MessageCursor-discrete, Message, MessageCursor, cursor, LoginInfo, User, hashed,
}
use turntf_rs.Store.{CursorStore}
use turntf_rs.Store.Memory.{
  MemoryCursorStore, new_store, message, contains, save_message, save_cursor, memory,
}
use turntf_rs.Store.Seen.{
  of_message, of_cursor, serve, IsSound, seen-IsSound, persisted_is_seen, save_cursor_keeps,
}
use turntf_rs.Proto
use turntf_rs.Client.Start.{new_config}
use turntf_rs.Client.Session.{
  Inner, RpcValue, ClientEvent, ack_message, resolve_pending, close, poll_connect,
}
use turntf_rs.Client.Calls.{
  Sink, send_envelope, begin_rpc, register, answered_once, begin_rpc_failed,
}
use turntf_rs.Client.Closing.{
  Activity, ensures_started, begins_rpc, reads, activities, close_is_final,
}
use turntf_rs.Client.Incoming.{
  pong, persist_message, message_pushed, login_response, handle_server_envelope,
}
use turntf_rs.Client.Run.{run_step, connect_and_serve}
use turntf_rs.Client.Retry.{delay_after, doubled, backoff, terminal_error_reported, serve_never_ok}
use turntf_rs.Client.Acked.{IsAcked, read_all, read_all-IsAcked}
use turntf_rs.Client.Delivery.{persisted_acknowledged}
use turntf_rs.Tests.Fixtures.{peer, near}

abbrev letter : Message
letter = record {
  recipient = peer;
  node_id = pos 1;
  seq = pos 5;
  sender = peer;
  body = 104 ∷ 105 ∷ [];
  created_at_hlc = "hlc";
}

abbrev other_cursor : MessageCursor
other_cursor = record { node_id = pos 1; seq = pos 6 }

seen-IsSound_example : IsSound (
    serve
      (of_message letter ∷ of_cursor (cursor letter) ∷ of_cursor (cursor letter) ∷ [])
      new_store)
seen-IsSound_example =
    seen-IsSound (of_message letter ∷ of_cursor (cursor letter) ∷ of_cursor (cursor letter) ∷ [])

persisted_is_seen_example :
    let s' = save_cursor (cursor letter) (save_message letter new_store) in
    (message (cursor letter) s' ≡ some letter) × (contains (cursor letter) s'.order ≡ true)
persisted_is_seen_example = persisted_is_seen letter new_store

abbrev with_letter : MemoryCursorStore
with_letter = record { messages = (cursor letter, letter) ∷ []; order = [] }

letter_found : message (cursor letter) with_letter ≡ some letter
unfolding message insert
letter_found = lookup-insert_self MessageCursor-discrete (cursor letter) letter []

save_cursor_keeps_example :
    message (cursor letter) (save_cursor other_cursor with_letter) ≡ some letter
save_cursor_keeps_example =
    save_cursor_keeps (cursor letter) other_cursor letter with_letter letter_found

-- A connected client with two calls that wait.
abbrev pub client : Inner MemoryCursorStore ℕ
client = record {
  cfg = new_config "http://localhost:8080" (record {
    node_id = pos 1;
    user_id = pos 42;
    password = record { source = hashed; encoded = "secret" };
  });
  state = record {
    closed = false;
    connected = true;
    stop_reconnect = false;
    terminal_error = none;
  };
  events = some [];
  pending = (1, 0) ∷ (2, 1) ∷ [];
  calls = 2;
  answered = [];
  writer = some 1;
  written = [];
  request_id = 2;
  connection_id = 1;
  relay_packet_tx = none;
  login_info = none;
  store = new_store;
}

abbrev pub open_sink : Sink
open_sink = λ written env. none

abbrev broken_sink : Sink
broken_sink = λ written env. some "broken pipe"

answered_once_example :
    let y = resolve_pending 2 (ok RpcValue.unit) client in
    (y.answered ≡ [] ++ (1, ok RpcValue.unit) ∷ [])
    × (lookup ℕ_discrete 2 y.pending ≡ none)
    × (resolve_pending 2 (err Error.disconnected) y ≡ y)
answered_once_example =
    answered_once 2 1 (ok RpcValue.unit) (err Error.disconnected) client
      (unfold lookup in unfold ℕ_discrete in refl)

begin_rpc_failed_example :
    let (id, y) = register client in
    (lookup ℕ_discrete id (begin_rpc broken_sink Proto.ClientBody.ping client).1.pending ≡ none)
    × ((begin_rpc broken_sink Proto.ClientBody.ping client).1.written ≡ [])
    × ((begin_rpc broken_sink Proto.ClientBody.ping client).1.answered ≡ [])
begin_rpc_failed_example =
    begin_rpc_failed broken_sink Proto.ClientBody.ping client
      (Error.connection "write" "broken pipe") (unfold begin_rpc in unfold send_envelope in refl)

-- After the client is closed it is started again, a call is made, and a message arrives.
abbrev afterwards : List (Activity ℕ)
afterwards =
    ensures_started false
    ∷ begins_rpc Proto.ClientBody.ping
    ∷ reads (message_pushed (ok letter))
    ∷ []

close_is_final_example :
    let y = close client in
    let z = activities memory open_sink afterwards y in
    (y.pending ≡ [])
    × (y.answered ≡ [] ++ (0, err Error.closed) ∷ (1, err Error.closed) ∷ [])
    × (y.writer ≡ none)
    × (z.state.closed ≡ true)
    × (z.events ≡ none)
    × (z.written ≡ [])
    × ((begin_rpc open_sink Proto.ClientBody.ping z).0 ≡ err Error.closed)
    × ((begin_rpc open_sink Proto.ClientBody.ping z).1.written ≡ [])
close_is_final_example = close_is_final memory open_sink Proto.ClientBody.ping afterwards client

backoff_example :
    delay_after 30000000000 1000000000 (suc 5) ≡ min (doubled 1000000000 (suc 5)) 30000000000
backoff_example = backoff 30000000000 1000000000 5 (omega arith)

abbrev refused : Error
refused = Error.server (record { code = "unauthorized"; server_message = "no"; request_id = 0 })

terminal_error_reported_example :
    let (next, y) = run_step (err refused) 1000000000 client in
    (next ≡ none)
    × (y.answered ≡ [] ++ (0, err refused) ∷ (1, err refused) ∷ [])
    × (y.pending ≡ [])
    × (poll_connect y ≡ some (err refused))
    × (y.events ≡ client.events)
    × (y.written ≡ client.written)
terminal_error_reported_example =
    terminal_error_reported refused 1000000000 client (inr (inr (inr (inr (_, refl, refl)))))

abbrev pub user : User
user = record {
  node_id = pos 1;
  user_id = pos 42;
  username = "ada";
  role = "user";
  profile_json = [];
  system_reserved = false;
  created_at = "";
  updated_at = "";
  origin_node_id = pos 1;
  login_name = "ada";
}

abbrev info : LoginInfo
info = record { user = user; protocol_version = "1"; session_ref = near }

serve_never_ok_example :
    (connect_and_serve memory open_sink
      (ok (login_response (ok info)))
      (ok (message_pushed (ok letter)) ∷ err (Error.connection "read" "websocket closed") ∷ [])
      client).0
    ≢ some (ok tt)
serve_never_ok_example =
    serve_never_ok memory open_sink (ok (login_response (ok info)))
      (ok (message_pushed (ok letter)) ∷ err (Error.connection "read" "websocket closed") ∷ [])
      client

-- A store whose messages cannot be saved.
abbrev full_disk : CursorStore MemoryCursorStore
full_disk = record {
  load_seen_messages = λ s. ok s.order;
  save_message = λ m s. (err "disk full", s);
  save_cursor = λ c s. (ok tt, save_cursor c s);
}

persisted_acknowledged_example :
    let (r, y) = handle_server_envelope memory open_sink (message_pushed (ok letter)) client in
    (r ≡ ok tt)
    × (y.written ≡ [] ++ ack_message (cursor letter) ∷ [])
    × (y.events ≡ some ([] ++ ClientEvent.message letter ∷ []))
persisted_acknowledged_example =
    persisted_acknowledged memory open_sink letter client 1 [] (unfold persist_message in refl) refl
      refl refl refl refl

read_all-IsAcked_example :
    IsAcked (read_all open_sink (message_pushed (ok letter) ∷ pong 1 ∷ []) client)
read_all-IsAcked_example =
    read_all-IsAcked open_sink (message_pushed (ok letter) ∷ pong 1 ∷ []) client tt
