-- ===== src/Lib.antt =====
-- A model of the relay and the WebSocket client of a messaging SDK, with its cursor store.
--
-- A `Client` (src/client.rs) holds one WebSocket session with a server: a run task connects, logs
-- in, reads envelopes and reconnects; calls of `rpc` wait in a table of pending requests for the
-- answers that the read loop hands them; pushed messages are stored, acknowledged and shown as
-- events. A `Relay` (src/relay.rs) builds connections between two users on the packets that the
-- client sends and receives: a handshake, then frames with a sliding window, acknowledgements and
-- retransmission. A `CursorStore` (src/store.rs) keeps the messages and the cursors that the
-- client reports as seen when it logs in again.
--
-- Files, and the code that they model:
-- - Prelude: Boolean tests, lists, finite maps (HashMap), signed integers, results, texts. Utf8:
--   String::from_utf8_lossy, str::from_utf8 and str::len.
-- - Errors: src/errors.rs. Types: the data of src/types.rs (Core, Relay, Metadata, Attachments,
--   Cluster, Requests, Builder). Password: src/password.rs. Validation: src/validation.rs (Text, Refs,
--   Metadata); Validation/Sound, Validation/Keys, Validation/Upserts: theorems.
-- - Proto: the messages of proto/client.proto. Mapping: the conversions of src/mapping.rs to and
--   from them (Refs, Users, Cluster); Mapping/Reading: theorems.
-- - Client/Packets: send_packet, send_packet_to_session, send_packet_inner. Client/Session: Inner,
--   State, ClientEvent and the operations on them, close, the test of connect. Client/Calls:
--   send_envelope and rpc, cut at its wait. Client/Incoming: handle_server_envelope,
--   persist_message, expect_login; Client/Answers: the content of each envelope and how it is
--   converted. Client/Start: Config, Client::new, HttpClient::new, websocket_url and the login of
--   connect_and_serve; Client/Socket: read_proto; Client/Run: run, connect_and_serve from the
--   login's reply, read_loop, should_retry; Client/Ping: ping_loop.
-- - Client/Call: a typed call, as its checks and request and the answer that it takes;
--   Client/Requests: each of them, with children named for what they are about; Client/Methods:
--   all of them as one type. Client/Requests/Sendable, Client/Requests/Checked,
--   Client/Requests/Related, Client/Methods/Proper, Client/Answered, Client/Retry,
--   Client/Delivery, Client/Acked, Client/Shut, Client/Closing: theorems on these.
-- - Store: the trait CursorStore as a record of operations; Store/Memory: MemoryCursorStore;
--   Store/Seen: theorems.
-- - Relay/Wire: the envelope's encoding. Relay/Connection: RelayConnectionInner,
--   send_relay_envelope, handle_close, close, abort, on_close. Relay/Handlers: handle_envelope,
--   handle_data, handle_ack, handle_ping. Relay/SendTask: the send loops and retransmit.
--   Relay/Queue: send and receive_timeout. Relay/Manager, Relay/Incoming, Relay/Outgoing:
--   RelayInner, the dispatch of frames, accept_incoming and connect. Theorems: Relay/Frames,
--   Relay/Ordering, Relay/Window, Relay/Channel, Relay/Loss, Relay/Stall, Relay/Exhaustion,
--   Relay/Closing, Relay/Accepting, Relay/Registry, Relay/Registered.
-- - Tests: a concrete byte codec, connections and clients, and the theorems applied to them.
--
-- How the model is made: a lock is held for one update in the source, so each handler is one
-- function on the state, and an asynchronous function is cut where other tasks can run: rpc at its
-- wait, connect at its select!, the send loops at theirs, where an event wakes them (Wake). What
-- is seen from outside is recorded in the state: the payloads delivered, the requests sent, the
-- calls of callbacks, the events, the answers to calls. Connections are shared, so the manager
-- keeps them in a heap and its map holds their places; a task that is spawned to close one is a
-- step of its own.
--
-- Numbers: u64 and u32 arithmetic wraps, as in a release build (wrap64, sub64, wrap32); delays are
-- in nanoseconds. Loops: the delivery loop takes a frame out of the buffer in each round, so its
-- fuel is the buffer's size. The decimal digits of a number take at most its successor many rounds.
--
-- Parameters: the protobuf codec (prost, generated at build time), which decodes what it encoded;
-- the answer of the client's rpc to a packet; the clock; the websocket's sink; the cursor store,
-- where a theorem is about any; serde_json's values and how they are written (Json); bcrypt; how
-- `{:?}` writes a character or a text; the URL library; the builder of the HTTP library; the dial
-- and the write of the login. The network gives the reply to the login and what each read yields.
--
-- Not modelled: the REST calls of src/http.rs, the conversions of src/mapping.rs
-- from JSON and the JSON forms of src/types.rs, and the dropping of a connection that nothing
-- refers to. The arrays that the server sends are lists, without the count that stands beside
-- them, where the client does not read it.
pub mod Prelude
pub mod Errors
pub mod Types
pub mod Utf8
pub mod Validation
pub mod Proto
pub mod Mapping
pub mod Password
pub mod Client
pub mod Store
pub mod Relay
mod Tests
