-- ===== src/Relay/Connection.antt =====
-- `RelayConnectionInner` of src/relay.rs: the state of one connection, how a frame goes out, and
-- how the connection is closed.
--
-- A lock is held for one update, so each handler is one step on the record. What a step shows to
-- the outside is recorded: `delivered` is what went into the broadcast channel of the receivers,
-- `sent` the requests that the client was given, `notified` the calls of the close callbacks.
use turntf_rs.Prelude.{
  ℕ, ℤ, ◌+◌, ◌-◌, ◌%◌, ◌^◌, String, Bool, true, false, List, [], ◌∷◌, ◌++◌, map, Option, none, some,
  Result, ok, err, ◌>>=◌, map_err,
}
use turntf_rs.Prelude.Dict.{Dict}
use turntf_rs.Errors.{to_string}
use turntf_rs.Types.{
  Bytes, UserRef, SessionRef, DeliveryMode, RelayAccepted, RelayConfig, RelayState, RelayKind,
  RelayEnvelope, RelayError,
}
use turntf_rs.Proto.{SendMessageRequest}
use turntf_rs.Client.Packets.{Rpc, Sent, send_packet_to_session}
use turntf_rs.Relay.Wire.{Codec, encode_relay_envelope}

-- u64 and u32 arithmetic of a release build, which wraps.
abbrev pub wrap64 : ℕ → ℕ
wrap64 n = n % 2 ^ 64

abbrev pub sub64 : ℕ → ℕ → ℕ
sub64 a b = (a + 2 ^ 64 - b) % 2 ^ 64

abbrev pub wrap32 : ℕ → ℕ
wrap32 n = n % 2 ^ 32

-- What a connection uses of the world: the byte codec, the client's `rpc`, and the clock, each
-- free to answer differently after each request.
pub record Net : Type 0 where
  pub codec : Codec
  pub rpc : Rpc
  pub chrono_now_ms : List SendMessageRequest → ℤ

pub record UnackedFrame : Type 0 where
  pub «data» : Bytes
  pub retransmit : ℕ

-- Where the send loop of a connection stands: not spawned, waiting in the outer `select!`, waiting
-- in the loop for window space, or returned.
pub data SendLoop : Type 0 where
  not_spawned selecting stalled returned : SendLoop

pub record Connection : Type 0 where
  pub relay_id : String
  pub config : RelayConfig
  pub remote_peer : UserRef
  pub my_session : SessionRef
  pub state : RelayState
  pub remote_session : SessionRef
  pub send_base : ℕ
  pub next_seq : ℕ
  pub expected_seq : ℕ
  pub retrans_cnt : ℕ
  pub unacked : Dict ℕ UnackedFrame
  pub recv_buf : Dict ℕ Bytes
  pub closed : Bool
  pub on_close : List ℕ
  pub send_loop : SendLoop
  pub delivered : List Bytes
  pub sent : List SendMessageRequest
  pub notified : List (ℕ × Option RelayError)

-- The record that `connect` and `accept_incoming` build.
unfoldable pub new_connection :
    String → RelayConfig → UserRef → SessionRef → SessionRef → RelayState → Connection
new_connection relay_id config peer mine remote state = record {
  relay_id = relay_id;
  config = config;
  remote_peer = peer;
  my_session = mine;
  state = state;
  remote_session = remote;
  send_base = 1;
  next_seq = 1;
  expected_seq = 1;
  retrans_cnt = 0;
  unacked = [];
  recv_buf = [];
  closed = false;
  on_close = [];
  send_loop = SendLoop.not_spawned;
  delivered = [];
  sent = [];
  notified = [];
}

abbrev pub relay_error : String → String → RelayError
relay_error code message = record { code = code; message = message }

-- An unspecified delivery mode is sent as route-retry.
unfoldable pub effective_mode : DeliveryMode → DeliveryMode
effective_mode DeliveryMode.unspecified = DeliveryMode.route_retry
effective_mode DeliveryMode.best_effort = DeliveryMode.best_effort
effective_mode DeliveryMode.route_retry = DeliveryMode.route_retry

finish_send :
    Connection → Sent (Result RelayError RelayAccepted) → Result RelayError (Unit {0}) × Connection
finish_send c (r, sent) = (r >>= (λ _. ok tt), record c { sent = sent })

-- `send_relay_envelope`
unfoldable pub send_relay_envelope :
    Net → RelayEnvelope → Connection → Result RelayError (Unit {0}) × Connection
unfolding finish_send effective_mode
send_relay_envelope net env c = elim (encode_relay_envelope net.codec env) [
  | Result.err e ↦ (err (relay_error "protocol_error" e), c)
  | Result.ok body ↦
      let (r, sent) =
        send_packet_to_session net.rpc c.sent c.remote_peer body
          (effective_mode c.config.delivery_mode) c.remote_session in
      finish_send c (map_err (λ e. relay_error "protocol_error" (to_string e)) r, sent)
]

-- The envelope that a connection sends, from its own session to the one of its peer.
unfoldable pub envelope : Net → RelayKind → ℕ → ℕ → Bytes → Connection → RelayEnvelope
envelope net kind seq ack_seq payload c = record {
  relay_id = c.relay_id;
  kind = kind;
  sender_session = c.my_session;
  target_session = c.remote_session;
  seq = seq;
  ack_seq = ack_seq;
  payload = payload;
  sent_at_ms = net.chrono_now_ms c.sent;
}

-- Sends such an envelope; the caller may ignore the result, as in `let _ = …`.
unfoldable pub send_frame :
    Net → RelayKind → ℕ → ℕ → Bytes → Connection → Result RelayError (Unit {0}) × Connection
unfolding envelope send_relay_envelope
send_frame net kind seq ack_seq payload c =
    send_relay_envelope net (envelope net kind seq ack_seq payload c) c

-- A state change of a connection, with whether the connection asks its manager to forget it.
abbrev pub Closes : Type 0
Closes = Connection × Bool

unfoldable pub run_callbacks : Option RelayError → Connection → Connection
run_callbacks reason c = record c {
  state = RelayState.closed;
  closed = true;
  on_close = [];
  notified = c.notified ++ map (λ callback. (callback, reason)) c.on_close;
}

unfoldable pub close_from : RelayState → Option RelayError → Connection → Closes
unfolding run_callbacks
close_from RelayState.closed reason c = (c, false)
close_from _ reason c = (run_callbacks reason c, true)

-- `handle_close`: nothing on a closed connection; else the callbacks run and the manager is asked
-- to remove the connection's id.
unfoldable pub handle_close : Option RelayError → Connection → Closes
unfolding close_from
handle_close reason c = close_from c.state reason c

-- `abort`
unfoldable pub abort : RelayError → Connection → Closes
abort reason c = handle_close (some reason) c

unfoldable pub close_open : Net → RelayState → Connection → Closes
close_open net RelayState.«open» c =
    let closing = record c { state = RelayState.closing } in
    handle_close none (send_frame net RelayKind.close 0 0 [] closing).1
close_open net _ c = (c, false)

-- `close`: sends a CLOSE frame, whose result is ignored, and closes; only on an open connection.
unfoldable pub close : Net → Connection → Closes
unfolding close_open
close net c = close_open net c.state c

-- `on_close`
unfoldable pub register_on_close : ℕ → Connection → Connection
register_on_close callback c = record c { on_close = c.on_close ++ callback ∷ [] }
