-- ===== src/Tests/Fixtures.antt =====
-- A concrete world with a codec, an rpc that accepts every packet and a clock, and connections and
-- frames in it.
use turntf_rs.Prelude.{ℕ, pos, List, [], ◌∷◌, some, ok}
use turntf_rs.Types.{
  Bytes, UserRef, SessionRef, DeliveryMode, RelayAccepted, RelayKind, RelayState, RelayEnvelope,
  default_relay_config,
}
use turntf_rs.Relay.Connection.{Net, Connection, new_connection, SendLoop}
use turntf_rs.Tests.Formats.{plain_codec}

abbrev pub peer : UserRef
peer = record { node_id = pos 1; user_id = pos 42 }

abbrev pub near : SessionRef
near = record { serving_node_id = pos 1; session_id = "near" }

abbrev pub far : SessionRef
far = record { serving_node_id = pos 2; session_id = "far" }

abbrev answer : RelayAccepted
answer = record {
  packet_id = 1;
  source_node_id = pos 1;
  target_node_id = pos 2;
  recipient = peer;
  delivery_mode = DeliveryMode.route_retry;
  target_session = some far;
}

abbrev pub world : Net
world = record {
  codec = plain_codec;
  rpc = λ sent request. ok (some answer);
  chrono_now_ms = λ sent. pos 1700000000000;
}

-- An open connection with the default configuration.
abbrev pub opened : Connection
opened = new_connection "relay-1" default_relay_config peer near far RelayState.«open»

-- A frame from the other end.
abbrev pub from_far : RelayKind → ℕ → ℕ → Bytes → RelayEnvelope
from_far kind seq ack_seq payload = record {
  relay_id = "relay-1";
  kind = kind;
  sender_session = far;
  target_session = near;
  seq = seq;
  ack_seq = ack_seq;
  payload = payload;
  sent_at_ms = pos 1700000000001;
}

-- The stream whose frame `k` holds the one byte `k`.
abbrev pub counting : ℕ → Bytes
counting k = k ∷ []

abbrev pub data_frame : ℕ → RelayEnvelope
data_frame k = from_far RelayKind.«data» k 0 (counting k)

-- Frames 1 to 3, out of order and one of them twice.
abbrev pub shuffled : List RelayEnvelope
shuffled = data_frame 2 ∷ data_frame 1 ∷ data_frame 2 ∷ data_frame 3 ∷ []

-- A sender with frames 1 and 2 in flight.
abbrev pub in_flight : Connection
in_flight = record opened {
  next_seq = 3;
  unacked =
      (1, record { «data» = 1 ∷ []; retransmit = 0 })
      ∷ (2, record { «data» = 2 ∷ []; retransmit = 0 })
      ∷ [];
  send_loop = SendLoop.selecting;
}

-- A sender whose window is full, after its last retransmission.
abbrev pub worn_out : Connection
worn_out = record opened {
  next_seq = 17;
  retrans_cnt = 5;
  unacked = (1, record { «data» = 1 ∷ []; retransmit = 5 }) ∷ [];
  send_loop = SendLoop.stalled;
}
