-- ===== src/Relay/Frames.antt =====
-- What sending a frame does to the connection of src/relay.rs.
use turntf_rs.Prelude.{ℕ, ◌≡◌, refl, List, []}
use turntf_rs.Types.{Bytes, RelayKind}
use turntf_rs.Proto.{SendMessageRequest}
use turntf_rs.Relay.Wire.{encode_relay_envelope}
use turntf_rs.Relay.Connection.{Net, Connection, send_frame}
use turntf_rs.Relay.Handlers.{acknowledge}

abbrev pub with_sent : List SendMessageRequest → Connection → Connection
with_sent sent c = record c { sent = sent }

module _ (net : Net) (kind : RelayKind) (seq ack_seq : ℕ) (payload : Bytes) (c : Connection) where
  pub send_frame_lem :
      (send_frame net kind seq ack_seq payload c).1
      ≡ with_sent (send_frame net kind seq ack_seq payload c).1.sent c
  unfolding send_frame encode_relay_envelope
  send_frame_lem = refl

pub acknowledge_lem :
    (net : Net) (seq : ℕ) (c : Connection)
    → acknowledge net seq c ≡ with_sent (acknowledge net seq c).sent c
unfolding acknowledge
acknowledge_lem net seq c = send_frame_lem net RelayKind.ack 0 seq [] c
