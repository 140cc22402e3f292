-- ===== src/Types/Relay.antt =====
-- The relay types of src/types.rs: reliability, states, frame kinds, configuration and errors.
use Prim.Native.String.{◌++◌}
use turntf_rs.Prelude.{ℕ, ℤ, String}
use turntf_rs.Types.Core.{Bytes, SessionRef, DeliveryMode, route_retry}

pub data Reliability : Type 0 where
  best_effort at_least_once reliable_ordered : Reliability

pub Reliability-discrete : Discrete Reliability
Reliability-discrete = hlevel

pub data RelayState : Type 0 where
  closed opening «open» closing : RelayState

pub RelayState-discrete : Discrete RelayState
RelayState-discrete = hlevel

pub data RelayKind : Type 0 where
  unspecified «open» open_ack «data» ack close ping error : RelayKind

pub record RelayConfig : Type 0 where
  pub reliability : Reliability
  pub window_size : ℕ
  pub open_timeout_ms : ℕ
  pub close_timeout_ms : ℕ
  pub ack_timeout_ms : ℕ
  pub max_retransmits : ℕ
  pub idle_timeout_ms : ℕ
  pub send_timeout_ms : ℕ
  pub receive_timeout_ms : ℕ
  pub send_buffer_size : ℕ
  pub delivery_mode : DeliveryMode

-- `RelayConfig::default()`
abbrev pub default_relay_config : RelayConfig
default_relay_config = record {
  reliability = reliable_ordered;
  window_size = 16;
  open_timeout_ms = 10000;
  close_timeout_ms = 5000;
  ack_timeout_ms = 3000;
  max_retransmits = 5;
  idle_timeout_ms = 0;
  send_timeout_ms = 0;
  receive_timeout_ms = 0;
  send_buffer_size = 65536;
  delivery_mode = route_retry;
}

pub record RelayEnvelope : Type 0 where
  pub relay_id : String
  pub kind : RelayKind
  pub sender_session : SessionRef
  pub target_session : SessionRef
  pub seq : ℕ
  pub ack_seq : ℕ
  pub payload : Bytes
  pub sent_at_ms : ℤ

pub record RelayError : Type 0 where
  pub code : String
  pub message : String

-- `Display` of a RelayError
abbrev pub display_relay_error : RelayError → String
display_relay_error e = "relay: " ++ e.code ++ ": " ++ e.message
