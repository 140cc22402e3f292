-- ===== src/Types/Builder.antt =====
-- `RelayConfigBuilder` of src/types.rs: its functions, each named for the field that it sets.
use turntf_rs.Prelude.{ℕ}
use turntf_rs.Types.Core.{DeliveryMode}
use turntf_rs.Types.Relay.{RelayConfig, Reliability, default_relay_config}

pub record RelayConfigBuilder : Type 0 where
  pub config : RelayConfig

-- `RelayConfig::builder`
abbrev pub builder : RelayConfigBuilder
builder = record { config = default_relay_config }

abbrev pub reliability : Reliability → RelayConfigBuilder → RelayConfigBuilder
reliability mode b = record b { config = record (b.config) { reliability = mode } }

abbrev pub window_size : ℕ → RelayConfigBuilder → RelayConfigBuilder
window_size frames b = record b { config = record (b.config) { window_size = frames } }

abbrev pub open_timeout_ms : ℕ → RelayConfigBuilder → RelayConfigBuilder
open_timeout_ms ms b = record b { config = record (b.config) { open_timeout_ms = ms } }

abbrev pub ack_timeout_ms : ℕ → RelayConfigBuilder → RelayConfigBuilder
ack_timeout_ms ms b = record b { config = record (b.config) { ack_timeout_ms = ms } }

abbrev pub max_retransmits : ℕ → RelayConfigBuilder → RelayConfigBuilder
max_retransmits times b = record b { config = record (b.config) { max_retransmits = times } }

abbrev pub idle_timeout_ms : ℕ → RelayConfigBuilder → RelayConfigBuilder
idle_timeout_ms ms b = record b { config = record (b.config) { idle_timeout_ms = ms } }

abbrev pub send_timeout_ms : ℕ → RelayConfigBuilder → RelayConfigBuilder
send_timeout_ms ms b = record b { config = record (b.config) { send_timeout_ms = ms } }

abbrev pub receive_timeout_ms : ℕ → RelayConfigBuilder → RelayConfigBuilder
receive_timeout_ms ms b = record b { config = record (b.config) { receive_timeout_ms = ms } }

abbrev pub delivery_mode : DeliveryMode → RelayConfigBuilder → RelayConfigBuilder
delivery_mode mode b = record b { config = record (b.config) { delivery_mode = mode } }

abbrev pub build : RelayConfigBuilder → RelayConfig
build b = b.config
