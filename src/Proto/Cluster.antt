-- ===== src/Proto/Cluster.antt =====
-- The messages of proto/client.proto about events, nodes, sessions and the state of a node.
use turntf_rs.Prelude.{ℕ, ℤ, String, Bool, List, Option}
use turntf_rs.Types.{Bytes, UserRef, SessionRef}

pub record Event : Type 0 where
  pub sequence : ℤ
  pub event_id : ℤ
  pub event_type : String
  pub aggregate : String
  pub aggregate_node_id : ℤ
  pub aggregate_id : ℤ
  pub hlc : String
  pub origin_node_id : ℤ
  pub event_json : Bytes

pub record ClusterNode : Type 0 where
  pub node_id : ℤ
  pub is_local : Bool
  pub configured_url : String
  pub source : String

pub record LoggedInUser : Type 0 where
  pub node_id : ℤ
  pub user_id : ℤ
  pub username : String
  pub login_name : String

pub record OnlineNodePresence : Type 0 where
  pub serving_node_id : ℤ
  pub session_count : ℤ
  pub transport_hint : String

pub record ResolvedSession : Type 0 where
  pub session : Option SessionRef
  pub transport : String
  pub transient_capable : Bool

pub record ResolveUserSessionsResponse : Type 0 where
  pub user : Option UserRef
  pub presence : List OnlineNodePresence
  pub items : List ResolvedSession
  pub count : ℤ

pub record MessageTrimStatus : Type 0 where
  pub trimmed_total : ℤ
  pub last_trimmed_at : String

pub record EventLogTrimStatus : Type 0 where
  pub trimmed_total : ℤ
  pub last_trimmed_at : String

pub record ProjectionStatus : Type 0 where
  pub pending_total : ℤ
  pub last_failed_at : String

pub record PeerOriginStatus : Type 0 where
  pub origin_node_id : ℤ
  pub acked_event_id : ℤ
  pub applied_event_id : ℤ
  pub unconfirmed_events : ℤ
  pub cursor_updated_at : String
  pub remote_last_event_id : ℕ
  pub pending_catchup : Bool

pub record PeerStatus : Type 0 where
  pub node_id : ℤ
  pub configured_url : String
  pub connected : Bool
  pub session_direction : String
  pub origins : List PeerOriginStatus
  pub pending_snapshot_partitions : ℤ
  pub remote_snapshot_version : String
  pub remote_message_window_size : ℤ
  pub clock_offset_ms : ℤ
  pub last_clock_sync : String
  pub snapshot_digests_sent_total : ℕ
  pub snapshot_digests_received_total : ℕ
  pub snapshot_chunks_sent_total : ℕ
  pub snapshot_chunks_received_total : ℕ
  pub last_snapshot_digest_at : String
  pub last_snapshot_chunk_at : String
  pub source : String
  pub discovered_url : String
  pub discovery_state : String
  pub last_discovered_at : String
  pub last_connected_at : String
  pub last_discovery_error : String

pub record OperationsStatus : Type 0 where
  pub node_id : ℤ
  pub message_window_size : ℤ
  pub last_event_sequence : ℤ
  pub write_gate_ready : Bool
  pub conflict_total : ℤ
  pub message_trim : Option MessageTrimStatus
  pub projection : Option ProjectionStatus
  pub peers : List PeerStatus
  pub event_log_trim : Option EventLogTrimStatus
