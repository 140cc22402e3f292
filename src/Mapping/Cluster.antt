-- ===== src/Mapping/Cluster.antt =====
-- The conversions of src/mapping.rs for events, nodes, sessions and the state of a node.
use turntf_rs.Prelude.{pos, map, Option, none, some, ok, ok_or, collect, ◌>>=◌}
use turntf_rs.Errors.{Fallible, protocol}
use turntf_rs.Types.{
  OnlineNodePresence, ResolvedSession, ResolvedUserSessions, Event, ClusterNode, LoggedInUser,
  OperationsStatus, MessageTrimStatus, EventLogTrimStatus, ProjectionStatus, PeerOriginStatus,
  PeerStatus,
}
use turntf_rs.Mapping.Refs.{user_ref_from_proto, session_ref_from_proto, transpose_map}
use turntf_rs.Proto

-- `online_node_presence_from_proto`
unfoldable pub online_node_presence_from_proto : Proto.OnlineNodePresence → OnlineNodePresence
online_node_presence_from_proto value = record {
  serving_node_id = value.serving_node_id;
  session_count = value.session_count;
  transport_hint = value.transport_hint;
}

-- `resolved_session_from_proto`
unfoldable pub resolved_session_from_proto : Proto.ResolvedSession → Fallible ResolvedSession
unfolding session_ref_from_proto
resolved_session_from_proto value = do
  session ← session_ref_from_proto value.session
  ok (record {
    session = session;
    transport = value.transport;
    transient_capable = value.transient_capable;
  })

-- `resolved_user_sessions_from_proto`
unfoldable pub resolved_user_sessions_from_proto :
    Proto.ResolveUserSessionsResponse → Fallible ResolvedUserSessions
unfolding online_node_presence_from_proto resolved_session_from_proto user_ref_from_proto
resolved_user_sessions_from_proto value = do
  sessions ← collect resolved_session_from_proto value.items
  ok (record {
    user = user_ref_from_proto value.user;
    presence = map online_node_presence_from_proto value.presence;
    sessions = sessions;
  })

-- `event_from_proto`
unfoldable pub event_from_proto : Option Proto.Event → Fallible Event
event_from_proto value = do
  value ← ok_or (protocol "missing event") value
  ok (record {
    sequence = value.sequence;
    event_id = value.event_id;
    event_type = value.event_type;
    aggregate = value.aggregate;
    aggregate_node_id = value.aggregate_node_id;
    aggregate_id = value.aggregate_id;
    hlc = value.hlc;
    origin_node_id = value.origin_node_id;
    event_json = value.event_json;
  })

-- `cluster_node_from_proto`
unfoldable pub cluster_node_from_proto : Option Proto.ClusterNode → Fallible ClusterNode
cluster_node_from_proto value = do
  value ← ok_or (protocol "missing cluster node") value
  ok (record {
    node_id = value.node_id;
    is_local = value.is_local;
    configured_url = value.configured_url;
    source = value.source;
  })

-- `logged_in_user_from_proto`
unfoldable pub logged_in_user_from_proto : Option Proto.LoggedInUser → Fallible LoggedInUser
logged_in_user_from_proto value = do
  value ← ok_or (protocol "missing logged-in user") value
  ok (record {
    node_id = value.node_id;
    user_id = value.user_id;
    username = value.username;
    login_name = value.login_name;
  })

-- `message_trim_status_from_proto`
unfoldable pub message_trim_status_from_proto : Option Proto.MessageTrimStatus → MessageTrimStatus
message_trim_status_from_proto none = record { trimmed_total = pos 0; last_trimmed_at = "" }
message_trim_status_from_proto (some value) = record {
  trimmed_total = value.trimmed_total;
  last_trimmed_at = value.last_trimmed_at;
}

-- `projection_status_from_proto`
unfoldable pub projection_status_from_proto : Option Proto.ProjectionStatus → ProjectionStatus
projection_status_from_proto none = record { pending_total = pos 0; last_failed_at = "" }
projection_status_from_proto (some value) = record {
  pending_total = value.pending_total;
  last_failed_at = value.last_failed_at;
}

-- `event_log_trim_status_from_proto`
unfoldable pub event_log_trim_status_from_proto :
    Proto.EventLogTrimStatus → Fallible EventLogTrimStatus
event_log_trim_status_from_proto value =
    ok (record { trimmed_total = value.trimmed_total; last_trimmed_at = value.last_trimmed_at })

-- `peer_origin_status_from_proto`
unfoldable pub peer_origin_status_from_proto : Proto.PeerOriginStatus → Fallible PeerOriginStatus
peer_origin_status_from_proto value = ok (record {
  origin_node_id = value.origin_node_id;
  acked_event_id = value.acked_event_id;
  applied_event_id = value.applied_event_id;
  unconfirmed_events = value.unconfirmed_events;
  cursor_updated_at = value.cursor_updated_at;
  remote_last_event_id = value.remote_last_event_id;
  pending_catchup = value.pending_catchup;
})

-- `peer_status_from_proto`
unfoldable pub peer_status_from_proto : Proto.PeerStatus → Fallible PeerStatus
unfolding peer_origin_status_from_proto
peer_status_from_proto value = do
  origins ← collect peer_origin_status_from_proto value.origins
  ok (record {
    node_id = value.node_id;
    configured_url = value.configured_url;
    source = value.source;
    discovered_url = value.discovered_url;
    discovery_state = value.discovery_state;
    last_discovered_at = value.last_discovered_at;
    last_connected_at = value.last_connected_at;
    last_discovery_error = value.last_discovery_error;
    connected = value.connected;
    session_direction = value.session_direction;
    origins = origins;
    pending_snapshot_partitions = value.pending_snapshot_partitions;
    remote_snapshot_version = value.remote_snapshot_version;
    remote_message_window_size = value.remote_message_window_size;
    clock_offset_ms = value.clock_offset_ms;
    last_clock_sync = value.last_clock_sync;
    snapshot_digests_sent_total = value.snapshot_digests_sent_total;
    snapshot_digests_received_total = value.snapshot_digests_received_total;
    snapshot_chunks_sent_total = value.snapshot_chunks_sent_total;
    snapshot_chunks_received_total = value.snapshot_chunks_received_total;
    last_snapshot_digest_at = value.last_snapshot_digest_at;
    last_snapshot_chunk_at = value.last_snapshot_chunk_at;
  })

-- `operations_status_from_proto`
unfoldable pub operations_status_from_proto :
    Option Proto.OperationsStatus → Fallible OperationsStatus
unfolding event_log_trim_status_from_proto message_trim_status_from_proto peer_status_from_proto
    projection_status_from_proto
operations_status_from_proto value = do
  value ← ok_or (protocol "missing operations status") value
  peers ← collect peer_status_from_proto value.peers
  event_log_trim ← transpose_map event_log_trim_status_from_proto value.event_log_trim
  ok (record {
    node_id = value.node_id;
    message_window_size = value.message_window_size;
    last_event_sequence = value.last_event_sequence;
    write_gate_ready = value.write_gate_ready;
    conflict_total = value.conflict_total;
    message_trim = message_trim_status_from_proto value.message_trim;
    projection = projection_status_from_proto value.projection;
    peers = peers;
    event_log_trim = event_log_trim;
  })
