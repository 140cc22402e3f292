-- ===== src/Client/Answers.antt =====
-- The server's envelopes as they are decoded, and how `handle_server_envelope` of src/client.rs reads
-- the content of each before it hands it on.
use turntf_rs.Prelude.{ℕ, String, List, Option, none, some, ok, collect, ◌>>=◌}
use turntf_rs.Errors.{Fallible, ServerError}
use turntf_rs.Types.{
  Json, User, UserMetadata, UserMetadataScanResult, Message, Attachment, Event, ClusterNode,
  LoggedInUser, ResolvedUserSessions, OperationsStatus, DeleteUserResult,
}
use turntf_rs.Proto
use turntf_rs.Mapping.{
  user_from_proto, user_metadata_from_proto, user_metadata_scan_result_from_proto,
  message_from_proto, packet_from_proto, relay_accepted_from_proto, login_info_from_proto,
  attachment_from_proto, event_from_proto, cluster_node_from_proto, logged_in_user_from_proto,
  resolved_user_sessions_from_proto, operations_status_from_proto, user_ref_from_proto,
}
use turntf_rs.Client.Incoming.{ServerEnvelope, response, unsupported, SendResponse, stored, nothing}

-- The variants of `RpcValue` whose content the session only hands on.
pub data Answer (J : Json) : Type 0 where
  user : User → Answer J
  users : List User → Answer J
  delete_user_result : DeleteUserResult → Answer J
  user_metadata : UserMetadata J → Answer J
  user_metadata_scan_result : UserMetadataScanResult J → Answer J
  messages : List Message → Answer J
  attachment : Attachment → Answer J
  attachments : List Attachment → Answer J
  events : List Event → Answer J
  cluster_nodes : List ClusterNode → Answer J
  logged_in_users : List LoggedInUser → Answer J
  resolved_user_sessions : ResolvedUserSessions → Answer J
  operations_status : OperationsStatus → Answer J

-- `proto::send_message_response::Body`
pub data SendBody : Type 0 where
  message : Proto.Message → SendBody
  transient_accepted : Proto.TransientAccepted → SendBody

-- `proto::server_envelope::Body`; the number is the request id of the message. The messages that hold
-- a list and its length are the list: the length is not read.
pub data ServerBody : Type 0 where
  login_response : Proto.LoginResponse → ServerBody
  message_pushed : Option Proto.Message → ServerBody
  packet_pushed : Option Proto.Packet → ServerBody
  send_message_response : ℕ → Option SendBody → ServerBody
  pong : ℕ → ServerBody
  error : ServerError → ServerBody
  create_user_response : ℕ → Option Proto.User → ServerBody
  get_user_response : ℕ → Option Proto.User → ServerBody
  update_user_response : ℕ → Option Proto.User → ServerBody
  delete_user_response : ℕ → Proto.DeleteUserResponse → ServerBody
  list_users_response : ℕ → List Proto.User → ServerBody
  get_user_metadata_response : ℕ → Option Proto.UserMetadata → ServerBody
  upsert_user_metadata_response : ℕ → Option Proto.UserMetadata → ServerBody
  delete_user_metadata_response : ℕ → Option Proto.UserMetadata → ServerBody
  scan_user_metadata_response : ℕ → Proto.ScanUserMetadataResponse → ServerBody
  list_messages_response : ℕ → List Proto.Message → ServerBody
  upsert_user_attachment_response : ℕ → Option Proto.Attachment → ServerBody
  delete_user_attachment_response : ℕ → Option Proto.Attachment → ServerBody
  list_user_attachments_response : ℕ → List Proto.Attachment → ServerBody
  list_events_response : ℕ → List Proto.Event → ServerBody
  list_cluster_nodes_response : ℕ → List Proto.ClusterNode → ServerBody
  list_node_logged_in_users_response : ℕ → List Proto.LoggedInUser → ServerBody
  resolve_user_sessions_response : ℕ → Proto.ResolveUserSessionsResponse → ServerBody
  operations_status_response : ℕ → Option Proto.OperationsStatus → ServerBody
  metrics_response : ℕ → String → ServerBody

-- `users_from_proto`, `messages_from_proto` and the others that convert a list: one by one, and the
-- first error ends it.
unfoldable pub users_from_proto : List Proto.User → Fallible (List User)
unfolding user_from_proto
users_from_proto items = collect (λ item. user_from_proto (some item)) items

unfoldable pub messages_from_proto : List Proto.Message → Fallible (List Message)
unfolding message_from_proto
messages_from_proto items = collect (λ item. message_from_proto (some item)) items

unfoldable pub attachments_from_proto : List Proto.Attachment → Fallible (List Attachment)
unfolding attachment_from_proto
attachments_from_proto items = collect (λ item. attachment_from_proto (some item)) items

unfoldable pub events_from_proto : List Proto.Event → Fallible (List Event)
unfolding event_from_proto
events_from_proto items = collect (λ item. event_from_proto (some item)) items

unfoldable pub cluster_nodes_from_proto : List Proto.ClusterNode → Fallible (List ClusterNode)
unfolding cluster_node_from_proto
cluster_nodes_from_proto items = collect (λ item. cluster_node_from_proto (some item)) items

unfoldable pub logged_in_users_from_proto : List Proto.LoggedInUser → Fallible (List LoggedInUser)
unfolding logged_in_user_from_proto
logged_in_users_from_proto items = collect (λ item. logged_in_user_from_proto (some item)) items

send_response_of : Option SendBody → SendResponse
unfolding message_from_proto relay_accepted_from_proto
send_response_of none = nothing
send_response_of (some (message m)) = stored (message_from_proto (some m))
send_response_of (some (transient_accepted a)) =
    SendResponse.transient_accepted (relay_accepted_from_proto (some a))

deleted : Proto.DeleteUserResponse → DeleteUserResult
unfolding user_ref_from_proto
deleted r = record { status = r.status; user = user_ref_from_proto r.user }

module _ {J : Json} where
  unfoldable pub answered_by :
      {A : Type 0} → (A → Answer J) → ℕ → Fallible A → ServerEnvelope (Answer J)
  answered_by f id r = response id (r >>= λ a. ok (f a))

  -- The content of each envelope, as the arms of `handle_server_envelope` convert it.
  unfoldable pub read_body : ServerBody → ServerEnvelope (Answer J)
  unfolding answered_by send_response_of deleted user_from_proto
  read_body (login_response r) = ServerEnvelope.login_response (login_info_from_proto r)
  read_body (message_pushed m) = ServerEnvelope.message_pushed (message_from_proto m)
  read_body (packet_pushed p) = ServerEnvelope.packet_pushed (packet_from_proto p)
  read_body (send_message_response id body) =
      ServerEnvelope.send_message_response id (send_response_of body)
  read_body (pong id) = ServerEnvelope.pong id
  read_body (error e) = ServerEnvelope.error e
  read_body (create_user_response id u) = answered_by user id (user_from_proto u)
  read_body (get_user_response id u) = answered_by user id (user_from_proto u)
  read_body (update_user_response id u) = answered_by user id (user_from_proto u)
  read_body (delete_user_response id r) = answered_by delete_user_result id (ok (deleted r))
  read_body (list_users_response id us) = answered_by users id (users_from_proto us)
  read_body (get_user_metadata_response id m) =
      answered_by user_metadata id (user_metadata_from_proto m)
  read_body (upsert_user_metadata_response id m) =
      answered_by user_metadata id (user_metadata_from_proto m)
  read_body (delete_user_metadata_response id m) =
      answered_by user_metadata id (user_metadata_from_proto m)
  read_body (scan_user_metadata_response id r) =
      answered_by user_metadata_scan_result id (user_metadata_scan_result_from_proto r)
  read_body (list_messages_response id ms) = answered_by messages id (messages_from_proto ms)
  read_body (upsert_user_attachment_response id a) =
      answered_by attachment id (attachment_from_proto a)
  read_body (delete_user_attachment_response id a) =
      answered_by attachment id (attachment_from_proto a)
  read_body (list_user_attachments_response id xs) =
      answered_by attachments id (attachments_from_proto xs)
  read_body (list_events_response id es) = answered_by events id (events_from_proto es)
  read_body (list_cluster_nodes_response id ns) =
      answered_by cluster_nodes id (cluster_nodes_from_proto ns)
  read_body (list_node_logged_in_users_response id us) =
      answered_by logged_in_users id (logged_in_users_from_proto us)
  read_body (resolve_user_sessions_response id r) =
      answered_by resolved_user_sessions id (resolved_user_sessions_from_proto r)
  read_body (operations_status_response id s) =
      answered_by operations_status id (operations_status_from_proto s)
  read_body (metrics_response id text) = ServerEnvelope.metrics_response id text

  -- An envelope without a body is one that is not supported.
  unfoldable pub read_envelope : Option ServerBody → ServerEnvelope (Answer J)
  unfolding read_body
  read_envelope none = unsupported
  read_envelope (some body) = read_body body
