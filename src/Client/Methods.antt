-- ===== src/Client/Methods.antt =====
-- The typed calls of src/client.rs as one type, and the requests that go out for them.
pub mod Proper
use Prim.Native.Char.{Char}
use turntf_rs.Prelude.{ℕ, ℤ, String, Option, Result}
use turntf_rs.Errors.{Fallible}
use turntf_rs.Types.{
  Json, Bytes, UserRef, SessionRef, DeliveryMode, AttachmentType, CreateUserRequest,
  UpdateUserRequest, ListUsersRequest, UpsertUserMetadataRequest, ScanUserMetadataRequest,
}
use turntf_rs.Proto.{ClientBody}
use turntf_rs.Client.Session.{Inner}
use turntf_rs.Client.Calls.{Sink}
use turntf_rs.Client.Call.{start}
use turntf_rs.Client.Requests.Messages
use turntf_rs.Client.Requests.Users
use turntf_rs.Client.Requests.Metadata
use turntf_rs.Client.Requests.Attachments
use turntf_rs.Client.Requests.Cluster

pub data Method (J : Json) : Type 0 where
  ping : Method J
  send_message : UserRef → Bytes → Method J
  send_packet : UserRef → Bytes → DeliveryMode → Option SessionRef → Method J
  create_user : CreateUserRequest → Method J
  create_channel : CreateUserRequest → Method J
  get_user : UserRef → Method J
  update_user : UserRef → UpdateUserRequest → Method J
  delete_user : UserRef → Method J
  list_users : ListUsersRequest → Method J
  get_user_metadata : UserRef → String → Method J
  upsert_user_metadata : UserRef → String → UpsertUserMetadataRequest J → Method J
  delete_user_metadata : UserRef → String → Method J
  scan_user_metadata : UserRef → ScanUserMetadataRequest → Method J
  subscribe_channel : UserRef → UserRef → Method J
  unsubscribe_channel : UserRef → UserRef → Method J
  list_subscriptions : UserRef → Method J
  block_user : UserRef → UserRef → Method J
  unblock_user : UserRef → UserRef → Method J
  list_blocked_users : UserRef → Method J
  upsert_attachment : UserRef → UserRef → AttachmentType → Bytes → Method J
  delete_attachment : UserRef → UserRef → AttachmentType → Method J
  list_attachments : UserRef → Option AttachmentType → Method J
  list_messages : UserRef → ℤ → Method J
  list_events : ℤ → ℤ → Method J
  list_cluster_nodes : Method J
  list_node_logged_in_users : ℤ → Method J
  resolve_user_sessions : UserRef → Method J
  operations_status : Method J
  metrics : Method J

module _ {J : Json} (debug_char : Char → String) where
  -- The checks of a call, and its request if they pass.
  unfoldable pub request_of : Method J → Fallible ClientBody
  request_of ping = (Messages.ping {J = J}).request
  request_of (send_message target body) = (Messages.send_message {J = J} target body).request
  request_of (send_packet target body mode session) =
      (Messages.packet_call {J = J} target body mode session).request
  request_of (create_user r) = (Users.create_user {J = J} r).request
  request_of (create_channel r) = (Users.create_channel {J = J} r).request
  request_of (get_user target) = (Users.get_user {J = J} target).request
  request_of (update_user target r) = (Users.update_user {J = J} target r).request
  request_of (delete_user target) = (Users.delete_user {J = J} target).request
  request_of (list_users r) = (Users.list_users {J = J} r).request
  request_of (get_user_metadata owner key) =
      (Metadata.get_user_metadata debug_char {J = J} owner key).request
  request_of (upsert_user_metadata owner key r) =
      (Metadata.upsert_user_metadata debug_char owner key r).request
  request_of (delete_user_metadata owner key) =
      (Metadata.delete_user_metadata debug_char {J = J} owner key).request
  request_of (scan_user_metadata owner r) =
      (Metadata.scan_user_metadata debug_char {J = J} owner r).request
  request_of (subscribe_channel s c) = (Attachments.subscribe_channel {J = J} s c).request
  request_of (unsubscribe_channel s c) = (Attachments.unsubscribe_channel {J = J} s c).request
  request_of (list_subscriptions s) = (Attachments.list_subscriptions {J = J} s).request
  request_of (block_user o b) = (Attachments.block_user {J = J} o b).request
  request_of (unblock_user o b) = (Attachments.unblock_user {J = J} o b).request
  request_of (list_blocked_users o) = (Attachments.list_blocked_users {J = J} o).request
  request_of (upsert_attachment o s t config) =
      (Attachments.upsert_attachment {J = J} o s t config).request
  request_of (delete_attachment o s t) = (Attachments.delete_attachment {J = J} o s t).request
  request_of (list_attachments o t) = (Attachments.list_attachments {J = J} o t).request
  request_of (list_messages target limit) = (Messages.list_messages {J = J} target limit).request
  request_of (list_events after limit) = (Cluster.list_events {J = J} after limit).request
  request_of list_cluster_nodes = (Cluster.list_cluster_nodes {J = J}).request
  request_of (list_node_logged_in_users n) = (Cluster.list_node_logged_in_users {J = J} n).request
  request_of (resolve_user_sessions user) = (Messages.resolve_user_sessions {J = J} user).request
  request_of operations_status = (Cluster.operations_status {J = J}).request
  request_of metrics = (Cluster.metrics {J = J}).request

  -- A call of the client up to the wait for its answer.
  unfoldable pub begin_method :
      {S R : Type 0} → Sink → Method J → Inner S R → Fallible ℕ × Inner S R
  unfolding start request_of
  begin_method sink m x = start sink (request_of m) x
