-- ===== src/Mapping/Users.antt =====
-- The conversions of src/mapping.rs for users, metadata, messages, packets and attachments.
use turntf_rs.Prelude.{Option, none, some, ok, ok_or, collect, ◌>>=◌}
use turntf_rs.Errors.{Fallible, protocol}
use turntf_rs.Types.{
  User, UserMetadata, UserMetadataScanResult, Json, Message, Packet, RelayAccepted, LoginInfo,
  Attachment, Subscription, BlacklistEntry,
}
use turntf_rs.Mapping.Refs.{
  delivery_mode_from_proto, attachment_type_from_proto, user_ref_from_proto, session_ref_from_proto,
  optional_session_ref_from_proto,
}
use turntf_rs.Proto

-- `user_from_proto`
unfoldable pub user_from_proto : Option Proto.User → Fallible User
user_from_proto value = do
  value ← ok_or (protocol "missing user") value
  ok (record {
    node_id = value.node_id;
    user_id = value.user_id;
    username = value.username;
    role = value.role;
    profile_json = value.profile_json;
    system_reserved = value.system_reserved;
    created_at = value.created_at;
    updated_at = value.updated_at;
    origin_node_id = value.origin_node_id;
    login_name = value.login_name;
  })

-- `user_metadata_from_proto`
unfoldable pub user_metadata_from_proto :
    {J : Json} → Option Proto.UserMetadata → Fallible (UserMetadata J)
unfolding user_ref_from_proto
user_metadata_from_proto value = do
  value ← ok_or (protocol "missing user_metadata") value
  ok (record {
    owner = user_ref_from_proto value.owner;
    key = value.key;
    value = value.value;
    typed_value = none;
    updated_at = value.updated_at;
    deleted_at = value.deleted_at;
    expires_at = value.expires_at;
    origin_node_id = value.origin_node_id;
  })

-- `user_metadata_scan_result_from_proto`
unfoldable pub user_metadata_scan_result_from_proto :
    {J : Json} → Proto.ScanUserMetadataResponse → Fallible (UserMetadataScanResult J)
unfolding user_metadata_from_proto
user_metadata_scan_result_from_proto value = do
  items ← collect (λ item. user_metadata_from_proto (some item)) value.items
  ok (record { items = items; count = value.count; next_after = value.next_after })

-- `message_from_proto`
unfoldable pub message_from_proto : Option Proto.Message → Fallible Message
unfolding user_ref_from_proto
message_from_proto value = do
  value ← ok_or (protocol "missing message") value
  ok (record {
    recipient = user_ref_from_proto value.recipient;
    node_id = value.node_id;
    seq = value.seq;
    sender = user_ref_from_proto value.sender;
    body = value.body;
    created_at_hlc = value.created_at_hlc;
  })

-- `packet_from_proto`
unfoldable pub packet_from_proto : Option Proto.Packet → Fallible Packet
unfolding delivery_mode_from_proto optional_session_ref_from_proto user_ref_from_proto
packet_from_proto value = do
  value ← ok_or (protocol "missing packet") value
  target_session ← optional_session_ref_from_proto value.target_session
  ok (record {
    packet_id = value.packet_id;
    source_node_id = value.source_node_id;
    target_node_id = value.target_node_id;
    recipient = user_ref_from_proto value.recipient;
    sender = user_ref_from_proto value.sender;
    body = value.body;
    delivery_mode = delivery_mode_from_proto value.delivery_mode;
    target_session = target_session;
  })

-- `relay_accepted_from_proto`
unfoldable pub relay_accepted_from_proto : Option Proto.TransientAccepted → Fallible RelayAccepted
unfolding delivery_mode_from_proto optional_session_ref_from_proto user_ref_from_proto
relay_accepted_from_proto value = do
  value ← ok_or (protocol "missing transient_accepted") value
  target_session ← optional_session_ref_from_proto value.target_session
  ok (record {
    packet_id = value.packet_id;
    source_node_id = value.source_node_id;
    target_node_id = value.target_node_id;
    recipient = user_ref_from_proto value.recipient;
    delivery_mode = delivery_mode_from_proto value.delivery_mode;
    target_session = target_session;
  })

-- `login_info_from_proto`
unfoldable pub login_info_from_proto : Proto.LoginResponse → Fallible LoginInfo
unfolding session_ref_from_proto user_from_proto
login_info_from_proto value = do
  user ← user_from_proto value.user
  session_ref ← session_ref_from_proto value.session_ref
  ok (record { user = user; protocol_version = value.protocol_version; session_ref = session_ref })

-- `attachment_from_proto`
unfoldable pub attachment_from_proto : Option Proto.Attachment → Fallible Attachment
unfolding attachment_type_from_proto user_ref_from_proto
attachment_from_proto value = do
  value ← ok_or (protocol "missing attachment") value
  attachment_type ← attachment_type_from_proto value.attachment_type
  ok (record {
    owner = user_ref_from_proto value.owner;
    subject = user_ref_from_proto value.subject;
    attachment_type = attachment_type;
    config_json = value.config_json;
    attached_at = value.attached_at;
    deleted_at = value.deleted_at;
    origin_node_id = value.origin_node_id;
  })

-- `subscription_from_attachment`
abbrev pub subscription_from_attachment : Attachment → Subscription
subscription_from_attachment value = record {
  subscriber = value.owner;
  channel = value.subject;
  subscribed_at = value.attached_at;
  deleted_at = value.deleted_at;
  origin_node_id = value.origin_node_id;
}

-- `blacklist_entry_from_attachment`
abbrev pub blacklist_entry_from_attachment : Attachment → BlacklistEntry
blacklist_entry_from_attachment value = record {
  owner = value.owner;
  blocked = value.subject;
  blocked_at = value.attached_at;
  deleted_at = value.deleted_at;
  origin_node_id = value.origin_node_id;
}

-- `subscription_from_proto`
unfoldable pub subscription_from_proto : Option Proto.Attachment → Fallible Subscription
unfolding attachment_from_proto
subscription_from_proto value = do
  value ← attachment_from_proto value
  ok (subscription_from_attachment value)

-- `blacklist_entry_from_proto`
unfoldable pub blacklist_entry_from_proto : Option Proto.Attachment → Fallible BlacklistEntry
unfolding attachment_from_proto
blacklist_entry_from_proto value = do
  value ← attachment_from_proto value
  ok (record {
    owner = value.owner;
    blocked = value.subject;
    blocked_at = value.attached_at;
    deleted_at = value.deleted_at;
    origin_node_id = value.origin_node_id;
  })
