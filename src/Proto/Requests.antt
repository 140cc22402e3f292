-- ===== src/Proto/Requests.antt =====
-- The requests of proto/client.proto.
use turntf_rs.Prelude.{ℤ, String, Option, List, Bool}
use turntf_rs.Types.{Bytes, UserRef, SessionRef, MessageCursor}

pub record LoginRequest : Type 0 where
  pub user : Option UserRef
  pub login_name : String
  pub password : String
  pub seen_messages : List MessageCursor
  pub transient_only : Bool

pub record SendMessageRequest : Type 0 where
  pub target : Option UserRef
  pub body : Bytes
  pub delivery_kind : ℤ
  pub delivery_mode : ℤ
  pub sync_mode : ℤ
  pub target_session : Option SessionRef

pub record CreateUserRequest : Type 0 where
  pub username : String
  pub password : String
  pub profile_json : Bytes
  pub role : String
  pub login_name : String

pub record GetUserRequest : Type 0 where
  pub user : Option UserRef

pub record StringField : Type 0 where
  pub value : String

pub record BytesField : Type 0 where
  pub value : Bytes

pub record UpdateUserRequest : Type 0 where
  pub user : Option UserRef
  pub username : Option StringField
  pub password : Option StringField
  pub profile_json : Option BytesField
  pub role : Option StringField
  pub login_name : Option StringField

pub record DeleteUserRequest : Type 0 where
  pub user : Option UserRef

pub record ListUsersRequest : Type 0 where
  pub name : String
  pub uid : Option UserRef

pub record ListMessagesRequest : Type 0 where
  pub user : Option UserRef
  pub limit : ℤ

pub record UpsertUserAttachmentRequest : Type 0 where
  pub owner : Option UserRef
  pub subject : Option UserRef
  pub attachment_type : ℤ
  pub config_json : Bytes

pub record DeleteUserAttachmentRequest : Type 0 where
  pub owner : Option UserRef
  pub subject : Option UserRef
  pub attachment_type : ℤ

pub record ListUserAttachmentsRequest : Type 0 where
  pub owner : Option UserRef
  pub attachment_type : ℤ

pub record ListEventsRequest : Type 0 where
  pub after : ℤ
  pub limit : ℤ

pub record ListNodeLoggedInUsersRequest : Type 0 where
  pub node_id : ℤ

pub record ResolveUserSessionsRequest : Type 0 where
  pub user : Option UserRef

pub record GetUserMetadataRequest : Type 0 where
  pub owner : Option UserRef
  pub key : String

pub record UpsertUserMetadataRequest : Type 0 where
  pub owner : Option UserRef
  pub key : String
  pub value : Bytes
  pub expires_at : Option StringField

pub record DeleteUserMetadataRequest : Type 0 where
  pub owner : Option UserRef
  pub key : String

pub record ScanUserMetadataRequest : Type 0 where
  pub owner : Option UserRef
  pub prefix : String
  pub after : String
  pub limit : ℤ

-- `proto::client_envelope::Body` of a request, whose id stands beside it.
pub data ClientBody : Type 0 where
  send_message : SendMessageRequest → ClientBody
  ping : ClientBody
  create_user : CreateUserRequest → ClientBody
  get_user : GetUserRequest → ClientBody
  update_user : UpdateUserRequest → ClientBody
  delete_user : DeleteUserRequest → ClientBody
  list_users : ListUsersRequest → ClientBody
  list_messages : ListMessagesRequest → ClientBody
  upsert_user_attachment : UpsertUserAttachmentRequest → ClientBody
  delete_user_attachment : DeleteUserAttachmentRequest → ClientBody
  list_user_attachments : ListUserAttachmentsRequest → ClientBody
  list_events : ListEventsRequest → ClientBody
  operations_status : ClientBody
  metrics : ClientBody
  list_cluster_nodes : ClientBody
  list_node_logged_in_users : ListNodeLoggedInUsersRequest → ClientBody
  resolve_user_sessions : ResolveUserSessionsRequest → ClientBody
  get_user_metadata : GetUserMetadataRequest → ClientBody
  upsert_user_metadata : UpsertUserMetadataRequest → ClientBody
  delete_user_metadata : DeleteUserMetadataRequest → ClientBody
  scan_user_metadata : ScanUserMetadataRequest → ClientBody
