-- ===== src/Proto/Core.antt =====
-- The messages of proto/client.proto about users, messages, packets and attachments.
use turntf_rs.Prelude.{ℕ, ℤ, String, Bool, List, Option}
use turntf_rs.Types.{Bytes, UserRef, SessionRef}

pub record User : Type 0 where
  pub node_id : ℤ
  pub user_id : ℤ
  pub username : String
  pub role : String
  pub profile_json : Bytes
  pub system_reserved : Bool
  pub created_at : String
  pub updated_at : String
  pub origin_node_id : ℤ
  pub login_name : String

pub record Message : Type 0 where
  pub recipient : Option UserRef
  pub node_id : ℤ
  pub seq : ℤ
  pub sender : Option UserRef
  pub body : Bytes
  pub created_at_hlc : String

pub record Packet : Type 0 where
  pub packet_id : ℕ
  pub source_node_id : ℤ
  pub target_node_id : ℤ
  pub recipient : Option UserRef
  pub sender : Option UserRef
  pub body : Bytes
  pub delivery_mode : ℤ
  pub target_session : Option SessionRef

pub record TransientAccepted : Type 0 where
  pub packet_id : ℕ
  pub source_node_id : ℤ
  pub target_node_id : ℤ
  pub recipient : Option UserRef
  pub delivery_mode : ℤ
  pub target_session : Option SessionRef

pub record Attachment : Type 0 where
  pub owner : Option UserRef
  pub subject : Option UserRef
  pub attachment_type : ℤ
  pub config_json : Bytes
  pub attached_at : String
  pub deleted_at : String
  pub origin_node_id : ℤ

pub record UserMetadata : Type 0 where
  pub owner : Option UserRef
  pub key : String
  pub value : Bytes
  pub updated_at : String
  pub deleted_at : String
  pub expires_at : String
  pub origin_node_id : ℤ

pub record LoginResponse : Type 0 where
  pub user : Option User
  pub protocol_version : String
  pub session_ref : Option SessionRef

pub record DeleteUserResponse : Type 0 where
  pub status : String
  pub user : Option UserRef

pub record ScanUserMetadataResponse : Type 0 where
  pub items : List UserMetadata
  pub count : ℤ
  pub next_after : String
