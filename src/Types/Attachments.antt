-- ===== src/Types/Attachments.antt =====
-- Attachments of src/types.rs, and the two relations that are read off them.
use turntf_rs.Prelude.{ℤ, String}
use turntf_rs.Types.Core.{Bytes, UserRef}

pub data AttachmentType : Type 0 where
  channel_manager channel_writer channel_subscription user_blacklist : AttachmentType

-- `AttachmentType::as_str`
unfoldable pub as_str : AttachmentType → String
as_str channel_manager = "channel_manager"
as_str channel_writer = "channel_writer"
as_str channel_subscription = "channel_subscription"
as_str user_blacklist = "user_blacklist"

pub record Attachment : Type 0 where
  pub owner : UserRef
  pub subject : UserRef
  pub attachment_type : AttachmentType
  pub config_json : Bytes
  pub attached_at : String
  pub deleted_at : String
  pub origin_node_id : ℤ

pub record Subscription : Type 0 where
  pub subscriber : UserRef
  pub channel : UserRef
  pub subscribed_at : String
  pub deleted_at : String
  pub origin_node_id : ℤ

pub record BlacklistEntry : Type 0 where
  pub owner : UserRef
  pub blocked : UserRef
  pub blocked_at : String
  pub deleted_at : String
  pub origin_node_id : ℤ
