-- ===== src/Client/Requests/Attachments.antt =====
-- The calls of src/client.rs for attachments, and those for subscriptions and the blacklist, which are
-- made of them.
use turntf_rs.Prelude.{pos, List, [], ◌∷◌, map, Option, none, some, ok, ◌>>◌}
use turntf_rs.Errors.{Fallible}
use turntf_rs.Types.{
  Json, Bytes, UserRef, Attachment, AttachmentType, channel_subscription, user_blacklist,
  Subscription, BlacklistEntry,
}
use turntf_rs.Proto.{ClientBody}
use turntf_rs.Mapping.{
  user_ref_to_proto, attachment_type_to_proto, subscription_from_attachment,
  blacklist_entry_from_attachment,
}
use turntf_rs.Validation.{validate_user_ref}
use turntf_rs.Client.Call.{Call, map_call, attachment_of, attachments_of}

-- `b"{}"`
abbrev pub empty_object : Bytes
empty_object = 123 ∷ 125 ∷ []

unfoldable pub upsert_request : UserRef → UserRef → AttachmentType → Bytes → Fallible ClientBody
unfolding validate_user_ref attachment_type_to_proto
upsert_request owner subject attachment_type config_json = do
  validate_user_ref owner "owner"
  validate_user_ref subject "subject"
  ok (
      ClientBody.upsert_user_attachment (record {
        owner = some (user_ref_to_proto owner);
        subject = some (user_ref_to_proto subject);
        attachment_type = attachment_type_to_proto attachment_type;
        config_json = config_json;
      }))

unfoldable pub delete_request : UserRef → UserRef → AttachmentType → Fallible ClientBody
unfolding validate_user_ref attachment_type_to_proto
delete_request owner subject attachment_type = do
  validate_user_ref owner "owner"
  validate_user_ref subject "subject"
  ok (
      ClientBody.delete_user_attachment (record {
        owner = some (user_ref_to_proto owner);
        subject = some (user_ref_to_proto subject);
        attachment_type = attachment_type_to_proto attachment_type;
      }))

-- `AttachmentType::Unspecified` asks for every type.
unfoldable pub list_request : UserRef → Option AttachmentType → Fallible ClientBody
unfolding validate_user_ref attachment_type_to_proto
list_request owner attachment_type = do
  validate_user_ref owner "owner"
  ok (
      ClientBody.list_user_attachments (record {
        owner = some (user_ref_to_proto owner);
        attachment_type = elim attachment_type [
          | none ↦ pos 0
          | some t ↦ attachment_type_to_proto t
        ];
      }))

module _ {J : Json} where
  -- `upsert_attachment`
  abbrev pub upsert_attachment : UserRef → UserRef → AttachmentType → Bytes → Call J Attachment
  upsert_attachment owner subject attachment_type config_json = record {
    request = upsert_request owner subject attachment_type config_json;
    answer_of = attachment_of;
    missing = "missing attachment in upsert_user_attachment_response";
  }

  -- `delete_attachment`
  abbrev pub delete_attachment : UserRef → UserRef → AttachmentType → Call J Attachment
  delete_attachment owner subject attachment_type = record {
    request = delete_request owner subject attachment_type;
    answer_of = attachment_of;
    missing = "missing attachment in delete_user_attachment_response";
  }

  -- `list_attachments`
  abbrev pub list_attachments : UserRef → Option AttachmentType → Call J (List Attachment)
  list_attachments owner attachment_type = record {
    request = list_request owner attachment_type;
    answer_of = attachments_of;
    missing = "missing items in list_user_attachments_response";
  }

  -- `subscribe_channel`, and `create_subscription`, which is the same
  abbrev pub subscribe_channel : UserRef → UserRef → Call J Subscription
  subscribe_channel subscriber channel =
      map_call subscription_from_attachment
        (upsert_attachment subscriber channel channel_subscription empty_object)

  -- `unsubscribe_channel`
  abbrev pub unsubscribe_channel : UserRef → UserRef → Call J Subscription
  unsubscribe_channel subscriber channel =
      map_call subscription_from_attachment
        (delete_attachment subscriber channel channel_subscription)

  -- `list_subscriptions`
  abbrev pub list_subscriptions : UserRef → Call J (List Subscription)
  list_subscriptions subscriber =
      map_call (map subscription_from_attachment)
        (list_attachments subscriber (some channel_subscription))

  -- `block_user`
  abbrev pub block_user : UserRef → UserRef → Call J BlacklistEntry
  block_user owner blocked =
      map_call blacklist_entry_from_attachment
        (upsert_attachment owner blocked user_blacklist empty_object)

  -- `unblock_user`
  abbrev pub unblock_user : UserRef → UserRef → Call J BlacklistEntry
  unblock_user owner blocked =
      map_call blacklist_entry_from_attachment (delete_attachment owner blocked user_blacklist)

  -- `list_blocked_users`
  abbrev pub list_blocked_users : UserRef → Call J (List BlacklistEntry)
  list_blocked_users owner =
      map_call (map blacklist_entry_from_attachment) (list_attachments owner (some user_blacklist))
