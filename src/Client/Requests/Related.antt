-- ===== src/Client/Requests/Related.antt =====
-- The calls of src/client.rs for subscriptions and the blacklist, from the request to what they return.
use turntf_rs.Prelude.{ℤ, String, List, [], Option, none, some, ok, ◌>>=◌}
use turntf_rs.Errors.{Fallible}
use turntf_rs.Types.{Json, UserRef, Attachment, AttachmentType, Subscription, BlacklistEntry}
use turntf_rs.Proto
use turntf_rs.Proto.{ClientBody}
use turntf_rs.Mapping.{attachment_from_proto}
use turntf_rs.Client.Session.{record_of}
use turntf_rs.Client.Answers.{Answer, attachments_from_proto}
use turntf_rs.Client.Call.{Call, taken}

-- What a call returns when the server answers with an attachment, or with a list of them.
abbrev pub returned : {J : Json} {A : Type 0} → Call J A → Option Proto.Attachment → Fallible A
returned call a = attachment_from_proto a >>= λ v. taken call (ok (record_of (Answer.attachment v)))

abbrev pub returned_list : {J : Json} {A : Type 0} → Call J A → List Proto.Attachment → Fallible A
returned_list call xs =
    attachments_from_proto xs >>= λ vs. taken call (ok (record_of (Answer.attachments vs)))

-- What the server adds to an attachment that it stores.
pub record Stamp : Type 0 where
  pub attached_at : String
  pub deleted_at : String
  pub origin_node_id : ℤ

-- The attachment that the server stores for a request, and sends back.
abbrev pub kept : Stamp → ClientBody → Option Proto.Attachment
kept stamp (ClientBody.upsert_user_attachment r) = some (record {
  owner = r.owner;
  subject = r.subject;
  attachment_type = r.attachment_type;
  config_json = r.config_json;
  attached_at = stamp.attached_at;
  deleted_at = stamp.deleted_at;
  origin_node_id = stamp.origin_node_id;
})
kept stamp (ClientBody.delete_user_attachment r) = some (record {
  owner = r.owner;
  subject = r.subject;
  attachment_type = r.attachment_type;
  config_json = [];
  attached_at = stamp.attached_at;
  deleted_at = stamp.deleted_at;
  origin_node_id = stamp.origin_node_id;
})
kept stamp _ = none

-- A call whose request the server carries out and answers.
abbrev pub carried_out : {J : Json} {A : Type 0} → Stamp → Call J A → Fallible A
carried_out stamp call = call.request >>= λ body. returned call (kept stamp body)

-- The attachment of a type that the server keeps for an owner and a subject.
abbrev pub listed : UserRef → ℤ → UserRef × Stamp → Proto.Attachment
listed owner type_number (subject, stamp) = record {
  owner = some owner;
  subject = some subject;
  attachment_type = type_number;
  config_json = [];
  attached_at = stamp.attached_at;
  deleted_at = stamp.deleted_at;
  origin_node_id = stamp.origin_node_id;
}

abbrev pub subscribed : UserRef → UserRef × Stamp → Subscription
subscribed owner (other, stamp) = record {
  subscriber = owner;
  channel = other;
  subscribed_at = stamp.attached_at;
  deleted_at = stamp.deleted_at;
  origin_node_id = stamp.origin_node_id;
}

abbrev pub blocked_by : UserRef → UserRef × Stamp → BlacklistEntry
blocked_by owner (other, stamp) = record {
  owner = owner;
  blocked = other;
  blocked_at = stamp.attached_at;
  deleted_at = stamp.deleted_at;
  origin_node_id = stamp.origin_node_id;
}

abbrev attachment_of : UserRef → AttachmentType → UserRef × Stamp → Attachment
attachment_of owner type_of_it (subject, stamp) = record {
  owner = owner;
  subject = subject;
  attachment_type = type_of_it;
  config_json = [];
  attached_at = stamp.attached_at;
  deleted_at = stamp.deleted_at;
  origin_node_id = stamp.origin_node_id;
}
