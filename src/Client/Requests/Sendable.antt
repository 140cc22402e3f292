-- ===== src/Client/Requests/Sendable.antt =====
-- What the requests are that src/client.rs sends: their references, keys, limits and logins.

use turntf_rs.Prelude.{
  ℤ, pos, String, ◌≡◌, ◌≢◌, ◌⊎◌, Bool, false, not, ◌&&◌, [], ◌≤ℤ◌, Option, none, some, ok, err,
  str_eq,
}
use turntf_rs.Errors.{Fallible}
use turntf_rs.Types.{UserRef}
use turntf_rs.Proto
use turntf_rs.Proto.{
  ClientBody, send_message, create_user, get_user, update_user, delete_user, list_users,
  list_messages, upsert_user_attachment, delete_user_attachment, list_user_attachments,
  list_node_logged_in_users, resolve_user_sessions, get_user_metadata, upsert_user_metadata,
  delete_user_metadata, scan_user_metadata,
}
use turntf_rs.Validation.{trim}
use turntf_rs.Validation.Sound.{IsPositive, IsUserRef, IsSessionRef}
use turntf_rs.Validation.Keys.{IsKey, IsFragment, IsScanLimit}
use turntf_rs.Validation.Upserts.{IsAllowed, is_some}

-- A reference that must be there.
abbrev pub HasUser : Option UserRef → Type 0
HasUser none = ⊥
HasUser (some r) = IsUserRef r

-- A reference that may be missing.
abbrev pub HasOptional : {A : Type 0} → (A → Type 0) → Option A → Type 0
HasOptional P none = Unit {0}
HasOptional P (some a) = P a

abbrev pub names_channel : Option String → Bool
unfolding trim
names_channel none = false
names_channel (some role) = str_eq (trim role) "channel"

abbrev pub is_login : Option String → Bool
is_login none = false
is_login (some value) = not (str_eq value "")

abbrev pub text_of : Option Proto.StringField → Option String
text_of none = none
text_of (some field) = some field.value

-- A channel has no login name.
abbrev pub HasLoginOf : Option String → Option String → Type 0
HasLoginOf role login_name = (names_channel role && is_login login_name) ≡ false

-- A message is kept, with no mode and no session, or is transient, with a mode and perhaps a session.
abbrev pub HasDelivery : Proto.SendMessageRequest → Type 0
HasDelivery r =
    (r.delivery_kind ≡ pos 0) × (r.delivery_mode ≡ pos 0) × (r.target_session ≡ none)
    ⊎ (r.delivery_kind ≡ pos 2)
      × ((r.delivery_mode ≡ pos 1) ⊎ (r.delivery_mode ≡ pos 2))
      × HasOptional IsSessionRef r.target_session

abbrev pub IsAttachmentType : ℤ → Type 0
IsAttachmentType n = (pos 1 ≤ℤ n) × (n ≤ℤ pos 4)

-- What a server may take for granted of a request.
abbrev pub IsSendable : ClientBody → Type 0
IsSendable (send_message r) = HasUser r.target × (r.body ≢ []) × HasDelivery r
IsSendable (create_user r) =
    (r.username ≢ "") × (r.role ≢ "") × HasLoginOf (some r.role) (some r.login_name)
IsSendable (get_user r) = HasUser r.user
IsSendable (update_user r) = HasUser r.user × HasLoginOf (text_of r.role) (text_of r.login_name)
IsSendable (delete_user r) = HasUser r.user
IsSendable (list_users r) = HasOptional IsUserRef r.uid
IsSendable (list_messages r) = HasUser r.user
IsSendable (upsert_user_attachment r) =
    HasUser r.owner × HasUser r.subject × IsAttachmentType r.attachment_type
IsSendable (delete_user_attachment r) =
    HasUser r.owner × HasUser r.subject × IsAttachmentType r.attachment_type
IsSendable (list_user_attachments r) =
    HasUser r.owner × (pos 0 ≤ℤ r.attachment_type) × (r.attachment_type ≤ℤ pos 4)
IsSendable (list_node_logged_in_users r) = IsPositive r.node_id
IsSendable (resolve_user_sessions r) = HasUser r.user
IsSendable (get_user_metadata r) = HasUser r.owner × IsKey r.key
IsSendable (upsert_user_metadata r) =
    HasUser r.owner × IsKey r.key × IsAllowed r.key r.value (is_some r.expires_at)
IsSendable (delete_user_metadata r) = HasUser r.owner × IsKey r.key
IsSendable (scan_user_metadata r) =
    HasUser r.owner × IsFragment r.prefix × IsFragment r.after × IsScanLimit r.limit
IsSendable _ = Unit {0}

-- The request that the checks let through, if they do.
abbrev pub AllSendable : Fallible ClientBody → Type 0
AllSendable (ok body) = IsSendable body
AllSendable (err e) = Unit {0}
