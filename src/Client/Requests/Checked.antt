-- ===== src/Client/Requests/Checked.antt =====
-- The checks of each typed call of src/client.rs, against what its request must be.
pub mod Users
pub mod Metadata
use Prim.Native.Char.{Char}
use turntf_rs.Prelude.{
  ℕ, ℤ, pos, String, ◌≡◌, refl, ◌≢◌, ◌⊎◌, inl, inr, Bool, true, false, not, ◌&&◌, List, [], ◌∷◌,
  Option, none, some, map_option, Result, ok, err, ◌>>=◌, str_eq, eq_iff, if◌then◌else◌, Bool-cases,
  if_cases, arith, ◌≤ℤ◌, negsuc,
}
use turntf_rs.Errors.{Error, Fallible}
use turntf_rs.Types.{
  Json, Bytes, UserRef, SessionRef, DeliveryMode, AttachmentType, CreateUserRequest,
  UpdateUserRequest, ListUsersRequest, UpsertUserMetadataRequest, ScanUserMetadataRequest,
}
use turntf_rs.Proto.{ClientBody}
use turntf_rs.Mapping.{
  delivery_mode_to_proto, attachment_type_to_proto, transpose_map, session_ref_to_proto,
}
use turntf_rs.Validation.{
  validate_user_ref, validate_positive_i64, validate_optional_user_ref, validate_session_ref,
  validate_delivery_mode, validate_user_metadata_key, validate_optional_user_metadata_key_fragment,
  validate_user_metadata_scan_limit, validate_upsert_user_metadata_request,
  resolve_upsert_user_metadata_value, normalize_login_name, trim, is_empty,
}
use turntf_rs.Validation.Sound.{
  IsUserRef, IsSessionRef, bind_ok, guard_ok, validate_positive_i64-IsPositive, user_ref-IsUserRef,
  optional_ref-IsUserRef, session_ref-IsSessionRef,
}
use turntf_rs.Validation.Keys.{
  IsKey, IsFragment, validate_user_metadata_key-IsKey,
  validate_user_metadata_key_fragment-IsFragment, validate_user_metadata_scan_limit-IsScanLimit,
}
use turntf_rs.Validation.Upserts.{upsert-IsAllowed, IsAllowed, is_some}
use turntf_rs.Password.{wire_value}
use turntf_rs.Client.Packets.{check_packet, check_body, check_session, packet_request}
use turntf_rs.Client.Requests.Messages.{
  message_request, session_packet_request, list_messages_request, sessions_request,
}
use turntf_rs.Client.Requests.Users.{
  create_user_request, get_user_request, update_user_request, delete_user_request,
  list_users_request, required, given, filled, allowed_login, is_channel, is_given, or_empty,
  text_field,
}
use turntf_rs.Client.Requests.Metadata.{
  get_metadata_request, upsert_metadata_request, delete_metadata_request, scan_metadata_request,
}
use turntf_rs.Client.Requests.Attachments.{upsert_request, delete_request, list_request}
use turntf_rs.Client.Requests.Cluster.{logged_in_request}
use turntf_rs.Client.Requests.Sendable.{
  AllSendable, IsSendable, HasOptional, IsAttachmentType, HasDelivery, HasLoginOf, text_of,
}

-- After a check, the rest need only be right where the check succeeds.
pub after :
    {A : Type 0} (m : Fallible A) (f : A → Fallible ClientBody)
    → ((a : A) → m ≡ ok a → AllSendable (f a))
    → AllSendable (m >>= f)
after (ok a) f h = h a refl
after (err e) f h = tt

-- After the check of a reference.
pub after_ref :
    (value : UserRef) (field : String) (rest : Fallible ClientBody)
    → (IsUserRef value → AllSendable rest)
    → AllSendable (validate_user_ref value field >>= λ _. rest)
after_ref value field rest h =
    after (validate_user_ref value field) _ (λ _ e. h (user_ref-IsUserRef value field e))

attachment_type_to_proto-IsAttachmentType :
    (t : AttachmentType) → IsAttachmentType (attachment_type_to_proto t)
unfolding attachment_type_to_proto
attachment_type_to_proto-IsAttachmentType AttachmentType.channel_manager =
    (ground arith, ground arith)
attachment_type_to_proto-IsAttachmentType AttachmentType.channel_writer =
    (ground arith, ground arith)
attachment_type_to_proto-IsAttachmentType AttachmentType.channel_subscription =
    (ground arith, ground arith)
attachment_type_to_proto-IsAttachmentType AttachmentType.user_blacklist =
    (ground arith, ground arith)

weaken : (n : ℤ) → pos 1 ≤ℤ n → pos 0 ≤ℤ n
weaken (pos n) h = ground arith
weaken (negsuc n) h = ground arith

pub message_request_lem :
    (target : UserRef) (body : Bytes) → AllSendable (message_request target body)
unfolding message_request
message_request_lem target [] = after_ref target "target" _ (λ _. tt)
message_request_lem target (b ∷ bs) =
    after_ref target "target" _ (λ h. (h, (λ e. absurd (cc e)), inl (refl, refl, refl)))

pub list_messages_request_lem :
    (target : UserRef) (limit : ℤ) → AllSendable (list_messages_request target limit)
unfolding list_messages_request
list_messages_request_lem target limit = after_ref target "target" _ (λ h. h)

pub sessions_request_lem : (user : UserRef) → AllSendable (sessions_request user)
unfolding sessions_request
sessions_request_lem user = after_ref user "user" _ (λ h. h)

pub get_user_request_lem : (target : UserRef) → AllSendable (get_user_request target)
unfolding get_user_request
get_user_request_lem target = after_ref target "target" _ (λ h. h)

pub delete_user_request_lem : (target : UserRef) → AllSendable (delete_user_request target)
unfolding delete_user_request
delete_user_request_lem target = after_ref target "target" _ (λ h. h)

pub upsert_request_lem :
    (owner subject : UserRef) (t : AttachmentType) (config : Bytes)
    → AllSendable (upsert_request owner subject t config)
unfolding upsert_request
upsert_request_lem owner subject t config =
    after_ref owner "owner" _ (λ h.
      after_ref subject "subject" _ (λ g. (h, g, attachment_type_to_proto-IsAttachmentType t)))

pub delete_request_lem :
    (owner subject : UserRef) (t : AttachmentType) → AllSendable (delete_request owner subject t)
unfolding delete_request
delete_request_lem owner subject t =
    after_ref owner "owner" _ (λ h.
      after_ref subject "subject" _ (λ g. (h, g, attachment_type_to_proto-IsAttachmentType t)))

pub list_request_lem :
    (owner : UserRef) (t : Option AttachmentType) → AllSendable (list_request owner t)
unfolding list_request
list_request_lem owner none = after_ref owner "owner" _ (λ h. (h, ground arith, ground arith))
list_request_lem owner (some t) =
    let (low, high) = attachment_type_to_proto-IsAttachmentType t in
    after_ref owner "owner" _ (λ h. (h, weaken _ low, high))

pub logged_in_request_lem : (node_id : ℤ) → AllSendable (logged_in_request node_id)
unfolding logged_in_request
logged_in_request_lem node_id =
    after (validate_positive_i64 node_id "node_id") _
      (λ _ e. validate_positive_i64-IsPositive node_id "node_id" e)

session-HasOptional :
    (session : Option SessionRef) → check_session session ≡ ok tt → HasOptional IsSessionRef session
unfolding check_session
session-HasOptional none e = tt
session-HasOptional (some s) e = session_ref-IsSessionRef s "target_session" e

mode_lem :
    (mode : DeliveryMode)
    → validate_delivery_mode mode ≡ ok tt
    → (delivery_mode_to_proto mode ≡ pos 1) ⊎ (delivery_mode_to_proto mode ≡ pos 2)
unfolding validate_delivery_mode delivery_mode_to_proto
mode_lem DeliveryMode.unspecified e = absurd (cc e)
mode_lem DeliveryMode.best_effort e = inl refl
mode_lem DeliveryMode.route_retry e = inr refl

body_lem : (body : Bytes) → check_body body ≡ ok tt → body ≢ []
unfolding check_body
body_lem [] e = absurd (cc e)
body_lem (b ∷ bs) e = λ empty. absurd (cc empty)

kept :
    (session : Option SessionRef)
    → HasOptional IsSessionRef session
    → HasOptional IsSessionRef (map_option session_ref_to_proto session)
kept none h = tt
kept (some s) h = h

pub packet_request_lem :
    (target : UserRef) (body : Bytes) (mode : DeliveryMode) (session : Option SessionRef)
    → AllSendable (session_packet_request target body mode session)
unfolding session_packet_request packet_request
packet_request_lem target body mode session =
    after (check_packet target body mode session) _ (λ _ e.
      let (_, ref, e1) =
        bind_ok (validate_user_ref target "target") _ tt (unfold check_packet in e) in
      let (_, moded, e2) = bind_ok (validate_delivery_mode mode) _ tt e1 in
      let (_, there, filled) = bind_ok (check_session session) _ tt e2 in
      (
        user_ref-IsUserRef target "target" ref,
        body_lem body filled,
        inr (refl, mode_lem mode moded, kept session (session-HasOptional session there)),
      ))
