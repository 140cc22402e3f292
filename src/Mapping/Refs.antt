-- ===== src/Mapping/Refs.antt =====
-- The conversions of src/mapping.rs for enums and references. A number that is no value of an enum is
-- the fallback of the source.
use Prim.Native.String.{◌++◌ as ◌⧺◌}
use turntf_rs.Prelude.{
  ℤ, pos, negsuc, Option, none, some, ok, err, ◌>>=◌, leb_ℤ, ◌==◌, str_eq, if◌then◌else◌,
}
use turntf_rs.Errors.{Fallible, protocol, show_ℤ}
use turntf_rs.Types.{
  UserRef, SessionRef, MessageCursor, DeliveryMode, default_user_ref, AttachmentType,
  channel_manager, channel_writer, channel_subscription, user_blacklist,
}

-- `delivery_mode_to_proto`
unfoldable pub delivery_mode_to_proto : DeliveryMode → ℤ
delivery_mode_to_proto DeliveryMode.unspecified = pos 0
delivery_mode_to_proto DeliveryMode.best_effort = pos 1
delivery_mode_to_proto DeliveryMode.route_retry = pos 2

-- `delivery_mode_from_proto`
unfoldable pub delivery_mode_from_proto : ℤ → DeliveryMode
delivery_mode_from_proto (pos n) =
    if n == 1
    then DeliveryMode.best_effort
    else if n == 2
    then DeliveryMode.route_retry
    else DeliveryMode.unspecified
delivery_mode_from_proto (negsuc n) = DeliveryMode.unspecified

-- `attachment_type_to_proto`
unfoldable pub attachment_type_to_proto : AttachmentType → ℤ
attachment_type_to_proto channel_manager = pos 1
attachment_type_to_proto channel_writer = pos 2
attachment_type_to_proto channel_subscription = pos 3
attachment_type_to_proto user_blacklist = pos 4

abbrev unsupported_type : ℤ → Fallible AttachmentType
unsupported_type n = err (protocol ("unsupported attachment type " ⧺ show_ℤ n))

-- `attachment_type_from_proto`
unfoldable pub attachment_type_from_proto : ℤ → Fallible AttachmentType
attachment_type_from_proto (pos n) =
    if n == 1
    then ok channel_manager
    else if n == 2
    then ok channel_writer
    else if n == 3
    then ok channel_subscription
    else if n == 4
    then ok user_blacklist
    else unsupported_type (pos n)
attachment_type_from_proto (negsuc n) = unsupported_type (negsuc n)

-- `user_ref_to_proto`
abbrev pub user_ref_to_proto : UserRef → UserRef
user_ref_to_proto value = record { node_id = value.node_id; user_id = value.user_id }

-- `cursor_to_proto`
abbrev pub cursor_to_proto : MessageCursor → MessageCursor
cursor_to_proto value = record { node_id = value.node_id; seq = value.seq }

-- `session_ref_to_proto`
abbrev pub session_ref_to_proto : SessionRef → SessionRef
session_ref_to_proto value = record {
  serving_node_id = value.serving_node_id;
  session_id = value.session_id;
}

-- `user_ref_from_proto`
unfoldable pub user_ref_from_proto : Option UserRef → UserRef
user_ref_from_proto none = default_user_ref
user_ref_from_proto (some value) = record { node_id = value.node_id; user_id = value.user_id }

-- `session_ref_from_proto`
unfoldable pub session_ref_from_proto : Option SessionRef → Fallible SessionRef
session_ref_from_proto none = err (protocol "missing session_ref")
session_ref_from_proto (some value) =
    if leb_ℤ value.serving_node_id (pos 0)
    then err (protocol "invalid session_ref.serving_node_id")
    else if str_eq value.session_id ""
    then err (protocol "invalid session_ref.session_id")
    else ok (record { serving_node_id = value.serving_node_id; session_id = value.session_id })

-- `map(f).transpose()` of an option.
abbrev pub transpose_map : {A B : Type 0} → (A → Fallible B) → Option A → Fallible (Option B)
transpose_map f none = ok none
transpose_map f (some a) = f a >>= λ b. ok (some b)

-- `optional_session_ref_from_proto`
unfoldable pub optional_session_ref_from_proto : Option SessionRef → Fallible (Option SessionRef)
unfolding session_ref_from_proto
optional_session_ref_from_proto value =
    transpose_map (λ value. session_ref_from_proto (some value)) value
