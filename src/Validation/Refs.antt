-- ===== src/Validation/Refs.antt =====
-- The checks of numbers, names, references and delivery modes in src/validation.rs.
use Prim.Native.String.{◌++◌}
use turntf_rs.Prelude.{
  ℤ, pos, String, Bool, true, false, ◌&&◌, leb_ℤ, str_eq, if◌then◌else◌, ok, err, ◌>>◌,
}
use turntf_rs.Errors.{Fallible, validation}
use turntf_rs.Types.{UserRef, SessionRef, DeliveryMode}
use turntf_rs.Validation.Text.{trim, normalize_login_name}

abbrev required : String → String
required field = field ++ " is required"

-- `validate_positive_i64`
unfoldable pub validate_positive_i64 : ℤ → String → Fallible (Unit {0})
validate_positive_i64 value field =
    if leb_ℤ value (pos 0) then err (validation (required field)) else ok tt

-- `validate_login_name`
unfoldable pub validate_login_name : String → String → Fallible (Unit {0})
unfolding normalize_login_name
validate_login_name value field =
    if str_eq (normalize_login_name value) "" then err (validation (required field)) else ok tt

-- `validate_user_ref`
unfoldable pub validate_user_ref : UserRef → String → Fallible (Unit {0})
unfolding validate_positive_i64
validate_user_ref value field = do
  validate_positive_i64 value.node_id (field ++ ".node_id")
  validate_positive_i64 value.user_id (field ++ ".user_id")
  ok tt

abbrev pub is_zero : ℤ → Bool
is_zero (pos n) = leb_ℤ (pos n) (pos 0)
is_zero _ = false

-- `validate_optional_user_ref`
unfoldable pub validate_optional_user_ref : UserRef → String → Fallible Bool
unfolding validate_user_ref
validate_optional_user_ref value field =
    if is_zero value.node_id && is_zero value.user_id
    then ok false
    else (do validate_user_ref value field; ok true)

-- `validate_session_ref`
unfoldable pub validate_session_ref : SessionRef → String → Fallible (Unit {0})
unfolding validate_positive_i64 trim
validate_session_ref value field = do
  validate_positive_i64 value.serving_node_id (field ++ ".serving_node_id")
  if str_eq (trim value.session_id) ""
      then err (validation (required (field ++ ".session_id")))
      else ok tt

-- `validate_delivery_mode`
unfoldable pub validate_delivery_mode : DeliveryMode → Fallible (Unit {0})
validate_delivery_mode DeliveryMode.best_effort = ok tt
validate_delivery_mode DeliveryMode.route_retry = ok tt
validate_delivery_mode DeliveryMode.unspecified = err (validation "invalid delivery_mode \"\"")
