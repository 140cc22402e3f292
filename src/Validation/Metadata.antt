-- ===== src/Validation/Metadata.antt =====
-- The checks of user metadata in src/validation.rs. How `{:?}` writes a character is a parameter.
use Prim.Native.Char.{Char, code}
use Prim.Native.String.{◌++◌, [], ◌∷◌}
use mathlib.Core.List.{[] as nil, ◌∷◌ as ◌⸬◌}
use turntf_rs.Prelude.{
  ℕ, ℤ, pos, String, Bool, true, false, ◌&&◌, ◌||◌, ltb, leb, ◌==◌, ltb_ℤ, str_eq, Option, none,
  some, if◌then◌else◌, ok, err, ok_or, ◌>>=◌,
}
use turntf_rs.Errors.{Fallible, validation, show}
use turntf_rs.Types.{
  Bytes, Json, UserMetadataTypedValue, bool, UpsertUserMetadataRequest, visible_to_others_key,
  to_raw_bytes,
}
use turntf_rs.Utf8.{len, from_utf8}
use turntf_rs.Validation.Text.{trim}

abbrev key_max_length : ℕ
key_max_length = 128

abbrev scan_limit_max : ℕ
scan_limit_max = 1000

-- The characters that a key may have: letters and digits of ASCII, and four more.
abbrev pub is_key_char : ℕ → Bool
is_key_char c =
    leb 0x61 c && leb c 0x7a
    || leb 0x41 c && leb c 0x5a
    || leb 0x30 c && leb c 0x39
    || c == 0x2e
    || c == 0x5f
    || c == 0x3a
    || c == 0x2d

-- `validate_user_metadata_scan_limit`
unfoldable pub validate_user_metadata_scan_limit : ℤ → Fallible (Unit {0})
validate_user_metadata_scan_limit limit =
    if ltb_ℤ limit (pos 0)
    then err (validation "limit must be positive")
    else if ltb_ℤ (pos scan_limit_max) limit
    then err (validation ("limit cannot exceed " ++ show scan_limit_max))
    else ok tt

unfoldable pub is_bool_text : String → Bool
is_bool_text s = str_eq (trim s) "true" || str_eq (trim s) "false"

unfoldable pub bool_text : String → String → Fallible (Unit {0})
unfolding is_bool_text
bool_text field s =
    if is_bool_text s then ok tt else err (validation (field ++ " must be \"true\" or \"false\""))

-- `validate_user_metadata_bool_bytes`
unfoldable pub validate_user_metadata_bool_bytes : Bytes → String → Fallible (Unit {0})
unfolding bool_text from_utf8 trim
validate_user_metadata_bool_bytes value field =
    ok_or (validation (field ++ " must be a UTF-8 boolean")) (from_utf8 value) >>= bool_text field

abbrev pub is_empty : Bytes → Bool
is_empty nil = true
is_empty (b ⸬ bs) = false

abbrev both_set : {A : Type 0} → Fallible A
both_set = err (validation "value and typed_value cannot both be set")

unfoldable pub no_expiry : Option String → Fallible (Unit {0})
no_expiry none = ok tt
no_expiry (some _) =
    err (validation ("metadata key " ++ visible_to_others_key ++ " does not allow expires_at"))

module _ {J : Json} where
  unfoldable pub visible_value : Option (UserMetadataTypedValue J) → Bytes → Fallible (Unit {0})
  unfolding validate_user_metadata_bool_bytes
  visible_value (some (bool _)) value = ok tt
  visible_value (some _) value =
      err (validation ("metadata key " ++ visible_to_others_key ++ " requires typed_value bool"))
  visible_value none value = validate_user_metadata_bool_bytes value "value"

  unfoldable pub one_value : Option (UserMetadataTypedValue J) → Bytes → Fallible (Unit {0})
  one_value none value = ok tt
  one_value (some _) value = if is_empty value then ok tt else both_set

  -- `validate_upsert_user_metadata_request`
  unfoldable pub validate_upsert_user_metadata_request :
      String → UpsertUserMetadataRequest J → Fallible (Unit {0})
  unfolding one_value no_expiry visible_value
  validate_upsert_user_metadata_request key request =
      one_value request.typed_value request.value >>= λ _.
      if str_eq key visible_to_others_key
      then (no_expiry request.expires_at >>= λ _. visible_value request.typed_value request.value)
      else ok tt

  unfoldable pub resolve : Option (UserMetadataTypedValue J) → Bytes → Fallible Bytes
  unfolding to_raw_bytes
  resolve none value = ok value
  resolve (some typed_value) value =
      if is_empty value then ok (to_raw_bytes typed_value) else both_set

  -- `resolve_upsert_user_metadata_value`
  unfoldable pub resolve_upsert_user_metadata_value : UpsertUserMetadataRequest J → Fallible Bytes
  unfolding resolve
  resolve_upsert_user_metadata_value request = resolve request.typed_value request.value

module _ (debug_char : Char → String) where
  unfoldable pub check_chars : String → String → Fallible (Unit {0})
  check_chars field [] = ok tt
  check_chars field (c ∷ s) =
      let rest = check_chars field s in
      if is_key_char (code c)
      then rest
      else err (validation (field ++ " contains unsupported character " ++ debug_char c))

  -- `validate_user_metadata_key_fragment`
  unfoldable pub validate_user_metadata_key_fragment : String → String → Bool → Fallible (Unit {0})
  unfolding check_chars len
  validate_user_metadata_key_fragment value field allow_empty =
      if str_eq value ""
      then (if allow_empty then ok tt else err (validation (field ++ " cannot be empty")))
      else if ltb key_max_length (len value)
      then err (validation (field ++ " exceeds " ++ show key_max_length ++ " characters"))
      else check_chars field value

  -- `validate_user_metadata_key`
  unfoldable pub validate_user_metadata_key : String → String → Fallible (Unit {0})
  unfolding validate_user_metadata_key_fragment
  validate_user_metadata_key value field = validate_user_metadata_key_fragment value field false

  -- `validate_optional_user_metadata_key_fragment`
  unfoldable pub validate_optional_user_metadata_key_fragment :
      String → String → Fallible (Unit {0})
  unfolding validate_user_metadata_key_fragment
  validate_optional_user_metadata_key_fragment value field =
      validate_user_metadata_key_fragment value field true
