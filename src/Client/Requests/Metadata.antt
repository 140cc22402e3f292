-- ===== src/Client/Requests/Metadata.antt =====
-- The calls of src/client.rs for user metadata.
use Prim.Native.Char.{Char}
use turntf_rs.Prelude.{String, some, map_option, ok, ◌>>=◌, ◌>>◌}
use turntf_rs.Errors.{Fallible}
use turntf_rs.Types.{
  Json, UserRef, UserMetadata, UserMetadataScanResult, UpsertUserMetadataRequest,
  ScanUserMetadataRequest,
}
use turntf_rs.Proto.{ClientBody}
use turntf_rs.Mapping.{user_ref_to_proto}
use turntf_rs.Validation.{
  validate_user_ref, validate_user_metadata_key, validate_optional_user_metadata_key_fragment,
  validate_user_metadata_scan_limit, validate_upsert_user_metadata_request,
  resolve_upsert_user_metadata_value,
}
use turntf_rs.Client.Call.{Call, user_metadata_of, user_metadata_scan_result_of}

module _ (debug_char : Char → String) where
  unfoldable pub get_metadata_request : UserRef → String → Fallible ClientBody
  unfolding validate_user_ref validate_user_metadata_key
  get_metadata_request owner key = do
    validate_user_ref owner "owner"
    validate_user_metadata_key debug_char key "key"
    ok (ClientBody.get_user_metadata (record { owner = some (user_ref_to_proto owner); key = key }))

  -- `get_user_metadata`
  abbrev pub get_user_metadata : {J : Json} → UserRef → String → Call J (UserMetadata J)
  get_user_metadata owner key = record {
    request = get_metadata_request owner key;
    answer_of = user_metadata_of;
    missing = "missing metadata in get_user_metadata_response";
  }

  unfoldable pub upsert_metadata_request :
      {J : Json} → UserRef → String → UpsertUserMetadataRequest J → Fallible ClientBody
  unfolding validate_user_ref validate_user_metadata_key validate_upsert_user_metadata_request
      resolve_upsert_user_metadata_value
  upsert_metadata_request owner key request = do
    validate_user_ref owner "owner"
    validate_user_metadata_key debug_char key "key"
    validate_upsert_user_metadata_request key request
    value ← resolve_upsert_user_metadata_value request
    ok (
        ClientBody.upsert_user_metadata (record {
          owner = some (user_ref_to_proto owner);
          key = key;
          value = value;
          expires_at = map_option (λ value. record { value = value }) request.expires_at;
        }))

  -- `upsert_user_metadata`
  abbrev pub upsert_user_metadata :
      {J : Json} → UserRef → String → UpsertUserMetadataRequest J → Call J (UserMetadata J)
  upsert_user_metadata owner key request = record {
    request = upsert_metadata_request owner key request;
    answer_of = user_metadata_of;
    missing = "missing metadata in upsert_user_metadata_response";
  }

  unfoldable pub delete_metadata_request : UserRef → String → Fallible ClientBody
  unfolding validate_user_ref validate_user_metadata_key
  delete_metadata_request owner key = do
    validate_user_ref owner "owner"
    validate_user_metadata_key debug_char key "key"
    ok (
        ClientBody.delete_user_metadata
          (record { owner = some (user_ref_to_proto owner); key = key }))

  -- `delete_user_metadata`
  abbrev pub delete_user_metadata : {J : Json} → UserRef → String → Call J (UserMetadata J)
  delete_user_metadata owner key = record {
    request = delete_metadata_request owner key;
    answer_of = user_metadata_of;
    missing = "missing metadata in delete_user_metadata_response";
  }

  unfoldable pub scan_metadata_request : UserRef → ScanUserMetadataRequest → Fallible ClientBody
  unfolding validate_user_ref validate_optional_user_metadata_key_fragment
      validate_user_metadata_scan_limit
  scan_metadata_request owner request = do
    validate_user_ref owner "owner"
    validate_optional_user_metadata_key_fragment debug_char request.prefix "prefix"
    validate_optional_user_metadata_key_fragment debug_char request.after "after"
    validate_user_metadata_scan_limit request.limit
    ok (
        ClientBody.scan_user_metadata (record {
          owner = some (user_ref_to_proto owner);
          prefix = request.prefix;
          after = request.after;
          limit = request.limit;
        }))

  -- `scan_user_metadata`
  abbrev pub scan_user_metadata :
      {J : Json} → UserRef → ScanUserMetadataRequest → Call J (UserMetadataScanResult J)
  scan_user_metadata owner request = record {
    request = scan_metadata_request owner request;
    answer_of = user_metadata_scan_result_of;
    missing = "missing items in scan_user_metadata_response";
  }
