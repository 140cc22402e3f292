-- ===== src/Client/Requests/Checked/Metadata.antt =====
-- The checks of the calls of src/client.rs for metadata, against what their requests must be.
use Prim.Native.Char.{Char}
use turntf_rs.Prelude.{String, true, Option, none, some, map_option, ◌>>=◌}
use turntf_rs.Errors.{Fallible}
use turntf_rs.Types.{Json, Bytes, UserRef, UpsertUserMetadataRequest, ScanUserMetadataRequest}
use turntf_rs.Proto.{ClientBody}
use turntf_rs.Validation.{
  validate_user_metadata_key, validate_optional_user_metadata_key_fragment,
  validate_user_metadata_scan_limit, validate_upsert_user_metadata_request,
  resolve_upsert_user_metadata_value,
}
use turntf_rs.Validation.Keys.{
  IsKey, IsFragment, validate_user_metadata_key-IsKey,
  validate_user_metadata_key_fragment-IsFragment, validate_user_metadata_scan_limit-IsScanLimit,
}
use turntf_rs.Validation.Upserts.{upsert-IsAllowed, IsAllowed, is_some}
use turntf_rs.Client.Requests.Users.{text_field}
use turntf_rs.Client.Requests.Metadata.{
  get_metadata_request, upsert_metadata_request, delete_metadata_request, scan_metadata_request,
}
use turntf_rs.Client.Requests.Sendable.{AllSendable}
use turntf_rs.Client.Requests.Checked.{after, after_ref}

expiry :
    (key : String) (out : Bytes) (o : Option String)
    → IsAllowed key out (is_some o)
    → IsAllowed key out (is_some (map_option text_field o))
expiry key out none h = h
expiry key out (some _) h = h

module _ (debug_char : Char → String) where
  after_key :
      (key : String) (rest : Fallible ClientBody)
      → (IsKey key → AllSendable rest)
      → AllSendable (validate_user_metadata_key debug_char key "key" >>= λ _. rest)
  after_key key rest h =
      after (validate_user_metadata_key debug_char key "key") _
        (λ _ e. h ((validate_user_metadata_key-IsKey debug_char "key" key).0 e))

  after_fragment :
      (value field : String) (rest : Fallible ClientBody)
      → (IsFragment value → AllSendable rest)
      → AllSendable
          (validate_optional_user_metadata_key_fragment debug_char value field >>= λ _. rest)
  after_fragment value field rest h =
      after (validate_optional_user_metadata_key_fragment debug_char value field) _ (λ _ e. h (
        validate_user_metadata_key_fragment-IsFragment debug_char field value true
          (unfold validate_optional_user_metadata_key_fragment in e)))

  pub get_metadata_request_lem :
      (owner : UserRef) (key : String) → AllSendable (get_metadata_request debug_char owner key)
  unfolding get_metadata_request
  get_metadata_request_lem owner key =
      after_ref owner "owner" _ (λ h. after_key key _ (λ k. (h, k)))

  pub delete_metadata_request_lem :
      (owner : UserRef) (key : String) → AllSendable (delete_metadata_request debug_char owner key)
  unfolding delete_metadata_request
  delete_metadata_request_lem owner key =
      after_ref owner "owner" _ (λ h. after_key key _ (λ k. (h, k)))

  pub scan_metadata_request_lem :
      (owner : UserRef) (request : ScanUserMetadataRequest)
      → AllSendable (scan_metadata_request debug_char owner request)
  unfolding scan_metadata_request
  scan_metadata_request_lem owner request = after_ref owner "owner" _ (λ h.
      after_fragment request.prefix "prefix" _ (λ p. after_fragment request.after "after" _ (λ a.
        after (validate_user_metadata_scan_limit request.limit) _
          (λ _ e. (h, p, a, validate_user_metadata_scan_limit-IsScanLimit request.limit e)))))

  pub upsert_metadata_request_lem :
      {J : Json} (owner : UserRef) (key : String) (request : UpsertUserMetadataRequest J)
      → AllSendable (upsert_metadata_request debug_char owner key request)
  unfolding upsert_metadata_request
  upsert_metadata_request_lem owner key request = after_ref owner "owner" _ (λ h.
      after_key key _ (λ k. after (validate_upsert_user_metadata_request key request) _ (λ _ e.
        after (resolve_upsert_user_metadata_value request) _ (λ out r.
          (h, k, expiry key out request.expires_at (upsert-IsAllowed key request out e r))))))
