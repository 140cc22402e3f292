-- ===== src/Validation/Upserts.antt =====
-- Which writes of user metadata src/validation.rs accepts, and the bytes that go out.
use mathlib.Core.Path.{subst}
use turntf_rs.Prelude.{
  String, ◌≡◌, refl, ◌⊎◌, inl, inr, Bool, true, false, Option, none, some, ok, Bool-cases, str_eq,
  eq_iff, if◌then◌else◌, ok_or,
}
use turntf_rs.Errors.{Fallible}
use turntf_rs.Types.{
  Bytes, Json, UserMetadataTypedValue, bool, UpsertUserMetadataRequest, visible_to_others_key,
  to_raw_bytes, true_bytes, false_bytes,
}
use turntf_rs.Utf8.{from_utf8}
use turntf_rs.Validation.Text.{trim}
use turntf_rs.Validation.Metadata.{
  is_bool_text, bool_text, validate_user_metadata_bool_bytes, is_empty, visible_value, no_expiry,
  one_value, resolve, validate_upsert_user_metadata_request, resolve_upsert_user_metadata_value,
}
use turntf_rs.Validation.Sound.{bind_ok, pass_ok}

-- The bytes are a text that says `true` or `false`, but for blanks around it.
abbrev pub IsBoolText : Bytes → Type 0
unfolding trim
IsBoolText value =
    (s : String) × (from_utf8 value ≡ some s) × ((trim s ≡ "true") ⊎ (trim s ≡ "false"))

-- What a write may be under a key: the visibility of a user is a Boolean and does not expire.
abbrev pub IsAllowed : String → Bytes → Bool → Type 0
IsAllowed key value expires =
    (str_eq key visible_to_others_key ≡ false) ⊎ ((expires ≡ false) × IsBoolText value)

abbrev pub is_some : {A : Type 0} → Option A → Bool
is_some none = false
is_some (some _) = true

ok_or_ok : {E A : Type 0} (x : E) (o : Option A) (a : A) → ok_or x o ≡ ok a → o ≡ some a
ok_or_ok x none a e = absurd (cc e)
ok_or_ok x (some b) a e = cc e

says : (s : String) → is_bool_text s ≡ true → (trim s ≡ "true") ⊎ (trim s ≡ "false")
unfolding is_bool_text
says s e = elim (Bool-cases (str_eq (trim s) "true")) [
  | inl y ↦ inl ((eq_iff (trim s) "true").0 y)
  | inr n ↦ inr ((eq_iff (trim s) "false").0 (rw n at e))
]

bytes-IsBoolText :
    (value : Bytes) (field : String)
    → validate_user_metadata_bool_bytes value field ≡ ok tt
    → IsBoolText value
unfolding validate_user_metadata_bool_bytes bool_text
bytes-IsBoolText value field e =
    let (s, text, said) = bind_ok (ok_or _ (from_utf8 value)) (bool_text field) tt e in
    (s, ok_or_ok _ (from_utf8 value) s text, says s (pass_ok (is_bool_text s) _ _ tt said).0)

moved : (a b : Bytes) → Path (Fallible Bytes) (ok a) (ok b) → IsBoolText a → IsBoolText b
moved a b e h = let same : a ≡ b = cc e in subst IsBoolText same h

raw_bool-IsBoolText : (b : Bool) → IsBoolText (if b then true_bytes else false_bytes)
raw_bool-IsBoolText true = unfold from_utf8 in unfold trim in ("true", refl, inl refl)
raw_bool-IsBoolText false = unfold from_utf8 in unfold trim in ("false", refl, inr refl)

no_expiry_lem : (o : Option String) → no_expiry o ≡ ok tt → is_some o ≡ false
unfolding no_expiry
no_expiry_lem none e = refl
no_expiry_lem (some _) e = absurd (cc e)

module _ {J : Json} where
  visible-IsBoolText :
      (typed : Option (UserMetadataTypedValue J)) (value out : Bytes)
      → visible_value typed value ≡ ok tt
      → resolve typed value ≡ ok out
      → IsBoolText out
  unfolding visible_value resolve to_raw_bytes
  visible-IsBoolText none value out e r = moved value out r (bytes-IsBoolText value "value" e)
  visible-IsBoolText (some (bool b)) value out e r =
      let (_, written) = pass_ok (is_empty value) _ _ out r in
      moved (if b then true_bytes else false_bytes) out written (raw_bool-IsBoolText b)
  visible-IsBoolText (some _) value out e r = absurd (cc e)

  -- A write that passes the checks, with the bytes that go out for it.
  pub upsert-IsAllowed :
      (key : String) (request : UpsertUserMetadataRequest J) (out : Bytes)
      → validate_upsert_user_metadata_request key request ≡ ok tt
      → resolve_upsert_user_metadata_value request ≡ ok out
      → IsAllowed key out (is_some request.expires_at)
  unfolding validate_upsert_user_metadata_request resolve_upsert_user_metadata_value
  upsert-IsAllowed key request out e r =
      let (_, _, rest) = bind_ok (one_value request.typed_value request.value) _ tt e in
      elim (Bool-cases (str_eq key visible_to_others_key)) [
        | inr other ↦ inl other
        | inl same ↦
            let (_, forever, visible) =
              bind_ok (no_expiry request.expires_at) _ tt (rw same at rest) in
            inr (
              no_expiry_lem request.expires_at forever,
              visible-IsBoolText request.typed_value request.value out visible r,
            )
      ]
