-- ===== src/Types/Metadata.antt =====
-- User metadata of src/types.rs: values and their raw bytes.
use turntf_rs.Prelude.{ℤ, String, Bool, List, [], ◌∷◌, Option, if◌then◌else◌}
use turntf_rs.Types.Core.{Bytes, UserRef}

-- `serde_json`: its numbers and values, how they are written, and the value of a text.
pub record Json : Type 1 where
  pub Number : Type 0
  pub Value : Type 0
  pub number_text : Number → Bytes
  pub value_text : Value → Bytes
  pub string_value : String → Value

-- `USER_METADATA_VISIBLE_TO_OTHERS_KEY`
abbrev pub visible_to_others_key : String
visible_to_others_key = "system.visible_to_others"

pub data UserMetadataTypedValue (J : Json) : Type 0 where
  bytes : Bytes → UserMetadataTypedValue J
  bool : Bool → UserMetadataTypedValue J
  string : String → UserMetadataTypedValue J
  number : J.Number → UserMetadataTypedValue J
  json : J.Value → UserMetadataTypedValue J

-- `UserMetadataTypedValue::kind`
unfoldable pub kind : {J : Json} → UserMetadataTypedValue J → String
kind (bytes _) = "bytes"
kind (bool _) = "bool"
kind (string _) = "string"
kind (number _) = "number"
kind (json _) = "json"

-- The ASCII bytes of the texts `true` and `false`.
abbrev pub true_bytes : Bytes
true_bytes = 116 ∷ 114 ∷ 117 ∷ 101 ∷ []

abbrev pub false_bytes : Bytes
false_bytes = 102 ∷ 97 ∷ 108 ∷ 115 ∷ 101 ∷ []

-- `UserMetadataTypedValue::to_raw_bytes`
unfoldable pub to_raw_bytes : {J : Json} → UserMetadataTypedValue J → Bytes
to_raw_bytes (bytes b) = b
to_raw_bytes (bool b) = if b then true_bytes else false_bytes
to_raw_bytes {J} (string s) = J.value_text (J.string_value s)
to_raw_bytes {J} (number n) = J.number_text n
to_raw_bytes {J} (json v) = J.value_text v

pub record UserMetadata (J : Json) : Type 0 where
  pub owner : UserRef
  pub key : String
  pub value : Bytes
  pub typed_value : Option (UserMetadataTypedValue J)
  pub updated_at : String
  pub deleted_at : String
  pub expires_at : String
  pub origin_node_id : ℤ

pub record UserMetadataScanResult (J : Json) : Type 0 where
  pub items : List (UserMetadata J)
  pub count : ℤ
  pub next_after : String
