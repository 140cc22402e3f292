-- ===== src/Types/Requests.antt =====
-- The requests of src/types.rs, and the password that two of them hold.
use turntf_rs.Prelude.{ℤ, String, [], Option, none, some}
use turntf_rs.Types.Core.{Bytes, UserRef}
use turntf_rs.Types.Metadata.{Json, UserMetadataTypedValue}

-- `PasswordSource` and `PasswordInput` of src/password.rs
pub data PasswordSource : Type 0 where
  plain hashed : PasswordSource

pub record PasswordInput : Type 0 where
  pub source : PasswordSource
  pub encoded : String

pub record Credentials : Type 0 where
  pub node_id : ℤ
  pub user_id : ℤ
  pub password : PasswordInput

pub record CreateUserRequest : Type 0 where
  pub username : String
  pub login_name : Option String
  pub password : Option PasswordInput
  pub profile_json : Bytes
  pub role : String

pub record UpdateUserRequest : Type 0 where
  pub username : Option String
  pub login_name : Option String
  pub password : Option PasswordInput
  pub profile_json : Option Bytes
  pub role : Option String

pub record UpsertUserMetadataRequest (J : Json) : Type 0 where
  pub value : Bytes
  pub typed_value : Option (UserMetadataTypedValue J)
  pub expires_at : Option String

pub record ScanUserMetadataRequest : Type 0 where
  pub prefix : String
  pub after : String
  pub limit : ℤ

pub record ListUsersRequest : Type 0 where
  pub name : String
  pub uid : UserRef

module _ {J : Json} where
  -- `UpsertUserMetadataRequest::raw`
  abbrev pub raw : Bytes → UpsertUserMetadataRequest J
  raw value = record { value = value; typed_value = none; expires_at = none }

  -- `UpsertUserMetadataRequest::typed`
  abbrev pub typed : UserMetadataTypedValue J → UpsertUserMetadataRequest J
  typed typed_value = record { value = []; typed_value = some typed_value; expires_at = none }

  -- `UpsertUserMetadataRequest::with_expires_at`
  abbrev pub with_expires_at : UpsertUserMetadataRequest J → String → UpsertUserMetadataRequest J
  with_expires_at request expires_at = record request { expires_at = some expires_at }
