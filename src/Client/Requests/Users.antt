-- ===== src/Client/Requests/Users.antt =====
-- The calls of src/client.rs for users and channels.
use turntf_rs.Prelude.{
  String, Bool, false, not, ◌&&◌, str_eq, List, Option, none, some, map_option, ok, err, ◌>>=◌,
  ◌>>◌, if◌then◌else◌,
}
use turntf_rs.Errors.{Fallible, validation}
use turntf_rs.Types.{
  Json, UserRef, User, DeleteUserResult, CreateUserRequest, UpdateUserRequest, ListUsersRequest,
}
use turntf_rs.Proto
use turntf_rs.Proto.{ClientBody}
use turntf_rs.Mapping.{user_ref_to_proto, transpose_map}
use turntf_rs.Password.{wire_value}
use turntf_rs.Validation.{
  validate_user_ref, validate_optional_user_ref, normalize_login_name, normalize_optional_filter,
  trim,
}
use turntf_rs.Client.Call.{Call, user_of, users_of, delete_user_result_of}

-- `unwrap_or_default` on a text
abbrev pub or_empty : Option String → String
or_empty none = ""
or_empty (some value) = value

unfoldable pub filled : String → Option String
filled value = if str_eq value "" then none else some value

unfoldable pub given : Option String → Option String
unfolding filled normalize_login_name
given none = none
given (some value) = filled (normalize_login_name value)

unfoldable pub is_given : Option String → Bool
is_given none = false
is_given (some value) = not (str_eq value "")

unfoldable pub is_channel : Option String → Bool
unfolding trim
is_channel none = false
is_channel (some role) = str_eq (trim role) "channel"

-- A channel has no login name.
unfoldable pub allowed_login : Option String → Option String → Fallible (Unit {0})
unfolding is_channel is_given
allowed_login role login_name =
    if is_channel role && is_given login_name
    then err (validation "login_name requires a login-enabled user")
    else ok tt

unfoldable pub required : String → String → Fallible (Unit {0})
required value message = if str_eq value "" then err (validation message) else ok tt

unfoldable pub create_user_request : CreateUserRequest → Fallible ClientBody
unfolding required given allowed_login wire_value
create_user_request request = do
  required request.username "username is required"
  required request.role "role is required"
  allowed_login (some request.role) (given request.login_name)
  password ← transpose_map wire_value request.password
  ok (
      ClientBody.create_user (record {
        username = request.username;
        password = or_empty password;
        profile_json = request.profile_json;
        role = request.role;
        login_name = or_empty (given request.login_name);
      }))

module _ {J : Json} where
  -- `create_user`
  abbrev pub create_user : CreateUserRequest → Call J User
  create_user request = record {
    request = create_user_request request;
    answer_of = user_of;
    missing = "missing user in create_user_response";
  }

  -- `create_channel`
  abbrev pub create_channel : CreateUserRequest → Call J User
  create_channel request =
      create_user
        (record request { role = if str_eq request.role "" then "channel" else request.role })

unfoldable pub get_user_request : UserRef → Fallible ClientBody
unfolding validate_user_ref
get_user_request target = do
  validate_user_ref target "target"
  ok (ClientBody.get_user (record { user = some (user_ref_to_proto target) }))

-- `get_user`
abbrev pub get_user : {J : Json} → UserRef → Call J User
get_user target = record {
  request = get_user_request target;
  answer_of = user_of;
  missing = "missing user in get_user_response";
}

abbrev pub text_field : String → Proto.StringField
text_field value = record { value = value }

unfoldable pub update_user_request : UserRef → UpdateUserRequest → Fallible ClientBody
unfolding validate_user_ref normalize_login_name allowed_login wire_value
update_user_request target request = do
  let login_name = map_option normalize_login_name request.login_name
  validate_user_ref target "target"
  allowed_login request.role login_name
  password ← transpose_map wire_value request.password
  ok (
      ClientBody.update_user (record {
        user = some (user_ref_to_proto target);
        username = map_option text_field request.username;
        password = map_option text_field password;
        profile_json = map_option (λ value. record { value = value }) request.profile_json;
        role = map_option text_field request.role;
        login_name = map_option text_field login_name;
      }))

-- `update_user`
abbrev pub update_user : {J : Json} → UserRef → UpdateUserRequest → Call J User
update_user target request = record {
  request = update_user_request target request;
  answer_of = user_of;
  missing = "missing user in update_user_response";
}

unfoldable pub delete_user_request : UserRef → Fallible ClientBody
unfolding validate_user_ref
delete_user_request target = do
  validate_user_ref target "target"
  ok (ClientBody.delete_user (record { user = some (user_ref_to_proto target) }))

-- `delete_user`
abbrev pub delete_user : {J : Json} → UserRef → Call J DeleteUserResult
delete_user target = record {
  request = delete_user_request target;
  answer_of = delete_user_result_of;
  missing = "missing status in delete_user_response";
}

unfoldable pub list_users_request : ListUsersRequest → Fallible ClientBody
unfolding normalize_optional_filter validate_optional_user_ref
list_users_request request = do
  has_uid ← validate_optional_user_ref request.uid "request.uid"
  ok (
      ClientBody.list_users (record {
        name = or_empty (normalize_optional_filter request.name);
        uid = if has_uid then some (user_ref_to_proto request.uid) else none;
      }))

-- `list_users`
abbrev pub list_users : {J : Json} → ListUsersRequest → Call J (List User)
list_users request = record {
  request = list_users_request request;
  answer_of = users_of;
  missing = "missing items in list_users_response";
}
