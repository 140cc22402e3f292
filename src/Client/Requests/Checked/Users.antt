-- ===== src/Client/Requests/Checked/Users.antt =====
-- The checks of the calls of src/client.rs for users, against what their requests must be.

use turntf_rs.Prelude.{
  String, ◌≡◌, refl, ◌≢◌, ◌⊎◌, inl, inr, Bool, true, false, ◌&&◌, Option, none, some, map_option,
  ok, str_eq, eq_iff, if◌then◌else◌,
}
use turntf_rs.Types.{UserRef, CreateUserRequest, UpdateUserRequest, ListUsersRequest}
use turntf_rs.Mapping.{transpose_map}
use turntf_rs.Validation.{validate_optional_user_ref, normalize_login_name, trim}
use turntf_rs.Validation.Sound.{IsUserRef, guard_ok, optional_ref-IsUserRef}
use turntf_rs.Password.{wire_value}
use turntf_rs.Client.Requests.Users.{
  create_user_request, update_user_request, list_users_request, required, given, allowed_login,
  is_channel, is_given, or_empty, text_field,
}
use turntf_rs.Client.Requests.Sendable.{AllSendable, HasOptional, HasLoginOf, text_of}
use turntf_rs.Client.Requests.Checked.{after, after_ref}

required_lem : (value message : String) → required value message ≡ ok tt → value ≢ ""
unfolding required
required_lem value message e =
    let (given, _) = guard_ok (str_eq value "") _ _ tt e in
    λ empty. cc ((eq_iff value "").1 empty, given)

login_lem :
    (role login_name : Option String)
    → allowed_login role login_name ≡ ok tt
    → (is_channel role && is_given login_name) ≡ false
unfolding allowed_login
login_lem role login_name e = (guard_ok (is_channel role && is_given login_name) _ _ tt e).0

and_false : (b : Bool) → (b && false) ≡ false
and_false true = refl
and_false false = refl

login_given :
    (role : String) (login : Option String)
    → (is_channel (some role) && is_given login) ≡ false
    → HasLoginOf (some role) (some (or_empty login))
unfolding is_channel is_given
login_given role none h = and_false (str_eq (trim role) "channel")
login_given role (some value) h = h

login_sent :
    (role login : Option String)
    → (is_channel role && is_given login) ≡ false
    → HasLoginOf (text_of (map_option text_field role)) (text_of (map_option text_field login))
unfolding is_channel is_given
login_sent none login h = refl
login_sent (some r) none h = h
login_sent (some r) (some value) h = h

pub create_user_request_lem :
    (request : CreateUserRequest) → AllSendable (create_user_request request)
unfolding create_user_request
create_user_request_lem request =
    after (required request.username "username is required") _ (λ _ name.
      after (required request.role "role is required") _ (λ _ role.
        after (allowed_login (some request.role) (given request.login_name)) _ (λ _ login.
          after (transpose_map wire_value request.password) _ (λ password _. (
            required_lem request.username "username is required" name,
            required_lem request.role "role is required" role,
            login_given request.role (given request.login_name)
                (login_lem (some request.role) (given request.login_name) login),
          )))))

pub update_user_request_lem :
    (target : UserRef) (request : UpdateUserRequest)
    → AllSendable (update_user_request target request)
unfolding update_user_request
update_user_request_lem target request = after_ref target "target" _ (λ h.
    after (allowed_login request.role (map_option normalize_login_name request.login_name)) _
      (λ _ login. after (transpose_map wire_value request.password) _ (λ password _. (
        h,
        login_sent request.role (map_option normalize_login_name request.login_name)
            (login_lem request.role (map_option normalize_login_name request.login_name) login),
      ))))

uid_lem :
    (uid : UserRef) (has : Bool)
    → (has ≡ false) ⊎ IsUserRef uid
    → HasOptional IsUserRef (if has then some uid else none)
uid_lem uid false h = tt
uid_lem uid true (inl e) = absurd (cc e)
uid_lem uid true (inr h) = h

pub list_users_request_lem : (request : ListUsersRequest) → AllSendable (list_users_request request)
unfolding list_users_request
list_users_request_lem request =
    after (validate_optional_user_ref request.uid "request.uid") _
      (λ has e. uid_lem request.uid has (optional_ref-IsUserRef request.uid "request.uid" has e))
