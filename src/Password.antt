-- ===== src/Password.antt =====
-- src/password.rs. `bcrypt::hash` at its default cost is a parameter: a hash or the text of its error.
use turntf_rs.Prelude.{String, Bool, str_eq, Result, ok, err, map_err, if◌then◌else◌, ◌>>=◌, ◌>>◌}
use turntf_rs.Errors.{Error, Fallible, validation}
use turntf_rs.Types.{PasswordInput, plain, hashed}

-- `PasswordInput::is_zero`
abbrev pub is_zero : PasswordInput → Bool
is_zero password = str_eq password.encoded ""

-- `PasswordInput::validate`
unfoldable pub validate : PasswordInput → Fallible (Unit {0})
validate password =
    if str_eq password.encoded "" then err (validation "password is required") else ok tt

-- `PasswordInput::wire_value`
unfoldable pub wire_value : PasswordInput → Fallible String
unfolding validate
wire_value password = do validate password; ok password.encoded

-- `hashed_password`
abbrev pub hashed_password : String → PasswordInput
hashed_password value = record { source = hashed; encoded = value }

module _ (bcrypt_hash : String → Result String String) where
  -- `hash_password`
  unfoldable pub hash_password : String → Fallible String
  hash_password text =
      if str_eq text ""
      then err (validation "password is required")
      else map_err (Error.connection "bcrypt") (bcrypt_hash text)

  -- `plain_password`
  unfoldable pub plain_password : String → Fallible PasswordInput
  unfolding hash_password
  plain_password text = do
    encoded ← hash_password text
    ok (record { source = plain; encoded = encoded })
