-- ===== src/Errors.antt =====
-- src/errors.rs: the error enum, its constructors and its Display texts.
use Prim.Native.String.{◌++◌}
use turntf_rs.Prelude.{
  ℕ, zero, suc, ℤ, pos, negsuc, ◌/◌, ◌%◌, String, Bool, ltb, ◌==◌, str_eq, if◌then◌else◌, Result,
}

pub record ServerError : Type 0 where
  pub code : String
  pub server_message : String
  pub request_id : ℕ

-- The structs `ValidationError`, `ProtocolError`, `ConnectionError` and `StoreError` are the
-- arguments of their variants; the unit structs are variants without one.
pub data Error : Type 0 where
  validation : String → Error
  closed : Error
  not_connected : Error
  disconnected : Error
  server : ServerError → Error
  protocol : String → Error
  connection : String → String → Error
  store : String → String → Error

-- `ServerError::unauthorized`
abbrev pub unauthorized : ServerError → Bool
unauthorized e = str_eq e.code "unauthorized"

digit : ℕ → String
digit d =
    if d == 0
    then "0"
    else if d == 1
    then "1"
    else if d == 2
    then "2"
    else if d == 3
    then "3"
    else if d == 4
    then "4"
    else if d == 5
    then "5"
    else if d == 6
    then "6"
    else if d == 7
    then "7"
    else if d == 8
    then "8"
    else "9"

-- Decimal digits of a number; a number has at most as many digits as its successor, the fuel.
decimal : ℕ → ℕ → String
unfolding digit
decimal zero n = ""
decimal (suc f) n =
    let rest = decimal f (n / 10) ++ digit (n % 10) in if ltb n 10 then digit n else rest

pub show : ℕ → String
unfolding decimal
show n = decimal (suc n) n

-- `Display` of an i64 or i32.
pub show_ℤ : ℤ → String
unfolding show
show_ℤ (pos n) = show n
show_ℤ (negsuc n) = "-" ++ show (suc n)

display_server : ServerError → String
unfolding show
display_server e =
    let short = "turntf server error: " ++ e.code ++ " (" ++ e.server_message ++ ")" in
    if e.request_id == 0 then short else short ++ ", request_id=" ++ show e.request_id

-- `to_string` of each variant, from its `#[error(…)]` attribute.
unfoldable pub to_string : Error → String
unfolding display_server
to_string (validation message) = message
to_string closed = "turntf client is closed"
to_string not_connected = "turntf client is not connected"
to_string disconnected = "turntf websocket disconnected"
to_string (server e) = display_server e
to_string (protocol message) = "turntf protocol error: " ++ message
to_string (connection op cause) = "turntf connection error during " ++ op ++ ": " ++ cause
to_string (store op message) = "turntf store error during " ++ op ++ ": " ++ message

-- The fallible calls of the crate.
abbrev pub Fallible {ℓ} : Type ℓ → Type ℓ
Fallible A = Result Error A
