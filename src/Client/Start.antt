-- ===== src/Client/Start.antt =====
-- How a client of src/client.rs begins: the defaults of `Config`, `Client::new`, the address of the
-- websocket, and `connect_and_serve` up to the reply to the login.
--
-- The HTTP library's builder, the URL library, the dial and the first write and read are parameters.
use Prim.Native.String.{◌++◌}
use Prim.Native.Char.{Char, code}
use mathlib.Core.List.{List, [] as nil, map}
use turntf_rs.Prelude.{
  ℕ, pos, String, Bool, true, false, Option, none, some, Result, ok, err, map_err, if◌then◌else◌,
  str_eq, ◌==◌, ◌||◌, max, ◌>>=◌, ◌>>◌,
}
use turntf_rs.Errors.{Error, Fallible, validation, connection}
use turntf_rs.Types.{UserRef, MessageCursor, PasswordInput, Credentials}
use turntf_rs.Proto.{LoginRequest}
use turntf_rs.Mapping.{user_ref_to_proto, cursor_to_proto}
use turntf_rs.Password.{validate, wire_value}
use turntf_rs.Store.{CursorStore}
use turntf_rs.Validation.{
  validate_positive_i64, validate_login_name, normalize_login_name, trim, to_list, of_list,
  drop_blank_end,
}
use turntf_rs.Client.Session.{Config, Inner}
use turntf_rs.Client.Incoming.{ServerEnvelope}

-- The delays in nanoseconds.
pub record ClientConfigDefaults : Type 0 where
  pub reconnect : Bool
  pub initial_reconnect_delay : ℕ
  pub max_reconnect_delay : ℕ
  pub ping_interval : ℕ
  pub request_timeout : ℕ
  pub ack_messages : Bool
  pub transient_only : Bool
  pub realtime_stream : Bool
  pub event_channel_capacity : ℕ

-- `ClientConfigDefaults::default()`
abbrev pub default_client_config : ClientConfigDefaults
default_client_config = record {
  reconnect = true;
  initial_reconnect_delay = 1000000000;
  max_reconnect_delay = 30000000000;
  ping_interval = 30000000000;
  request_timeout = 10000000000;
  ack_messages = true;
  transient_only = false;
  realtime_stream = false;
  event_channel_capacity = 256;
}

-- `Config::new`
abbrev pub new_config : String → Credentials → Config
new_config base_url credentials =
    let defaults = default_client_config in
    record {
      base_url = base_url;
      credentials = credentials;
      login_name = none;
      reconnect = defaults.reconnect;
      initial_reconnect_delay = defaults.initial_reconnect_delay;
      max_reconnect_delay = defaults.max_reconnect_delay;
      ping_interval = defaults.ping_interval;
      request_timeout = defaults.request_timeout;
      ack_messages = defaults.ack_messages;
      transient_only = defaults.transient_only;
      realtime_stream = defaults.realtime_stream;
      event_channel_capacity = defaults.event_channel_capacity;
    }

-- `Config::new_with_login_name`
abbrev pub new_with_login_name : String → String → PasswordInput → Config
new_with_login_name base_url login_name password =
    record (new_config base_url
      (record { node_id = pos 0; user_id = pos 0; password = password })) {
        login_name = some login_name;
      }

slash : Char → Bool
slash c = code c == 0x2f

-- `trim_end_matches('/')`
unfoldable pub trim_slashes : String → String
unfolding slash drop_blank_end
trim_slashes s = of_list (drop_blank_end slash (to_list s))

abbrev base_url_required : Error
base_url_required = validation "base_url is required"

abbrev require_base_url : String → Fallible (Unit {0})
require_base_url s = if str_eq (trim s) "" then err base_url_required else ok tt

-- `HttpClient::new` of src/http.rs, from what the builder of the HTTP library gave: the base URL.
unfoldable pub new_http : Result String (Unit {0}) → String → Fallible String
unfolding trim_slashes trim
new_http built base_url = do
  map_err (connection "http client build") built
  require_base_url (trim_slashes base_url)
  ok (trim_slashes base_url)

-- The checks of `Client::new` on the name or the reference that logs in.
unfoldable pub check_login : Config → Option String → Fallible Config
unfolding validate_login_name normalize_login_name validate_positive_i64
check_login config (some login_name) = do
  validate_login_name login_name "login_name"
  ok (record config { login_name = some (normalize_login_name login_name) })
check_login config none = do
  validate_positive_i64 config.credentials.node_id "credentials.node_id"
  validate_positive_i64 config.credentials.user_id "credentials.user_id"
  ok config

module _ {S R : Type 0} where
  -- What `Client::new` builds from a checked configuration and the cursor store's state.
  abbrev pub new_inner : Config → S → Inner S R
  new_inner config store = record {
    cfg = record config { event_channel_capacity = max config.event_channel_capacity 1 };
    state = record {
      closed = false;
      connected = false;
      stop_reconnect = false;
      terminal_error = none;
    };
    events = some nil;
    pending = nil;
    calls = 0;
    answered = nil;
    writer = none;
    written = nil;
    request_id = 0;
    connection_id = 0;
    relay_packet_tx = none;
    login_info = none;
    store = store;
  }

  -- `Client::new`
  unfoldable pub new : Result String (Unit {0}) → Config → S → Fallible (Inner S R)
  unfolding trim check_login validate new_http
  new built config store = do
    require_base_url config.base_url
    checked ← check_login config config.login_name
    validate checked.credentials.password
    http ← new_http built checked.base_url
    ok (new_inner checked store)

-- What `websocket_url` uses of the URL library, and `{:?}` of a text.
pub record Urls (U : Type 0) : Type 0 where
  pub parse : String → Result String U
  pub scheme : U → String
  pub set_scheme : String → U → U
  pub path : U → String
  pub set_path : String → U → U
  pub clear_query : U → U
  pub clear_fragment : U → U
  pub to_string : U → String
  pub debug : String → String

module _ {U : Type 0} (urls : Urls U) where
  unfoldable pub websocket_scheme : U → Fallible U
  websocket_scheme url =
      let scheme = urls.scheme url in
      if str_eq scheme "http"
      then ok (urls.set_scheme "ws" url)
      else if str_eq scheme "https"
      then ok (urls.set_scheme "wss" url)
      else if str_eq scheme "ws" || str_eq scheme "wss"
      then ok url
      else err (validation ("unsupported base URL scheme " ++ urls.debug scheme))

  abbrev websocket_path : Bool → String
  websocket_path realtime = if realtime then "/ws/realtime" else "/ws/client"

  -- `websocket_url`
  unfoldable pub websocket_url : String → Bool → Fallible String
  unfolding websocket_scheme trim_slashes
  websocket_url base realtime = do
    url ← map_err (λ cause. validation ("invalid base_url: " ++ cause)) (urls.parse base)
    url ← websocket_scheme url
    ok (
        urls.to_string (
          urls.clear_fragment (
            urls.clear_query
              (urls.set_path (trim_slashes (urls.path url) ++ websocket_path realtime) url))))

login_user : Config → Option String → Option UserRef
login_user config (some _) = none
login_user config none = some (
    user_ref_to_proto
      (record { node_id = config.credentials.node_id; user_id = config.credentials.user_id }))

abbrev or_default : Option String → String
or_default none = ""
or_default (some s) = s

-- The login that `connect_and_serve` writes.
unfoldable pub login_request : Config → List MessageCursor → Fallible LoginRequest
unfolding login_user wire_value
login_request config seen_messages = do
  password ← wire_value config.credentials.password
  ok (record {
    user = login_user config config.login_name;
    login_name = or_default config.login_name;
    password = password;
    seen_messages = map cursor_to_proto seen_messages;
    transient_only = config.transient_only;
  })

-- The network before the session: the dial, the write of the login and the read of its reply.
pub record Dial (R : Type 0) : Type 0 where
  pub connect : String → Result String (Unit {0})
  pub write_login : LoginRequest → Result String (Unit {0})
  pub reply : Fallible (ServerEnvelope R)

-- `connect_and_serve` up to the reply to the login.
unfoldable pub log_in :
    {U S R : Type 0} → Urls U → CursorStore S → Dial R → Inner S R → Fallible (ServerEnvelope R)
unfolding websocket_url login_request
log_in urls store network x = do
  seen ← map_err (Error.store "load_seen_messages") (store.load_seen_messages x.store)
  address ← websocket_url urls x.cfg.base_url x.cfg.realtime_stream
  map_err (connection "dial") (network.connect address)
  login ← login_request x.cfg seen
  map_err (connection "write") (network.write_login login)
  network.reply
