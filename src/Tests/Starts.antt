-- ===== src/Tests/Starts.antt =====
-- How a client begins, what it reads from a websocket and its pings, at concrete inputs.
use turntf_rs.Prelude.{
  ℕ, pos, ◌≡◌, ◌↔◌, refl, String, false, List, [], ◌∷◌, Option, none, some, ok, err,
}
use turntf_rs.Errors.{validation}
use turntf_rs.Types.{
  Bytes, hashed, PasswordInput, best_effort, default_relay_config, display_relay_error,
}
use turntf_rs.Types.Builder
use turntf_rs.Store.Memory.{MemoryCursorStore, new_store}
use turntf_rs.Client.Session.{close, announce_closed}
use turntf_rs.Client.Calls.{timed_out}
use turntf_rs.Client.Socket.{Item, WsMessage, binary, read_proto, Holds, read_proto_reads}
use turntf_rs.Client.Ping.{Turn, ping_loop, ping_loop_ends}
use turntf_rs.Client.Start.{
  Urls, trim_slashes, new_config, new_with_login_name, new, websocket_url, login_request,
}
use turntf_rs.Tests.Clients.{client, open_sink}

-- A frame of one byte holds that number.
abbrev one_byte : Bytes → Option ℕ
one_byte (b ∷ []) = some b
one_byte _ = none

abbrev arriving : List Item
arriving = some (ok WsMessage.ping) ∷ some (ok (binary (7 ∷ []))) ∷ none ∷ []

read_proto_reads_example :
    (read_proto one_byte false arriving ≡ some (ok 7, none ∷ []))
    ↔ Holds one_byte 7 (none ∷ []) arriving
read_proto_reads_example = read_proto_reads one_byte false 7 arriving (none ∷ [])

-- The client is closed while the loop sleeps.
abbrev closing : Turn MemoryCursorStore ℕ
closing = record { slept = close; waited = λ x. x; outcome = timed_out }

ping_loop_ends_example :
    let r = ping_loop open_sink (closing ∷ []) client in
    (r.0 ≡ false) × (r.1.written ≡ (close client).written) × (r.1.events ≡ (close client).events)
ping_loop_ends_example =
    ping_loop_ends open_sink closing [] client (unfold close in unfold announce_closed in refl)

abbrev secret : PasswordInput
secret = record { source = hashed; encoded = "secret" }

-- Without a login name the reference must be positive.
new_test :
    new {R = ℕ}
      (ok tt)
      (new_config "http://localhost"
        (record { node_id = pos 0; user_id = pos 42; password = secret }))
      new_store
    ≡ err (validation "credentials.node_id is required")
unfolding new
new_test = refl

-- Who logs in by name sends no reference.
login_request_test :
    login_request (new_with_login_name "http://localhost" "alice" secret) []
    ≡ ok (record {
      user = none;
      login_name = "alice";
      password = "secret";
      seen_messages = [];
      transient_only = false;
    })
unfolding login_request
login_request_test = refl

trim_slashes_test : trim_slashes "/api//" ≡ "/api"
unfolding trim_slashes
trim_slashes_test = refl

-- An address is its scheme and its path, both of which the functions read and write.
abbrev addresses : Urls (String × String)
addresses = record {
  parse = λ s. ok ("https", s);
  scheme = λ u. u.0;
  set_scheme = λ s u. (s, u.1);
  path = λ u. u.1;
  set_path = λ p u. (u.0, p);
  clear_query = λ u. u;
  clear_fragment = λ u. u;
  to_string = λ u. u.1;
  debug = λ s. s;
}

websocket_url_test : websocket_url addresses "/api/" false ≡ ok "/api/ws/client"
unfolding websocket_url
websocket_url_test = refl

-- What the builder is told stands in the configuration, and the rest is the default.
build_test :
    Builder.build (Builder.window_size 4 (Builder.reliability best_effort Builder.builder))
    ≡ record default_relay_config { reliability = best_effort; window_size = 4 }
build_test = refl

display_relay_error_test :
    display_relay_error (record { code = "not_connected"; message = "no peer" })
    ≡ "relay: not_connected: no peer"
display_relay_error_test = refl
