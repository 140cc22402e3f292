-- ===== src/Relay/Outgoing.antt =====
-- `Relay::connect` of src/relay.rs, cut at the points where other tasks can run: up to the OPEN
-- frame and the start of the send loop, the wait for the OPEN_ACK, and the two ways it ends.
use turntf_rs.Prelude.{
  ℕ, String, List, [], ◌∷◌, Option, none, some, Result, ok, err, ◌>>=◌, String_discrete, length,
  if◌then◌else◌,
}
use Prim.Native.String.{◌++◌ as ◌⧺◌}
use turntf_rs.Prelude.Dict.{insert, remove}
use turntf_rs.Errors.{to_string, Fallible}
use turntf_rs.Types.{
  UserRef, SessionRef, RelayConfig, RelayState, RelayKind, RelayError, default_relay_config,
  ResolvedSession,
}
use turntf_rs.Relay.Connection.{Net, Connection, new_connection, relay_error, send_frame}
use turntf_rs.Relay.SendTask.{spawn_send_loop}
use turntf_rs.Relay.Manager.{Manager, allocate, put, close_handle}

-- The first session that takes transient packets.
unfoldable pub transient_session : List ResolvedSession → Option SessionRef
transient_session [] = none
transient_session (s ∷ ss) = if s.transient_capable then some s.session else transient_session ss

abbrev not_connected : String → RelayError
not_connected message = relay_error "not_connected" message

target_session : Fallible (List ResolvedSession) → Result RelayError SessionRef
target_session (err e) = err (not_connected ("resolve sessions: " ⧺ to_string e))
target_session (ok sessions) = elim (transient_session sessions) [
  | none ↦ err (not_connected "no transient-capable session found for target user")
  | some s ↦ ok s
]

own_session : Option SessionRef → Result RelayError SessionRef
own_session none = err (not_connected "client not logged in")
own_session (some s) = ok s

-- The session of the target, and then the client's own.
unfoldable pub choose_sessions :
    Fallible (List ResolvedSession)
    → Option SessionRef
    → Result RelayError (SessionRef × SessionRef)
unfolding target_session own_session
choose_sessions resolved mine = do
  theirs ← target_session resolved
  ours ← own_session mine
  ok (theirs, ours)

-- The frame could be sent, or the id is given up again.
unfoldable pub opened :
    ℕ → Result RelayError (Unit {0}) × Connection → Manager → Result RelayError ℕ × Manager
opened h (ok _, c) m = (ok h, put h (spawn_send_loop c) m)
opened h (err e, c) m =
    (err e, put h c (record m { conns = remove String_discrete c.relay_id m.conns }))

-- The new connection is registered under its id, and the OPEN frame is sent.
unfoldable pub start_connection : Net → Connection → Manager → Result RelayError ℕ × Manager
unfolding opened
start_connection net c m =
    opened (length m.heap) (send_frame net RelayKind.«open» 0 0 [] c)
      (record (allocate c m) { conns = insert String_discrete c.relay_id (length m.heap) m.conns })

unfoldable pub config_or_default : Option RelayConfig → RelayConfig
config_or_default none = default_relay_config
config_or_default (some c) = c

unfoldable pub connect_with :
    Net
    → String
    → UserRef
    → Option RelayConfig
    → Result RelayError (SessionRef × SessionRef)
    → Manager
    → Result RelayError ℕ × Manager
unfolding start_connection config_or_default
connect_with net id target config (err e) m = (err e, m)
connect_with net id target config (ok (theirs, ours)) m =
    start_connection net
      (new_connection id (config_or_default config) target ours theirs RelayState.opening) m

-- `connect` up to its `select!`: what the client resolves, its own session, and the random id are
-- arguments. On success the result is the place of the connection.
unfoldable pub begin_connect :
    Net
    → Fallible (List ResolvedSession)
    → Option SessionRef
    → String
    → UserRef
    → Option RelayConfig
    → Manager
    → Result RelayError ℕ × Manager
unfolding connect_with choose_sessions
begin_connect net resolved mine id target config m =
    connect_with net id target config (choose_sessions resolved mine) m

-- The task reaches `open_notify.notified()`.
unfoldable pub await_open : ℕ → Manager → Manager
await_open h m = record m { waiting = h ∷ m.waiting }

abbrev pub open_timeout : RelayError
open_timeout = relay_error "open_timeout" "OPEN timeout waiting for OPEN_ACK"

-- The timeout ends the wait.
unfoldable pub time_out_open : ℕ → Manager → Result RelayError ℕ × Manager
time_out_open h m = (err open_timeout, close_handle h (some open_timeout) m)
