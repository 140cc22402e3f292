-- ===== src/Relay/Manager.antt =====
-- `Relay` of src/relay.rs: the connections by id, and how frames, connects and closes change them.
--
-- Connections are shared by reference, so they live in a heap and the map holds their places. A
-- task that `tokio::spawn` starts to close one is recorded in `spawned` and runs as a step of its
-- own. `waiting` and `woken` are the calls of `connect` in `open_notify.notified()`:
-- `notify_waiters` wakes those that wait, and is lost on those that do not wait yet.
use turntf_rs.Prelude.{
  ℕ, String, Bool, true, false, List, [], ◌∷◌, ◌++◌, Option, none, some, String_discrete, get_elem?,
  set, ◌==◌, if◌then◌else◌,
}
use turntf_rs.Prelude.Dict.{Dict, lookup, insert, remove}
use turntf_rs.Types.{
  default_user_ref, RelayKind, RelayState, RelayEnvelope, RelayError, default_relay_config,
}
use turntf_rs.Relay.Connection.{
  Net, Connection, Closes, new_connection, relay_error, send_frame, handle_close,
}
use turntf_rs.Relay.Handlers.{handle_envelope}
use turntf_rs.Relay.SendTask.{spawn_send_loop}
use turntf_rs.Utf8.{from_utf8_lossy}

pub record Manager : Type 0 where
  pub conns : Dict String ℕ
  pub heap : List Connection
  pub has_handler : Bool
  pub announced : List ℕ
  pub spawned : List (ℕ × RelayError)
  pub waiting : List ℕ
  pub woken : List ℕ

-- `Relay::new`
unfoldable pub new_relay : Manager
new_relay = record {
  conns = [];
  heap = [];
  has_handler = false;
  announced = [];
  spawned = [];
  waiting = [];
  woken = [];
}

-- `on_connection`
unfoldable pub on_connection : Manager → Manager
on_connection m = record m { has_handler = true }

-- `remove_connection`
unfoldable pub remove_connection : String → Manager → Manager
remove_connection id m = record m { conns = remove String_discrete id m.conns }

abbrev pub put : ℕ → Connection → Manager → Manager
put h c m = record m { heap = set m.heap h c }

-- The connection at `h` after a step, its id forgotten if the step asks for that.
unfoldable pub after_close : ℕ → Closes → Manager → Manager
after_close h (c, true) m = record m {
  heap = set m.heap h c;
  conns = remove String_discrete c.relay_id m.conns;
}
after_close h (c, false) m = put h c m

unfoldable pub close_at : ℕ → Option RelayError → Option Connection → Manager → Manager
close_at h reason none m = m
close_at h reason (some c) m = after_close h (handle_close reason c) m

-- `handle_close` of a shared connection.
abbrev pub close_handle : ℕ → Option RelayError → Manager → Manager
close_handle h reason m = close_at h reason (get_elem? m.heap h) m

-- `notify_waiters` on the connection's `open_notify`.
unfoldable pub notify_open : ℕ → List ℕ → Manager → Manager
notify_open h [] m = record m { waiting = [] }
notify_open h (w ∷ ws) m =
    let rest = notify_open h ws m in
    if w == h
    then record rest { woken = w ∷ rest.woken }
    else record rest { waiting = w ∷ rest.waiting }

-- An OPEN_ACK: only a connection that is opening becomes open.
unfoldable pub open_ack_in : RelayState → RelayEnvelope → ℕ → Connection → Manager → Manager
unfolding notify_open
open_ack_in RelayState.opening env h c m =
    notify_open h m.waiting
      (put h (record c { state = RelayState.«open»; remote_session = env.sender_session }) m)
open_ack_in _ env h c m = m

abbrev pub remote_close : RelayError
remote_close = relay_error "remote_close" "remote peer closed connection"

-- The frames of a connection that is there.
unfoldable pub dispatch_to : Net → RelayKind → RelayEnvelope → ℕ → Connection → Manager → Manager
unfolding open_ack_in
dispatch_to net RelayKind.open_ack env h c m = open_ack_in c.state env h c m
dispatch_to net RelayKind.close env h c m = after_close h (handle_close (some remote_close) c) m
dispatch_to net RelayKind.error env h c m =
    after_close h
      (handle_close (some (relay_error "protocol_error" (from_utf8_lossy env.payload))) c) m
dispatch_to net _ env h c m = put h (handle_envelope net env c) m

abbrev pub located : ℕ → Option Connection → Option (ℕ × Connection)
located h none = none
located h (some c) = some (h, c)

abbrev pub connection_of : Manager → Option ℕ → Option (ℕ × Connection)
connection_of m none = none
connection_of m (some h) = located h (get_elem? m.heap h)

-- The connection registered under an id.
abbrev pub find : String → Manager → Option (ℕ × Connection)
find id m = connection_of m (lookup String_discrete id m.conns)

unfoldable pub dispatch_found : Net → RelayEnvelope → Option (ℕ × Connection) → Manager → Manager
dispatch_found net env none m = m
dispatch_found net env (some (h, c)) m = dispatch_to net env.kind env h c m

-- The connection that `accept_incoming` builds. The peer's user is not in the frame: it is the
-- default user reference.
unfoldable pub incoming : RelayEnvelope → Connection
unfolding new_connection
incoming env =
    new_connection env.relay_id default_relay_config default_user_ref env.target_session
      env.sender_session RelayState.«open»

abbrev pub duplicate_open : RelayError
duplicate_open = relay_error "duplicate_open" "concurrent OPEN, keeping lower relay_id"

-- The new connection is put in the heap in any case, at the end.
abbrev pub allocate : Connection → Manager → Manager
allocate c m = record m { heap = m.heap ++ c ∷ [] }

unfoldable pub announce : Bool → ℕ → Manager → Manager
announce called h m = record m { announced = if called then m.announced ++ h ∷ [] else m.announced }

-- The id is free, or the new connection takes it over: the send loop starts, the OPEN_ACK goes
-- out, its result ignored, and the handler is called.
unfoldable pub admit : Net → RelayEnvelope → ℕ → Manager → Manager
unfolding announce
admit net env h m = announce m.has_handler h (
    put h (send_frame net RelayKind.open_ack 0 0 [] (spawn_send_loop (incoming env))).1
      (record m { conns = insert String_discrete env.relay_id h m.conns }))
