-- ===== src/Relay/Registered/Histories.antt =====
-- The registry of `Relay` in src/relay.rs over whole histories of a manager.
use turntf_rs.Prelude.{ℕ, String, List, [], ◌∷◌, Option, some}
use turntf_rs.Prelude.Dict.{lookup}
use turntf_rs.Types.{RelayEnvelope, RelayConfig, SessionRef, UserRef, ResolvedSession}
use turntf_rs.Errors.{Fallible}
use turntf_rs.Relay.Connection.{Net}
use turntf_rs.Relay.Manager.{Manager, new_relay}
use turntf_rs.Relay.Incoming.{handle_envelope_inner, run_spawned}
use turntf_rs.Relay.Outgoing.{
  begin_connect, choose_sessions, await_open, time_out_open, open_timeout,
}
use turntf_rs.Relay.Registered.{IsRegistry}
use turntf_rs.Relay.Registered.Steps.{
  handle_kind-IsRegistry, run_first-IsRegistry, connect-IsRegistry, close_at-IsRegistry,
}

-- What happens to a manager: a relay frame, a spawned task that closes a connection, and the parts of
-- a call of `connect`.
pub data Event : Type 0 where
  framed : RelayEnvelope → Event
  task_run : Event
  connects :
      Fallible (List ResolvedSession)
      → Option SessionRef
      → String
      → UserRef
      → Option RelayConfig
      → Event
  awaits : ℕ → Event
  times_out : ℕ → Event

unfoldable pub manager_step : Net → Event → Manager → Manager
unfolding handle_envelope_inner run_spawned begin_connect await_open time_out_open
manager_step net (framed env) m = handle_envelope_inner net env m
manager_step net task_run m = run_spawned m
manager_step net (connects resolved mine id target config) m =
    (begin_connect net resolved mine id target config m).1
manager_step net (awaits h) m = await_open h m
manager_step net (times_out h) m = (time_out_open h m).1

pub manager_steps : Net → List Event → Manager → Manager
unfolding manager_step
manager_steps net [] m = m
manager_steps net (e ∷ es) m = manager_steps net es (manager_step net e m)

manager_step-IsRegistry :
    (net : Net) (e : Event) (m : Manager) → IsRegistry m → IsRegistry (manager_step net e m)
unfolding manager_step
manager_step-IsRegistry net (framed env) m r = handle_kind-IsRegistry net env env.kind m r
manager_step-IsRegistry net task_run m r = run_first-IsRegistry m.spawned m r
manager_step-IsRegistry net (connects resolved mine id target config) m r =
    connect-IsRegistry net id target config (choose_sessions resolved mine) m r
manager_step-IsRegistry net (awaits h) m r = r
manager_step-IsRegistry net (times_out h) m r = close_at-IsRegistry h (some open_timeout) m r

steps-IsRegistry :
    (net : Net) (es : List Event) (m : Manager) → IsRegistry m → IsRegistry (manager_steps net es m)
unfolding manager_steps
steps-IsRegistry net [] m r = r
steps-IsRegistry net (e ∷ es) m r =
    steps-IsRegistry net es (manager_step net e m) (manager_step-IsRegistry net e m r)

-- Whatever relay frames arrive at a new manager, whichever calls of `connect` start, wait and time
-- out, and whenever the tasks run that close a connection, in any order: each registered connection
-- is there, has the id that it is registered under, and is not closed.
pub manager_steps-IsRegistry :
    (net : Net) (es : List Event) → IsRegistry (manager_steps net es new_relay)
unfolding new_relay lookup
manager_steps-IsRegistry net es = steps-IsRegistry net es new_relay (λ id h e. absurd (cc e))
