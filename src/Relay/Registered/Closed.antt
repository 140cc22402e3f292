-- ===== src/Relay/Registered/Closed.antt =====
-- A closed connection of `Relay` in src/relay.rs over whole histories: frames, the manager's tasks, the
-- send loops and their users.
use turntf_rs.Prelude.{
  ℕ, ◌≡◌, refl, sym, List, [], ◌∷◌, Option, none, some, get_elem?, Option-cases, inl, inr,
}
use mathlib.Core.Path.{subst}
use turntf_rs.Types.{RelayState, RelayError}
use turntf_rs.Relay.Connection.{Net, Connection, Closes, close, abort}
use turntf_rs.Relay.SendTask.{Wake, loop_step}
use turntf_rs.Relay.Closing.Final.{Life, life, Same, handle_close-Same, loop_step-Same, close-Same}
use turntf_rs.Relay.Manager.{Manager, after_close}
use turntf_rs.Relay.Incoming.{handle_envelope_inner, run_spawned}
use turntf_rs.Relay.Outgoing.{
  begin_connect, choose_sessions, await_open, time_out_open, open_timeout,
}
use turntf_rs.Relay.Registered.Still.{
  IsStill, after_close-IsStill, close_at-IsStill, run_first-IsStill, handle_kind-IsStill,
  connect-IsStill,
}
use turntf_rs.Relay.Registered.Histories.{
  Event, framed, task_run, connects, awaits, times_out, manager_step,
}

-- What happens around a manager: its own events, and at the place of a connection a step of the send
-- loop and the user's `close` and `abort`.
pub data Happening : Type 0 where
  managed : Event → Happening
  wakes : ℕ → Wake → Happening
  closes : ℕ → Happening
  aborts : ℕ → RelayError → Happening

pub step_at : ℕ → (Connection → Closes) → Option Connection → Manager → Manager
unfolding after_close
step_at k f none m = m
step_at k f (some c) m = after_close k (f c) m

pub happening : Net → Happening → Manager → Manager
unfolding step_at manager_step loop_step close abort
happening net (managed e) m = manager_step net e m
happening net (wakes k w) m = step_at k (loop_step net w) (get_elem? m.heap k) m
happening net (closes k) m = step_at k (close net) (get_elem? m.heap k) m
happening net (aborts k reason) m = step_at k (abort reason) (get_elem? m.heap k) m

pub happenings : Net → List Happening → Manager → Manager
unfolding happening
happenings net [] m = m
happenings net (e ∷ es) m = happenings net es (happening net e m)

module _ (l : Life) (h : ℕ) (closed : l.state ≡ RelayState.closed) where
  step_at-IsStill :
      (m : Manager) (k : ℕ) (f : Connection → Closes)
      → ((c : Connection) → Same c (f c).0)
      → IsStill l h m.heap
      → IsStill l h (step_at k f (get_elem? m.heap k) m).heap
  unfolding step_at
  step_at-IsStill m k f kept s = elim (Option-cases (get_elem? m.heap k)) [
    | inl e ↦ subst (λ o. IsStill l h (step_at k f o m).heap) (sym e) s
    | inr (c, e) ↦
        subst (λ o. IsStill l h (step_at k f o m).heap) (sym e)
          (after_close-IsStill l h closed m k c (f c) e (kept c) s)
  ]

  manager_step-IsStill :
      (net : Net) (e : Event) (m : Manager)
      → IsStill l h m.heap
      → IsStill l h (manager_step net e m).heap
  unfolding manager_step handle_envelope_inner run_spawned begin_connect await_open time_out_open
  manager_step-IsStill net (framed env) m s = handle_kind-IsStill l h closed net env env.kind m s
  manager_step-IsStill net task_run m s = run_first-IsStill l h closed m.spawned m s
  manager_step-IsStill net (connects resolved mine id target config) m s =
      connect-IsStill l h closed net id target config (choose_sessions resolved mine) m s
  manager_step-IsStill net (awaits k) m s = s
  manager_step-IsStill net (times_out k) m s = close_at-IsStill l h closed m k (some open_timeout) s

  happening-IsStill :
      (net : Net) (e : Happening) (m : Manager)
      → IsStill l h m.heap
      → IsStill l h (happening net e m).heap
  unfolding happening abort
  happening-IsStill net (managed e) m s = manager_step-IsStill net e m s
  happening-IsStill net (wakes k w) m s =
      step_at-IsStill m k (loop_step net w) (loop_step-Same net w) s
  happening-IsStill net (closes k) m s = step_at-IsStill m k (close net) (close-Same net) s
  happening-IsStill net (aborts k reason) m s =
      step_at-IsStill m k (abort reason) (handle_close-Same (some reason)) s

  happenings-IsStill :
      (net : Net) (es : List Happening) (m : Manager)
      → IsStill l h m.heap
      → IsStill l h (happenings net es m).heap
  unfolding happenings
  happenings-IsStill net [] m s = s
  happenings-IsStill net (e ∷ es) m s =
      happenings-IsStill net es (happening net e m) (happening-IsStill net e m s)

-- Let a connection of a manager be closed. Whatever relay frames of any kind arrive, whichever calls
-- of `connect` start, wait and time out, whichever tasks run that close connections, and whatever
-- the send loops and the users' calls of `close` and `abort` do, in any order: it stays in its place
-- with its id, closed and marked as it was, with the same callbacks and the same calls of them.
pub closed_is_final :
    (net : Net) (es : List Happening) (m : Manager) (h : ℕ) (c : Connection)
    → get_elem? m.heap h ≡ some c
    → c.state ≡ RelayState.closed
    → IsStill (life c) h (happenings net es m).heap
closed_is_final net es m h c there closed =
    happenings-IsStill (life c) h closed net es m (c, there, refl)
