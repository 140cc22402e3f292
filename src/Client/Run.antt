-- ===== src/Client/Run.antt =====
-- The run task of src/client.rs: `run`, `connect_and_serve`, `read_loop` and `should_retry`.
--
-- What the network does is an argument: the reply to the login, or the error before it, as `log_in`
-- of Client/Start gives it, and then what each read gives. The ping task that runs beside `read_loop`
-- is in Client/Ping.
use turntf_rs.Prelude.{
  ℕ, ◌+◌, ◌-◌, ◌*◌, ◌%◌, ◌^◌, Bool, true, false, not, ◌||◌, List, [], ◌∷◌, Option, none, some, ok,
  err, if◌then◌else◌, min,
}
use turntf_rs.Errors.{Error, Fallible, unauthorized}
use turntf_rs.Types.{LoginInfo}
use turntf_rs.Store.{CursorStore}
use turntf_rs.Client.Session.{
  Inner, ClientEvent, emit_event, fail_all_pending, set_connected, set_terminal_error, clear_writer,
  is_closed,
}
use turntf_rs.Client.Calls.{Sink}
use turntf_rs.Client.Incoming.{ServerEnvelope, read_one, expect_login}

-- `Duration::MAX`, in nanoseconds.
abbrev pub duration_max : ℕ
duration_max = 2 ^ 64 * 1000000000 - 1

-- `min(delay.saturating_mul(2), max)`
unfoldable pub next_delay : ℕ → ℕ → ℕ
next_delay longest delay = min (min (delay * 2) duration_max) longest

unfoldable pub retries : Error → Bool
retries Error.closed = false
retries (Error.server e) = not (unauthorized e)
retries _ = true

module _ {S R : Type 0} where
  -- `should_retry`
  unfoldable pub should_retry : Error → Inner S R → Bool
  unfolding retries
  should_retry e x =
      if x.state.closed || x.state.stop_reconnect || not x.cfg.reconnect then false else retries e

  unfoldable pub stop : Error → Inner S R → Inner S R
  stop e x = set_terminal_error e (fail_all_pending e x)

  unfoldable pub after_ok : Inner S R → Option ℕ × Inner S R
  after_ok x =
      if is_closed x
      then (none, set_terminal_error Error.closed x)
      else (some x.cfg.initial_reconnect_delay, x)

  -- One round of `run`: from what `connect_and_serve` returned and the delay, the next delay, or
  -- `none` when the task ends.
  unfoldable pub run_step : Fallible (Unit {0}) → ℕ → Inner S R → Option ℕ × Inner S R
  unfolding after_ok stop should_retry
  run_step (ok _) delay x = after_ok x
  run_step (err e) delay x =
      if should_retry e x
      then (some (next_delay x.cfg.max_reconnect_delay delay), emit_event (ClientEvent.error e) x)
      else (none, stop e x)

  -- The session begins: its writer, its state, the login info and the event.
  unfoldable pub begin_session : LoginInfo → Inner S R → ℕ × Inner S R
  begin_session info x =
      let id = (x.connection_id + 1) % 2 ^ 64 in
      let y = set_connected true (record x { connection_id = id; writer = some id }) in
      (id, emit_event (ClientEvent.login info) (record y { login_info = some info }))

  -- The session ends: what waits is failed, unless the client was closed.
  unfoldable pub end_session : ℕ → Fallible (Unit {0}) → Inner S R → Inner S R
  end_session id result x =
      let y = clear_writer id (set_connected false x) in
      if is_closed y
      then y
      else emit_event
          (ClientEvent.disconnect (elim result [ ok _ ↦ Error.disconnected | err e ↦ e ]))
          (fail_all_pending Error.disconnected y)

module _ {S R : Type 0} (store : CursorStore S) (sink : Sink) where
  -- `read_loop` over what the reads give; `none` while it still reads.
  unfoldable pub read_loop :
      List (Fallible (ServerEnvelope R)) → Inner S R → Option (Fallible (Unit {0})) × Inner S R
  read_loop [] x = (none, x)
  read_loop (err e ∷ reads) x = (some (err e), x)
  read_loop (ok env ∷ reads) x = read_loop reads (read_one store sink env x)

  unfoldable pub serve_end :
      ℕ → Option (Fallible (Unit {0})) × Inner S R → Option (Fallible (Unit {0})) × Inner S R
  serve_end id (none, x) = (none, x)
  serve_end id (some r, x) = (some r, end_session id r x)

  unfoldable pub serve_session :
      List (Fallible (ServerEnvelope R)) → ℕ × Inner S R → Option (Fallible (Unit {0})) × Inner S R
  unfolding serve_end read_loop
  serve_session reads (id, x) = serve_end id (read_loop reads x)

  unfoldable pub logged_in :
      List (Fallible (ServerEnvelope R))
      → Fallible LoginInfo × Inner S R
      → Option (Fallible (Unit {0})) × Inner S R
  unfolding serve_session
  logged_in reads (err e, x) = (some (err e), x)
  logged_in reads (ok info, x) = serve_session reads (begin_session info x)

  unfoldable pub serve_reply :
      List (Fallible (ServerEnvelope R))
      → Fallible (ServerEnvelope R)
      → Inner S R
      → Option (Fallible (Unit {0})) × Inner S R
  unfolding logged_in
  serve_reply reads (err e) x = (some (err e), x)
  serve_reply reads (ok env) x = logged_in reads (expect_login env x)

  -- `connect_and_serve`: `reply` is the server's answer to the login, or what failed before it.
  unfoldable pub connect_and_serve :
      Fallible (ServerEnvelope R)
      → List (Fallible (ServerEnvelope R))
      → Inner S R
      → Option (Fallible (Unit {0})) × Inner S R
  unfolding serve_reply
  connect_and_serve reply reads x =
      if is_closed x then (some (err Error.closed), x) else serve_reply reads reply x
