-- ===== src/Client/Retry.antt =====
-- When and how the run task of src/client.rs reconnects.
use turntf_rs.Prelude.{
  ℕ, zero, suc, ◌*◌, ◌≤◌, ◌≡◌, ◌≢◌, refl, true, false, List, [], ◌∷◌, ◌++◌, map, ◌⊎◌, inl, inr,
  eq_iff, Option, none, some, ok, err, if_cases, min, arith,
}
use turntf_rs.Errors.{Error, Fallible, ServerError}
use turntf_rs.Types.{LoginInfo}
use turntf_rs.Store.{CursorStore}
use turntf_rs.Client.Session.{Inner, fail_all_pending, set_terminal_error, is_closed, poll_connect}
use turntf_rs.Client.Calls.{Sink}
use turntf_rs.Client.Incoming.{ServerEnvelope, read_one, expect_login}
use turntf_rs.Client.Run.{
  duration_max, next_delay, retries, should_retry, stop, run_step, begin_session, read_loop,
  serve_end, serve_session, logged_in, serve_reply, connect_and_serve,
}

-- The delay after `n` retries.
unfoldable pub delay_after : ℕ → ℕ → ℕ → ℕ
unfolding next_delay
delay_after longest first zero = first
delay_after longest first (suc n) = next_delay longest (delay_after longest first n)

abbrev pub doubled : ℕ → ℕ → ℕ
doubled first zero = first
doubled first (suc n) = doubled first n * 2

delay_after-min :
    (longest first n : ℕ)
    → longest ≤ duration_max
    → min (delay_after longest first n) longest ≡ min (doubled first n) longest
unfolding delay_after next_delay
delay_after-min longest first zero h = refl
delay_after-min longest first (suc n) h = ground (arith, delay_after-min longest first n h)

-- The delays double from the first one up to the longest, which none but the first exceeds: after
-- n > 0 retries the delay is the first one doubled n times, or the longest if that is less. The
-- longest is a `Duration`.
pub backoff :
    (longest first n : ℕ)
    → longest ≤ duration_max
    → delay_after longest first (suc n) ≡ min (doubled first (suc n)) longest
unfolding delay_after next_delay
backoff longest first n h = ground (arith, delay_after-min longest first n h)

unauthorized_stops : (s : ServerError) → s.code ≡ "unauthorized" → retries (Error.server s) ≡ false
unfolding retries
unauthorized_stops s h = rw ((eq_iff s.code "unauthorized").1 h) refl

module _ {S R : Type 0} where
  -- The client must not reconnect: it is closed, its login was refused before, it is configured so, or
  -- the error says that it is closed or that the server does not authorize it.
  abbrev pub MustStop : Error → Inner S R → Type 0
  MustStop e x =
      (x.state.closed ≡ true)
      ⊎ ((x.state.stop_reconnect ≡ true)
          ⊎ ((x.cfg.reconnect ≡ false)
              ⊎ ((e ≡ Error.closed)
                  ⊎ ((s : ServerError) × (e ≡ Error.server s) × (s.code ≡ "unauthorized")))))

  MustStop-should_retry : (e : Error) (x : Inner S R) → MustStop e x → should_retry e x ≡ false
  unfolding should_retry retries
  MustStop-should_retry e x (inl h) = rw h refl
  MustStop-should_retry e x (inr (inl h)) = ground arith
  MustStop-should_retry e x (inr (inr (inl h))) = ground arith
  MustStop-should_retry e x (inr (inr (inr (inl h)))) = ground arith
  MustStop-should_retry e x (inr (inr (inr (inr (s, h, k))))) =
      let no_retry = unauthorized_stops s k in rw h (ground arith)

  -- An error on which the client must not reconnect ends the run task: each waiting call has received
  -- it, once, none waits any more, and a call of `connect` fails with it; nothing is shown or written.
  pub terminal_error_reported :
      (e : Error) (delay : ℕ) (x : Inner S R)
      → MustStop e x
      → let (next, y) = run_step (err e) delay x in
        (next ≡ none)
        × (y.answered ≡ x.answered ++ map (λ (id, call). (call, err e)) x.pending)
        × (y.pending ≡ [])
        × (poll_connect y ≡ some (err e))
        × (y.events ≡ x.events)
        × (y.written ≡ x.written)
  unfolding run_step stop poll_connect set_terminal_error fail_all_pending
  terminal_error_reported e delay x h =
      rw (MustStop-should_retry e x h, run_step) (refl, refl, refl, refl, refl, refl)

module _ {S R : Type 0} (store : CursorStore S) (sink : Sink) where
  abbrev IsFailure : Option (Fallible (Unit {0})) × Inner S R → Type 0
  IsFailure r = r.0 ≢ some (ok tt)

  read_loop-IsFailure :
      (reads : List (Fallible (ServerEnvelope R))) (x : Inner S R)
      → IsFailure (read_loop store sink reads x)
  unfolding read_loop
  read_loop-IsFailure [] x h = cc h
  read_loop-IsFailure (err e ∷ reads) x h = cc h
  read_loop-IsFailure (ok env ∷ reads) x h = read_loop-IsFailure reads (read_one store sink env x) h

  serve_end-IsFailure :
      (id : ℕ) (r : Option (Fallible (Unit {0})) × Inner S R)
      → IsFailure r
      → IsFailure (serve_end store sink id r)
  unfolding serve_end
  serve_end-IsFailure id (none, x) f h = cc h
  serve_end-IsFailure id (some r, x) f h = f h

  logged_in-IsFailure :
      (reads : List (Fallible (ServerEnvelope R))) (r : Fallible LoginInfo × Inner S R)
      → IsFailure (logged_in store sink reads r)
  unfolding logged_in serve_session
  logged_in-IsFailure reads (err e, x) h = cc h
  logged_in-IsFailure reads (ok info, x) h =
      let (id, y) = begin_session info x in
      serve_end-IsFailure id (read_loop store sink reads y) (read_loop-IsFailure reads y) h

  serve_reply-IsFailure :
      (reads : List (Fallible (ServerEnvelope R))) (reply : Fallible (ServerEnvelope R))
      (x : Inner S R)
      → IsFailure (serve_reply store sink reads reply x)
  unfolding serve_reply
  serve_reply-IsFailure reads (err e) x h = cc h
  serve_reply-IsFailure reads (ok env) x h = logged_in-IsFailure reads (expect_login env x) h

  -- `connect_and_serve` never returns `Ok`, whatever the server sends: so the branch of `run` that
  -- sets the delay back to the first one is never taken, however long a session lasted.
  pub serve_never_ok :
      (reply : Fallible (ServerEnvelope R)) (reads : List (Fallible (ServerEnvelope R)))
      (x : Inner S R)
      → (connect_and_serve store sink reply reads x).0 ≢ some (ok tt)
  unfolding connect_and_serve
  serve_never_ok reply reads x =
      if_cases IsFailure (is_closed x) (some (err Error.closed), x)
        (serve_reply store sink reads reply x) (λ _ h. cc h)
        (λ _. serve_reply-IsFailure reads reply x)
