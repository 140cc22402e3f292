-- ===== src/Relay/Closing.antt =====
-- The end of a connection: `handle_close` of src/relay.rs, when several parties close.
pub mod Final
use turntf_rs.Prelude.{
  ℕ, ◌≡◌, ◌≢◌, refl, sym, ap, ◌∙◌, List, [], ◌∷◌, ◌++◌, map, Bool, true, false, Option, some,
}
use turntf_rs.Types.{RelayError, RelayState}
use turntf_rs.Relay.Connection.{Connection, Closes, handle_close, close_from, run_callbacks}

close_from_alive :
    (state : RelayState) (reason : Option RelayError) (c : Connection)
    → state ≢ RelayState.closed
    → close_from state reason c ≡ (run_callbacks reason c, true)
unfolding close_from
close_from_alive RelayState.closed reason c alive = absurd (alive refl)
close_from_alive _ reason c alive = refl

close_from_closed :
    (state : RelayState) (reason : Option RelayError) (c : Connection)
    → state ≡ RelayState.closed
    → close_from state reason c ≡ (c, false)
unfolding close_from
close_from_closed RelayState.closed reason c e = refl
close_from_closed RelayState.opening reason c e = cc
close_from_closed RelayState.«open» reason c e = cc
close_from_closed RelayState.closing reason c e = cc

pub handle_close_alive :
    (reason : Option RelayError) (c : Connection)
    → c.state ≢ RelayState.closed
    → handle_close reason c ≡ (run_callbacks reason c, true)
unfolding handle_close
handle_close_alive reason c alive = close_from_alive c.state reason c alive

pub handle_close_closed :
    (reason : Option RelayError) (c : Connection)
    → c.state ≡ RelayState.closed
    → handle_close reason c ≡ (c, false)
unfolding handle_close
handle_close_closed reason c e = close_from_closed c.state reason c e

-- A connection that several parties close, one after the other, with how often the manager is asked
-- to forget it.
pub closes : List (Option RelayError) → Connection → Connection × List Bool
closes [] c = (c, [])
closes (reason ∷ reasons) c =
    let (d, asked) = handle_close reason c in let (e, rest) = closes reasons d in (e, asked ∷ rest)

abbrev all_refused : List (Option RelayError) → List Bool
all_refused [] = []
all_refused (reason ∷ reasons) = false ∷ all_refused reasons

closes_closed :
    (reasons : List (Option RelayError)) (c : Connection)
    → c.state ≡ RelayState.closed
    → closes reasons c ≡ (c, all_refused reasons)
unfolding closes
closes_closed [] c e = refl
closes_closed (reason ∷ reasons) c e =
    rw (handle_close_closed reason c e, closes_closed reasons c e)

-- However many parties close a connection that is not closed yet, each registered callback is called
-- once, with the reason of the first; none is left registered; the connection is closed and marked
-- so; and the manager is asked to forget it by the first only.
pub callbacks_once :
    (reason : Option RelayError) (reasons : List (Option RelayError)) (c : Connection)
    → c.state ≢ RelayState.closed
    → let (d, asked) = closes (reason ∷ reasons) c in
      (d.notified ≡ c.notified ++ map (λ callback. (callback, reason)) c.on_close)
      × (d.on_close ≡ [])
      × (d.state ≡ RelayState.closed)
      × (d.closed ≡ true)
      × (asked ≡ true ∷ all_refused reasons)
unfolding closes run_callbacks
callbacks_once reason reasons c alive =
    rw (handle_close_alive reason c alive, closes_closed reasons (run_callbacks reason c) refl)
      (refl, refl, refl, refl, refl)
