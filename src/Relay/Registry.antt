-- ===== src/Relay/Registry.antt =====
-- The handshake of `Relay` in src/relay.rs, seen from the side that connects.
use turntf_rs.Prelude.{
  ℕ, ◌≡◌, refl, sym, ap, ◌∙◌, String, List, [], ◌∷◌, none, some, err, get_elem?, set,
  String_discrete, get_elem?-set_self, ==_iff,
}
use turntf_rs.Prelude.Dict.{lookup, remove, lookup-remove_self}
use turntf_rs.Types.{RelayKind, RelayState, RelayEnvelope}
use turntf_rs.Relay.Connection.{Net, Connection, handle_close, run_callbacks}
use turntf_rs.Relay.Manager.{
  Manager, find, dispatch_found, dispatch_to, open_ack_in, notify_open, after_close, close_at, put,
}
use turntf_rs.Relay.Incoming.{handle_kind, handle_envelope_inner}
use turntf_rs.Relay.Outgoing.{await_open, open_timeout, time_out_open}

-- The connection `c` is registered under the id `id`, at the place `h`.
pub record IsAt (m : Manager) (id : String) (h : ℕ) (c : Connection) : Type 0 where
  pub listed : lookup String_discrete id m.conns ≡ some h
  pub stored : get_elem? m.heap h ≡ some c
  pub own_id : c.relay_id ≡ id

abbrev pub accepted_by : RelayEnvelope → Connection → Connection
accepted_by env c = record c { state = RelayState.«open»; remote_session = env.sender_session }

pub find_lem :
    (id : String) (m : Manager) (h : ℕ) (c : Connection) → IsAt m id h c → find id m ≡ some (h, c)
find_lem id m h c at = rw (at.listed, at.stored) refl

open_ack-handled :
    (net : Net) (env : RelayEnvelope) (m : Manager) (h : ℕ) (c : Connection)
    → IsAt m env.relay_id h c
    → env.kind ≡ RelayKind.open_ack
    → handle_envelope_inner net env m ≡ open_ack_in c.state env h c m
unfolding handle_envelope_inner dispatch_found dispatch_to
open_ack-handled net env m h c at kind =
    ap (λ k. handle_kind net k env m) kind
    ∙ ap (λ f. dispatch_found net env f m) (find_lem env.relay_id m h c at)
    ∙ ap (λ k. dispatch_to net k env h c m) kind

-- An OPEN_ACK that finds its connection opening makes it open, with the session that the frame comes
-- from, and leaves the registry as it was.
opening-handled :
    (net : Net) (env : RelayEnvelope) (m : Manager) (h : ℕ) (c : Connection)
    → IsAt m env.relay_id h c
    → env.kind ≡ RelayKind.open_ack
    → c.state ≡ RelayState.opening
    → handle_envelope_inner net env m ≡ notify_open h m.waiting (put h (accepted_by env c) m)
unfolding open_ack_in
opening-handled net env m h c at kind state =
    open_ack-handled net env m h c at kind ∙ ap (λ s. open_ack_in s env h c m) state

ignored-handled :
    (net : Net) (env : RelayEnvelope) (m : Manager) (h : ℕ) (c : Connection)
    → IsAt m env.relay_id h c
    → env.kind ≡ RelayKind.open_ack
    → c.state ≡ RelayState.«open»
    → handle_envelope_inner net env m ≡ m
unfolding open_ack_in
ignored-handled net env m h c at kind state =
    open_ack-handled net env m h c at kind ∙ ap (λ s. open_ack_in s env h c m) state

notify-no_one :
    (h : ℕ) (ws : List ℕ) (m : Manager) → m.waiting ≡ [] → ws ≡ [] → notify_open h ws m ≡ m
unfolding notify_open
notify-no_one h [] m e f = λ i. record m { waiting = sym e i }
notify-no_one h (w ∷ ws) m e f = cc f

notify-only :
    (h : ℕ) (ws : List ℕ) (m : Manager)
    → ws ≡ h ∷ []
    → notify_open h ws m ≡ record m { waiting = []; woken = h ∷ m.woken }
unfolding notify_open
notify-only h ws m e = rw (e, (==_iff h h).1 refl) refl

unanswered :
    (net : Net) (env : RelayEnvelope) (m : Manager) (h : ℕ) (c : Connection)
    → IsAt m env.relay_id h c
    → env.kind ≡ RelayKind.open_ack
    → c.state ≡ RelayState.opening
    → m.waiting ≡ []
    → handle_envelope_inner net env m ≡ put h (accepted_by env c) m
unanswered net env m h c at kind state idle =
    opening-handled net env m h c at kind state
    ∙ notify-no_one h m.waiting (put h (accepted_by env c) m) idle idle

-- Let the call of `connect` wait for the OPEN_ACK, alone, when it arrives. Then the call is woken,
-- and the connection is open with the session that the frame comes from; nothing else changes.
pub open_ack_wakes :
    (net : Net) (env : RelayEnvelope) (m : Manager) (h : ℕ) (c : Connection)
    → IsAt m env.relay_id h c
    → env.kind ≡ RelayKind.open_ack
    → c.state ≡ RelayState.opening
    → m.waiting ≡ h ∷ []
    → handle_envelope_inner net env m ≡ record m {
      heap =
          set m.heap h
            (record c { state = RelayState.«open»; remote_session = env.sender_session });
      waiting = [];
      woken = h ∷ m.woken;
    }
open_ack_wakes net env m h c at kind state alone =
    opening-handled net env m h c at kind state
    ∙ notify-only h m.waiting (put h (accepted_by env c) m) alone

-- Let the OPEN_ACK arrive between the OPEN frame and the wait for it, and a second OPEN_ACK during
-- the wait. Neither wakes the call of `connect`, though the connection is open; and when the
-- timeout ends the wait, the call fails, and the connection is closed and not registered any more.
pub open_ack_lost :
    (net : Net) (env late : RelayEnvelope) (m : Manager) (h : ℕ) (c : Connection)
    → IsAt m env.relay_id h c
    → env.kind ≡ RelayKind.open_ack
    → late.kind ≡ RelayKind.open_ack
    → late.relay_id ≡ env.relay_id
    → c.state ≡ RelayState.opening
    → m.waiting ≡ []
    → let m' = handle_envelope_inner net late (await_open h (handle_envelope_inner net env m)) in
      let (r, m'') = time_out_open h m' in
      (m'.woken ≡ m.woken)
      × (m'.waiting ≡ h ∷ [])
      × (get_elem? m'.heap h ≡ some (accepted_by env c))
      × (r ≡ err open_timeout)
      × (lookup String_discrete env.relay_id m''.conns ≡ none)
      × ((d : Connection) × ((get_elem? m''.heap h ≡ some d) × (d.state ≡ RelayState.closed)))
unfolding await_open time_out_open close_at after_close handle_close run_callbacks
open_ack_lost net env late m h c at kind kind' same state idle =
    let first = unanswered net env m h c at kind state idle in
    let stored = get_elem?-set_self m.heap h c (accepted_by env c) at.stored in
    let waits = await_open h (put h (accepted_by env c) m) in
    let second =
      ap (λ n. handle_envelope_inner net late (await_open h n)) first
      ∙ ignored-handled net late waits h (accepted_by env c)
          (record {
            listed = ap (λ id. lookup String_discrete id m.conns) same ∙ at.listed;
            stored = stored;
            own_id = at.own_id ∙ sym same;
          })
          kind' refl
      ∙ ap (λ (ws : List ℕ). record waits { waiting = h ∷ ws }) idle in
    rw (second, stored)
      (
        refl,
        refl,
        refl,
        refl,
        ap (λ id. lookup String_discrete env.relay_id (remove String_discrete id m.conns)) at.own_id
            ∙ lookup-remove_self String_discrete env.relay_id m.conns,
        (
          run_callbacks (some open_timeout) (accepted_by env c),
          (
            get_elem?-set_self (set m.heap h (accepted_by env c)) h (accepted_by env c) _ stored,
            refl,
          ),
        ),
      )
