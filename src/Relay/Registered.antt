-- ===== src/Relay/Registered.antt =====
-- The registry of `Relay` in src/relay.rs as an invariant, and the updates of the map and the heap.
pub mod Steps
pub mod Histories
pub mod Still
pub mod Closed
use turntf_rs.Prelude.{
  ℕ, ◌≡◌, ◌≢◌, refl, sym, ap, ◌∙◌, ◌⊎◌, inl, inr, String, Bool, true, false, List, [], ◌∷◌, ◌++◌,
  Option, none, some, Result, ok, err, length, get_elem?, set, String_discrete, get_elem?-set_self,
  get_elem?-set_ne, get_elem?-append_old, get_elem?-append_end, ℕ_discrete, Option-cases, arith,
  ==_iff, if_cases, ◌==◌,
}
use turntf_rs.Prelude.Dict.{
  Dict, lookup, insert, remove, lookup-remove_self, lookup-remove_ne, lookup-insert_self,
  lookup-insert_ne,
}
use mathlib.Core.Path.{subst, subst₂}
use turntf_rs.Relay.Closing.{handle_close_alive, handle_close_closed}
use turntf_rs.Types.{RelayState-discrete, Bytes, RelayKind, RelayState, RelayEnvelope, RelayError}
use turntf_rs.Relay.Connection.{
  Net, Connection, Closes, handle_close, close_from, run_callbacks, send_frame,
}
use turntf_rs.Relay.Handlers.{handle_envelope}
use turntf_rs.Relay.Manager.{
  Manager, new_relay, put, after_close, close_at, close_handle, notify_open, open_ack_in,
  dispatch_to, dispatch_found, find, connection_of, located,
}
use turntf_rs.Relay.Registry.{IsAt}

-- The connection registered under `id` is at `h`, and is not closed.
pub record IsLive (heap : List Connection) (id : String) (h : ℕ) : Type 0 where
  pub at : Connection
  pub stored : get_elem? heap h ≡ some at
  pub own_id : at.relay_id ≡ id
  pub alive : at.state ≢ RelayState.closed

abbrev pub Registered : Dict String ℕ → List Connection → Type 0
Registered conns heap =
    (id : String) (h : ℕ) → lookup String_discrete id conns ≡ some h → IsLive heap id h

abbrev pub IsRegistry : Manager → Type 0
IsRegistry m = Registered m.conns m.heap

module _ (conns : Dict String ℕ) (heap : List Connection) where
  same-stored :
      (h k : ℕ) (c d : Connection)
      → get_elem? heap h ≡ some c
      → get_elem? heap k ≡ some d
      → h ≡ k
      → c ≡ d
  same-stored h k c d e f here = cc (e, f, ap (get_elem? heap) here)

  -- A connection that is replaced at its place by one of the same id, closed only if it was.
  pub set-Registered :
      (h : ℕ) (c d : Connection)
      → get_elem? heap h ≡ some c
      → d.relay_id ≡ c.relay_id
      → (c.state ≢ RelayState.closed → d.state ≢ RelayState.closed)
      → Registered conns heap
      → Registered conns (set heap h d)
  set-Registered h c d there same lives r id k e = elim (ℕ_discrete h k) [
    | yes here ↦ moved here
    | no other ↦
        let old = r id k e in
        record {
          at = old.at;
          stored = get_elem?-set_ne heap h k d other ∙ old.stored;
          own_id = old.own_id;
          alive = old.alive;
        }
  ]
    where
      moved : h ≡ k → IsLive (set heap h d) id k
      moved here =
          let old = r id k e in
          let is_c = same-stored h k c old.at there old.stored here in
          record {
            at = d;
            stored = ap (get_elem? (set heap h d)) (sym here) ∙ get_elem?-set_self heap h c d there;
            own_id = same ∙ ap (λ (w : Connection). w.relay_id) is_c ∙ old.own_id;
            alive = lives (λ shut. old.alive (ap (λ (w : Connection). w.state) (sym is_c) ∙ shut));
          }

  -- A connection that is replaced, its id forgotten.
  pub remove-Registered :
      (h : ℕ) (c d : Connection)
      → get_elem? heap h ≡ some c
      → d.relay_id ≡ c.relay_id
      → Registered conns heap
      → Registered (remove String_discrete d.relay_id conns) (set heap h d)
  remove-Registered h c d there same r id k e = elim (String_discrete d.relay_id id) [
    | yes gone ↦ absurd (
        cc (
          ap (λ j. lookup String_discrete j (remove String_discrete d.relay_id conns)) gone,
          lookup-remove_self String_discrete d.relay_id conns,
          e,
        ))
    | no other ↦ kept other (sym (lookup-remove_ne String_discrete d.relay_id id conns other) ∙ e)
  ]
    where
      kept :
          ¬ (d.relay_id ≡ id)
          → lookup String_discrete id conns ≡ some k
          → IsLive (set heap h d) id k
      kept other listed =
          let old = r id k listed in
          record {
            at = old.at;
            stored =
                get_elem?-set_ne heap h k d (λ here. other (
                  same
                  ∙ ap (λ (w : Connection). w.relay_id)
                      (same-stored h k c old.at there old.stored here)
                  ∙ old.own_id))
                ∙ old.stored;
            own_id = old.own_id;
            alive = old.alive;
          }

  -- A connection that nothing is registered for yet.
  pub append-Registered :
      (c : Connection) → Registered conns heap → Registered conns (heap ++ c ∷ [])
  append-Registered c r id k e =
      let old = r id k e in
      record {
        at = old.at;
        stored = get_elem?-append_old heap c old.at k old.stored;
        own_id = old.own_id;
        alive = old.alive;
      }

  -- A new connection, registered under its id.
  pub insert-Registered :
      (h : ℕ) (c : Connection)
      → get_elem? heap h ≡ some c
      → c.state ≢ RelayState.closed
      → Registered conns heap
      → Registered (insert String_discrete c.relay_id h conns) heap
  insert-Registered h c there alive r id k e = elim (String_discrete c.relay_id id) [
    | yes own ↦ new own
    | no other ↦ r id k (sym (lookup-insert_ne String_discrete c.relay_id id h conns other) ∙ e)
  ]
    where
      new : c.relay_id ≡ id → IsLive heap id k
      new own =
          let here : h ≡ k = cc (
            ap (λ j. lookup String_discrete j (insert String_discrete c.relay_id h conns)) own,
            lookup-insert_self String_discrete c.relay_id h conns,
            e,
          ) in
          record {
            at = c;
            stored = ap (get_elem? heap) (sym here) ∙ there;
            own_id = own;
            alive = alive;
          }

-- Closing a connection at its place keeps the registry: one that was not closed is forgotten.
pub close-IsRegistry :
    (m : Manager) (h : ℕ) (c : Connection) (reason : Option RelayError)
    → get_elem? m.heap h ≡ some c
    → IsRegistry m
    → IsRegistry (after_close h (handle_close reason c) m)
close-IsRegistry m h c reason there r = elim (RelayState-discrete c.state RelayState.closed) [
  | yes shut ↦
      subst (λ (p : Closes). IsRegistry (after_close h p m))
        (sym (handle_close_closed reason c shut))
        (unfold after_close in set-Registered m.conns m.heap h c c there refl (λ alive. alive) r)
  | no alive ↦
      subst (λ (p : Closes). IsRegistry (after_close h p m))
        (sym (handle_close_alive reason c alive))
        (unfold after_close in
          unfold run_callbacks in
          remove-Registered m.conns m.heap h c (run_callbacks reason c) there refl r)
]
