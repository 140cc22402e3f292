-- ===== src/Relay/Registered/Steps.antt =====
-- The steps of `Relay` in src/relay.rs and the registry.
use turntf_rs.Prelude.{
  ℕ, ◌≡◌, refl, sym, ap, ◌∙◌, String, Bool, true, false, List, [], ◌∷◌, ◌++◌, Option, none, some,
  Result, ok, err, length, get_elem?, String_discrete, get_elem?-append_end, Option-cases, if_cases,
  ◌==◌, inl, inr, str_lt,
}
use turntf_rs.Prelude.Dict.{insert, lookup}
use mathlib.Core.Path.{subst, subst₂}
use turntf_rs.Types.{
  Reliability, RelayKind, RelayState, RelayEnvelope, RelayError, RelayConfig, SessionRef, UserRef,
}
use turntf_rs.Relay.Connection.{SendLoop, Net, Connection, new_connection, send_frame, relay_error}
use turntf_rs.Relay.Handlers.{handle_envelope, dispatch}
use turntf_rs.Relay.SendTask.{spawn_send_loop, spawn_of, best_effort_head, at}
use turntf_rs.Relay.Closing.Final.{Life, Alike, send_frame-Alike, dispatch-Alike, loop_head-Alike}
use turntf_rs.Relay.Manager.{
  Manager, put, close_at, close_handle, notify_open, open_ack_in, dispatch_to, dispatch_found,
  connection_of, located, remote_close, incoming, admit, allocate, duplicate_open, find,
}
use turntf_rs.Utf8.{from_utf8_lossy}
use turntf_rs.Relay.Incoming.{accept_incoming, accept_by, resolve_duplicate, handle_kind, run_first}
use turntf_rs.Relay.Outgoing.{connect_with, start_connection, opened, config_or_default}
use turntf_rs.Relay.Registered.{
  Registered, IsRegistry, set-Registered, remove-Registered, append-Registered, insert-Registered,
  close-IsRegistry,
}

notify-conns : (h : ℕ) (ws : List ℕ) (m : Manager) → (notify_open h ws m).conns ≡ m.conns
unfolding notify_open
notify-conns h [] m = refl
notify-conns h (w ∷ ws) m =
    let rest = notify_open h ws m in
    if_cases (λ (n : Manager). n.conns ≡ m.conns) (w == h) (record rest { woken = w ∷ rest.woken })
      (record rest { waiting = w ∷ rest.waiting }) (λ _. notify-conns h ws m)
      (λ _. notify-conns h ws m)

pub notify-heap : (h : ℕ) (ws : List ℕ) (m : Manager) → (notify_open h ws m).heap ≡ m.heap
unfolding notify_open
notify-heap h [] m = refl
notify-heap h (w ∷ ws) m =
    let rest = notify_open h ws m in
    if_cases (λ (n : Manager). n.heap ≡ m.heap) (w == h) (record rest { woken = w ∷ rest.woken })
      (record rest { waiting = w ∷ rest.waiting }) (λ _. notify-heap h ws m)
      (λ _. notify-heap h ws m)

notify-IsRegistry :
    (h : ℕ) (ws : List ℕ) (m : Manager) → IsRegistry m → IsRegistry (notify_open h ws m)
notify-IsRegistry h ws m r =
    subst₂ Registered (sym (notify-conns h ws m)) (sym (notify-heap h ws m)) r

-- A connection whose life goes on as it was.
Alike-IsRegistry :
    (m : Manager) (h : ℕ) (c d : Connection)
    → get_elem? m.heap h ≡ some c
    → Alike c d
    → IsRegistry m
    → IsRegistry (put h d m)
Alike-IsRegistry m h c d there same =
    set-Registered m.conns m.heap h c d there (ap (λ (l : Life). l.id) same)
      (λ alive shut. alive (sym (ap (λ (l : Life). l.state) same) ∙ shut))

module _ (net : Net) (env : RelayEnvelope) (m : Manager) where
  open_ack_in-IsRegistry :
      (state : RelayState) (h : ℕ) (c : Connection)
      → get_elem? m.heap h ≡ some c
      → IsRegistry m
      → IsRegistry (open_ack_in state env h c m)
  unfolding open_ack_in
  open_ack_in-IsRegistry RelayState.opening h c there r =
      let d = record c { state = RelayState.«open»; remote_session = env.sender_session } in
      notify-IsRegistry h m.waiting (put h d m)
        (set-Registered m.conns m.heap h c d there refl (λ _ shut. cc shut) r)
  open_ack_in-IsRegistry _ h c there r = r

  dispatch_to-IsRegistry :
      (kind : RelayKind) (h : ℕ) (c : Connection)
      → get_elem? m.heap h ≡ some c
      → IsRegistry m
      → IsRegistry (dispatch_to net kind env h c m)
  unfolding dispatch_to handle_envelope
  dispatch_to-IsRegistry RelayKind.open_ack h c there r = open_ack_in-IsRegistry c.state h c there r
  dispatch_to-IsRegistry RelayKind.close h c there r =
      close-IsRegistry m h c (some remote_close) there r
  dispatch_to-IsRegistry RelayKind.error h c there r =
      close-IsRegistry m h c (some (relay_error "protocol_error" (from_utf8_lossy env.payload)))
        there r
  dispatch_to-IsRegistry _ h c there r =
      Alike-IsRegistry m h c (dispatch net env.kind env c) there (dispatch-Alike net env.kind env c)
        r

  dispatch_found-IsRegistry :
      (o : Option ℕ) → IsRegistry m → IsRegistry (dispatch_found net env (connection_of m o) m)
  unfolding dispatch_found
  dispatch_found-IsRegistry none r = r
  dispatch_found-IsRegistry (some h) r = elim (Option-cases (get_elem? m.heap h)) [
    | inl e ↦ subst (λ o. IsRegistry (dispatch_found net env (located h o) m)) (sym e) r
    | inr (c, e) ↦
        subst (λ o. IsRegistry (dispatch_found net env (located h o) m)) (sym e)
          (dispatch_to-IsRegistry env.kind h c e r)
  ]

spawn-Alike : (m : Reliability) (c : Connection) → Alike c (spawn_of m c)
unfolding spawn_of best_effort_head
spawn-Alike Reliability.best_effort c =
    if_cases (Alike c) c.closed (at SendLoop.returned c) (at SendLoop.selecting c) (λ _. refl)
      (λ _. refl)
spawn-Alike _ c = loop_head-Alike c

pub spawn_send_loop-Alike : (c : Connection) → Alike c (spawn_send_loop c)
unfolding spawn_send_loop
spawn_send_loop-Alike c = spawn-Alike c.config.reliability c

module _ (net : Net) (env : RelayEnvelope) where
  admit-IsRegistry :
      (h : ℕ) (m : Manager)
      → get_elem? m.heap h ≡ some (incoming env)
      → IsRegistry m
      → IsRegistry (admit net env h m)
  unfolding admit incoming new_connection
  admit-IsRegistry h m there r =
      let listed : Manager = record m { conns = insert String_discrete env.relay_id h m.conns } in
      let spawned = spawn_send_loop (incoming env) in
      Alike-IsRegistry listed h (incoming env) (send_frame net RelayKind.open_ack 0 0 [] spawned).1
        there
        (send_frame-Alike net RelayKind.open_ack 0 0 [] spawned
          ∙ spawn_send_loop-Alike (incoming env))
        (insert-Registered m.conns m.heap h (incoming env) there (λ shut. cc shut) r)

  duplicate-IsRegistry :
      (old : ℕ) (less : Bool) (h : ℕ) (m : Manager)
      → get_elem? m.heap h ≡ some (incoming env)
      → IsRegistry m
      → IsRegistry (resolve_duplicate net env old less h m)
  unfolding resolve_duplicate
  duplicate-IsRegistry old true h m there r =
      admit-IsRegistry h (record m { spawned = m.spawned ++ (old, duplicate_open) ∷ [] }) there r
  duplicate-IsRegistry old false h m there r = r

  accept_by-IsRegistry :
      (o : Option (ℕ × Connection)) (h : ℕ) (m : Manager)
      → get_elem? m.heap h ≡ some (incoming env)
      → IsRegistry m
      → IsRegistry (accept_by net env o h m)
  unfolding accept_by
  accept_by-IsRegistry none h m there r = admit-IsRegistry h m there r
  accept_by-IsRegistry (some (old, c)) h m there r =
      duplicate-IsRegistry old (str_lt env.relay_id c.relay_id) h m there r

  pub handle_kind-IsRegistry :
      (kind : RelayKind) (m : Manager) → IsRegistry m → IsRegistry (handle_kind net kind env m)
  unfolding handle_kind accept_incoming
  handle_kind-IsRegistry RelayKind.«open» m r =
      accept_by-IsRegistry (find env.relay_id m) (length m.heap) (allocate (incoming env) m)
        (get_elem?-append_end m.heap (incoming env))
        (append-Registered m.conns m.heap (incoming env) r)
  handle_kind-IsRegistry _ m r =
      dispatch_found-IsRegistry net env m (lookup String_discrete env.relay_id m.conns) r

pub close_at-IsRegistry :
    (h : ℕ) (reason : Option RelayError) (m : Manager)
    → IsRegistry m
    → IsRegistry (close_handle h reason m)
unfolding close_at
close_at-IsRegistry h reason m r = elim (Option-cases (get_elem? m.heap h)) [
  | inl e ↦ subst (λ o. IsRegistry (close_at h reason o m)) (sym e) r
  | inr (c, e) ↦
      subst (λ o. IsRegistry (close_at h reason o m)) (sym e) (close-IsRegistry m h c reason e r)
]

pub run_first-IsRegistry :
    (tasks : List (ℕ × RelayError)) (m : Manager) → IsRegistry m → IsRegistry (run_first tasks m)
unfolding run_first
run_first-IsRegistry [] m r = r
run_first-IsRegistry ((h, reason) ∷ rest) m r =
    close_at-IsRegistry h (some reason) (record m { spawned = rest }) r

opened-IsRegistry :
    (h : ℕ) (c : Connection) (p : Result RelayError (Unit {0}) × Connection) (m : Manager)
    → get_elem? m.heap h ≡ some c
    → Alike c p.1
    → IsRegistry m
    → IsRegistry (opened h p m).1
unfolding opened
opened-IsRegistry h c (ok _, d) m there same r =
    Alike-IsRegistry m h c (spawn_send_loop d) there (spawn_send_loop-Alike d ∙ same) r
opened-IsRegistry h c (err e, d) m there same r =
    remove-Registered m.conns m.heap h c d there (ap (λ (l : Life). l.id) same) r

pub connect-IsRegistry :
    (net : Net) (id : String) (target : UserRef) (config : Option RelayConfig)
    (sessions : Result RelayError (SessionRef × SessionRef)) (m : Manager)
    → IsRegistry m
    → IsRegistry (connect_with net id target config sessions m).1
unfolding connect_with start_connection
connect-IsRegistry net id target config (err e) m r = r
connect-IsRegistry net id target config (ok (theirs, ours)) m r =
    let c = new_connection id (config_or_default config) target ours theirs RelayState.opening in
    let h = length m.heap in
    opened-IsRegistry h c (send_frame net RelayKind.«open» 0 0 [] c)
      (record (allocate c m) { conns = insert String_discrete c.relay_id h m.conns })
      (get_elem?-append_end m.heap c) (send_frame-Alike net RelayKind.«open» 0 0 [] c)
      (insert-Registered m.conns (m.heap ++ c ∷ []) h c (get_elem?-append_end m.heap c)
        (λ shut. unfold new_connection in cc shut) (append-Registered m.conns m.heap c r))
