-- ===== src/Relay/Registered/Still.antt =====
-- What the steps of the manager of src/relay.rs do to a connection that is closed.
use turntf_rs.Prelude.{
  ℕ, ◌≡◌, refl, sym, ap, ◌∙◌, String, Bool, true, false, List, [], ◌∷◌, ◌++◌, Option, none, some,
  Result, ok, err, length, get_elem?, set, String_discrete, get_elem?-set_self, get_elem?-set_ne,
  get_elem?-append_old, get_elem?-append_end, ℕ_discrete, Option-cases, inl, inr, str_lt,
}
use turntf_rs.Prelude.Dict.{lookup, insert}
use mathlib.Core.Path.{subst}
use turntf_rs.Types.{
  RelayKind, RelayState, RelayEnvelope, RelayError, RelayConfig, SessionRef, UserRef,
}
use turntf_rs.Relay.Connection.{
  Net, Connection, Closes, new_connection, send_frame, relay_error, handle_close,
}
use turntf_rs.Relay.Handlers.{handle_envelope, dispatch}
use turntf_rs.Relay.SendTask.{spawn_send_loop}
use turntf_rs.Relay.Closing.Final.{
  Life, life, Same, Alike, send_frame-Alike, dispatch-Alike, handle_close-Same,
}
use turntf_rs.Relay.Manager.{
  Manager, put, after_close, close_at, close_handle, open_ack_in, dispatch_to, dispatch_found,
  connection_of, located, remote_close, incoming, admit, allocate, duplicate_open, find,
}
use turntf_rs.Utf8.{from_utf8_lossy}
use turntf_rs.Relay.Incoming.{accept_incoming, accept_by, resolve_duplicate, handle_kind, run_first}
use turntf_rs.Relay.Outgoing.{connect_with, start_connection, opened, config_or_default}
use turntf_rs.Relay.Registered.Steps.{notify-heap, spawn_send_loop-Alike}

after_close-heap : (k : ℕ) (p : Closes) (m : Manager) → (after_close k p m).heap ≡ set m.heap k p.0
unfolding after_close
after_close-heap k (c, true) m = refl
after_close-heap k (c, false) m = refl

module _ (l : Life) (h : ℕ) where
  -- The connection at `h` has this life.
  abbrev pub IsStill : List Connection → Type 0
  IsStill heap = (d : Connection) × (get_elem? heap h ≡ some d) × (life d ≡ l)

  append-IsStill :
      (heap : List Connection) (c : Connection) → IsStill heap → IsStill (heap ++ c ∷ [])
  append-IsStill heap c (d, there, same) = (d, get_elem?-append_old heap c d h there, same)

  module _ (closed : l.state ≡ RelayState.closed) where
    set-IsStill :
        (heap : List Connection) (k : ℕ) (c d : Connection)
        → get_elem? heap k ≡ some c
        → Same c d
        → IsStill heap
        → IsStill (set heap k d)
    set-IsStill heap k c d there kept (b, stored, same) = elim (ℕ_discrete h k) [
      | yes here ↦
          let c_is : c ≡ b = cc (there, stored, ap (get_elem? heap) here) in
          let life_of : life c ≡ l = ap life c_is ∙ same in
          (
            d,
            subst (λ j. get_elem? (set heap k d) j ≡ some d) (sym here)
                (get_elem?-set_self heap k c d there),
            kept (ap (λ (x : Life). x.state) life_of ∙ closed) ∙ life_of,
          )
      | no other ↦ (b, get_elem?-set_ne heap k h d (λ e. other (sym e)) ∙ stored, same)
    ]

    pub after_close-IsStill :
        (m : Manager) (k : ℕ) (c : Connection) (p : Closes)
        → get_elem? m.heap k ≡ some c
        → Same c p.0
        → IsStill m.heap
        → IsStill (after_close k p m).heap
    after_close-IsStill m k c p there kept s =
        subst IsStill (sym (after_close-heap k p m)) (set-IsStill m.heap k c p.0 there kept s)

    pub close_at-IsStill :
        (m : Manager) (k : ℕ) (reason : Option RelayError)
        → IsStill m.heap
        → IsStill (close_handle k reason m).heap
    unfolding close_at
    close_at-IsStill m k reason s = elim (Option-cases (get_elem? m.heap k)) [
      | inl e ↦ subst (λ o. IsStill (close_at k reason o m).heap) (sym e) s
      | inr (c, e) ↦
          subst (λ o. IsStill (close_at k reason o m).heap) (sym e)
            (after_close-IsStill m k c (handle_close reason c) e (handle_close-Same reason c) s)
    ]

    pub run_first-IsStill :
        (tasks : List (ℕ × RelayError)) (m : Manager)
        → IsStill m.heap
        → IsStill (run_first tasks m).heap
    unfolding run_first
    run_first-IsStill [] m s = s
    run_first-IsStill ((k, reason) ∷ rest) m s =
        close_at-IsStill (record m { spawned = rest }) k (some reason) s

    module _ (net : Net) (env : RelayEnvelope) where
      open_ack_in-IsStill :
          (state : RelayState) (k : ℕ) (c : Connection) (m : Manager)
          → get_elem? m.heap k ≡ some c
          → c.state ≡ state
          → IsStill m.heap
          → IsStill (open_ack_in state env k c m).heap
      unfolding open_ack_in
      open_ack_in-IsStill RelayState.opening k c m there is s =
          let d = record c { state = RelayState.«open»; remote_session = env.sender_session } in
          subst IsStill (sym (notify-heap k m.waiting (put k d m)))
            (set-IsStill m.heap k c d there (λ shut. absurd (cc (is, shut))) s)
      open_ack_in-IsStill _ k c m there is s = s

      dispatch_to-IsStill :
          (kind : RelayKind) (k : ℕ) (c : Connection) (m : Manager)
          → get_elem? m.heap k ≡ some c
          → IsStill m.heap
          → IsStill (dispatch_to net kind env k c m).heap
      unfolding dispatch_to handle_envelope
      dispatch_to-IsStill RelayKind.open_ack k c m there s =
          open_ack_in-IsStill c.state k c m there refl s
      dispatch_to-IsStill RelayKind.close k c m there s =
          after_close-IsStill m k c (handle_close (some remote_close) c) there
            (handle_close-Same (some remote_close) c) s
      dispatch_to-IsStill RelayKind.error k c m there s =
          let reason = some (relay_error "protocol_error" (from_utf8_lossy env.payload)) in
          after_close-IsStill m k c (handle_close reason c) there (handle_close-Same reason c) s
      dispatch_to-IsStill _ k c m there s =
          set-IsStill m.heap k c (dispatch net env.kind env c) there
            (λ _. dispatch-Alike net env.kind env c) s

      dispatch_found-IsStill :
          (o : Option ℕ) (m : Manager)
          → IsStill m.heap
          → IsStill (dispatch_found net env (connection_of m o) m).heap
      unfolding dispatch_found
      dispatch_found-IsStill none m s = s
      dispatch_found-IsStill (some k) m s = elim (Option-cases (get_elem? m.heap k)) [
        | inl e ↦ subst (λ o. IsStill (dispatch_found net env (located k o) m).heap) (sym e) s
        | inr (c, e) ↦
            subst (λ o. IsStill (dispatch_found net env (located k o) m).heap) (sym e)
              (dispatch_to-IsStill env.kind k c m e s)
      ]

      admit-IsStill :
          (k : ℕ) (m : Manager)
          → get_elem? m.heap k ≡ some (incoming env)
          → IsStill m.heap
          → IsStill (admit net env k m).heap
      unfolding admit
      admit-IsStill k m there s =
          let spawned = spawn_send_loop (incoming env) in
          set-IsStill m.heap k (incoming env) _ there
            (λ _.
              send_frame-Alike net RelayKind.open_ack 0 0 [] spawned
              ∙ spawn_send_loop-Alike (incoming env))
            s

      accept_by-IsStill :
          (o : Option (ℕ × Connection)) (k : ℕ) (m : Manager)
          → get_elem? m.heap k ≡ some (incoming env)
          → IsStill m.heap
          → IsStill (accept_by net env o k m).heap
      unfolding accept_by
      accept_by-IsStill none k m there s = admit-IsStill k m there s
      accept_by-IsStill (some (old, c)) k m there s = go (str_lt env.relay_id c.relay_id)
        where
          go : (less : Bool) → IsStill (resolve_duplicate net env old less k m).heap
          go true =
              unfold resolve_duplicate in
              admit-IsStill k (record m { spawned = m.spawned ++ (old, duplicate_open) ∷ [] }) there
                s
          go false = unfold resolve_duplicate in s

      pub handle_kind-IsStill :
          (kind : RelayKind) (m : Manager)
          → IsStill m.heap
          → IsStill (handle_kind net kind env m).heap
      unfolding handle_kind accept_incoming
      handle_kind-IsStill RelayKind.«open» m s =
          accept_by-IsStill (find env.relay_id m) (length m.heap) (allocate (incoming env) m)
            (get_elem?-append_end m.heap (incoming env)) (append-IsStill m.heap (incoming env) s)
      handle_kind-IsStill _ m s =
          dispatch_found-IsStill (lookup String_discrete env.relay_id m.conns) m s

    opened-IsStill :
        (k : ℕ) (c : Connection) (p : Result RelayError (Unit {0}) × Connection) (m : Manager)
        → get_elem? m.heap k ≡ some c
        → Alike c p.1
        → IsStill m.heap
        → IsStill (opened k p m).1.heap
    unfolding opened
    opened-IsStill k c (ok _, d) m there same s =
        set-IsStill m.heap k c (spawn_send_loop d) there (λ _. spawn_send_loop-Alike d ∙ same) s
    opened-IsStill k c (err e, d) m there same s = set-IsStill m.heap k c d there (λ _. same) s

    pub connect-IsStill :
        (net : Net) (id : String) (target : UserRef) (config : Option RelayConfig)
        (sessions : Result RelayError (SessionRef × SessionRef)) (m : Manager)
        → IsStill m.heap
        → IsStill (connect_with net id target config sessions m).1.heap
    unfolding connect_with start_connection
    connect-IsStill net id target config (err e) m s = s
    connect-IsStill net id target config (ok (theirs, ours)) m s =
        let c =
          new_connection id (config_or_default config) target ours theirs RelayState.opening in
        let k = length m.heap in
        opened-IsStill k c (send_frame net RelayKind.«open» 0 0 [] c)
          (record (allocate c m) { conns = insert String_discrete c.relay_id k m.conns })
          (get_elem?-append_end m.heap c) (send_frame-Alike net RelayKind.«open» 0 0 [] c)
          (append-IsStill m.heap c s)
