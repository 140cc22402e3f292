-- ===== src/Relay/Accepting.antt =====
-- Incoming connections in src/relay.rs: what `accept_incoming` gives the application, and what an OPEN
-- frame for an id in use does.
use turntf_rs.Prelude.{
  ℕ, ◌≡◌, refl, sym, ap, ◌∙◌, [], ◌∷◌, ◌++◌, none, some, true, Result, err, length, get_elem?, set,
  get_elem?-set_self, get_elem?-set_ne, get_elem?-append_end, get_elem?-append_old,
  get_elem?-in_range, str_lt_irrefl, arith, String_discrete,
}
use turntf_rs.Prelude.Dict.{lookup, lookup-insert_self, lookup-remove_self}
use turntf_rs.Types.{Bytes, RelayKind, RelayState, RelayEnvelope, RelayError, default_user_ref}
use turntf_rs.Errors.{to_string}
use turntf_rs.Client.Packets.{check_packet, send_packet_to_session}
use turntf_rs.Relay.Wire.{encode_relay_envelope}
use turntf_rs.Relay.Connection.{
  Net, Connection, relay_error, send_frame, new_connection, handle_close, run_callbacks,
}
use turntf_rs.Relay.SendTask.{spawn_send_loop, loop_head, wait_window, window_open}
use turntf_rs.Relay.Manager.{Manager, find, incoming, admit, after_close, close_at}
use turntf_rs.Relay.Incoming.{accept_incoming, resolve_duplicate, run_spawned}

-- Sending to the default user reference fails the client's validation, whatever the frame.
abbrev pub no_target : RelayError
no_target = relay_error "protocol_error" "target.node_id is required"

pub send_frame-no_target :
    (net : Net) (kind : RelayKind) (seq ack_seq : ℕ) (payload : Bytes) (c : Connection)
    → c.remote_peer ≡ default_user_ref
    → send_frame net kind seq ack_seq payload c ≡ (err no_target, c)
unfolding send_frame encode_relay_envelope send_packet_to_session check_packet to_string
send_frame-no_target net kind seq ack_seq payload c e = rw e refl

spawn_send_loop-incoming :
    (env : RelayEnvelope)
    → let c = spawn_send_loop (incoming env) in
      (c.remote_peer ≡ default_user_ref) × (c.state ≡ RelayState.«open») × (c.sent ≡ [])
unfolding spawn_send_loop incoming new_connection loop_head wait_window window_open
spawn_send_loop-incoming env = (refl, refl, refl)

-- An OPEN frame for an id that is free registers an open connection at the end of the heap; and no frame has gone
-- out on it, not even the OPEN_ACK, nor can one of any kind: sending fails and changes nothing,
-- since the peer's user is not known.
pub accepted_is_mute :
    (net : Net) (env : RelayEnvelope) (m : Manager)
    → find env.relay_id m ≡ none
    → let m' = accept_incoming net env m in
      (lookup String_discrete env.relay_id m'.conns ≡ some (length m.heap))
      × ((c : Connection) × ((get_elem? m'.heap (length m.heap) ≡ some c)
            × (c.state ≡ RelayState.«open»)
            × (c.sent ≡ [])
            × ((kind : RelayKind) (seq ack_seq : ℕ) (payload : Bytes)
                → send_frame net kind seq ack_seq payload c ≡ (err no_target, c))))
unfolding accept_incoming admit
accepted_is_mute net env m free =
    let c = spawn_send_loop (incoming env) in
    let kept = spawn_send_loop-incoming env in
    let silent = send_frame-no_target net RelayKind.open_ack 0 0 [] c kept.0 in
    rw free (
      lookup-insert_self String_discrete env.relay_id (length m.heap) m.conns,
      (
        c,
        (
          ap
                (λ (r : Result RelayError (Unit {0}) × Connection).
                  get_elem? (set (m.heap ++ incoming env ∷ []) (length m.heap) r.1) (length m.heap))
                silent
              ∙ get_elem?-set_self (m.heap ++ incoming env ∷ []) (length m.heap) (incoming env) c
                  (get_elem?-append_end m.heap (incoming env)),
          kept.1,
          kept.2,
          λ kind seq ack_seq payload. send_frame-no_target net kind seq ack_seq payload c kept.0,
        ),
      ),
    )

-- Let an OPEN frame arrive for an id that is registered for a connection of that id, while no task
-- waits to close one. The frame's connection is given up, not that one: once the task that closes
-- it has run, it is closed and marked so, and has not been announced; and the id is no longer
-- registered, though the connection that it was registered for is still in the heap as it was.
pub duplicate_open_unregisters :
    (net : Net) (env : RelayEnvelope) (m : Manager) (old : ℕ) (c : Connection)
    → find env.relay_id m ≡ some (old, c)
    → get_elem? m.heap old ≡ some c
    → c.relay_id ≡ env.relay_id
    → m.spawned ≡ []
    → let m' = run_spawned (accept_incoming net env m) in
      (lookup String_discrete env.relay_id m'.conns ≡ none)
      × (get_elem? m'.heap old ≡ some c)
      × (m'.announced ≡ m.announced)
      × ((d : Connection) × ((get_elem? m'.heap (length m.heap) ≡ some d)
            × (d.state ≡ RelayState.closed)
            × (d.closed ≡ true)))
unfolding accept_incoming resolve_duplicate run_spawned close_at after_close handle_close incoming
    new_connection run_callbacks
duplicate_open_unregisters net env m old c found there same idle =
    rw
      (
        found,
        str_lt_irrefl env.relay_id c.relay_id (sym same),
        idle,
        get_elem?-append_end m.heap (incoming env),
      )
      (
        lookup-remove_self String_discrete env.relay_id m.conns,
        get_elem?-set_ne (m.heap ++ incoming env ∷ []) (length m.heap) old _
              (λ e. omega (arith, e, get_elem?-in_range m.heap c old there))
            ∙ get_elem?-append_old m.heap (incoming env) c old there,
        refl,
        (
          _,
          (
            get_elem?-set_self (m.heap ++ incoming env ∷ []) (length m.heap) (incoming env) _
                (get_elem?-append_end m.heap (incoming env)),
            refl,
            refl,
          ),
        ),
      )
