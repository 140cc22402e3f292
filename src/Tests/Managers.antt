-- ===== src/Tests/Managers.antt =====
-- The theorems on the manager of src/relay.rs at concrete managers.
use turntf_rs.Prelude.{
  ℕ, ◌≡◌, refl, List, [], ◌∷◌, none, some, true, err, length, get_elem?, set, String_discrete,
}
use turntf_rs.Prelude.Dict.{lookup}
use turntf_rs.Types.{Bytes, RelayKind, RelayState, RelayEnvelope, default_relay_config}
use turntf_rs.Relay.Connection.{Connection, new_connection, send_frame}
use turntf_rs.Relay.Manager.{Manager, new_relay}
use turntf_rs.Relay.Incoming.{accept_incoming, handle_envelope_inner, run_spawned}
use turntf_rs.Relay.Outgoing.{await_open, open_timeout, time_out_open}
use turntf_rs.Relay.Accepting.{no_target, accepted_is_mute, duplicate_open_unregisters}
use turntf_rs.Relay.Registry.{IsAt, accepted_by, open_ack_wakes, open_ack_lost}
use turntf_rs.Relay.Registered.{IsRegistry}
use turntf_rs.Relay.Registered.Histories.{
  Event, framed, task_run, awaits, times_out, manager_steps, manager_steps-IsRegistry,
}
use turntf_rs.Relay.SendTask.{ticked}
use turntf_rs.Relay.Closing.Final.{life}
use turntf_rs.Relay.Registered.Still.{IsStill}
use turntf_rs.Relay.Registered.Closed.{
  Happening, managed, wakes, closes, aborts, happenings, closed_is_final,
}
use turntf_rs.Tests.Fixtures.{world, opened, from_far, near, far, peer}

abbrev open_frame : RelayEnvelope
open_frame = from_far RelayKind.«open» 0 0 []

accepted_is_mute_example :
    let m' = accept_incoming world open_frame new_relay in
    (lookup String_discrete "relay-1" m'.conns ≡ some (length new_relay.heap))
    × ((c : Connection) × ((get_elem? m'.heap (length new_relay.heap) ≡ some c)
          × (c.state ≡ RelayState.«open»)
          × (c.sent ≡ [])
          × ((kind : RelayKind) (seq ack_seq : ℕ) (payload : Bytes)
              → send_frame world kind seq ack_seq payload c ≡ (err no_target, c))))
accepted_is_mute_example =
    accepted_is_mute world open_frame new_relay (unfold new_relay in unfold lookup in refl)

-- One connection, registered under its id.
abbrev holding : Connection → Manager
holding c = record new_relay { conns = ("relay-1", 0) ∷ []; heap = c ∷ [] }

duplicate_open_unregisters_example :
    let m' = run_spawned (accept_incoming world open_frame (holding opened)) in
    (lookup String_discrete "relay-1" m'.conns ≡ none)
    × (get_elem? m'.heap 0 ≡ some opened)
    × (m'.announced ≡ (holding opened).announced)
    × ((d : Connection) × ((get_elem? m'.heap 1 ≡ some d)
          × (d.state ≡ RelayState.closed)
          × (d.closed ≡ true)))
duplicate_open_unregisters_example =
    duplicate_open_unregisters world open_frame (holding opened) 0 opened
      (unfold lookup in unfold String_discrete in refl) refl (unfold new_connection in refl)
      (unfold new_relay in refl)

abbrev dialling : Connection
dialling = new_connection "relay-1" default_relay_config peer near far RelayState.opening

abbrev open_ack_frame : RelayEnvelope
open_ack_frame = from_far RelayKind.open_ack 0 0 []

abbrev waits : Manager
waits = record (holding dialling) { waiting = 0 ∷ [] }

dialling-IsAt :
    (ws : List ℕ) → IsAt (record (holding dialling) { waiting = ws }) "relay-1" 0 dialling
unfolding lookup String_discrete new_connection
dialling-IsAt ws = record { listed = refl; stored = refl; own_id = refl }

open_ack_wakes_example : handle_envelope_inner world open_ack_frame waits ≡ record waits {
  heap = set waits.heap 0 (record dialling { state = RelayState.«open»; remote_session = far });
  waiting = [];
  woken = 0 ∷ waits.woken;
}
open_ack_wakes_example =
    open_ack_wakes world open_ack_frame waits 0 dialling (dialling-IsAt (0 ∷ [])) refl
      (unfold new_connection in refl) refl

abbrev too_early : Manager
too_early = record (holding dialling) { waiting = [] }

open_ack_lost_example :
    let m' =
      handle_envelope_inner world open_ack_frame
        (await_open 0 (handle_envelope_inner world open_ack_frame too_early)) in
    let (r, m'') = time_out_open 0 m' in
    (m'.woken ≡ too_early.woken)
    × (m'.waiting ≡ 0 ∷ [])
    × (get_elem? m'.heap 0 ≡ some (accepted_by open_ack_frame dialling))
    × (r ≡ err open_timeout)
    × (lookup String_discrete "relay-1" m''.conns ≡ none)
    × ((d : Connection) × ((get_elem? m''.heap 0 ≡ some d) × (d.state ≡ RelayState.closed)))
open_ack_lost_example =
    open_ack_lost world open_ack_frame open_ack_frame too_early 0 dialling (dialling-IsAt []) refl
      refl refl (unfold new_connection in refl) refl

-- A connection opened by its peer, a second OPEN frame for its id, and the task that it starts.
abbrev history : List Event
history = framed open_frame ∷ framed open_frame ∷ task_run ∷ awaits 0 ∷ times_out 0 ∷ []

manager_steps-IsRegistry_example : IsRegistry (manager_steps world history new_relay)
manager_steps-IsRegistry_example = manager_steps-IsRegistry world history

-- A connection that its peer has closed, and then frames of several kinds for its id, a step of its
-- send loop, and its user's `close` and `abort`.
abbrev finished : Connection
finished = record opened { state = RelayState.closed; closed = true }

abbrev afterwards : List Happening
afterwards =
    managed (framed open_ack_frame)
    ∷ managed (framed open_frame)
    ∷ wakes 0 ticked
    ∷ closes 0
    ∷ aborts 0 open_timeout
    ∷ managed task_run
    ∷ []

closed_is_final_example :
    IsStill (life finished) 0 (happenings world afterwards (holding finished)).heap
closed_is_final_example = closed_is_final world afterwards (holding finished) 0 finished refl refl
