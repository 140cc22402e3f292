-- ===== src/Relay/Incoming.antt =====
-- Incoming frames of `Relay` in src/relay.rs: `accept_incoming`, `handle_envelope_inner` and
-- `handle_packet`.
use turntf_rs.Prelude.{
  ℕ, Bool, true, false, List, [], ◌∷◌, ◌++◌, Option, none, some, Result, str_lt, length,
}
use turntf_rs.Types.{Packet, RelayKind, RelayEnvelope, RelayError}
use turntf_rs.Relay.Wire.{decode_relay_envelope}
use turntf_rs.Relay.Connection.{Net, Connection}
use turntf_rs.Relay.Manager.{
  Manager, find, dispatch_found, incoming, allocate, admit, duplicate_open, close_handle,
}

-- Two connections for one id: the frame's id is compared with that of the connection that the id is
-- registered for. The one that is given up is closed by a task of its own.
unfoldable pub resolve_duplicate : Net → RelayEnvelope → ℕ → Bool → ℕ → Manager → Manager
resolve_duplicate net env old true h m =
    admit net env h (record m { spawned = m.spawned ++ (old, duplicate_open) ∷ [] })
resolve_duplicate net env old false h m = record m {
  spawned = m.spawned ++ (h, duplicate_open) ∷ [];
}

unfoldable pub accept_by : Net → RelayEnvelope → Option (ℕ × Connection) → ℕ → Manager → Manager
unfolding resolve_duplicate
accept_by net env none h m = admit net env h m
accept_by net env (some (old, existing)) h m =
    resolve_duplicate net env old (str_lt env.relay_id existing.relay_id) h m

-- `accept_incoming`
unfoldable pub accept_incoming : Net → RelayEnvelope → Manager → Manager
unfolding accept_by
accept_incoming net env m =
    accept_by net env (find env.relay_id m) (length m.heap) (allocate (incoming env) m)

unfoldable pub handle_kind : Net → RelayKind → RelayEnvelope → Manager → Manager
handle_kind net RelayKind.«open» env m = accept_incoming net env m
handle_kind net _ env m = dispatch_found net env (find env.relay_id m) m

-- `handle_envelope_inner`
unfoldable pub handle_envelope_inner : Net → RelayEnvelope → Manager → Manager
unfolding handle_kind
handle_envelope_inner net env m = handle_kind net env.kind env m

handle_decoded : {E : Type 0} → Net → Result E RelayEnvelope → Manager → Bool × Manager
handle_decoded net (Result.err _) m = (false, m)
handle_decoded net (Result.ok env) m = (true, handle_envelope_inner net env m)

-- `handle_packet_async`, and `handle_packet` once its task has run: whether the packet holds a relay
-- frame, which is then handled.
unfoldable pub handle_packet : Net → Packet → Manager → Bool × Manager
unfolding handle_decoded
handle_packet net packet m = handle_decoded net (decode_relay_envelope net.codec packet.body) m

unfoldable pub run_first : List (ℕ × RelayError) → Manager → Manager
run_first [] m = m
run_first ((h, reason) ∷ rest) m = close_handle h (some reason) (record m { spawned = rest })

-- The oldest task that waits to close a connection runs.
unfoldable pub run_spawned : Manager → Manager
unfolding run_first
run_spawned m = run_first m.spawned m

-- `connection_count`
abbrev pub connection_count : Manager → ℕ
connection_count m = length m.conns
