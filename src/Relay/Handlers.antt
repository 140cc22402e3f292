-- ===== src/Relay/Handlers.antt =====
-- The frame handlers of a connection: `handle_envelope`, `handle_data`, `handle_ack` and
-- `handle_ping` of src/relay.rs.
use turntf_rs.Prelude.{
  ℕ, zero, suc, ◌+◌, ◌-◌, List, [], ◌∷◌, ◌++◌, none, some, ltb, leb, ◌==◌, ◌&&◌, if◌then◌else◌,
  ℕ_discrete, length,
}
use turntf_rs.Prelude.Dict.{Dict, lookup, insert, remove}
use turntf_rs.Types.{Bytes, Reliability, RelayKind, RelayEnvelope}
use turntf_rs.Relay.Connection.{Net, Connection, wrap64, send_frame}

-- `recv_tx.send`
unfoldable pub deliver : Bytes → Connection → Connection
deliver payload c = record c { delivered = c.delivered ++ payload ∷ [] }

-- The acknowledgement of a data frame, its result ignored.
unfoldable pub acknowledge : Net → ℕ → Connection → Connection
acknowledge net seq c = (send_frame net RelayKind.ack 0 seq [] c).1

-- What ordered delivery works on: the next sequence number, the frames that wait, and what has
-- been delivered.
pub record Inbound : Type 0 where
  pub expected : ℕ
  pub buffer : Dict ℕ Bytes
  pub out : List Bytes

-- The loop that delivers the frames that wait in order. Each round takes one frame out of the
-- buffer, so as many rounds as it has entries are enough.
unfoldable pub drain : ℕ → Inbound → Inbound
drain zero r = r
drain (suc fuel) r = elim (lookup ℕ_discrete r.expected r.buffer) [
  | none ↦ r
  | some payload ↦ drain fuel (record {
    expected = wrap64 (r.expected + 1);
    buffer = remove ℕ_discrete r.expected r.buffer;
    out = r.out ++ payload ∷ [];
  })
]

-- The `ReliableOrdered` branch of `handle_data`, before the acknowledgement.
unfoldable pub accept_ordered : ℕ → ℕ → Bytes → Inbound → Inbound
unfolding drain
accept_ordered window seq payload r =
    if seq == r.expected
    then drain (length r.buffer) (record {
      expected = wrap64 (r.expected + 1);
      buffer = r.buffer;
      out = r.out ++ payload ∷ [];
    })
    else if ltb r.expected seq && ltb (seq - r.expected) window
    then record r { buffer = insert ℕ_discrete seq payload r.buffer }
    else r

abbrev pub inbound : Connection → Inbound
inbound c = record { expected = c.expected_seq; buffer = c.recv_buf; out = c.delivered }

abbrev pub with_inbound : Inbound → Connection → Connection
with_inbound r c = record c { expected_seq = r.expected; recv_buf = r.buffer; delivered = r.out }

unfoldable pub receive : Net → Reliability → RelayEnvelope → Connection → Connection
unfolding deliver
receive net Reliability.best_effort env c = deliver env.payload c
receive net Reliability.at_least_once env c = deliver env.payload (acknowledge net env.seq c)
receive net Reliability.reliable_ordered env c =
    acknowledge net env.seq
      (with_inbound (accept_ordered c.config.window_size env.seq env.payload (inbound c)) c)

-- `handle_data`
unfoldable pub handle_data : Net → RelayEnvelope → Connection → Connection
unfolding receive
handle_data net env c = receive net c.config.reliability env c

-- `for seq in base..=last { unacked.remove(&seq) }`, over the `n` numbers from `base` on.
unfoldable pub remove_range : {V : Type 0} → ℕ → ℕ → Dict ℕ V → Dict ℕ V
remove_range base zero m = m
remove_range base (suc n) m = remove_range (base + 1) n (remove ℕ_discrete base m)

-- Everything up to the acknowledged number is no longer kept.
abbrev pub free_through : ℕ → Connection → Connection
free_through ack_seq c = record c {
  unacked = remove_range c.send_base (ack_seq + 1 - c.send_base) c.unacked;
  send_base = wrap64 (ack_seq + 1);
  retrans_cnt = 0;
}

unfoldable pub acknowledged : Reliability → ℕ → Connection → Connection
acknowledged Reliability.best_effort ack_seq c = c
acknowledged _ ack_seq c = if leb c.send_base ack_seq then free_through ack_seq c else c

-- `handle_ack`
unfoldable pub handle_ack : RelayEnvelope → Connection → Connection
unfolding acknowledged
handle_ack env c = acknowledged c.config.reliability env.ack_seq c

-- `handle_ping`: the answer to a PING is an ERROR frame.
unfoldable pub handle_ping : Net → Connection → Connection
handle_ping net c = (send_frame net RelayKind.error 0 0 [] c).1

unfoldable pub dispatch : Net → RelayKind → RelayEnvelope → Connection → Connection
dispatch net RelayKind.«data» env c = handle_data net env c
dispatch net RelayKind.ack env c = handle_ack env c
dispatch net RelayKind.ping env c = handle_ping net c
dispatch net _ env c = c

-- `handle_envelope`
unfoldable pub handle_envelope : Net → RelayEnvelope → Connection → Connection
unfolding dispatch
handle_envelope net env c = dispatch net env.kind env c
