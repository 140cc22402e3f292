-- ===== src/Relay/Loss.antt =====
-- Where the two ends of a reliable connection in src/relay.rs disagree about an acknowledgement.
use turntf_rs.Prelude.{
  ◌&&◌, if◌then◌else◌, ℕ, ◌+◌, ◌-◌, ◌^◌, ◌≤◌, ◌<◌, ◌≡◌, ◌≢◌, refl, ap, ◌∙◌, false, none, arith, leb,
  ℕ_discrete, if_cases,
}
use turntf_rs.Prelude.Dict.{Dict, lookup}
use turntf_rs.Types.{Bytes, RelayEnvelope, Reliability}
use turntf_rs.Relay.Connection.{Net, Connection}
use turntf_rs.Relay.Handlers.{
  Inbound, inbound, with_inbound, accept_ordered, acknowledge, receive, handle_data, handle_ack,
  acknowledged, free_through,
}
use turntf_rs.Relay.Frames.{acknowledge_lem}
use turntf_rs.Relay.SendTask.{window_open}
use turntf_rs.Relay.Window.{lookup-remove_range, lookup-remove_range_in}

-- A frame that is not the expected one is not delivered.
accept_late :
    (window seq : ℕ) (payload : Bytes) (r : Inbound)
    → r.expected < seq
    → ((accept_ordered window seq payload r).out ≡ r.out)
      × ((accept_ordered window seq payload r).expected ≡ r.expected)
unfolding accept_ordered
accept_late window seq payload r late = ground arith

late_in_mode :
    (net : Net) (env : RelayEnvelope) (c : Connection) (m : Reliability)
    → m ≡ Reliability.reliable_ordered
    → receive net m env c
      ≡ acknowledge net env.seq
          (with_inbound (accept_ordered c.config.window_size env.seq env.payload (inbound c)) c)
late_in_mode net env c Reliability.best_effort e = cc
late_in_mode net env c Reliability.at_least_once e = cc
late_in_mode net env c Reliability.reliable_ordered e = unfold receive in refl

-- An acknowledgement in a mode that has them does what `free_through` says.
acknowledged_low :
    (m : Reliability) (s : Connection) (ack_seq : ℕ)
    → m ≢ Reliability.best_effort
    → s.send_base ≤ ack_seq
    → acknowledged m ack_seq s ≡ free_through ack_seq s
unfolding acknowledged
acknowledged_low Reliability.best_effort s ack_seq mode low = absurd (mode refl)
acknowledged_low Reliability.at_least_once s ack_seq mode low =
    if_cases (λ d. d ≡ free_through ack_seq s) (leb s.send_base ack_seq) (free_through ack_seq s) s
      (λ _. refl) (λ high. absurd (ground arith))
acknowledged_low Reliability.reliable_ordered s ack_seq mode low =
    if_cases (λ d. d ≡ free_through ack_seq s) (leb s.send_base ack_seq) (free_through ack_seq s) s
      (λ _. refl) (λ high. absurd (ground arith))

pub handle_ack_low :
    (env : RelayEnvelope) (s : Connection)
    → s.config.reliability ≢ Reliability.best_effort
    → s.send_base ≤ env.ack_seq
    → handle_ack env s ≡ free_through env.ack_seq s
unfolding handle_ack
handle_ack_low env s mode low = acknowledged_low s.config.reliability s env.ack_seq mode low

-- An acknowledgement is cumulative: in a mode that has them, one that is not older than `send_base`
-- moves `send_base` past it, resets the count of retransmissions, forgets every frame from
-- `send_base` up to the acknowledged number, and keeps every other frame as it was.
pub handle_ack_cumulative :
    (env : RelayEnvelope) (s : Connection) (k : ℕ)
    → s.config.reliability ≢ Reliability.best_effort
    → s.send_base ≤ env.ack_seq
    → env.ack_seq + 1 < 2 ^ 64
    → let s' = handle_ack env s in
      (s'.send_base ≡ env.ack_seq + 1)
      × (s'.retrans_cnt ≡ 0)
      × (lookup ℕ_discrete k s'.unacked ≡ (
          if leb s.send_base k && leb k env.ack_seq then none else lookup ℕ_discrete k s.unacked))
handle_ack_cumulative env s k mode low room = rw (handle_ack_low env s mode low) (
  omega arith,
  refl,
  if_cases (λ o. lookup ℕ_discrete k (free_through env.ack_seq s).unacked ≡ o)
      (leb s.send_base k && leb k env.ack_seq) none (lookup ℕ_discrete k s.unacked)
      (λ inside.
        lookup-remove_range_in (env.ack_seq + 1 - s.send_base) s.send_base k s.unacked
          (ground arith) (ground arith))
      (λ outside.
        lookup-remove_range (env.ack_seq + 1 - s.send_base) s.send_base k s.unacked
          (λ above. ground arith)),
)

-- Let `r` wait for frame e = `expected_seq` of the sender `s`, which still keeps it for
-- retransmission, and let a later data frame `env` arrive at `r` first. `r` delivers nothing and
-- goes on waiting for e, but acknowledges the number of `env`, its buffer apart unchanged; and any
-- acknowledgement of that number makes `s` forget frame e. So a frame that the network lost is no
-- longer retransmitted once a later one has arrived.
pub gap_forgotten :
    (net : Net) (env ack : RelayEnvelope) (r s : Connection)
    → r.config.reliability ≡ Reliability.reliable_ordered
    → s.config.reliability ≢ Reliability.best_effort
    → s.send_base ≤ r.expected_seq
    → r.expected_seq < env.seq
    → ack.ack_seq ≡ env.seq
    → ((handle_data net env r).delivered ≡ r.delivered)
      × ((handle_data net env r).expected_seq ≡ r.expected_seq)
      × ((b : Dict ℕ Bytes) × (handle_data net env r
            ≡ acknowledge net env.seq (record r { recv_buf = b })))
      × (lookup ℕ_discrete r.expected_seq (handle_ack ack s).unacked ≡ none)
unfolding handle_data
gap_forgotten net env ack r s ordered mode low late same =
    let kept = accept_late r.config.window_size env.seq env.payload (inbound r) late in
    let shape = late_in_mode net env r r.config.reliability ordered in
    let waiting : Connection =
      with_inbound (accept_ordered r.config.window_size env.seq env.payload (inbound r)) r in
    let acked = acknowledge_lem net env.seq waiting in
    (
      ap (λ (d : Connection). d.delivered) (shape ∙ acked) ∙ kept.0,
      ap (λ (d : Connection). d.expected_seq) (shape ∙ acked) ∙ kept.1,
      (
        (accept_ordered r.config.window_size env.seq env.payload (inbound r)).buffer,
        shape
            ∙ ap (acknowledge net env.seq)
                (λ i. record waiting { expected_seq = kept.1 i; delivered = kept.0 i }),
      ),
      ap (λ (d : Connection). lookup ℕ_discrete r.expected_seq d.unacked)
            (handle_ack_low ack s mode (omega arith))
          ∙ lookup-remove_range_in (ack.ack_seq + 1 - s.send_base) s.send_base r.expected_seq
              s.unacked low (omega arith),
    )

-- In a mode with acknowledgements, let one arrive for a number that was never sent, which is not older
-- than `send_base` and has a successor in 64 bits. It leaves `send_base` past `next_seq`: the u64
-- difference wraps, and if the window is at most that difference, 2^64 less by how far `send_base`
-- is ahead, the sender finds no room.
pub ack_ahead_stalls :
    (env : RelayEnvelope) (s : Connection)
    → s.config.reliability ≢ Reliability.best_effort
    → s.send_base ≤ env.ack_seq
    → s.next_seq ≤ env.ack_seq
    → env.ack_seq + 1 < 2 ^ 64
    → env.ack_seq + 1 + s.config.window_size ≤ s.next_seq + 2 ^ 64
    → window_open (handle_ack env s) ≡ false
unfolding window_open
ack_ahead_stalls env s mode low ahead room small = rw (handle_ack_low env s mode low) (ground arith)
