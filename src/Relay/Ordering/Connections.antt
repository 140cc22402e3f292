-- ===== src/Relay/Ordering/Connections.antt =====
-- Ordered delivery at the level of a connection: `handle_data` of src/relay.rs, frame after frame.
use turntf_rs.Prelude.{
  ◌≤◌, ℕ, ◌+◌, ◌<◌, ◌≡◌, refl, ap, sym, ◌∙◌, List, [], ◌∷◌, map, arith, All, some, ℕ_discrete,
}
use turntf_rs.Types.{Bytes, RelayConfig, RelayEnvelope, Reliability}
use turntf_rs.Relay.Connection.{Net, Connection}
use turntf_rs.Relay.Handlers.{Inbound, inbound, acknowledge, accept_ordered, receive, handle_data}
use turntf_rs.Relay.Frames.{acknowledge_lem}
use mathlib.Core.Path.{ap₂, subst}
use turntf_rs.Prelude.Dict.{lookup}
use turntf_rs.Relay.Ordering.Progress.{HasArrival, arrive-expected}
use turntf_rs.Relay.Ordering.{before, Arrival, IsFrame, IsOrdered, arrive, arrive-IsOrdered}

-- The frames that a peer sends, handled one after the other.
unfoldable pub handle_frames : Net → List RelayEnvelope → Connection → Connection
unfolding handle_data
handle_frames net [] c = c
handle_frames net (env ∷ envs) c = handle_frames net envs (handle_data net env c)

abbrev pub arrival : RelayEnvelope → Arrival
arrival env = (env.seq, env.payload)

-- The connection as it begins, in the mode that promises order.
pub record IsFresh (c : Connection) : Type 0 where
  pub mode : c.config.reliability ≡ Reliability.reliable_ordered
  pub first : c.expected_seq ≡ 1
  pub empty : c.recv_buf ≡ []
  pub silent : c.delivered ≡ []

inbound-acknowledge :
    (net : Net) (seq : ℕ) (c : Connection) → inbound (acknowledge net seq c) ≡ inbound c
inbound-acknowledge net seq c = ap inbound (acknowledge_lem net seq c)

config-acknowledge :
    (net : Net) (seq : ℕ) (c : Connection) → (acknowledge net seq c).config ≡ c.config
config-acknowledge net seq c = ap (λ (d : Connection). d.config) (acknowledge_lem net seq c)

module _ (net : Net) (env : RelayEnvelope) (c : Connection) where
  inbound-receive :
      inbound (receive net Reliability.reliable_ordered env c)
      ≡ accept_ordered c.config.window_size env.seq env.payload (inbound c)
  unfolding receive
  inbound-receive = inbound-acknowledge net env.seq _

  config-receive : (receive net Reliability.reliable_ordered env c).config ≡ c.config
  unfolding receive
  config-receive = config-acknowledge net env.seq _

  pub inbound-handle_data :
      c.config.reliability ≡ Reliability.reliable_ordered
      → inbound (handle_data net env c)
        ≡ accept_ordered c.config.window_size env.seq env.payload (inbound c)
  unfolding handle_data
  inbound-handle_data mode = ap (λ m. inbound (receive net m env c)) mode ∙ inbound-receive

  pub config-handle_data :
      c.config.reliability ≡ Reliability.reliable_ordered
      → (handle_data net env c).config ≡ c.config
  unfolding handle_data
  config-handle_data mode = ap (λ m. (receive net m env c).config) mode ∙ config-receive

-- Frame after frame, the connection delivers what the bare receiver does.
inbound-handle_frames :
    (net : Net) (envs : List RelayEnvelope) (c : Connection)
    → c.config.reliability ≡ Reliability.reliable_ordered
    → inbound (handle_frames net envs c)
      ≡ arrive c.config.window_size (map arrival envs) (inbound c)
unfolding handle_frames arrive
inbound-handle_frames net [] c mode = refl
inbound-handle_frames net (env ∷ envs) c mode =
    let same = config-handle_data net env c mode in
    inbound-handle_frames net envs (handle_data net env c)
      (ap (λ (g : RelayConfig). g.reliability) same ∙ mode)
    ∙ ap₂ (λ (g : RelayConfig) r. arrive g.window_size (map arrival envs) r) same
        (inbound-handle_data net env c mode)

pub fresh-IsOrdered :
    (stream : ℕ → Bytes) (window : ℕ) (c : Connection)
    → IsFresh c
    → IsOrdered stream window (inbound c)
unfolding lookup
fresh-IsOrdered stream window c f =
    rw (f.first, f.empty, f.silent)
      (record {
        first = omega arith;
        room = omega arith;
        prefix = refl;
        above = λ k x h. cc;
        below = λ k x h. cc;
        fits = λ k x h. cc;
        genuine = λ k x h. cc;
      })

module _ (stream : ℕ → Bytes) (net : Net) (envs : List RelayEnvelope) (c : Connection) where
  pub frames-IsOrdered :
      IsFresh c
      → All (IsFrame stream) (map arrival envs)
      → IsOrdered stream c.config.window_size (inbound (handle_frames net envs c))
  frames-IsOrdered f h =
      subst (IsOrdered stream c.config.window_size) (sym (inbound-handle_frames net envs c f.mode))
        (arrive-IsOrdered stream c.config.window_size (map arrival envs) (inbound c) h
          (fresh-IsOrdered stream c.config.window_size c f))

  -- On a connection that begins in the mode `ReliableOrdered`, let data frames of one stream of
  -- payloads arrive, numbered from 1, in any order, repeated or missing. What has been delivered is
  -- then the payloads of the frames below `expected_seq`, each once and in the order of their
  -- numbers.
  pub ordered_delivery :
      IsFresh c
      → All (IsFrame stream) (map arrival envs)
      → (handle_frames net envs c).delivered ≡ before stream (handle_frames net envs c).expected_seq
  ordered_delivery f h = (frames-IsOrdered f h).prefix

  -- Under the same conditions every frame that waits in `recv_buf` has the stream's payload, and
  -- its number lies past `expected_seq` by less than the window's size.
  pub buffered_in_window :
      (k : ℕ) (x : Bytes)
      → IsFresh c
      → All (IsFrame stream) (map arrival envs)
      → lookup ℕ_discrete k (handle_frames net envs c).recv_buf ≡ some x
      → (x ≡ stream k)
        × ((handle_frames net envs c).expected_seq < k)
        × (k < (handle_frames net envs c).expected_seq + c.config.window_size)
  buffered_in_window k x f h e =
      let w = frames-IsOrdered f h in (w.genuine k x e, w.above k x e, w.below k x e)

  -- Under the same conditions, if each of the frames 1 to `n` has arrived, and there are no more of
  -- them than the window's size, all of them have been delivered, in order, whatever the order
  -- they came in.
  pub window_delivered :
      (n : ℕ)
      → IsFresh c
      → All (IsFrame stream) (map arrival envs)
      → n ≤ c.config.window_size
      → ((k : ℕ) → 1 ≤ k → k ≤ n → HasArrival k (map arrival envs))
      → let c' = handle_frames net envs c in
        (c'.delivered ≡ before stream c'.expected_seq) × (n < c'.expected_seq)
  window_delivered n f h small all = (
    ordered_delivery f h,
    subst (λ (r : Inbound). n < r.expected) (sym (inbound-handle_frames net envs c f.mode))
        (arrive-expected stream c.config.window_size n (map arrival envs) (inbound c) small h
          (fresh-IsOrdered stream c.config.window_size c f) all),
  )
