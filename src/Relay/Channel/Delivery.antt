-- ===== src/Relay/Channel/Delivery.antt =====
-- From the payloads that one connection of src/relay.rs takes to those that its peer delivers.
use turntf_rs.Prelude.{
  ℕ, zero, suc, ◌+◌, ◌≤◌, ◌<◌, ◌^◌, ◌≡◌, ◌≢◌, refl, sym, ap, ◌∙◌, ◌⊎◌, inl, inr, List, [], ◌∷◌, ok,
  ltb, leb, if_cases, All, length, get_elem?-in_range, arith, Bool-cases, ltb→lt,
}
use turntf_rs.Prelude.Dict.{lookup}
use mathlib.Core.Path.{subst, subst₂}
use turntf_rs.Types.{Bytes, RelayKind, RelayEnvelope, RelayConfig, Reliability}
use turntf_rs.Proto.{SendMessageRequest}
use turntf_rs.Relay.Wire.{
  Codec, to_wire, encode_relay_envelope, decode_relay_envelope, decode-encode_relay_envelope,
}
use turntf_rs.Relay.Connection.{Net, Connection}
use turntf_rs.Relay.Frames.{send_frame_lem}
use turntf_rs.Relay.Handlers.{
  inbound, handle_data, handle_ack, acknowledged, handle_ping, dispatch, handle_envelope,
  free_through,
}
use turntf_rs.Relay.SendTask.{loop_head}
use turntf_rs.Relay.Window.Runs.{Run, IsIdle, in_flight_bounded}
use turntf_rs.Relay.Ordering.{before, IsFrame, IsOrdered, accept-IsOrdered}
use turntf_rs.Relay.Ordering.Connections.{
  arrival, IsFresh, inbound-handle_data, config-handle_data, fresh-IsOrdered,
}
use turntf_rs.Relay.Channel.{Numbered, IsCarrier, Carries, outgoing}
use turntf_rs.Relay.Channel.Runs.{taken, outgoing-loop_head, Run-Carries}
use turntf_rs.Relay.Channel.Streams.{
  stream_of, get_or-get_elem?, get_or-past, IsPrefix, before-IsPrefix, before-agree,
}

-- The frames of any kind that reach a connection, handled one after the other.
unfoldable pub handle_all : Net → List RelayEnvelope → Connection → Connection
unfolding handle_envelope
handle_all net [] c = c
handle_all net (env ∷ envs) c = handle_all net envs (handle_envelope net env c)

-- The envelope is what some request decodes to.
abbrev pub Arrives : Codec → List SendMessageRequest → RelayEnvelope → Type 0
Arrives codec [] env = ⊥
Arrives codec (r ∷ rs) env = (decode_relay_envelope codec r.body ≡ ok env) ⊎ Arrives codec rs env

abbrev IsGenuine : (ℕ → Bytes) → RelayEnvelope → Type 0
IsGenuine stream env = (env.kind ≢ RelayKind.«data») ⊎ IsFrame stream (arrival env)

decoded :
    (codec : Codec) (r : SendMessageRequest) (sent env : RelayEnvelope)
    → r.body ≡ codec.encode (to_wire sent)
    → decode_relay_envelope codec r.body ≡ ok env
    → env ≡ sent
decoded codec r sent env b e =
    let back : decode_relay_envelope codec (codec.encode (to_wire sent)) ≡ ok sent =
      unfold encode_relay_envelope in decode-encode_relay_envelope codec sent in
    cc (back, b, e)

module _ (d : Bytes) (taken : List Bytes) (bounded : length taken + 1 < 2 ^ 64) where
  Numbered-IsFrame :
      (seq : ℕ) (p : Bytes) → Numbered taken seq p → IsFrame (stream_of d taken) (seq, p)
  Numbered-IsFrame seq p (j, e, h) = (
    omega (arith, e),
    omega (arith, e, bounded, get_elem?-in_range taken p j h),
    rw e (get_or-get_elem? d taken j p h),
  )

  carrier-IsGenuine :
      (codec : Codec) (rs : List SendMessageRequest) (env : RelayEnvelope)
      → All (IsCarrier codec taken) rs
      → Arrives codec rs env
      → IsGenuine (stream_of d taken) env
  carrier-IsGenuine codec [] env h a = absurd a
  carrier-IsGenuine codec (r ∷ rs) env ((sent, b, fits), h) (inr a) =
      carrier-IsGenuine codec rs env h a
  carrier-IsGenuine codec (r ∷ rs) env ((sent, b, inl other), h) (inl e) =
      subst (IsGenuine (stream_of d taken)) (sym (decoded codec r sent env b e)) (inl other)
  carrier-IsGenuine codec (r ∷ rs) env ((sent, b, inr n), h) (inl e) =
      subst (IsGenuine (stream_of d taken)) (sym (decoded codec r sent env b e))
        (inr (Numbered-IsFrame sent.seq sent.payload n))

module _ (stream : ℕ → Bytes) (net : Net) where
  -- A connection that keeps the order of the stream.
  abbrev Orderly : Connection → Type 0
  Orderly c =
      (c.config.reliability ≡ Reliability.reliable_ordered)
      × IsOrdered stream c.config.window_size (inbound c)

  data-Orderly :
      (env : RelayEnvelope) (c : Connection)
      → IsFrame stream (arrival env)
      → Orderly c
      → Orderly (handle_data net env c)
  data-Orderly env c f (mode, w) =
      let same = config-handle_data net env c mode in
      (
        ap (λ (g : RelayConfig). g.reliability) same ∙ mode,
        subst₂ (λ (g : RelayConfig) r. IsOrdered stream g.window_size r) (sym same)
            (sym (inbound-handle_data net env c mode))
            (accept-IsOrdered stream c.config.window_size (inbound c) env.seq env.payload w f),
      )

  ack-Orderly :
      (m : Reliability) (ack_seq : ℕ) (c : Connection)
      → Orderly c
      → Orderly (acknowledged m ack_seq c)
  unfolding acknowledged
  ack-Orderly Reliability.best_effort ack_seq c w = w
  ack-Orderly _ ack_seq c w =
      if_cases Orderly (leb c.send_base ack_seq) (free_through ack_seq c) c (λ _. w) (λ _. w)

  ping-Orderly : (c : Connection) → Orderly c → Orderly (handle_ping net c)
  unfolding handle_ping
  ping-Orderly c w = subst Orderly (sym (send_frame_lem net RelayKind.error 0 0 [] c)) w

  dispatch-Orderly :
      (kind : RelayKind) (env : RelayEnvelope) (c : Connection)
      → (kind ≢ RelayKind.«data») ⊎ IsFrame stream (arrival env)
      → Orderly c
      → Orderly (dispatch net kind env c)
  unfolding dispatch handle_ack
  dispatch-Orderly RelayKind.«data» env c (inl n) w = absurd (n refl)
  dispatch-Orderly RelayKind.«data» env c (inr f) w = data-Orderly env c f w
  dispatch-Orderly RelayKind.ack env c g w = ack-Orderly c.config.reliability env.ack_seq c w
  dispatch-Orderly RelayKind.ping env c g w = ping-Orderly c w
  dispatch-Orderly _ env c g w = w

  handle_all-Orderly :
      (envs : List RelayEnvelope) (c : Connection)
      → All (IsGenuine stream) envs
      → Orderly c
      → Orderly (handle_all net envs c)
  unfolding handle_all handle_envelope
  handle_all-Orderly [] c h w = w
  handle_all-Orderly (env ∷ envs) c h w =
      handle_all-Orderly envs (handle_envelope net env c) h.1
        (dispatch-Orderly env.kind env c h.0 w)

no_more :
    (taken out : List Bytes) (n : ℕ)
    → ((d : Bytes) → out ≡ before (stream_of d taken) n)
    → n ≤ suc (length taken)
no_more taken out n h = elim (Bool-cases (ltb (suc (length taken)) n)) [
  | inr within ↦ ground arith
  | inl beyond ↦
      let len = length taken in
      let same =
        before-agree (stream_of [] taken) (stream_of (0 ∷ []) taken) n len (sym (h []) ∙ h (0 ∷ []))
          (ltb→lt _ _ beyond) in
      absurd (
        cc (
          same,
          get_or-past [] taken len (omega arith),
          get_or-past (0 ∷ []) taken len (omega arith),
        ))
]

prefix_of :
    (taken out : List Bytes) (n : ℕ)
    → 1 ≤ n
    → ((d : Bytes) → out ≡ before (stream_of d taken) n)
    → IsPrefix out taken
prefix_of taken out zero first h = absurd (omega arith)
prefix_of taken out (suc m) first h =
    subst (λ xs. IsPrefix xs taken) (sym (h []))
      (before-IsPrefix [] taken m (omega (arith, no_more taken out (suc m) h)))

module _ (net net' : Net) (c d e : Connection) (r : Run net (loop_head c) d)
    (envs : List RelayEnvelope) where
  sent-Carries : IsIdle c → c.sent ≡ [] → Carries net.codec (taken r) (outgoing d)
  unfolding lookup
  sent-Carries idle silent = Run-Carries r (
      subst (Carries net.codec []) (sym (outgoing-loop_head c)) (
        rw (idle.next, idle.none_kept, silent)
          (record { numbers = refl; kept = λ k f found. absurd (cc found); carried = tt })))

  All-IsGenuine :
      (d' : Bytes) (rs : List SendMessageRequest) (xs : List RelayEnvelope)
      → length (taken r) + 1 < 2 ^ 64
      → All (IsCarrier net.codec (taken r)) rs
      → All (Arrives net.codec rs) xs
      → All (IsGenuine (stream_of d' (taken r))) xs
  All-IsGenuine d' rs [] b h a = tt
  All-IsGenuine d' rs (x ∷ xs) b h (a, later) =
      (carrier-IsGenuine d' (taken r) b net.codec rs x h a, All-IsGenuine d' rs xs b h later)

  -- Let the reliable send loop of one connection run from its beginning, its peer acknowledging only
  -- what was sent. Let frames that it sent, of any kind, reach another connection that begins in the
  -- mode `ReliableOrdered`: each is decoded from a request of the sender, and any may be lost,
  -- repeated or overtaken. What the receiver has delivered is then a prefix of the payloads that
  -- the sender has taken from `send`, as of a first-in first-out channel.
  pub channel_refines :
      IsIdle c
      → c.sent ≡ []
      → IsFresh e
      → All (Arrives net.codec d.sent) envs
      → IsPrefix (handle_all net' envs e).delivered (taken r)
  channel_refines idle silent fresh arrives =
      let w = sent-Carries idle silent in
      let bounded : length (taken r) + 1 < 2 ^ 64 =
        omega (arith, w.numbers, (in_flight_bounded net c d idle r).windowed.fits) in
      let orderly : (d' : Bytes) → Orderly (stream_of d' (taken r)) net' (handle_all net' envs e) =
        λ d'.
          handle_all-Orderly (stream_of d' (taken r)) net' envs e
            (All-IsGenuine d' d.sent envs bounded w.carried arrives)
            (fresh.mode, fresh-IsOrdered (stream_of d' (taken r)) e.config.window_size e fresh) in
      prefix_of (taken r) (handle_all net' envs e).delivered (handle_all net' envs e).expected_seq
        (orderly []).1.first (λ d'. (orderly d').1.prefix)
