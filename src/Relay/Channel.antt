-- ===== src/Relay/Channel.antt =====
-- What a connection of src/relay.rs has sent, against the payloads that its send loop took.
pub mod Runs
pub mod Streams
pub mod Delivery
use turntf_rs.Prelude.{
  ℕ, zero, suc, ◌+◌, arith, ◌≡◌, ◌≢◌, refl, sym, ap, ◌∙◌, ◌⊎◌, inl, inr, List, [], ◌∷◌, ◌++◌,
  Option, none, some, Result, ok, err, length, length-append, get_elem?, get_elem?-append_old,
  get_elem?-append_end, All, All-append, ℕ_discrete, map_option,
}
use turntf_rs.Prelude.Dict.{
  Dict, lookup, insert, remove, lookup-insert_self, lookup-insert_ne, lookup-remove_self,
  lookup-remove_ne,
}
use turntf_rs.Errors.{Fallible}
use turntf_rs.Types.{Bytes, UserRef, SessionRef, DeliveryMode, RelayKind, RelayEnvelope}
use turntf_rs.Proto.{SendMessageRequest}
use turntf_rs.Client.Packets.{
  Rpc, send_packet_to_session, send_packet_inner, send_checked, packet_request, check_packet,
}
use turntf_rs.Relay.Wire.{Codec, to_wire, encode_relay_envelope}
use turntf_rs.Relay.Connection.{
  Net, Connection, UnackedFrame, envelope, send_frame, send_relay_envelope, effective_mode,
}
use turntf_rs.Relay.Handlers.{remove_range}

-- The payload with this number, counted from 1.
abbrev pub Numbered : List Bytes → ℕ → Bytes → Type 0
Numbered taken seq payload = (j : ℕ) × (seq ≡ suc j) × (get_elem? taken j ≡ some payload)

-- A request that carries an envelope, which is no data frame or one with a payload under its number.
abbrev pub IsCarrier : Codec → List Bytes → SendMessageRequest → Type 0
IsCarrier codec taken r =
    (env : RelayEnvelope) × (r.body ≡ codec.encode (to_wire env))
    × ((env.kind ≢ RelayKind.«data») ⊎ Numbered taken env.seq env.payload)

-- The part of a connection that sends.
pub record Outgoing : Type 0 where
  pub next : ℕ
  pub frames : Dict ℕ UnackedFrame
  pub sent : List SendMessageRequest

abbrev pub outgoing : Connection → Outgoing
outgoing c = record { next = c.next_seq; frames = c.unacked; sent = c.sent }

-- The payloads taken are numbered from 1 on; a frame that is kept and a frame that was sent has the
-- payload of its number.
pub record Carries (codec : Codec) (taken : List Bytes) (o : Outgoing) : Type 0 where
  pub numbers : o.next ≡ suc (length taken)
  pub kept :
      (k : ℕ) (f : UnackedFrame) → lookup ℕ_discrete k o.frames ≡ some f → Numbered taken k f.«data»
  pub carried : All (IsCarrier codec taken) o.sent

module _ (P : SendMessageRequest → Type 0) where
  checked-All :
      (rpc : Rpc) (sent : List SendMessageRequest) (r : SendMessageRequest)
      (t : Fallible (Unit {0}))
      → P r
      → All P sent
      → All P (send_checked rpc sent r t).1
  unfolding send_checked
  checked-All rpc sent r (ok _) p h = All-append P sent (r ∷ []) h (p, tt)
  checked-All rpc sent r (err e) p h = h

  -- A frame adds at most one request, whose body is its envelope.
  pub send_frame-All :
      (net : Net) (kind : RelayKind) (seq ack_seq : ℕ) (payload : Bytes) (c : Connection)
      → ((r : SendMessageRequest)
          → r.body ≡ net.codec.encode (to_wire (envelope net kind seq ack_seq payload c))
          → P r)
      → All P c.sent
      → All P (send_frame net kind seq ack_seq payload c).1.sent
  unfolding send_frame send_relay_envelope encode_relay_envelope send_packet_to_session
      send_packet_inner packet_request
  send_frame-All net kind seq ack_seq payload c p h =
      checked-All net.rpc c.sent _
        (check_packet c.remote_peer
          (net.codec.encode (to_wire (envelope net kind seq ack_seq payload c)))
          (effective_mode c.config.delivery_mode) (some c.remote_session))
        (p _ refl) h

later-Numbered :
    (taken : List Bytes) (p : Bytes) (seq : ℕ) (payload : Bytes)
    → Numbered taken seq payload
    → Numbered (taken ++ p ∷ []) seq payload
later-Numbered taken p seq payload (j, e, h) = (j, e, get_elem?-append_old taken p payload j h)

later-All :
    (codec : Codec) (taken : List Bytes) (p : Bytes) (rs : List SendMessageRequest)
    → All (IsCarrier codec taken) rs
    → All (IsCarrier codec (taken ++ p ∷ [])) rs
later-All codec taken p [] h = tt
later-All codec taken p (r ∷ rs) ((env, e, inl other), h) =
    ((env, e, inl other), later-All codec taken p rs h)
later-All codec taken p (r ∷ rs) ((env, e, inr n), h) =
    ((env, e, inr (later-Numbered taken p env.seq env.payload n)), later-All codec taken p rs h)

module _ (codec : Codec) (taken : List Bytes) where
  -- One more payload is taken, and kept under the next number.
  pub push-Carries :
      (p : Bytes) (f : UnackedFrame) (o : Outgoing)
      → f.«data» ≡ p
      → Carries codec taken o
      → Carries codec
          (taken ++ p ∷ [])
          (record o { next = o.next + 1; frames = insert ℕ_discrete o.next f o.frames })
  push-Carries p f o same w = record {
    numbers = omega (arith, w.numbers, length-append taken (p ∷ []));
    kept = λ k g e. elim (ℕ_discrete o.next k) [
      | yes there ↦
          let got : f ≡ g = cc (lookup-insert_self ℕ_discrete o.next f o.frames, e, there) in
          (
            length taken,
            sym there ∙ w.numbers,
            get_elem?-append_end taken p
                ∙ ap some (sym same ∙ ap (λ (x : UnackedFrame). x.«data») got),
          )
      | no other ↦
          later-Numbered taken p k g.«data»
            (w.kept k g (sym (lookup-insert_ne ℕ_discrete o.next k f o.frames other) ∙ e))
    ];
    carried = later-All codec taken p o.sent w.carried;
  }

  -- A frame that is kept is replaced by one with the same data.
  pub replace-Carries :
      (seq : ℕ) (f g : UnackedFrame) (o : Outgoing)
      → lookup ℕ_discrete seq o.frames ≡ some f
      → g.«data» ≡ f.«data»
      → Carries codec taken o
      → Carries codec taken (record o { frames = insert ℕ_discrete seq g o.frames })
  replace-Carries seq f g o there same w = record {
    numbers = w.numbers;
    kept = λ k h e. elim (ℕ_discrete seq k) [
      | yes at_seq ↦
          let got : g ≡ h = cc (lookup-insert_self ℕ_discrete seq g o.frames, e, at_seq) in
          let (j, number, payload) = w.kept seq f there in
          (
            j,
            sym at_seq ∙ number,
            payload ∙ ap some (sym same ∙ ap (λ (x : UnackedFrame). x.«data») got),
          )
      | no other ↦ w.kept k h (sym (lookup-insert_ne ℕ_discrete seq k g o.frames other) ∙ e)
    ];
    carried = w.carried;
  }

  removed :
      (n base k : ℕ) (f : UnackedFrame) (m : Dict ℕ UnackedFrame)
      → lookup ℕ_discrete k (remove_range base n m) ≡ some f
      → lookup ℕ_discrete k m ≡ some f
  unfolding remove_range
  removed zero base k f m e = e
  removed (suc n) base k f m e =
      let rest = removed n (base + 1) k f (remove ℕ_discrete base m) e in
      elim (ℕ_discrete base k) [
        | yes there ↦ absurd (cc (lookup-remove_self ℕ_discrete base m, rest, there))
        | no other ↦ sym (lookup-remove_ne ℕ_discrete base k m other) ∙ rest
      ]

  -- Frames are no longer kept.
  pub remove-Carries :
      (n base : ℕ) (o : Outgoing)
      → Carries codec taken o
      → Carries codec taken (record o { frames = remove_range base n o.frames })
  remove-Carries n base o w = record {
    numbers = w.numbers;
    kept = λ k f e. w.kept k f (removed n base k f o.frames e);
    carried = w.carried;
  }

-- A frame is sent: one that is no data frame, or one that has the payload of its number.
pub send_frame-Carries :
    (taken : List Bytes) (net : Net) (kind : RelayKind) (seq ack_seq : ℕ) (payload : Bytes)
    (c : Connection)
    → (kind ≢ RelayKind.«data») ⊎ Numbered taken seq payload
    → Carries net.codec taken (outgoing c)
    → Carries net.codec taken (outgoing (send_frame net kind seq ack_seq payload c).1)
unfolding send_frame encode_relay_envelope envelope
send_frame-Carries taken net kind seq ack_seq payload c fits w = record {
  numbers = w.numbers;
  kept = w.kept;
  carried =
      send_frame-All (IsCarrier net.codec taken) net kind seq ack_seq payload c
        (λ r e. (envelope net kind seq ack_seq payload c, e, fits)) w.carried;
}
