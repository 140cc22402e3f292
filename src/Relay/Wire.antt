-- ===== src/Relay/Wire.antt =====
-- The relay frames of src/relay.rs on the wire: the frame kinds as the numbers of
-- proto/relay.proto, and the envelope to and from its protobuf message. The byte codec is prost's,
-- which the build generates from the .proto files: a parameter.
use turntf_rs.Prelude.{
  ℕ, ℤ, pos, String, ◌≡◌, refl, ap, Option, none, some, Result, ok, ◌>>=◌, map_err, ◌==◌,
  if◌then◌else◌,
}
use Prim.Native.String.{◌++◌}
use turntf_rs.Types.{Bytes, SessionRef, default_session_ref, RelayKind, RelayEnvelope}

-- `proto::RelayEnvelope`
pub record WireEnvelope : Type 0 where
  pub relay_id : String
  pub kind : ℤ
  pub sender_session : Option SessionRef
  pub target_session : Option SessionRef
  pub seq : ℕ
  pub ack_seq : ℕ
  pub payload : Bytes
  pub sent_at_ms : ℤ

-- prost's `encode_to_vec` and `decode` for this message. Decoding returns what was encoded.
pub record Codec : Type 0 where
  pub encode : WireEnvelope → Bytes
  pub decode : Bytes → Result String WireEnvelope
  pub decode-encode : (e : WireEnvelope) → decode (encode e) ≡ ok e

-- `relay_kind_to_proto`
unfoldable pub relay_kind_to_proto : RelayKind → ℤ
relay_kind_to_proto RelayKind.«open» = pos 1
relay_kind_to_proto RelayKind.open_ack = pos 2
relay_kind_to_proto RelayKind.«data» = pos 3
relay_kind_to_proto RelayKind.ack = pos 4
relay_kind_to_proto RelayKind.close = pos 5
relay_kind_to_proto RelayKind.ping = pos 6
relay_kind_to_proto RelayKind.error = pos 7
relay_kind_to_proto RelayKind.unspecified = pos 0

relay_kind_of : ℕ → RelayKind
relay_kind_of n =
    if n == 1
    then RelayKind.«open»
    else if n == 2
    then RelayKind.open_ack
    else if n == 3
    then RelayKind.«data»
    else if n == 4
    then RelayKind.ack
    else if n == 5
    then RelayKind.close
    else if n == 6
    then RelayKind.ping
    else if n == 7
    then RelayKind.error
    else RelayKind.unspecified

-- `relay_kind_from_proto`
unfoldable pub relay_kind_from_proto : ℤ → RelayKind
unfolding relay_kind_of
relay_kind_from_proto (ℤ.pos n) = relay_kind_of n
relay_kind_from_proto (ℤ.negsuc n) = RelayKind.unspecified

unfoldable pub to_wire : RelayEnvelope → WireEnvelope
unfolding relay_kind_to_proto
to_wire env = record {
  relay_id = env.relay_id;
  kind = relay_kind_to_proto env.kind;
  sender_session = some env.sender_session;
  target_session = some env.target_session;
  seq = env.seq;
  ack_seq = env.ack_seq;
  payload = env.payload;
  sent_at_ms = env.sent_at_ms;
}

abbrev session_or_default : Option SessionRef → SessionRef
session_or_default none = default_session_ref
session_or_default (some s) = s

unfoldable pub from_wire : WireEnvelope → RelayEnvelope
unfolding relay_kind_from_proto
from_wire e = record {
  relay_id = e.relay_id;
  kind = relay_kind_from_proto e.kind;
  sender_session = session_or_default e.sender_session;
  target_session = session_or_default e.target_session;
  seq = e.seq;
  ack_seq = e.ack_seq;
  payload = e.payload;
  sent_at_ms = e.sent_at_ms;
}

-- `encode_relay_envelope`
unfoldable pub encode_relay_envelope : Codec → RelayEnvelope → Result String Bytes
unfolding to_wire
encode_relay_envelope codec env = ok (codec.encode (to_wire env))

-- `decode_relay_envelope`
unfoldable pub decode_relay_envelope : Codec → Bytes → Result String RelayEnvelope
unfolding from_wire
decode_relay_envelope codec bytes = do
  e ← map_err (λ (m : String). "decode relay envelope: " ++ m) (codec.decode bytes)
  ok (from_wire e)

-- Each frame kind has a number of its own, which reads back as the kind.
kind_of_number : (kind : RelayKind) → relay_kind_from_proto (relay_kind_to_proto kind) ≡ kind
unfolding relay_kind_to_proto relay_kind_from_proto
kind_of_number RelayKind.unspecified = refl
kind_of_number _ = refl

pub from_wire-to_wire : (env : RelayEnvelope) → from_wire (to_wire env) ≡ env
unfolding from_wire to_wire
from_wire-to_wire env = ap (λ k. record env { kind = k }) (kind_of_number env.kind)

-- An envelope of any kind that is encoded and then decoded comes back unchanged, every field of it.
pub decode-encode_relay_envelope :
    (codec : Codec) (env : RelayEnvelope)
    → (encode_relay_envelope codec env >>= decode_relay_envelope codec) ≡ ok env
unfolding encode_relay_envelope decode_relay_envelope
decode-encode_relay_envelope codec env =
    rw (codec.decode-encode (to_wire env)) (ap ok (from_wire-to_wire env))
