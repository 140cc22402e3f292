-- ===== src/Tests/Formats.antt =====
-- A byte codec for the envelope message, so that the parameter `Codec` has an instance. It writes
-- each field with what is needed to read it back.
use Prim.Native.Char.{code}
use Prim.Native.String.{[] as empty, ◌∷◌ as ◌⸬◌}
use turntf_rs.Prelude.{
  ℕ, zero, suc, ℤ, String, ◌≡◌, refl, ap, [], ◌∷◌, ◌++◌, length, Option, none, some, ok_or,
}
use turntf_rs.Types.{Bytes, SessionRef}
use turntf_rs.Relay.Wire.{WireEnvelope, Codec}
use turntf_rs.Prelude.Scalars.{from_code, from_code-code}

record Format (A : Type 0) : Type 0 where
  put : A → Bytes → Bytes
  get : Bytes → Option (A × Bytes)
  get-put : (a : A) (rest : Bytes) → get (put a rest) ≡ some (a, rest)

take_number : Bytes → Option (ℕ × Bytes)
take_number [] = none
take_number (b ∷ bs) = some (b, bs)

number : Format ℕ
unfolding take_number
number = record { put = ◌∷◌; get = take_number; get-put = λ a rest. refl }

module _ {A B : Type 0} where
  beside : A → Option (B × Bytes) → Option ((A × B) × Bytes)
  beside a none = none
  beside a (some (b, rest)) = some ((a, b), rest)

  then_get : (A → Format B) → Option (A × Bytes) → Option ((A × B) × Bytes)
  then_get g none = none
  then_get g (some (a, bytes)) = beside a ((g a).get bytes)

  -- One value, and then another whose format may depend on it.
  then : Format A → (A → Format B) → Format (A × B)
  unfolding then_get beside
  then f g = record {
    put = λ (a, b) rest. f.put a ((g a).put b rest);
    get = λ bytes. then_get g (f.get bytes);
    get-put =
        λ (a, b) rest. rw (f.get-put a ((g a).put b rest), then_get, (g a).get-put b rest) refl;
  }

  made_get : (A → B) → Option (A × Bytes) → Option (B × Bytes)
  made_get make none = none
  made_get make (some (a, rest)) = some (make a, rest)

  -- A value as another from which it can be made.
  made : Format A → (make : A → B) (part : B → A) → ((b : B) → make (part b) ≡ b) → Format B
  unfolding made_get
  made f make part back = record {
    put = λ b rest. f.put (part b) rest;
    get = λ bytes. made_get make (f.get bytes);
    get-put = λ b rest. rw (f.get-put (part b) rest) (ap (λ c. some (c, rest)) (back b));
  }

count : String → ℕ
count empty = 0
count (c ⸬ s) = suc (count s)

put_codes : String → Bytes → Bytes
put_codes empty rest = rest
put_codes (c ⸬ s) rest = code c ∷ put_codes s rest

get_codes : ℕ → Bytes → Option (String × Bytes)
get_codes zero bytes = some (empty, bytes)
get_codes (suc n) [] = none
get_codes (suc n) (b ∷ bytes) = elim (get_codes n bytes) [
  | none ↦ none
  | some (s, rest) ↦ some (from_code b ⸬ s, rest)
]

get-put_codes :
    (s : String) (rest : Bytes) → get_codes (count s) (put_codes s rest) ≡ some (s, rest)
unfolding get_codes put_codes count
get-put_codes empty rest = refl
get-put_codes (c ⸬ s) rest =
    rw (get-put_codes s rest) (ap (λ d. some (d ⸬ s, rest)) (from_code-code c))

text : Format String
unfolding get_codes put_codes count
text = record {
  put = λ s rest. count s ∷ put_codes s rest;
  get = λ bytes. elim (take_number bytes) [ none ↦ none | some (n, rest) ↦ get_codes n rest ];
  get-put = λ s rest. unfold take_number in get-put_codes s rest;
}

payload : Format Bytes
payload = record {
  put = put_list;
  get = λ bytes. after (take_number bytes);
  get-put = get-put_list;
}
  where
    take : ℕ → Bytes → Option (Bytes × Bytes)
    take zero bytes = some ([], bytes)
    take (suc n) [] = none
    take (suc n) (b ∷ bytes) = elim (take n bytes) [
      | none ↦ none
      | some (s, rest) ↦ some (b ∷ s, rest)
    ]

    after : Option (ℕ × Bytes) → Option (Bytes × Bytes)
    after none = none
    after (some (n, rest)) = take n rest

    put_list : Bytes → Bytes → Bytes
    put_list bs rest = length bs ∷ (bs ++ rest)

    take-append : (bs rest : Bytes) → take (length bs) (bs ++ rest) ≡ some (bs, rest)
    take-append [] rest = refl
    take-append (b ∷ bs) rest = rw (take-append bs rest) refl

    get-put_list : (bs rest : Bytes) → after (take_number (put_list bs rest)) ≡ some (bs, rest)
    get-put_list bs rest = unfold take_number in take-append bs rest

sign : ℕ × ℕ → ℤ
sign (zero, n) = ℤ.pos n
sign (suc _, n) = ℤ.negsuc n

parts : ℤ → ℕ × ℕ
parts (ℤ.pos n) = (0, n)
parts (ℤ.negsuc n) = (1, n)

sign-parts : (z : ℤ) → sign (parts z) ≡ z
unfolding sign parts
sign-parts (ℤ.pos n) = refl
sign-parts (ℤ.negsuc n) = refl

integer : Format ℤ
integer = made (then number (λ _. number)) sign parts sign-parts

session : Format SessionRef
session =
    made (then integer (λ _. text)) (λ (n, s). record { serving_node_id = n; session_id = s })
      (λ s. (s.serving_node_id, s.session_id)) (λ s. refl)

put_option : Option SessionRef → Bytes → Bytes
put_option none rest = 0 ∷ rest
put_option (some s) rest = 1 ∷ session.put s rest

present : Option (SessionRef × Bytes) → Option (Option SessionRef × Bytes)
present none = none
present (some (s, rest)) = some (some s, rest)

get_option : Bytes → Option (Option SessionRef × Bytes)
get_option [] = none
get_option (zero ∷ rest) = some (none, rest)
get_option (suc _ ∷ rest) = present (session.get rest)

get-put_option :
    (o : Option SessionRef) (rest : Bytes) → get_option (put_option o rest) ≡ some (o, rest)
unfolding get_option put_option present
get-put_option none rest = refl
get-put_option (some s) rest = ap present (session.get-put s rest)

optional_session : Format (Option SessionRef)
optional_session = record { put = put_option; get = get_option; get-put = get-put_option }

-- relay_id, kind, sender_session, target_session, seq, ack_seq, payload, sent_at_ms
Fields : Type 0
Fields = String × (ℤ × (Option SessionRef × (Option SessionRef × (ℕ × (ℕ × (Bytes × ℤ))))))

fields : Format Fields
unfolding Fields
fields = then text (λ _. then integer (λ _. then optional_session (λ _.
    then optional_session
      (λ _. then number (λ _. then number (λ _. then payload (λ _. integer)))))))

from_fields : Fields → WireEnvelope
unfolding Fields
from_fields (id, (kind, (sender, (target, (seq, (ack_seq, (payload, sent))))))) = record {
  relay_id = id;
  kind = kind;
  sender_session = sender;
  target_session = target;
  seq = seq;
  ack_seq = ack_seq;
  payload = payload;
  sent_at_ms = sent;
}

to_fields : WireEnvelope → Fields
unfolding Fields
to_fields e = (
  e.relay_id,
  (e.kind, (e.sender_session, (e.target_session, (e.seq, (e.ack_seq, (e.payload, e.sent_at_ms)))))),
)

envelope_format : Format WireEnvelope
envelope_format =
    made fields from_fields to_fields (λ e. unfold from_fields in unfold to_fields in refl)

first : Option (WireEnvelope × Bytes) → Option WireEnvelope
first none = none
first (some (e, _)) = some e

pub plain_codec : Codec
unfolding first
plain_codec = record {
  encode = λ e. envelope_format.put e [];
  decode = λ bytes. ok_or "buffer underflow" (first (envelope_format.get bytes));
  decode-encode = λ e. rw (envelope_format.get-put e []) refl;
}

-- An encoded envelope is not empty.
pub plain_codec_filled :
    (e : WireEnvelope) → (b : ℕ) × (rest : Bytes) × (plain_codec.encode e ≡ b ∷ rest)
unfolding plain_codec envelope_format fields made then text integer optional_session number payload
    Fields
plain_codec_filled e = (_, _, refl)
