-- ===== src/Relay/Ordering/Drain.antt =====
-- The delivery loop of `handle_data` in src/relay.rs, over a buffer of frames of one numbered
-- stream.
use turntf_rs.Prelude.{
  ℕ, zero, suc, ◌+◌, ◌^◌, ◌≤◌, ◌<◌, ◌≡◌, refl, sym, ◌∙◌, ap, inl, inr, List, [], ◌∷◌, ◌++◌, none,
  some, arith, length, Option-cases, ℕ_discrete,
}
use turntf_rs.Prelude.Dict.{
  Dict, lookup, remove, lookup-remove_self, lookup-remove_ne, length-remove-lt,
}
use turntf_rs.Types.{Bytes}
use turntf_rs.Relay.Connection.{wrap64}
use turntf_rs.Relay.Handlers.{Inbound, drain}

-- The payloads of the frames 1 to n - 1, in order.
abbrev pub before : (ℕ → Bytes) → ℕ → List Bytes
before stream zero = []
before stream (suc zero) = []
before stream (suc (suc n)) = before stream (suc n) ++ stream (suc n) ∷ []

before-suc :
    (stream : ℕ → Bytes) (n : ℕ) → 1 ≤ n → before stream n ++ stream n ∷ [] ≡ before stream (suc n)
before-suc stream zero h = absurd (omega arith)
before-suc stream (suc n) h = refl

-- A frame that arrives: its number and its payload.
abbrev pub Arrival : Type 0
Arrival = ℕ × Bytes

-- It belongs to the stream, whose last number leaves room for the next one in 64 bits.
abbrev pub IsFrame : (ℕ → Bytes) → Arrival → Type 0
IsFrame stream (seq, payload) = (1 ≤ seq) × (seq + 1 < 2 ^ 64) × (payload ≡ stream seq)

none_of_empty : (k : ℕ) (m : Dict ℕ Bytes) → length m ≤ 0 → lookup ℕ_discrete k m ≡ none
unfolding lookup
none_of_empty k [] h = refl
none_of_empty k (x ∷ m) h = absurd (omega arith)

-- The frame of the expected number has been delivered, and `buffer` holds what waits.
unfoldable pub after_delivery : Inbound → Bytes → Dict ℕ Bytes → Inbound
after_delivery r x buffer = record {
  expected = wrap64 (r.expected + 1);
  buffer = buffer;
  out = r.out ++ x ∷ [];
}

expected-after : (r : Inbound) → r.expected + 1 < 2 ^ 64 → wrap64 (r.expected + 1) ≡ suc r.expected
expected-after r h = omega arith

module _ (stream : ℕ → Bytes) (window : ℕ) where
  -- Every frame that waits is one of the stream, and lies within the window; `low` is the least
  -- number that a waiting frame may have.
  pub record Waits (low : ℕ) (r : Inbound) : Type 0 where
    pub first : 1 ≤ r.expected
    pub room : r.expected < 2 ^ 64
    pub prefix : r.out ≡ before stream r.expected
    pub above : (k : ℕ) (x : Bytes) → lookup ℕ_discrete k r.buffer ≡ some x → low ≤ k
    pub below :
        (k : ℕ) (x : Bytes) → lookup ℕ_discrete k r.buffer ≡ some x → k < r.expected + window
    pub fits : (k : ℕ) (x : Bytes) → lookup ℕ_discrete k r.buffer ≡ some x → k + 1 < 2 ^ 64
    pub genuine : (k : ℕ) (x : Bytes) → lookup ℕ_discrete k r.buffer ≡ some x → x ≡ stream k

  out-after :
      (r : Inbound) (x : Bytes)
      → 1 ≤ r.expected
      → r.out ≡ before stream r.expected
      → x ≡ stream r.expected
      → r.out ++ x ∷ [] ≡ before stream (suc r.expected)
  out-after r x h p e = rw (p, e) (before-suc stream r.expected h)

  -- Delivering the expected frame keeps the rest, whether it came just now or waited.
  pub delivered-Waits :
      (r : Inbound) (x : Bytes) (buffer : Dict ℕ Bytes)
      → Waits r.expected r
      → x ≡ stream r.expected
      → r.expected + 1 < 2 ^ 64
      → ((k : ℕ) (y : Bytes)
          → lookup ℕ_discrete k buffer ≡ some y
          → (lookup ℕ_discrete k r.buffer ≡ some y) × (r.expected < k))
      → Waits (wrap64 (r.expected + 1)) (after_delivery r x buffer)
  unfolding after_delivery
  delivered-Waits r x buffer w e room sub = record {
    first = omega arith;
    room = omega arith;
    prefix = out-after r x w.first w.prefix e ∙ ap (before stream) (sym (expected-after r room));
    above = λ k y h. omega (arith, (sub k y h).1);
    below = λ k y h. omega (arith, w.below k y (sub k y h).0);
    fits = λ k y h. w.fits k y (sub k y h).0;
    genuine = λ k y h. w.genuine k y (sub k y h).0;
  }

  pub remaining :
      (r : Inbound)
      → Waits r.expected r
      → (k : ℕ) (y : Bytes) → lookup ℕ_discrete k (remove ℕ_discrete r.expected r.buffer) ≡ some y
      → (lookup ℕ_discrete k r.buffer ≡ some y) × (r.expected < k)
  remaining r w k y h = elim (ℕ_discrete r.expected k) [
    | yes e ↦ cc (lookup-remove_self ℕ_discrete r.expected r.buffer, e)
    | no n ↦
        let there = sym (lookup-remove_ne ℕ_discrete r.expected k r.buffer n) ∙ h in
        (there, omega (arith, w.above k y there))
  ]

  -- The loop keeps the picture, whatever its fuel.
  drain-Waits :
      (fuel : ℕ) (r : Inbound) → Waits r.expected r → Waits (drain fuel r).expected (drain fuel r)
  unfolding drain
  drain-Waits zero r w = w
  drain-Waits (suc fuel) r w = elim (Option-cases (lookup ℕ_discrete r.expected r.buffer)) [
    | inl e ↦ rw (e, drain) w
    | inr (x, e) ↦
        rw (e, drain)
          (drain-Waits fuel _ (
            unfold after_delivery in
            delivered-Waits r x _ w (w.genuine r.expected x e) (w.fits r.expected x e)
              (remaining r w)))
  ]

  -- With as much fuel as there are frames that wait, the loop ends where the next one is missing.
  drain-ends :
      (fuel : ℕ) (r : Inbound)
      → length r.buffer ≤ fuel
      → lookup ℕ_discrete (drain fuel r).expected (drain fuel r).buffer ≡ none
  unfolding drain
  drain-ends zero r h = none_of_empty r.expected r.buffer h
  drain-ends (suc fuel) r h = elim (Option-cases (lookup ℕ_discrete r.expected r.buffer)) [
    | inl e ↦ rw (e, drain) e
    | inr (x, e) ↦
        rw (e, drain)
          (drain-ends fuel _ (omega (arith, length-remove-lt ℕ_discrete r.expected x r.buffer e)))
  ]

  -- Between two frames nothing waits under the expected number.
  abbrev pub IsOrdered : Inbound → Type 0
  IsOrdered r = Waits (suc r.expected) r

  Waits-IsOrdered :
      (r : Inbound)
      → Waits r.expected r
      → lookup ℕ_discrete r.expected r.buffer ≡ none
      → IsOrdered r
  Waits-IsOrdered r w e = record {
    first = w.first;
    room = w.room;
    prefix = w.prefix;
    above = λ k x h. elim (ℕ_discrete r.expected k) [
      | yes q ↦ absurd (cc (e, h, q))
      | no n ↦ omega (arith, w.above k x h)
    ];
    below = w.below;
    fits = w.fits;
    genuine = w.genuine;
  }

  pub weaken : (r : Inbound) → IsOrdered r → Waits r.expected r
  weaken r w = record {
    first = w.first;
    room = w.room;
    prefix = w.prefix;
    above = λ k x h. omega (arith, w.above k x h);
    below = w.below;
    fits = w.fits;
    genuine = w.genuine;
  }

  pub deliver-IsOrdered :
      (r : Inbound) (x : Bytes)
      → IsOrdered r
      → IsFrame stream (r.expected, x)
      → IsOrdered (drain (length r.buffer) (after_delivery r x r.buffer))
  unfolding after_delivery
  deliver-IsOrdered r x w frame =
      Waits-IsOrdered _
        (drain-Waits (length r.buffer) _ (
          delivered-Waits r x r.buffer (weaken r w) frame.2 frame.1
            (λ k y h. (h, omega (arith, w.above k y h)))))
        (drain-ends (length r.buffer) _ (omega arith))
