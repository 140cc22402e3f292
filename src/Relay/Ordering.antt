-- ===== src/Relay/Ordering.antt =====
-- Ordered delivery: what `handle_data` of src/relay.rs delivers when the frames of one numbered
-- stream arrive in any order, late, twice or not at all.
mod Drain
pub mod Progress
pub mod Connections
pub use Drain.{before, Arrival, IsFrame, Waits, IsOrdered, weaken, delivered-Waits, remaining}
unfoldable pub use Drain.{after_delivery}
use Drain.{deliver-IsOrdered}
use turntf_rs.Prelude.{
  ℕ, zero, suc, ◌+◌, ◌-◌, ◌^◌, ◌≤◌, ◌<◌, ◌≡◌, refl, sym, ◌∙◌, ap, ◌⊎◌, inl, inr, List, [], ◌∷◌,
  ◌++◌, none, some, arith, length, All, Option-cases, ℕ_discrete, ltb, ◌==◌, ==_iff, ◌&&◌,
  Bool-cases,
}
use turntf_rs.Prelude.Dict.{
  Dict, lookup, insert, remove, lookup-remove_self, lookup-remove_ne, lookup-insert_self,
  lookup-insert_ne, length-remove-lt,
}
use turntf_rs.Types.{Bytes}
use turntf_rs.Relay.Connection.{wrap64}
use turntf_rs.Relay.Handlers.{Inbound, drain, accept_ordered}

unfoldable pub arrive : ℕ → List Arrival → Inbound → Inbound
unfolding accept_ordered
arrive window [] r = r
arrive window ((seq, payload) ∷ frames) r =
    arrive window frames (accept_ordered window seq payload r)

module _ (stream : ℕ → Bytes) (window : ℕ) where
  store-IsOrdered :
      (r : Inbound) (seq : ℕ) (x : Bytes)
      → IsOrdered stream window r
      → IsFrame stream (seq, x)
      → r.expected < seq
      → seq - r.expected < window
      → IsOrdered stream window (record r { buffer = insert ℕ_discrete seq x r.buffer })
  store-IsOrdered r seq x w frame late near = record {
    first = w.first;
    room = w.room;
    prefix = w.prefix;
    above = λ k y h. elim (stored k y h) [ inl (e, _) ↦ omega arith | inr old ↦ w.above k y old ];
    below = λ k y h. elim (stored k y h) [ inl (e, _) ↦ omega arith | inr old ↦ w.below k y old ];
    fits = λ k y h. elim (stored k y h) [
      | inl (e, _) ↦ omega (arith, frame.1)
      | inr old ↦ w.fits k y old
    ];
    genuine = λ k y h. elim (stored k y h) [
      | inl (e, p) ↦ cc (frame.2, e, p)
      | inr old ↦ w.genuine k y old
    ];
  }
    where
      stored :
          (k : ℕ) (y : Bytes)
          → lookup ℕ_discrete k (insert ℕ_discrete seq x r.buffer) ≡ some y
          → ((seq ≡ k) × (x ≡ y)) ⊎ (lookup ℕ_discrete k r.buffer ≡ some y)
      stored k y h = elim (ℕ_discrete seq k) [
        | yes e ↦ inl (e, cc (lookup-insert_self ℕ_discrete seq x r.buffer, h, e))
        | no n ↦ inr (sym (lookup-insert_ne ℕ_discrete seq k x r.buffer n) ∙ h)
      ]

  pub accept-IsOrdered :
      (r : Inbound) (seq : ℕ) (x : Bytes)
      → IsOrdered stream window r
      → IsFrame stream (seq, x)
      → IsOrdered stream window (accept_ordered window seq x r)
  unfolding accept_ordered
  accept-IsOrdered r seq x w frame = elim (Bool-cases (seq == r.expected)) [
    | inl now ↦
        let e : seq ≡ r.expected = (==_iff _ _).0 now in
        rw (now, accept_ordered)
          (unfold after_delivery in
            deliver-IsOrdered stream window r x w
              (w.first, omega (arith, frame.1), frame.2 ∙ ap stream e))
    | inr other ↦
        rw (other, accept_ordered)
          (elim (Bool-cases (ltb r.expected seq && ltb (seq - r.expected) window)) [
            | inl near ↦ rw near (store-IsOrdered r seq x w frame (ground arith) (ground arith))
            | inr far ↦ rw far w
          ])
  ]

  -- Whatever frames of the stream arrive, in whatever order and however often, what has been
  -- delivered is the stream from its first frame up to the expected number, each frame once and in
  -- order; and what waits is genuine and lies in the window past that number.
  pub arrive-IsOrdered :
      (frames : List Arrival) (r : Inbound)
      → All (IsFrame stream) frames
      → IsOrdered stream window r
      → IsOrdered stream window (arrive window frames r)
  unfolding arrive
  arrive-IsOrdered [] r h w = w
  arrive-IsOrdered ((seq, x) ∷ frames) r h w =
      arrive-IsOrdered frames _ h.1 (accept-IsOrdered r seq x w h.0)
