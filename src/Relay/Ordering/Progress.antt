-- ===== src/Relay/Ordering/Progress.antt =====
-- Which frames `handle_data` of src/relay.rs has delivered or keeps, once they have arrived.
use turntf_rs.Prelude.{
  ℕ, zero, suc, ◌+◌, ◌-◌, ◌≤◌, ◌<◌, ◌≡◌, sym, ap, ◌∙◌, ◌⊎◌, inl, inr, List, [], ◌∷◌, some, arith,
  length, All, Option-cases, Bool-cases, ltb, ltb→lt, false, ◌==◌, ==_iff, ◌&&◌, ℕ_discrete,
}
use turntf_rs.Prelude.Dict.{
  lookup, insert, remove, lookup-remove_ne, lookup-insert_self, lookup-insert_ne,
}
use turntf_rs.Types.{Bytes}
use turntf_rs.Relay.Connection.{wrap64}
use turntf_rs.Relay.Handlers.{Inbound, drain, accept_ordered}
use turntf_rs.Relay.Ordering.{
  Arrival, IsFrame, IsOrdered, Waits, arrive, weaken, after_delivery, delivered-Waits, remaining,
  accept-IsOrdered, arrive-IsOrdered,
}

-- The frame of this number has been delivered or waits.
abbrev pub IsHeld : ℕ → Inbound → Type 0
IsHeld k r = (k < r.expected) ⊎ ((x : Bytes) × (lookup ℕ_discrete k r.buffer ≡ some x))

-- A frame of this number is among the arrivals.
abbrev pub HasArrival : ℕ → List Arrival → Type 0
HasArrival k [] = ⊥
HasArrival k ((seq, x) ∷ frames) = (seq ≡ k) ⊎ HasArrival k frames

module _ (stream : ℕ → Bytes) (window : ℕ) where
  drain-IsHeld :
      (fuel k : ℕ) (r : Inbound)
      → Waits stream window r.expected r
      → IsHeld k r
      → IsHeld k (drain fuel r)
  unfolding drain
  drain-IsHeld zero k r w h = h
  drain-IsHeld (suc fuel) k r w h = elim (Option-cases (lookup ℕ_discrete r.expected r.buffer)) [
    | inl e ↦ rw (e, drain) h
    | inr (x, e) ↦
        rw (e, drain)
          (drain-IsHeld fuel k _
            (unfold after_delivery in
              delivered-Waits stream window r x _ w (w.genuine r.expected x e)
                (w.fits r.expected x e) (remaining stream window r w))
            (round x e h))
  ]
    where
      round :
          (x : Bytes)
          → lookup ℕ_discrete r.expected r.buffer ≡ some x
          → IsHeld k r
          → (k < wrap64 (r.expected + 1))
            ⊎ ((y : Bytes) × (lookup ℕ_discrete k (remove ℕ_discrete r.expected r.buffer) ≡ some y))
      round x e (inl past) = inl (omega (arith, w.fits r.expected x e))
      round x e (inr (y, q)) = elim (ℕ_discrete r.expected k) [
        | yes same ↦ inl (omega (arith, w.fits r.expected x e))
        | no n ↦ inr (y, lookup-remove_ne ℕ_discrete r.expected k r.buffer n ∙ q)
      ]

  inserted :
      (k seq : ℕ) (x : Bytes) (r : Inbound)
      → seq ≡ k
      → lookup ℕ_discrete k (insert ℕ_discrete seq x r.buffer) ≡ some x
  inserted k seq x r e =
      ap (λ j. lookup ℕ_discrete j (insert ℕ_discrete seq x r.buffer)) (sym e)
      ∙ lookup-insert_self ℕ_discrete seq x r.buffer

  insert-IsHeld :
      (k seq : ℕ) (x : Bytes) (r : Inbound)
      → (seq ≡ k) ⊎ IsHeld k r
      → IsHeld k (record r { buffer = insert ℕ_discrete seq x r.buffer })
  insert-IsHeld k seq x r (inl e) = inr (x, inserted k seq x r e)
  insert-IsHeld k seq x r (inr (inl past)) = inl past
  insert-IsHeld k seq x r (inr (inr (y, q))) = elim (ℕ_discrete seq k) [
    | yes e ↦ inr (x, inserted k seq x r e)
    | no n ↦ inr (y, lookup-insert_ne ℕ_discrete seq k x r.buffer n ∙ q)
  ]

  deliver-IsHeld :
      (k : ℕ) (x : Bytes) (r : Inbound)
      → IsOrdered stream window r
      → IsFrame stream (r.expected, x)
      → (r.expected ≡ k) ⊎ IsHeld k r
      → IsHeld k (drain (length r.buffer) (after_delivery r x r.buffer))
  unfolding after_delivery
  deliver-IsHeld k x r w frame h =
      drain-IsHeld (length r.buffer) k _
        (delivered-Waits stream window r x r.buffer (weaken stream window r w) frame.2 frame.1
          (λ j y q. (q, omega (arith, w.above j y q))))
        (next h)
    where
      next :
          (r.expected ≡ k) ⊎ IsHeld k r
          → (k < wrap64 (r.expected + 1)) ⊎ ((y : Bytes) × (lookup ℕ_discrete k r.buffer ≡ some y))
      next (inl e) = inl (omega (arith, frame.1))
      next (inr (inl past)) = inl (omega (arith, frame.1))
      next (inr (inr held)) = inr held

  near_or_IsHeld :
      (k seq : ℕ) (r : Inbound)
      → ((seq ≡ k) × (k < r.expected + window)) ⊎ IsHeld k r
      → (seq ≡ k) ⊎ IsHeld k r
  near_or_IsHeld k seq r (inl h) = inl h.0
  near_or_IsHeld k seq r (inr h) = inr h

  far-IsHeld :
      (k seq : ℕ) (r : Inbound)
      → (seq == r.expected) ≡ false
      → (ltb r.expected seq && ltb (seq - r.expected) window) ≡ false
      → ((seq ≡ k) × (k < r.expected + window)) ⊎ IsHeld k r
      → IsHeld k r
  far-IsHeld k seq r other far (inl h) = inl (ground (arith, h.0, h.1))
  far-IsHeld k seq r other far (inr h) = h

  -- A frame that arrives within the window is held, and so is what was held before.
  accept-IsHeld :
      (k seq : ℕ) (x : Bytes) (r : Inbound)
      → IsOrdered stream window r
      → IsFrame stream (seq, x)
      → ((seq ≡ k) × (k < r.expected + window)) ⊎ IsHeld k r
      → IsHeld k (accept_ordered window seq x r)
  unfolding accept_ordered
  accept-IsHeld k seq x r w frame h = elim (Bool-cases (seq == r.expected)) [
    | inl now ↦
        let e : seq ≡ r.expected = (==_iff _ _).0 now in
        rw (now, accept_ordered)
          (unfold after_delivery in
            deliver-IsHeld k x r w (w.first, omega (arith, frame.1), frame.2 ∙ ap stream e)
              (moved e (near_or_IsHeld k seq r h)))
    | inr other ↦ elim (Bool-cases (ltb r.expected seq && ltb (seq - r.expected) window)) [
      | inl near ↦
          rw (other, near, accept_ordered) (insert-IsHeld k seq x r (near_or_IsHeld k seq r h))
      | inr far ↦ rw (other, far, accept_ordered) (far-IsHeld k seq r other far h)
    ]
  ]
    where
      moved : seq ≡ r.expected → (seq ≡ k) ⊎ IsHeld k r → (r.expected ≡ k) ⊎ IsHeld k r
      moved e (inl q) = inl (sym e ∙ q)
      moved e (inr q) = inr q

  arrive-IsHeld :
      (k : ℕ) (frames : List Arrival) (r : Inbound)
      → k ≤ window
      → All (IsFrame stream) frames
      → IsOrdered stream window r
      → HasArrival k frames ⊎ IsHeld k r
      → IsHeld k (arrive window frames r)
  unfolding arrive
  arrive-IsHeld k [] r small h w (inl m) = absurd m
  arrive-IsHeld k [] r small h w (inr held) = held
  arrive-IsHeld k ((seq, x) ∷ frames) r small h w m =
      arrive-IsHeld k frames (accept_ordered window seq x r) small h.1
        (accept-IsOrdered stream window r seq x w h.0) (split m)
    where
      split :
          HasArrival k ((seq, x) ∷ frames) ⊎ IsHeld k r
          → HasArrival k frames ⊎ IsHeld k (accept_ordered window seq x r)
      split (inl (inl e)) = inr (accept-IsHeld k seq x r w h.0 (inl (e, omega (arith, w.first))))
      split (inl (inr later)) = inl later
      split (inr held) = inr (accept-IsHeld k seq x r w h.0 (inr held))

  held_expected : (r : Inbound) → IsOrdered stream window r → IsHeld r.expected r → ⊥
  held_expected r w (inl past) = omega (arith, past)
  held_expected r w (inr (x, e)) = omega (arith, w.above r.expected x e)

  -- Where all of the first `n` frames are held, all of them have been delivered.
  pub expected-IsHeld :
      (n : ℕ) (r : Inbound)
      → IsOrdered stream window r
      → ((k : ℕ) → 1 ≤ k → k ≤ n → IsHeld k r)
      → n < r.expected
  expected-IsHeld n r w held = elim (Bool-cases (ltb n r.expected)) [
    | inl past ↦ ltb→lt n r.expected past
    | inr not_yet ↦ absurd (held_expected r w (held r.expected w.first (ground arith)))
  ]

  pub arrive-expected :
      (n : ℕ) (frames : List Arrival) (r : Inbound)
      → n ≤ window
      → All (IsFrame stream) frames
      → IsOrdered stream window r
      → ((k : ℕ) → 1 ≤ k → k ≤ n → HasArrival k frames)
      → n < (arrive window frames r).expected
  arrive-expected n frames r small h w all =
      expected-IsHeld n _ (arrive-IsOrdered stream window frames r h w)
        (λ k pos le. arrive-IsHeld k frames r (omega arith) h w (inl (all k pos le)))
