-- ===== src/Relay/Window.antt =====
-- The sender's window in src/relay.rs: which frames are kept for retransmission, and how many.
pub mod Steps
pub mod Runs
use turntf_rs.Prelude.{
  ◌-◌, ltb, ◌&&◌, leb, ltb→lt, Bool-cases, ℕ, zero, suc, ◌+◌, ◌^◌, ◌≤◌, ◌<◌, ◌≡◌, refl, sym, ap,
  ◌∙◌, ◌⊎◌, inl, inr, none, some, arith, ℕ_discrete,
}
use turntf_rs.Prelude.Dict.{
  Dict, lookup, insert, remove, lookup-insert_self, lookup-insert_ne, lookup-remove_self,
  lookup-remove_ne,
}
use turntf_rs.Relay.Connection.{Connection, UnackedFrame, wrap64}
use turntf_rs.Relay.Handlers.{remove_range}

-- The part of a connection that the window is about.
pub record Outbound : Type 0 where
  pub base : ℕ
  pub next : ℕ
  pub frames : Dict ℕ UnackedFrame
  pub window : ℕ

abbrev pub outbound : Connection → Outbound
outbound c = record {
  base = c.send_base;
  next = c.next_seq;
  frames = c.unacked;
  window = c.config.window_size;
}

abbrev pub IsKept : ℕ → Dict ℕ UnackedFrame → Type 0
IsKept k m = (f : UnackedFrame) × (lookup ℕ_discrete k m ≡ some f)

-- The frames from `base` up to `next` are in flight, at most a window of them, and exactly these
-- are kept.
pub record IsWindowed (o : Outbound) : Type 0 where
  pub ordered : o.base ≤ o.next
  pub fits : o.next < 2 ^ 64
  pub flight : o.next ≤ o.base + o.window
  pub kept : (k : ℕ) → o.base ≤ k → k < o.next → IsKept k o.frames
  pub only : (k : ℕ) → IsKept k o.frames → (o.base ≤ k) × (k < o.next)

pub insert-IsKept :
    (k j : ℕ) (f : UnackedFrame) (m : Dict ℕ UnackedFrame)
    → (j ≡ k) ⊎ IsKept k m
    → IsKept k (insert ℕ_discrete j f m)
insert-IsKept k j f m h = elim (ℕ_discrete j k) [
  | yes e ↦ (
    f,
    ap (λ i. lookup ℕ_discrete i (insert ℕ_discrete j f m)) (sym e)
        ∙ lookup-insert_self ℕ_discrete j f m,
  )
  | no n ↦ old n h
]
  where
    old : (j ≡ k → ⊥) → (j ≡ k) ⊎ IsKept k m → IsKept k (insert ℕ_discrete j f m)
    old n (inl e) = absurd (n e)
    old n (inr (g, e)) = (g, lookup-insert_ne ℕ_discrete j k f m n ∙ e)

pub IsKept-insert :
    (k j : ℕ) (f : UnackedFrame) (m : Dict ℕ UnackedFrame)
    → IsKept k (insert ℕ_discrete j f m)
    → (j ≡ k) ⊎ IsKept k m
IsKept-insert k j f m (g, h) = elim (ℕ_discrete j k) [
  | yes e ↦ inl e
  | no n ↦ inr (g, sym (lookup-insert_ne ℕ_discrete j k f m n) ∙ h)
]

-- What the acknowledgement loop removes, and what it leaves.
pub lookup-remove_range :
    (n base k : ℕ) (m : Dict ℕ UnackedFrame)
    → (base ≤ k → base + n ≤ k)
    → lookup ℕ_discrete k (remove_range base n m) ≡ lookup ℕ_discrete k m
unfolding remove_range
lookup-remove_range zero base k m h = refl
lookup-remove_range (suc n) base k m h =
    lookup-remove_range n (base + 1) k (remove ℕ_discrete base m)
      (λ le. omega (arith, h (omega arith)))
    ∙ lookup-remove_ne ℕ_discrete base k m (λ e. omega (arith, h (omega arith)))

pub lookup-remove_range_in :
    (n base k : ℕ) (m : Dict ℕ UnackedFrame)
    → base ≤ k
    → k < base + n
    → lookup ℕ_discrete k (remove_range base n m) ≡ none
unfolding remove_range
lookup-remove_range_in zero base k m low high = absurd (omega arith)
lookup-remove_range_in (suc n) base k m low high = elim (ℕ_discrete base k) [
  | yes e ↦
      lookup-remove_range n (base + 1) k (remove ℕ_discrete base m) (λ le. absurd (omega arith))
      ∙ ap (λ j. lookup ℕ_discrete j (remove ℕ_discrete base m)) (sym e)
      ∙ lookup-remove_self ℕ_discrete base m
  | no n' ↦
      lookup-remove_range_in n (base + 1) k (remove ℕ_discrete base m) (omega arith) (omega arith)
]

-- A new frame takes the next number.
pub push-IsWindowed :
    (o : Outbound) (f : UnackedFrame)
    → o.next < o.base + o.window
    → o.next + 1 < 2 ^ 64
    → IsWindowed o
    → IsWindowed
        (record o { next = wrap64 (o.next + 1); frames = insert ℕ_discrete o.next f o.frames })
push-IsWindowed o f open_ room w = record {
  ordered = omega (arith, w.ordered);
  fits = omega arith;
  flight = omega arith;
  kept = λ k low high. insert-IsKept k o.next f o.frames (split k low high);
  only = λ k h. bounds k (IsKept-insert k o.next f o.frames h);
}
  where
    split : (k : ℕ) → o.base ≤ k → k < wrap64 (o.next + 1) → (o.next ≡ k) ⊎ IsKept k o.frames
    split k low high = elim (ℕ_discrete o.next k) [
      | yes e ↦ inl e
      | no n ↦ inr (w.kept k low (omega arith))
    ]

    bounds : (k : ℕ) → (o.next ≡ k) ⊎ IsKept k o.frames → (o.base ≤ k) × (k < wrap64 (o.next + 1))
    bounds k (inl e) = (omega (arith, w.ordered), omega arith)
    bounds k (inr h) = let b = w.only k h in (b.0, omega (arith, b.1))

-- An acknowledgement of a frame in flight frees everything up to it.
pub ack-IsWindowed :
    (o : Outbound) (ack_seq : ℕ)
    → o.base ≤ ack_seq
    → ack_seq < o.next
    → IsWindowed o
    → IsWindowed (record o {
      base = wrap64 (ack_seq + 1);
      frames = remove_range o.base (ack_seq + 1 - o.base) o.frames;
    })
ack-IsWindowed o ack_seq low high w =
    let room : ack_seq + 1 < 2 ^ 64 = omega (arith, w.fits) in
    record {
      ordered = omega arith;
      fits = w.fits;
      flight = omega (arith, w.flight);
      kept = λ k above lt.
          let (f, e) = w.kept k (omega arith) lt in
          (f, lookup-remove_range (ack_seq + 1 - o.base) o.base k o.frames (λ _. omega arith) ∙ e);
      only = λ k h. left k h;
    }
  where
    left :
        (k : ℕ)
        → IsKept k (remove_range o.base (ack_seq + 1 - o.base) o.frames)
        → (wrap64 (ack_seq + 1) ≤ k) × (k < o.next)
    left k (f, e) = elim (Bool-cases (leb o.base k && ltb k (ack_seq + 1))) [
      | inl in_range ↦ absurd (
          cc (
            e,
            lookup-remove_range_in (ack_seq + 1 - o.base) o.base k o.frames (ground arith)
                (ground arith),
          ))
      | inr out ↦
          let old = w.only k (
            f,
            sym (
                  lookup-remove_range (ack_seq + 1 - o.base) o.base k o.frames
                    (λ (le : o.base ≤ k). ground arith))
                ∙ e,
          ) in
          (ground (arith, old.0, old.1, w.fits), old.1)
    ]

-- Replacing a kept frame changes nothing about the window.
pub replace-IsWindowed :
    (o : Outbound) (seq : ℕ) (f g : UnackedFrame)
    → lookup ℕ_discrete seq o.frames ≡ some f
    → IsWindowed o
    → IsWindowed (record o { frames = insert ℕ_discrete seq g o.frames })
replace-IsWindowed o seq f g e w = record {
  ordered = w.ordered;
  fits = w.fits;
  flight = w.flight;
  kept = λ k low high. insert-IsKept k seq g o.frames (inr (w.kept k low high));
  only = λ k h. back k (IsKept-insert k seq g o.frames h);
}
  where
    back : (k : ℕ) → (seq ≡ k) ⊎ IsKept k o.frames → (o.base ≤ k) × (k < o.next)
    back k (inl q) = let b = w.only seq (f, e) in (omega (arith, b.0), omega (arith, b.1))
    back k (inr h) = w.only k h
