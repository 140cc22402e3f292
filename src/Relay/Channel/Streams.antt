-- ===== src/Relay/Channel/Streams.antt =====
-- The payloads of a list, numbered from 1, as the stream of src/relay.rs that a receiver delivers.
use turntf_rs.Prelude.{
  ℕ, zero, suc, ◌≤◌, ◌<◌, ◌≡◌, refl, sym, ap, ◌∙◌, List, [], ◌∷◌, ◌++◌, some, length, length-append,
  get_elem?, get_elem?-append_end, get_elem?-append_old, arith, ℕ_discrete,
}
use turntf_rs.Types.{Bytes}
use turntf_rs.Relay.Ordering.{before}

abbrev pub get_or : Bytes → List Bytes → ℕ → Bytes
get_or d [] j = d
get_or d (x ∷ xs) zero = x
get_or d (x ∷ xs) (suc j) = get_or d xs j

-- The payload of each number, `d` where there is none.
abbrev pub stream_of : Bytes → List Bytes → ℕ → Bytes
stream_of d xs zero = d
stream_of d xs (suc j) = get_or d xs j

abbrev pub IsPrefix : List Bytes → List Bytes → Type 0
IsPrefix xs ys = (rest : List Bytes) × (ys ≡ xs ++ rest)

pub get_or-get_elem? :
    (d : Bytes) (xs : List Bytes) (j : ℕ) (p : Bytes) → get_elem? xs j ≡ some p → p ≡ get_or d xs j
get_or-get_elem? d [] j p e = absurd (cc e)
get_or-get_elem? d (x ∷ xs) zero p e = cc e
get_or-get_elem? d (x ∷ xs) (suc j) p e = get_or-get_elem? d xs j p e

pub get_or-past : (d : Bytes) (xs : List Bytes) (j : ℕ) → length xs ≤ j → get_or d xs j ≡ d
get_or-past d [] j h = refl
get_or-past d (x ∷ xs) zero h = absurd (omega arith)
get_or-past d (x ∷ xs) (suc j) h = get_or-past d xs j (omega arith)

before_ext : (s t : ℕ → Bytes) (n : ℕ) → ((k : ℕ) → s (suc k) ≡ t (suc k)) → before s n ≡ before t n
before_ext s t zero h = refl
before_ext s t (suc zero) h = refl
before_ext s t (suc (suc n)) h = λ i. before_ext s t (suc n) h i ++ h n i ∷ []

before_cons :
    (s : ℕ → Bytes) (n : ℕ) → before s (suc (suc n)) ≡ s 1 ∷ before (λ k. s (suc k)) (suc n)
before_cons s zero = refl
before_cons s (suc n) = ap (λ xs. xs ++ s (suc (suc n)) ∷ []) (before_cons s n)

-- The first payloads of the stream are the first of the list, as far as it goes.
pub before-IsPrefix :
    (d : Bytes) (xs : List Bytes) (m : ℕ)
    → m ≤ length xs
    → IsPrefix (before (stream_of d xs) (suc m)) xs
before-IsPrefix d xs zero h = (xs, refl)
before-IsPrefix d [] (suc m) h = absurd (omega arith)
before-IsPrefix d (x ∷ xs) (suc m) h =
    let (rest, e) = before-IsPrefix d xs m (omega arith) in
    (
      rest,
      ap (λ ys. x ∷ ys)
            (e
              ∙ ap (λ ys. ys ++ rest)
                  (before_ext (stream_of d xs) (λ k. get_or d (x ∷ xs) k) (suc m) (λ k. refl)))
          ∙ ap (λ ys. ys ++ rest) (sym (before_cons (stream_of d (x ∷ xs)) m)),
    )

length-before : (s : ℕ → Bytes) (n : ℕ) → length (before s (suc n)) ≡ n
length-before s zero = refl
length-before s (suc n) =
    length-append (before s (suc n)) (s (suc n) ∷ []) ∙ omega (arith, length-before s n)

get_elem?-before :
    (s : ℕ → Bytes) (n k : ℕ) → suc k < n → get_elem? (before s n) k ≡ some (s (suc k))
get_elem?-before s zero k h = absurd (omega arith)
get_elem?-before s (suc zero) k h = absurd (omega arith)
get_elem?-before s (suc (suc n)) k h = elim (ℕ_discrete k n) [
  | yes last ↦
      let at_end = get_elem?-append_end (before s (suc n)) (s (suc n)) in
      cc (at_end, length-before s n, last)
  | no other ↦
      get_elem?-append_old (before s (suc n)) (s (suc n)) (s (suc k)) k
        (get_elem?-before s (suc n) k (omega arith))
]

-- Streams with the same first payloads agree on each of these.
pub before-agree :
    (s t : ℕ → Bytes) (n k : ℕ) → before s n ≡ before t n → suc k < n → s (suc k) ≡ t (suc k)
before-agree s t n k e h = cc (get_elem?-before s n k h, get_elem?-before t n k h, e)
