-- ===== src/Prelude/Scalars.antt =====
-- `char::from_u32`: a character from its number, U+0000 where there is none.
use Prim.Native.Nat.{ℕ, compare, Ordering}
use Prim.Native.Char.{Char, char, code, nul, IsScalar}
use mathlib.Core.Path.{◌≡◌, refl, subst}
use text.Mathlib.TextEquality.{Char-path}

not_scalar : (n : ℕ) → IsScalar n ≡ ⊥ → Dec (IsScalar n)
not_scalar n e = no (λ p. subst (λ (A : Type 0). A) e p)

scalar_by :
    (n : ℕ) (a b c : Ordering)
    → compare n 55296 ≡ a
    → compare 57343 n ≡ b
    → compare n 1114112 ≡ c
    → Dec (IsScalar n)
scalar_by n Ordering.lt b c e f g = yes (rw e tt)
scalar_by n Ordering.eq Ordering.lt Ordering.lt e f g = yes (rw (e, f, g) tt)
scalar_by n Ordering.gt Ordering.lt Ordering.lt e f g = yes (rw (e, f, g) tt)
scalar_by n Ordering.eq Ordering.lt Ordering.eq e f g = not_scalar n (rw (e, f, g) refl)
scalar_by n Ordering.eq Ordering.lt Ordering.gt e f g = not_scalar n (rw (e, f, g) refl)
scalar_by n Ordering.eq Ordering.eq c e f g = not_scalar n (rw (e, f) refl)
scalar_by n Ordering.eq Ordering.gt c e f g = not_scalar n (rw (e, f) refl)
scalar_by n Ordering.gt Ordering.lt Ordering.eq e f g = not_scalar n (rw (e, f, g) refl)
scalar_by n Ordering.gt Ordering.lt Ordering.gt e f g = not_scalar n (rw (e, f, g) refl)
scalar_by n Ordering.gt Ordering.eq c e f g = not_scalar n (rw (e, f) refl)
scalar_by n Ordering.gt Ordering.gt c e f g = not_scalar n (rw (e, f) refl)

is_scalar : (n : ℕ) → Dec (IsScalar n)
is_scalar n = scalar_by n (compare n 55296) (compare 57343 n) (compare n 1114112) refl refl refl

char_by : (n : ℕ) → Dec (IsScalar n) → Char
char_by n (yes p) = char n p
char_by n (no _) = nul

unfoldable pub from_code : ℕ → Char
unfolding char_by is_scalar scalar_by not_scalar
from_code n = char_by n (is_scalar n)

char_by_lem : (n : ℕ) (p : IsScalar n) (d : Dec (IsScalar n)) → char_by n d ≡ char n p
unfolding char_by
char_by_lem n p (yes q) = Char-path (char n q) (char n p) refl
char_by_lem n p (no h) = absurd (h p)

pub from_code-code : (c : Char) → from_code (code c) ≡ c
unfolding from_code
from_code-code (char n p) = char_by_lem n p (is_scalar n)
