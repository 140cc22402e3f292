-- ===== src/Prelude/Texts.antt =====
-- Texts: equality is decided, and they are ordered by their bytes, as `str` is.
use Prim.Native.Nat.{Ordering}
use Prim.Native.String.{String, compare}
use mathlib.Core.Path.{◌≡◌, refl}
use mathlib.Core.Bool.{Bool, true, false}
use text.Mathlib.Text.{◌==◌ as str_eq}
use text.Mathlib.TextEquality.{eq_iff}
use text.Mathlib.TextPositions.{compare_refl}

decided : (s t : String) (b : Bool) → str_eq s t ≡ b → Dec (s ≡ t)
decided s t true e = yes ((eq_iff s t).0 e)
decided s t false e = no (λ p. cc ((eq_iff s t).1 p, e))

unfoldable pub String_discrete : Discrete String
unfolding decided
String_discrete s t = decided s t (str_eq s t) refl

is_less : Ordering → Bool
is_less Ordering.lt = true
is_less Ordering.eq = false
is_less Ordering.gt = false

-- `<` on `String`
unfoldable pub str_lt : String → String → Bool
unfolding is_less
str_lt s t = is_less (compare s t)

-- No text is less than itself.
pub str_lt_irrefl : (s t : String) → s ≡ t → str_lt s t ≡ false
unfolding str_lt
str_lt_irrefl s t e = rw (e, compare_refl t) refl
