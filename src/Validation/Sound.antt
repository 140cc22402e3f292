-- ===== src/Validation/Sound.antt =====
-- What the checks of src/validation.rs accept, without the checks.

use turntf_rs.Prelude.{
  ℤ, pos, negsuc, String, ◌≡◌, refl, ◌≢◌, ◌≤ℤ◌, leb_ℤ, Bool, true, false, ◌⊎◌, inl, inr, Result, ok,
  err, ◌>>=◌, if◌then◌else◌, str_eq, eq_iff, arith,
}
use turntf_rs.Errors.{Fallible}
use turntf_rs.Types.{UserRef, SessionRef}
use turntf_rs.Validation.Text.{trim}
use turntf_rs.Validation.Refs.{
  validate_positive_i64, validate_user_ref, validate_optional_user_ref, validate_session_ref,
}

abbrev pub IsPositive : ℤ → Type 0
IsPositive value = pos 1 ≤ℤ value

abbrev pub IsUserRef : UserRef → Type 0
IsUserRef value = IsPositive value.node_id × IsPositive value.user_id

abbrev pub IsSessionRef : SessionRef → Type 0
unfolding trim
IsSessionRef value = IsPositive value.serving_node_id × (trim value.session_id ≢ "")

-- A chain that succeeds: its first step does, and then the rest.
pub bind_ok {ℓ κ ι} :
    {E : Type ℓ} {A : Type κ} {B : Type ι} (m : Result E A) (f : A → Result E B) (b : B)
    → (m >>= f) ≡ ok b
    → (a : A) × (m ≡ ok a) × (f a ≡ ok b)
bind_ok (ok a) f b e = (a, refl, e)
bind_ok (err x) f b e = absurd (cc e)

pub guard_ok {ℓ κ} :
    {E : Type ℓ} {A : Type κ} (t : Bool) (x : E) (r : Result E A) (a : A)
    → (if t then err x else r) ≡ ok a
    → (t ≡ false) × (r ≡ ok a)
guard_ok true x r a e = absurd (cc e)
guard_ok false x r a e = (refl, e)

pub pass_ok {ℓ κ} :
    {E : Type ℓ} {A : Type κ} (t : Bool) (x : E) (r : Result E A) (a : A)
    → (if t then r else err x) ≡ ok a
    → (t ≡ true) × (r ≡ ok a)
pass_ok true x r a e = (refl, e)
pass_ok false x r a e = absurd (cc e)

pub leb-IsPositive : (value : ℤ) → leb_ℤ value (pos 0) ≡ false → IsPositive value
leb-IsPositive (pos n) h = ground arith
leb-IsPositive (negsuc n) h = ground arith

pub validate_positive_i64-IsPositive :
    (value : ℤ) (field : String) → validate_positive_i64 value field ≡ ok tt → IsPositive value
unfolding validate_positive_i64
validate_positive_i64-IsPositive value field e =
    leb-IsPositive value (guard_ok (leb_ℤ value (pos 0)) _ _ tt e).0

pub user_ref-IsUserRef :
    (value : UserRef) (field : String) → validate_user_ref value field ≡ ok tt → IsUserRef value
unfolding validate_user_ref
user_ref-IsUserRef value field e =
    let (_, node, rest) = bind_ok (validate_positive_i64 value.node_id _) _ tt e in
    let (_, user, _) = bind_ok (validate_positive_i64 value.user_id _) _ tt rest in
    (
      validate_positive_i64-IsPositive value.node_id _ node,
      validate_positive_i64-IsPositive value.user_id _ user,
    )

zero_or :
    (value : UserRef) (t : Bool) (has : Bool) (field : String) (r : Fallible (Unit {0}))
    → (if t then ok false else (r >>= λ _. ok true)) ≡ ok has
    → (r ≡ ok tt → IsUserRef value)
    → (has ≡ false) ⊎ IsUserRef value
zero_or value true has field r e h = inl (cc e)
zero_or value false has field (ok _) e h = inr (h refl)
zero_or value false has field (err x) e h = absurd (cc e)

-- A reference that passes as an optional one is absent or valid.
pub optional_ref-IsUserRef :
    (value : UserRef) (field : String) (has : Bool)
    → validate_optional_user_ref value field ≡ ok has
    → (has ≡ false) ⊎ IsUserRef value
unfolding validate_optional_user_ref
optional_ref-IsUserRef value field has e =
    zero_or value _ has field (validate_user_ref value field) e (user_ref-IsUserRef value field)

pub session_ref-IsSessionRef :
    (value : SessionRef) (field : String)
    → validate_session_ref value field ≡ ok tt
    → IsSessionRef value
unfolding validate_session_ref
session_ref-IsSessionRef value field e =
    let (_, node, rest) = bind_ok (validate_positive_i64 value.serving_node_id _) _ tt e in
    let (blank, _) = guard_ok (str_eq (trim value.session_id) "") _ _ tt rest in
    (
      validate_positive_i64-IsPositive value.serving_node_id _ node,
      λ empty. cc ((eq_iff (trim value.session_id) "").1 empty, blank),
    )
