-- ===== src/Validation/Keys.antt =====
-- Which keys, key fragments and limits of user metadata src/validation.rs accepts.
use Prim.Native.Char.{Char, code}
use Prim.Native.String.{[], ◌∷◌}
use turntf_rs.Prelude.{
  ℕ, ◌⊎◌, ℤ, pos, negsuc, String, ◌≡◌, refl, ◌↔◌, ◌≢◌, ◌≤◌, ◌≤ℤ◌, ltb_ℤ, ltb, Bool, true, false, ok,
  str_eq, eq_iff, arith, Bool-cases, inl, inr,
}
use turntf_rs.Utf8.{len}
use turntf_rs.Validation.Metadata.{
  is_key_char, check_chars, validate_user_metadata_key_fragment, validate_user_metadata_key,
  validate_user_metadata_scan_limit,
}
use turntf_rs.Validation.Sound.{guard_ok, pass_ok}

-- a letter or a digit of ASCII
abbrev pub IsAlphanumeric : ℕ → Type 0
IsAlphanumeric n = ((97 ≤ n) × (n ≤ 122)) ⊎ (((65 ≤ n) × (n ≤ 90)) ⊎ ((48 ≤ n) × (n ≤ 57)))

-- a dot, an underscore, a colon or a hyphen
abbrev pub IsPunctuation : ℕ → Type 0
IsPunctuation n = (n ≡ 46) ⊎ ((n ≡ 95) ⊎ ((n ≡ 58) ⊎ (n ≡ 45)))

-- Every character is a letter or a digit of ASCII or one of the four others.
abbrev pub HasKeyChars : String → Type 0
HasKeyChars [] = Unit {0}
HasKeyChars (c ∷ s) = (IsAlphanumeric (code c) ⊎ IsPunctuation (code c)) × HasKeyChars s

is_key_char_lem : (n : ℕ) → is_key_char n ≡ true → IsAlphanumeric n ⊎ IsPunctuation n
is_key_char_lem n h = ground arith

key_char_allowed : (n : ℕ) → IsAlphanumeric n ⊎ IsPunctuation n → is_key_char n ≡ true
key_char_allowed n h = ground arith

abbrev pub IsFragment : String → Type 0
IsFragment s = HasKeyChars s × (len s ≤ 128)

abbrev pub IsKey : String → Type 0
IsKey s = (s ≢ "") × IsFragment s

abbrev pub IsScanLimit : ℤ → Type 0
IsScanLimit limit = (pos 0 ≤ℤ limit) × (limit ≤ℤ pos 1000)

pub validate_user_metadata_scan_limit-IsScanLimit :
    (limit : ℤ) → validate_user_metadata_scan_limit limit ≡ ok tt → IsScanLimit limit
unfolding validate_user_metadata_scan_limit
validate_user_metadata_scan_limit-IsScanLimit (pos n) e =
    let (_, rest) = guard_ok (ltb_ℤ (pos n) (pos 0)) _ _ tt e in
    let (small, _) = guard_ok (ltb_ℤ (pos 1000) (pos n)) _ _ tt rest in (ground arith, ground arith)
validate_user_metadata_scan_limit-IsScanLimit (negsuc n) e = absurd (ground arith)

within : (s : String) → ltb 128 (len s) ≡ false → len s ≤ 128
within s h = ground arith

not_empty : (s : String) → s ≢ "" → str_eq s "" ≡ false
not_empty s h = elim (Bool-cases (str_eq s "")) [
  | inl empty ↦ absurd (h ((eq_iff s "").0 empty))
  | inr filled ↦ filled
]

not_long : (s : String) → len s ≤ 128 → ltb 128 (len s) ≡ false
not_long s h = ground arith

module _ (debug_char : Char → String) (field : String) where
  chars-HasKeyChars : (s : String) → check_chars debug_char field s ≡ ok tt → HasKeyChars s
  unfolding check_chars
  chars-HasKeyChars [] e = tt
  chars-HasKeyChars (c ∷ s) e =
      let (allowed, rest) = pass_ok (is_key_char (code c)) _ _ tt e in
      (is_key_char_lem (code c) allowed, chars-HasKeyChars s rest)

  check_chars_lem : (s : String) → HasKeyChars s → check_chars debug_char field s ≡ ok tt
  unfolding check_chars
  check_chars_lem [] h = refl
  check_chars_lem (c ∷ s) h = rw (key_char_allowed (code c) h.0) (check_chars_lem s h.1)

  pub validate_user_metadata_key_fragment-IsFragment :
      (s : String) (allow_empty : Bool)
      → validate_user_metadata_key_fragment debug_char s field allow_empty ≡ ok tt
      → IsFragment s
  unfolding validate_user_metadata_key_fragment len
  validate_user_metadata_key_fragment-IsFragment s allow_empty e = elim (Bool-cases (str_eq s "")) [
    | inl empty ↦ rw ((eq_iff s "").0 empty) (tt, ground arith)
    | inr filled ↦
        let long = guard_ok (ltb 128 (len s)) _ _ tt (rw filled at e) in
        (chars-HasKeyChars s long.1, within s long.0)
  ]

  -- A key of user metadata passes the check exactly if it is not empty, has at most 128 bytes, and
  -- consists of ASCII letters, digits, dots, underscores, colons and hyphens.
  pub validate_user_metadata_key-IsKey :
      (s : String) → (validate_user_metadata_key debug_char s field ≡ ok tt) ↔ IsKey s
  unfolding validate_user_metadata_key validate_user_metadata_key_fragment
  validate_user_metadata_key-IsKey s = (
    λ e. (
      λ empty. absurd (cc (rw empty at e)),
      validate_user_metadata_key_fragment-IsFragment s false e,
    ),
    λ h. rw (not_empty s h.0, not_long s h.1.1) (check_chars_lem s h.1.0),
  )
