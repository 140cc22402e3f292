-- ===== src/Validation/Text.antt =====
-- `str::trim` and the two normalisations that src/validation.rs builds on it. A text is taken apart
-- into its characters and put together again.
use Prim.Native.Char.{Char, code}
use Prim.Native.String.{[], ◌∷◌}
use mathlib.Core.List.{List, ◌∷◌ as ◌⸬◌, [] as nil}
use turntf_rs.Prelude.{
  ℕ, String, ◌≡◌, refl, ap, Bool, ◌&&◌, ◌||◌, Option, none, some, leb, ◌==◌, str_eq, if◌then◌else◌,
}

abbrev pub to_list : String → List Char
to_list [] = nil
to_list (c ∷ s) = c ⸬ to_list s

abbrev pub of_list : List Char → String
of_list nil = []
of_list (c ⸬ cs) = c ∷ of_list cs

pub to_list-of_list : (cs : List Char) → to_list (of_list cs) ≡ cs
to_list-of_list nil = refl
to_list-of_list (c ⸬ cs) = ap (◌⸬◌ c) (to_list-of_list cs)

-- `char::is_whitespace`: the code points with the Unicode property White_Space.
unfoldable pub is_whitespace : ℕ → Bool
is_whitespace c =
    leb 9 c && leb c 13
    || c == 32
    || c == 0x85
    || c == 0xa0
    || c == 0x1680
    || leb 0x2000 c && leb c 0x200a
    || c == 0x2028
    || c == 0x2029
    || c == 0x202f
    || c == 0x205f
    || c == 0x3000

module _ {ℓ} {A : Type ℓ} (blank : A → Bool) where
  -- `trim_start`
  unfoldable pub drop_blank : List A → List A
  drop_blank nil = nil
  drop_blank (c ⸬ cs) = let rest = drop_blank cs in if blank c then rest else c ⸬ cs

  -- An element stays if it is not blank or something after it stays.
  keep_end : A → List A → List A
  keep_end c nil = if blank c then nil else c ⸬ nil
  keep_end c (d ⸬ ds) = c ⸬ d ⸬ ds

  -- `trim_end`
  unfoldable pub drop_blank_end : List A → List A
  unfolding keep_end
  drop_blank_end nil = nil
  drop_blank_end (c ⸬ cs) = keep_end c (drop_blank_end cs)

  unfoldable pub trim_list : List A → List A
  unfolding drop_blank drop_blank_end
  trim_list cs = drop_blank_end (drop_blank cs)

abbrev pub blank_char : Char → Bool
blank_char c = is_whitespace (code c)

-- `str::trim`
unfoldable pub trim : String → String
unfolding trim_list is_whitespace
trim s = of_list (trim_list blank_char (to_list s))

-- `normalize_login_name`
unfoldable pub normalize_login_name : String → String
unfolding trim
normalize_login_name value = trim value

-- `normalize_optional_filter`
unfoldable pub normalize_optional_filter : String → Option String
unfolding trim
normalize_optional_filter value =
    let trimmed = trim value in if str_eq trimmed "" then none else some trimmed
