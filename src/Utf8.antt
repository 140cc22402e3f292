-- ===== src/Utf8.antt =====
-- Texts and their bytes, for src/relay.rs, which reads the payload of an ERROR frame as a text, and
-- src/validation.rs. Bytes that are no UTF-8 become U+FFFD, one for each longest beginning of a
-- character.
use Prim.Native.Char.{code}
use Prim.Native.String.{◌∷◌ as ◌⸬◌, [] as empty}
use turntf_rs.Prelude.{
  ℕ, ◌+◌, ◌-◌, ◌*◌, ◌/◌, ◌%◌, Option, none, some, length, String, List, [], ◌∷◌, ◌++◌, ltb, leb,
  ◌==◌, Bool, true, false, ◌&&◌, if◌then◌else◌,
}
use turntf_rs.Prelude.Scalars.{from_code}
use turntf_rs.Types.{Bytes}

-- Between two characters, or inside one: the number so far, how many bytes are missing, and the
-- bounds of the next.
pub data Progress : Type 0 where
  between : Progress
  inside : ℕ → ℕ → ℕ → ℕ → Progress

replacement : ℕ
replacement = 0xfffd

-- What a byte yields between two characters.
lead : ℕ → List ℕ × Progress
unfolding replacement
lead b =
    if ltb b 0x80
    then (b ∷ [], between)
    else if leb 0xc2 b && leb b 0xdf
    then ([], inside (b - 0xc0) 1 0x80 0xbf)
    else if b == 0xe0
    then ([], inside 0 2 0xa0 0xbf)
    else if b == 0xed
    then ([], inside 0xd 2 0x80 0x9f)
    else if leb 0xe1 b && leb b 0xef
    then ([], inside (b - 0xe0) 2 0x80 0xbf)
    else if b == 0xf0
    then ([], inside 0 3 0x90 0xbf)
    else if leb 0xf1 b && leb b 0xf3
    then ([], inside (b - 0xf0) 3 0x80 0xbf)
    else if b == 0xf4
    then ([], inside 4 3 0x80 0x8f)
    else (replacement ∷ [], between)

-- A byte that continues a character that misses `need` bytes.
continued : ℕ → ℕ → List ℕ × Progress
continued number need =
    if need == 1 then (number ∷ [], between) else ([], inside number (need - 1) 0x80 0xbf)

cut : List ℕ × Progress → List ℕ × Progress
unfolding replacement
cut (out, p) = (replacement ∷ out, p)

read_byte : Progress → ℕ → List ℕ × Progress
unfolding lead continued cut
read_byte between b = lead b
read_byte (inside number need low high) b =
    if leb low b && leb b high then continued (number * 64 + (b - 0x80)) need else cut (lead b)

read_bytes : Progress → Bytes → List ℕ
unfolding read_byte
read_bytes between [] = []
read_bytes (inside _ _ _ _) [] = replacement ∷ []
read_bytes p (b ∷ bs) = let (out, p') = read_byte p b in out ++ read_bytes p' bs

to_text : List ℕ → String
unfolding from_code
to_text [] = empty
to_text (n ∷ ns) = from_code n ⸬ to_text ns

unfoldable pub from_utf8_lossy : Bytes → String
unfolding to_text read_bytes
from_utf8_lossy bytes = to_text (read_bytes between bytes)

-- The UTF-8 bytes of a code point.
encode_code : ℕ → Bytes
encode_code n =
    if ltb n 0x80
    then n ∷ []
    else if ltb n 0x800
    then (0xc0 + n / 64) ∷ (0x80 + n % 64) ∷ []
    else if ltb n 0x10000
    then (0xe0 + n / 4096) ∷ (0x80 + n / 64 % 64) ∷ (0x80 + n % 64) ∷ []
    else (0xf0 + n / 262144) ∷ (0x80 + n / 4096 % 64) ∷ (0x80 + n / 64 % 64) ∷ (0x80 + n % 64) ∷ []

encode_codes : List ℕ → Bytes
unfolding encode_code
encode_codes [] = []
encode_codes (n ∷ ns) = encode_code n ++ encode_codes ns

-- `str::len`: how many bytes a text has.
unfoldable pub len : String → ℕ
unfolding encode_code
len empty = 0
len (c ⸬ s) = length (encode_code (code c)) + len s

same : Bytes → Bytes → Bool
same [] [] = true
same [] (b ∷ bs) = false
same (a ∷ xs) [] = false
same (a ∷ xs) (b ∷ bs) = a == b && same xs bs

-- `str::from_utf8`: bytes are UTF-8 if none is replaced, so that the text's bytes are the same.
unfoldable pub from_utf8 : Bytes → Option String
unfolding read_bytes same encode_codes to_text
from_utf8 bytes =
    let ns = read_bytes between bytes in
    if same (encode_codes ns) bytes then some (to_text ns) else none
