-- ===== src/Tests/Texts.antt =====
-- The functions on texts at concrete inputs.
use turntf_rs.Prelude.{◌≡◌, refl, [], ◌∷◌}
use turntf_rs.Utf8.{from_utf8_lossy}
use turntf_rs.Validation.{trim}

trim_test : trim "  a b\n" ≡ "a b"
unfolding trim
trim_test = refl

-- A whole three-byte character, then one that is cut off.
lossy_test : from_utf8_lossy (0x68 ∷ 0xe4 ∷ 0xbd ∷ 0xa0 ∷ 0xe4 ∷ 0xbd ∷ 0x21 ∷ []) ≡ "h你�!"
unfolding from_utf8_lossy
lossy_test = refl
