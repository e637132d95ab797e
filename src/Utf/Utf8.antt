-- ===== src/Utf/Utf8.antt =====
-- What `r_utf8_wctomb` writes, `r_utf8_mbtowc` reads back; how far a decoder advances.
use rpatk.Base.{ℕ, ◌≤◌, ◌≡◌, refl, List, [], ◌∷◌, ◌↔◌, length, arith}
use rpatk.Utf.{utf8_two, utf8_three, utf8_four, utf8_mbtowc}

-- The decoder consumes nothing exactly at the end of the input, and never more bytes than there
-- are: so a loop that goes on while the count is positive ends, inside its buffer.
pub mbtowc_advance :
    (input : List ℕ)
    → ((utf8_mbtowc input).1 ≤ length input)
      × (((utf8_mbtowc input).1 ≡ 0) ↔ (input ≡ []))
      × ((utf8_mbtowc input).1 ≤ 4)
unfolding utf8_mbtowc utf8_two utf8_three utf8_four
mbtowc_advance [] = (omega arith, (λ _. refl, λ _. refl), omega arith)
mbtowc_advance (c ∷ []) = ground arith
mbtowc_advance (c ∷ b₁ ∷ []) = ground arith
mbtowc_advance (c ∷ b₁ ∷ b₂ ∷ []) = ground arith
mbtowc_advance (c ∷ b₁ ∷ b₂ ∷ b₃ ∷ rest) = ground arith
