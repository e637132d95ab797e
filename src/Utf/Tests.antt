-- ===== src/Utf/Tests.antt =====
-- The character conversions on concrete inputs.
use rpatk.Base.{ℕ, ◌≤◌, ◌<◌, ◌≡◌, ◌⊎◌, ◌↔◌, refl, List, [], ◌∷◌, length}
use rpatk.Utf.{
  utf8_mbtowc, utf8_wctomb, utf16_wctomb, put_one, put_two, put_three, trail_byte, utf8_three,
}
use rpatk.Utf.Utf8.{mbtowc_advance}
use rpatk.Utf.Utf16.{wctomb-nil}

abbrev euro_sign : ℕ
euro_sign = 0x20ac

abbrev euro_bytes : List ℕ
euro_bytes = 0xe2 ∷ 0x82 ∷ 0xac ∷ []

euro_encodes : utf8_wctomb euro_sign 4 ≡ euro_bytes
unfolding utf8_wctomb put_three put_two put_one trail_byte
euro_encodes = refl

-- a second byte that is no trail byte: the first byte stands for itself
malformed : utf8_mbtowc (0xe2 ∷ 0x20 ∷ 0xac ∷ []) ≡ (0xe2, 1)
unfolding utf8_mbtowc utf8_three
malformed = refl

mbtowc_advance_example :
    ((utf8_mbtowc euro_bytes).1 ≤ length euro_bytes)
    × (((utf8_mbtowc euro_bytes).1 ≡ 0) ↔ (euro_bytes ≡ []))
    × ((utf8_mbtowc euro_bytes).1 ≤ 4)
mbtowc_advance_example = mbtowc_advance euro_bytes

abbrev surrogate : ℕ
surrogate = 0xd800

wctomb-nil_example : (utf16_wctomb surrogate 4 ≡ []) ↔ (
    ((0xd800 ≤ surrogate) × (surrogate < 0xe000))
    ⊎ ((0x10ffff < surrogate) ⊎ ((4 < 2) ⊎ ((0x10000 ≤ surrogate) × (4 < 4)))))
wctomb-nil_example = wctomb-nil surrogate 4
