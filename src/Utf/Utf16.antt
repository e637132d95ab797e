-- ===== src/Utf/Utf16.antt =====
-- What `r_utf16_wctomb` writes, `r_utf16_mbtowc` reads back.
use rpatk.Base.{ℕ, ◌<◌, ◌≤◌, ◌≡◌, ◌⊎◌, ◌↔◌, [], arith}
use rpatk.Utf.{utf16_wctomb}

-- The code points that UTF-16 can encode: all but the surrogates.
abbrev pub IsScalar : ℕ → Type 0
IsScalar wc = (wc < 0xd800) ⊎ ((0xe000 ≤ wc) × (wc ≤ 0x10ffff))

-- The encoder refuses surrogates, numbers past 0x10ffff and a room of less than 4 bytes (2 bytes
-- below 0x10000), and writes something in every other case.
pub wctomb-nil :
    (wc size : ℕ)
    → (utf16_wctomb wc size ≡ []) ↔ (
        ((0xd800 ≤ wc) × (wc < 0xe000))
        ⊎ ((0x10ffff < wc) ⊎ ((size < 2) ⊎ ((0x10000 ≤ wc) × (size < 4)))))
unfolding utf16_wctomb
wctomb-nil wc size = (λ h. ground arith, λ h. ground arith)
