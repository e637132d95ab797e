-- ===== src/Utf.antt =====
-- rlib/rutf.c: one character to and from UTF-8 and UTF-16 bytes. An input from `input` up to `end`
-- is the list of its bytes, and the result of a decoder is `*pwc` with the returned count. An
-- encoder gives the bytes that it writes: the returned count is their number, 0 for a refusal.
pub mod Utf8
pub mod Utf16
mod Tests
use Prim.Native.Nat.{bit_and, bit_or, bit_xor}
use rpatk.Base.{
  ℕ, ◌+◌, ◌-◌, ◌*◌, ◌/◌, ◌%◌, Bool, not, ◌&&◌, ◌||◌, List, [], ◌∷◌, ltb, leb, ◌==◌, if◌then◌else◌,
}

-- `input[i] >> 6 == 0x02`
abbrev is_trail : ℕ → Bool
is_trail b = b / 64 == 2

utf8_two : ℕ → List ℕ → ℕ × ℕ
utf8_two c (b ∷ _) =
    if is_trail b then (bit_or (bit_and c 0x1f * 64) (bit_xor b 0x80), 2) else (c, 1)
utf8_two c _ = (c, 1)

utf8_three : ℕ → List ℕ → ℕ × ℕ
utf8_three c (b₁ ∷ b₂ ∷ _) =
    if is_trail b₁ && is_trail b₂
    then (bit_or (bit_or (bit_and c 0x0f * 4096) (bit_xor b₁ 0x80 * 64)) (bit_xor b₂ 0x80), 3)
    else (c, 1)
utf8_three c _ = (c, 1)

utf8_four : ℕ → List ℕ → ℕ × ℕ
utf8_four c (b₁ ∷ b₂ ∷ b₃ ∷ _) =
    if is_trail b₁ && (is_trail b₂ && is_trail b₃)
    then (
      bit_or
          (bit_or (bit_or (bit_and c 0x07 * 262144) (bit_xor b₁ 0x80 * 4096))
            (bit_xor b₂ 0x80 * 64))
          (bit_xor b₃ 0x80),
      4,
    )
    else (c, 1)
utf8_four c _ = (c, 1)

-- A malformed sequence gives its first byte, and consumes one.
unfoldable pub utf8_mbtowc : List ℕ → ℕ × ℕ
unfolding utf8_two utf8_three utf8_four
utf8_mbtowc [] = (0, 0)
utf8_mbtowc (c ∷ rest) =
    if ltb c 0x80
    then (c, 1)
    else if (c == 0xc0 || c == 0xc1) || leb 0xf5 c
    then (c, 1)
    else if c / 32 == 6
    then utf8_two c rest
    else if c / 16 == 0x0e
    then utf8_three c rest
    else if c / 8 == 0x1e
    then utf8_four c rest
    else (c, 1)

-- The cases of the `switch`, each falling through to the next: the byte written, and the rest of
-- `wc` with the mark that the next byte needs.
trail_byte : ℕ → ℕ
trail_byte wc = bit_or 0x80 (bit_and wc 0x3f)

put_one : ℕ → List ℕ → List ℕ
put_one wc rest = (wc % 256) ∷ rest

put_two : ℕ → List ℕ → List ℕ
unfolding put_one trail_byte
put_two wc rest = put_one (bit_or (wc / 64) 0xc0) (trail_byte wc ∷ rest)

put_three : ℕ → List ℕ → List ℕ
unfolding put_two
put_three wc rest = put_two (bit_or (wc / 64) 0x800) (trail_byte wc ∷ rest)

put_four : ℕ → List ℕ → List ℕ
unfolding put_three
put_four wc rest = put_three (bit_or (wc / 64) 0x10000) (trail_byte wc ∷ rest)

abbrev pub utf8_count : ℕ → ℕ
utf8_count wc =
    if leb wc 0x7f
    then 1
    else if leb wc 0x7ff
    then 2
    else if leb wc 0xffff
    then 3
    else if leb wc 0x10ffff
    then 4
    else 0

pub utf8_wctomb : ℕ → ℕ → List ℕ
utf8_wctomb wc size =
    let count = utf8_count wc in
    if count == 0
    then []
    else if ltb size count
    then []
    else if count == 4
    then put_four wc []
    else if count == 3
    then put_three wc []
    else if count == 2
    then put_two wc []
    else put_one wc []

-- `s[0] + (s[1] << 8)`
abbrev unit : ℕ → ℕ → ℕ
unit lo hi = lo + hi * 256

utf16_pair : ℕ → ℕ → List ℕ → ℕ × ℕ
utf16_pair first wc₁ (b₂ ∷ b₃ ∷ _) =
    let wc₂ = unit b₂ b₃ in
    if leb 0xdc00 wc₂ && ltb wc₂ 0xe000
    then (0x10000 + (wc₁ - 0xd800) * 1024 + (wc₂ - 0xdc00), 4)
    else (first, 1)
utf16_pair first wc₁ _ = (first, 1)

unfoldable pub utf16_mbtowc : List ℕ → ℕ × ℕ
unfolding utf16_pair
utf16_mbtowc [] = (0, 0)
utf16_mbtowc (b₀ ∷ []) = (b₀, 1)
utf16_mbtowc (b₀ ∷ b₁ ∷ rest) =
    let wc₁ = unit b₀ b₁ in
    if leb 0xd800 wc₁ && ltb wc₁ 0xdc00
    then utf16_pair b₀ wc₁ rest
    else if leb 0xdc00 wc₁ && ltb wc₁ 0xe000
    then (b₀, 1)
    else (wc₁, 2)

unfoldable pub utf16_wctomb : ℕ → ℕ → List ℕ
utf16_wctomb wc size =
    if leb wc 0x10ffff && (ltb wc 0xd800 || leb 0xe000 wc)
    then (if ltb wc 0x10000
        then (if ltb size 2 then [] else (wc % 256) ∷ (wc / 256 % 256) ∷ [])
        else if leb wc 0x10ffff
        then (if ltb size 4
            then []
            else (let wc₁ = 0xd800 + (wc - 0x10000) / 1024 in
                let wc₂ = 0xdc00 + bit_and (wc - 0x10000) 0x3ff in
                (wc₁ % 256) ∷ (wc₁ / 256 % 256) ∷ (wc₂ % 256) ∷ (wc₂ / 256 % 256) ∷ []))
        else [])
    else []
