-- ===== src/CharConv.antt =====
-- rlib/rcharconv.c: letters to lower case, to upper case, and to the other case.
mod Tests
use rpatk.Base.{
  ℕ, ◌+◌, ◌-◌, ◌<◌, ◌≤◌, ◌≡◌, ◌≢◌, ◌⊎◌, ◌&&◌, ◌||◌, Bool, Bool-cases, true, false, inl, inr, leb,
  if◌then◌else◌, arith,
}

unfoldable pub charlow : ℕ → ℕ
charlow c = if leb b'A' c && leb c b'Z' then c + (b'a' - b'A') else c

-- the C constant `'A' - 'a'` is negative: the sum is `c - 32`
unfoldable pub charhigh : ℕ → ℕ
charhigh c = if leb b'a' c && leb c b'z' then c - (b'a' - b'A') else c

unfoldable pub charicase : ℕ → ℕ
charicase c =
    if leb b'A' c && leb c b'Z'
    then c + (b'a' - b'A')
    else if leb b'a' c && leb c b'z'
    then c - (b'a' - b'A')
    else if leb 0x0410 c && leb c 0x042f
    then c + 0x0430 - 0x0410
    else if leb 0x0430 c && leb c 0x044f
    then c + 0x0410 - 0x0430
    else if leb 0x00c0 c && leb c 0x00df
    then c + 0x00e0 - 0x00c0
    else if leb 0x00e0 c && leb c 0x00ff
    then c + 0x00c0 - 0x00e0
    else if leb 0x0390 c && leb c 0x03ab
    then c + 0x03b0 - 0x0390
    else if leb 0x03b0 c && leb c 0x03cb
    then c + 0x0390 - 0x03b0
    else c

is_upper : ℕ → Bool
is_upper c =
    (leb b'A' c && leb c b'Z')
    || ((leb 0x0410 c && leb c 0x042f)
        || ((leb 0x00c0 c && leb c 0x00df) || (leb 0x0390 c && leb c 0x03ab)))

is_lower : ℕ → Bool
is_lower c =
    (leb b'a' c && leb c b'z')
    || ((leb 0x0430 c && leb c 0x044f)
        || ((leb 0x00e0 c && leb c 0x00ff) || (leb 0x03b0 c && leb c 0x03cb)))

charicase_upper : (c : ℕ) → is_upper c ≡ true → charicase c ≡ c + 32
unfolding charicase is_upper
charicase_upper c h = ground arith

charicase_lower : (c : ℕ) → is_lower c ≡ true → charicase c ≡ c - 32
unfolding charicase is_lower
charicase_lower c h = ground arith

charicase_other : (c : ℕ) → is_upper c ≡ false → is_lower c ≡ false → charicase c ≡ c
unfolding charicase is_upper is_lower
charicase_other c h k = ground arith

to_lower : (c : ℕ) → is_upper c ≡ true → is_lower (c + 32) ≡ true
unfolding is_upper is_lower
to_lower c h = ground arith

to_upper : (c : ℕ) → is_lower c ≡ true → (is_upper (c - 32) ≡ true) × (32 ≤ c)
unfolding is_upper is_lower
to_upper c h = ground arith

-- Changing the case twice gives the letter back, for every character.
pub charicase-charicase : (c : ℕ) → charicase (charicase c) ≡ c
charicase-charicase c = elim (Bool-cases (is_upper c)) [
  | inl up ↦ rw (charicase_upper c up, charicase_lower (c + 32) (to_lower c up)) (omega arith)
  | inr other ↦ elim (Bool-cases (is_lower c)) [
    | inl low ↦
        let (up, large) = to_upper c low in
        rw (charicase_lower c low, charicase_upper (c - 32) up) (omega arith)
    | inr neither ↦ let same = charicase_other c other neither in rw (same, same)
  ]
]

-- On every character whose ANSI case can change, `charicase` agrees with `charlow` or `charhigh`,
-- which undo one another there.
charicase_ansi :
    (c : ℕ)
    → (charlow c ≢ c → (charicase c ≡ charlow c) × (charhigh (charlow c) ≡ c))
      × (charhigh c ≢ c → (charicase c ≡ charhigh c) × (charlow (charhigh c) ≡ c))
unfolding charicase charlow charhigh
charicase_ansi c = (λ h. ground arith, λ h. ground arith)
