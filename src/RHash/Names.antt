-- ===== src/RHash/Names.antt =====
-- The hash functions of rlib/rhash.c and what they compare: zero-terminated strings, sized strings
-- (`rstr_t`, and in the same words `rstring_t`) and longs. A character is a signed byte, so from 128
-- on it is extended by ones to the word.
use rpatk.Base.{
  ℕ, zero, suc, ◌+◌, ◌-◌, ◌*◌, ◌%◌, ◌^◌, ◌≡◌, ◌≢◌, ◌↔◌, refl, Bool, true, false, ◌&&◌, List, [],
  ◌∷◌, ◌++◌, length, ltb, ◌==◌, ne→==, if◌then◌else◌, arith,
}

abbrev extended : ℕ → ℕ
extended c = if ltb c 128 then c else c + (2 ^ 64 - 256)

-- `c + (hash << 6) + (hash << 16) - hash` of a `size_t`
unfoldable pub mix : ℕ → ℕ → ℕ
mix c hash = (c + hash * 2 ^ 6 + hash * 2 ^ 16 - hash) % 2 ^ 64

-- the loop over the bytes of a zero-terminated string
strhash_loop : List ℕ → ℕ → ℕ
strhash_loop [] hash = hash
strhash_loop (c ∷ str) hash =
    let rest = strhash_loop str (mix (extended c) hash) in if c == 0 then hash else rest

unfoldable pub strhash : List ℕ → ℕ
unfolding strhash_loop
strhash str = strhash_loop str 0

-- the loop over the bytes of a sized string
rstrhash_loop : List ℕ → ℕ → ℕ
rstrhash_loop [] hash = hash
rstrhash_loop (c ∷ str) hash = rstrhash_loop str (mix (extended c) hash)

unfoldable pub rstrhash : List ℕ → ℕ
unfolding rstrhash_loop
rstrhash str = rstrhash_loop str 0

unfoldable pub longhash : ℕ → ℕ
longhash key = key % 2 ^ 64

unfoldable pub longequal : ℕ → ℕ → Bool
longequal key₁ key₂ = key₁ == key₂

-- `strncmp (s1, s2, n) == 0`: it stops behind a zero that both have
unfoldable pub same_prefix : ℕ → List ℕ → List ℕ → Bool
same_prefix zero s₁ s₂ = true
same_prefix (suc n) [] s₂ = true
same_prefix (suc n) (c ∷ s₁) [] = true
same_prefix (suc n) (c ∷ s₁) (d ∷ s₂) =
    let rest = same_prefix n s₁ s₂ in if c == d then (if c == 0 then true else rest) else false

unfoldable pub rstrequal : List ℕ → List ℕ → Bool
rstrequal key₁ key₂ = (length key₁ == length key₂) && same_prefix (length key₁) key₁ key₂

-- no byte of the string is zero
abbrev pub ZeroFree : List ℕ → Type 0
ZeroFree [] = Unit
ZeroFree (c ∷ str) = (c ≢ 0) × ZeroFree str

strhash_loop_lem :
    (str rest : List ℕ) (hash : ℕ)
    → ZeroFree str
    → strhash_loop (str ++ 0 ∷ rest) hash ≡ rstrhash_loop str hash
unfolding strhash_loop rstrhash_loop
strhash_loop_lem [] rest hash free = refl
strhash_loop_lem (c ∷ str) rest hash (no_zero, free) =
    rw (ne→== c 0 no_zero, strhash_loop) (strhash_loop_lem str rest (mix (extended c) hash) free)

-- A name has the same hash as a zero-terminated string and as a sized one, whatever stands behind
-- the zero, unless the name holds a zero itself.
pub strhash-rstrhash : (str rest : List ℕ) → ZeroFree str → strhash (str ++ 0 ∷ rest) ≡ rstrhash str
unfolding strhash rstrhash
strhash-rstrhash str rest free = strhash_loop_lem str rest 0 free

pub same_prefix-equal :
    (n : ℕ) (s₁ s₂ : List ℕ)
    → length s₁ ≡ n
    → length s₂ ≡ n
    → ZeroFree s₁
    → same_prefix n s₁ s₂ ≡ true
    → s₁ ≡ s₂
unfolding same_prefix
same_prefix-equal zero [] [] p q free h = refl
same_prefix-equal zero (c ∷ s₁) s₂ p q free h = absurd (omega arith)
same_prefix-equal zero [] (d ∷ s₂) p q free h = absurd (omega arith)
same_prefix-equal (suc n) [] s₂ p q free h = absurd (omega arith)
same_prefix-equal (suc n) (c ∷ s₁) [] p q free h = absurd (omega arith)
same_prefix-equal (suc n) (c ∷ s₁) (d ∷ s₂) p q (no_zero, free) h =
    let tail = same_prefix-equal n s₁ s₂ (omega arith) (omega arith) free in ground (arith, tail)

pub same_prefix_self : (s : List ℕ) → same_prefix (length s) s s ≡ true
unfolding same_prefix
same_prefix_self [] = refl
same_prefix_self (c ∷ s) = ground (arith, same_prefix_self s)

-- Two names are equal to the hash exactly if they are the same bytes, unless they hold a zero.
pub rstrequal_lem : (s₁ s₂ : List ℕ) → ZeroFree s₁ → (rstrequal s₁ s₂ ≡ true) ↔ (s₁ ≡ s₂)
unfolding rstrequal
rstrequal_lem s₁ s₂ free = (
  λ h. same_prefix-equal (length s₁) s₁ s₂ refl (ground arith) free (ground arith),
  λ e. rw (← e) (ground (arith, same_prefix_self s₁)),
)
