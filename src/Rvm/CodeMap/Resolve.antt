-- ===== src/Rvm/CodeMap/Resolve.antt =====
-- `rvm_codemap_resolve` by the chain of labels that it follows: offsets, and at their end a pointer, a
-- label that is not there, or an invalid one, which is reported.
use rpatk.Base.{
  ℕ, zero, suc, ◌+◌, ◌%◌, ◌^◌, ◌<◌, ◌≡◌, ◌≢◌, ◌⊎◌, inl, inr, refl, sym, ap, ◌∙◌, Bool-cases, Option,
  Option-cases, none, some, List, [], ◌∷◌, arith, ◌==◌, ==_iff, ==→ne, ne→==,
}
use rpatk.Rvm.CodeMap.{
  CodeMap, Label, LabelKind, offset, pointer, invalid, label, minus_one, plus_base, resolve,
}

-- From `i` on, the offsets with the values `offs` stand one on the other, the last of them on `j`.
abbrev pub Chain : CodeMap → ℕ → List ℕ → ℕ → Type 0
Chain m i [] j = i ≡ j
Chain m i (off ∷ offs) j =
    (l : Label) × (label m i ≡ some l) × (l.kind ≡ offset) × (l.value ≡ off) × Chain m l.base offs j

-- The chain ends in `j` with the address `b`: a pointer's, or 0 where no label is.
abbrev pub StartsAt : CodeMap → ℕ → ℕ → Type 0
StartsAt m j b =
    ((label m j ≡ none) × (b ≡ 0))
    ⊎ ((l : Label) × (label m j ≡ some l) × (l.kind ≡ pointer) × (l.value ≡ b))

abbrev pub IsInvalid : CodeMap → ℕ → Type 0
IsInvalid m j = (l : Label) × (label m j ≡ some l) × (l.kind ≡ invalid)

abbrev pub sum : List ℕ → ℕ
sum [] = 0
sum (off ∷ offs) = off + sum offs

-- the address `b` with the offsets on it, modulo the word
abbrev pub address : ℕ → List ℕ → ℕ
address b [] = b
address b (off ∷ offs) = (b + sum (off ∷ offs)) % 2 ^ 64

-- The address of some label below the first is -1, which the code takes for a failure.
abbrev pub IsLost : ℕ → List ℕ → Type 0
IsLost b [] = ⊥
IsLost b (off ∷ offs) = (address b offs ≡ minus_one) ⊎ IsLost b offs

abbrev pub IsResolved : CodeMap → ℕ → ℕ → Option ℕ → Type 0
IsResolved m i v err =
    (offs : List ℕ) × (j : ℕ) × Chain m i offs j
    × ((IsInvalid m j × (v ≡ minus_one) × (err ≡ some j))
        ⊎ ((b : ℕ) × StartsAt m j b
            × (err ≡ none)
            × (((¬ IsLost b offs) × (v ≡ address b offs)) ⊎ (IsLost b offs × (v ≡ minus_one)))))

kind-cases : (k : LabelKind) → (k ≡ offset) ⊎ ((k ≡ pointer) ⊎ (k ≡ invalid))
kind-cases offset = inl refl
kind-cases pointer = inr (inl refl)
kind-cases invalid = inr (inr refl)

address-step :
    (b off : ℕ) (offs : List ℕ) → (address b offs + off) % 2 ^ 64 ≡ address b (off ∷ offs)
address-step b off [] = ap (λ n. n % 2 ^ 64) (omega arith)
address-step b off (o ∷ offs) = omega arith

-- one more offset on a base that is resolved
shift-IsResolved :
    (m : CodeMap) (i : ℕ) (l : Label) (base : ℕ) (err : Option ℕ)
    → label m i ≡ some l
    → l.kind ≡ offset
    → IsResolved m l.base base err
    → ((base ≡ minus_one) × IsResolved m i minus_one err)
      ⊎ ((base ≢ minus_one) × IsResolved m i ((base + l.value) % 2 ^ 64) err)
shift-IsResolved m i l base err at is_offset (offs, j, chain, inl (bad, v, e)) =
    inl (v, (l.value ∷ offs, j, (l, at, is_offset, refl, chain), inl (bad, refl, e)))
shift-IsResolved m i l base err at is_offset (offs, j, chain, inr (b, starts, e, inr (lost, v))) =
    inl (
      v,
      (
        l.value ∷ offs,
        j,
        (l, at, is_offset, refl, chain),
        inr (b, starts, e, inr (inr lost, refl)),
      ),
    )
shift-IsResolved m i l base err at is_offset (offs, j, chain, inr (b, starts, e, inl (fine, v))) =
    let longer : Chain m i (l.value ∷ offs) j = (l, at, is_offset, refl, chain) in
    elim (Bool-cases (base == minus_one)) [
      | inl yes_ ↦
          let q = (==_iff base minus_one).0 yes_ in
          inl (q, (l.value ∷ offs, j, longer, inr (b, starts, e, inr (inl (sym v ∙ q), refl))))
      | inr no_ ↦
          let other = ==→ne base minus_one no_ in
          inr (
            other,
            (
              l.value ∷ offs,
              j,
              longer,
              inr (
                b,
                starts,
                e,
                inl (
                  λ k. elim k [ inl q ↦ other (v ∙ q) | inr lost ↦ fine lost ],
                  ap (λ n. (n + l.value) % 2 ^ 64) v ∙ address-step b l.value offs,
                ),
              ),
            ),
          )
    ]

-- Resolving a label ends. The chain of its bases is followed to the end. If it ends in an invalid
-- label, the result is -1 and that label is reported. If it ends in a pointer, or in a missing label,
-- which counts as 0, nothing is reported, and the result is that with all offsets of the chain added
-- modulo the word, unless the address of a label below the first is -1: then it is -1. This is for
-- labels whose bases form no cycle, as a rank that falls from each offset to its base shows, and fuel
-- above the rank.
pub resolve-IsResolved :
    (fuel : ℕ) (m : CodeMap) (rank : ℕ → ℕ) (i : ℕ)
    → ((j : ℕ) (l : Label) → label m j ≡ some l → l.kind ≡ offset → rank l.base < rank j)
    → rank i < fuel
    → (v : ℕ) × (err : Option ℕ) × (resolve fuel m i ≡ some (v, err)) × IsResolved m i v err
unfolding resolve plus_base
resolve-IsResolved zero m rank i falls lt = elim lt [ ]
resolve-IsResolved (suc fuel) m rank i falls lt = elim (Option-cases (label m i)) [
  | inl e ↦ (
    0,
    none,
    rw (e, resolve) refl,
    ([], i, refl, inr (0, inl (e, refl), refl, inl (λ k. k, refl))),
  )
  | inr (l, e) ↦ elim (kind-cases l.kind) [
    | inr (inl p) ↦ (
      l.value,
      none,
      rw (e, resolve, p) refl,
      ([], i, refl, inr (l.value, inr (l, e, p, refl), refl, inl (λ k. k, refl))),
    )
    | inr (inr p) ↦
        (minus_one, some i, rw (e, resolve, p) refl, ([], i, refl, inl ((l, e, p), refl, refl)))
    | inl p ↦
        let (base, err, runs, r) =
          resolve-IsResolved fuel m rank l.base falls (omega (arith, falls i l e p)) in
        elim (shift-IsResolved m i l base err e p r) [
          | inl (bad, lost) ↦
              (minus_one, err, rw (e, resolve, p, runs, plus_base, (==_iff _ _).1 bad) refl, lost)
          | inr (good, is_resolved) ↦ (
            (base + l.value) % 2 ^ 64,
            err,
            rw (e, resolve, p, runs, plus_base, ne→== _ _ good) refl,
            is_resolved,
          )
        ]
  ]
]
