-- ===== src/Rex/DfaConv/Ranges.antt =====
-- `rex_dfaconv_uniqueranges` cuts the characters into ranges on which no transition of the source
-- tells two characters apart.
use rpatk.Base.{
  ℕ, zero, suc, pred, ◌+◌, ◌-◌, ◌%◌, ◌^◌, ◌<◌, ◌≤◌, ◌≡◌, ◌⊎◌, ◌↔◌, inl, inr, refl, ap, sym, ◌∙◌,
  Bool-cases, List, [], ◌∷◌, ◌++◌, length, arith, if◌then◌else◌, ltb, ltb→lt, ltb→le,
}
use mathlib.Core.List.{append-nil, append_assoc}
use rpatk.Base.Slices.{get_or-append, append_one-cases}
use rpatk.Rex.Search.{bound_loop, bound_lem, IsAscending}
use rpatk.Rex.Transition.{Transition, char_max, blank, trans_at, low_at, ordered}
use rpatk.Rex.Transition.Moves.{Covers, IsNormal}
use rpatk.Rex.Transition.Add.{transitions_add_last}
use rpatk.Rex.Subset.{In, IsSubset, uid_at, addnew}
use rpatk.Rex.Subset.Member.{In-uid_at, uid_at-In}
use rpatk.Rex.Subset.Insert.{addnew-Adds}
use rpatk.Rex.DfaConv.{range_starts, build_ranges, uniqueranges}

abbrev range : ℕ → ℕ → Transition
range low high = ordered low high 0 0

-- the ranges between the starts
ranges_of : List ℕ → List Transition
ranges_of [] = []
ranges_of (x ∷ []) = range x char_max ∷ []
ranges_of (x ∷ y ∷ rest) = range x (y - 1) ∷ ranges_of (y ∷ rest)

-- ascending, with the last entries at most `low`
record Below (ts : List Transition) (low : ℕ) : Type 0 where
  sorted : IsAscending (low_at ts) (length ts)
  top : (i : ℕ) → i < length ts → low_at ts i ≤ low

Below-append :
    (ts : List Transition) (t : Transition) (low : ℕ)
    → Below ts t.lowin
    → t.lowin ≤ low
    → Below (ts ++ t ∷ []) low
Below-append ts t low b le =
    let lowin = λ (x : Transition). x.lowin in
    record {
      sorted = λ i j lt h. elim (append_one-cases j ts t blank h) [
        | inl (q, f) ↦ omega (
          arith,
          ap lowin f,
          ap lowin (get_or-append i ts (t ∷ []) blank (omega arith)),
          b.sorted i j lt q,
        )
        | inr (q, f) ↦ omega (
          arith,
          ap lowin f,
          ap lowin (get_or-append i ts (t ∷ []) blank (omega arith)),
          b.top i (omega arith),
        )
      ];
      top = λ i h. elim (append_one-cases i ts t blank h) [
        | inl (q, f) ↦ omega (arith, ap lowin f, b.top i q)
        | inr (q, f) ↦ omega (arith, ap lowin f)
      ];
    }

-- a subset whose members are characters
record IsStarts (xs : List ℕ) : Type 0 where
  subset : IsSubset xs
  small : (a : ℕ) → In a xs → a ≤ char_max

IsStarts-tail : (x y : ℕ) (rest : List ℕ) → IsStarts (x ∷ y ∷ rest) → (x < y) × IsStarts (y ∷ rest)
IsStarts-tail x y rest h = (
  h.subset 0 1 (omega arith) (omega arith),
  record {
    subset = λ i j lt k. h.subset (suc i) (suc j) (omega arith) (omega arith);
    small = λ a k. h.small a (inr k);
  },
)

build_ranges_lem :
    (xs : List ℕ) (ts : List Transition)
    → IsStarts xs
    → Below ts (uid_at xs 0)
    → build_ranges xs ts ≡ ts ++ ranges_of xs
unfolding build_ranges ranges_of
build_ranges_lem [] ts h b = sym (append-nil ts)
build_ranges_lem (x ∷ []) ts h b = transitions_add_last ts x char_max 0 0 b.sorted b.top
build_ranges_lem (x ∷ y ∷ rest) ts h b =
    let (lt, tail) = IsStarts-tail x y rest h in
    let low : (range x (y - 1)).lowin ≡ x = ground arith in
    rw (transitions_add_last ts x (y - 1) 0 0 b.sorted b.top) (
      build_ranges_lem (y ∷ rest) (ts ++ range x (y - 1) ∷ []) tail
        (Below-append ts (range x (y - 1)) y (rw low b) (omega (arith, low)))
      ∙ append_assoc ts (range x (y - 1) ∷ []) (ranges_of (y ∷ rest)))

length-ranges_of : (xs : List ℕ) → length (ranges_of xs) ≡ length xs
unfolding ranges_of
length-ranges_of [] = refl
length-ranges_of (x ∷ []) = refl
length-ranges_of (x ∷ y ∷ rest) = ap suc (length-ranges_of (y ∷ rest))

-- the i-th range reaches from the i-th start up to the next
range_at :
    (xs : List ℕ) (i : ℕ)
    → IsStarts xs
    → i < length xs
    → ((trans_at (ranges_of xs) i).lowin ≡ uid_at xs i)
      × ((trans_at (ranges_of xs) i).highin
          ≡ (if ltb (suc i) (length xs) then uid_at xs (suc i) - 1 else char_max))
unfolding ranges_of
range_at [] i h lt = elim lt [ ]
range_at (x ∷ []) zero h lt = ground (arith, h.small x (inl refl))
range_at (x ∷ []) (suc i) h lt = absurd (omega arith)
range_at (x ∷ y ∷ rest) zero h lt = ground (arith, (IsStarts-tail x y rest h).0)
range_at (x ∷ y ∷ rest) (suc i) h lt =
    ground (arith, range_at (y ∷ rest) i (IsStarts-tail x y rest h).1)

-- a range of the source
abbrev pub InSource : ℕ → ℕ → List (ℕ × ℕ) → Type 0
InSource low high [] = ⊥
InSource low high ((l, h) ∷ src) = ((low ≡ l) × (high ≡ h)) ⊎ InSource low high src

-- proper ranges of characters
abbrev pub AreRanges : List (ℕ × ℕ) → Type 0
AreRanges src = (low high : ℕ) → InSource low high src → (low ≤ high) × (high ≤ char_max)

record Marks (src : List (ℕ × ℕ)) (old new : List ℕ) : Type 0 where
  starts : IsStarts new
  kept : (a : ℕ) → In a old → In a new
  lows : (low high : ℕ) → InSource low high src → In low new
  highs : (low high : ℕ) → InSource low high src → In ((high + 1) % 2 ^ 32) new

addnew-IsStarts : (xs : List ℕ) (v : ℕ) → IsStarts xs → v ≤ char_max → IsStarts (addnew xs v)
addnew-IsStarts xs v h le =
    let added = addnew-Adds xs v h.subset in
    record {
      subset = added.subset;
      small = λ a k. elim ((added.members a).0 k) [ inl e ↦ omega arith | inr old ↦ h.small a old ];
    }

range_starts-Marks :
    (src : List (ℕ × ℕ)) (starts : List ℕ)
    → AreRanges src
    → IsStarts starts
    → Marks src starts (range_starts src starts)
unfolding range_starts
range_starts-Marks [] starts ok h = record {
  starts = h;
  kept = λ a k. k;
  lows = λ low high k. absurd k;
  highs = λ low high k. absurd k;
}
range_starts-Marks ((l, h) ∷ src) starts ok s =
    let (le, small) = ok l h (inl (refl, refl)) in
    let mid = addnew starts l in
    let mid-IsStarts = addnew-IsStarts starts l s (omega arith) in
    let next = addnew mid ((h + 1) % 2 ^ 32) in
    let next-IsStarts = addnew-IsStarts mid ((h + 1) % 2 ^ 32) mid-IsStarts (omega arith) in
    let rest = range_starts-Marks src next (λ low high k. ok low high (inr k)) next-IsStarts in
    let first = addnew-Adds starts l s.subset in
    let second = addnew-Adds mid ((h + 1) % 2 ^ 32) mid-IsStarts.subset in
    record {
      starts = rest.starts;
      kept = λ a k. rest.kept a ((second.members a).1 (inr ((first.members a).1 (inr k))));
      lows = λ low high k. elim k [
        | inl (e, f) ↦ rest.kept low ((second.members low).1 (inr ((first.members low).1 (inl e))))
        | inr later ↦ rest.lows low high later
      ];
      highs = λ low high k. elim k [
        | inl (e, f) ↦
            rest.kept ((high + 1) % 2 ^ 32)
              ((second.members ((high + 1) % 2 ^ 32)).1 (inl (ap (λ t. (t + 1) % 2 ^ 32) f)))
        | inr later ↦ rest.highs low high later
      ];
    }

module _ (xs : List ℕ) (h : IsStarts xs) where
  high_lt : (i j : ℕ) → i < j → j < length xs → (trans_at (ranges_of xs) i).highin < uid_at xs j
  high_lt i j lt k = elim (Bool-cases (ltb (suc i) j)) [
    | inl more ↦ ground (arith, range_at xs i h, h.subset i (suc i), h.subset (suc i) j)
    | inr next ↦
        let e : j ≡ suc i = omega (arith, ltb→le _ _ next) in
        rw e (ground (arith, range_at xs i h, h.subset i (suc i)))
  ]

  ranges_of-IsNormal : IsNormal (ranges_of xs)
  ranges_of-IsNormal =
      let size = length-ranges_of xs in
      record {
        proper = λ i lt. ground (
          arith,
          range_at xs i h,
          size,
          h.subset i (suc i),
          h.small (uid_at xs i) (uid_at-In i xs (omega arith)),
        );
        apart = λ i j lt k.
            omega (arith, (range_at xs j h (omega arith)).0, high_lt i j lt (omega arith));
      }

  -- no start lies inside a range
  no_start_inside :
      (i a : ℕ)
      → i < length xs
      → In a xs
      → (trans_at (ranges_of xs) i).lowin < a
      → (trans_at (ranges_of xs) i).highin < a
  no_start_inside i a lt k low =
      let (j, in_, e) = In-uid_at a xs k in
      let low_i = (range_at xs i h lt).0 in
      elim (Bool-cases (ltb i j)) [
        | inl more ↦ omega (arith, high_lt i j (ltb→lt _ _ more) in_, e)
        | inr less ↦ elim (Bool-cases (ltb j i)) [
          | inl before ↦ absurd (omega (arith, h.subset j i (ltb→lt _ _ before) lt))
          | inr same ↦
              let s : j ≡ i = omega (arith, ltb→le _ _ less, ltb→le _ _ same) in
              absurd (omega (arith, ap (uid_at xs) s))
        ]
      ]

  covered :
      (c : ℕ)
      → In 0 xs
      → c ≤ char_max
      → (i : ℕ) × (i < length xs) × Covers (trans_at (ranges_of xs) i) c
  covered c zero_in le =
      let n = length xs in
      let ascending : IsAscending (uid_at xs) n = λ i j lt k. omega (arith, h.subset i j lt k) in
      let r = bound_loop n (uid_at xs) c 0 n in
      let s = bound_lem (uid_at xs) c n ascending in
      let (j, in_, e) = In-uid_at 0 xs zero_in in
      let positive : 0 < r = elim (Bool-cases (ltb 0 r)) [
        | inl lt ↦ ltb→lt _ _ lt
        | inr z ↦ absurd (omega (arith, s.above j (omega (arith, ltb→le _ _ z)) in_, e))
      ] in
      let i = pred r in
      let inside : i < n = omega (arith, s.inside) in
      let at_ = range_at xs i h inside in
      (
        i,
        inside,
        (omega (arith, at_.0, s.below i (omega arith)), ground (arith, at_, s.above (suc i))),
      )

  highin_small : (i : ℕ) → i < length xs → (trans_at (ranges_of xs) i).highin ≤ char_max
  highin_small i lt = elim (Bool-cases (ltb (suc i) (length xs))) [
    | inl more ↦ ground (
      arith,
      range_at xs i h,
      h.small (uid_at xs (suc i)) (uid_at-In (suc i) xs (ltb→lt _ _ more)),
    )
    | inr last ↦ ground (arith, range_at xs i h)
  ]

  whole_or_none :
      (i c low high : ℕ)
      → i < length xs
      → Covers (trans_at (ranges_of xs) i) c
      → In low xs
      → In ((high + 1) % 2 ^ 32) xs
      → high ≤ char_max
      → ((low ≤ c) × (c ≤ high))
        ↔ ((low ≤ (trans_at (ranges_of xs) i).lowin) × ((trans_at (ranges_of xs) i).highin ≤ high))
  whole_or_none i c low high lt cover in_low in_high small = (
    λ (p, q). (
      elim (Bool-cases (ltb (trans_at (ranges_of xs) i).lowin low)) [
        | inl less ↦
            absurd (omega (arith, no_start_inside i low lt in_low (ltb→lt _ _ less), cover))
        | inr ge ↦ ltb→le _ _ ge
      ],
      elim (Bool-cases (ltb high char_max)) [
        | inl more ↦ omega (
          arith,
          ltb→lt _ _ more,
          no_start_inside i ((high + 1) % 2 ^ 32) lt in_high
              (omega (arith, ltb→lt _ _ more, cover)),
        )
        | inr top ↦ omega (arith, ltb→le _ _ top, highin_small i lt)
      ],
    ),
    λ (p, q). (omega (arith, cover), omega (arith, cover)),
  )

-- The ranges cover every character, in order and each once, and no transition of the source tells
-- the characters of one range apart: it covers the whole range as soon as it covers one character
-- of it. This holds for every source of proper ranges.
pub uniqueranges_lem :
    (src : List (ℕ × ℕ))
    → AreRanges src
    → IsNormal (uniqueranges src)
      × ((c : ℕ)
          → c ≤ char_max
          → (i : ℕ) × (i < length (uniqueranges src)) × Covers (trans_at (uniqueranges src) i) c)
      × ((i c low high : ℕ)
          → i < length (uniqueranges src)
          → Covers (trans_at (uniqueranges src) i) c
          → InSource low high src
          → ((low ≤ c) × (c ≤ high)) ↔ (
              (low ≤ (trans_at (uniqueranges src) i).lowin)
              × ((trans_at (uniqueranges src) i).highin ≤ high)))
unfolding uniqueranges
uniqueranges_lem src ok =
    let zero_starts : IsStarts (0 ∷ []) = record {
      subset = λ i j lt h. absurd (omega arith);
      small = λ a k. elim k [ inl e ↦ omega arith | inr none_left ↦ absurd none_left ];
    } in
    let m = range_starts-Marks src (0 ∷ []) ok zero_starts in
    let xs = range_starts src (0 ∷ []) in
    let built : build_ranges xs [] ≡ ranges_of xs =
      build_ranges_lem xs [] m.starts
        (record { sorted = λ i j lt h. elim h [ ]; top = λ i h. elim h [ ] }) in
    rw built (
      ranges_of-IsNormal xs m.starts,
      λ c le.
          let (i, lt, cover) = covered xs m.starts c (m.kept 0 (inl refl)) le in
          (i, omega (arith, length-ranges_of xs), cover),
      λ i c low high lt cover k.
          let inside : i < length xs = omega (arith, length-ranges_of xs) in
          whole_or_none xs m.starts i c low high inside cover (m.lows low high k)
            (m.highs low high k) (ok low high k).1,
    )
