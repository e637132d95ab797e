-- ===== src/Rex/Search.antt =====
-- The two binary searches that rex/*.c write out again and again, over the keys of an array: the
-- upper bound (`rex_transitions_find`, `rex_transitions_add`) and the place of a new key in a set
-- (`rex_subset_addnewsubstate`, `rex_dfaconv_uniquerange_insertvalue`).
use rpatk.Base.{
  ℕ, zero, suc, ◌+◌, ◌/◌, ◌≤◌, ◌<◌, ◌≡◌, Option, none, some, ltb, leb, ◌==◌, if◌then◌else◌, arith,
  Bool-cases, inl, inr, ltb→lt, ltb→le, leb→le, leb_no, ==_iff, ==→ne,
}

-- `while (max > min)`: `key mid` is what the loop compares with `c`
unfoldable pub bound_loop : ℕ → (ℕ → ℕ) → ℕ → ℕ → ℕ → ℕ
bound_loop zero key c min max = min
bound_loop (suc fuel) key c min max =
    let mid = (min + max) / 2 in
    let up = leb (key mid) c in
    let rest = bound_loop fuel key c (if up then suc mid else min) (if up then max else mid) in
    if ltb min max then rest else min

-- `none` is the early `return` on a key that is there already
unfoldable pub place_loop : ℕ → (ℕ → ℕ) → ℕ → ℕ → ℕ → Option ℕ
place_loop zero key c min max = some min
place_loop (suc fuel) key c min max =
    let mid = (min + max) / 2 in
    let up = leb (key mid) c in
    let rest = place_loop fuel key c (if up then suc mid else min) (if up then max else mid) in
    if ltb min max then (if key mid == c then none else rest) else some min

abbrev pub IsAscending : (ℕ → ℕ) → ℕ → Type 0
IsAscending key n = (i j : ℕ) → i < j → j < n → key i ≤ key j

abbrev pub IsStrict : (ℕ → ℕ) → ℕ → Type 0
IsStrict key n = (i j : ℕ) → i < j → j < n → key i < key j

-- `r` splits the first `n` keys at `c`: below it no key is above `c`, from it on all are.
pub record Splits (key : ℕ → ℕ) (c n r : ℕ) : Type 0 where
  pub inside : r ≤ n
  pub below : (i : ℕ) → i < r → key i ≤ c
  pub above : (i : ℕ) → r ≤ i → i < n → c < key i

module _ (key : ℕ → ℕ) (c n : ℕ) where
  record Range (min max : ℕ) : Type 0 where
    ordered : min ≤ max
    inside : max ≤ n
    below : (i : ℕ) → i < min → key i ≤ c
    above : (i : ℕ) → max ≤ i → i < n → c < key i

  module _ (sorted : IsAscending key n) where
    below_mid : (mid i : ℕ) → mid < n → key mid ≤ c → i < suc mid → key i ≤ c
    below_mid mid i h le lt = elim (Bool-cases (ltb i mid)) [
      | inl less ↦ omega (arith, sorted i mid (ltb→lt _ _ less) h)
      | inr same ↦ let e : i ≡ mid = omega (arith, ltb→le _ _ same) in rw e le
    ]

    above_mid : (mid i : ℕ) → c < key mid → mid ≤ i → i < n → c < key i
    above_mid mid i lt le h = elim (Bool-cases (ltb mid i)) [
      | inl more ↦ omega (arith, sorted mid i (ltb→lt _ _ more) h)
      | inr same ↦ let e : i ≡ mid = omega (arith, ltb→le _ _ same) in rw e lt
    ]

    up-Range :
        (min max : ℕ)
        → Range min max
        → min < max
        → key ((min + max) / 2) ≤ c
        → Range (suc ((min + max) / 2)) max
    up-Range min max r lt le = record {
      ordered = omega arith;
      inside = r.inside;
      below = λ i. below_mid ((min + max) / 2) i (omega (arith, r.inside)) le;
      above = r.above;
    }

    down-Range :
        (min max : ℕ)
        → Range min max
        → min < max
        → c < key ((min + max) / 2)
        → Range min ((min + max) / 2)
    down-Range min max r lt gt = record {
      ordered = omega arith;
      inside = omega (arith, r.inside);
      below = r.below;
      above = λ i. above_mid ((min + max) / 2) i gt;
    }

    bound_loop-Splits :
        (fuel min max : ℕ)
        → max ≤ min + fuel
        → Range min max
        → Splits key c n (bound_loop fuel key c min max)
    unfolding bound_loop
    bound_loop-Splits zero min max f r = record {
      inside = omega (arith, r);
      below = r.below;
      above = λ i p. r.above i (omega arith);
    }
    bound_loop-Splits (suc fuel) min max f r = elim (Bool-cases (ltb min max)) [
      | inr done ↦ rw done (record {
        inside = omega (arith, r);
        below = r.below;
        above = λ i p. r.above i (omega (arith, ltb→le _ _ done));
      })
      | inl more ↦ elim (Bool-cases (leb (key ((min + max) / 2)) c)) [
        | inl up ↦
            rw (more, up)
              (bound_loop-Splits fuel (suc ((min + max) / 2)) max (omega (arith, ltb→lt _ _ more))
                (up-Range min max r (ltb→lt _ _ more) (leb→le _ _ up)))
        | inr down ↦
            rw (more, down)
              (bound_loop-Splits fuel min ((min + max) / 2) (omega (arith, ltb→lt _ _ more))
                (down-Range min max r (ltb→lt _ _ more) (leb_no _ _ down)))
      ]
    ]

-- The upper bound, with fuel for the whole array, splits every ascending array of keys.
pub bound_lem :
    (key : ℕ → ℕ) (c n : ℕ) → IsAscending key n → Splits key c n (bound_loop n key c 0 n)
bound_lem key c n sorted = bound_loop-Splits key c n sorted n 0 n (omega arith) (record {
  ordered = omega arith;
  inside = omega arith;
  below = λ i h. elim h [ ];
  above = λ i p q. absurd (omega arith);
})

-- What the search for a place says: the key is there, or the index splits the keys strictly.
abbrev pub Placed : (ℕ → ℕ) → ℕ → ℕ → Option ℕ → Type 0
Placed key c n none = (i : ℕ) × (i < n) × (key i ≡ c)
Placed key c n (some r) =
    (r ≤ n) × ((i : ℕ) → i < r → key i < c) × ((i : ℕ) → r ≤ i → i < n → c < key i)

module _ (key : ℕ → ℕ) (c n : ℕ) (sorted : IsStrict key n) where
  record Narrow (min max : ℕ) : Type 0 where
    ordered : min ≤ max
    inside : max ≤ n
    below : (i : ℕ) → i < min → key i < c
    above : (i : ℕ) → max ≤ i → i < n → c < key i

  strict_below : (mid i : ℕ) → mid < n → key mid < c → i < suc mid → key i < c
  strict_below mid i h le lt = elim (Bool-cases (ltb i mid)) [
    | inl less ↦ omega (arith, sorted i mid (ltb→lt _ _ less) h)
    | inr same ↦ let e : i ≡ mid = omega (arith, ltb→le _ _ same) in rw e le
  ]

  strict_above : (mid i : ℕ) → c < key mid → mid ≤ i → i < n → c < key i
  strict_above mid i lt le h = elim (Bool-cases (ltb mid i)) [
    | inl more ↦ omega (arith, sorted mid i (ltb→lt _ _ more) h)
    | inr same ↦ let e : i ≡ mid = omega (arith, ltb→le _ _ same) in rw e lt
  ]

  up-Narrow :
      (min max : ℕ)
      → Narrow min max
      → min < max
      → key ((min + max) / 2) < c
      → Narrow (suc ((min + max) / 2)) max
  up-Narrow min max r lt le = record {
    ordered = omega arith;
    inside = r.inside;
    below = λ i. strict_below ((min + max) / 2) i (omega (arith, r.inside)) le;
    above = r.above;
  }

  down-Narrow :
      (min max : ℕ)
      → Narrow min max
      → min < max
      → c < key ((min + max) / 2)
      → Narrow min ((min + max) / 2)
  down-Narrow min max r lt gt = record {
    ordered = omega arith;
    inside = omega (arith, r.inside);
    below = r.below;
    above = λ i. strict_above ((min + max) / 2) i gt;
  }

  place_loop-Placed :
      (fuel min max : ℕ)
      → max ≤ min + fuel
      → Narrow min max
      → Placed key c n (place_loop fuel key c min max)
  unfolding place_loop
  place_loop-Placed zero min max f r = (omega (arith, r), r.below, λ i p. r.above i (omega arith))
  place_loop-Placed (suc fuel) min max f r = elim (Bool-cases (ltb min max)) [
    | inr done ↦
        rw done (omega (arith, r), r.below, λ i p. r.above i (omega (arith, ltb→le _ _ done)))
    | inl more ↦ elim (Bool-cases (key ((min + max) / 2) == c)) [
      | inl hit ↦
          rw (more, hit)
            ((min + max) / 2, omega (arith, r.inside, ltb→lt _ _ more), (==_iff _ _).0 hit)
      | inr miss ↦ elim (Bool-cases (leb (key ((min + max) / 2)) c)) [
        | inl up ↦
            rw (more, miss, up)
              (place_loop-Placed fuel (suc ((min + max) / 2)) max (omega (arith, ltb→lt _ _ more)) (
                up-Narrow min max r (ltb→lt _ _ more)
                  (omega (arith, leb→le _ _ up, ==→ne _ _ miss))))
        | inr down ↦
            rw (more, miss, down)
              (place_loop-Placed fuel min ((min + max) / 2) (omega (arith, ltb→lt _ _ more))
                (down-Narrow min max r (ltb→lt _ _ more) (leb_no _ _ down)))
      ]
    ]
  ]

  -- On strictly ascending keys the search finds the key, or the only place for it.
  pub place_lem : Placed key c n (place_loop n key c 0 n)
  place_lem = place_loop-Placed n 0 n (omega arith) (record {
    ordered = omega arith;
    inside = omega arith;
    below = λ i h. elim h [ ];
    above = λ i p q. absurd (omega arith);
  })
