-- ===== src/Rex/Construct/Sets.antt =====
-- Subsets of the numbers below a bound: they are the same array if they have the same members, and
-- there are no more than `2 ^ n` of them, which bounds the states that the construction makes.
use rpatk.Base.{
  ℕ, zero, suc, ◌+◌, ◌*◌, ◌^◌, ◌<◌, ◌≤◌, ◌≡◌, ◌≢◌, ◌↔◌, inl, inr, refl, sym, ◌∙◌, Bool, true, false,
  ◌||◌, Bool-cases, List, [], ◌∷◌, arith, if◌then◌else◌, ◌==◌, ==→ne, ==_iff,
}
use native.Mathlib.Numerals.{towards_suc}
use rpatk.Rex.Subset.{In, IsSubset}
use rpatk.Rex.Subset.Member.{In-uid_at}

tail-IsSubset : (x : ℕ) (xs : List ℕ) → IsSubset (x ∷ xs) → IsSubset xs
tail-IsSubset x xs h i j lt b = h (suc i) (suc j) (omega arith) (omega arith)

head-lt : (x v : ℕ) (xs : List ℕ) → IsSubset (x ∷ xs) → In v xs → x < v
head-lt x v xs h k =
    let (i, lt, e) = In-uid_at v xs k in omega (arith, h 0 (suc i) (omega arith) (omega arith))

module _ (x y : ℕ) (xs ys : List ℕ) (hx : IsSubset (x ∷ xs)) (hy : IsSubset (y ∷ ys)) where
  heads-eq : In x (y ∷ ys) → In y (x ∷ xs) → x ≡ y
  heads-eq (inl e) k = e
  heads-eq (inr h) (inl e) = sym e
  heads-eq (inr h) (inr k) = absurd (omega (arith, head-lt y x ys hy h, head-lt x y xs hx k))

  -- a member of the one rest is one of the other rest
  rest-In : x ≡ y → (v : ℕ) → (In v (x ∷ xs) → In v (y ∷ ys)) → In v xs → In v ys
  rest-In e v sub k = elim (sub (inr k)) [
    | inl same ↦ absurd (omega (arith, head-lt x v xs hx k))
    | inr m ↦ m
  ]

-- Subsets with the same members are the same array.
pub IsSubset-ext :
    (xs ys : List ℕ) → IsSubset xs → IsSubset ys → ((v : ℕ) → In v xs ↔ In v ys) → xs ≡ ys
IsSubset-ext [] [] hx hy same = refl
IsSubset-ext [] (y ∷ ys) hx hy same = absurd ((same y).1 (inl refl))
IsSubset-ext (x ∷ xs) [] hx hy same = absurd ((same x).0 (inl refl))
IsSubset-ext (x ∷ xs) (y ∷ ys) hx hy same =
    let e = heads-eq x y xs ys hx hy ((same x).0 (inl refl)) ((same y).1 (inl refl)) in
    let rest = IsSubset-ext xs ys (tail-IsSubset x xs hx) (tail-IsSubset y ys hy) (λ v.
      (rest-In x y xs ys hx hy e v (same v).0, rest-In y x ys xs hy hx (sym e) v (same v).1)) in
    cc

member : ℕ → List ℕ → Bool
member v [] = false
member v (x ∷ xs) = (v == x) || member v xs

member_lem : (v : ℕ) (xs : List ℕ) → (member v xs ≡ true) ↔ In v xs
unfolding member
member_lem v [] = (λ h. cc, λ k. absurd k)
member_lem v (x ∷ xs) = ground (arith, member_lem v xs)

-- the subset as a binary number
code : ℕ → List ℕ → ℕ
code zero xs = 0
code (suc n) xs = 2 * code n xs + (if member n xs then 1 else 0)

code-lt : (n : ℕ) (xs : List ℕ) → code n xs < 2 ^ n
unfolding code
code-lt zero xs = omega arith
code-lt (suc n) xs = elim (Bool-cases (member n xs)) [
  | inl h ↦ rw h (simp towards_suc (omega (arith, code-lt n xs)))
  | inr h ↦ rw h (simp towards_suc (omega (arith, code-lt n xs)))
]

code-member :
    (n : ℕ) (xs ys : List ℕ) → code n xs ≡ code n ys → (v : ℕ) → v < n → member v xs ≡ member v ys
unfolding code
code-member zero xs ys e v lt = elim lt [ ]
code-member (suc n) xs ys e v lt =
    let rest : code n xs ≡ code n ys = ground arith in
    let last : member n xs ≡ member n ys = ground arith in
    elim (Bool-cases (v == n)) [
      | inl top ↦ let q = (==_iff v n).0 top in rw q last
      | inr below ↦ code-member n xs ys rest v (omega (arith, ==→ne v n below))
    ]

-- the members of the subset are below `n`
abbrev pub AreBelow : ℕ → List ℕ → Type 0
AreBelow n xs = (v : ℕ) → In v xs → v < n

code_injective :
    (n : ℕ) (xs ys : List ℕ)
    → IsSubset xs
    → IsSubset ys
    → AreBelow n xs
    → AreBelow n ys
    → code n xs ≡ code n ys
    → xs ≡ ys
code_injective n xs ys hx hy bx by_ e =
    let same = code-member n xs ys e in
    IsSubset-ext xs ys hx hy (λ v. (
      λ k. (member_lem v ys).0 (sym (same v (bx v k)) ∙ (member_lem v xs).1 k),
      λ k. (member_lem v xs).0 (same v (by_ v k) ∙ (member_lem v ys).1 k),
    ))

-- `f` with the value `top` taken out: where it is `top`, the last value is put
replace_top : (ℕ → ℕ) → ℕ → ℕ → ℕ → ℕ
replace_top f n top i = if f i == top then f n else f i

abbrev Injective : (ℕ → ℕ) → ℕ → Type 0
Injective f n = (i j : ℕ) → i < j → j < n → f i ≢ f j

pigeonhole : (m n : ℕ) (f : ℕ → ℕ) → ((i : ℕ) → i < n → f i < m) → Injective f n → n ≤ m
unfolding replace_top
pigeonhole zero zero f below inj = omega arith
pigeonhole zero (suc n) f below inj = absurd (omega (arith, below 0 (omega arith)))
pigeonhole (suc m) zero f below inj = omega arith
pigeonhole (suc m) (suc n) f below inj =
    let g = replace_top f n m in
    let smaller : (i : ℕ) → i < n → g i < m = λ i lt.
      ground (arith, below i (omega arith), below n (omega arith), inj i n lt (omega arith)) in
    let apart : Injective g n = λ i j lt h. ground (
      arith,
      inj i j lt (omega arith),
      inj i n (omega arith) (omega arith),
      inj j n h (omega arith),
    ) in
    omega (arith, pigeonhole m n g smaller apart)

-- Different subsets of the numbers below `n` are at most `2 ^ n`.
pub subsets_le :
    (n count : ℕ) (at_ : ℕ → List ℕ)
    → ((i : ℕ) → i < count → IsSubset (at_ i) × AreBelow n (at_ i))
    → ((i j : ℕ) → i < j → j < count → at_ i ≢ at_ j)
    → count ≤ 2 ^ n
subsets_le n count at_ ok apart =
    pigeonhole (2 ^ n) count (λ i. code n (at_ i)) (λ i lt. code-lt n (at_ i))
      (λ i j lt h e.
        let (hi, bi) = ok i (omega arith) in
        let (hj, bj) = ok j h in apart i j lt h (code_injective n (at_ i) (at_ j) hi hj bi bj e))
