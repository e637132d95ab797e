-- ===== src/Base/Slices.antt =====
-- Insertion into and removal from a list at an index, and how slices of a list compose.
use Prim.Native.Nat.{ℕ, zero, suc, ◌+◌, ◌<◌, ◌≤◌, pred}
use mathlib.Core.Path.{◌≡◌, refl, ap}
use mathlib.Core.List.{List, [], ◌∷◌, ◌++◌}
use native.Mathlib.Omega.{arith}
use mathlib.Core.Logic.{◌⊎◌, inl, inr}
use rpatk.Base.Tests.{Bool-cases, ltb, ltb→lt, ltb→le}
use rpatk.Base.Lists.{length, get_or, set, take, drop, length-take, length-append}

module _ {ℓ} {A : Type ℓ} where
  -- The abstract effect of an insertion: `v` stands at index `i`, what stood there moves up.
  abbrev pub insert_at : ℕ → A → List A → List A
  insert_at zero v xs = v ∷ xs
  insert_at (suc i) v [] = v ∷ []
  insert_at (suc i) v (x ∷ xs) = x ∷ insert_at i v xs

  -- The abstract effect of a deletion.
  abbrev pub remove_at : ℕ → List A → List A
  remove_at i [] = []
  remove_at zero (x ∷ xs) = xs
  remove_at (suc i) (x ∷ xs) = x ∷ remove_at i xs

  pub length-insert_at : (i : ℕ) (v : A) (xs : List A) → length (insert_at i v xs) ≡ suc (length xs)
  length-insert_at zero v xs = refl
  length-insert_at (suc i) v [] = refl
  length-insert_at (suc i) v (x ∷ xs) = ap suc (length-insert_at i v xs)

  pub take-length : (xs ys : List A) → take (length xs) (xs ++ ys) ≡ xs
  take-length [] ys = refl
  take-length (x ∷ xs) ys = ap (λ t. x ∷ t) (take-length xs ys)

  pub take-append_le : (n : ℕ) (xs ys : List A) → n ≤ length xs → take n (xs ++ ys) ≡ take n xs
  take-append_le zero xs ys h = refl
  take-append_le (suc n) [] ys h = absurd (omega arith)
  take-append_le (suc n) (x ∷ xs) ys h = ap (λ t. x ∷ t) (take-append_le n xs ys (omega arith))

  pub take-suc-set :
      (n : ℕ) (xs : List A) (v : A)
      → n < length xs
      → take (suc n) (set xs n v) ≡ take n xs ++ v ∷ []
  take-suc-set n [] v h = elim h [ ]
  take-suc-set zero (x ∷ xs) v h = refl
  take-suc-set (suc n) (x ∷ xs) v h = ap (λ t. x ∷ t) (take-suc-set n xs v (omega arith))

  pub take-set_ge : (n i : ℕ) (xs : List A) (v : A) → n ≤ i → take n (set xs i v) ≡ take n xs
  take-set_ge zero i xs v h = refl
  take-set_ge (suc n) i [] v h = refl
  take-set_ge (suc n) zero (x ∷ xs) v h = absurd (omega arith)
  take-set_ge (suc n) (suc i) (x ∷ xs) v h = ap (λ t. x ∷ t) (take-set_ge n i xs v (omega arith))

  pub get_or-append :
      (i : ℕ) (xs ys : List A) (d : A) → i < length xs → get_or (xs ++ ys) i d ≡ get_or xs i d
  get_or-append i [] ys d h = elim h [ ]
  get_or-append zero (x ∷ xs) ys d h = refl
  get_or-append (suc i) (x ∷ xs) ys d h = get_or-append i xs ys d (omega arith)

  pub take_exact : (n : ℕ) (xs ys : List A) → length xs ≡ n → take n (xs ++ ys) ≡ xs
  take_exact zero [] ys h = refl
  take_exact zero (x ∷ xs) ys h = absurd (omega arith)
  take_exact (suc n) [] ys h = absurd (omega arith)
  take_exact (suc n) (x ∷ xs) ys h = ap (λ t. x ∷ t) (take_exact n xs ys (omega arith))

  pub take-set_lt : (n i : ℕ) (xs : List A) (v : A) → take n (set xs i v) ≡ set (take n xs) i v
  take-set_lt zero i xs v = refl
  take-set_lt (suc n) i [] v = refl
  take-set_lt (suc n) zero (x ∷ xs) v = refl
  take-set_lt (suc n) (suc i) (x ∷ xs) v = ap (λ t. x ∷ t) (take-set_lt n i xs v)

  -- Opening a gap of one by a move of `k` elements, and writing into it, is an insertion.
  pub take-gap :
      (i k e n : ℕ) (xs : List A) (v : A)
      → n ≡ i + k
      → e ≡ suc n
      → e ≤ length xs
      → take e (set (take (suc i) xs ++ (take k (drop i xs) ++ drop e xs)) i v)
        ≡ insert_at i v (take n xs)
  take-gap i k zero n xs v p q h = absurd (omega arith)
  take-gap i k (suc e) n [] v p q h = absurd (omega arith)
  take-gap zero k (suc e) n (x ∷ xs) v p q h =
      let k-e : k ≡ e = omega arith in
      let n-e : n ≡ e = omega arith in
      rw (k-e, n-e)
        (ap (λ t. v ∷ t)
          (take_exact e (take e (x ∷ xs)) (drop e xs) (omega (arith, length-take e (x ∷ xs)))))
  take-gap (suc i) k (suc e) zero (x ∷ xs) v p q h = absurd (omega arith)
  take-gap (suc i) k (suc e) (suc n) (x ∷ xs) v p q h =
      ap (λ t. x ∷ t) (take-gap i k e n xs v (omega arith) (omega arith) (omega arith))

  pub insert_at-length : (xs : List A) (v : A) → insert_at (length xs) v xs ≡ xs ++ v ∷ []
  insert_at-length [] v = refl
  insert_at-length (x ∷ xs) v = ap (λ t. x ∷ t) (insert_at-length xs v)

  pub take-suc-remove_at :
      (d : ℕ) (xs : List A) → d < length xs → remove_at d (take (suc d) xs) ≡ take d xs
  take-suc-remove_at d [] h = elim h [ ]
  take-suc-remove_at zero (x ∷ xs) h = refl
  take-suc-remove_at (suc d) (x ∷ xs) h = ap (λ t. x ∷ t) (take-suc-remove_at d xs (omega arith))

  -- Copying the next element down moves the place to remove up by one.
  pub remove_at-suc-set :
      (d : ℕ) (xs : List A) (o : A)
      → suc d < length xs
      → remove_at (suc d) (set xs d (get_or xs (suc d) o)) ≡ remove_at d xs
  remove_at-suc-set d [] o h = elim h [ ]
  remove_at-suc-set zero (x ∷ []) o h = absurd (omega arith)
  remove_at-suc-set zero (x ∷ y ∷ xs) o h = refl
  remove_at-suc-set (suc d) (x ∷ xs) o h = ap (λ t. x ∷ t) (remove_at-suc-set d xs o (omega arith))

  pub get_or-take : (n i : ℕ) (xs : List A) (o : A) → i < n → get_or (take n xs) i o ≡ get_or xs i o
  get_or-take zero i xs o h = elim h [ ]
  get_or-take (suc n) i [] o h = refl
  get_or-take (suc n) zero (x ∷ xs) o h = refl
  get_or-take (suc n) (suc i) (x ∷ xs) o h = get_or-take n i xs o (omega arith)

  pub get_or-insert_at_lt :
      (i j : ℕ) (v d : A) (xs : List A)
      → j < i
      → i ≤ length xs
      → get_or (insert_at i v xs) j d ≡ get_or xs j d
  get_or-insert_at_lt zero j v d xs h le = elim h [ ]
  get_or-insert_at_lt (suc i) j v d [] h le = absurd (omega arith)
  get_or-insert_at_lt (suc i) zero v d (x ∷ xs) h le = refl
  get_or-insert_at_lt (suc i) (suc j) v d (x ∷ xs) h le =
      get_or-insert_at_lt i j v d xs (omega arith) (omega arith)

  pub get_or-insert_at_self :
      (i : ℕ) (v d : A) (xs : List A) → i ≤ length xs → get_or (insert_at i v xs) i d ≡ v
  get_or-insert_at_self zero v d xs h = refl
  get_or-insert_at_self (suc i) v d [] h = absurd (omega arith)
  get_or-insert_at_self (suc i) v d (x ∷ xs) h = get_or-insert_at_self i v d xs (omega arith)

  pub get_or-insert_at_gt :
      (i j : ℕ) (v d : A) (xs : List A)
      → i ≤ j
      → get_or (insert_at i v xs) (suc j) d ≡ get_or xs j d
  get_or-insert_at_gt zero j v d xs h = refl
  get_or-insert_at_gt (suc i) zero v d xs h = absurd (omega arith)
  get_or-insert_at_gt (suc i) (suc j) v d [] h = refl
  get_or-insert_at_gt (suc i) (suc j) v d (x ∷ xs) h = get_or-insert_at_gt i j v d xs (omega arith)

  -- Where each entry of the longer list comes from.
  pub insert_at-cases :
      (i j : ℕ) (v d : A) (xs : List A)
      → i ≤ length xs
      → ((j < i) × (get_or (insert_at i v xs) j d ≡ get_or xs j d))
        ⊎ (((j ≡ i) × (get_or (insert_at i v xs) j d ≡ v))
            ⊎ ((i < j) × (get_or (insert_at i v xs) j d ≡ get_or xs (pred j) d)))
  insert_at-cases i zero v d xs h = elim (Bool-cases (ltb 0 i)) [
    | inl lt ↦ inl (ltb→lt _ _ lt, get_or-insert_at_lt i 0 v d xs (ltb→lt _ _ lt) h)
    | inr le ↦ let e : i ≡ 0 = omega (arith, ltb→le _ _ le) in rw e (inr (inl (refl, refl)))
  ]
  insert_at-cases i (suc j) v d xs h = elim (Bool-cases (ltb (suc j) i)) [
    | inl lt ↦ inl (ltb→lt _ _ lt, get_or-insert_at_lt i (suc j) v d xs (ltb→lt _ _ lt) h)
    | inr ge ↦ elim (Bool-cases (ltb i (suc j))) [
      | inl gt ↦
          inr (inr (ltb→lt _ _ gt, get_or-insert_at_gt i j v d xs (omega (arith, ltb→lt _ _ gt))))
      | inr le ↦
          let e : i ≡ suc j = omega (arith, ltb→le _ _ le, ltb→le _ _ ge) in
          rw e (inr (inl (refl, get_or-insert_at_self (suc j) v d xs (omega arith))))
    ]
  ]

  pub get_or-append_last : (xs : List A) (x d : A) → get_or (xs ++ x ∷ []) (length xs) d ≡ x
  get_or-append_last [] x d = refl
  get_or-append_last (y ∷ xs) x d = get_or-append_last xs x d

  pub append_one-cases :
      (i : ℕ) (xs : List A) (x d : A)
      → i < length (xs ++ x ∷ [])
      → ((i < length xs) × (get_or (xs ++ x ∷ []) i d ≡ get_or xs i d))
        ⊎ ((i ≡ length xs) × (get_or (xs ++ x ∷ []) i d ≡ x))
  append_one-cases i xs x d h = elim (Bool-cases (ltb i (length xs))) [
    | inl lt ↦ inl (ltb→lt _ _ lt, get_or-append i xs (x ∷ []) d (ltb→lt _ _ lt))
    | inr ge ↦
        let e : i ≡ length xs = omega (arith, ltb→le _ _ ge, length-append xs (x ∷ [])) in
        rw e (inr (refl, get_or-append_last xs x d))
  ]
