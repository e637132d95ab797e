-- ===== src/Rex/Subset/Member.antt =====
-- Members of a subset by index, and what a pop leaves.
use rpatk.Base.{
  ℕ, zero, suc, ◌<◌, ◌≡◌, ◌⊎◌, ◌↔◌, inl, inr, refl, sym, none, some, List, [], ◌∷◌, ◌++◌, length,
  arith,
}
use rpatk.Base.Slices.{insert_at}
use rpatk.Rex.Subset.{In, uid_at, pop_last}

pub In-uid_at : (a : ℕ) (xs : List ℕ) → In a xs → (i : ℕ) × (i < length xs) × (uid_at xs i ≡ a)
In-uid_at a [] h = absurd h
In-uid_at a (x ∷ xs) (inl e) = (0, omega arith, sym e)
In-uid_at a (x ∷ xs) (inr h) = let (i, lt, e) = In-uid_at a xs h in (suc i, omega arith, e)

pub uid_at-In : (i : ℕ) (xs : List ℕ) → i < length xs → In (uid_at xs i) xs
uid_at-In i [] h = elim h [ ]
uid_at-In zero (x ∷ xs) h = inl refl
uid_at-In (suc i) (x ∷ xs) h = inr (uid_at-In i xs (omega arith))

pub In-insert_at : (i a v : ℕ) (xs : List ℕ) → In a (insert_at i v xs) ↔ ((a ≡ v) ⊎ In a xs)
In-insert_at zero a v xs = (λ h. h, λ h. h)
In-insert_at (suc i) a v [] = (λ h. h, λ h. h)
In-insert_at (suc i) a v (x ∷ xs) = ground (arith, In-insert_at i a v xs)

pub In-append : (a : ℕ) (xs ys : List ℕ) → In a (xs ++ ys) ↔ (In a xs ⊎ In a ys)
In-append a [] ys = (inr, λ h. ground arith)
In-append a (x ∷ xs) ys = ground (arith, In-append a xs ys)

-- A pop takes the last member off, and fails on the empty array only.
pub pop_last-append :
    (xs : List ℕ)
    → ((pop_last xs ≡ none) × (xs ≡ []))
      ⊎ ((ys : List ℕ) × (y : ℕ) × (pop_last xs ≡ some (ys, y)) × (xs ≡ ys ++ y ∷ []))
unfolding pop_last
pop_last-append [] = inl (refl, refl)
pop_last-append (x ∷ xs) = elim (pop_last-append xs) [
  | inl (e, nil) ↦ inr ([], x, rw (e, pop_last), rw nil)
  | inr (ys, y, e, split) ↦ inr (x ∷ ys, y, rw (e, pop_last), rw split)
]
