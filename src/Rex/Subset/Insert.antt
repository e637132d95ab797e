-- ===== src/Rex/Subset/Insert.antt =====
-- Insertion into a subset: a set insertion that keeps the array strictly ascending.
use rpatk.Base.{
  ℕ, suc, pred, ◌≤◌, ◌≡◌, ◌⊎◌, ◌↔◌, inl, inr, Option, none, some, List, ◌++◌, length, length-append,
  arith,
}
use rpatk.Base.Slices.{insert_at, length-insert_at, insert_at-cases, get_or-append}
use rpatk.Rex.Search.{Placed, place_lem}
use rpatk.Rex.Subset.{In, uid_at, IsSubset, placed, addnew}
use rpatk.Rex.Subset.Member.{In-insert_at, uid_at-In}

insert_at-IsSubset :
    (xs : List ℕ) (v r : ℕ)
    → IsSubset xs
    → Placed (uid_at xs) v (length xs) (some r)
    → IsSubset (insert_at r v xs)
insert_at-IsSubset xs v r sorted (le, below, above) i j lt h =
    let size = length-insert_at r v xs in
    elim (insert_at-cases r i v 0 xs le) [
      | inl (p, e) ↦ elim (insert_at-cases r j v 0 xs le) [
        | inl (q, f) ↦ omega (arith, e, f, sorted i j lt (omega arith))
        | inr (inl (q, f)) ↦ omega (arith, e, f, below i p)
        | inr (inr (q, f)) ↦
            omega (arith, e, f, below i p, above (pred j) (omega arith) (omega arith))
      ]
      | inr (inl (p, e)) ↦ elim (insert_at-cases r j v 0 xs le) [
        | inl (q, f) ↦ absurd (omega arith)
        | inr (inl (q, f)) ↦ absurd (omega arith)
        | inr (inr (q, f)) ↦ omega (arith, e, f, above (pred j) (omega arith) (omega arith))
      ]
      | inr (inr (p, e)) ↦ elim (insert_at-cases r j v 0 xs le) [
        | inl (q, f) ↦ absurd (omega arith)
        | inr (inl (q, f)) ↦ absurd (omega arith)
        | inr (inr (q, f)) ↦
            omega (arith, e, f, sorted (pred i) (pred j) (omega arith) (omega arith))
      ]
    ]

-- what an insertion does to a subset
pub record Adds (xs ys : List ℕ) (v : ℕ) : Type 0 where
  pub subset : IsSubset ys
  pub members : (a : ℕ) → In a ys ↔ ((a ≡ v) ⊎ In a xs)
  pub size : length ys ≤ suc (length xs)

placed-Adds :
    (xs : List ℕ) (v : ℕ) (o : Option ℕ)
    → IsSubset xs
    → Placed (uid_at xs) v (length xs) o
    → Adds xs (placed xs v o) v
unfolding placed
placed-Adds xs v none sorted (i, lt, e) = record {
  subset = sorted;
  members = λ a. (inr, λ h. elim h [ inl same ↦ rw (same, ← e) (uid_at-In i xs lt) | inr k ↦ k ]);
  size = omega arith;
}
placed-Adds xs v (some r) sorted p = record {
  subset = insert_at-IsSubset xs v r sorted p;
  members = λ a. In-insert_at r a v xs;
  size = omega (arith, length-insert_at r v xs);
}

-- Adding a state to a subset adds that member and no other, once, and keeps the array strictly
-- ascending.
pub addnew-Adds : (xs : List ℕ) (v : ℕ) → IsSubset xs → Adds xs (addnew xs v) v
unfolding addnew
addnew-Adds xs v sorted = placed-Adds xs v _ sorted (place_lem (uid_at xs) v (length xs) sorted)

-- the front of a subset is one
pub append-IsSubset : (xs ys : List ℕ) → IsSubset (xs ++ ys) → IsSubset xs
append-IsSubset xs ys sorted i j lt h = omega (
  arith,
  get_or-append i xs ys 0 (omega arith),
  get_or-append j xs ys 0 h,
  sorted i j lt (omega (arith, length-append xs ys)),
)
