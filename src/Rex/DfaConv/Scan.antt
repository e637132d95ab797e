-- ===== src/Rex/DfaConv/Scan.antt =====
-- One round of the closure: marks, stack, result, and the measure that falls.
use rpatk.Base.{
  ℕ, zero, suc, ◌+◌, ◌<◌, ◌≤◌, ◌≡◌, ◌⊎◌, ◌↔◌, inl, inr, refl, ap, true, false, Bool-cases, List, [],
  ◌∷◌, length, arith, if◌then◌else◌, ltb,
}
use rpatk.Rex.Transition.{Transition}
use rpatk.Rex.Subset.{In, IsSubset}
use rpatk.Rex.Subset.Insert.{addnew-Adds}
use rpatk.Rex.State.{targets}
use rpatk.Rex.DfaConv.{Marks, Work, set_mark, visit, enqueue, offer, scan}

-- the numbers below `n` that are not marked
abbrev pub unmarked : ℕ → Marks → ℕ
unmarked zero f = 0
unmarked (suc n) f = (if f n then 0 else 1) + unmarked n f

pub unmarked_le : (n : ℕ) (f : Marks) → unmarked n f ≤ n
unmarked_le zero f = omega arith
unmarked_le (suc n) f = ground (arith, unmarked_le n f)

unmarked_same : (n u : ℕ) (f : Marks) → n ≤ u → unmarked n (set_mark f u true) ≡ unmarked n f
unfolding set_mark
unmarked_same zero u f h = refl
unmarked_same (suc n) u f h = ground (arith, unmarked_same n u f)

pub unmarked-set_mark :
    (n u : ℕ) (f : Marks)
    → u < n
    → f u ≡ false
    → suc (unmarked n (set_mark f u true)) ≡ unmarked n f
unfolding set_mark
unmarked-set_mark zero u f h e = elim h [ ]
unmarked-set_mark (suc n) u f h e = elim (Bool-cases (ltb u n)) [
  | inl lt ↦ ground (arith, unmarked-set_mark n u f)
  | inr ge ↦ let same : u ≡ n = ground arith in ground (arith, unmarked_same n u f, ap f same)
]

pub unmarked-set_mark_le : (n u : ℕ) (f : Marks) → unmarked n (set_mark f u true) ≤ unmarked n f
unfolding set_mark
unmarked-set_mark_le zero u f = omega arith
unmarked-set_mark_le (suc n) u f = ground (arith, unmarked-set_mark_le n u f)

-- the arrays are subsets, and the result holds the marked states
pub record IsWork (w : Work) : Type 0 where
  pub stack : IsSubset w.set_t
  pub result : IsSubset w.dest
  pub marks : (v : ℕ) → In v w.dest ↔ (w.marked v ≡ true)

module _ (w : Work) (u : ℕ) (h : IsWork w) where
  pub visit-IsWork : IsWork (visit w u)
  unfolding visit set_mark
  visit-IsWork = record {
    stack = (addnew-Adds w.set_t u h.stack).subset;
    result = (addnew-Adds w.dest u h.result).subset;
    marks = λ v. ground (arith, (addnew-Adds w.dest u h.result).members v, h.marks v);
  }

  pub marked-visit : (v : ℕ) → ((visit w u).marked v ≡ true) ↔ ((v ≡ u) ⊎ (w.marked v ≡ true))
  unfolding visit set_mark
  marked-visit v = ground arith

  pub In-visit : (v : ℕ) → In v (visit w u).set_t ↔ ((v ≡ u) ⊎ In v w.set_t)
  unfolding visit
  In-visit v = (addnew-Adds w.set_t u h.stack).members v

  pub offer-IsWork : IsWork (offer w u)
  unfolding offer
  offer-IsWork = elim (Bool-cases (w.marked u)) [ inl e ↦ rw e h | inr e ↦ rw e visit-IsWork ]

  pub marked-offer : (v : ℕ) → ((offer w u).marked v ≡ true) ↔ ((v ≡ u) ⊎ (w.marked v ≡ true))
  unfolding offer
  marked-offer v = ground (arith, marked-visit v)

  pub In-offer :
      (v : ℕ)
      → In v (offer w u).set_t
        ↔ (In v w.set_t ⊎ (((offer w u).marked v ≡ true) × (w.marked v ≡ false)))
  unfolding offer
  In-offer v = ground (arith, marked-visit v, In-visit v)

-- what the loops work off
abbrev pub measure : ℕ → Work → ℕ
measure n w = unmarked n w.marked + length w.set_t

measure-offer : (n u : ℕ) (w : Work) → IsWork w → u < n → measure n (offer w u) ≤ measure n w
unfolding offer visit
measure-offer n u w h lt = elim (Bool-cases (w.marked u)) [
  | inl e ↦ rw e (omega arith)
  | inr e ↦
      rw e
        (omega (arith, unmarked-set_mark n u w.marked lt e, (addnew-Adds w.set_t u h.stack).size))
]

pub scan-IsWork : (ts : List Transition) (w : Work) → IsWork w → IsWork (scan ts w)
unfolding scan
scan-IsWork [] w h = h
scan-IsWork (t ∷ ts) w h = scan-IsWork ts (offer w t.dstuid) (offer-IsWork w t.dstuid h)

-- a scan marks exactly the targets of the transitions
pub marked-scan :
    (ts : List Transition) (w : Work) (v : ℕ)
    → IsWork w
    → ((scan ts w).marked v ≡ true) ↔ (In v (targets ts) ⊎ (w.marked v ≡ true))
unfolding scan
marked-scan [] w v h = (inr, λ k. ground arith)
marked-scan (t ∷ ts) w v h = ground (
  arith,
  marked-scan ts (offer w t.dstuid) v (offer-IsWork w t.dstuid h),
  marked-offer w t.dstuid h v,
)

-- and stacks exactly the states that it marks
pub In-scan :
    (ts : List Transition) (w : Work) (v : ℕ)
    → IsWork w
    → In v (scan ts w).set_t
      ↔ (In v w.set_t ⊎ (((scan ts w).marked v ≡ true) × (w.marked v ≡ false)))
unfolding scan
In-scan [] w v h = (inl, λ k. ground arith)
In-scan (t ∷ ts) w v h =
    let next = offer-IsWork w t.dstuid h in
    ground (
      arith,
      In-scan ts (offer w t.dstuid) v next,
      marked-scan ts (offer w t.dstuid) v next,
      marked-offer w t.dstuid h v,
      In-offer w t.dstuid h v,
    )

pub measure-scan :
    (n : ℕ) (ts : List Transition) (w : Work)
    → IsWork w
    → ((v : ℕ) → In v (targets ts) → v < n)
    → measure n (scan ts w) ≤ measure n w
unfolding scan
measure-scan n [] w h closed = omega arith
measure-scan n (t ∷ ts) w h closed = omega (
  arith,
  measure-scan n ts (offer w t.dstuid) (offer-IsWork w t.dstuid h) (λ v k. closed v (inr k)),
  measure-offer n t.dstuid w h (closed t.dstuid (inl refl)),
)

pub enqueue-IsWork : (us : List ℕ) (w : Work) → IsWork w → IsWork (enqueue us w)
unfolding enqueue
enqueue-IsWork [] w h = h
enqueue-IsWork (u ∷ us) w h = enqueue-IsWork us (visit w u) (visit-IsWork w u h)

pub marked-enqueue :
    (us : List ℕ) (w : Work) (v : ℕ)
    → IsWork w
    → ((enqueue us w).marked v ≡ true) ↔ (In v us ⊎ (w.marked v ≡ true))
unfolding enqueue
marked-enqueue [] w v h = (inr, λ k. ground arith)
marked-enqueue (u ∷ us) w v h =
    ground (arith, marked-enqueue us (visit w u) v (visit-IsWork w u h), marked-visit w u h v)

pub In-enqueue :
    (us : List ℕ) (w : Work) (v : ℕ)
    → IsWork w
    → In v (enqueue us w).set_t ↔ (In v us ⊎ In v w.set_t)
unfolding enqueue
In-enqueue [] w v h = (inr, λ k. ground arith)
In-enqueue (u ∷ us) w v h =
    ground (arith, In-enqueue us (visit w u) v (visit-IsWork w u h), In-visit w u h v)

pub measure-enqueue :
    (n : ℕ) (us : List ℕ) (w : Work) → IsWork w → measure n (enqueue us w) ≤ measure n w + length us
unfolding enqueue visit
measure-enqueue n [] w h = omega arith
measure-enqueue n (u ∷ us) w h = omega (
  arith,
  measure-enqueue n us (visit w u) (visit-IsWork w u h),
  unmarked-set_mark_le n u w.marked,
  (addnew-Adds w.set_t u h.stack).size,
)
