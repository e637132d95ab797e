-- ===== src/Rex/Normalize/Apart.antt =====
-- Ranges that do not reach into one another stay so in `rex_transitions_normalize`: all that it merges
-- are neighbours.
use rpatk.Base.{
  ℕ, suc, ◌+◌, ◌<◌, ◌≤◌, ◌≡◌, ◌≢◌, ◌⊎◌, inl, inr, sym, ap, ◌∙◌, Bool-cases, List, length,
  length-set, set, get_or-set_self, get_or-set_ne, ltb, ltb→lt, ltb→le, ◌==◌, ==_iff, ==→ne, arith,
  lt→ltb, ltb_no, if◌then◌else◌,
}
use rpatk.Base.Slices.{remove_at}
use rpatk.Rex.Transition.{Transition, blank, trans_at, low_at}
use rpatk.Rex.Transition.Moves.{IsNormal}
use rpatk.Rex.Normalize.Merge.{get_or-remove_at, length-remove_at}

-- the transition at `k` is on the range of `s`
abbrev OnRange : Transition → Transition → Type 0
OnRange t s = (t.lowin ≡ s.lowin) × (t.highin ≡ s.highin)

on_range : {t s : Transition} → t ≡ s → OnRange t s
on_range e = (ap (λ (x : Transition). x.lowin) e, ap (λ (x : Transition). x.highin) e)

set_range :
    (ts : List Transition) (i k : ℕ) (t : Transition)
    → i < length ts
    → OnRange t (trans_at ts i)
    → OnRange (trans_at (set ts i t) k) (trans_at ts k)
set_range ts i k t lt (low, high) = elim (Bool-cases (k == i)) [
  | inl same ↦
      let e = (==_iff k i).0 same in
      let now = on_range (ap (trans_at (set ts i t)) e ∙ get_or-set_self ts i t blank lt) in
      let then_ = on_range (ap (trans_at ts) e) in omega (arith, now, then_)
  | inr other ↦ on_range (get_or-set_ne ts i k t blank (λ e. ==→ne k i other (sym e)))
]

pub set-IsNormal :
    (ts : List Transition) (i : ℕ) (t : Transition)
    → i < length ts
    → t.lowin ≡ (trans_at ts i).lowin
    → t.highin ≡ (trans_at ts i).highin
    → IsNormal ts
    → IsNormal (set ts i t)
set-IsNormal ts i t lt low high n =
    let at_ = λ (k : ℕ). set_range ts i k t lt (low, high) in
    let size = length-set ts i t in
    record {
      proper = λ k h. omega (arith, at_ k, n.proper k (omega (arith, size)));
      apart = λ a b p h. omega (arith, at_ a, at_ b, n.apart a b p (omega (arith, size)));
    }

-- where a transition stood before the one at `j` was removed
before : ℕ → ℕ → ℕ
before j k = if ltb k j then k else suc k

before_range :
    (ts : List Transition) (j k : ℕ)
    → OnRange (trans_at (remove_at j ts) k) (trans_at ts (before j k))
unfolding before
before_range ts j k = elim (get_or-remove_at j k ts) [
  | inl (lt, e) ↦ rw (lt→ltb k j lt) (on_range e)
  | inr (le, e) ↦ rw (ltb_no k j le) (on_range e)
]

pub remove_at-IsNormal :
    (ts : List Transition) (j : ℕ) → j < length ts → IsNormal ts → IsNormal (remove_at j ts)
unfolding before
remove_at-IsNormal ts j lt n =
    let at_ = λ (k : ℕ). before_range ts j k in
    let size = length-remove_at j ts lt in
    record {
      proper = λ k h. omega (arith, at_ k, n.proper (before j k) (ground (arith, size)));
      apart = λ a b p h. omega (
        arith,
        at_ a,
        at_ b,
        n.apart (before j a) (before j b) (ground arith) (ground (arith, size)),
      );
    }

module _ (ts : List Transition) (n : IsNormal ts) (i j : ℕ) (t : Transition) (lt : j < length ts)
    (first : i < j) where
  -- a range that a merge can take in is the next one
  neighbours : low_at ts j ≤ (trans_at ts i).highin + 1 → j ≡ suc i
  neighbours near = elim (Bool-cases (ltb (suc i) j)) [
    | inl more ↦
        let p : suc i < j = ltb→lt _ _ more in
        absurd (
          omega (
            arith,
            n.apart i (suc i) (omega arith) (omega arith),
            n.proper (suc i) (omega arith),
            n.apart (suc i) j p lt,
          ))
    | inr next ↦ omega (arith, ltb→le _ _ next)
  ]

  -- the range at `k` of the merged list begins where one of `ts` does, and ends where that ends, or
  -- with the range at `j`
  merged_range :
      t.lowin ≡ low_at ts i
      → t.highin ≡ (trans_at ts j).highin
      → (k : ℕ)
      → ((trans_at (remove_at j (set ts i t)) k).lowin ≡ low_at ts (before j k))
        × (((k ≡ i) × ((trans_at (remove_at j (set ts i t)) k).highin ≡ (trans_at ts j).highin))
            ⊎ ((k ≢ i)
                × ((trans_at (remove_at j (set ts i t)) k).highin
                    ≡ (trans_at ts (before j k)).highin)))
  unfolding before
  merged_range low high k =
      let r = before_range (set ts i t) j k in
      elim (Bool-cases (k == i)) [
        | inl same ↦
            let e = (==_iff k i).0 same in
            let b : before j k ≡ i = ground arith in
            let w =
              on_range
                (ap (trans_at (set ts i t)) b ∙ get_or-set_self ts i t blank (omega arith)) in
            let l = ap (low_at ts) b in (omega (arith, r, w, l), inl (e, omega (arith, r, w)))
        | inr other ↦
            let ne = ==→ne k i other in
            let b : i ≢ before j k = ground arith in
            let w = on_range (get_or-set_ne ts i (before j k) t blank b) in
            (omega (arith, r, w), inr (ne, omega (arith, r, w)))
      ]

  pub merged-IsNormal :
      t.lowin ≡ low_at ts i
      → t.highin ≡ (trans_at ts j).highin
      → low_at ts j ≤ (trans_at ts i).highin + 1
      → IsNormal (remove_at j (set ts i t))
  unfolding before
  merged-IsNormal low high near =
      let next = neighbours near in
      let size = length-remove_at j (set ts i t) (omega (arith, length-set ts i t)) in
      let whole = length-set ts i t in
      let at_ = merged_range low high in
      record {
        proper = λ k h.
            let (l, hik) = at_ k in
            elim hik [
              | inl (e, hi) ↦
                  let b : before j k ≡ i = ground arith in
                  omega (
                    arith,
                    l,
                    hi,
                    ap (low_at ts) b,
                    n.proper i (omega arith),
                    n.apart i j first lt,
                    n.proper j lt,
                  )
              | inr (ne, hi) ↦
                  omega (arith, l, hi, n.proper (before j k) (ground (arith, size, whole)))
            ];
        apart = λ a b p h.
            let (lb, _) = at_ b in
            elim (at_ a).1 [
              | inl (e, hi) ↦ omega (
                arith,
                lb,
                hi,
                n.apart j (before j b) (ground arith) (ground (arith, size, whole)),
              )
              | inr (ne, hi) ↦ omega (
                arith,
                lb,
                hi,
                n.apart (before j a) (before j b) (ground arith) (ground (arith, size, whole)),
              )
            ];
      }
