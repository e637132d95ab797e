-- ===== src/Rex/Normalize/Whole.antt =====
-- `rex_transitions_normalize` as a whole on an array of sorted transitions.
use rpatk.Base.{
  ℕ, zero, suc, ◌+◌, ◌*◌, ◌≤◌, ◌<◌, ◌≡◌, ◌↔◌, refl, sym, ap, inl, inr, Bool-cases, Option,
  Option-cases, none, some, length, ltb, ltb→lt, ◌==◌, ==→ne, arith,
}
use mathlib.Core.Path.{subst}
use rpatk.RArray.{Memory, RArray, slot, contents}
use rpatk.RArray.Contents.{IsValid}
use rpatk.Rex.Transition.{Transition, input}
use rpatk.Rex.Transition.Moves.{Moves, IsNormal}
use rpatk.Rex.Normalize.{verdict, inner, mark_input, outer, normalize}
use rpatk.Rex.Normalize.Ends.{
  verdict-cases, write-IsValid, absorb-Shrinks, swallow-Shrinks, mark_input-IsValid, normalize_ends,
}
use rpatk.Rex.Normalize.Apart.{set-IsNormal}
use rpatk.Rex.Normalize.Merge.{Moves-rewritten}
use rpatk.Rex.Normalize.Sorted.{
  AreSorted, set-AreSorted, verdict_overlap, verdict_adjacent, Same, size_of, slot_of,
  contents-write,
}
use rpatk.Rex.Normalize.Keeps.{
  some_injective, IsMerge, behind, absorb-Same, swallow-Same, slot_proper,
}

module _ ⦃m : Memory Transition⦄ where
  -- the outcome of the inner loop: a restart keeps the place inside the array
  abbrev Goes : RArray Transition → ℕ → Option (RArray Transition) → Type 0
  Goes a i none = Unit
  Goes a i (some b) = Same a b × (i < b.len)

  inner-Goes :
      (n : ℕ) (a : RArray Transition) (i j : ℕ)
      → IsValid a
      → AreSorted (contents a)
      → i < a.len
      → j + n ≤ a.len
      → Goes a i (inner n a i j)
  unfolding inner
  inner-Goes zero a i j h s p le = tt
  inner-Goes (suc n) a i j h s p le =
      let rest = inner-Goes n a i (suc j) h s p (omega arith) in
      let q : j < a.len = omega arith in
      elim (Bool-cases (i == j)) [
        | inl same ↦ rw (same, inner) rest
        | inr other ↦
            let ne = ==→ne i j other in
            elim (verdict-cases (verdict (slot a i) (slot a j))) [
              | inl v ↦ rw (other, inner, v) rest
              | inr (inl v) ↦
                  let (goal, low, near) = verdict_overlap (slot a i) (slot a j) v in
                  let g : IsMerge a i j = record {
                    valid = h;
                    sorted = s;
                    first = p;
                    second = q;
                    apart = ne;
                    same_goal = goal;
                  } in
                  rw (other, inner, v)
                    (
                      swallow-Same a i j g low near,
                      omega (arith, behind a i j g low, (swallow-Shrinks a i j h q).shorter),
                    )
              | inr (inr v) ↦
                  let (goal, next_) = verdict_adjacent (slot a i) (slot a j) v in
                  let proper_i = slot_proper a i h s p in
                  let proper_j = slot_proper a j h s q in
                  let low : (slot a i).lowin ≤ (slot a j).lowin = omega (arith, proper_i) in
                  let wider : (slot a i).highin < (slot a j).highin = omega (arith, proper_j) in
                  let g : IsMerge a i j = record {
                    valid = h;
                    sorted = s;
                    first = p;
                    second = q;
                    apart = ne;
                    same_goal = goal;
                  } in
                  rw (other, inner, v)
                    (
                      absorb-Same a i j g wider low (omega arith),
                      omega (arith, behind a i j g low, (absorb-Shrinks a i j h q).shorter),
                    )
            ]
      ]

  mark_input-Same :
      (a : RArray Transition) (i : ℕ)
      → IsValid a
      → AreSorted (contents a)
      → i < a.len
      → Same a (mark_input a i)
  unfolding mark_input
  mark_input-Same a i h s p = elim (Bool-cases ((slot a i).lowin == (slot a i).highin)) [
    | inr more ↦
        rw more (record { valid = h; sorted = s; leads = λ c d. (λ k. k, λ k. k); normal = λ n. n })
    | inl one ↦
        let ts = contents a in
        let t = record (slot a i) { kind = input } in
        let si = slot_of a i h p in
        let lists = contents-write a i t in
        let q : i < length ts = omega (arith, size_of a h) in
        rw one (record {
          valid = write-IsValid a i t h;
          sorted = rw lists (
              set-AreSorted ts i t q (ap (λ (x : Transition). x.lowin) si) (slot_proper a i h s p)
                s);
          leads = λ c d. rw lists (Moves-rewritten i t ts c d q (rw (sym si) (λ k. k, λ k. k)));
          normal = λ n. rw lists (
              set-IsNormal ts i t q (ap (λ (x : Transition). x.lowin) si)
                (ap (λ (x : Transition). x.highin) si) n);
        })
  ]

  Same-trans : (a b c : RArray Transition) → Same a b → Same b c → Same a c
  Same-trans a b c f g = record {
    valid = g.valid;
    sorted = g.sorted;
    leads =
        λ x d. (λ k. (f.leads x d).0 ((g.leads x d).0 k), λ k. (g.leads x d).1 ((f.leads x d).1 k));
    normal = λ n. g.normal (f.normal n);
  }

  outer-Same :
      (fuel : ℕ) (a b : RArray Transition) (i : ℕ)
      → IsValid a
      → AreSorted (contents a)
      → i < a.len
      → outer fuel a i ≡ some b
      → Same a b
  unfolding outer
  outer-Same zero a b i h s p runs = absurd (ground arith)
  outer-Same (suc fuel) a b i h s p runs =
      let k = mark_input a i in
      let marked = mark_input-Same a i h s p in
      let size = (mark_input-IsValid a i h).1 in
      let goes =
        inner-Goes k.len k i 0 marked.valid marked.sorted (omega (arith, size)) (omega arith) in
      elim (Option-cases (inner k.len k i 0)) [
        | inr (c, again) ↦
            let (same, inside_) : Same k c × (i < c.len) = rw again at goes in
            Same-trans a k b marked (
              Same-trans k c b same
                (outer-Same fuel c b i same.valid same.sorted inside_ (rw (outer, again) at runs)))
        | inl none_left ↦ elim (Bool-cases (ltb (suc i) k.len)) [
          | inl more ↦ Same-trans a k b marked (
              outer-Same fuel k b (suc i) marked.valid marked.sorted (ltb→lt _ _ more)
                (rw (outer, none_left, more) at runs))
          | inr done ↦
              let e : k ≡ b = some_injective k b (rw (outer, none_left, done) at runs) in
              subst (Same a) e marked
        ]
      ]

  -- The normalisation of proper ranges that start one behind the other, overlapping or not, ends in
  -- ranges of the same kind that lead every character to the same states as before. Where no range
  -- reached into the next before, none does afterwards.
  pub normalize-Moves :
      (a : RArray Transition)
      → IsValid a
      → AreSorted (contents a)
      → (b : RArray Transition) × (normalize a ≡ some b)
        × AreSorted (contents b)
        × ((c d : ℕ) → Moves (contents b) c d ↔ Moves (contents a) c d)
        × (IsNormal (contents a) → IsNormal (contents b))
  unfolding normalize
  normalize-Moves a h s =
      let (b, runs, _, _) = normalize_ends a h in
      elim (Bool-cases (a.len == 0)) [
        | inl nothing ↦ (a, rw (nothing, normalize) refl, s, λ c d. (λ k. k, λ k. k), λ n. n)
        | inr some_ ↦
            let same =
              outer-Same (suc (2 * a.len)) a b 0 h s (omega (arith, ==→ne a.len 0 some_))
                (rw (some_, normalize) at runs) in
            (b, runs, same.sorted, same.leads, same.normal)
      ]
