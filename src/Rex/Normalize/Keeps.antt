-- ===== src/Rex/Normalize/Keeps.antt =====
-- One merge of `rex_transitions_normalize` on an array of sorted transitions.
use rpatk.Base.{
  ℕ, ◌+◌, ◌≤◌, ◌<◌, ◌≡◌, ◌≢◌, ◌⊎◌, ◌↔◌, sym, ap, ◌∙◌, inl, inr, Bool-cases, some, length,
  length-set, set, ltb, ltb→lt, ltb→le, arith,
}
use rpatk.Base.Slices.{remove_at}
use rpatk.RArray.{Memory, RArray, slot, contents, exist_replace, delete}
use rpatk.RArray.Contents.{IsValid}
use rpatk.Rex.Transition.{Transition}
use rpatk.Rex.Normalize.{absorb, swallow}
use rpatk.Rex.Normalize.Ends.{write-IsValid, len-write, absorb-Shrinks, delete-Shrinks}
use rpatk.Rex.Normalize.Apart.{merged-IsNormal, remove_at-IsNormal}
use rpatk.Rex.Normalize.Merge.{Leads, Moves-covered, Moves-merged}
use rpatk.Rex.Normalize.Sorted.{
  AreSorted, set-AreSorted, remove_at-AreSorted, Same, size_of, slot_of, contents-write,
  contents-delete,
}

pub some_injective : {A : Type 0} (x y : A) → some x ≡ some y → x ≡ y
some_injective x y e = ground (arith, e)

-- the range that takes another in
absorbs :
    (it jt : Transition) (c d : ℕ)
    → it.dstuid ≡ jt.dstuid
    → it.highin < jt.highin
    → it.lowin ≤ jt.lowin
    → jt.lowin ≤ it.highin + 1
    → Leads (record it { highin = jt.highin }) c d ↔ (Leads it c d ⊎ Leads jt c d)
absorbs it jt c d goal wider low near = ground arith

-- the range inside another
pub inside :
    (it jt : Transition) (c d : ℕ)
    → it.dstuid ≡ jt.dstuid
    → jt.highin ≤ it.highin
    → it.lowin ≤ jt.lowin
    → Leads jt c d
    → Leads it c d
inside it jt c d goal narrow low k = ground arith

module _ ⦃m : Memory Transition⦄ where
  -- a merge of the transition at `j` into the one at `i`
  pub record IsMerge (a : RArray Transition) (i j : ℕ) : Type 0 where
    pub valid : IsValid a
    pub sorted : AreSorted (contents a)
    pub first : i < a.len
    pub second : j < a.len
    pub apart : i ≢ j
    pub same_goal : (slot a i).dstuid ≡ (slot a j).dstuid

  -- a later transition is the one merged
  pub behind :
      (a : RArray Transition) (i j : ℕ)
      → IsMerge a i j
      → (slot a i).lowin ≤ (slot a j).lowin
      → i < j
  behind a i j g low =
      let si = ap (λ (x : Transition). x.lowin) (slot_of a i g.valid g.first) in
      let sj = ap (λ (x : Transition). x.lowin) (slot_of a j g.valid g.second) in
      let ne = g.apart in
      elim (Bool-cases (ltb j i)) [
        | inl before ↦ absurd (
            omega (
              arith,
              si,
              sj,
              g.sorted.strict j i (ltb→lt _ _ before) (omega (arith, size_of a g.valid, g.first)),
            ))
        | inr not_before ↦ omega (arith, ltb→le _ _ not_before)
      ]

  pub absorb-Same :
      (a : RArray Transition) (i j : ℕ)
      → IsMerge a i j
      → (slot a i).highin < (slot a j).highin
      → (slot a i).lowin ≤ (slot a j).lowin
      → (slot a j).lowin ≤ (slot a i).highin + 1
      → Same a (absorb a i j)
  unfolding absorb
  absorb-Same a i j g wider low near =
      let ts = contents a in
      let t = record (slot a i) { highin = (slot a j).highin } in
      let b = exist_replace a i (some t) in
      let size = size_of a g.valid in
      let si = slot_of a i g.valid g.first in
      let sj = slot_of a j g.valid g.second in
      let proper = g.sorted.proper i (omega (arith, size, g.first)) in
      let lists : contents (absorb a i j) ≡ remove_at j (set ts i t) =
        contents-delete b j (write-IsValid a i t g.valid) (omega (arith, len-write a i t, g.second))
        ∙ ap (remove_at j) (contents-write a i t) in
      let p : i < length ts = omega (arith, size, g.first) in
      let q : j < length ts = omega (arith, size, g.second) in
      let written =
        set-AreSorted ts i t p (ap (λ (x : Transition). x.lowin) si)
          (omega (
            arith,
            proper,
            ap (λ (x : Transition). x.lowin) si,
            ap (λ (x : Transition). x.highin) si,
          ))
          g.sorted in
      record {
        valid = (absorb-Shrinks a i j g.valid g.second).valid;
        sorted =
            rw lists
              (remove_at-AreSorted (set ts i t) j (omega (arith, length-set ts i t)) written);
        leads = λ c d. rw lists (
            Moves-merged i j t ts c d g.apart p q
              (rw (sym si, sym sj) (absorbs (slot a i) (slot a j) c d g.same_goal wider low near)));
        normal = λ n. rw lists (
            merged-IsNormal ts n i j t q (behind a i j g low) (ap (λ (x : Transition). x.lowin) si)
              (ap (λ (x : Transition). x.highin) sj)
              (omega (
                arith,
                near,
                ap (λ (x : Transition). x.highin) si,
                ap (λ (x : Transition). x.lowin) sj,
              )));
      }

  cover-Same :
      (a : RArray Transition) (i j : ℕ)
      → IsMerge a i j
      → (slot a j).highin ≤ (slot a i).highin
      → (slot a i).lowin ≤ (slot a j).lowin
      → Same a (delete a j)
  cover-Same a i j g narrow low =
      let ts = contents a in
      let size = size_of a g.valid in
      let si = slot_of a i g.valid g.first in
      let sj = slot_of a j g.valid g.second in
      let lists = contents-delete a j g.valid g.second in
      let p : i < length ts = omega (arith, size, g.first) in
      let q : j < length ts = omega (arith, size, g.second) in
      record {
        valid = (delete-Shrinks a j g.valid g.second).valid;
        sorted = rw lists (remove_at-AreSorted ts j q g.sorted);
        leads = λ c d. rw lists (
            Moves-covered i j ts c d g.apart p q
              (rw (sym si, sym sj) (inside (slot a i) (slot a j) c d g.same_goal narrow low)));
        normal = λ n. rw lists (remove_at-IsNormal ts j q n);
      }

  pub swallow-Same :
      (a : RArray Transition) (i j : ℕ)
      → IsMerge a i j
      → (slot a i).lowin ≤ (slot a j).lowin
      → (slot a j).lowin ≤ (slot a i).highin
      → Same a (swallow a i j)
  unfolding swallow
  swallow-Same a i j g low near = elim (Bool-cases (ltb (slot a i).highin (slot a j).highin)) [
    | inl wider ↦ rw wider (absorb-Same a i j g (ltb→lt _ _ wider) low (omega arith))
    | inr covered ↦ rw covered (cover-Same a i j g (ltb→le _ _ covered) low)
  ]

  pub slot_proper :
      (a : RArray Transition) (i : ℕ)
      → IsValid a
      → AreSorted (contents a)
      → i < a.len
      → (slot a i).lowin ≤ (slot a i).highin
  slot_proper a i h s p = rw (slot_of a i h p) (s.proper i (omega (arith, size_of a h)))
