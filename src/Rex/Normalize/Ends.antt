-- ===== src/Rex/Normalize/Ends.antt =====
-- The normalisation ends: each round deletes a transition or goes on to the next.
use rpatk.Base.{
  ℕ, zero, suc, ◌+◌, ◌-◌, ◌*◌, ◌≤◌, ◌<◌, ◌≡◌, ◌⊎◌, refl, ◌∙◌, inl, inr, Bool-cases, Option,
  Option-cases, none, some, length-set, ltb, ltb→lt, ◌==◌, arith,
}
use rpatk.RArray.{Memory, RArray, slot, exist_replace, delete}
use rpatk.RArray.Contents.{IsValid}
use rpatk.RArray.Delete.{delete_lem, len-delete}
use rpatk.Rex.Transition.{Transition}
use rpatk.Rex.Normalize.{
  Verdict, keep, overlap, adjacent, verdict, absorb, swallow, inner, mark_input, outer, normalize,
}

pub verdict-cases : (v : Verdict) → (v ≡ keep) ⊎ ((v ≡ overlap) ⊎ (v ≡ adjacent))
verdict-cases keep = inl refl
verdict-cases overlap = inr (inl refl)
verdict-cases adjacent = inr (inr refl)

module _ ⦃m : Memory Transition⦄ where
  -- one transition fewer
  pub record Shrinks (a b : RArray Transition) : Type 0 where
    pub valid : IsValid b
    pub shorter : suc b.len ≡ a.len

  pub write-IsValid :
      (a : RArray Transition) (i : ℕ) (t : Transition)
      → IsValid a
      → IsValid (exist_replace a i (some t))
  unfolding exist_replace
  write-IsValid a i t h = record { fits = omega (arith, h.fits, length-set a.data_ i t) }

  pub len-write :
      (a : RArray Transition) (i : ℕ) (t : Transition) → (exist_replace a i (some t)).len ≡ a.len
  unfolding exist_replace
  len-write a i t = refl

  pub delete-Shrinks :
      (a : RArray Transition) (j : ℕ) → IsValid a → j < a.len → Shrinks a (delete a j)
  delete-Shrinks a j h lt = record { valid = (delete_lem a j h).1; shorter = len-delete a j h lt }

  pub absorb-Shrinks :
      (a : RArray Transition) (i j : ℕ) → IsValid a → j < a.len → Shrinks a (absorb a i j)
  unfolding absorb
  absorb-Shrinks a i j h lt =
      let t = record (slot a i) { highin = (slot a j).highin } in
      let b = exist_replace a i (some t) in
      let s = delete-Shrinks b j (write-IsValid a i t h) (omega (arith, len-write a i t)) in
      record { valid = s.valid; shorter = s.shorter ∙ len-write a i t }

  pub swallow-Shrinks :
      (a : RArray Transition) (i j : ℕ) → IsValid a → j < a.len → Shrinks a (swallow a i j)
  unfolding swallow
  swallow-Shrinks a i j h lt = elim (Bool-cases (ltb (slot a i).highin (slot a j).highin)) [
    | inl wider ↦ rw wider (absorb-Shrinks a i j h lt)
    | inr covered ↦ rw covered (delete-Shrinks a j h lt)
  ]

  -- a restart of the inner loop
  abbrev Restarts : RArray Transition → Option (RArray Transition) → Type 0
  Restarts a none = Unit
  Restarts a (some b) = Shrinks a b

  inner-Restarts :
      (n : ℕ) (a : RArray Transition) (i j : ℕ)
      → IsValid a
      → j + n ≤ a.len
      → Restarts a (inner n a i j)
  unfolding inner
  inner-Restarts zero a i j h le = tt
  inner-Restarts (suc n) a i j h le =
      let rest = inner-Restarts n a i (suc j) h (omega arith) in
      elim (Bool-cases (i == j)) [
        | inl same ↦ rw (same, inner) rest
        | inr other ↦ elim (verdict-cases (verdict (slot a i) (slot a j))) [
          | inl v ↦ rw (other, inner, v) rest
          | inr (inl v) ↦ rw (other, inner, v) (swallow-Shrinks a i j h (omega arith))
          | inr (inr v) ↦ rw (other, inner, v) (absorb-Shrinks a i j h (omega arith))
        ]
      ]

  pub mark_input-IsValid :
      (a : RArray Transition) (i : ℕ)
      → IsValid a
      → IsValid (mark_input a i) × ((mark_input a i).len ≡ a.len)
  unfolding mark_input
  mark_input-IsValid a i h = elim (Bool-cases ((slot a i).lowin == (slot a i).highin)) [
    | inl one ↦ rw one (write-IsValid a i _ h, len-write a i _)
    | inr more ↦ rw more (h, refl)
  ]

  outer_ends :
      (fuel : ℕ) (a : RArray Transition) (i : ℕ)
      → IsValid a
      → a.len + (a.len - i) < fuel
      → (b : RArray Transition) × (outer fuel a i ≡ some b) × IsValid b × (b.len ≤ a.len)
  unfolding outer
  outer_ends zero a i h lt = elim lt [ ]
  outer_ends (suc fuel) a i h lt =
      let b = mark_input a i in
      let (valid, size) = mark_input-IsValid a i h in
      let found = inner-Restarts b.len b i 0 valid (omega arith) in
      elim (Option-cases (inner b.len b i 0)) [
        | inr (c, again) ↦
            let s : Shrinks b c = rw again at found in
            let (t, runs, ok, le) = outer_ends fuel c i s.valid (omega (arith, s.shorter, size)) in
            (t, rw (outer, again) runs, ok, omega (arith, s.shorter))
        | inl none_left ↦ elim (Bool-cases (ltb (suc i) b.len)) [
          | inl more ↦
              let (t, runs, ok, le) =
                outer_ends fuel b (suc i) valid (omega (arith, size, ltb→lt _ _ more)) in
              (t, rw (outer, none_left, more) runs, ok, omega arith)
          | inr done ↦ (b, rw (outer, none_left, done) refl, valid, omega arith)
        ]
      ]

  -- The normalisation ends within its fuel on every valid array, however its ranges overlap. The array
  -- stays valid and does not grow.
  pub normalize_ends :
      (a : RArray Transition)
      → IsValid a
      → (b : RArray Transition) × (normalize a ≡ some b) × IsValid b × (b.len ≤ a.len)
  unfolding normalize
  normalize_ends a h = elim (Bool-cases (a.len == 0)) [
    | inl nothing ↦ (a, rw (nothing, normalize) refl, h, omega arith)
    | inr some_ ↦
        let (b, runs, ok, le) = outer_ends (suc (2 * a.len)) a 0 h (omega arith) in
        (b, rw (some_, normalize) runs, ok, le)
  ]
