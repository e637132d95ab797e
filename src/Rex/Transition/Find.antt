-- ===== src/Rex/Transition/Find.antt =====
-- `rex_transitions_find` finds the one transition that covers a character.
use rpatk.Base.{
  ℕ, suc, ◌-◌, ◌<◌, ◌≡◌, ◌↔◌, inl, inr, Bool-cases, some, List, length, arith, ltb, ltb→lt, ltb→le,
  if◌then◌else◌,
}
use rpatk.Rex.Search.{bound_loop, Splits, bound_lem, IsAscending}
use rpatk.Rex.Transition.{Transition, trans_at, low_at, transitions_find}
use rpatk.Rex.Transition.Moves.{Covers, Moves, Moves-trans_at, trans_at-Moves, IsNormal}

module _ (ts : List Transition) (normal : IsNormal ts) where
  pub ascending : IsAscending (low_at ts) (length ts)
  ascending i j lt h = omega (arith, normal.proper i (omega arith), normal.apart i j lt h)

  -- the split point stands right behind a transition that covers the character
  pub split-Covers :
      (c r i : ℕ)
      → Splits (low_at ts) c (length ts) r
      → i < length ts
      → Covers (trans_at ts i) c
      → r ≡ suc i
  split-Covers c r i s h cover = elim (Bool-cases (ltb i r)) [
    | inr out ↦ absurd (omega (arith, s.above i (ltb→le _ _ out) h))
    | inl in_ ↦ elim (Bool-cases (ltb (suc i) r)) [
      | inr last ↦ omega (arith, ltb→lt _ _ in_, ltb→le _ _ last)
      | inl more ↦ absurd (
          omega (
            arith,
            s.below (suc i) (ltb→lt _ _ more),
            normal.apart i (suc i) (omega arith) (omega (arith, s.inside, ltb→lt _ _ more)),
          ))
    ]
  ]

  -- whichever transition covers the character is the one found
  pub find-covering :
      (c i : ℕ)
      → i < length ts
      → Covers (trans_at ts i) c
      → transitions_find ts c ≡ some (trans_at ts i)
  unfolding transitions_find
  find-covering c i h cover =
      let e = split-Covers c _ i (bound_lem (low_at ts) c (length ts) ascending) h cover in
      rw e (ground arith)

  find-found :
      (c : ℕ) (t : Transition)
      → transitions_find ts c ≡ some t
      → (i : ℕ) × (i < length ts) × (t ≡ trans_at ts i) × Covers t c
  unfolding transitions_find
  find-found c t h =
      let r = bound_loop (length ts) (low_at ts) c 0 (length ts) in
      let split = bound_lem (low_at ts) c (length ts) ascending in
      (if ltb 0 r then r - 1 else r, ground (arith, split.inside), ground arith, ground arith)

  -- On normal transitions the search decides where a character leads: to `d` exactly if it finds a
  -- transition and `d` is its destination.
  pub find-Moves :
      (c d : ℕ)
      → Moves ts c d ↔ ((t : Transition) × (transitions_find ts c ≡ some t) × (d ≡ t.dstuid))
  find-Moves c d = (
    λ h.
        let (i, lt, cover, e) = Moves-trans_at ts c d h in
        (trans_at ts i, find-covering c i lt cover, e),
    λ (t, found, e).
        let (i, lt, same, cover) = find-found c t found in
        rw (e, same) (trans_at-Moves ts i c lt (rw same at cover)),
  )
