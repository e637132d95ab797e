-- ===== src/Rex/Transition/Add.antt =====
-- `rex_transitions_add`: one more range, and the order of the array.
use rpatk.Base.{
  ℕ, ◌≤◌, ◌<◌, ◌≡◌, ◌⊎◌, ◌↔◌, inl, inr, ap, min, max, pred, List, [], ◌∷◌, ◌++◌, length, arith,
  Bool-cases, ltb, ltb→lt, ltb→le,
}
use rpatk.Base.Slices.{insert_at, length-insert_at, insert_at-cases, insert_at-length}
use rpatk.Rex.Search.{bound_loop, Splits, bound_lem, IsAscending}
use rpatk.Rex.Transition.{Transition, blank, low_at, ordered, transitions_add}
use rpatk.Rex.Transition.Moves.{Moves, Moves-insert_at}

-- A new range leads its characters to its destination, and changes nothing else, in whichever order
-- its ends are given.
pub Moves-transitions_add :
    (ts : List Transition) (c₁ c₂ src dst c d : ℕ)
    → Moves (transitions_add ts c₁ c₂ src dst) c d
      ↔ (((min c₁ c₂ ≤ c) × (c ≤ max c₁ c₂) × (d ≡ dst)) ⊎ Moves ts c d)
unfolding transitions_add
Moves-transitions_add ts c₁ c₂ src dst c d = ground (
  arith,
  Moves-insert_at (bound_loop (length ts) (low_at ts) c₁ 0 (length ts)) (ordered c₁ c₂ src dst) ts c
      d,
)

-- An insertion at the split point of its key keeps the keys in order.
pub insert_at-IsAscending :
    (ts : List Transition) (t : Transition) (r : ℕ)
    → IsAscending (low_at ts) (length ts)
    → Splits (low_at ts) t.lowin (length ts) r
    → IsAscending (low_at (insert_at r t ts)) (length (insert_at r t ts))
insert_at-IsAscending ts t r sorted s i j lt h =
    let size = length-insert_at r t ts in
    let low = λ (x : Transition). x.lowin in
    elim (insert_at-cases r i t blank ts s.inside) [
      | inl (p, e) ↦ elim (insert_at-cases r j t blank ts s.inside) [
        | inl (q, f) ↦ omega (arith, ap low e, ap low f, sorted i j lt (omega (arith, s.inside)))
        | inr (inl (q, f)) ↦ omega (arith, ap low e, ap low f, s.below i p)
        | inr (inr (q, f)) ↦
            omega
              (arith, ap low e, ap low f, s.below i p, s.above (pred j) (omega arith) (omega arith))
      ]
      | inr (inl (p, e)) ↦ elim (insert_at-cases r j t blank ts s.inside) [
        | inl (q, f) ↦ absurd (omega arith)
        | inr (inl (q, f)) ↦ absurd (omega arith)
        | inr (inr (q, f)) ↦
            omega (arith, ap low e, ap low f, s.above (pred j) (omega arith) (omega arith))
      ]
      | inr (inr (p, e)) ↦ elim (insert_at-cases r j t blank ts s.inside) [
        | inl (q, f) ↦ absurd (omega arith)
        | inr (inl (q, f)) ↦ absurd (omega arith)
        | inr (inr (q, f)) ↦
            omega (arith, ap low e, ap low f, sorted (pred i) (pred j) (omega arith) (omega arith))
      ]
    ]

-- Adding a range with its ends in order keeps the array in the order of `lowin`.
pub transitions_add-IsAscending :
    (ts : List Transition) (c₁ c₂ src dst : ℕ)
    → c₁ ≤ c₂
    → IsAscending (low_at ts) (length ts)
    → IsAscending
        (low_at (transitions_add ts c₁ c₂ src dst))
        (length (transitions_add ts c₁ c₂ src dst))
unfolding transitions_add
transitions_add-IsAscending ts c₁ c₂ src dst le sorted =
    let low : (ordered c₁ c₂ src dst).lowin ≡ c₁ = ground arith in
    insert_at-IsAscending ts (ordered c₁ c₂ src dst) _ sorted
      (rw low (bound_lem (low_at ts) c₁ (length ts) sorted))

-- A range above all others goes to the end.
pub transitions_add_last :
    (ts : List Transition) (low high src dst : ℕ)
    → IsAscending (low_at ts) (length ts)
    → ((i : ℕ) → i < length ts → low_at ts i ≤ low)
    → transitions_add ts low high src dst ≡ ts ++ ordered low high src dst ∷ []
unfolding transitions_add
transitions_add_last ts low high src dst sorted top =
    let n = length ts in
    let s = bound_lem (low_at ts) low n sorted in
    let r = bound_loop n (low_at ts) low 0 n in
    let at_end : r ≡ n = elim (Bool-cases (ltb r n)) [
      | inl lt ↦
          absurd (omega (arith, s.above r (omega arith) (ltb→lt _ _ lt), top r (ltb→lt _ _ lt)))
      | inr ge ↦ omega (arith, s.inside, ltb→le _ _ ge)
    ] in
    rw at_end (insert_at-length ts (ordered low high src dst))
