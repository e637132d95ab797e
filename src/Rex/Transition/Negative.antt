-- ===== src/Rex/Transition/Negative.antt =====
-- `rex_transitions_negative`: the complement of a normal array of ranges.
use rpatk.Base.{
  ℕ, ◌+◌, ◌≤◌, ◌<◌, ◌≡◌, ◌⊎◌, ◌↔◌, inl, inr, List, [], ◌∷◌, arith, if◌then◌else◌, ◌==◌,
}
use rpatk.Rex.Transition.{
  Transition, char_max, transitions_add, plus_one, minus_one, negative_loop, transitions_negative,
}
use rpatk.Rex.Transition.Moves.{Covers, Moves}
use rpatk.Rex.Transition.Add.{Moves-transitions_add}

-- a character that some range covers
abbrev pub Covered : List Transition → ℕ → Type 0
Covered [] c = ⊥
Covered (t ∷ ts) c = Covers t c ⊎ Covered ts c

-- From `low` on: proper ranges with a gap before each, the last ending at `char_max` at most.
abbrev pub Gapped : ℕ → List Transition → Type 0
Gapped low [] = Unit
Gapped low (t ∷ ts) =
    (low ≤ t.lowin) × (t.lowin ≤ t.highin) × (t.highin ≤ char_max) × Gapped (t.highin + 2) ts

Gapped-above : (low c : ℕ) (ts : List Transition) → Gapped low ts → c < low → ¬ Covered ts c
Gapped-above low c [] g h k = k
Gapped-above low c (t ∷ ts) g h (inl k) = omega arith
Gapped-above low c (t ∷ ts) g h (inr k) = Gapped-above (t.highin + 2) c ts g.3 (omega arith) k

module _ (src uid c d : ℕ) (small : c ≤ char_max) where
  -- the rest of the loop adds exactly the characters above `p` that no later range covers
  Moves-negative_loop :
      (dst : List Transition) (p : Transition) (ts : List Transition)
      → p.highin ≤ char_max
      → Gapped (p.highin + 2) ts
      → Moves (negative_loop dst src uid p ts) c d
        ↔ (Moves dst c d ⊎ ((p.highin < c) × ¬ Covered ts c × (d ≡ uid)))
  unfolding negative_loop
  Moves-negative_loop dst p [] h g =
      ground (arith, Moves-transitions_add dst (plus_one p.highin) char_max src uid c d)
  Moves-negative_loop dst p (t ∷ ts) h g = ground (
    arith,
    Moves-transitions_add dst (plus_one p.highin) (minus_one t.lowin) src uid c d,
    Moves-negative_loop (transitions_add dst (plus_one p.highin) (minus_one t.lowin) src uid) t ts,
    λ (k : c < t.highin + 2). Gapped-above (t.highin + 2) c ts g.3 k,
  )

  -- For a character, the complement adds to `dst` the destination `uid` exactly if no range of the
  -- source covers it: for ranges in order with a gap between any two, as after a normalisation.
  pub Moves-transitions_negative :
      (dst ts : List Transition)
      → Gapped 0 ts
      → Moves (transitions_negative dst ts src uid) c d
        ↔ (Moves dst c d ⊎ (¬ Covered ts c × (d ≡ uid)))
  unfolding transitions_negative
  Moves-transitions_negative dst [] g =
      ground (arith, Moves-transitions_add dst 0 char_max src uid c d)
  Moves-transitions_negative dst (t ∷ ts) g = ground (
    arith,
    Moves-transitions_add dst 0 (minus_one t.lowin) src uid c d,
    Moves-negative_loop
        (if t.lowin == 0 then dst else transitions_add dst 0 (minus_one t.lowin) src uid) t ts,
    λ (k : c < t.highin + 2). Gapped-above (t.highin + 2) c ts g.3 k,
  )
