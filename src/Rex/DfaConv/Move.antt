-- ===== src/Rex/DfaConv/Move.antt =====
-- `rex_dfaconv_move` on the ranges of `rex_dfaconv_uniqueranges`: a step of the subset construction
-- leads where the states of the subset lead, character by character.
use rpatk.Base.{
  ℕ, ◌<◌, ◌≤◌, ◌≡◌, ◌⊎◌, ◌↔◌, ◌&&◌, inl, inr, refl, Bool-cases, List, [], ◌∷◌, ◌++◌, length, arith,
  leb,
}
use rpatk.Rex.Transition.{Transition, char_max, trans_at}
use rpatk.Rex.Transition.Moves.{Covers, Moves, IsNormal}
use rpatk.Rex.Subset.{In, IsSubset, addnew}
use rpatk.Rex.Subset.Insert.{addnew-Adds}
use rpatk.Rex.State.{Db, state_at}
use rpatk.Rex.DfaConv.{move_state, move_loop, move, copy_ranges, subset_transitions, uniqueranges}
use rpatk.Rex.DfaConv.Ranges.{InSource, AreRanges, uniqueranges_lem}

-- a transition covers the whole range
abbrev MovesRange : List Transition → ℕ → ℕ → ℕ → Type 0
MovesRange [] c₁ c₂ d = ⊥
MovesRange (t ∷ ts) c₁ c₂ d =
    ((t.lowin ≤ c₁) × (c₂ ≤ t.highin) × (d ≡ t.dstuid)) ⊎ MovesRange ts c₁ c₂ d

abbrev SomeMovesRange : Db → List ℕ → ℕ → ℕ → ℕ → Type 0
SomeMovesRange db [] c₁ c₂ d = ⊥
SomeMovesRange db (u ∷ us) c₁ c₂ d =
    MovesRange (state_at db u).trans c₁ c₂ d ⊎ SomeMovesRange db us c₁ c₂ d

-- Some state of the set leads to `d` by the character `c`.
abbrev pub SomeMoves : Db → List ℕ → ℕ → ℕ → Type 0
SomeMoves db [] c d = ⊥
SomeMoves db (u ∷ us) c d = Moves (state_at db u).trans c d ⊎ SomeMoves db us c d

record Gathers (set out : List ℕ) (P : ℕ → Type 0) : Type 0 where
  subset : IsSubset out
  members : (d : ℕ) → In d out ↔ (In d set ⊎ P d)

move_state-Gathers :
    (ts : List Transition) (c₁ c₂ : ℕ) (set : List ℕ)
    → IsSubset set
    → Gathers set (move_state ts c₁ c₂ set) (MovesRange ts c₁ c₂)
unfolding move_state
move_state-Gathers [] c₁ c₂ set h = record { subset = h; members = λ d. (inl, λ k. ground arith) }
move_state-Gathers (t ∷ ts) c₁ c₂ set h = elim (Bool-cases (leb t.lowin c₁ && leb c₂ t.highin)) [
  | inl fits ↦
      let added = addnew-Adds set t.dstuid h in
      let rest = move_state-Gathers ts c₁ c₂ (addnew set t.dstuid) added.subset in
      rw fits (record {
        subset = rest.subset;
        members = λ d. ground (arith, rest.members d, added.members d);
      })
  | inr misses ↦
      let rest = move_state-Gathers ts c₁ c₂ set h in
      rw misses (record { subset = rest.subset; members = λ d. ground (arith, rest.members d) })
]

move_loop-Gathers :
    (db : Db) (us : List ℕ) (c₁ c₂ : ℕ) (set : List ℕ)
    → IsSubset set
    → Gathers set (move_loop db us c₁ c₂ set) (SomeMovesRange db us c₁ c₂)
unfolding move_loop
move_loop-Gathers db [] c₁ c₂ set h = record { subset = h; members = λ d. (inl, λ k. ground arith) }
move_loop-Gathers db (u ∷ us) c₁ c₂ set h =
    let first = move_state-Gathers (state_at db u).trans c₁ c₂ set h in
    let rest =
      move_loop-Gathers db us c₁ c₂ (move_state (state_at db u).trans c₁ c₂ set) first.subset in
    record { subset = rest.subset; members = λ d. ground (arith, rest.members d, first.members d) }

InSource-append :
    (low high l h : ℕ) (src : List (ℕ × ℕ))
    → InSource low high (src ++ (l, h) ∷ []) ↔ (InSource low high src ⊎ ((low ≡ l) × (high ≡ h)))
InSource-append low high l h [] = ground arith
InSource-append low high l h ((l', h') ∷ src) = ground (arith, InSource-append low high l h src)

abbrev pub IsRangeOf : ℕ → ℕ → List Transition → Type 0
IsRangeOf low high [] = ⊥
IsRangeOf low high (t ∷ ts) = ((low ≡ t.lowin) × (high ≡ t.highin)) ⊎ IsRangeOf low high ts

InSource-copy_ranges :
    (ts : List Transition) (out : List (ℕ × ℕ)) (low high : ℕ)
    → InSource low high (copy_ranges ts out) ↔ (InSource low high out ⊎ IsRangeOf low high ts)
unfolding copy_ranges
InSource-copy_ranges [] out low high = (inl, λ k. ground arith)
InSource-copy_ranges (t ∷ ts) out low high = ground (
  arith,
  InSource-copy_ranges ts (out ++ (t.lowin, t.highin) ∷ []) low high,
  InSource-append low high t.lowin t.highin out,
)

abbrev IsRangeOfSome : Db → ℕ → ℕ → List ℕ → Type 0
IsRangeOfSome db low high [] = ⊥
IsRangeOfSome db low high (u ∷ us) =
    IsRangeOf low high (state_at db u).trans ⊎ IsRangeOfSome db low high us

InSource-subset_transitions :
    (db : Db) (us : List ℕ) (out : List (ℕ × ℕ)) (low high : ℕ)
    → InSource low high (subset_transitions db us out)
      ↔ (InSource low high out ⊎ IsRangeOfSome db low high us)
unfolding subset_transitions
InSource-subset_transitions db [] out low high = (inl, λ k. ground arith)
InSource-subset_transitions db (u ∷ us) out low high = ground (
  arith,
  InSource-subset_transitions db us (copy_ranges (state_at db u).trans out) low high,
  InSource-copy_ranges (state_at db u).trans out low high,
)

-- The ranges of the transitions are proper ranges of characters.
pub record IsProper (db : Db) : Type 0 where
  pub proper :
      (u low high : ℕ) → IsRangeOf low high (state_at db u).trans → (low ≤ high) × (high ≤ char_max)

IsRangeOfSome-proper :
    (db : Db) (us : List ℕ) (low high : ℕ)
    → IsProper db
    → IsRangeOfSome db low high us
    → (low ≤ high) × (high ≤ char_max)
IsRangeOfSome-proper db [] low high p h = absurd h
IsRangeOfSome-proper db (u ∷ us) low high p (inl h) = p.proper u low high h
IsRangeOfSome-proper db (u ∷ us) low high p (inr h) = IsRangeOfSome-proper db us low high p h

-- the range tells the character `c` from no other
abbrev Whole : ℕ → ℕ → ℕ → (ℕ → ℕ → Type 0) → Type 0
Whole c c₁ c₂ P =
    (low high : ℕ) → P low high → ((low ≤ c) × (c ≤ high)) ↔ ((low ≤ c₁) × (c₂ ≤ high))

MovesRange-Moves :
    (ts : List Transition) (c c₁ c₂ d : ℕ)
    → Whole c c₁ c₂ (λ low high. IsRangeOf low high ts)
    → MovesRange ts c₁ c₂ d ↔ Moves ts c d
MovesRange-Moves [] c c₁ c₂ d h = (λ k. k, λ k. k)
MovesRange-Moves (t ∷ ts) c c₁ c₂ d h =
    let here = h t.lowin t.highin (inl (refl, refl)) in
    ground (arith, here, MovesRange-Moves ts c c₁ c₂ d (λ low high k. h low high (inr k)))

SomeMovesRange-SomeMoves :
    (db : Db) (us : List ℕ) (c c₁ c₂ d : ℕ)
    → Whole c c₁ c₂ (λ low high. IsRangeOfSome db low high us)
    → SomeMovesRange db us c₁ c₂ d ↔ SomeMoves db us c d
SomeMovesRange-SomeMoves db [] c c₁ c₂ d h = (λ k. k, λ k. k)
SomeMovesRange-SomeMoves db (u ∷ us) c c₁ c₂ d h = ground (
  arith,
  MovesRange-Moves (state_at db u).trans c c₁ c₂ d (λ low high k. h low high (inl k)),
  SomeMovesRange-SomeMoves db us c c₁ c₂ d (λ low high k. h low high (inr k)),
)

-- the ranges that the construction makes for a set of states
abbrev pub ranges : Db → List ℕ → List Transition
ranges db us = uniqueranges (subset_transitions db us [])

ranges_source : (db : Db) (us : List ℕ) → IsProper db → AreRanges (subset_transitions db us [])
ranges_source db us p low high k = elim ((InSource-subset_transitions db us [] low high).0 k) [
  | inl none_left ↦ absurd none_left
  | inr r ↦ IsRangeOfSome-proper db us low high p r
]

pub ranges-IsNormal : (db : Db) (us : List ℕ) → IsProper db → IsNormal (ranges db us)
ranges-IsNormal db us p = (uniqueranges_lem (subset_transitions db us []) (ranges_source db us p)).0

-- For every range that the construction makes for a set of states, the move set is strictly
-- ascending and holds exactly the states to which some state of the set leads by any one character
-- of the range: for a database whose transitions have proper ranges.
pub move-SomeMoves :
    (db : Db) (us : List ℕ) (i c d : ℕ)
    → IsProper db
    → i < length (ranges db us)
    → Covers (trans_at (ranges db us) i) c
    → let t = trans_at (ranges db us) i in
      IsSubset (move db us t.lowin t.highin)
      × (In d (move db us t.lowin t.highin) ↔ SomeMoves db us c d)
unfolding move
move-SomeMoves db us i c d p lt cover =
    let src = subset_transitions db us [] in
    let t = trans_at (ranges db us) i in
    let (_, _, whole) = uniqueranges_lem src (ranges_source db us p) in
    let g = move_loop-Gathers db us t.lowin t.highin [] (λ i j lt h. elim h [ ]) in
    let same = SomeMovesRange-SomeMoves db us c t.lowin t.highin d (λ low high k.
      whole i c low high lt cover ((InSource-subset_transitions db us [] low high).1 (inr k))) in
    (g.subset, ground (arith, g.members d, same))

-- And every character lies in one of the ranges.
pub ranges_cover :
    (db : Db) (us : List ℕ) (c : ℕ)
    → IsProper db
    → c ≤ char_max
    → (i : ℕ) × (i < length (ranges db us)) × Covers (trans_at (ranges db us) i) c
ranges_cover db us c p le =
    (uniqueranges_lem (subset_transitions db us []) (ranges_source db us p)).1 c le
