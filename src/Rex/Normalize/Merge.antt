-- ===== src/Rex/Normalize/Merge.antt =====
-- Merging one transition into another, on the list of them: what it leads to stays the same.
use rpatk.Base.{
  ℕ, zero, suc, ◌≤◌, ◌<◌, ◌≡◌, ◌≢◌, ◌⊎◌, ◌↔◌, refl, ap, inl, inr, List, [], ◌∷◌, length, length-set,
  set, arith, get_or-set_self, get_or-set_ne, Bool-cases, ltb, ltb→lt, ltb→le,
}
use rpatk.Base.Slices.{remove_at}
use rpatk.Rex.Transition.{Transition, blank, trans_at}
use rpatk.Rex.Transition.Moves.{Covers, Moves}

-- one transition by itself
abbrev pub Leads : Transition → ℕ → ℕ → Type 0
Leads t c d = Covers t c × (d ≡ t.dstuid)

Moves-remove_at :
    (j : ℕ) (ts : List Transition) (c d : ℕ)
    → j < length ts
    → Moves ts c d ↔ (Leads (trans_at ts j) c d ⊎ Moves (remove_at j ts) c d)
Moves-remove_at j [] c d lt = elim lt [ ]
Moves-remove_at zero (t ∷ ts) c d lt = (λ k. k, λ k. k)
Moves-remove_at (suc j) (t ∷ ts) c d lt = ground (arith, Moves-remove_at j ts c d (omega arith))

Moves-set :
    (i : ℕ) (t : Transition) (ts : List Transition) (c d : ℕ)
    → i < length ts
    → (Moves (set ts i t) c d ⊎ Leads (trans_at ts i) c d) ↔ (Moves ts c d ⊎ Leads t c d)
Moves-set i t [] c d lt = elim lt [ ]
Moves-set zero t (s ∷ ts) c d lt = ground arith
Moves-set (suc i) t (s ∷ ts) c d lt = ground (arith, Moves-set i t ts c d (omega arith))

Leads-Moves :
    (i : ℕ) (ts : List Transition) (c d : ℕ)
    → i < length ts
    → Leads (trans_at ts i) c d
    → Moves ts c d
Leads-Moves i ts c d lt k = (Moves-remove_at i ts c d lt).1 (inl k)

-- a transition at another place is not the one that is removed
Leads-remove_at :
    (i j : ℕ) (ts : List Transition) (c d : ℕ)
    → i ≢ j
    → i < length ts
    → Leads (trans_at ts i) c d
    → Moves (remove_at j ts) c d
Leads-remove_at i j [] c d ne lt k = elim lt [ ]
Leads-remove_at zero zero (t ∷ ts) c d ne lt k = absurd (ne refl)
Leads-remove_at zero (suc j) (t ∷ ts) c d ne lt k = inl k
Leads-remove_at (suc i) zero (t ∷ ts) c d ne lt k = Leads-Moves i ts c d (omega arith) k
Leads-remove_at (suc i) (suc j) (t ∷ ts) c d ne lt k =
    inr (Leads-remove_at i j ts c d (λ e. ne (ap suc e)) (omega arith) k)

-- A transition goes where another one leads by all its characters.
pub Moves-covered :
    (i j : ℕ) (ts : List Transition) (c d : ℕ)
    → i ≢ j
    → i < length ts
    → j < length ts
    → (Leads (trans_at ts j) c d → Leads (trans_at ts i) c d)
    → Moves (remove_at j ts) c d ↔ Moves ts c d
Moves-covered i j ts c d ne p q covered =
    let split = Moves-remove_at j ts c d q in
    (
      λ k. split.1 (inr k),
      λ k. elim (split.0 k) [
        | inl own ↦ Leads-remove_at i j ts c d ne p (covered own)
        | inr rest ↦ rest
      ],
    )

-- A transition takes another one in: the new one leads where the two did.
pub Moves-merged :
    (i j : ℕ) (t : Transition) (ts : List Transition) (c d : ℕ)
    → i ≢ j
    → i < length ts
    → j < length ts
    → (Leads t c d ↔ (Leads (trans_at ts i) c d ⊎ Leads (trans_at ts j) c d))
    → Moves (remove_at j (set ts i t)) c d ↔ Moves ts c d
Moves-merged i j t ts c d ne p q both =
    let size = length-set ts i t in
    let there : trans_at (set ts i t) j ≡ trans_at ts j = get_or-set_ne ts i j t blank ne in
    let here : trans_at (set ts i t) i ≡ t = get_or-set_self ts i t blank p in
    let swap = Moves-set i t ts c d p in
    let split = Moves-remove_at j (set ts i t) c d (omega (arith, size)) in
    let new : Leads t c d → Moves (remove_at j (set ts i t)) c d =
      λ k. Leads-remove_at i j (set ts i t) c d ne (omega (arith, size)) (rw here k) in
    (
      λ k. elim (swap.0 (inl (split.1 (inr k)))) [
        | inl old ↦ old
        | inr added ↦ elim (both.0 added) [
          | inl first ↦ Leads-Moves i ts c d p first
          | inr second ↦ Leads-Moves j ts c d q second
        ]
      ],
      λ k. elim (swap.1 (inl k)) [
        | inr first ↦ new (both.1 (inl first))
        | inl kept ↦ elim (split.0 kept) [
          | inr rest ↦ rest
          | inl second ↦ new (both.1 (inr (rw there at second)))
        ]
      ],
    )

-- the transitions behind the removed one move down
pub get_or-remove_at :
    (j k : ℕ) (ts : List Transition)
    → ((k < j) × (trans_at (remove_at j ts) k ≡ trans_at ts k))
      ⊎ ((j ≤ k) × (trans_at (remove_at j ts) k ≡ trans_at ts (suc k)))
get_or-remove_at j k [] = elim (Bool-cases (ltb k j)) [
  | inl lt ↦ inl (ltb→lt _ _ lt, refl)
  | inr ge ↦ inr (ltb→le _ _ ge, refl)
]
get_or-remove_at zero k (t ∷ ts) = inr (omega arith, refl)
get_or-remove_at (suc j) zero (t ∷ ts) = inl (omega arith, refl)
get_or-remove_at (suc j) (suc k) (t ∷ ts) = elim (get_or-remove_at j k ts) [
  | inl (lt, e) ↦ inl (omega arith, e)
  | inr (le, e) ↦ inr (omega arith, e)
]

pub length-remove_at :
    (j : ℕ) (ts : List Transition) → j < length ts → suc (length (remove_at j ts)) ≡ length ts
length-remove_at j [] lt = elim lt [ ]
length-remove_at zero (t ∷ ts) lt = refl
length-remove_at (suc j) (t ∷ ts) lt = ap suc (length-remove_at j ts (omega arith))

-- A transition is replaced by one that leads to the same.
pub Moves-rewritten :
    (i : ℕ) (t : Transition) (ts : List Transition) (c d : ℕ)
    → i < length ts
    → (Leads t c d ↔ Leads (trans_at ts i) c d)
    → Moves (set ts i t) c d ↔ Moves ts c d
Moves-rewritten i t ts c d lt same =
    let swap = Moves-set i t ts c d lt in
    let here : trans_at (set ts i t) i ≡ t = get_or-set_self ts i t blank lt in
    (
      λ k. elim (swap.0 (inl k)) [ inl old ↦ old | inr new ↦ Leads-Moves i ts c d lt (same.0 new) ],
      λ k. elim (swap.1 (inl k)) [
        | inl kept ↦ kept
        | inr old ↦
            Leads-Moves i (set ts i t) c d (omega (arith, length-set ts i t)) (rw here (same.1 old))
      ],
    )
