-- ===== src/Rex/Transition/Moves.antt =====
-- What a list of transitions means: from a character to the states it leads to.
use rpatk.Base.{ℕ, zero, suc, ◌≤◌, ◌<◌, ◌≡◌, ◌⊎◌, ◌↔◌, inl, inr, refl, List, [], ◌∷◌, length, arith}
use rpatk.Base.Slices.{insert_at}
use rpatk.Rex.Transition.{Transition, trans_at}

abbrev pub Covers : Transition → ℕ → Type 0
Covers t c = (t.lowin ≤ c) × (c ≤ t.highin)

-- the character `c` leads to the state `d`
abbrev pub Moves : List Transition → ℕ → ℕ → Type 0
Moves [] c d = ⊥
Moves (t ∷ ts) c d = (Covers t c × (d ≡ t.dstuid)) ⊎ Moves ts c d

pub Moves-insert_at :
    (i : ℕ) (t : Transition) (ts : List Transition) (c d : ℕ)
    → Moves (insert_at i t ts) c d ↔ ((Covers t c × (d ≡ t.dstuid)) ⊎ Moves ts c d)
Moves-insert_at zero t ts c d = (λ h. h, λ h. h)
Moves-insert_at (suc i) t [] c d = (λ h. h, λ h. h)
Moves-insert_at (suc i) t (s ∷ ts) c d = ground (arith, Moves-insert_at i t ts c d)

pub Moves-trans_at :
    (ts : List Transition) (c d : ℕ)
    → Moves ts c d
    → (i : ℕ) × (i < length ts) × Covers (trans_at ts i) c × (d ≡ (trans_at ts i).dstuid)
Moves-trans_at [] c d h = absurd h
Moves-trans_at (t ∷ ts) c d (inl (h, e)) = (0, omega arith, h, e)
Moves-trans_at (t ∷ ts) c d (inr h) =
    let (i, lt, cover, e) = Moves-trans_at ts c d h in (suc i, omega arith, cover, e)

pub trans_at-Moves :
    (ts : List Transition) (i c : ℕ)
    → i < length ts
    → Covers (trans_at ts i) c
    → Moves ts c (trans_at ts i).dstuid
trans_at-Moves [] i c h k = elim h [ ]
trans_at-Moves (t ∷ ts) zero c h k = inl (k, refl)
trans_at-Moves (t ∷ ts) (suc i) c h k = inr (trans_at-Moves ts i c (omega arith) k)

-- Ranges in order, none reaching into the next.
pub record IsNormal (ts : List Transition) : Type 0 where
  pub proper : (i : ℕ) → i < length ts → (trans_at ts i).lowin ≤ (trans_at ts i).highin
  pub apart : (i j : ℕ) → i < j → j < length ts → (trans_at ts i).highin < (trans_at ts j).lowin
