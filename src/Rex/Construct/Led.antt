-- ===== src/Rex/Construct/Led.antt =====
-- `convert_range` and the inner loop: one transition for each range, to the state of the closure of
-- what the range leads to.
use rpatk.Base.{
  ℕ, zero, suc, ◌<◌, ◌≤◌, ◌≡◌, ◌≢◌, ◌⊎◌, ◌↔◌, inl, inr, refl, ap, List, [], ◌∷◌, ◌++◌, length,
  length-append, arith,
}
use rpatk.Base.Slices.{get_or-append}
use rpatk.Rex.Transition.{Transition, trans_at}
use rpatk.Rex.Subset.{In}
use rpatk.Rex.State.{Db, missing}
use rpatk.Rex.DfaConv.{move}
use rpatk.Rex.DfaConv.Reach.{Reach}
use rpatk.Rex.Construct.Shapes.{Shape, shape, shape_at}

-- The number `d` stands for what the set `src` and empty transitions reach, or is the dead state.
abbrev pub Goes : Db → List Shape → List ℕ → ℕ → Type 0
Goes nfa ks src d =
    ((d ≡ 0) × (src ≡ []))
    ⊎ ((1 ≤ d)
        × (d < length ks)
        × (src ≢ [])
        × ((v : ℕ) → In v (shape_at ks d).subset ↔ Reach nfa src v))

pub Goes-append :
    (nfa : Db) (ks more : List Shape) (src : List ℕ) (d : ℕ)
    → Goes nfa ks src d
    → Goes nfa (ks ++ more) src d
Goes-append nfa ks more src d (inl h) = inl h
Goes-append nfa ks more src d (inr (one, lt, some_, same)) = inr (
  one,
  omega (arith, length-append ks more),
  some_,
  rw (get_or-append d ks more (shape missing) lt) same,
)

-- Transitions on the ranges of `rs`, each where its range goes from the set `us`.
abbrev pub Led : Db → List Shape → List ℕ → List Transition → List Transition → Type 0
Led nfa ks us [] [] = Unit
Led nfa ks us [] (t ∷ ts) = ⊥
Led nfa ks us (r ∷ rs) [] = ⊥
Led nfa ks us (r ∷ rs) (t ∷ ts) =
    (t.lowin ≡ r.lowin)
    × (t.highin ≡ r.highin)
    × Goes nfa ks (move nfa us r.lowin r.highin) t.dstuid
    × Led nfa ks us rs ts

module _ (nfa : Db) (us : List ℕ) where
  pub Led-more :
      (ks more : List Shape) (rs ts : List Transition)
      → Led nfa ks us rs ts
      → Led nfa (ks ++ more) us rs ts
  Led-more ks more [] [] h = tt
  Led-more ks more [] (t ∷ ts) h = absurd h
  Led-more ks more (r ∷ rs) [] h = absurd h
  Led-more ks more (r ∷ rs) (t ∷ ts) (low, high, goes, rest) = (
    low,
    high,
    Goes-append nfa ks more (move nfa us r.lowin r.highin) t.dstuid goes,
    Led-more ks more rs ts rest,
  )

  pub Led-append :
      (ks : List Shape) (rs ts : List Transition) (r t : Transition)
      → Led nfa ks us rs ts
      → t.lowin ≡ r.lowin
      → t.highin ≡ r.highin
      → Goes nfa ks (move nfa us r.lowin r.highin) t.dstuid
      → Led nfa ks us (rs ++ r ∷ []) (ts ++ t ∷ [])
  Led-append ks [] [] r t h low high goes = (low, high, goes, tt)
  Led-append ks [] (x ∷ ts) r t h low high goes = absurd h
  Led-append ks (q ∷ rs) [] r t h low high goes = absurd h
  Led-append ks (q ∷ rs) (x ∷ ts) r t (a, b, c, rest) low high goes =
      (a, b, c, Led-append ks rs ts r t rest low high goes)

  pub Led-length :
      (ks : List Shape) (rs ts : List Transition) → Led nfa ks us rs ts → length ts ≡ length rs
  Led-length ks [] [] h = refl
  Led-length ks [] (t ∷ ts) h = absurd h
  Led-length ks (r ∷ rs) [] h = absurd h
  Led-length ks (r ∷ rs) (t ∷ ts) (_, _, _, rest) = ap suc (Led-length ks rs ts rest)

  pub Led-at :
      (ks : List Shape) (rs ts : List Transition) (i : ℕ)
      → Led nfa ks us rs ts
      → i < length rs
      → ((trans_at ts i).lowin ≡ (trans_at rs i).lowin)
        × ((trans_at ts i).highin ≡ (trans_at rs i).highin)
        × Goes nfa ks
            (move nfa us (trans_at rs i).lowin (trans_at rs i).highin)
            (trans_at ts i).dstuid
  Led-at ks [] ts i h lt = elim lt [ ]
  Led-at ks (r ∷ rs) [] i h lt = absurd h
  Led-at ks (r ∷ rs) (t ∷ ts) zero (a, b, c, rest) lt = (a, b, c)
  Led-at ks (r ∷ rs) (t ∷ ts) (suc i) (a, b, c, rest) lt = Led-at ks rs ts i rest (omega arith)
