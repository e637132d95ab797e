-- ===== src/Rex/Construct/Done.antt =====
-- What the construction makes of the transitions of one state: they lead every character to the
-- state of what its subset leads to.
use rpatk.Base.{
  ℕ, ◌<◌, ◌≤◌, ◌≡◌, ◌⊎◌, ◌↔◌, inl, inr, refl, sym, List, ◌++◌, length, length-append, arith,
}
use mathlib.Core.Path.{subst}
use rpatk.Base.Slices.{get_or-append}
use rpatk.Rex.Transition.{Transition, trans_at, char_max}
use rpatk.Rex.Transition.Moves.{IsNormal, Covers, Moves, Moves-trans_at, trans_at-Moves}
use rpatk.Rex.Subset.{In}
use rpatk.Rex.State.{Db, missing}
use rpatk.Rex.DfaConv.{move}
use rpatk.Rex.DfaConv.Reach.{Reach, here, step}
use rpatk.Rex.DfaConv.Move.{
  SomeMoves, IsProper, ranges, ranges-IsNormal, move-SomeMoves, ranges_cover,
}
use rpatk.Rex.NfaSim.AddState.{From}
use rpatk.Rex.NfaSim.Next.{AfterSome}
use rpatk.Rex.Normalize.Sorted.{AreSorted}
use rpatk.Rex.Construct.Shapes.{Shape, shape, shape_at}
use rpatk.Rex.Construct.Led.{Goes, Led, Led-length, Led-at}

-- The number `d` stands for the states that the set `us` leads to by the character `c`, or there are
-- none and it is the dead state.
abbrev pub GoesBy : Db → List Shape → List ℕ → ℕ → ℕ → Type 0
GoesBy nfa ks us c d =
    ((d ≡ 0) × ((v : ℕ) → ¬ SomeMoves nfa us c v))
    ⊎ ((1 ≤ d) × (d < length ks) × ((v : ℕ) → In v (shape_at ks d).subset ↔ AfterSome nfa us c v))

-- The finished transitions of the state of the subset `us`.
pub record IsDone (nfa : Db) (ks : List Shape) (us : List ℕ) (ts : List Transition) : Type 0 where
  pub normal : IsNormal ts
  pub total : (c : ℕ) → c ≤ char_max → (d : ℕ) × Moves ts c d
  pub sound : (c d : ℕ) → Moves ts c d → GoesBy nfa ks us c d

pub IsDone-append :
    (nfa : Db) (ks more : List Shape) (us : List ℕ) (ts : List Transition)
    → IsDone nfa ks us ts
    → IsDone nfa (ks ++ more) us ts
IsDone-append nfa ks more us ts h = record {
  normal = h.normal;
  total = h.total;
  sound = λ c d k. elim (h.sound c d k) [
    | inl dead_ ↦ inl dead_
    | inr (one, lt, same) ↦ inr (
      one,
      omega (arith, length-append ks more),
      rw (get_or-append d ks more (shape missing) lt) same,
    )
  ];
}

Reach-From : (nfa : Db) (src : List ℕ) (v : ℕ) → Reach nfa src v → (m : ℕ) × In m src × From nfa m v
Reach-From nfa src v (here k) = (v, k, here (inl refl))
Reach-From nfa src v (step {u} r e) = let (m, k, f) = Reach-From nfa src u r in (m, k, step f e)

From-Reach : (nfa : Db) (src : List ℕ) (m v : ℕ) → In m src → From nfa m v → Reach nfa src v
From-Reach nfa src m v k (here (inl e)) = here (subst (λ x. In x src) (sym e) k)
From-Reach nfa src m v k (here (inr none_left)) = absurd none_left
From-Reach nfa src m v k (step {u} f e) = step (From-Reach nfa src m u k f) e

module _ (nfa : Db) (proper : IsProper nfa) (ks : List Shape) (us : List ℕ) (ts : List Transition)
    (led : Led nfa ks us (ranges nfa us) ts) where
  size : length ts ≡ length (ranges nfa us)
  size = Led-length nfa us ks (ranges nfa us) ts led

  at_ :
      (i : ℕ)
      → i < length (ranges nfa us)
      → ((trans_at ts i).lowin ≡ (trans_at (ranges nfa us) i).lowin)
        × ((trans_at ts i).highin ≡ (trans_at (ranges nfa us) i).highin)
        × Goes nfa ks
            (move nfa us (trans_at (ranges nfa us) i).lowin (trans_at (ranges nfa us) i).highin)
            (trans_at ts i).dstuid
  at_ i lt = Led-at nfa us ks (ranges nfa us) ts i led lt

  Goes-GoesBy :
      (i c d : ℕ)
      → i < length (ranges nfa us)
      → Covers (trans_at (ranges nfa us) i) c
      → Goes nfa ks
          (move nfa us (trans_at (ranges nfa us) i).lowin (trans_at (ranges nfa us) i).highin)
          d
      → GoesBy nfa ks us c d
  Goes-GoesBy i c d lt cover goes =
      let t = trans_at (ranges nfa us) i in
      let src = move nfa us t.lowin t.highin in
      let members : (v : ℕ) → In v src ↔ SomeMoves nfa us c v =
        λ v. (move-SomeMoves nfa us i c v proper lt cover).1 in
      elim goes [
        | inl (e, nothing) ↦ inl (e, λ v k. subst (In v) nothing ((members v).1 k))
        | inr (one, le, _, same) ↦ inr (
          one,
          le,
          λ v. (
            λ k. let (m, in_, f) = Reach-From nfa src v ((same v).0 k) in (m, (members m).0 in_, f),
            λ (m, s, f). (same v).1 (From-Reach nfa src m v ((members m).1 s) f),
          ),
        )
      ]

  pub Led-IsDone : IsDone nfa ks us ts
  Led-IsDone =
      let normal = ranges-IsNormal nfa us proper in
      record {
        normal = record {
          proper = λ i lt.
              omega (arith, at_ i (omega (arith, size)), normal.proper i (omega (arith, size)));
          apart = λ i j p lt. omega (
            arith,
            at_ i (omega (arith, size)),
            at_ j (omega (arith, size)),
            normal.apart i j p (omega (arith, size)),
          );
        };
        total = λ c le.
            let (i, lt, cover) = ranges_cover nfa us c proper le in
            let (low, high, _) = at_ i lt in
            (
              (trans_at ts i).dstuid,
              trans_at-Moves ts i c (omega (arith, size)) (omega (arith, low, high, cover)),
            );
        sound = λ c d k.
            let (i, lt, cover, e) = Moves-trans_at ts c d k in
            let inside : i < length (ranges nfa us) = omega (arith, size) in
            let (low, high, goes) = at_ i inside in
            Goes-GoesBy i c d inside (omega (arith, low, high, cover))
              (subst (Goes nfa ks _) (sym e) goes);
      }

pub IsNormal-AreSorted : (ts : List Transition) → IsNormal ts → AreSorted ts
IsNormal-AreSorted ts n = record {
  proper = n.proper;
  strict = λ a b p h. omega (arith, n.proper a (omega arith), n.apart a b p h);
}
