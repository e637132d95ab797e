-- ===== src/Rex/Fragment/Walks.antt =====
-- The words that lead from a state to another are those of the NFA simulator's walks.
use rpatk.Base.{
  ℕ, zero, suc, ◌+◌, ◌<◌, ◌≡◌, ◌↔◌, refl, sym, inl, inr, Option, none, some, List, [], ◌∷◌, ◌++◌,
  length, arith,
}
use mathlib.Core.Path.{subst}
use mathlib.Core.List.{append-nil, append_assoc}
use rpatk.Rex.Transition.{Transition, trans_at}
use rpatk.Rex.Transition.Moves.{Moves, Moves-trans_at, trans_at-Moves}
use rpatk.Rex.Subset.{In}
use rpatk.Rex.State.{Db, state_at, targets}
use rpatk.Rex.DfaConv.Reach.{Epsilon, here, step}
use rpatk.Rex.NfaSim.AddState.{From}
use rpatk.Rex.NfaSim.Run.{Walk}
use rpatk.Rex.Fragment.Traces.{Trace, Edge, Trace-++, letter}

pub In-targets :
    (ts : List Transition) (d : ℕ)
    → In d (targets ts)
    → (i : ℕ) × (i < length ts) × (d ≡ (trans_at ts i).dstuid)
In-targets [] d k = absurd k
In-targets (t ∷ ts) d (inl q) = (0, omega arith, q)
In-targets (t ∷ ts) d (inr k) = let (i, lt, q) = In-targets ts d k in (suc i, omega arith, q)

targets-In : (ts : List Transition) (i : ℕ) → i < length ts → In (trans_at ts i).dstuid (targets ts)
targets-In [] i lt = elim lt [ ]
targets-In (t ∷ ts) zero lt = inl refl
targets-In (t ∷ ts) (suc i) lt = inr (targets-In ts i (omega arith))

Edge-Epsilon : (db : Db) (u d : ℕ) → Edge db u none d ↔ Epsilon db u d
Edge-Epsilon db u d = (
  λ (i, lt, fit, q). subst (λ v. Epsilon db u v) (sym q) (targets-In (state_at db u).etrans i lt),
  λ k. let (i, lt, q) = In-targets (state_at db u).etrans d k in (i, lt, tt, q),
)

Edge-Moves : (db : Db) (u c d : ℕ) → Edge db u (some c) d ↔ Moves (state_at db u).trans c d
Edge-Moves db u c d = (
  λ (i, lt, fit, q).
      subst (Moves (state_at db u).trans c) (sym q)
        (trans_at-Moves (state_at db u).trans i c lt fit),
  λ k. Moves-trans_at (state_at db u).trans c d k,
)

-- what one more transition after the others reads
last_Edge : (db : Db) (o : Option ℕ) (u d : ℕ) → Edge db u o d → Trace db 1 u (letter o []) d
unfolding Trace
last_Edge db o u d e = (o, [], d, refl, e, (refl, refl))

From-Trace : (db : Db) (d : ℕ) {v : ℕ} → From db d v → (m : ℕ) × Trace db m d [] v
unfolding Trace
From-Trace db d (here (inl q)) = (0, (sym q, refl))
From-Trace db d (here (inr k)) = absurd k
From-Trace db d (step {u} {v} r e) =
    let (m, t) = From-Trace db d r in
    (m + 1, Trace-++ db m 1 d u v [] [] t (last_Edge db none u v ((Edge-Epsilon db u v).1 e)))

Trace-Walk :
    (db : Db) (set : ℕ → Type 0)
    → ((u v : ℕ) → set u → Epsilon db u v → set v)
    → (m u : ℕ) (w : List ℕ) (v : ℕ) → set u
    → Trace db m u w v
    → Walk db set w v
unfolding Trace
Trace-Walk db set closed zero u w v k (q, z) = subst (λ y. Walk db set y v) (sym z) (subst set q k)
Trace-Walk db set closed (suc m) u w v k (none, x, d, p, e, t) =
    subst (λ y. Walk db set y v) (sym p)
      (Trace-Walk db set closed m d x v (closed u d k ((Edge-Epsilon db u d).0 e)) t)
Trace-Walk db set closed (suc m) u w v k (some c, x, d, p, e, t) =
    let after =
      λ (a : ℕ). (b : ℕ) × (g : ℕ) × set b × Moves (state_at db b).trans c g × From db g a in
    subst (λ y. Walk db set y v) (sym p)
      (Trace-Walk db after (λ a b (g, i, j, l, r) n. (g, i, j, l, step r n)) m d x v
        (u, d, k, (Edge-Moves db u c d).0 e, here (inl refl)) t)

Walk-Trace :
    (db : Db) (set : ℕ → Type 0) (u : ℕ) (w₀ : List ℕ)
    → ((x : ℕ) → set x → (m : ℕ) × Trace db m u w₀ x)
    → (w : List ℕ) (v : ℕ) → Walk db set w v
    → (m : ℕ) × Trace db m u (w₀ ++ w) v
Walk-Trace db set u w₀ h [] v k =
    subst (λ y. (m : ℕ) × Trace db m u y v) (sym (append-nil w₀)) (h v k)
Walk-Trace db set u w₀ h (c ∷ w) v k =
    let (n, t) =
      Walk-Trace db _ u (w₀ ++ c ∷ [])
        (λ x (a, d, p, q, r).
          let (m₁, t₁) = h a p in
          let (m₂, t₂) = From-Trace db d r in
          (
            m₁ + (1 + m₂),
            Trace-++ db m₁ (1 + m₂) u a x w₀ (c ∷ []) t₁ (
                Trace-++ db 1 m₂ a d x (c ∷ []) []
                  (last_Edge db (some c) a d ((Edge-Moves db a c d).1 q)) t₂),
          ))
        w v k in
    (n, subst (λ y. Trace db n u y v) (append_assoc w₀ (c ∷ []) w) t)

-- The walks of the simulator from all states that empty transitions reach from `u`.
pub Walk-iff-Trace :
    (db : Db) (u v : ℕ) (w : List ℕ) → Walk db (From db u) w v ↔ ((m : ℕ) × Trace db m u w v)
Walk-iff-Trace db u v w = (
  λ k. Walk-Trace db (From db u) u [] (λ x r. From-Trace db u r) w v k,
  λ (m, t). Trace-Walk db (From db u) (λ a b r e. step r e) m u w v (here (inl refl)) t,
)
