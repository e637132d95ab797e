-- ===== src/Rex/NfaSim/AddState.antt =====
-- `rex_nfasimulator_addstate` marks and stacks the state and all that empty transitions reach from
-- it, within its fuel.
use rpatk.Base.{
  ℕ, zero, suc, ◌<◌, ◌≤◌, ◌≡◌, ◌⊎◌, ◌↔◌, inl, inr, refl, sym, ◌∙◌, ap, true, false, Bool-cases,
  Option, some, List, [], ◌∷◌, length, arith,
}
use mathlib.Core.Path.{subst}
use rpatk.Rex.Transition.{Transition}
use rpatk.Rex.Subset.{In}
use rpatk.Rex.State.{Db, state_at, targets, IsClosed}
use rpatk.Rex.DfaConv.{Marks, set_mark}
use rpatk.Rex.DfaConv.Reach.{Epsilon, Reach, here, step}
use rpatk.Rex.DfaConv.Scan.{unmarked, unmarked-set_mark}
use rpatk.Rex.NfaSim.{NfaSim, push_new, etrans_loop, addstate}
use rpatk.Rex.NfaSim.Grow.{Grows, Grows-refl, Grows-trans, Grows-weaken}

abbrev pub From : Db → ℕ → ℕ → Type 0
From db u v = Reach db (u ∷ []) v

pub From-step : {db : Db} {u d v : ℕ} → Epsilon db u d → From db d v → From db u v
From-step {db} {u} e (here (inl same)) =
    step (here (inl refl)) (subst (λ y. Epsilon db u y) (sym same) e)
From-step e (here (inr none_left)) = absurd none_left
From-step e (step r k) = step (From-step e r) k

-- the outcome of a call that is to mark `d`
abbrev pub MarksIt : Db → (ℕ → Type 0) → NfaSim → ℕ → Option NfaSim → Type 0
MarksIt db P s d o = (t : NfaSim) × (o ≡ some t) × Grows db P s t × (t.onmap d ≡ true)

etrans_loop_lem :
    (db : Db) (P : ℕ → Type 0) (bound : ℕ) (rec : NfaSim → ℕ → Option NfaSim) (ts : List Transition)
    → ((s : NfaSim) (d : ℕ)
        → In d (targets ts)
        → s.onmap d ≡ false
        → unmarked (length db) s.onmap ≤ bound
        → MarksIt db P s d (rec s d))
    → (s : NfaSim) → unmarked (length db) s.onmap ≤ bound
    → (t : NfaSim) × (etrans_loop rec ts s ≡ some t)
      × Grows db P s t
      × ((d : ℕ) → In d (targets ts) → t.onmap d ≡ true)
unfolding etrans_loop
etrans_loop_lem db P bound rec [] call s h = (s, refl, Grows-refl db P s, λ d k. absurd k)
etrans_loop_lem db P bound rec (t ∷ ts) call s h = elim (Bool-cases (s.onmap t.dstuid)) [
  | inl on ↦
      let (r, runs, grows, all) =
        etrans_loop_lem db P bound rec ts (λ s' d k. call s' d (inr k)) s h in
      (
        r,
        rw (on, etrans_loop) runs,
        grows,
        λ d k. elim k [ inl e ↦ grows.kept d (ap s.onmap e ∙ on) | inr later ↦ all d later ],
      )
  | inr off ↦
      let (m, called, first, marked) = call s t.dstuid (inl refl) off h in
      let (r, runs, grows, all) =
        etrans_loop_lem db P bound rec ts (λ s' d k. call s' d (inr k)) m
          (omega (arith, first.fewer)) in
      (
        r,
        rw (off, etrans_loop, called) runs,
        Grows-trans s m r first grows,
        λ d k. elim k [ inl e ↦ grows.kept d (ap m.onmap e ∙ marked) | inr later ↦ all d later ],
      )
]

mark_lem : (f : Marks) (x v : ℕ) → (set_mark f x true v ≡ true) ↔ ((v ≡ x) ⊎ (f v ≡ true))
unfolding set_mark
mark_lem f x v = ground arith

-- the call's own mark
push_lem :
    (db : Db) (s t : NfaSim) (u : ℕ)
    → s.onmap u ≡ false
    → u < length db
    → Grows db (From db u) (push_new s u) t
    → ((d : ℕ) → Epsilon db u d → t.onmap d ≡ true)
    → Grows db (From db u) s t × (t.onmap u ≡ true)
unfolding push_new set_mark
push_lem db s t u off lt g all =
    let mark = λ (v : ℕ). mark_lem s.onmap u v in
    let t_u = g.kept u ((mark u).1 (inl refl)) in
    (
      record {
        rest = record {
          count = g.rest.count;
          inputsize = g.rest.inputsize;
          oldstates = g.rest.oldstates;
          accepts = g.rest.accepts;
        };
        kept = λ v k. g.kept v ((mark v).1 (inr k));
        sound = λ v k. elim (g.sound v k) [
          | inr p ↦ inr p
          | inl m ↦ elim ((mark v).0 m) [ inl e ↦ inr (here (inl e)) | inr old ↦ inl old ]
        ];
        closed = λ x v m n e. elim (Bool-cases (set_mark s.onmap u true x)) [
          | inr new ↦ g.closed x v m new e
          | inl old ↦ elim ((mark x).0 old) [
            | inl same ↦ all v (subst (λ y. Epsilon db y v) same e)
            | inr was ↦ cc
          ]
        ];
        stack = λ v. ground (arith, g.stack v, mark v, g.kept v);
        fewer = omega (arith, g.fewer, unmarked-set_mark (length db) u s.onmap lt off);
      },
      t_u,
    )

push_fewer :
    (db : Db) (s : NfaSim) (u : ℕ)
    → s.onmap u ≡ false
    → u < length db
    → suc (unmarked (length db) (push_new s u).onmap) ≡ unmarked (length db) s.onmap
unfolding push_new
push_fewer db s u off lt = unmarked-set_mark (length db) u s.onmap lt off

-- A call on a state that is not marked ends, within fuel for the states that are not marked. It
-- marks the state, and what it marks is reached by empty transitions and closed under them.
pub addstate-Grows :
    (fuel : ℕ) (db : Db) (s : NfaSim) (u : ℕ)
    → IsClosed db
    → s.onmap u ≡ false
    → u < length db
    → unmarked (length db) s.onmap ≤ fuel
    → MarksIt db (From db u) s u (addstate fuel db s u)
unfolding addstate
addstate-Grows zero db s u ok off lt h =
    absurd (omega (arith, unmarked-set_mark (length db) u s.onmap lt off))
addstate-Grows (suc fuel) db s u ok off lt h =
    let (t, runs, grows, all) =
      etrans_loop_lem db (From db u) fuel (addstate fuel db) (state_at db u).etrans
        (λ s' d edge off' le.
          let (r, ran, g, m) = addstate-Grows fuel db s' d ok off' (ok.epsilon u d edge) le in
          (r, ran, Grows-weaken s' r (λ v. From-step edge) g, m))
        (push_new s u) (omega (arith, push_fewer db s u off lt)) in
    let (g, m) = push_lem db s t u off lt grows all in (t, runs, g, m)
