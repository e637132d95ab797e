-- ===== src/Rex/NfaSim/Next.antt =====
-- `rex_nfasimulator_next`: the states after a character are those to which the states before it
-- lead, with all that empty transitions reach from there.
use rpatk.Base.{
  ℕ, suc, ◌+◌, ◌<◌, ◌≡◌, ◌≢◌, ◌⊎◌, ◌↔◌, ◌&&◌, inl, inr, refl, sym, ◌∙◌, ap, Bool, true, false,
  Bool-cases, some, List, [], ◌∷◌, ◌++◌, length, arith, if◌then◌else◌, leb, List-cases,
}
use mathlib.Core.Path.{subst}
use mathlib.Core.List.{append-nil, append_assoc}
use rpatk.Rex.Transition.{Transition}
use rpatk.Rex.Transition.Moves.{Covers, Moves}
use rpatk.Rex.Subset.{In}
use rpatk.Rex.State.{Db, state_at, targets, IsClosed}
use rpatk.Rex.DfaConv.{set_mark}
use rpatk.Rex.DfaConv.Reach.{here, step}
use rpatk.Rex.DfaConv.Move.{SomeMoves}
use rpatk.Rex.DfaConv.Scan.{unmarked_le}
use rpatk.Rex.NfaSim.{NfaSim, Accept, step_state, step_loop, drain_accept, is_accept, next}
use rpatk.Rex.NfaSim.Grow.{Grows, Grows-refl, Grows-trans, Grows-weaken}
use rpatk.Rex.NfaSim.AddState.{From, addstate-Grows}

-- reached by a transition of the list on `wc`, and empty transitions after it
abbrev pub After : Db → List Transition → ℕ → ℕ → Type 0
After db ts wc v = (d : ℕ) × Moves ts wc d × From db d v

-- the loop over the transitions of one state
step_state_lem :
    (db : Db) (wc : ℕ) (ts : List Transition) (s : NfaSim)
    → IsClosed db
    → ((d : ℕ) → In d (targets ts) → d < length db)
    → (t : NfaSim) × (step_state db wc ts s ≡ some t)
      × Grows db (After db ts wc) s t
      × ((d : ℕ) → Moves ts wc d → t.onmap d ≡ true)
unfolding step_state
step_state_lem db wc [] s ok inside = (s, refl, Grows-refl db _ s, λ d k. absurd k)
step_state_lem db wc (t ∷ ts) s ok inside = elim (Bool-cases (leb t.lowin wc && leb wc t.highin)) [
  | inr misses ↦
      let (r, runs, g, all) = step_state_lem db wc ts s ok (λ d k. inside d (inr k)) in
      (
        r,
        rw (misses, step_state) runs,
        Grows-weaken s r (λ v (d, m, f). (d, inr m, f)) g,
        λ d k. elim k [ inl (c, e) ↦ absurd (ground arith) | inr later ↦ all d later ],
      )
  | inl covers ↦ elim (Bool-cases (s.onmap t.dstuid)) [
    | inl on ↦
        let (r, runs, g, all) = step_state_lem db wc ts s ok (λ d k. inside d (inr k)) in
        (
          r,
          rw (covers, step_state, on) runs,
          Grows-weaken s r (λ v (d, m, f). (d, inr m, f)) g,
          λ d k. elim k [ inl (c, e) ↦ g.kept d (ap s.onmap e ∙ on) | inr later ↦ all d later ],
        )
    | inr off ↦
        let (m, called, first, marked) =
          addstate-Grows (suc (length db)) db s t.dstuid ok off (inside t.dstuid (inl refl))
            (omega (arith, unmarked_le (length db) s.onmap)) in
        let (r, runs, g, all) = step_state_lem db wc ts m ok (λ d k. inside d (inr k)) in
        let here_ : Covers t wc = ground arith in
        (
          r,
          rw (covers, step_state, off, called) runs,
          Grows-trans s m r (Grows-weaken s m (λ v f. (t.dstuid, inl (here_, refl), f)) first)
              (Grows-weaken m r (λ v (d, q, f). (d, inr q, f)) g),
          λ d k. elim k [ inl (c, e) ↦ g.kept d (ap m.onmap e ∙ marked) | inr later ↦ all d later ],
        )
  ]
]

-- reached from a state of the list by the character, and empty transitions after it
abbrev pub AfterSome : Db → List ℕ → ℕ → ℕ → Type 0
AfterSome db us wc v = (d : ℕ) × SomeMoves db us wc d × From db d v

step_loop_lem :
    (db : Db) (wc : ℕ) (us : List ℕ) (s : NfaSim)
    → IsClosed db
    → (t : NfaSim) × (step_loop db wc us s ≡ some (record t { oldstates = [] }))
      × Grows db (AfterSome db us wc) s t
      × ((d : ℕ) → SomeMoves db us wc d → t.onmap d ≡ true)
unfolding step_loop
step_loop_lem db wc [] s ok = (s, refl, Grows-refl db _ s, λ d k. absurd k)
step_loop_lem db wc (u ∷ us) s ok =
    let (m, ran, first, all) = step_state_lem db wc (state_at db u).trans s ok (ok.moves u) in
    let (t, runs, g, rest) = step_loop_lem db wc us m ok in
    (
      t,
      rw (ran, step_loop) runs,
      Grows-trans s m t (Grows-weaken s m (λ v (d, k, f). (d, inl k, f)) first)
          (Grows-weaken m t (λ v (d, k, f). (d, inr k, f)) g),
      λ d k. elim k [ inl here_ ↦ g.kept d (all d here_) | inr later ↦ rest d later ],
    )

-- what marks are reached is closed under empty transitions
pub closed-From :
    {db : Db} {P : ℕ → Type 0} (s t : NfaSim) {d v : ℕ}
    → ((u : ℕ) → s.onmap u ≡ false)
    → Grows db P s t
    → t.onmap d ≡ true
    → From db d v
    → t.onmap v ≡ true
closed-From s t clean g m (here (inl e)) = ap t.onmap e ∙ m
closed-From s t clean g m (here (inr none_left)) = absurd none_left
closed-From s t clean g m (step {u} {v} r e) =
    g.closed u v (closed-From s t clean g m r) (clean u) e

-- the states on the new stack that accept
abbrev pub accepted : Db → List ℕ → ℕ → ℕ → List Accept
accepted db [] inputsize count = []
accepted db (uid ∷ us) inputsize count =
    if is_accept (state_at db uid).kind
    then record { state = uid; inputsize = inputsize; count = count }
      ∷ accepted db us inputsize count
    else accepted db us inputsize count

record Drained (db : Db) (us : List ℕ) (s t : NfaSim) : Type 0 where
  emptied : t.newstates ≡ []
  states : (v : ℕ) → In v t.oldstates ↔ (In v us ⊎ In v s.oldstates)
  marks : (v : ℕ) → (t.onmap v ≡ true) ↔ ((s.onmap v ≡ true) × ¬ In v us)
  count : t.count ≡ s.count
  inputsize : t.inputsize ≡ s.inputsize

drain_accept_lem :
    (db : Db) (us : List ℕ) (s : NfaSim)
    → Drained db us s (drain_accept db us s)
      × ((drain_accept db us s).accepts ≡ s.accepts ++ accepted db us s.inputsize s.count)
unfolding drain_accept set_mark
drain_accept_lem db [] s = (
  record {
    emptied = refl;
    states = λ v. (inr, λ k. ground arith);
    marks = λ v. (λ k. (k, λ z. z), λ k. k.0);
    count = refl;
    inputsize = refl;
  },
  sym (append-nil s.accepts),
)
drain_accept_lem db (uid ∷ us) s =
    let s' = record s {
      oldstates = uid ∷ s.oldstates;
      onmap = set_mark s.onmap uid false;
      accepts =
          if is_accept (state_at db uid).kind
          then s.accepts ++ record { state = uid; inputsize = s.inputsize; count = s.count } ∷ []
          else s.accepts;
    } in
    let (d, a) = drain_accept_lem db us s' in
    (
      record {
        emptied = d.emptied;
        states = λ v. ground (arith, d.states v);
        marks = λ v. ground (arith, d.marks v);
        count = d.count;
        inputsize = d.inputsize;
      },
      elim (Bool-cases (is_accept (state_at db uid).kind)) [
        | inl yes_ ↦ a ∙ rw yes_ (append_assoc s.accepts _ _)
        | inr no_ ↦ a ∙ rw no_
      ],
    )

-- Between the calls nothing is marked and the new stack is empty.
pub record IsReady (s : NfaSim) : Type 0 where
  pub clean : (v : ℕ) → s.onmap v ≡ false
  pub emptied : s.newstates ≡ []

pub false_of : (b : Bool) → ¬ (b ≡ true) → b ≡ false
false_of true h = absurd (h refl)
false_of false h = refl

-- what a step leads to
pub record Steps (db : Db) (s t : NfaSim) (wc wcsize : ℕ) : Type 0 where
  pub ready : IsReady t
  pub states : (v : ℕ) → In v t.oldstates ↔ AfterSome db s.oldstates wc v
  pub stops : s.oldstates ≡ [] → t ≡ s
  pub counts :
      s.oldstates ≢ []
      → (t.count ≡ s.count + 1)
        × (t.inputsize ≡ s.inputsize + wcsize)
        × ((new : List ℕ) × (t.accepts ≡ s.accepts ++ accepted db new t.inputsize t.count)
            × ((v : ℕ) → In v new ↔ In v t.oldstates))

next_none : (db : Db) (s : NfaSim) (wc wcsize : ℕ) → s.oldstates ≡ [] → next db s wc wcsize ≡ some s
unfolding next
next_none db s wc wcsize e = ground arith

next-some :
    (db : Db) (s : NfaSim) (wc wcsize : ℕ)
    → IsClosed db
    → IsReady s
    → s.oldstates ≢ []
    → (t : NfaSim) × (next db s wc wcsize ≡ some t) × Steps db s t wc wcsize
unfolding next
next-some db s wc wcsize ok r more =
    let begun = record s { count = s.count + 1; inputsize = s.inputsize + wcsize } in
    let (m, ran, g, all) = step_loop_lem db wc s.oldstates begun ok in
    let m' = record m { oldstates = [] } in
    let (d, a) = drain_accept_lem db m.newstates m' in
    let on_new : (v : ℕ) → In v m.newstates ↔ (m.onmap v ≡ true) = λ v.
      ground (arith, g.stack v, r.clean v, λ (k : In v s.newstates). subst (In v) r.emptied k) in
    let states : (v : ℕ) → In v m.newstates ↔ AfterSome db s.oldstates wc v = λ v. (
      λ k. elim (g.sound v ((on_new v).0 k)) [ inl m_ ↦ cc (r.clean v) | inr p ↦ p ],
      λ (x, k, f). (on_new v).1 (closed-From begun m r.clean g (all x k) f),
    ) in
    (
      drain_accept db m.newstates m',
      ground (arith, ran),
      record {
        ready = record {
          clean = λ v. false_of _ (λ k. let (p, q) = (d.marks v).0 k in q ((on_new v).1 p));
          emptied = d.emptied;
        };
        states = λ v. ground (arith, d.states v, states v);
        stops = λ e. absurd (more e);
        counts = λ _. (
          d.count ∙ g.rest.count,
          d.inputsize ∙ g.rest.inputsize,
          (
            m.newstates,
            rw (d.count, d.inputsize)
                (a ∙ ap (λ z. z ++ accepted db m.newstates m.inputsize m.count) g.rest.accepts),
            λ v. ground (arith, d.states v),
          ),
        );
      },
    )

-- A step on a character ends within its fuel, and leaves the simulator ready for the next one. The
-- states after it are exactly those to which some state before it leads by the character, and what
-- empty transitions reach from there. With no state left it changes nothing; otherwise it counts the
-- character and its bytes, and records the accepting ones among the new states with these counts.
-- This holds for a database whose transitions lead to states of it.
pub next-Steps :
    (db : Db) (s : NfaSim) (wc wcsize : ℕ)
    → IsClosed db
    → IsReady s
    → (t : NfaSim) × (next db s wc wcsize ≡ some t) × Steps db s t wc wcsize
next-Steps db s wc wcsize ok r = elim (List-cases s.oldstates) [
  | inr (x, rest, e) ↦ next-some db s wc wcsize ok r (λ z. cc)
  | inl none_left ↦ (
    s,
    next_none db s wc wcsize none_left,
    record {
      ready = r;
      states = λ v. rw none_left (λ k. absurd k, λ (d, k, f). absurd k);
      stops = λ _. refl;
      counts = λ more. absurd (more none_left);
    },
  )
]
