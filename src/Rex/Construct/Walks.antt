-- ===== src/Rex/Construct/Walks.antt =====
-- The DFA that the construction makes and the NFA that it was made from reach the same states by
-- every text.
use rpatk.Base.{
  ℕ, suc, ◌<◌, ◌≤◌, ◌≡◌, ◌↔◌, inl, inr, sym, ap, ◌∙◌, Bool-cases, Option, none, some, List, [], ◌∷◌,
  length, arith, ◌==◌, ==_iff,
}
use mathlib.Core.Path.{subst}
use rpatk.RArray.{Memory}
use rpatk.Rex.Transition.{Transition, transitions_find, char_max}
use rpatk.Rex.Transition.Moves.{Moves}
use rpatk.Rex.Transition.Find.{find-Moves}
use rpatk.Rex.Subset.{In}
use rpatk.Rex.State.{Db, state_at, IsClosed}
use rpatk.Rex.DfaConv.Move.{IsProper}
use rpatk.Rex.NfaSim.{NfaSim, run}
use rpatk.Rex.NfaSim.AddState.{From}
use rpatk.Rex.NfaSim.Next.{AfterSome}
use rpatk.Rex.NfaSim.Run.{Walk, Walk-none, AfterSome-Walk, chars, decode, run-Walk}
use rpatk.Rex.DfaSim.Longest.{AreChars, goal, after}
use rpatk.Rex.Construct.{Conv, createdfa}
use rpatk.Rex.Construct.Shapes.{Shape, length-shapes, shape_at-shapes, IsNumbered}
use rpatk.Rex.Construct.Whole.{IsConversion, createdfa-IsConversion}

-- the state of the old database is in the subset of the state that a run has come to, if any
abbrev pub Holds : Db → Option ℕ → ℕ → Type 0
Holds dfa none v = ⊥
Holds dfa (some u) v = In v (state_at dfa u).subset

module _ (nfa : Db) (from : ℕ) (dfa : Db) (ok : IsConversion nfa from dfa) where
  -- one character from a live state
  pub next_set :
      (u c : ℕ)
      → u < length dfa
      → c ≤ char_max
      → let d = goal (transitions_find (state_at dfa u).trans c) in
        (d < length dfa)
        × ((v : ℕ) → In v (state_at dfa d).subset ↔ AfterSome nfa (state_at dfa u).subset c v)
  next_set u c lt le =
      let ts = (state_at dfa u).trans in
      let done = ok.done u lt in
      let (d, k) = done.total c le in
      let (t, found, e) = (find-Moves ts done.normal c d).0 k in
      let there : goal (transitions_find ts c) ≡ d = ap goal found ∙ sym e in
      rw there (elim (done.sound c d k) [
        | inl (z, nothing) ↦ (
          omega (arith, ok.start_inside),
          λ v. (
            λ q. absurd (subst (In v) (ap (λ i. (state_at dfa i).subset) z ∙ ok.dead_set) q),
            λ (m, s, f). absurd (nothing m s),
          ),
        )
        | inr (one, inside, same) ↦ (
          omega (arith, length-shapes dfa),
          λ v.
              subst (λ (s : Shape). In v s.subset ↔ AfterSome nfa (state_at dfa u).subset c v)
                (shape_at-shapes dfa d) (same v),
        )
      ])

  after_dead : (w : List ℕ) (v : ℕ) → ¬ Holds dfa (after dfa 0 w) v
  unfolding after
  after_dead [] v h = subst (In v) ok.dead_set h
  after_dead (c ∷ w) v h = h

  -- what holds in a state of the DFA holds after a text as the walks go
  pub after-Holds :
      (w : List ℕ) (u : ℕ) (set : ℕ → Type 0) (v : ℕ)
      → u < length dfa
      → AreChars w
      → ((x : ℕ) → In x (state_at dfa u).subset ↔ set x)
      → Holds dfa (after dfa u w) v ↔ Walk nfa set w v
  unfolding after
  after-Holds [] u set v lt chars_ same = same v
  after-Holds (c ∷ w) u set v lt (le, chars_) same = elim (Bool-cases (u == 0)) [
    | inl first ↦
        let e : (state_at dfa u).subset ≡ [] =
          ap (λ i. (state_at dfa i).subset) ((==_iff u 0).0 first) ∙ ok.dead_set in
        let nobody : (x : ℕ) → ¬ set x = λ x k. subst (In x) e ((same x).1 k) in
        rw (first, after) (λ h. absurd h, λ k. absurd (Walk-none nfa set (c ∷ w) v nobody k))
    | inr later ↦
        let (inside, next) = next_set u c lt le in
        let moved : (x : ℕ)
            → AfterSome nfa (state_at dfa u).subset c x
              ↔ ((y : ℕ) × (d : ℕ) × set y × Moves (state_at nfa y).trans c d × From nfa d x) =
          λ x. (
            λ k.
                let (y, d, i, m, f) = (AfterSome-Walk nfa (state_at dfa u).subset c x).0 k in
                (y, d, (same y).0 i, m, f),
            λ (y, d, i, m, f).
                (AfterSome-Walk nfa (state_at dfa u).subset c x).1 (y, d, (same y).1 i, m, f),
          ) in
        rw (later, after)
          (after-Holds w (goal (transitions_find (state_at dfa u).trans c)) _ v inside chars_
            (λ x. (λ k. (moved x).0 ((next x).0 k), λ k. (next x).1 ((moved x).1 k))))
  ]

module _ ⦃m : Memory Transition⦄ (spare : List Transition → List Transition) (nfa : Db)
    (closed : IsClosed nfa) (proper : IsProper nfa) (num : IsNumbered nfa) where
  -- For a database whose transitions lead to states of it, by proper ranges, with each state at its
  -- number, and a state of it: the conversion ends within its fuel, and by every text of characters the
  -- DFA comes to the subset of exactly the states that the NFA simulator ends in, or to no state if
  -- there are none.
  pub createdfa-run :
      (from : ℕ) (bytes : List ℕ)
      → from < length nfa
      → AreChars (chars (decode (suc (length bytes)) bytes))
      → (w : Conv) × (t : NfaSim) × (createdfa spare nfa from ≡ some w)
        × (run nfa from bytes ≡ some t)
        × ((v : ℕ)
            → Holds w.dfa (after w.dfa 1 (chars (decode (suc (length bytes)) bytes))) v
              ↔ In v t.oldstates)
  createdfa-run from bytes lt chars_ =
      let (w, made, ok) = createdfa-IsConversion spare nfa closed proper num from lt in
      let (t, runs, walks) = run-Walk nfa from bytes closed lt in
      let text = chars (decode (suc (length bytes)) bytes) in
      (
        w,
        t,
        made,
        runs,
        λ v.
            let h =
              after-Holds nfa from w.dfa ok text 1 (From nfa from) v ok.start_inside chars_
                ok.start_set in
            (λ k. (walks v).1 (h.0 k), λ k. h.1 ((walks v).0 k)),
      )
