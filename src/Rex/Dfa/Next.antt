-- ===== src/Rex/Dfa/Next.antt =====
-- REX_DFA_NEXT on the flat DFA goes where the transitions of the database lead.
use rpatk.Base.{
  ℕ, zero, suc, ◌-◌, ◌<◌, ◌≤◌, ◌≡◌, refl, sym, ap, ◌∙◌, Bool, false, some, List, [], ◌∷◌, map,
  length, get_or, get_elem?, leb, lt→leb, ne→==, arith,
}
use rpatk.RArray.{Memory}
use rpatk.Rex.Search.{bound_loop, Splits, bound_lem, IsAscending}
use rpatk.Rex.Transition.{Transition, blank, trans_at, low_at, transitions_find, char_max}
use rpatk.Rex.Transition.Moves.{Moves, Moves-trans_at, IsNormal}
use rpatk.Rex.Transition.Find.{find-Moves, split-Covers, ascending}
use rpatk.Rex.Normalize.Keeps.{some_injective}
use rpatk.Rex.State.{Db, State, state_at, IsClosed}
use rpatk.Rex.Construct.{Substate, Conv, createdfa}
use rpatk.Rex.DfaConv.Move.{IsProper}
use rpatk.Rex.DfaSim.Longest.{goal}
use rpatk.Rex.Construct.Shapes.{IsNumbered}
use rpatk.Rex.Construct.Whole.{createdfa-IsConversion}
use rpatk.Rex.Dfa.Write.{listed_transition}
use rpatk.Rex.Dfa.{FlatTransition, Dfa, state_of, transition_of, dfa_transition, dfa_next, todfa}
use rpatk.Rex.Dfa.Flat.{Reads, todfa-Reads}

get_elem?-map :
    {A B : Type 0} (f : A → B) (xs : List A) (i : ℕ) (d : A)
    → i < length xs
    → get_elem? (map f xs) i ≡ some (f (get_or xs i d))
get_elem?-map f [] i d lt = elim lt [ ]
get_elem?-map f (x ∷ xs) zero d lt = refl
get_elem?-map f (x ∷ xs) (suc i) d lt = get_elem?-map f xs i d (omega arith)

module _ (subs : List Substate) (w : Bool) (s : State) (dfa : Dfa) (k : ℕ)
    (r : Reads subs w s dfa k) where
  transition_at :
      (i : ℕ) → i < length s.trans → transition_of dfa k i ≡ listed_transition (trans_at s.trans i)
  unfolding dfa_transition
  transition_at i lt =
      let inside : leb (state_of dfa k).ntrans i ≡ false =
        lt→leb (state_of dfa k).ntrans i (omega (arith, r.ntrans)) in
      let read : dfa_transition dfa k i ≡ some (transition_of dfa k i) =
        rw (r.there, dfa_transition, inside) refl in
      some_injective (transition_of dfa k i) (listed_transition (trans_at s.trans i))
        (sym read ∙ r.trans i ∙ get_elem?-map listed_transition s.trans i blank lt)

  low_at_flat : (i : ℕ) → i < length s.trans → (transition_of dfa k i).lowin ≡ low_at s.trans i
  low_at_flat i lt = ap (λ (t : FlatTransition). t.lowin) (transition_at i lt)

  module _ (normal : IsNormal s.trans) where
    -- the place that the search finds
    place : ℕ → ℕ
    place c =
        bound_loop (state_of dfa k).ntrans (λ i. (transition_of dfa k i).lowin) c 0
          (state_of dfa k).ntrans

    place-Splits : (c : ℕ) → Splits (low_at s.trans) c (length s.trans) (place c)
    unfolding place
    place-Splits c =
        let n = (state_of dfa k).ntrans in
        let key = λ (i : ℕ). (transition_of dfa k i).lowin in
        let sorted : IsAscending key n = λ i j lt h. omega (
          arith,
          r.ntrans,
          low_at_flat i (omega (arith, r.ntrans)),
          low_at_flat j (omega (arith, r.ntrans)),
          ascending s.trans normal i j lt (omega (arith, r.ntrans)),
        ) in
        let found = bound_lem key c n sorted in
        record {
          inside = omega (arith, found.inside, r.ntrans);
          below = λ i lt.
              omega
                (arith, found.below i lt, low_at_flat i (omega (arith, found.inside, r.ntrans)));
          above = λ i le lt.
              omega (arith, found.above i le (omega (arith, r.ntrans)), low_at_flat i lt);
        }

    dfa_next-Moves : (c d : ℕ) → Moves s.trans c d → dfa_next dfa k c ≡ some d
    unfolding dfa_next place
    dfa_next-Moves c d h =
        let (i, lt, cover, e) = Moves-trans_at s.trans c d h in
        let at_ : place c ≡ suc i =
          split-Covers s.trans normal c (place c) i (place-Splits c) lt cover in
        let goes : (transition_of dfa k i).state ≡ d =
          ap (λ (t : FlatTransition). t.state) (transition_at i lt) ∙ sym e in
        let back : suc i - 1 ≡ i = omega arith in
        rw (at_, ne→== (suc i) 0 (omega arith), back) (ap some goes)

module _ ⦃m : Memory Transition⦄ (spare : List Transition → List Transition) (nfa : Db)
    (closed : IsClosed nfa) (proper : IsProper nfa) (num : IsNumbered nfa) where
  -- For a database as the subset construction asks for, and a state of it: the construction ends, and
  -- on the flat form of the DFA that it makes, REX_DFA_NEXT leads from every state by every character
  -- to the destination of the transition that the search in the database finds.
  pub dfa_next-createdfa :
      (from : ℕ) (withsubstates : Bool)
      → from < length nfa
      → (w : Conv) × (createdfa spare nfa from ≡ some w)
        × ((k c : ℕ)
            → k < length w.dfa
            → c ≤ char_max
            → dfa_next (todfa w.substates w.dfa withsubstates) k c
              ≡ some (goal (transitions_find (state_at w.dfa k).trans c)))
  dfa_next-createdfa from withsubstates lt =
      let (w, made, ok) = createdfa-IsConversion spare nfa closed proper num from lt in
      (
        w,
        made,
        λ k c inside le.
            let done = ok.done k inside in
            let s = state_at w.dfa k in
            let (d, moves) = done.total c le in
            let (t, found, e) = (find-Moves s.trans done.normal c d).0 moves in
            let there : some d ≡ some (goal (transitions_find s.trans c)) =
              ap some (e ∙ sym (ap goal found)) in
            dfa_next-Moves w.substates withsubstates s (todfa w.substates w.dfa withsubstates) k
              ((todfa-Reads w.substates w.dfa withsubstates).0 k inside) done.normal c d moves
            ∙ there,
      )
