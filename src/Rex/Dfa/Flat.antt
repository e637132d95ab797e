-- ===== src/Rex/Dfa/Flat.antt =====
-- The accessors of the flat DFA read what the database holds.
use rpatk.Base.{
  ℕ, zero, suc, ◌+◌, ◌<◌, ◌≤◌, ◌≡◌, refl, sym, ap, ◌∙◌, Bool, true, false, Bool-cases, inl, inr,
  none, some, List, [], ◌∷◌, ◌++◌, map, length, get_or, get_elem?, length-append, leb, leb_no,
  lt→leb, le→leb, arith, if◌then◌else◌,
}
use mathlib.Core.Path.{subst}
use mathlib.Core.List.{append_assoc}
use rpatk.Base.Slices.{get_or-append}
use rpatk.Rex.State.{Db, State, state_at}
use rpatk.Rex.Construct.{Substate}
use rpatk.Rex.Dfa.{
  FlatTransition, FlatSubstate, FlatState, Dfa, Ctx, zero_state, zero_transition, zero_substate,
  todfa, dfa_state, dfa_transition, dfa_substate, dfa_accsubstate, state_of,
}
use rpatk.Rex.Dfa.Write.{listed_transition, listed_substate, accepting_of}
use rpatk.Rex.Dfa.Fill.{
  length-map, all_trans, all_accepting, copied, all_substates, flat_state, flat_states, flat_dfa,
  todfa_ctx_lem,
}

module _ {A : Type 0} where
  get_or-behind :
      (p xs r : List A) (i j : ℕ) (d : A)
      → i < length xs
      → j ≡ length p + i
      → get_or (p ++ (xs ++ r)) j d ≡ get_or xs i d
  get_or-behind [] xs r i j d lt e =
      let same : j ≡ i = omega arith in
      ap (λ n. get_or (xs ++ r) n d) same ∙ get_or-append i xs r d lt
  get_or-behind (y ∷ p) xs r i zero d lt e = absurd (omega arith)
  get_or-behind (y ∷ p) xs r i (suc j) d lt e = get_or-behind p xs r i j d lt (omega arith)

  get_elem?-get_or :
      (xs : List A) (i : ℕ) (d : A) → i < length xs → get_elem? xs i ≡ some (get_or xs i d)
  get_elem?-get_or [] i d lt = elim lt [ ]
  get_elem?-get_or (x ∷ xs) zero d lt = refl
  get_elem?-get_or (x ∷ xs) (suc i) d lt = get_elem?-get_or xs i d (omega arith)

  get_elem?-none : (xs : List A) (i : ℕ) → length xs ≤ i → get_elem? xs i ≡ none
  get_elem?-none [] i le = refl
  get_elem?-none (x ∷ xs) zero le = absurd (omega arith)
  get_elem?-none (x ∷ xs) (suc i) le = get_elem?-none xs i (omega arith)

  -- a guarded read of the part `xs` of an array, which begins at `at_`
  pick :
      (out p xs r : List A) (n at_ i : ℕ) (d : A)
      → out ≡ p ++ (xs ++ r)
      → n ≡ length xs
      → at_ ≡ length p
      → (if leb n i then none else some (get_or out (at_ + i) d)) ≡ get_elem? xs i
  pick out p xs r n at_ i d split size place = elim (Bool-cases (leb n i)) [
    | inl beyond ↦ rw beyond (sym (get_elem?-none xs i (ground arith)))
    | inr inside ↦
        let lt : i < length xs = omega (arith, leb_no n i inside) in
        rw inside (
          ap (λ l. some (get_or l (at_ + i) d)) split
          ∙ ap some (get_or-behind p xs r i (at_ + i) d lt (omega arith))
          ∙ sym (get_elem?-get_or xs i d lt))
  ]

-- Where the parts of the state `s` stand in the common arrays.
record Located (subs : List Substate) (w : Bool) (s : State) (out_t : List FlatTransition)
    (out_a out_u : List FlatSubstate) (f : FlatState) : Type 0 where
  pt : List FlatTransition
  rt : List FlatTransition
  pa : List FlatSubstate
  ra : List FlatSubstate
  pu : List FlatSubstate
  ru : List FlatSubstate
  state : f ≡ flat_state subs w s (length pt) (length pa) (length pu)
  trans : out_t ≡ pt ++ (map listed_transition s.trans ++ rt)
  accepting : out_a ≡ pa ++ (accepting_of subs s.subset ++ ra)
  all : out_u ≡ pu ++ (copied subs w s.subset ++ ru)

module _ (subs : List Substate) (w : Bool) where
  located :
      (db : Db) (k : ℕ) (pt : List FlatTransition) (pa pu : List FlatSubstate) (t a u : ℕ)
      → k < length db
      → t ≡ length pt
      → a ≡ length pa
      → u ≡ length pu
      → Located subs w
          (state_at db k)
          (pt ++ all_trans db)
          (pa ++ all_accepting subs db)
          (pu ++ all_substates subs w db)
          (get_or (flat_states subs w db t a u) k zero_state)
  located [] k pt pa pu t a u lt e_t e_a e_u = elim lt [ ]
  located (s ∷ db) zero pt pa pu t a u lt e_t e_a e_u = record {
    pt = pt;
    rt = all_trans db;
    pa = pa;
    ra = all_accepting subs db;
    pu = pu;
    ru = all_substates subs w db;
    state = λ i. flat_state subs w s (e_t i) (e_a i) (e_u i);
    trans = refl;
    accepting = refl;
    all = refl;
  }
  located (s ∷ db) (suc k) pt pa pu t a u lt e_t e_a e_u =
      let ts = map listed_transition s.trans in
      let accs = accepting_of subs s.subset in
      let us = copied subs w s.subset in
      let h =
        located db k (pt ++ ts) (pa ++ accs) (pu ++ us) (t + length s.trans) (a + length accs)
          (u + length us) (omega arith)
          (omega (arith, length-append pt ts, length-map listed_transition s.trans))
          (omega (arith, length-append pa accs)) (omega (arith, length-append pu us)) in
      record {
        pt = h.pt;
        rt = h.rt;
        pa = h.pa;
        ra = h.ra;
        pu = h.pu;
        ru = h.ru;
        state = h.state;
        trans = sym (append_assoc pt ts (all_trans db)) ∙ h.trans;
        accepting = sym (append_assoc pa accs (all_accepting subs db)) ∙ h.accepting;
        all = sym (append_assoc pu us (all_substates subs w db)) ∙ h.all;
      }

-- The state `k` of the flat DFA reads as the state `s`.
pub record Reads (subs : List Substate) (w : Bool) (s : State) (dfa : Dfa) (k : ℕ) : Type 0 where
  pub kind : (state_of dfa k).kind ≡ s.kind
  pub there : dfa_state dfa k ≡ some (state_of dfa k)
  pub ntrans : (state_of dfa k).ntrans ≡ length s.trans
  pub trans : (i : ℕ) → dfa_transition dfa k i ≡ get_elem? (map listed_transition s.trans) i
  pub accepting : (i : ℕ) → dfa_accsubstate dfa k i ≡ get_elem? (accepting_of subs s.subset) i
  pub all : (i : ℕ) → dfa_substate dfa k i ≡ get_elem? (copied subs w s.subset) i

module _ (subs : List Substate) (db : Db) where
  all-Reads :
      (w : Bool) (k i : ℕ)
      → k < length db
      → dfa_substate (flat_dfa subs w db) k i ≡ get_elem? (copied subs w (state_at db k).subset) i
  unfolding dfa_substate dfa_state
  all-Reads true k i lt =
      let h = located subs true db k [] [] [] 0 0 0 lt refl refl refl in
      rw (lt→leb (length db) k lt, dfa_substate)
        (pick (all_substates subs true db) h.pu (map (listed_substate subs) (state_at db k).subset)
          h.ru _ _ i zero_substate h.all (ap (λ (f : FlatState). f.nsubstates) h.state)
          (ap (λ (f : FlatState). f.substates) h.state))
  all-Reads false k i lt =
      let h = located subs false db k [] [] [] 0 0 0 lt refl refl refl in
      rw (lt→leb (length db) k lt, dfa_substate)
        (rw (ap (λ (f : FlatState). f.nsubstates) h.state) (rw (le→leb 0 i (omega arith)) refl))

  flat_dfa-Reads :
      (w : Bool) (k : ℕ) → k < length db → Reads subs w (state_at db k) (flat_dfa subs w db) k
  unfolding dfa_state dfa_transition dfa_accsubstate
  flat_dfa-Reads w k lt =
      let h = located subs w db k [] [] [] 0 0 0 lt refl refl refl in
      let known = lt→leb (length db) k lt in
      record {
        kind = ap (λ (f : FlatState). f.kind) h.state;
        there = rw known refl;
        ntrans = ap (λ (f : FlatState). f.ntrans) h.state;
        trans = λ i.
            rw (known, dfa_transition)
              (pick (all_trans db) h.pt (map listed_transition (state_at db k).trans) h.rt _ _ i
                zero_transition h.trans
                (ap (λ (f : FlatState). f.ntrans) h.state
                  ∙ sym (length-map listed_transition (state_at db k).trans))
                (ap (λ (f : FlatState). f.trans) h.state));
        accepting = λ i.
            rw (known, dfa_accsubstate)
              (pick (all_accepting subs db) h.pa (accepting_of subs (state_at db k).subset) h.ra _ _
                i zero_substate h.accepting (ap (λ (f : FlatState). f.naccsubstates) h.state)
                (ap (λ (f : FlatState). f.accsubstates) h.state));
        all = λ i. all-Reads w k i lt;
      }

  -- The flat DFA has the states of the database and no others. Each reads with its type, with exactly
  -- its transitions, with exactly the accepting ones among its substates, and, if it is made with
  -- them, with exactly its substates, all in their order; a read behind them finds none.
  pub todfa-Reads :
      (w : Bool)
      → ((k : ℕ) → k < length db → Reads subs w (state_at db k) (todfa subs db w) k)
        × ((k : ℕ) → length db ≤ k → dfa_state (todfa subs db w) k ≡ none)
  unfolding todfa dfa_state
  todfa-Reads w =
      let e : todfa subs db w ≡ flat_dfa subs w db =
        ap (λ (x : Dfa × Ctx). x.0) (todfa_ctx_lem subs w db) in
      (
        λ k lt. subst (λ x. Reads subs w (state_at db k) x k) (sym e) (flat_dfa-Reads w k lt),
        λ k le. subst (λ x. dfa_state x k ≡ none) (sym e) (rw (le→leb (length db) k le) refl),
      )
