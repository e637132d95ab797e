-- ===== src/Rex/Dfa/Fill.antt =====
-- `rex_db_todfa` in closed form: each common array is what the states put into it, one after the
-- other.
use rpatk.Base.{
  ℕ, suc, ◌+◌, ◌≤◌, ◌≡◌, refl, sym, ap, ◌∙◌, Bool, true, false, List, [], ◌∷◌, ◌++◌, map, length,
  set, drop, replicate, length-append, length-drop, length-replicate, arith, if◌then◌else◌,
}
use mathlib.Core.List.{append-nil, append_assoc}
use rpatk.Rex.State.{Db, State}
use rpatk.Rex.Construct.{Substate}
use rpatk.Rex.Dfa.{
  FlatTransition, FlatSubstate, FlatState, Dfa, Ctx, zero_state, zero_transition, zero_substate,
  create, fill_trans, fill_accepting, fill_substates, filldfastate, fill_states, numtransitions,
  numsubstates, numaccsubstates, todfa_ctx,
}
use rpatk.Rex.Dfa.Write.{
  listed_transition, listed_substate, write_all, set-append, write_all-append, fill_trans-write_all,
  fill_substates-write_all, fill_accepting-write_all, accepting_of, length-accepting_of,
}

pub length-map : {A B : Type 0} (f : A → B) (xs : List A) → length (map f xs) ≡ length xs
length-map f [] = refl
length-map f (x ∷ xs) = ap suc (length-map f xs)

abbrev pub all_trans : Db → List FlatTransition
all_trans [] = []
all_trans (s ∷ db) = map listed_transition s.trans ++ all_trans db

module _ (subs : List Substate) where
  abbrev pub all_accepting : Db → List FlatSubstate
  all_accepting [] = []
  all_accepting (s ∷ db) = accepting_of subs s.subset ++ all_accepting db

  module _ (withsubstates : Bool) where
    -- the substates that are copied for a state
    abbrev pub copied : List ℕ → List FlatSubstate
    copied us = if withsubstates then map (listed_substate subs) us else []

    abbrev pub all_substates : Db → List FlatSubstate
    all_substates [] = []
    all_substates (s ∷ db) = copied s.subset ++ all_substates db

    -- a state whose parts begin at the given offsets
    abbrev pub flat_state : State → ℕ → ℕ → ℕ → FlatState
    flat_state s t a u = record {
      kind = s.kind;
      trans = t;
      ntrans = length s.trans;
      accsubstates = a;
      naccsubstates = length (accepting_of subs s.subset);
      substates = if withsubstates then u else 0;
      nsubstates = length (copied s.subset);
    }

    abbrev pub flat_states : Db → ℕ → ℕ → ℕ → List FlatState
    flat_states [] t a u = []
    flat_states (s ∷ db) t a u =
        flat_state s t a u
        ∷ flat_states db (t + length s.trans) (a + length (accepting_of subs s.subset))
            (u + length (copied s.subset))

-- The arrays with `ps`, `pt`, `pa` and `pu` written, and the rest behind them.
abbrev partly :
    Dfa
    → List FlatState
    → List FlatState
    → List FlatTransition
    → List FlatTransition
    → List FlatSubstate
    → List FlatSubstate
    → List FlatSubstate
    → List FlatSubstate
    → Dfa × Ctx
partly d ps rs pt rt pa ra pu ru = (
  record d { states = ps ++ rs; trans = pt ++ rt; accsubstates = pa ++ ra; substates = pu ++ ru },
  record {
    nstates = length ps;
    ntrans = length pt;
    nsubstates = length pu;
    naccsubstates = length pa;
  },
)

copied_lem :
    (subs : List Substate) (w : Bool) (us : List ℕ) (pu ru : List FlatSubstate)
    → length (copied subs w us) ≤ length ru
    → (if w then fill_substates subs us (length pu) (pu ++ ru) else pu ++ ru)
      ≡ (pu ++ copied subs w us) ++ drop (length (copied subs w us)) ru
copied_lem subs true us pu ru le =
    fill_substates-write_all subs us (length pu) (pu ++ ru)
    ∙ write_all-append (map (listed_substate subs) us) pu ru le
copied_lem subs false us pu ru le = ap (λ l. l ++ ru) (sym (append-nil pu))

pub length-copied :
    (subs : List Substate) (w : Bool) (us : List ℕ)
    → (if w then length us else 0) ≡ length (copied subs w us)
length-copied subs true us = sym (length-map (listed_substate subs) us)
length-copied subs false us = refl

module _ (subs : List Substate) (w : Bool) (d : Dfa) (s : State) (ps rs : List FlatState)
    (pt rt : List FlatTransition) (pa ra pu ru : List FlatSubstate) (y : FlatState) where
  filldfastate_lem :
      length s.trans ≤ length rt
      → length (accepting_of subs s.subset) ≤ length ra
      → length (copied subs w s.subset) ≤ length ru
      → filldfastate subs w s (partly d ps (y ∷ rs) pt rt pa ra pu ru)
        ≡ partly d
            (ps ++ flat_state subs w s (length pt) (length pa) (length pu) ∷ [])
            rs
            (pt ++ map listed_transition s.trans)
            (drop (length s.trans) rt)
            (pa ++ accepting_of subs s.subset)
            (drop (length (accepting_of subs s.subset)) ra)
            (pu ++ copied subs w s.subset)
            (drop (length (copied subs w s.subset)) ru)
  unfolding filldfastate
  filldfastate_lem room_t room_a room_u =
      let ts = map listed_transition s.trans in
      let accs = accepting_of subs s.subset in
      let f = flat_state subs w s (length pt) (length pa) (length pu) in
      let e_t : fill_trans s.trans (length pt) (pt ++ rt) ≡ (pt ++ ts) ++ drop (length s.trans) rt =
        fill_trans-write_all s.trans (length pt) (pt ++ rt)
        ∙ write_all-append ts pt rt (omega (arith, length-map listed_transition s.trans))
        ∙ ap (λ n. (pt ++ ts) ++ drop n rt) (length-map listed_transition s.trans) in
      let found = fill_accepting-write_all subs s.subset (length pa) 0 (pa ++ ra) in
      let start : length pa + 0 ≡ length pa = omega arith in
      let e_a : (fill_accepting subs s.subset (length pa) 0 (pa ++ ra)).0
          ≡ (pa ++ accs) ++ drop (length accs) ra =
        ap (λ (x : List FlatSubstate × ℕ). x.0) found
        ∙ ap (λ n. write_all accs n (pa ++ ra)) start
        ∙ write_all-append accs pa ra room_a in
      let none_before : 0 + length accs ≡ length accs = omega arith in
      let e_n : (fill_accepting subs s.subset (length pa) 0 (pa ++ ra)).1 ≡ length accs =
        ap (λ (x : List FlatSubstate × ℕ). x.1) found ∙ none_before in
      let e_u = copied_lem subs w s.subset pu ru room_u in
      let e_k = length-copied subs w s.subset in
      let n_p : suc (length ps) ≡ length (ps ++ f ∷ []) =
        omega (arith, length-append ps (f ∷ [])) in
      let n_t : length pt + length s.trans ≡ length (pt ++ ts) =
        omega (arith, length-append pt ts, length-map listed_transition s.trans) in
      let n_u : length pu + (if w then length s.subset else 0)
          ≡ length (pu ++ copied subs w s.subset) =
        omega (arith, length-append pu (copied subs w s.subset), e_k) in
      let n_a : length pa + (fill_accepting subs s.subset (length pa) 0 (pa ++ ra)).1
          ≡ length (pa ++ accs) =
        omega (arith, length-append pa accs, e_n) in
      let fixed : (n k : ℕ) → FlatState = λ n k. record f { naccsubstates = n; nsubstates = k } in
      let e_s : set (ps ++ y ∷ rs) (length ps) (
            fixed (fill_accepting subs s.subset (length pa) 0 (pa ++ ra)).1
              (if w then length s.subset else 0))
          ≡ (ps ++ f ∷ []) ++ rs =
        ap (λ n. set (ps ++ y ∷ rs) (length ps) (fixed n (if w then length s.subset else 0))) e_n
        ∙ ap (λ k. set (ps ++ y ∷ rs) (length ps) (fixed (length accs) k)) e_k
        ∙ set-append ps rs y f in
      λ i. (
        record d { states = e_s i; trans = e_t i; accsubstates = e_a i; substates = e_u i },
        record { nstates = n_p i; ntrans = n_t i; nsubstates = n_u i; naccsubstates = n_a i },
      )

-- the sizes that the arrays are allocated with
length-all_trans : (db : Db) → length (all_trans db) ≡ numtransitions db
unfolding numtransitions
length-all_trans [] = refl
length-all_trans (s ∷ db) = omega (
  arith,
  length-append (map listed_transition s.trans) (all_trans db),
  length-map listed_transition s.trans,
  length-all_trans db,
)

length-all_accepting :
    (subs : List Substate) (db : Db) → length (all_accepting subs db) ≡ numaccsubstates subs db
unfolding numaccsubstates
length-all_accepting subs [] = refl
length-all_accepting subs (s ∷ db) = omega (
  arith,
  length-append (accepting_of subs s.subset) (all_accepting subs db),
  length-accepting_of subs s.subset,
  length-all_accepting subs db,
)

length-all_substates :
    (subs : List Substate) (w : Bool) (db : Db)
    → length (all_substates subs w db) ≡ (if w then numsubstates db else 0)
unfolding numsubstates
length-all_substates subs true [] = refl
length-all_substates subs false [] = refl
length-all_substates subs true (s ∷ db) = omega (
  arith,
  length-append (map (listed_substate subs) s.subset) (all_substates subs true db),
  length-map (listed_substate subs) s.subset,
  length-all_substates subs true db,
)
length-all_substates subs false (s ∷ db) = length-all_substates subs false db

nil_of : {A : Type 0} (xs : List A) → length xs ≡ 0 → xs ≡ []
nil_of [] h = refl
nil_of (x ∷ xs) h = absurd (omega arith)

module _ (subs : List Substate) (w : Bool) (d : Dfa) where
  fill_states_lem :
      (db : Db) (ps rs : List FlatState) (pt rt : List FlatTransition)
      (pa ra pu ru : List FlatSubstate)
      → length rs ≡ length db
      → length rt ≡ length (all_trans db)
      → length ra ≡ length (all_accepting subs db)
      → length ru ≡ length (all_substates subs w db)
      → fill_states subs w db (partly d ps rs pt rt pa ra pu ru)
        ≡ partly d
            (ps ++ flat_states subs w db (length pt) (length pa) (length pu))
            []
            (pt ++ all_trans db)
            []
            (pa ++ all_accepting subs db)
            []
            (pu ++ all_substates subs w db)
            []
  unfolding fill_states
  fill_states_lem [] ps rs pt rt pa ra pu ru h_s h_t h_a h_u = λ i.
      partly d (sym (append-nil ps) i) (nil_of rs h_s i) (sym (append-nil pt) i) (nil_of rt h_t i)
        (sym (append-nil pa) i) (nil_of ra h_a i) (sym (append-nil pu) i) (nil_of ru h_u i)
  fill_states_lem (s ∷ db) ps [] pt rt pa ra pu ru h_s h_t h_a h_u = absurd (omega arith)
  fill_states_lem (s ∷ db) ps (y ∷ rs) pt rt pa ra pu ru h_s h_t h_a h_u =
      let ts = map listed_transition s.trans in
      let accs = accepting_of subs s.subset in
      let us = copied subs w s.subset in
      let f = flat_state subs w s (length pt) (length pa) (length pu) in
      let l_t = length-append ts (all_trans db) in
      let m_t = length-map listed_transition s.trans in
      let l_a = length-append accs (all_accepting subs db) in
      let l_u = length-append us (all_substates subs w db) in
      let step =
        filldfastate_lem subs w d s ps rs pt rt pa ra pu ru y (omega (arith, l_t, m_t))
          (omega (arith, l_a)) (omega (arith, l_u)) in
      let rest =
        fill_states_lem db (ps ++ f ∷ []) rs (pt ++ ts) (drop (length s.trans) rt) (pa ++ accs)
          (drop (length accs) ra) (pu ++ us) (drop (length us) ru) (omega arith)
          (omega (arith, l_t, m_t, length-drop (length s.trans) rt))
          (omega (arith, l_a, length-drop (length accs) ra))
          (omega (arith, l_u, length-drop (length us) ru)) in
      let n_t : length (pt ++ ts) ≡ length pt + length s.trans =
        omega (arith, length-append pt ts, m_t) in
      let n_a = length-append pa accs in
      let n_u = length-append pu us in
      let states : (ps ++ f ∷ [])
            ++ flat_states subs w db (length (pt ++ ts)) (length (pa ++ accs)) (length (pu ++ us))
          ≡ ps ++ flat_states subs w (s ∷ db) (length pt) (length pa) (length pu) =
        append_assoc ps (f ∷ [])
          (flat_states subs w db (length (pt ++ ts)) (length (pa ++ accs)) (length (pu ++ us)))
        ∙ λ i. ps ++ (f ∷ flat_states subs w db (n_t i) (n_a i) (n_u i)) in
      ap (fill_states subs w db) step ∙ rest ∙ λ i.
      partly d (states i) [] (append_assoc pt ts (all_trans db) i) []
        (append_assoc pa accs (all_accepting subs db) i) []
        (append_assoc pu us (all_substates subs w db) i) []

length-flat_states :
    (subs : List Substate) (w : Bool) (db : Db) (t a u : ℕ)
    → length (flat_states subs w db t a u) ≡ length db
length-flat_states subs w [] t a u = refl
length-flat_states subs w (s ∷ db) t a u = ap suc (
    length-flat_states subs w db (t + length s.trans) (a + length (accepting_of subs s.subset))
      (u + length (copied subs w s.subset)))

abbrev pub flat_dfa : List Substate → Bool → Db → Dfa
flat_dfa subs w db = record {
  nstates = length db;
  states = flat_states subs w db 0 0 0;
  ntrans = numtransitions db;
  trans = all_trans db;
  naccsubstates = numaccsubstates subs db;
  accsubstates = all_accepting subs db;
  nsubstates = if w then numsubstates db else 0;
  substates = all_substates subs w db;
}

-- The closed form. The context ends with the sizes that the arrays were made with, as the code
-- asserts.
module _ (subs : List Substate) (w : Bool) (db : Db) where
  pub todfa_ctx_lem : todfa_ctx subs db w ≡ (
    flat_dfa subs w db,
    record {
      nstates = length db;
      ntrans = numtransitions db;
      nsubstates = if w then numsubstates db else 0;
      naccsubstates = numaccsubstates subs db;
    },
  )
  unfolding todfa_ctx create
  todfa_ctx_lem =
      let u = if w then numsubstates db else 0 in
      let d = create (length db) (numtransitions db) (numaccsubstates subs db) u in
      let n_s = length-flat_states subs w db 0 0 0 in
      let n_t = length-all_trans db in
      let n_a = length-all_accepting subs db in
      let n_u = length-all_substates subs w db in
      fill_states_lem subs w d db [] (replicate (length db) zero_state) []
        (replicate (numtransitions db) zero_transition) []
        (replicate (numaccsubstates subs db) zero_substate) [] (replicate u zero_substate)
        (length-replicate (length db) zero_state)
        (omega (arith, length-replicate (numtransitions db) zero_transition, n_t))
        (omega (arith, length-replicate (numaccsubstates subs db) zero_substate, n_a))
        (omega (arith, length-replicate u zero_substate, n_u))
      ∙ λ i. (
        record d {
          states = append-nil (flat_states subs w db 0 0 0) i;
          trans = append-nil (all_trans db) i;
          accsubstates = append-nil (all_accepting subs db) i;
          substates = append-nil (all_substates subs w db) i;
        },
        record { nstates = n_s i; ntrans = n_t i; nsubstates = n_u i; naccsubstates = n_a i },
      )
