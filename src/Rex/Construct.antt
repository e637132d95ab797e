-- ===== src/Rex/Construct.antt =====
-- rex/rexdfaconv.c and rex/rexdb.c: the loop of the subset construction, rex_dfaconv_run. What the
-- conversion changes is the record `Conv`: the new database with the list of its substates, and the
-- hash and the marks of `rexdfaconv_t`. The value that the hash keeps for a subset is the number of
-- its state, which the code reads through a pointer and which does not change once it is stored.
-- `none` is a loop that did not end within its fuel.
pub mod Sets
pub mod Shapes
pub mod NewState
pub mod Led
pub mod Round
pub mod Done
pub mod Loop
pub mod Whole
pub mod Walks
pub mod Longest
mod Tests
use rpatk.Base.{
  ℕ, zero, suc, ◌+◌, ◌^◌, ◌-◌, ◌<◌, Bool, true, false, Option, none, some, List, [], ◌∷◌, ◌++◌, map,
  length, set, ltb, if◌then◌else◌,
}
use rpatk.RArray.{Memory, RArray, contents}
use rpatk.RHash.{RHash, create, insert, lookup_object}
use rpatk.Rex.Transition.{Transition}
use rpatk.Rex.State.{
  Db, State, StateType, none_state, start, accept, dead, createstate, state_at, addsubstate,
  addtransition,
}
use rpatk.Rex.SubsetKey.{subset_key}
use rpatk.Rex.DfaConv.{Marks, eclosure, move, subset_transitions, uniqueranges}
use rpatk.Rex.NfaSim.{is_accept}
use rpatk.Rex.Normalize.{normalize}

-- `rexsubstate_t`
pub record Substate : Type 0 where
  pub ss_uid : ℕ
  pub ss_type : StateType
  pub ss_userdata : ℕ

pub record Conv : Type 0 where
  pub dfa : Db
  pub substates : List Substate
  pub hash : RHash (List ℕ)
  pub marked : Marks

-- a write through the pointer to a state
unfoldable pub write_state : Db → ℕ → (State → State) → Db
write_state db i f = set db i (f (state_at db i))

make_substate : State → Substate
make_substate s = record { ss_uid = s.uid; ss_type = s.kind; ss_userdata = s.userdata }

-- `rex_dfaconv_initsubstates`
unfoldable pub initsubstates : Db → List Substate
unfolding make_substate
initsubstates nfa = map make_substate nfa

-- the loop of `rex_dfaconv_setsubstates`
unfoldable pub substates_loop : Db → List ℕ → State → State
substates_loop nfa [] state = state
substates_loop nfa (u ∷ set) state =
    let s = state_at nfa u in
    let state' = addsubstate state s.uid in
    substates_loop nfa set (if is_accept s.kind then record state' { kind = accept } else state')

unfoldable pub setsubstates : Db → List ℕ → State → State
setsubstates nfa set state = substates_loop nfa set (record state { subset = [] })

-- a state for a subset that the hash does not have
unfoldable pub newstate : Db → List ℕ → Conv → Conv × ℕ
newstate nfa v w =
    let (dfa, uid) = createstate w.dfa none_state in
    let dfa' = write_state dfa uid (setsubstates nfa v) in
    let next = state_at dfa' uid in
    (record w { dfa = dfa'; hash = insert w.hash next.subset next.uid }, uid)

unfoldable pub state_for : Db → List ℕ → Conv → Conv × ℕ
state_for nfa v w = elim (lookup_object w.hash v) [ some uid ↦ (w, uid) | none ↦ newstate nfa v w ]

-- `rex_state_addtransition` on the state at `i`
unfoldable pub lead : ℕ → Transition → Conv × ℕ → Conv
lead i t (w, uid) = record w {
  dfa = write_state w.dfa i (λ s. addtransition s t.lowin t.highin uid);
}

lead_closed : Db → ℕ → Transition → Conv → Option (List ℕ × Marks) → Option Conv
lead_closed nfa i t w none = none
lead_closed nfa i t w (some (v, marks)) =
    some (lead i t (state_for nfa v (record w { marked = marks })))

-- what follows the move: the dead state for the empty set
lead_moved : Db → ℕ → Transition → Conv → List ℕ → Option Conv
unfolding lead_closed
lead_moved nfa i t w [] = some (lead i t (w, 0))
lead_moved nfa i t w (u ∷ us) = lead_closed nfa i t w (eclosure nfa (u ∷ us) w.marked)

-- one range of the state at `i`
unfoldable pub convert_range : Db → ℕ → Transition → Conv → Option Conv
unfolding lead_moved lead_closed
convert_range nfa i t w = lead_moved nfa i t w (move nfa (state_at w.dfa i).subset t.lowin t.highin)

-- the inner loop
unfoldable pub range_loop : Db → ℕ → List Transition → Conv → Option Conv
range_loop nfa i [] w = some w
range_loop nfa i (t ∷ ts) w = elim (convert_range nfa i t w) [
  | none ↦ none
  | some w' ↦ range_loop nfa i ts w'
]

-- The block of a state's transitions has room behind them: `spare` gives what stands there.
module _ ⦃m : Memory Transition⦄ (spare : List Transition → List Transition) where
  unfoldable pub array_of : List Transition → RArray Transition
  array_of ts = record { data_ = ts ++ spare ts; len = length ts }

  store_trans : ℕ → Conv → Option (RArray Transition) → Option Conv
  store_trans i w none = none
  store_trans i w (some a) =
      some (record w { dfa = write_state w.dfa i (λ s. record s { trans = contents a }) })

  -- `rex_transitions_normalize(s->trans)`
  unfoldable pub normalize_state : ℕ → Conv → Option Conv
  unfolding array_of store_trans
  normalize_state i w = store_trans i w (normalize (array_of (state_at w.dfa i).trans))

  unfoldable pub convert_state : Db → ℕ → Conv → Option Conv
  convert_state nfa i w =
      let ts = uniqueranges (subset_transitions nfa (state_at w.dfa i).subset []) in
      elim (range_loop nfa i ts w) [ none ↦ none | some w' ↦ normalize_state i w' ]

  -- the outer loop, over a database that grows
  unfoldable pub conv_loop : ℕ → Db → ℕ → Conv → Option Conv
  conv_loop zero nfa i w = if ltb i (length w.dfa) then none else some w
  conv_loop (suc fuel) nfa i w = elim (ltb i (length w.dfa)) [
    | false ↦ some w
    | true ↦ elim (convert_state nfa i w) [ none ↦ none | some w' ↦ conv_loop fuel nfa (suc i) w' ]
  ]

  -- what follows the closure of the start state
  run_from : Db → ℕ → Conv → Option (List ℕ × Marks) → Option Conv
  run_from nfa uid w none = none
  run_from nfa uid w (some (v, marks)) =
      let dfa = write_state w.dfa uid (λ s. record s { subset = v }) in
      let s = state_at dfa uid in
      conv_loop (2 ^ length nfa) nfa 0
        (record w { dfa = dfa; hash = insert w.hash s.subset s.uid; marked = marks })

  -- `rex_dfaconv_run`, with the hash and the marks that the conversion starts with. The states of
  -- the new database are subsets of the old one's.
  unfoldable pub dfaconv_run : RHash (List ℕ) → Marks → Db → ℕ → Option Conv
  unfolding run_from initsubstates
  dfaconv_run hash marked nfa from =
      let (dfa₀, _) = createstate [] dead in
      let (dfa, uid) = createstate dfa₀ start in
      run_from nfa uid
        (record { dfa = dfa; substates = initsubstates nfa; hash = hash; marked = marked })
        (eclosure nfa (from ∷ []) marked)

  -- `rex_db_createdfa`, with a conversion as `rex_dfaconv_create` makes it
  unfoldable pub createdfa : Db → ℕ → Option Conv
  createdfa nfa from = dfaconv_run (create 16) (λ _. false) nfa from
