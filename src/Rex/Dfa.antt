-- ===== src/Rex/Dfa.antt =====
-- rex/rexdfa.c, rex/rexdfatypes.h and rex_db_todfa of rex/rexdb.c: the flat form of a DFA, in which
-- the transitions and the substates of all states stand in common arrays. An array is the list of
-- its elements, zeroed at first, and a null pointer to no elements is the empty list. Of the database
-- the states and their substates are taken. The fields are numbers of 32 bits that do not overflow
-- for a database that fits in memory.
pub mod Write
pub mod Fill
pub mod Flat
pub mod Next
mod Tests
use rpatk.Base.{
  ℕ, zero, suc, ◌+◌, ◌-◌, Bool, true, false, Option, none, some, List, [], ◌∷◌, ◌++◌, map, length,
  get_or, set, replicate, leb, ltb, ◌==◌, if◌then◌else◌,
}
use rpatk.Rex.Search.{bound_loop}
use rpatk.Rex.Transition.{Transition}
use rpatk.Rex.State.{Db, State, StateType, none_state}
use rpatk.Rex.NfaSim.{is_accept}
use rpatk.Rex.Construct.{Substate}

-- `rexdfss_t`
pub record FlatSubstate : Type 0 where
  pub kind : StateType
  pub uid : ℕ
  pub userdata : ℕ

-- `rexdft_t`
pub record FlatTransition : Type 0 where
  pub lowin : ℕ
  pub highin : ℕ
  pub state : ℕ

-- `rexdfs_t`
pub record FlatState : Type 0 where
  pub kind : StateType
  pub trans : ℕ
  pub ntrans : ℕ
  pub accsubstates : ℕ
  pub naccsubstates : ℕ
  pub substates : ℕ
  pub nsubstates : ℕ

-- `rexdfa_t`
pub record Dfa : Type 0 where
  pub nstates : ℕ
  pub states : List FlatState
  pub ntrans : ℕ
  pub trans : List FlatTransition
  pub naccsubstates : ℕ
  pub accsubstates : List FlatSubstate
  pub nsubstates : ℕ
  pub substates : List FlatSubstate

abbrev pub zero_substate : FlatSubstate
zero_substate = record { kind = none_state; uid = 0; userdata = 0 }

abbrev pub zero_transition : FlatTransition
zero_transition = record { lowin = 0; highin = 0; state = 0 }

abbrev pub zero_state : FlatState
zero_state = record {
  kind = none_state;
  trans = 0;
  ntrans = 0;
  accsubstates = 0;
  naccsubstates = 0;
  substates = 0;
  nsubstates = 0;
}

-- `rex_dfa_create`
unfoldable pub create : ℕ → ℕ → ℕ → ℕ → Dfa
create nstates ntrans naccsubstates nsubstates = record {
  nstates = nstates;
  states = replicate nstates zero_state;
  ntrans = ntrans;
  trans = replicate ntrans zero_transition;
  naccsubstates = naccsubstates;
  accsubstates = replicate naccsubstates zero_substate;
  nsubstates = nsubstates;
  substates = replicate nsubstates zero_substate;
}

-- REX_DFA_STATE, REX_DFA_TRANSITION, REX_DFA_SUBSTATE and REX_DFA_ACCSUBSTATE
abbrev pub state_of : Dfa → ℕ → FlatState
state_of dfa nstate = get_or dfa.states nstate zero_state

abbrev pub transition_of : Dfa → ℕ → ℕ → FlatTransition
transition_of dfa nstate i = get_or dfa.trans ((state_of dfa nstate).trans + i) zero_transition

abbrev pub substate_of : Dfa → ℕ → ℕ → FlatSubstate
substate_of dfa nstate i = get_or dfa.substates ((state_of dfa nstate).substates + i) zero_substate

abbrev pub accsubstate_of : Dfa → ℕ → ℕ → FlatSubstate
accsubstate_of dfa nstate i =
    get_or dfa.accsubstates ((state_of dfa nstate).accsubstates + i) zero_substate

unfoldable pub dfa_state : Dfa → ℕ → Option FlatState
dfa_state dfa nstate = if leb dfa.nstates nstate then none else some (state_of dfa nstate)

unfoldable pub dfa_transition : Dfa → ℕ → ℕ → Option FlatTransition
dfa_transition dfa nstate i = elim (dfa_state dfa nstate) [
  | none ↦ none
  | some s ↦ if leb s.ntrans i then none else some (transition_of dfa nstate i)
]

unfoldable pub dfa_substate : Dfa → ℕ → ℕ → Option FlatSubstate
dfa_substate dfa nstate i = elim (dfa_state dfa nstate) [
  | none ↦ none
  | some s ↦ if leb s.nsubstates i then none else some (substate_of dfa nstate i)
]

unfoldable pub dfa_accsubstate : Dfa → ℕ → ℕ → Option FlatSubstate
dfa_accsubstate dfa nstate i = elim (dfa_state dfa nstate) [
  | none ↦ none
  | some s ↦ if leb s.naccsubstates i then none else some (accsubstate_of dfa nstate i)
]

-- REX_DFA_NEXT, and `rex_dfa_next`: `none` is the read in front of the state's transitions, which
-- the code makes where the first of them starts behind the character.
unfoldable pub dfa_next : Dfa → ℕ → ℕ → Option ℕ
dfa_next dfa nstate input =
    let n = (state_of dfa nstate).ntrans in
    let min = bound_loop n (λ mid. (transition_of dfa nstate mid).lowin) input 0 n in
    if min == 0 then none else some (transition_of dfa nstate (min - 1)).state

-- `struct rexdfa_ctx`
pub record Ctx : Type 0 where
  pub nstates : ℕ
  pub ntrans : ℕ
  pub nsubstates : ℕ
  pub naccsubstates : ℕ

unfoldable pub flat_transition : Transition → FlatTransition
flat_transition t = record { lowin = t.lowin; highin = t.highin; state = t.dstuid }

-- `rex_db_getsubstate`, where the code does not look whether there is one: a substate that is not there
-- is a null pointer that it reads through, and a zeroed one here
abbrev pub substate_at : List Substate → ℕ → Substate
substate_at subs uid =
    get_or subs uid (record { ss_uid = 0; ss_type = none_state; ss_userdata = 0 })

unfoldable pub flat_substate : List Substate → ℕ → FlatSubstate
flat_substate subs uid =
    let s = substate_at subs uid in record { kind = s.ss_type; uid = uid; userdata = s.ss_userdata }

-- the loop over the transitions of a state
unfoldable pub fill_trans : List Transition → ℕ → List FlatTransition → List FlatTransition
fill_trans [] i out = out
fill_trans (t ∷ ts) i out = fill_trans ts (suc i) (set out i (flat_transition t))

-- the loop that picks the accepting substates, with their count
unfoldable pub fill_accepting :
    List Substate → List ℕ → ℕ → ℕ → List FlatSubstate → List FlatSubstate × ℕ
fill_accepting subs [] base n out = (out, n)
fill_accepting subs (uid ∷ us) base n out =
    let on = is_accept (substate_at subs uid).ss_type in
    fill_accepting subs us base (if on then suc n else n)
      (if on then set out (base + n) (flat_substate subs uid) else out)

-- the loop over all substates
unfoldable pub fill_substates : List Substate → List ℕ → ℕ → List FlatSubstate → List FlatSubstate
fill_substates subs [] i out = out
fill_substates subs (uid ∷ us) i out =
    fill_substates subs us (suc i) (set out i (flat_substate subs uid))

-- `rex_db_filldfastate`
unfoldable pub filldfastate : List Substate → Bool → State → Dfa × Ctx → Dfa × Ctx
filldfastate subs withsubstates state (dfa, ctx) =
    let n = length state.trans in
    let (accsubstates, naccsubstates) =
      fill_accepting subs state.subset ctx.naccsubstates 0 dfa.accsubstates in
    let nsubstates = if withsubstates then length state.subset else 0 in
    let s : FlatState = record {
      kind = state.kind;
      trans = ctx.ntrans;
      ntrans = n;
      accsubstates = ctx.naccsubstates;
      naccsubstates = naccsubstates;
      substates = if withsubstates then ctx.nsubstates else 0;
      nsubstates = nsubstates;
    } in
    (
      record dfa {
        states = set dfa.states ctx.nstates s;
        trans = fill_trans state.trans ctx.ntrans dfa.trans;
        accsubstates = accsubstates;
        substates =
            if withsubstates
            then fill_substates subs state.subset ctx.nsubstates dfa.substates
            else dfa.substates;
      },
      record {
        nstates = suc ctx.nstates;
        ntrans = ctx.ntrans + n;
        nsubstates = ctx.nsubstates + nsubstates;
        naccsubstates = ctx.naccsubstates + naccsubstates;
      },
    )

unfoldable pub numtransitions : Db → ℕ
numtransitions [] = 0
numtransitions (s ∷ db) = length s.trans + numtransitions db

unfoldable pub numsubstates : Db → ℕ
numsubstates [] = 0
numsubstates (s ∷ db) = length s.subset + numsubstates db

unfoldable pub count_accepting : List Substate → List ℕ → ℕ
count_accepting subs [] = 0
count_accepting subs (uid ∷ us) =
    (if is_accept (substate_at subs uid).ss_type then 1 else 0) + count_accepting subs us

unfoldable pub numaccsubstates : List Substate → Db → ℕ
numaccsubstates subs [] = 0
numaccsubstates subs (s ∷ db) = count_accepting subs s.subset + numaccsubstates subs db

-- the loop over the states
unfoldable pub fill_states : List Substate → Bool → Db → Dfa × Ctx → Dfa × Ctx
fill_states subs withsubstates [] x = x
fill_states subs withsubstates (s ∷ db) x =
    fill_states subs withsubstates db (filldfastate subs withsubstates s x)

-- `rex_db_todfa`, with the context that its assertions are about
unfoldable pub todfa_ctx : List Substate → Db → Bool → Dfa × Ctx
todfa_ctx subs db withsubstates =
    let nsubstates = if withsubstates then numsubstates db else 0 in
    fill_states subs withsubstates db (
      create (length db) (numtransitions db) (numaccsubstates subs db) nsubstates,
      record { nstates = 0; ntrans = 0; nsubstates = 0; naccsubstates = 0 },
    )

unfoldable pub todfa : List Substate → Db → Bool → Dfa
todfa subs db withsubstates = (todfa_ctx subs db withsubstates).0
