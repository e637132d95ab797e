-- ===== src/Rex/NfaSim.antt =====
-- rex/rexnfasimulator.c: all states of an NFA at once. `newstates` and `oldstates` are only used as
-- stacks: the head of a list is the last element of the array. `onmap` has an entry for each state,
-- all of them false between the calls.
pub mod Grow
pub mod AddState
pub mod Next
pub mod Run
use rpatk.Base.{
  ℕ, zero, suc, ◌+◌, ◌-◌, ◌&&◌, Bool, true, false, Option, none, some, List, [], ◌∷◌, ◌++◌, length,
  leb, ◌==◌, if◌then◌else◌, drop,
}
use rpatk.Rex.Transition.{Transition}
use rpatk.Rex.State.{Db, State, StateType, none_state, start, accept, dead, state_at}
use rpatk.Rex.DfaConv.{Marks, set_mark}
use rpatk.Utf.{utf8_mbtowc}

-- `rex_accept_t`; the pointer to the state is its number
pub record Accept : Type 0 where
  pub state : ℕ
  pub inputsize : ℕ
  pub count : ℕ

pub record NfaSim : Type 0 where
  pub count : ℕ
  pub inputsize : ℕ
  pub newstates : List ℕ
  pub oldstates : List ℕ
  pub accepts : List Accept
  pub onmap : Marks

unfoldable pub push_new : NfaSim → ℕ → NfaSim
push_new si uid = record si { newstates = uid ∷ si.newstates; onmap = set_mark si.onmap uid true }

-- the loop over the empty transitions; `rec` is the recursive call
unfoldable pub etrans_loop : (NfaSim → ℕ → Option NfaSim) → List Transition → NfaSim → Option NfaSim
etrans_loop rec [] si = some si
etrans_loop rec (t ∷ ts) si = elim (if si.onmap t.dstuid then some si else rec si t.dstuid) [
  | none ↦ none
  | some si' ↦ etrans_loop rec ts si'
]

-- The recursion goes as deep as there are states; `none` means that the fuel ran out.
unfoldable pub addstate : ℕ → Db → NfaSim → ℕ → Option NfaSim
addstate zero db si uid = none
addstate (suc fuel) db si uid =
    etrans_loop (addstate fuel db) (state_at db uid).etrans (push_new si uid)

-- a call from outside, with an entry of fuel for each state
abbrev pub add_top : Db → NfaSim → ℕ → Option NfaSim
add_top db si uid = addstate (suc (length db)) db si uid

-- the loop at the end of `start`: off the new stack, onto the old one
unfoldable pub drain : List ℕ → NfaSim → NfaSim
drain [] si = record si { newstates = [] }
drain (uid ∷ us) si =
    drain us (record si { oldstates = uid ∷ si.oldstates; onmap = set_mark si.onmap uid false })

unfoldable pub start_sim : Db → ℕ → Option NfaSim
start_sim db uid =
    elim (add_top db
      (record {
        count = 0;
        inputsize = 0;
        newstates = [];
        oldstates = [];
        accepts = [];
        onmap = λ _. false;
      })
      uid) [ none ↦ none | some si ↦ some (drain si.newstates si) ]

-- the inner loop of `next`: where the character leads from one state
unfoldable pub step_state : Db → ℕ → List Transition → NfaSim → Option NfaSim
step_state db wc [] si = some si
step_state db wc (t ∷ ts) si =
    elim (if leb t.lowin wc && leb wc t.highin
      then (if si.onmap t.dstuid then some si else add_top db si t.dstuid)
      else some si) [ none ↦ none | some si' ↦ step_state db wc ts si' ]

-- the first `while` loop of `next`
unfoldable pub step_loop : Db → ℕ → List ℕ → NfaSim → Option NfaSim
step_loop db wc [] si = some (record si { oldstates = [] })
step_loop db wc (uid ∷ us) si = elim (step_state db wc (state_at db uid).trans si) [
  | none ↦ none
  | some si' ↦ step_loop db wc us si'
]

abbrev pub is_accept : StateType → Bool
is_accept accept = true
is_accept none_state = false
is_accept start = false
is_accept dead = false

-- the second `while` loop: it also records the accepting states
unfoldable pub drain_accept : Db → List ℕ → NfaSim → NfaSim
drain_accept db [] si = record si { newstates = [] }
drain_accept db (uid ∷ us) si = drain_accept db us (record si {
  oldstates = uid ∷ si.oldstates;
  onmap = set_mark si.onmap uid false;
  accepts =
      if is_accept (state_at db uid).kind
      then si.accepts ++ record { state = uid; inputsize = si.inputsize; count = si.count } ∷ []
      else si.accepts;
})

-- `rex_nfasimulator_next`: what it returns is the length of `oldstates`
unfoldable pub next : Db → NfaSim → ℕ → ℕ → Option NfaSim
next db si wc wcsize = elim si.oldstates [
  | [] ↦ some si
  | _ ∷ _ ↦
      elim (step_loop db wc si.oldstates
        (record si { count = si.count + 1; inputsize = si.inputsize + wcsize })) [
          | none ↦ none
          | some si' ↦ some (drain_accept db si'.newstates si')
        ]
]

-- the loop of `rex_nfasimulator_run`, over the bytes not yet read; a round reads one at least
unfoldable pub run_loop : ℕ → Db → NfaSim → List ℕ → Option NfaSim
run_loop zero db si bytes = none
run_loop (suc fuel) db si bytes =
    let wc = (utf8_mbtowc bytes).0 in
    let inc = (utf8_mbtowc bytes).1 in
    elim (inc == 0) [
      | true ↦ some si
      | false ↦ elim (next db si wc inc) [
        | none ↦ none
        | some si' ↦ elim si'.oldstates [
          | [] ↦ some si'
          | _ ∷ _ ↦ run_loop fuel db si' (drop inc bytes)
        ]
      ]
    ]

-- `rex_nfasimulator_run`; what it returns is the number of `accepts`
unfoldable pub run : Db → ℕ → List ℕ → Option NfaSim
run db uid bytes = elim (start_sim db uid) [
  | none ↦ none
  | some si ↦ run_loop (suc (length bytes)) db si bytes
]
