-- ===== src/Rex/DfaSim.antt =====
-- rex/rexdfasimulator.c: a DFA over a text. A pointer to a state is its number, and none is the null
-- pointer. The code follows the transition that it finds without a test: where there is none, or no
-- state that it leads to, the result here is `none`.
pub mod Longest
pub mod Loop
mod Tests
use rpatk.Base.{
  ℕ, zero, suc, ◌+◌, Bool, true, false, Option, none, some, List, [], ◌∷◌, ◌++◌, length, ◌==◌,
  if◌then◌else◌, drop,
}
use rpatk.Rex.Transition.{Transition, transitions_find}
use rpatk.Rex.State.{Db, State, StateType, none_state, start, accept, dead, getstate, state_at}
use rpatk.Rex.NfaSim.{Accept, is_accept}
use rpatk.Utf.{utf8_mbtowc}

pub record DfaSim : Type 0 where
  pub count : ℕ
  pub inputsize : ℕ
  pub next : Option ℕ
  pub accepts : List Accept

-- the number of a state of the database
unfoldable pub pointer_to : Db → ℕ → Option ℕ
pointer_to db uid = elim (getstate db uid) [ none ↦ none | some s ↦ some uid ]

unfoldable pub start_dfa : Db → ℕ → DfaSim
start_dfa db uid = record { count = 0; inputsize = 0; next = pointer_to db uid; accepts = [] }

abbrev pub is_dead : StateType → Bool
is_dead dead = true
is_dead none_state = false
is_dead start = false
is_dead accept = false

-- the transition to the state `v`
unfoldable pub enter : Db → DfaSim → ℕ → DfaSim
enter db si v = record si {
  next = some v;
  accepts =
      if is_accept (state_at db v).kind
      then si.accepts ++ record { state = v; inputsize = si.inputsize; count = si.count } ∷ []
      else si.accepts;
}

-- what follows the transition that was found
follow : Db → DfaSim → Option Transition → Option (DfaSim × ℕ)
follow db si none = none
follow db si (some t) = elim (pointer_to db t.dstuid) [
  | none ↦ none
  | some v ↦ some (enter db si v, (state_at db v).uid)
]

step_from : Db → DfaSim → ℕ → Option ℕ → Option (DfaSim × ℕ)
unfolding follow
step_from db si wc none = some (si, 0)
step_from db si wc (some u) =
    let found = follow db si (transitions_find (state_at db u).trans wc) in
    if is_dead (state_at db u).kind then some (si, 0) else found

-- `rex_dfasimulator_next`, with what it returns
unfoldable pub next_dfa : Db → DfaSim → ℕ → ℕ → Option (DfaSim × ℕ)
unfolding step_from
next_dfa db si wc wcsize =
    step_from db (record si { count = si.count + 1; inputsize = si.inputsize + wcsize }) wc si.next

-- the loop of `rex_dfasimulator_run`, over the bytes not yet read
unfoldable pub dfa_loop : ℕ → Db → DfaSim → List ℕ → Option DfaSim
dfa_loop zero db si bytes = none
dfa_loop (suc fuel) db si bytes =
    let wc = (utf8_mbtowc bytes).0 in
    let inc = (utf8_mbtowc bytes).1 in
    elim (inc == 0) [
      | true ↦ some si
      | false ↦ elim (next_dfa db si wc inc) [
        | none ↦ none
        | some (si', uid) ↦ elim (uid == 0) [
          | true ↦ some si'
          | false ↦ dfa_loop fuel db si' (drop inc bytes)
        ]
      ]
    ]

-- the bytes up to the last acceptance, or `otherwise`
unfoldable pub last_size : ℕ → List Accept → ℕ
last_size otherwise [] = otherwise
last_size otherwise (a ∷ accepts) = last_size a.inputsize accepts

-- `rex_dfasimulator_run`, with what it returns
unfoldable pub run_dfa : Db → ℕ → List ℕ → Option (DfaSim × ℕ)
run_dfa db uid bytes = elim (dfa_loop (suc (length bytes)) db (start_dfa db uid) bytes) [
  | none ↦ none
  | some si ↦ some (si, last_size 0 si.accepts)
]
