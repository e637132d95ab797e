-- ===== src/Rex/Dfa/Tests.antt =====
-- The flat DFA on the small example, and the transitions that are read.
use rpatk.Base.{ℕ, ◌<◌, ◌≤◌, ◌≡◌, true, none, some, List, [], length, arith}
use rpatk.RArray.{Memory}
use rpatk.Rex.Transition.{Transition, blank, char_max, transitions_find}
use rpatk.Rex.State.{state_at}
use rpatk.Rex.DfaSim.Longest.{goal}
use rpatk.Rex.Sample.{sample, sample-IsClosed, sample-IsProper, sample-IsNumbered}
use rpatk.Rex.Construct.{Conv, Substate, createdfa, initsubstates}
use rpatk.Rex.Dfa.{dfa_state, dfa_next, todfa}
use rpatk.Rex.Dfa.Flat.{Reads, todfa-Reads}
use rpatk.Rex.Dfa.Next.{dfa_next-createdfa}

instance abbrev transitions : Memory Transition
transitions = record { blank = blank; allocates = λ _. true }

abbrev bare : List Transition → List Transition
bare ts = []

abbrev subs : List Substate
subs = initsubstates sample

todfa-Reads_example :
    ((k : ℕ) → k < length sample → Reads subs true (state_at sample k) (todfa subs sample true) k)
    × ((k : ℕ) → length sample ≤ k → dfa_state (todfa subs sample true) k ≡ none)
todfa-Reads_example = todfa-Reads subs sample true

dfa_next-createdfa_example :
    (w : Conv) × (createdfa bare sample 0 ≡ some w)
    × ((k c : ℕ)
        → k < length w.dfa
        → c ≤ char_max
        → dfa_next (todfa w.substates w.dfa true) k c
          ≡ some (goal (transitions_find (state_at w.dfa k).trans c)))
dfa_next-createdfa_example =
    dfa_next-createdfa bare sample sample-IsClosed sample-IsProper sample-IsNumbered 0 true
      (omega arith)
