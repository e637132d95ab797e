-- ===== src/Rex/DfaConv.antt =====
-- rex/rexdfaconv.c: the steps of the subset construction. The arrays that the code keeps in
-- `rexdfaconv_t` between the calls are locals here, as each call clears them first; only the marks
-- of `rex_dfaconv_eclosure` are left as they are, and are an argument and a result.
pub mod Reach
pub mod Scan
pub mod Closure
pub mod Ranges
pub mod Move
use rpatk.Base.{
  ℕ, zero, suc, ◌+◌, ◌-◌, ◌%◌, ◌^◌, ◌&&◌, Bool, true, false, Option, none, some, List, [], ◌∷◌,
  ◌++◌, length, leb, ◌==◌, if◌then◌else◌,
}
use rpatk.Rex.Transition.{Transition, char_max, transitions_add}
use rpatk.Rex.Subset.{addnew, pop_last}
use rpatk.Rex.State.{Db, State, state_at}

-- `co->marked` grows when it is read or written past its end, with zeros: a function that is false
-- wherever nothing was written.
abbrev pub Marks : Type 0
Marks = ℕ → Bool

unfoldable pub set_mark : Marks → ℕ → Bool → Marks
set_mark f u b v = if v == u then b else f v

pub record Work : Type 0 where
  pub set_t : List ℕ
  pub dest : List ℕ
  pub marked : Marks

unfoldable pub visit : Work → ℕ → Work
visit w u = record {
  set_t = addnew w.set_t u;
  dest = addnew w.dest u;
  marked = set_mark w.marked u true;
}

-- the first loop, over the source
unfoldable pub enqueue : List ℕ → Work → Work
enqueue [] w = w
enqueue (u ∷ us) w = enqueue us (visit w u)

unfoldable pub offer : Work → ℕ → Work
offer w u = if w.marked u then w else visit w u

-- the loop over the empty transitions of a state
unfoldable pub scan : List Transition → Work → Work
scan [] w = w
scan (t ∷ ts) w = scan ts (offer w t.dstuid)

-- the `while` loop; `none` means that the fuel ran out
unfoldable pub closure_loop : ℕ → Db → Work → Option Work
closure_loop zero db w = elim (pop_last w.set_t) [ none ↦ some w | some _ ↦ none ]
closure_loop (suc fuel) db w = elim (pop_last w.set_t) [
  | none ↦ some w
  | some (rest, u) ↦ closure_loop fuel db (scan (state_at db u).etrans (record w { set_t = rest }))
]

-- the last loop
unfoldable pub unmark : List ℕ → Marks → Marks
unmark [] f = f
unmark (u ∷ us) f = unmark us (set_mark f u false)

finish : Option Work → Option (List ℕ × Marks)
finish none = none
finish (some w) = some (w.dest, unmark w.dest w.marked)

-- Each round of the `while` loop takes one state off the stack, and a state is put there at most
-- once as a source and at most once when it is marked.
unfoldable pub eclosure : Db → List ℕ → Marks → Option (List ℕ × Marks)
unfolding finish
eclosure db src marks = finish (
    closure_loop (length db + length src) db
      (enqueue src (record { set_t = []; dest = []; marked = marks })))

-- `rex_dfaconv_move`: the inner loop, and the loop over the subset
unfoldable pub move_state : List Transition → ℕ → ℕ → List ℕ → List ℕ
move_state [] c₁ c₂ set = set
move_state (t ∷ ts) c₁ c₂ set =
    move_state ts c₁ c₂ (if leb t.lowin c₁ && leb c₂ t.highin then addnew set t.dstuid else set)

unfoldable pub move_loop : Db → List ℕ → ℕ → ℕ → List ℕ → List ℕ
move_loop db [] c₁ c₂ set = set
move_loop db (u ∷ us) c₁ c₂ set = move_loop db us c₁ c₂ (move_state (state_at db u).trans c₁ c₂ set)

unfoldable pub move : Db → List ℕ → ℕ → ℕ → List ℕ
move db substates c₁ c₂ = move_loop db substates c₁ c₂ []

-- `rex_dfaconv_getsubsettransitions`: of a transition only its range is copied
unfoldable pub copy_ranges : List Transition → List (ℕ × ℕ) → List (ℕ × ℕ)
copy_ranges [] out = out
copy_ranges (t ∷ ts) out = copy_ranges ts (out ++ (t.lowin, t.highin) ∷ [])

unfoldable pub subset_transitions : Db → List ℕ → List (ℕ × ℕ) → List (ℕ × ℕ)
subset_transitions db [] out = out
subset_transitions db (u ∷ us) out =
    subset_transitions db us (copy_ranges (state_at db u).trans out)

-- `rex_dfaconv_uniqueranges`: where the ranges start; `highin + 1` is a `rexchar_t`, and wraps
unfoldable pub range_starts : List (ℕ × ℕ) → List ℕ → List ℕ
range_starts [] starts = starts
range_starts ((low, high) ∷ src) starts =
    range_starts src (addnew (addnew starts low) ((high + 1) % 2 ^ 32))

unfoldable pub build_ranges : List ℕ → List Transition → List Transition
build_ranges [] dest = dest
build_ranges (x ∷ []) dest = transitions_add dest x char_max 0 0
build_ranges (x ∷ y ∷ rest) dest = build_ranges (y ∷ rest) (transitions_add dest x (y - 1) 0 0)

unfoldable pub uniqueranges : List (ℕ × ℕ) → List Transition
unfolding range_starts build_ranges
uniqueranges src = build_ranges (range_starts src (0 ∷ [])) []
