-- ===== src/Rex/Normalize/Tests.antt =====
-- The normalisation on sorted ranges, and on ranges that are not sorted.
use rpatk.Base.{ℕ, zero, suc, ◌≤◌, ◌<◌, ◌≡◌, ◌↔◌, refl, true, some, [], ◌∷◌, arith}
use rpatk.RArray.{
  Memory, RArray, contents, exist_replace, delete, move, move_up, replace, removelast, setlength,
  check_resize, grow,
}
use rpatk.RArray.Contents.{IsValid}
use rpatk.Rex.Search.{bound_loop}
use rpatk.Rex.Transition.{Transition, input, blank, trans_at, low_at, transitions_add}
use rpatk.Rex.Transition.Moves.{Moves, IsNormal}
use rpatk.Rex.Normalize.{verdict, absorb, swallow, inner, mark_input, outer, normalize}
use rpatk.Rex.Normalize.Ends.{normalize_ends}
use rpatk.Rex.Normalize.Sorted.{AreSorted}
use rpatk.Rex.Normalize.Whole.{normalize-Moves}

instance abbrev transitions : Memory Transition
transitions = record { blank = blank; allocates = λ _. true }

abbrev range : ℕ → ℕ → Transition
range low high = record { kind = input; lowin = low; highin = high; srcuid = 0; dstuid = 1 }

-- `a`-`f` and `d`-`z` overlap
abbrev overlapping : RArray Transition
overlapping = record { data_ = range b'a' b'f' ∷ range b'd' b'z' ∷ []; len = 2 }

overlapping-IsValid : IsValid overlapping
overlapping-IsValid = record { fits = omega arith }

proper :
    (k : ℕ)
    → k < 2
    → (trans_at (contents overlapping) k).lowin ≤ (trans_at (contents overlapping) k).highin
proper zero lt = omega arith
proper (suc zero) lt = omega arith
proper (suc (suc k)) lt = absurd (omega arith)

strict :
    (i j : ℕ) → i < j → j < 2 → low_at (contents overlapping) i < low_at (contents overlapping) j
strict zero (suc zero) lt h = omega arith
strict i zero lt h = absurd (omega arith)
strict (suc i) (suc zero) lt h = absurd (omega arith)
strict i (suc (suc j)) lt h = absurd (omega arith)

overlapping-AreSorted : AreSorted (contents overlapping)
overlapping-AreSorted = record { proper = proper; strict = strict }

normalize-Moves_example :
    (b : RArray Transition) × (normalize overlapping ≡ some b)
    × AreSorted (contents b)
    × ((c d : ℕ) → Moves (contents b) c d ↔ Moves (contents overlapping) c d)
    × (IsNormal (contents overlapping) → IsNormal (contents b))
normalize-Moves_example = normalize-Moves overlapping overlapping-IsValid overlapping-AreSorted

normalize_ends_example :
    (b : RArray Transition) × (normalize overlapping ≡ some b)
    × IsValid b
    × (b.len ≤ overlapping.len)
normalize_ends_example = normalize_ends overlapping overlapping-IsValid

-- `b`, then the reversed range `c`-`a`: the place of the second is found by `c`
unsorted_class :
    transitions_add (transitions_add [] b'b' b'b' 0 1) b'c' b'a' 0 1
    ≡ range b'b' b'b' ∷ range b'a' b'c' ∷ []
unfolding transitions_add bound_loop
unsorted_class = refl

abbrev unsorted : RArray Transition
unsorted = record { data_ = range b'b' b'b' ∷ range b'a' b'c' ∷ []; len = 2 }

-- The second range takes the first one in and moves to its place; the slot that is then read again
-- still holds it, takes in what it equals, and no range is left.
unsorted_vanishes :
    normalize unsorted ≡ some (record { data_ = range b'a' b'c' ∷ range b'a' b'c' ∷ []; len = 0 })
unfolding normalize outer inner verdict mark_input absorb swallow exist_replace delete move move_up
    replace removelast setlength check_resize grow
unsorted_vanishes = refl
