-- ===== src/Rex/Tests.antt =====
-- The automata on the small example.
use rpatk.Base.{
  ℕ, zero, suc, ◌+◌, ◌*◌, ◌%◌, ◌^◌, ◌<◌, ◌≤◌, ◌≡◌, ◌⊎◌, ◌↔◌, refl, true, false, ◌++◌, some, List,
  [], ◌∷◌, length, arith,
}
use rpatk.Rex.SubsetKey.{subset_key, subset_key_lem}
use rpatk.Rex.Sample.{range, sample, text, sample-IsClosed, sample-IsProper}
use rpatk.Rex.Search.{IsAscending, bound_loop, place_loop}
use rpatk.Rex.Transition.{
  Transition, char_max, trans_at, low_at, transitions_find, transitions_add, transitions_negative,
}
use rpatk.Rex.Transition.Moves.{Covers, Moves, IsNormal}
use rpatk.Rex.Transition.Find.{find-Moves}
use rpatk.Rex.Transition.Negative.{Covered, Moves-transitions_negative}
use rpatk.Rex.Subset.{In, IsSubset, addnew, uid_at}
use rpatk.Rex.Subset.Insert.{Adds, addnew-Adds}
use rpatk.Rex.DfaConv.{
  Marks, eclosure, move, uniqueranges, range_starts, build_ranges, subset_transitions, copy_ranges,
}
use rpatk.Rex.DfaConv.Reach.{Reach}
use rpatk.Rex.DfaConv.Closure.{eclosure-Reach}
use rpatk.Rex.DfaConv.Ranges.{InSource, uniqueranges_lem}
use rpatk.Rex.DfaConv.Move.{SomeMoves, ranges, move-SomeMoves}
use rpatk.Rex.NfaSim.{NfaSim, next, run}
use rpatk.Rex.NfaSim.AddState.{From}
use rpatk.Rex.NfaSim.Next.{IsReady, Steps, next-Steps}
use rpatk.Rex.NfaSim.Run.{Walk, chars, decode, run-Walk}

run-Walk_example :
    (t : NfaSim) × (run sample 0 text ≡ some t)
    × ((v : ℕ)
        → In v t.oldstates
          ↔ Walk sample (From sample 0) (chars (decode (suc (length text)) text)) v)
run-Walk_example = run-Walk sample 0 text sample-IsClosed (omega arith)

-- the simulator in the states 0 and 1
abbrev two_states : NfaSim
two_states = record {
  count = 0;
  inputsize = 0;
  newstates = [];
  oldstates = 1 ∷ 0 ∷ [];
  accepts = [];
  onmap = λ _. false;
}

two_states-IsReady : IsReady two_states
two_states-IsReady = record { clean = λ v. refl; emptied = refl }

next-Steps_example :
    (t : NfaSim) × (next sample two_states b'b' 1 ≡ some t) × Steps sample two_states t b'b' 1
next-Steps_example = next-Steps sample two_states b'b' 1 sample-IsClosed two_states-IsReady

abbrev no_marks : Marks
no_marks u = false

eclosure-Reach_example :
    (dest : List ℕ) × (marks' : Marks) × (eclosure sample (0 ∷ []) no_marks ≡ some (dest, marks'))
    × IsSubset dest
    × ((v : ℕ) → In v dest ↔ Reach sample (0 ∷ []) v)
    × ((v : ℕ) → marks' v ≡ false)
eclosure-Reach_example = eclosure-Reach sample (0 ∷ []) no_marks (λ v. refl) sample-IsClosed

-- two overlapping ranges
abbrev two_ranges : List (ℕ × ℕ)
two_ranges = (b'a', b'f') ∷ (b'd', char_max) ∷ []

two_ranges-AreRanges :
    (low high : ℕ) → InSource low high two_ranges → (low ≤ high) × (high ≤ char_max)
two_ranges-AreRanges low high h = ground arith

uniqueranges_lem_example :
    IsNormal (uniqueranges two_ranges)
    × ((c : ℕ)
        → c ≤ char_max
        → (i : ℕ) × (i < length (uniqueranges two_ranges))
          × Covers (trans_at (uniqueranges two_ranges) i) c)
    × ((i c low high : ℕ)
        → i < length (uniqueranges two_ranges)
        → Covers (trans_at (uniqueranges two_ranges) i) c
        → InSource low high two_ranges
        → ((low ≤ c) × (c ≤ high)) ↔ (
            (low ≤ (trans_at (uniqueranges two_ranges) i).lowin)
            × ((trans_at (uniqueranges two_ranges) i).highin ≤ high)))
uniqueranges_lem_example = uniqueranges_lem two_ranges two_ranges-AreRanges

-- two numbers below 2, in order, are 0 and 1
one_pair : (P : ℕ → ℕ → Type 0) → P 0 1 → (i j : ℕ) → i < j → j < 2 → P i j
one_pair P p zero (suc zero) lt h = p
one_pair P p i zero lt h = absurd (omega arith)
one_pair P p (suc i) (suc zero) lt h = absurd (omega arith)
one_pair P p i (suc (suc j)) lt h = absurd (omega arith)

-- two ranges apart from one another
abbrev letters : List Transition
letters = range b'a' b'f' 0 3 ∷ range b'h' b'z' 0 4 ∷ []

abbrev other : ℕ
other = 5

letters-proper :
    (i : ℕ) → i < length letters → (trans_at letters i).lowin ≤ (trans_at letters i).highin
letters-proper zero h = omega arith
letters-proper (suc zero) h = omega arith
letters-proper (suc (suc i)) h = absurd (omega arith)

letters-IsNormal : IsNormal letters
letters-IsNormal = record {
  proper = letters-proper;
  apart = one_pair (λ i j. (trans_at letters i).highin < (trans_at letters j).lowin) (omega arith);
}

find-Moves_example :
    Moves letters b'j' 4
    ↔ ((t : Transition) × (transitions_find letters b'j' ≡ some t) × (4 ≡ t.dstuid))
find-Moves_example = find-Moves letters letters-IsNormal b'j' 4

letters-IsAscending : IsAscending (low_at letters) (length letters)
letters-IsAscending = one_pair (λ i j. low_at letters i ≤ low_at letters j) (omega arith)

Moves-transitions_negative_example :
    Moves (transitions_negative [] letters 0 other) b'g' other
    ↔ (Moves [] b'g' other ⊎ (¬ Covered letters b'g' × (other ≡ other)))
Moves-transitions_negative_example =
    Moves-transitions_negative 0 other b'g' other (omega arith) [] letters
      (omega arith, omega arith, omega arith, (omega arith, omega arith, omega arith, tt))

abbrev odd_ones : List ℕ
odd_ones = 3 ∷ 7 ∷ []

odd_ones-IsSubset : IsSubset odd_ones
odd_ones-IsSubset = one_pair (λ i j. uid_at odd_ones i < uid_at odd_ones j) (omega arith)

addnew-Adds_example : Adds odd_ones (addnew odd_ones 5) 5
addnew-Adds_example = addnew-Adds odd_ones 5 odd_ones-IsSubset

-- both states of the closure of state 0
abbrev both : List ℕ
both = 0 ∷ 1 ∷ []

length-ranges : length (ranges sample both) ≡ 5
unfolding uniqueranges range_starts build_ranges subset_transitions copy_ranges addnew place_loop
    transitions_add bound_loop
length-ranges = refl

both-Covers : Covers (trans_at (ranges sample both) 2) b'b'
unfolding uniqueranges range_starts build_ranges subset_transitions copy_ranges addnew place_loop
    transitions_add bound_loop
both-Covers = (omega arith, omega arith)

move-SomeMoves_example :
    let t = trans_at (ranges sample both) 2 in
    IsSubset (move sample both t.lowin t.highin)
    × (In 2 (move sample both t.lowin t.highin) ↔ SomeMoves sample both b'b' 2)
move-SomeMoves_example =
    move-SomeMoves sample both 2 b'b' 2 sample-IsProper (omega (arith, length-ranges)) both-Covers

subset_key_lem_example :
    ((subset_key.equal (1 ∷ 4 ∷ []) (1 ∷ 5 ∷ []) ≡ true)
      ↔ (◌≡◌ {A = List ℕ} (1 ∷ 4 ∷ []) (1 ∷ 5 ∷ [])))
    × (subset_key.hash [] ≡ 0)
    × (subset_key.hash ((1 ∷ 4 ∷ []) ++ 7 ∷ [])
        ≡ (subset_key.hash (1 ∷ 4 ∷ []) * 65599 + 7) % 2 ^ 64)
subset_key_lem_example = subset_key_lem (1 ∷ 4 ∷ []) (1 ∷ 5 ∷ []) 7
