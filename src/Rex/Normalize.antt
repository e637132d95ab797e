-- ===== src/Rex/Normalize.antt =====
-- rex/rextransition.c: rex_transitions_normalize, on the array itself. The loop deletes while it runs
-- and starts over without a look at the length, so it may read a slot behind the last transition,
-- which holds what stood there before.
pub mod Ends
pub mod Merge
pub mod Apart
pub mod Sorted
pub mod Keeps
pub mod Whole
mod Tests
use rpatk.Base.{
  ℕ, zero, suc, ◌+◌, ◌*◌, ◌&&◌, Bool, true, false, not, Option, none, some, ltb, leb, ◌==◌,
  if◌then◌else◌,
}
use rpatk.RArray.{Memory, RArray, slot, exist_replace, delete}
use rpatk.Rex.Transition.{Transition, input, char_max}

-- what the inner loop does with a transition
pub data Verdict : Type 0 where
  keep overlap adjacent : Verdict

unfoldable pub verdict : Transition → Transition → Verdict
verdict it jt =
    if it.dstuid == jt.dstuid
    then (if leb it.lowin jt.lowin && leb jt.lowin it.highin
        then overlap
        else if not (it.highin == char_max) && jt.lowin == (it.highin + 1)
        then adjacent
        else keep)
    else keep

module _ ⦃m : Memory Transition⦄ where
  -- `itrans->highin = jtrans->highin`, and the deletion of `jtrans`
  unfoldable pub absorb : RArray Transition → ℕ → ℕ → RArray Transition
  absorb a i j =
      delete (exist_replace a i (some (record (slot a i) { highin = (slot a j).highin }))) j

  -- an overlap widens the range, but does not narrow it
  unfoldable pub swallow : RArray Transition → ℕ → ℕ → RArray Transition
  swallow a i j = if ltb (slot a i).highin (slot a j).highin then absorb a i j else delete a j

  -- the inner loop from `j` on, by the rounds left; `some` starts over
  unfoldable pub inner : ℕ → RArray Transition → ℕ → ℕ → Option (RArray Transition)
  inner zero a i j = none
  inner (suc n) a i j =
      let rest = inner n a i (suc j) in
      if i == j then rest else elim (verdict (slot a i) (slot a j)) [
        | keep ↦ rest
        | overlap ↦ some (swallow a i j)
        | adjacent ↦ some (absorb a i j)
      ]

  -- the type of a range of one character
  unfoldable pub mark_input : RArray Transition → ℕ → RArray Transition
  mark_input a i =
      if (slot a i).lowin == (slot a i).highin
      then exist_replace a i (some (record (slot a i) { kind = input }))
      else a

  -- from `startover` on; `none` means that the fuel ran out
  unfoldable pub outer : ℕ → RArray Transition → ℕ → Option (RArray Transition)
  outer zero a i = none
  outer (suc fuel) a i =
      let b = mark_input a i in
      elim (inner b.len b i 0) [
        | some c ↦ outer fuel c i
        | none ↦ elim (ltb (suc i) b.len) [ true ↦ outer fuel b (suc i) | false ↦ some b ]
      ]

  -- `rex_transitions_normalize`
  unfoldable pub normalize : RArray Transition → Option (RArray Transition)
  normalize a = if a.len == 0 then some a else outer (suc (2 * a.len)) a 0
