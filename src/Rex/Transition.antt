-- ===== src/Rex/Transition.antt =====
-- rex/rextransition.c: the transitions of a state, an array in the order of `lowin`. The arrays are
-- their contents here, with the operations of `RArray` as RArray/Contents describes them.
pub mod Moves
pub mod Find
pub mod Add
pub mod Negative
use rpatk.Base.{
  ℕ, zero, suc, ◌+◌, ◌-◌, ◌*◌, ◌%◌, ◌≤◌, ◌<◌, ◌^◌, ◌≡◌, ◌&&◌, Bool, Option, none, some, List, [],
  ◌∷◌, ◌++◌, ltb, leb, ◌==◌, if◌then◌else◌, length, get_or,
}
use rpatk.Base.Slices.{insert_at}
use rpatk.Rex.Search.{bound_loop}

pub data TransitionType : Type 0 where
  input empty : TransitionType

pub record Transition : Type 0 where
  pub kind : TransitionType
  pub lowin : ℕ
  pub highin : ℕ
  pub srcuid : ℕ
  pub dstuid : ℕ

-- REX_CHAR_MAX of an unsigned int
abbrev pub char_max : ℕ
char_max = 2 ^ 32 - 1

-- zeroed memory
abbrev pub blank : Transition
blank = record { kind = input; lowin = 0; highin = 0; srcuid = 0; dstuid = 0 }

abbrev pub trans_at : List Transition → ℕ → Transition
trans_at ts i = get_or ts i blank

abbrev pub low_at : List Transition → ℕ → ℕ
low_at ts i = (trans_at ts i).lowin

unfoldable pub transitions_add_e : List Transition → ℕ → ℕ → List Transition
transitions_add_e ts src dst =
    ts ++ record { kind = empty; lowin = 0; highin = 0; srcuid = src; dstuid = dst } ∷ []

unfoldable pub transitions_find : List Transition → ℕ → Option Transition
transitions_find ts c =
    let n = length ts in
    let min = bound_loop n (low_at ts) c 0 n in
    let t = trans_at ts (if ltb 0 min then min - 1 else min) in
    if n == 0 then none else if leb t.lowin c && leb c t.highin then some t else none

abbrev pub ordered : ℕ → ℕ → ℕ → ℕ → Transition
ordered c₁ c₂ src dst =
    if ltb c₁ c₂
    then record { kind = input; lowin = c₁; highin = c₂; srcuid = src; dstuid = dst }
    else record { kind = input; lowin = c₂; highin = c₁; srcuid = src; dstuid = dst }

-- the search is by `c₁`, which is not `lowin` where `c₂ < c₁`
unfoldable pub transitions_add : List Transition → ℕ → ℕ → ℕ → ℕ → List Transition
transitions_add ts c₁ c₂ src dst =
    let n = length ts in insert_at (bound_loop n (low_at ts) c₁ 0 n) (ordered c₁ c₂ src dst) ts

-- `x + 1` and `x - 1` of an unsigned int
abbrev pub plus_one : ℕ → ℕ
plus_one x = (x + 1) % 2 ^ 32

abbrev pub minus_one : ℕ → ℕ
minus_one x = (x + (2 ^ 32 - 1)) % 2 ^ 32

-- the rounds of the loop from the second on: the gap before `t`, and the rest after the last
negative_loop : List Transition → ℕ → ℕ → Transition → List Transition → List Transition
negative_loop dst src uid p [] =
    if p.highin == char_max then dst else transitions_add dst (plus_one p.highin) char_max src uid
negative_loop dst src uid p (t ∷ ts) =
    negative_loop (transitions_add dst (plus_one p.highin) (minus_one t.lowin) src uid) src uid t ts

unfoldable pub transitions_negative : List Transition → List Transition → ℕ → ℕ → List Transition
unfolding negative_loop
transitions_negative dst [] src uid = transitions_add dst 0 char_max src uid
transitions_negative dst (t ∷ ts) src uid =
    negative_loop (if t.lowin == 0 then dst else transitions_add dst 0 (minus_one t.lowin) src uid)
      src uid t ts
