-- ===== src/Rex/Fragment.antt =====
-- rex/rexfragment.c: the automata of which the compiler puts an NFA together. A fragment has a start
-- state and transitions that lead nowhere yet: `dangling` holds pointers to them, and a pointer to a
-- transition is its place, the number of its state, whether it is an empty one, and its index.
pub mod Places
pub mod Named
pub mod Traces
pub mod Built
pub mod Fork
pub mod Frame
pub mod Words
pub mod Walks
pub mod Cat
pub mod Branch
pub mod Either
pub mod Loop
pub mod Repeat
use rpatk.Base.{
  ℕ, zero, suc, ◌+◌, ◌-◌, ◌^◌, ◌&&◌, Bool, true, false, List, [], ◌∷◌, ◌++◌, length, get_or, set,
  ◌==◌, if◌then◌else◌,
}
use rpatk.Rex.Transition.{Transition, trans_at}
use rpatk.Rex.State.{Db, State, none_state, state_at, createstate, addtransition_e}

-- (size_t)-1
abbrev pub nowhere : ℕ
nowhere = 2 ^ 64 - 1

pub record Place : Type 0 where
  pub uid : ℕ
  pub is_empty : Bool
  pub index : ℕ

pub record Fragment : Type 0 where
  pub sstate : ℕ
  pub dangling : List Place

unfoldable pub aim : ℕ → Transition → Transition
aim uid t = record t { dstuid = uid }

unfoldable pub aim_at : List Transition → ℕ → ℕ → List Transition
aim_at ts i uid = set ts i (aim uid (trans_at ts i))

unfoldable pub aim_state : Place → ℕ → State → State
aim_state p uid s =
    if p.is_empty
    then record s { etrans = aim_at s.etrans p.index uid }
    else record s { trans = aim_at s.trans p.index uid }

-- `t->dstuid = uid` through the pointer
unfoldable pub aim_place : Db → Place → ℕ → Db
aim_place db p uid = set db p.uid (aim_state p uid (state_at db p.uid))

-- `rex_fragment_patch`
unfoldable pub patch : Db → List Place → ℕ → Db
patch db [] uid = db
patch db (p ∷ ps) uid = patch (aim_place db p uid) ps uid

-- `rex_fragment_append`, for two different arrays
unfoldable pub append : List Place → List Place → List Place
append dest [] = dest
append dest (p ∷ ps) = append (dest ++ p ∷ []) ps

-- one of the loops of `rex_fragment_state_add_dangling`
unfoldable pub add_loop : List Place → ℕ → Bool → List Transition → ℕ → List Place
add_loop out uid e [] i = out
add_loop out uid e (t ∷ ts) i =
    add_loop
      (if t.dstuid == nowhere
        then out ++ record { uid = uid; is_empty = e; index = i } ∷ []
        else out)
      uid e ts (suc i)

unfoldable pub add_dangling : Db → List Place → ℕ → List Place
add_dangling db out uid =
    let s = state_at db uid in add_loop (add_loop out uid false s.trans 0) uid true s.etrans 0

-- `rex_fragment_create`
unfoldable pub fragment : Db → ℕ → Fragment
fragment db uid = record { sstate = uid; dangling = add_dangling db [] uid }

-- `rex_fragment_cat`
unfoldable pub cat : Db → Fragment → Fragment → Db × Fragment
cat db frag₁ frag₂ = (patch db frag₁.dangling frag₂.sstate, record frag₂ { sstate = frag₁.sstate })

-- a new state with two empty transitions
unfoldable pub fork : Db → ℕ → ℕ → Db × ℕ
fork db first second =
    let (db', uid) = createstate db none_state in
    (set db' uid (addtransition_e (addtransition_e (state_at db' uid) first) second), uid)

-- `rex_fragment_opt`
unfoldable pub opt : Db → Fragment → Db × Fragment
opt db frag =
    let (db', uid) = fork db nowhere frag.sstate in
    (db', record { sstate = uid; dangling = add_dangling db' frag.dangling uid })

-- `rex_fragment_mop`
unfoldable pub mop : Db → Fragment → Db × Fragment
mop db frag =
    let (db', uid) = fork db nowhere frag.sstate in
    let frag₂ = fragment db' uid in (patch db' frag.dangling frag₂.sstate, frag₂)

-- `rex_fragment_mul`
unfoldable pub mul : Db → Fragment → Db × Fragment
mul db frag = let (db', uid) = fork db frag.sstate nowhere in cat db' frag (fragment db' uid)

-- `rex_fragment_alt`
unfoldable pub alt : Db → Fragment → Fragment → Db × Fragment
alt db frag₁ frag₂ =
    let (db', uid) = fork db frag₁.sstate frag₂.sstate in
    (db', record { sstate = uid; dangling = append frag₁.dangling frag₂.dangling })
