-- ===== src/Rex/State.antt =====
-- The states of an automaton and the database that holds them: rex/rexstate.h, rex/rexdb.c. A state
-- is found by its number, which is its place in the array.
use rpatk.Base.{ℕ, ◌<◌, Option, List, [], ◌∷◌, ◌++◌, map, length, get_or, get_elem?}
use rpatk.Rex.Transition.{Transition, transitions_add, transitions_add_e}
use rpatk.Rex.Subset.{addnew, In}

pub data StateType : Type 0 where
  none_state start accept dead : StateType

pub record State : Type 0 where
  pub etrans : List Transition
  pub trans : List Transition
  pub subset : List ℕ
  pub kind : StateType
  pub uid : ℕ
  pub userdata : ℕ

-- `rex_state_create`; the user data is whatever the allocator left, 0 here
unfoldable pub state_create : ℕ → StateType → State
state_create uid kind = record {
  etrans = [];
  trans = [];
  subset = [];
  kind = kind;
  uid = uid;
  userdata = 0;
}

unfoldable pub addtransition : State → ℕ → ℕ → ℕ → State
addtransition s c₁ c₂ dst = record s { trans = transitions_add s.trans c₁ c₂ s.uid dst }

unfoldable pub addtransition_e : State → ℕ → State
addtransition_e s dst = record s { etrans = transitions_add_e s.etrans s.uid dst }

-- The array of a state's subset holds numbers, so of the `rexsubstate_t` only its first field, the
-- number, is stored and compared.
unfoldable pub addsubstate : State → ℕ → State
addsubstate s uid = record s { subset = addnew s.subset uid }

unfoldable pub setuserdata : State → ℕ → State
setuserdata s u = record s { userdata = u }

abbrev pub Db : Type 0
Db = List State

unfoldable pub createstate : Db → StateType → Db × ℕ
unfolding state_create
createstate db kind = (db ++ state_create (length db) kind ∷ [], length db)

unfoldable pub getstate : Db → ℕ → Option State
getstate db uid = get_elem? db uid

-- A state that is not there is a null pointer, which the code does not test for: here it has no
-- transitions. The databases of the theorems lead to no such state. Where a theorem takes a list of
-- states without a bound, it says of the code only what holds for states of the database.
abbrev pub missing : State
missing = record { etrans = []; trans = []; subset = []; kind = dead; uid = 0; userdata = 0 }

abbrev pub state_at : Db → ℕ → State
state_at db uid = get_or db uid missing

-- where the transitions of a list lead
abbrev pub targets : List Transition → List ℕ
targets ts = map (λ (t : Transition). t.dstuid) ts

-- Every transition leads to a state of the database.
pub record IsClosed (db : Db) : Type 0 where
  pub epsilon : (u v : ℕ) → In v (targets (state_at db u).etrans) → v < length db
  pub moves : (u v : ℕ) → In v (targets (state_at db u).trans) → v < length db
