-- ===== src/Rex/DfaConv/Reach.antt =====
-- The closure under empty transitions, as a relation.
use rpatk.Base.{ℕ, List}
use rpatk.Rex.Subset.{In}
use rpatk.Rex.State.{Db, state_at, targets}

-- an empty transition of the state `u` leads to `v`
abbrev pub Epsilon : Db → ℕ → ℕ → Type 0
Epsilon db u v = In v (targets (state_at db u).etrans)

-- reached from a state of `src` by empty transitions
pub data Reach (db : Db) (src : List ℕ) : ℕ → Type 0 where
  here : {v : ℕ} → In v src → Reach db src v
  step : {u v : ℕ} → Reach db src u → Epsilon db u v → Reach db src v
