-- ===== src/Rex/Sample.antt =====
-- A small automaton for the tests: state 0 leads by `a`-`c` to itself and by an empty transition to
-- state 1, which leads by `b` to state 2; state 2 accepts.
use rpatk.Base.{ℕ, zero, suc, ◌<◌, ◌≤◌, ◌≡◌, refl, List, [], ◌∷◌, length, arith}
use rpatk.Rex.Transition.{Transition, char_max, input, empty}
use rpatk.Rex.Subset.{In}
use rpatk.Rex.State.{Db, none_state, start, accept, state_at, targets, IsClosed}
use rpatk.Rex.Construct.Shapes.{IsNumbered}
use rpatk.Rex.DfaConv.Move.{IsRangeOf, IsProper}

abbrev pub range : ℕ → ℕ → ℕ → ℕ → Transition
range low high src dst = record {
  kind = input;
  lowin = low;
  highin = high;
  srcuid = src;
  dstuid = dst;
}

abbrev pub sample : Db
sample =
    record {
      etrans = record { kind = empty; lowin = 0; highin = 0; srcuid = 0; dstuid = 1 } ∷ [];
      trans = range b'a' b'c' 0 0 ∷ [];
      subset = [];
      kind = start;
      uid = 0;
      userdata = 0;
    }
    ∷ record {
      etrans = [];
      trans = range b'b' b'b' 1 2 ∷ [];
      subset = [];
      kind = none_state;
      uid = 1;
      userdata = 0;
    }
    ∷ record { etrans = []; trans = []; subset = []; kind = accept; uid = 2; userdata = 7 }
    ∷ []

sample-epsilon : (u v : ℕ) → In v (targets (state_at sample u).etrans) → v < length sample
sample-epsilon zero v h = ground arith
sample-epsilon (suc zero) v h = absurd h
sample-epsilon (suc (suc zero)) v h = absurd h
sample-epsilon (suc (suc (suc u))) v h = absurd h

sample-moves : (u v : ℕ) → In v (targets (state_at sample u).trans) → v < length sample
sample-moves zero v h = ground arith
sample-moves (suc zero) v h = ground arith
sample-moves (suc (suc zero)) v h = absurd h
sample-moves (suc (suc (suc u))) v h = absurd h

pub sample-IsClosed : IsClosed sample
sample-IsClosed = record { epsilon = sample-epsilon; moves = sample-moves }

abbrev pub text : List ℕ
text = b'a' ∷ b'b' ∷ []

sample-proper :
    (u low high : ℕ)
    → IsRangeOf low high (state_at sample u).trans
    → (low ≤ high) × (high ≤ char_max)
sample-proper zero low high h = ground arith
sample-proper (suc zero) low high h = ground arith
sample-proper (suc (suc zero)) low high h = absurd h
sample-proper (suc (suc (suc u))) low high h = absurd h

pub sample-IsProper : IsProper sample
sample-IsProper = record { proper = sample-proper }

numbered : (u : ℕ) → u < length sample → (state_at sample u).uid ≡ u
numbered zero lt = refl
numbered (suc zero) lt = refl
numbered (suc (suc zero)) lt = refl
numbered (suc (suc (suc u))) lt = absurd (omega arith)

pub sample-IsNumbered : IsNumbered sample
sample-IsNumbered = record { numbered = numbered }
