-- ===== src/Rex/DfaSim/Longest.antt =====
-- What the DFA simulator is to find: the longest prefix of a text that the DFA accepts.
use rpatk.Base.{
  ℕ, zero, suc, ◌+◌, ◌<◌, ◌≤◌, ◌≡◌, ◌≢◌, ◌⊎◌, refl, Bool, true, false, Option, none, some, List, [],
  ◌∷◌, ◌++◌, length, arith, if◌then◌else◌, ◌==◌, ne→==, take,
}
use rpatk.Rex.Transition.{Transition, transitions_find, char_max}
use rpatk.Rex.State.{Db, getstate, state_at}
use rpatk.Rex.NfaSim.{Accept, is_accept}
use rpatk.Rex.NfaSim.Run.{chars}
use rpatk.Rex.DfaSim.{pointer_to, is_dead, last_size}

-- What the subset construction makes: each state stands at its number, state 0 and no other is dead,
-- and every other state leads by each character to a state.
pub record IsDfa (db : Db) : Type 0 where
  pub numbered : (u : ℕ) → u < length db → (state_at db u).uid ≡ u
  pub dead_zero : is_dead (state_at db 0).kind ≡ true
  pub alive : (u : ℕ) → u < length db → u ≢ 0 → is_dead (state_at db u).kind ≡ false
  pub total :
      (u c : ℕ)
      → u < length db
      → u ≢ 0
      → c ≤ char_max
      → (t : Transition) × (transitions_find (state_at db u).trans c ≡ some t)
        × (t.dstuid < length db)

-- where the transition that is found leads
abbrev pub goal : Option Transition → ℕ
goal none = 0
goal (some t) = t.dstuid

-- the state after the characters; there is none after the dead one
unfoldable pub after : Db → ℕ → List ℕ → Option ℕ
after db u [] = some u
after db u (c ∷ w) =
    let rest = after db (goal (transitions_find (state_at db u).trans c)) w in
    if u == 0 then none else rest

abbrev pub accepting : Db → Option ℕ → Bool
accepting db none = false
accepting db (some v) = is_accept (state_at db v).kind

-- the first `n` characters lead from the state `u` to an accepting state
abbrev pub Accepts : Db → ℕ → List (ℕ × ℕ) → ℕ → Type 0
Accepts db u w n = accepting db (after db u (chars (take n w))) ≡ true

abbrev pub size : List (ℕ × ℕ) → ℕ
size [] = 0
size ((wc, inc) ∷ w) = inc + size w

-- `r` is where the longest accepted prefix of at least one character ends, counted from `from`, or
-- `otherwise` if no such prefix is accepted.
abbrev pub IsLongest : Db → ℕ → List (ℕ × ℕ) → ℕ → ℕ → ℕ → Type 0
IsLongest db u w from otherwise r =
    ((r ≡ otherwise) × ((n : ℕ) → 1 ≤ n → n ≤ length w → ¬ Accepts db u w n))
    ⊎ ((n : ℕ) × (1 ≤ n)
        × (n ≤ length w)
        × Accepts db u w n
        × (r ≡ from + size (take n w))
        × ((m : ℕ) → n < m → m ≤ length w → ¬ Accepts db u w m))

-- the characters are ones that a range can hold
abbrev pub AreChars : List ℕ → Type 0
AreChars [] = Unit
AreChars (c ∷ w) = (c ≤ char_max) × AreChars w

pub last_size-append :
    (otherwise : ℕ) (accepts : List Accept) (a : Accept)
    → last_size otherwise (accepts ++ a ∷ []) ≡ a.inputsize
unfolding last_size
last_size-append otherwise [] a = refl
last_size-append otherwise (b ∷ accepts) a = last_size-append b.inputsize accepts a

pub pointer_to_lem : (db : Db) (u : ℕ) → u < length db → pointer_to db u ≡ some u
unfolding pointer_to getstate
pointer_to_lem [] u lt = elim lt [ ]
pointer_to_lem (s ∷ db) zero lt = refl
pointer_to_lem (s ∷ db) (suc u) lt = ground (arith, pointer_to_lem db u)

-- one more character in front
pub after-suc :
    (db : Db) (u c : ℕ) (w : List ℕ) (t : Transition)
    → u ≢ 0
    → transitions_find (state_at db u).trans c ≡ some t
    → after db u (c ∷ w) ≡ after db t.dstuid w
unfolding after
after-suc db u c w t alive found = rw (ne→== u 0 alive, after, found) refl

after_dead : (db : Db) (c : ℕ) (w : List ℕ) → after db 0 (c ∷ w) ≡ none
unfolding after
after_dead db c w = refl
