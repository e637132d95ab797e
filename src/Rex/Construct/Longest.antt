-- ===== src/Rex/Construct/Longest.antt =====
-- The DFA simulator on the DFA that the construction makes finds the longest match of the NFA.
use rpatk.Base.{
  ℕ, zero, suc, ◌<◌, ◌≤◌, ◌≡◌, ◌⊎◌, ◌↔◌, inl, inr, refl, true, false, Bool-cases, Option, none,
  some, List, [], ◌∷◌, length, take, arith, ◌==◌,
}
use mathlib.Core.Path.{subst}
use rpatk.RArray.{Memory}
use rpatk.Rex.Transition.{Transition, transitions_find}
use rpatk.Rex.Subset.{In}
use rpatk.Rex.State.{Db, StateType, none_state, start, accept, dead, state_at, IsClosed}
use rpatk.Rex.DfaConv.Move.{IsProper}
use rpatk.Rex.NfaSim.{is_accept}
use rpatk.Rex.NfaSim.AddState.{From}
use rpatk.Rex.NfaSim.Run.{Walk, chars, decode}
use rpatk.Rex.DfaSim.{DfaSim, run_dfa, is_dead}
use rpatk.Rex.DfaSim.Longest.{AreChars, IsLongest, goal, after, accepting, size}
use rpatk.Rex.DfaSim.Loop.{run_dfa-IsLongest}
use rpatk.Rex.Construct.{Conv, createdfa}
use rpatk.Rex.Construct.Shapes.{IsNumbered, SomeAccept}
use rpatk.Rex.Construct.Whole.{IsConversion, createdfa-IsConversion}
use rpatk.Rex.Construct.Walks.{Holds, next_set, after-Holds}

-- some walk over the characters ends in an accepting state
abbrev pub Matches : Db → ℕ → List ℕ → Type 0
Matches nfa from w =
    (v : ℕ) × Walk nfa (From nfa from) w v × (is_accept (state_at nfa v).kind ≡ true)

-- `r` is the size of the longest prefix of at least one character that matches, or 0 if none does.
abbrev pub IsLongestMatch : Db → ℕ → List (ℕ × ℕ) → ℕ → Type 0
IsLongestMatch nfa from w r =
    ((r ≡ 0) × ((n : ℕ) → 1 ≤ n → n ≤ length w → ¬ Matches nfa from (chars (take n w))))
    ⊎ ((n : ℕ) × (1 ≤ n)
        × (n ≤ length w)
        × Matches nfa from (chars (take n w))
        × (r ≡ size (take n w))
        × ((m : ℕ) → n < m → m ≤ length w → ¬ Matches nfa from (chars (take m w))))

-- The start state accepts nothing: no empty transitions lead from it to an accepting state.
abbrev pub IsPlainStart : Db → ℕ → Type 0
IsPlainStart nfa from = (v : ℕ) → From nfa from v → is_accept (state_at nfa v).kind ≡ false

dead-is_accept : (k : StateType) → is_dead k ≡ true → is_accept k ≡ false
dead-is_accept none_state h = cc
dead-is_accept start h = cc
dead-is_accept accept h = cc
dead-is_accept dead h = refl

take-AreChars : (n : ℕ) (w : List (ℕ × ℕ)) → AreChars (chars w) → AreChars (chars (take n w))
take-AreChars zero w h = tt
take-AreChars (suc n) [] h = tt
take-AreChars (suc n) ((c, inc) ∷ w) (le, h) = (le, take-AreChars n w h)

module _ (nfa : Db) (from : ℕ) (dfa : Db) (ok : IsConversion nfa from dfa) where
  -- where a run comes to is a state
  after_inside :
      (w : List ℕ) (u v : ℕ) → u < length dfa → AreChars w → after dfa u w ≡ some v → v < length dfa
  unfolding after
  after_inside [] u v lt chars_ e = let same : u ≡ v = ground (arith, e) in omega arith
  after_inside (c ∷ w) u v lt (le, chars_) e = elim (Bool-cases (u == 0)) [
    | inl first ↦ let nowhere : none ≡ some v = rw (first, after) at e in cc
    | inr later ↦
        after_inside w (goal (transitions_find (state_at dfa u).trans c)) v
          (next_set nfa from dfa ok u c lt le).0 chars_ (rw (later, after) at e)
  ]

  state-SomeAccept :
      (u : ℕ)
      → u < length dfa
      → IsPlainStart nfa from
      → (is_accept (state_at dfa u).kind ≡ true) ↔ SomeAccept nfa (state_at dfa u).subset
  state-SomeAccept zero lt plain = (
    λ h. absurd (cc (dead-is_accept (state_at dfa 0).kind ok.shape_ok.dead_zero)),
    λ (v, k, _). absurd (subst (In v) ok.dead_set k),
  )
  state-SomeAccept (suc zero) lt plain =
      (λ h. absurd (cc ok.start_plain), λ (v, k, a). absurd (cc (plain v ((ok.start_set v).0 k))))
  state-SomeAccept (suc (suc u)) lt plain = ok.accepts (suc (suc u)) (omega arith) lt

  outcome-Matches :
      (w : List ℕ) (o : Option ℕ)
      → ((u : ℕ) → o ≡ some u → u < length dfa)
      → ((v : ℕ) → Holds dfa o v ↔ Walk nfa (From nfa from) w v)
      → IsPlainStart nfa from
      → (accepting dfa o ≡ true) ↔ Matches nfa from w
  outcome-Matches w none inside holds plain = (λ h. cc, λ (v, k, a). absurd ((holds v).1 k))
  outcome-Matches w (some u) inside holds plain =
      let accepts = state-SomeAccept u (inside u refl) plain in
      (
        λ h. let (v, k, a) = accepts.0 h in (v, (holds v).0 k, a),
        λ (v, k, a). accepts.1 (v, (holds v).1 k, a),
      )

  -- The DFA accepts the texts that the NFA matches.
  accepting-Matches :
      (w : List ℕ)
      → AreChars w
      → IsPlainStart nfa from
      → (accepting dfa (after dfa 1 w) ≡ true) ↔ Matches nfa from w
  accepting-Matches w chars_ plain =
      outcome-Matches w (after dfa 1 w) (λ u e. after_inside w 1 u ok.start_inside chars_ e)
        (λ v. after-Holds nfa from dfa ok w 1 (From nfa from) v ok.start_inside chars_ ok.start_set)
        plain

  IsLongest-IsLongestMatch :
      (w : List (ℕ × ℕ)) (r : ℕ)
      → AreChars (chars w)
      → IsPlainStart nfa from
      → IsLongest dfa 1 w 0 0 r
      → IsLongestMatch nfa from w r
  IsLongest-IsLongestMatch w r chars_ plain longest =
      let same = λ (n : ℕ). accepting-Matches (chars (take n w)) (take-AreChars n w chars_) plain in
      elim longest [
        | inl (e, no_) ↦ inl (e, λ n one le k. no_ n one le ((same n).1 k))
        | inr (n, one, le, yes_, e, no_) ↦
            inr
              (n, one, le, (same n).0 yes_, omega arith, λ m lt le' k. no_ m lt le' ((same m).1 k))
      ]

module _ ⦃m : Memory Transition⦄ (spare : List Transition → List Transition) (nfa : Db)
    (closed : IsClosed nfa) (proper : IsProper nfa) (num : IsNumbered nfa) where
  -- For a database whose transitions lead to states of it, by proper ranges, with each state at its
  -- number, a state of it from which no empty transitions lead to an accepting one, and a text of
  -- characters: the conversion ends within its fuel, the DFA simulator runs on the DFA to the end, and
  -- what it returns is the size of the longest prefix of at least one character that the NFA matches, or
  -- 0 if it matches none.
  pub createdfa-IsLongestMatch :
      (from : ℕ) (bytes : List ℕ)
      → from < length nfa
      → IsPlainStart nfa from
      → AreChars (chars (decode (suc (length bytes)) bytes))
      → (w : Conv) × (t : DfaSim) × (r : ℕ) × (createdfa spare nfa from ≡ some w)
        × (run_dfa w.dfa 1 bytes ≡ some (t, r))
        × IsLongestMatch nfa from (decode (suc (length bytes)) bytes) r
  createdfa-IsLongestMatch from bytes lt plain chars_ =
      let (w, made, ok) = createdfa-IsConversion spare nfa closed proper num from lt in
      let (t, r, runs, longest) =
        run_dfa-IsLongest w.dfa 1 bytes ok.shape_ok ok.start_inside chars_ in
      (
        w,
        t,
        r,
        made,
        runs,
        IsLongest-IsLongestMatch nfa from w.dfa ok (decode (suc (length bytes)) bytes) r chars_
            plain longest,
      )
