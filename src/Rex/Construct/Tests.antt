-- ===== src/Rex/Construct/Tests.antt =====
-- The subset construction on the small example.
use rpatk.Base.{
  ℕ, inl, inr, zero, suc, ◌<◌, ◌≡◌, ◌↔◌, refl, true, false, some, List, [], length, arith,
}
use rpatk.RArray.{Memory}
use rpatk.Utf.{utf8_mbtowc}
use rpatk.Rex.Transition.{Transition, blank}
use rpatk.Rex.Subset.{In}
use rpatk.Rex.State.{state_at}
use rpatk.Rex.DfaConv.Reach.{Epsilon, here, step}
use rpatk.Rex.NfaSim.{NfaSim, run, is_accept}
use rpatk.Rex.NfaSim.AddState.{From}
use rpatk.Rex.NfaSim.Run.{chars, decode}
use rpatk.Rex.DfaSim.{DfaSim, run_dfa}
use rpatk.Rex.DfaSim.Longest.{AreChars, after}
use rpatk.Rex.Sample.{sample, text, sample-IsClosed, sample-IsProper, sample-IsNumbered}
use rpatk.Rex.Construct.{Conv, createdfa}
use rpatk.Rex.Construct.Whole.{IsConversion, createdfa-IsConversion}
use rpatk.Rex.Construct.Walks.{Holds, createdfa-run}
use rpatk.Rex.Construct.Longest.{IsPlainStart, IsLongestMatch, createdfa-IsLongestMatch}

instance abbrev transitions : Memory Transition
transitions = record { blank = blank; allocates = λ _. true }

-- nothing behind the transitions
abbrev bare : List Transition → List Transition
bare ts = []

text-AreChars : AreChars (chars (decode (suc (length text)) text))
unfolding decode utf8_mbtowc
text-AreChars = (omega arith, (omega arith, tt))

Epsilon-below : (u v : ℕ) → Epsilon sample u v → v < 2
Epsilon-below zero v h = ground arith
Epsilon-below (suc zero) v h = absurd h
Epsilon-below (suc (suc zero)) v h = absurd h
Epsilon-below (suc (suc (suc u))) v h = absurd h

below_two : (v : ℕ) → From sample 0 v → v < 2
below_two v (here (inl e)) = omega arith
below_two v (here (inr none_left)) = absurd none_left
below_two v (step {u} r e) = Epsilon-below u v e

plain : (v : ℕ) → v < 2 → is_accept (state_at sample v).kind ≡ false
plain zero lt = refl
plain (suc zero) lt = refl
plain (suc (suc v)) lt = absurd (omega arith)

sample-IsPlainStart : IsPlainStart sample 0
sample-IsPlainStart v h = plain v (below_two v h)

createdfa-IsConversion_example :
    (w : Conv) × (createdfa bare sample 0 ≡ some w) × IsConversion sample 0 w.dfa
createdfa-IsConversion_example =
    createdfa-IsConversion bare sample sample-IsClosed sample-IsProper sample-IsNumbered 0
      (omega arith)

createdfa-run_example :
    (w : Conv) × (t : NfaSim) × (createdfa bare sample 0 ≡ some w)
    × (run sample 0 text ≡ some t)
    × ((v : ℕ)
        → Holds w.dfa (after w.dfa 1 (chars (decode (suc (length text)) text))) v
          ↔ In v t.oldstates)
createdfa-run_example =
    createdfa-run bare sample sample-IsClosed sample-IsProper sample-IsNumbered 0 text (omega arith)
      text-AreChars

createdfa-IsLongestMatch_example :
    (w : Conv) × (t : DfaSim) × (r : ℕ) × (createdfa bare sample 0 ≡ some w)
    × (run_dfa w.dfa 1 text ≡ some (t, r))
    × IsLongestMatch sample 0 (decode (suc (length text)) text) r
createdfa-IsLongestMatch_example =
    createdfa-IsLongestMatch bare sample sample-IsClosed sample-IsProper sample-IsNumbered 0 text
      (omega arith) sample-IsPlainStart text-AreChars
