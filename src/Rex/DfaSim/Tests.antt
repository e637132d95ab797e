-- ===== src/Rex/DfaSim/Tests.antt =====
-- The DFA simulator on the automaton of one character: state 1 leads by every character to state 2,
-- which accepts and leads to the dead state 0.
use rpatk.Base.{ℕ, zero, suc, ◌<◌, ◌≤◌, ◌≡◌, ◌≢◌, refl, false, some, List, [], ◌∷◌, length, arith}
use rpatk.Utf.{utf8_mbtowc}
use rpatk.Rex.Search.{bound_loop}
use rpatk.Rex.Transition.{Transition, char_max, input, transitions_find}
use rpatk.Rex.State.{Db, start, accept, dead, state_at}
use rpatk.Rex.NfaSim.Run.{decode, chars}
use rpatk.Rex.DfaSim.{DfaSim, run_dfa, is_dead}
use rpatk.Rex.DfaSim.Longest.{IsDfa, AreChars, IsLongest}
use rpatk.Rex.DfaSim.Loop.{run_dfa-IsLongest}

abbrev everything : ℕ → ℕ → Transition
everything src dst = record {
  kind = input;
  lowin = 0;
  highin = char_max;
  srcuid = src;
  dstuid = dst;
}

abbrev one_character : Db
one_character =
    record { etrans = []; trans = []; subset = []; kind = dead; uid = 0; userdata = 0 }
    ∷ record {
      etrans = [];
      trans = everything 1 2 ∷ [];
      subset = [];
      kind = start;
      uid = 1;
      userdata = 0;
    }
    ∷ record {
      etrans = [];
      trans = everything 2 0 ∷ [];
      subset = [];
      kind = accept;
      uid = 2;
      userdata = 0;
    }
    ∷ []

find_everything :
    (src dst c : ℕ)
    → c ≤ char_max
    → transitions_find (everything src dst ∷ []) c ≡ some (everything src dst)
unfolding transitions_find bound_loop
find_everything src dst c small = ground arith

numbered : (u : ℕ) → u < length one_character → (state_at one_character u).uid ≡ u
numbered zero lt = refl
numbered (suc zero) lt = refl
numbered (suc (suc zero)) lt = refl
numbered (suc (suc (suc u))) lt = absurd (omega arith)

alive : (u : ℕ) → u < length one_character → u ≢ 0 → is_dead (state_at one_character u).kind ≡ false
alive zero lt ne = absurd (ne refl)
alive (suc zero) lt ne = refl
alive (suc (suc zero)) lt ne = refl
alive (suc (suc (suc u))) lt ne = absurd (omega arith)

total :
    (u c : ℕ)
    → u < length one_character
    → u ≢ 0
    → c ≤ char_max
    → (t : Transition) × (transitions_find (state_at one_character u).trans c ≡ some t)
      × (t.dstuid < length one_character)
total zero c lt ne small = absurd (ne refl)
total (suc zero) c lt ne small = (everything 1 2, find_everything 1 2 c small, omega arith)
total (suc (suc zero)) c lt ne small = (everything 2 0, find_everything 2 0 c small, omega arith)
total (suc (suc (suc u))) c lt ne small = absurd (omega arith)

one_character-IsDfa : IsDfa one_character
one_character-IsDfa = record { numbered = numbered; dead_zero = refl; alive = alive; total = total }

abbrev word : List ℕ
word = b'a' ∷ b'b' ∷ []

word-AreChars : AreChars (chars (decode (suc (length word)) word))
unfolding decode utf8_mbtowc
word-AreChars = (omega arith, (omega arith, tt))

run_dfa-IsLongest_example :
    (t : DfaSim) × (r : ℕ) × (run_dfa one_character 1 word ≡ some (t, r))
    × IsLongest one_character 1 (decode (suc (length word)) word) 0 0 r
run_dfa-IsLongest_example =
    run_dfa-IsLongest one_character 1 word one_character-IsDfa (omega arith) word-AreChars
