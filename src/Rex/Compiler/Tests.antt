-- ===== src/Rex/Compiler/Tests.antt =====
-- The fragments of `a` and `b`, and what the operators make of them.
use rpatk.Base.{
  ℕ, zero, suc, ap, sym, ◌∙◌, ◌++◌, ◌≡◌, ◌⊎◌, ◌↔◌, refl, true, false, List, some, [], ◌∷◌, length,
  arith,
}
use rpatk.Rex.Transition.{transitions_add}
use rpatk.Rex.State.{Db, createstate, state_create, addtransition}
use rpatk.Rex.Fragment.{Fragment, cat, opt, mop, mul, alt}
use rpatk.Rex.Fragment.Words.{Concat, Star}
use rpatk.Rex.Fragment.Traces.{Reads}
use rpatk.Rex.Fragment.Built.{IsFragment}
use rpatk.Rex.Fragment.Frame.{Keeps, IsFragment-Keeps}
use rpatk.Rex.Fragment.Cat.{cat-Concat}
use rpatk.Rex.Fragment.Branch.{opt_lem}
use rpatk.Rex.Fragment.Either.{alt_lem}
use rpatk.Rex.Fragment.Repeat.{mop-Star, mul-Star}
use rpatk.Rex.Compiler.{factor_char, expression_end}
use rpatk.Rex.Compiler.Single.{factor_char_lem}
use rpatk.RArray.{Memory}
use rpatk.Utf.{utf8_mbtowc}
use rpatk.Rex.Transition.{Transition, blank}
use rpatk.Rex.Sample.{text}
use rpatk.Rex.DfaSim.{DfaSim, run_dfa}
use rpatk.Rex.DfaSim.Longest.{AreChars}
use rpatk.Rex.Construct.{Conv, createdfa}
use rpatk.Rex.Compiler.Longest.{IsLongestIn, createdfa-expression_end}
use mathlib.Core.Path.{subst}
use rpatk.Rex.Fragment.Places.{length-patch}
use rpatk.Rex.Compiler.Plain.{ArePlain, operations-ArePlain}
use rpatk.Rex.Compiler.Runs.{run-expression_end}
use rpatk.Rex.Subset.{In}
use rpatk.Rex.NfaSim.{NfaSim, run}
use rpatk.Rex.NfaSim.Run.{chars, decode}

abbrev db_a : Db
db_a = (factor_char [] 97).0

abbrev frag_a : Fragment
frag_a = (factor_char [] 97).1

abbrev db_b : Db
db_b = (factor_char db_a 98).0

abbrev frag_b : Fragment
frag_b = (factor_char db_a 98).1

length-db_a : length db_a ≡ 1
unfolding factor_char createstate
length-db_a = refl

length-db_b : length db_b ≡ 2
unfolding factor_char createstate
length-db_b = refl

a-IsFragment : IsFragment db_a frag_a 0 1
a-IsFragment = (factor_char_lem [] (omega arith) 97).0

b-IsFragment : IsFragment db_b frag_b 1 2
unfolding factor_char createstate
b-IsFragment = (factor_char_lem db_a (omega (arith, length-db_a)) 98).0

a-Keeps : Keeps db_a db_b 0 1
unfolding factor_char createstate addtransition state_create transitions_add
a-Keeps zero true w = refl
a-Keeps zero false w = refl
a-Keeps (suc u) e w = absurd (omega arith)

a_kept : IsFragment db_b frag_a 0 1 × ((w : List ℕ) → Reads db_b frag_a w ↔ Reads db_a frag_a w)
a_kept =
    IsFragment-Keeps db_a db_b frag_a 0 1 a-IsFragment a-Keeps
      (omega (arith, length-db_a, length-db_b)) (omega (arith, length-db_b))

cat-Concat_example :
    IsFragment (cat db_b frag_a frag_b).0 (cat db_b frag_a frag_b).1 0 2
    × ((w : List ℕ)
        → Reads (cat db_b frag_a frag_b).0 (cat db_b frag_a frag_b).1 w
          ↔ Concat (Reads db_b frag_a) (Reads db_b frag_b) w)
cat-Concat_example = cat-Concat db_b frag_a frag_b 0 1 2 a_kept.0 b-IsFragment

alt_lem_example :
    IsFragment (alt db_b frag_a frag_b).0 (alt db_b frag_a frag_b).1 0 (suc (length db_b))
    × ((w : List ℕ)
        → Reads (alt db_b frag_a frag_b).0 (alt db_b frag_a frag_b).1 w
          ↔ (Reads db_b frag_a w ⊎ Reads db_b frag_b w))
unfolding factor_char createstate
alt_lem_example = alt_lem db_b frag_a frag_b 0 1 a_kept.0 b-IsFragment (omega (arith, length-db_b))

opt_lem_example :
    IsFragment (opt db_a frag_a).0 (opt db_a frag_a).1 0 (suc (length db_a))
    × ((w : List ℕ)
        → Reads (opt db_a frag_a).0 (opt db_a frag_a).1 w ↔ ((w ≡ []) ⊎ Reads db_a frag_a w))
unfolding factor_char createstate
opt_lem_example = opt_lem db_a frag_a 0 a-IsFragment (omega (arith, length-db_a))

mop-Star_example :
    IsFragment (mop db_a frag_a).0 (mop db_a frag_a).1 0 (suc (length db_a))
    × ((w : List ℕ) → Reads (mop db_a frag_a).0 (mop db_a frag_a).1 w ↔ Star (Reads db_a frag_a) w)
unfolding factor_char createstate
mop-Star_example = mop-Star db_a frag_a 0 a-IsFragment (omega (arith, length-db_a))

mul-Star_example :
    IsFragment (mul db_a frag_a).0 (mul db_a frag_a).1 0 (suc (length db_a))
    × ((w : List ℕ)
        → Reads (mul db_a frag_a).0 (mul db_a frag_a).1 w
          ↔ Concat (Reads db_a frag_a) (Star (Reads db_a frag_a)) w)
unfolding factor_char createstate
mul-Star_example = mul-Star db_a frag_a 0 a-IsFragment (omega (arith, length-db_a))

a-whole : IsFragment db_a frag_a 0 (length db_a)
unfolding factor_char createstate
a-whole = a-IsFragment

run-expression_end_example :
    (t : NfaSim) × (run (expression_end db_a frag_a 7).0 (expression_end db_a frag_a 7).1 (97 ∷ [])
      ≡ some t)
    × (In (length db_a) t.oldstates
        ↔ Reads db_a frag_a (chars (decode (suc (length {A = ℕ} (97 ∷ []))) (97 ∷ []))))
run-expression_end_example =
    run-expression_end db_a frag_a a-whole (omega (arith, length-db_a)) 7 (97 ∷ [])

instance abbrev transitions : Memory Transition
transitions = record { blank = blank; allocates = λ _. true }

abbrev bare : List Transition → List Transition
bare ts = []

text-AreChars : AreChars (chars (decode (suc (length text)) text))
unfolding decode utf8_mbtowc
text-AreChars = (omega arith, (omega arith, tt))

-- the fragment of `ab`
abbrev db_ab : Db
db_ab = (cat db_b frag_a frag_b).0

abbrev frag_ab : Fragment
frag_ab = (cat db_b frag_a frag_b).1

length-db_ab : length db_ab ≡ 2
unfolding cat
length-db_ab = length-patch db_b frag_a.dangling frag_b.sstate ∙ length-db_b

ab-IsFragment : IsFragment db_ab frag_ab 0 (length db_ab)
ab-IsFragment =
    subst (IsFragment db_ab frag_ab 0) (sym length-db_ab)
      (cat-Concat db_b frag_a frag_b 0 1 2 a_kept.0 b-IsFragment).0

nothing-ArePlain : ArePlain []
nothing-ArePlain u lt = elim lt [ ]

ab-ArePlain : ArePlain db_ab
ab-ArePlain =
    let one = operations-ArePlain [] frag_a frag_a 97 (omega arith) nothing-ArePlain in
    let two = operations-ArePlain db_a frag_a frag_a 98 (omega arith) one.5 in
    (operations-ArePlain db_b frag_a frag_b 0 (omega arith) two.5).0

ab_not_empty : ¬ Reads db_ab frag_ab []
ab_not_empty r =
    let (x, y, q, first, second) =
      ((cat-Concat db_b frag_a frag_b 0 1 2 a_kept.0 b-IsFragment).1 []).0 r in
    let one : x ≡ 97 ∷ [] = ((factor_char_lem [] (omega arith) 97).1 x).0 ((a_kept.1 x).0 first) in
    let same : 0 ≡ suc (length y) = ap length (q ∙ ap (λ z. z ++ y) one) in omega (arith, same)

createdfa-expression_end_example :
    (w : Conv) × (t : DfaSim) × (r : ℕ) × (createdfa bare
        (expression_end db_ab frag_ab 7).0
        frag_ab.sstate
      ≡ some w)
    × (run_dfa w.dfa 1 text ≡ some (t, r))
    × IsLongestIn (Reads db_ab frag_ab) (decode (suc (length text)) text) r
createdfa-expression_end_example =
    createdfa-expression_end bare db_ab frag_ab ab-IsFragment (omega (arith, length-db_ab))
      ab-ArePlain 7 text ab_not_empty text-AreChars
