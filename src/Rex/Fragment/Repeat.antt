-- ===== src/Rex/Fragment/Repeat.antt =====
-- The words that `rex_fragment_mop` and `rex_fragment_mul` make of those of a fragment.
use rpatk.Base.{ℕ, zero, suc, ◌+◌, ◌<◌, ◌↔◌, sym, inl, inr, List, length, arith}
use mathlib.Core.Path.{subst}
use rpatk.Rex.State.{Db, createstate}
use rpatk.Rex.Fragment.{Fragment, nowhere, mop, mul, cat, fragment, fork}
use rpatk.Rex.Fragment.Words.{Concat, Star, Times}
use rpatk.Rex.Fragment.Traces.{Trace, Reads, Trace-++}
use rpatk.Rex.Fragment.Built.{IsFragment}
use rpatk.Rex.Fragment.Fork.{fork-IsFork, length-fork}
use rpatk.Rex.Fragment.Branch.{forked}
use rpatk.Rex.Fragment.Loop.{Turns, loop_db, through, along, loop-Star, Star-loop, loop-IsFragment}

Times-map :
    (P Q : List ℕ → Type 0)
    → ((w : List ℕ) → P w → Q w)
    → (n : ℕ) (w : List ℕ) → Times P n w
    → Times Q n w
unfolding Times
Times-map P Q h zero w q = q
Times-map P Q h (suc n) w (x, y, q, p, rest) = (x, y, q, h x p, Times-map P Q h n y rest)

module _ (db : Db) (f : Fragment) (lo : ℕ) (h : IsFragment db f lo (length db))
    (small : length db < nowhere) where
  -- `rex_fragment_mop`: the result is a fragment of the region with its new state, and reads any
  -- number of the fragment's words.
  pub mop-Star :
      IsFragment (mop db f).0 (mop db f).1 lo (suc (length db))
      × ((w : List ℕ) → Reads (mop db f).0 (mop db f).1 w ↔ Star (Reads db f) w)
  unfolding mop fragment fork createstate Reads
  mop-Star =
      let n = length db in
      let db₁ = (fork db nowhere f.sstate).0 in
      let grown = length-fork db nowhere f.sstate in
      let now = forked db f lo n h nowhere f.sstate small in
      let turns : Turns db₁ f n = inl (fork-IsFork db nowhere f.sstate) in
      let b = h.begins in
      let here : n < length db₁ = omega arith in
      (
        loop-IsFragment db₁ f lo n now.0 turns here n (omega arith),
        λ w. (
          λ (m, t).
              let (c, s) = loop-Star db₁ f lo n now.0 turns here m m w (omega arith) t in
              (c, Times-map (Reads db₁ f) (Reads db f) (λ x. (now.1 x).0) c w s),
          λ (c, s).
              Star-loop db₁ f lo n now.0 turns here c w
                (Times-map (Reads db f) (Reads db₁ f) (λ x. (now.1 x).1) c w s),
        ),
      )

  -- `rex_fragment_mul`: the result is a fragment of the region with its new state, and reads a word
  -- of the fragment with any number of them after it.
  pub mul-Star :
      IsFragment (mul db f).0 (mul db f).1 lo (suc (length db))
      × ((w : List ℕ)
          → Reads (mul db f).0 (mul db f).1 w ↔ Concat (Reads db f) (Star (Reads db f)) w)
  unfolding mul cat fragment fork createstate Reads
  mul-Star =
      let n = length db in
      let db₁ = (fork db f.sstate nowhere).0 in
      let grown = length-fork db f.sstate nowhere in
      let now = forked db f lo n h f.sstate nowhere small in
      let turns : Turns db₁ f n = inr (fork-IsFork db f.sstate nowhere) in
      let b = h.begins in
      let here : n < length db₁ = omega arith in
      (
        loop-IsFragment db₁ f lo n now.0 turns here f.sstate (omega arith),
        λ w. (
          λ (m, t).
              let (k, x, y, q, first, after, le) = through db₁ f lo n now.0 turns here m w t in
              let (c, s) = loop-Star db₁ f lo n now.0 turns here k k y (omega arith) after in
              (
                x,
                y,
                q,
                (now.1 x).0 first,
                (c, Times-map (Reads db₁ f) (Reads db f) (λ v. (now.1 v).0) c y s),
              ),
          λ (x, y, q, first, (c, s)).
              let (i, t) = (now.1 x).1 first in
              let (j, t') =
                Star-loop db₁ f lo n now.0 turns here c y
                  (Times-map (Reads db f) (Reads db₁ f) (λ v. (now.1 v).1) c y s) in
              (
                i + j,
                subst (λ v. Trace (loop_db db₁ f lo n now.0 turns here) (i + j) f.sstate v nowhere)
                    (sym q)
                    (Trace-++ (loop_db db₁ f lo n now.0 turns here) i j f.sstate n nowhere x y
                      (along db₁ f lo n now.0 turns here i x t) t'),
              ),
        ),
      )
