-- ===== src/Rex/Fragment/Branch.antt =====
-- `rex_fragment_opt`, `rex_fragment_alt`: a new state before one fragment or two.
use rpatk.Base.{
  ℕ, suc, ◌<◌, ◌≤◌, ◌≡◌, ◌⊎◌, ◌↔◌, refl, sym, ap, ◌∙◌, Bool, true, false, ◌&&◌, ◌||◌, Bool-cases,
  inl, inr, List, [], length, arith, ltb, ltb→lt, ltb→le, ◌==◌,
}
use mathlib.Core.Path.{subst}
use rpatk.Rex.Transition.{trans_at}
use rpatk.Rex.State.{Db, createstate}
use rpatk.Rex.Fragment.{Fragment, nowhere, opt, fork}
use rpatk.Rex.Fragment.Places.{part_at}
use rpatk.Rex.Fragment.Named.{dangles, hit-add_dangling}
use rpatk.Rex.Fragment.Traces.{Trace, Reads, Within, Stays, Trace-nowhere}
use rpatk.Rex.Fragment.Built.{IsFragment, within}
use rpatk.Rex.Fragment.Fork.{
  IsFork, fork-IsFork, length-fork, fork_ends, Trace-fork, Trace-fork_left, Trace-fork_right,
}
use rpatk.Rex.Fragment.Frame.{IsFragment-Keeps, fork-Keeps}

abbrev pub Ends : ℕ → ℕ → ℕ → Type 0
Ends lo hi d = (d ≡ nowhere) ⊎ Within lo hi d

pub Ends-wider : (lo hi lo' hi' d : ℕ) → lo' ≤ lo → hi ≤ hi' → Ends lo hi d → Ends lo' hi' d
Ends-wider lo hi lo' hi' d le ge (inl q) = inl q
Ends-wider lo hi lo' hi' d le ge (inr q) = inr (omega arith)

-- One more state, the region's last, keeps what leads from it in the wider region.
pub Stays-fork :
    (db : Db) (lo n a b : ℕ)
    → IsFork db n a b
    → Ends lo (suc n) a
    → Ends lo (suc n) b
    → ((u : ℕ) (e : Bool) (i : ℕ)
        → Within lo n u
        → i < length (part_at db u e)
        → Ends lo (suc n) (trans_at (part_at db u e) i).dstuid)
    → Stays db lo (suc n)
Stays-fork db lo n a b h at_a at_b rest u e i w lt = elim (Bool-cases (ltb u n)) [
  | inl old ↦ rest u e i (w.0, ltb→lt u n old) lt
  | inr new ↦
      let ge = ltb→le u n new in
      let q : n ≡ u = omega arith in
      subst
        (λ v. i < length (part_at db v e) → Ends lo (suc n) (trans_at (part_at db v e) i).dstuid) q
        (fork_ends db n a b h (Ends lo (suc n)) at_a at_b e i) lt
]

pub within-suc : (lo n u : ℕ) → lo ≤ n → within lo (suc n) u ≡ (within lo n u || (n == u))
within-suc lo n u le = ground arith

pub and_or : (p q d : Bool) → ((p && d) || (q && d)) ≡ ((p || q) && d)
and_or true true true = refl
and_or true true false = refl
and_or true false true = refl
and_or true false false = refl
and_or false true d = refl
and_or false false d = refl

-- `db` with the new state, where the fragment is one still
module _ (db : Db) (f : Fragment) (lo hi : ℕ) (h : IsFragment db f lo hi) (a b : ℕ)
    (small : length db < nowhere) where
  pub forked :
      IsFragment (fork db a b).0 f lo hi × ((w : List ℕ) → Reads (fork db a b).0 f w ↔ Reads db f w)
  forked =
      let size = length-fork db a b in
      IsFragment-Keeps db (fork db a b).0 f lo hi h (fork-Keeps db a b lo hi h.room) (omega arith)
        (omega arith)

module _ (db : Db) (f : Fragment) (lo : ℕ) (h : IsFragment db f lo (length db))
    (small : length db < nowhere) where
  opt_db : Db
  opt_db = (fork db nowhere f.sstate).0

  now : IsFragment opt_db f lo (length db) × ((w : List ℕ) → Reads opt_db f w ↔ Reads db f w)
  unfolding opt_db
  now = forked db f lo (length db) h nowhere f.sstate small

  is_fork : IsFork opt_db (length db) nowhere f.sstate
  unfolding opt_db
  is_fork = fork-IsFork db nowhere f.sstate

  opt_words : (w : List ℕ) → Reads (opt db f).0 (opt db f).1 w → (w ≡ []) ⊎ Reads db f w
  unfolding opt opt_db Reads fork createstate
  opt_words w (n, k) =
      let (m, q, way) =
        Trace-fork opt_db (length db) nowhere f.sstate is_fork n w nowhere (inl small) k in
      elim way [
        | inl end_ ↦
            inl (
              Trace-nowhere opt_db m nowhere w (omega (arith, length-fork db nowhere f.sstate))
                end_)
        | inr through ↦ inr ((now.1 w).0 (m, through))
      ]

  words_opt : (w : List ℕ) → (w ≡ []) ⊎ Reads db f w → Reads (opt db f).0 (opt db f).1 w
  unfolding opt opt_db Reads fork createstate Trace
  words_opt w (inl q) =
      (1, Trace-fork_left opt_db (length db) nowhere f.sstate is_fork 0 w nowhere (refl, q))
  words_opt w (inr k) =
      let (n, t) = (now.1 w).1 k in
      (suc n, Trace-fork_right opt_db (length db) nowhere f.sstate is_fork n w nowhere t)

  -- The result is a fragment of the region with its new state, and reads the words of the fragment
  -- and the empty one.
  pub opt_lem :
      IsFragment (opt db f).0 (opt db f).1 lo (suc (length db))
      × ((w : List ℕ) → Reads (opt db f).0 (opt db f).1 w ↔ ((w ≡ []) ⊎ Reads db f w))
  unfolding opt opt_db fork createstate
  opt_lem =
      let n = length db in
      let size = length-fork db nowhere f.sstate in
      let b = h.begins in
      (
        record {
          begins = omega arith;
          room = omega arith;
          small = omega arith;
          stays =
              Stays-fork opt_db lo n nowhere f.sstate is_fork (inl refl) (inr (omega arith))
                (λ u e i w lt.
                  Ends-wider lo n lo (suc n) _ (omega arith) (omega arith)
                    (now.0.stays u e i w lt));
          named = λ u e i.
              hit-add_dangling opt_db f.dangling n u e i
              ∙ ap (λ x. x || ((n == u) && dangles opt_db u e i)) (now.0.named u e i)
              ∙ and_or (within lo n u) (n == u) (dangles opt_db u e i)
              ∙ ap (λ x. x && dangles opt_db u e i) (sym (within-suc lo n u (omega arith)));
        },
        λ w. (opt_words w, words_opt w),
      )
