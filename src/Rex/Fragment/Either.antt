-- ===== src/Rex/Fragment/Either.antt =====
-- `rex_fragment_alt`: a new state before two fragments.
use rpatk.Base.{
  ℕ, suc, ◌<◌, ◌≤◌, ◌≡◌, ◌⊎◌, ◌↔◌, sym, ap, ◌∙◌, Bool, false, ◌&&◌, ◌||◌, Bool-cases, inl, inr,
  List, length, arith, ltb, ltb→lt, ltb→le, ◌==◌, ==_iff,
}
use mathlib.Core.Path.{subst}
use rpatk.Rex.Transition.{trans_at}
use rpatk.Rex.State.{Db, createstate}
use rpatk.Rex.Fragment.{Fragment, nowhere, alt, fork}
use rpatk.Rex.Fragment.Places.{part_at, hit}
use rpatk.Rex.Fragment.Named.{dangles, hit-append, or_false}
use rpatk.Rex.Fragment.Traces.{Reads, Within}
use rpatk.Rex.Fragment.Built.{IsFragment, within}
use rpatk.Rex.Fragment.Fork.{
  IsFork, fork-IsFork, length-fork, Trace-fork, Trace-fork_left, Trace-fork_right, dangles-fork,
}
use rpatk.Rex.Fragment.Frame.{and_false}
use rpatk.Rex.Fragment.Branch.{Ends, Ends-wider, Stays-fork, within-suc, and_or, forked}

within_both :
    (lo mid hi u : ℕ) → lo ≤ mid → mid ≤ hi → (within lo mid u || within mid hi u) ≡ within lo hi u
within_both lo mid hi u le ge = ground arith

module _ (db : Db) (f₁ f₂ : Fragment) (lo mid : ℕ) (h₁ : IsFragment db f₁ lo mid)
    (h₂ : IsFragment db f₂ mid (length db)) (small : length db < nowhere) where
  alt_db : Db
  alt_db = (fork db f₁.sstate f₂.sstate).0

  one : IsFragment alt_db f₁ lo mid × ((w : List ℕ) → Reads alt_db f₁ w ↔ Reads db f₁ w)
  unfolding alt_db
  one = forked db f₁ lo mid h₁ f₁.sstate f₂.sstate small

  two : IsFragment alt_db f₂ mid (length db) × ((w : List ℕ) → Reads alt_db f₂ w ↔ Reads db f₂ w)
  unfolding alt_db
  two = forked db f₂ mid (length db) h₂ f₁.sstate f₂.sstate small

  is_fork : IsFork alt_db (length db) f₁.sstate f₂.sstate
  unfolding alt_db
  is_fork = fork-IsFork db f₁.sstate f₂.sstate

  alt_words :
      (w : List ℕ) → Reads (alt db f₁ f₂).0 (alt db f₁ f₂).1 w → Reads db f₁ w ⊎ Reads db f₂ w
  unfolding alt alt_db Reads fork createstate
  alt_words w (n, k) =
      let (m, q, way) =
        Trace-fork alt_db (length db) f₁.sstate f₂.sstate is_fork n w nowhere (inl small) k in
      elim way [ inl left ↦ inl ((one.1 w).0 (m, left)) | inr right ↦ inr ((two.1 w).0 (m, right)) ]

  words_alt :
      (w : List ℕ) → Reads db f₁ w ⊎ Reads db f₂ w → Reads (alt db f₁ f₂).0 (alt db f₁ f₂).1 w
  unfolding alt alt_db Reads fork createstate
  words_alt w (inl k) =
      let (n, t) = (one.1 w).1 k in
      (suc n, Trace-fork_left alt_db (length db) f₁.sstate f₂.sstate is_fork n w nowhere t)
  words_alt w (inr k) =
      let (n, t) = (two.1 w).1 k in
      (suc n, Trace-fork_right alt_db (length db) f₁.sstate f₂.sstate is_fork n w nowhere t)

  alt_stays :
      (u : ℕ) (e : Bool) (i : ℕ)
      → Within lo (length db) u
      → i < length (part_at alt_db u e)
      → Ends lo (suc (length db)) (trans_at (part_at alt_db u e) i).dstuid
  alt_stays u e i w lt =
      let n = length db in
      let b₁ = h₁.begins in
      let b₂ = h₂.begins in
      elim (Bool-cases (ltb u mid)) [
        | inl first ↦
            Ends-wider lo mid lo (suc n) _ (omega arith) (omega arith)
              (one.0.stays u e i (w.0, ltb→lt u mid first) lt)
        | inr after ↦
            Ends-wider mid n lo (suc n) _ (omega arith) (omega arith)
              (two.0.stays u e i (ltb→le u mid after, w.1) lt)
      ]

  last_full : (e : Bool) (i : ℕ) → dangles alt_db (length db) e i ≡ false
  last_full e i =
      let b₁ = h₁.begins in
      let b₂ = h₂.begins in
      let r₁ = h₁.room in
      dangles-fork alt_db (length db) f₁.sstate f₂.sstate is_fork (omega arith) (omega arith) e i

  with_last :
      (u : ℕ) (e : Bool) (i : ℕ)
      → lo ≤ length db
      → (within lo (length db) u && dangles alt_db u e i)
        ≡ (within lo (suc (length db)) u && dangles alt_db u e i)
  with_last u e i le = elim (Bool-cases (length db == u)) [
    | inl same ↦
        let q = (==_iff (length db) u).0 same in
        let full : dangles alt_db u e i ≡ false =
          subst (λ v. dangles alt_db v e i ≡ false) q (last_full e i) in
        rw full
          (and_false (within lo (length db) u) ∙ sym (and_false (within lo (suc (length db)) u)))
    | inr other ↦
        ap (λ b. b && dangles alt_db u e i)
          (sym (
            within-suc lo (length db) u le
            ∙ ap (λ b. within lo (length db) u || b) other
            ∙ or_false (within lo (length db) u)))
  ]

  alt_named :
      (u : ℕ) (e : Bool) (i : ℕ)
      → hit (alt db f₁ f₂).1.dangling u e i
        ≡ (within lo (suc (length db)) u && dangles (alt db f₁ f₂).0 u e i)
  unfolding alt alt_db fork createstate
  alt_named u e i =
      let n = length db in
      let b₁ = h₁.begins in
      let b₂ = h₂.begins in
      let d = dangles alt_db u e i in
      hit-append f₁.dangling f₂.dangling u e i
      ∙ ap (λ x. x || hit f₂.dangling u e i) (one.0.named u e i)
      ∙ ap (λ x. (within lo mid u && d) || x) (two.0.named u e i)
      ∙ and_or (within lo mid u) (within mid n u) d
      ∙ ap (λ x. x && d) (within_both lo mid n u (omega arith) (omega arith))
      ∙ with_last u e i (omega arith)

  -- The result is a fragment of both regions and the new state, and reads the words of both.
  pub alt_lem :
      IsFragment (alt db f₁ f₂).0 (alt db f₁ f₂).1 lo (suc (length db))
      × ((w : List ℕ) → Reads (alt db f₁ f₂).0 (alt db f₁ f₂).1 w ↔ (Reads db f₁ w ⊎ Reads db f₂ w))
  unfolding alt alt_db fork createstate
  alt_lem =
      let n = length db in
      let size = length-fork db f₁.sstate f₂.sstate in
      let b₁ = h₁.begins in
      let b₂ = h₂.begins in
      (
        record {
          begins = omega arith;
          room = omega arith;
          small = omega arith;
          stays =
              Stays-fork alt_db lo n f₁.sstate f₂.sstate is_fork (inr (omega arith))
                (inr (omega arith)) alt_stays;
          named = alt_named;
        },
        λ w. (alt_words w, words_alt w),
      )
