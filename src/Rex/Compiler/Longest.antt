-- ===== src/Rex/Compiler/Longest.antt =====
-- The whole way: the automaton of an expression, the DFA of it, and the longest match.
use rpatk.Base.{
  ℕ, suc, ◌<◌, ◌≤◌, ◌≡◌, ◌⊎◌, ◌↔◌, refl, sym, ap, true, false, Bool-cases, inl, inr, some, List, [],
  length, take, arith, ltb, ltb→lt, ltb→le, ◌==◌, ==_iff, ==→ne,
}
use mathlib.Core.Path.{subst}
use rpatk.RArray.{Memory}
use rpatk.Rex.Transition.{Transition}
use rpatk.Rex.State.{Db, State, state_at, start, setuserdata, state_create}
use rpatk.Rex.NfaSim.{is_accept}
use rpatk.Rex.NfaSim.AddState.{From}
use rpatk.Rex.NfaSim.Run.{Walk, chars, decode}
use rpatk.Rex.DfaConv.Move.{IsProper, IsRangeOf}
use rpatk.Rex.DfaSim.{DfaSim, run_dfa}
use rpatk.Rex.DfaSim.Longest.{AreChars, size}
use rpatk.Rex.Construct.{Conv, createdfa}
use rpatk.Rex.Construct.Shapes.{IsNumbered}
use rpatk.Rex.Construct.Longest.{Matches, IsPlainStart, IsLongestMatch, createdfa-IsLongestMatch}
use rpatk.Rex.Fragment.{Fragment, nowhere}
use rpatk.Rex.Fragment.Traces.{Trace, Reads, state_at_over}
use rpatk.Rex.Fragment.Built.{IsFragment}
use rpatk.Rex.Fragment.Walks.{Walk-iff-Trace}
use rpatk.Rex.Compiler.{expression_end}
use rpatk.Rex.Compiler.Plain.{patch_keeps, IsSound, IsPlain, ArePlain, aim-IsSound, aim-IsPlain}
use rpatk.Rex.Compiler.Ends.{
  ended, patched, done, length-done, length-ended, expression_end_lem, ended_old, ended_last,
  done_start, done_others,
}
use rpatk.Rex.Compiler.Runs.{closed}

start-IsPlain : (u : ℕ) (s : State) → IsSound u s → IsPlain u (record s { kind = start })
start-IsPlain u s h = (record { numbered = h.numbered; proper = h.proper }, refl)

-- `P` at the longest prefix of at least one character, of which `r` is the size; 0 if there is none.
abbrev pub IsLongestIn : (List ℕ → Type 0) → List (ℕ × ℕ) → ℕ → Type 0
IsLongestIn P w r =
    ((r ≡ 0) × ((n : ℕ) → 1 ≤ n → n ≤ length w → ¬ P (chars (take n w))))
    ⊎ ((n : ℕ) × (1 ≤ n)
        × (n ≤ length w)
        × P (chars (take n w))
        × (r ≡ size (take n w))
        × ((m : ℕ) → n < m → m ≤ length w → ¬ P (chars (take m w))))

module _ (db : Db) (f : Fragment) (h : IsFragment db f 0 (length db)) (small : length db < nowhere)
    (plain : ArePlain db) (x : ℕ) where
  abbrev whole : Db
  whole = done db f 0 (length db) h small x

  old-IsPlain : (u : ℕ) → u < length db → IsPlain u (state_at whole u)
  old-IsPlain u lt =
      let n = length db in
      let at_ended : IsPlain u (state_at (ended db f 0 n h small x) u) =
        subst (IsPlain u) (sym (ended_old db f 0 n h small x u lt)) (plain u lt) in
      let at_patched : IsPlain u (state_at (patched db f 0 n h small x) u) =
        patch_keeps (IsPlain u) (aim-IsPlain u) (ended db f 0 n h small x) f.dangling n u
          (omega (arith, length-ended db f 0 n h small x)) at_ended in
      elim (Bool-cases (f.sstate == u)) [
        | inl same ↦
            let q = (==_iff f.sstate u).0 same in
            let at_start : IsPlain f.sstate (state_at (patched db f 0 n h small x) f.sstate) =
              subst (λ v. IsPlain v (state_at (patched db f 0 n h small x) v)) (sym q) at_patched in
            subst (λ v. IsPlain v (state_at whole v)) q
              (subst (IsPlain f.sstate) (sym (done_start db f 0 n h small x))
                (start-IsPlain f.sstate _ at_start.0))
        | inr other ↦
            subst (IsPlain u) (sym (done_others db f 0 n h small x u (==→ne f.sstate u other)))
              at_patched
      ]

  last-IsSound : IsSound (length db) (state_at whole (length db))
  unfolding setuserdata state_create
  last-IsSound =
      let n = length db in
      let b = h.begins in
      subst (IsSound n) (sym (done_others db f 0 n h small x n (λ q. omega arith))) (
        patch_keeps (IsSound n) (aim-IsSound n) (ended db f 0 n h small x) f.dangling n n
          (omega (arith, length-ended db f 0 n h small x))
          (subst (IsSound n) (sym (ended_last db f 0 n h small x))
            (record { numbered = refl; proper = λ low high r. absurd r })))

  whole-IsSound : (u : ℕ) → u < length whole → IsSound u (state_at whole u)
  whole-IsSound u lt =
      let n = length db in
      elim (Bool-cases (ltb u n)) [
        | inl old ↦ (old-IsPlain u (ltb→lt u n old)).0
        | inr new ↦
            let q : n ≡ u = omega (arith, length-done db f 0 n h small x, ltb→le u n new) in
            subst (λ v. IsSound v (state_at whole v)) q last-IsSound
      ]

  whole-IsNumbered : IsNumbered whole
  whole-IsNumbered = record { numbered = λ u lt. (whole-IsSound u lt).numbered }

  whole-IsProper : IsProper whole
  whole-IsProper = record {
    proper = λ u low high r. elim (Bool-cases (ltb u (length whole))) [
      | inl inside ↦ (whole-IsSound u (ltb→lt u (length whole) inside)).proper low high r
      | inr over ↦ absurd (
          subst (λ s. IsRangeOf low high s.trans)
            (state_at_over whole u (ltb→le u (length whole) over)) r)
    ];
  }

  -- Only the added state accepts.
  accepts_last : (v : ℕ) → is_accept (state_at whole v).kind ≡ true → v ≡ length db
  accepts_last v k =
      let n = length db in
      elim (Bool-cases (ltb v n)) [
        | inl old ↦ let no_ = (old-IsPlain v (ltb→lt v n old)).1 in cc
        | inr new ↦ elim (Bool-cases (n == v)) [
          | inl same ↦ sym ((==_iff n v).0 same)
          | inr other ↦
              let over =
                state_at_over whole v (
                  omega (arith, length-done db f 0 n h small x, ltb→le v n new, ==→ne n v other)) in
              let no_ : is_accept (state_at whole v).kind ≡ false =
                ap (λ s. is_accept s.kind) over in
              cc
        ]
      ]

  Matches-Reads : (w : List ℕ) → Matches whole f.sstate w ↔ Reads db f w
  Matches-Reads w =
      let n = length db in
      let (at_start, starts, accepts, data_, words) = expression_end_lem db f 0 n h small x in
      let walks = Walk-iff-Trace whole f.sstate n w in
      let reads : ((m : ℕ) × Trace whole m f.sstate w n) ↔ Reads db f w =
        subst (λ s. ((m : ℕ) × Trace whole m s w n) ↔ Reads db f w) at_start (words w) in
      (
        λ (v, walk, k).
            reads.0
              (walks.0 (subst (λ y. Walk whole (From whole f.sstate) w y) (accepts_last v k) walk)),
        λ r. (n, walks.1 (reads.1 r), ap is_accept accepts),
      )

  IsLongestMatch-Reads :
      (w : List (ℕ × ℕ)) (r : ℕ) → IsLongestMatch whole f.sstate w r → IsLongestIn (Reads db f) w r
  IsLongestMatch-Reads w r longest =
      let same = λ (m : ℕ). Matches-Reads (chars (take m w)) in
      elim longest [
        | inl (e, no_) ↦ inl (e, λ m one le k. no_ m one le ((same m).1 k))
        | inr (m, one, le, yes_, e, no_) ↦
            inr (m, one, le, (same m).0 yes_, e, λ i lt le' k. no_ i lt le' ((same i).1 k))
      ]

module _ ⦃m : Memory Transition⦄ (spare : List Transition → List Transition) (db : Db)
    (f : Fragment) (h : IsFragment db f 0 (length db)) (small : length db < nowhere)
    (plain : ArePlain db) (x : ℕ) where
  -- For a fragment of the whole database that does not read the empty word, in states at their
  -- numbers, with proper ranges, that do not accept, and a text of characters: the finished automaton
  -- is converted, the DFA simulator runs on the DFA to the end, and what it returns is the size of the
  -- longest prefix of at least one character that is a word of the fragment, or 0 if none is.
  pub createdfa-expression_end :
      (bytes : List ℕ)
      → ¬ Reads db f []
      → AreChars (chars (decode (suc (length bytes)) bytes))
      → (w : Conv) × (t : DfaSim) × (r : ℕ) × (createdfa spare (expression_end db f x).0 f.sstate
          ≡ some w)
        × (run_dfa w.dfa 1 bytes ≡ some (t, r))
        × IsLongestIn (Reads db f) (decode (suc (length bytes)) bytes) r
  createdfa-expression_end bytes no_empty chars_ =
      let n = length db in
      let b = h.begins in
      let d = whole db f h small plain x in
      let plain_start : IsPlainStart d f.sstate = λ v r.
        elim (Bool-cases (is_accept (state_at d v).kind)) [
          | inl k ↦ absurd (no_empty ((Matches-Reads db f h small plain x []).0 (v, r, k)))
          | inr k ↦ k
        ] in
      let (w, t, r, made, runs, longest) =
        createdfa-IsLongestMatch spare d (closed db f h small x)
          (whole-IsProper db f h small plain x) (whole-IsNumbered db f h small plain x) f.sstate
          bytes (omega (arith, length-done db f 0 n h small x)) plain_start chars_ in
      (
        w,
        t,
        r,
        made,
        runs,
        IsLongestMatch-Reads db f h small plain x (decode (suc (length bytes)) bytes) r longest,
      )
