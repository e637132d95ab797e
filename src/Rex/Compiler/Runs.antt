-- ===== src/Rex/Compiler/Runs.antt =====
-- The NFA simulator on the automaton of an expression.
use rpatk.Base.{
  ℕ, suc, ◌<◌, ◌≡◌, ◌↔◌, refl, ap, ◌∙◌, Bool, true, false, Bool-cases, inl, inr, some, List, [],
  length, arith, ltb, ltb→lt, ltb→le, ◌==◌, ==_iff, ==→ne,
}
use mathlib.Core.Path.{subst}
use rpatk.Rex.Transition.{trans_at}
use rpatk.Rex.Subset.{In}
use rpatk.Rex.State.{Db, missing, IsClosed}
use rpatk.Rex.NfaSim.{NfaSim, run}
use rpatk.Rex.NfaSim.Run.{chars, decode, run-Walk}
use rpatk.Rex.Fragment.{Fragment, nowhere}
use rpatk.Rex.Fragment.Places.{part_at, part}
use rpatk.Rex.Fragment.Traces.{Reads, state_at_over}
use rpatk.Rex.Fragment.Built.{IsFragment, Redirected-Within}
use rpatk.Rex.Fragment.Walks.{In-targets, Walk-iff-Trace}
use rpatk.Rex.Compiler.{expression_end}
use rpatk.Rex.Compiler.Ends.{
  ended, done, now, done-Redirected, done_last, last_empty, length-done, expression_end_lem,
}

module _ (db : Db) (f : Fragment) (h : IsFragment db f 0 (length db)) (small : length db < nowhere)
    (x : ℕ) where
  inside :
      (u : ℕ) (e : Bool) (i : ℕ)
      → i < length (part_at (done db f 0 (length db) h small x) u e)
      → (trans_at (part_at (done db f 0 (length db) h small x) u e) i).dstuid < suc (length db)
  inside u e i lt =
      let n = length db in
      let d = done db f 0 n h small x in
      elim (Bool-cases (ltb u n)) [
        | inl old ↦
            (Redirected-Within (ended db f 0 n h small x) d 0 n n 0 (suc n)
              (now db f 0 n h small x).0.stays (done-Redirected db f 0 n h small x) (omega arith)
              (omega arith) u e i (omega arith, ltb→lt u n old) lt).1
        | inr new ↦ elim (Bool-cases (n == u)) [
          | inl same ↦
              let q = (==_iff n u).0 same in
              let nothing : part_at d u e ≡ [] =
                subst (λ v. part_at d v e ≡ []) q
                  (done_last db f 0 n h small x e ∙ last_empty db f 0 n h small x e) in
              elim (subst (λ ts. i < length ts) nothing lt) [ ]
          | inr other ↦
              let over =
                state_at_over d u (
                  omega (arith, length-done db f 0 n h small x, ltb→le u n new, ==→ne n u other)) in
              let nothing : part_at d u e ≡ [] =
                ap (part e) over
                ∙ elim e as (λ b. part b missing ≡ []) [ true ↦ refl | false ↦ refl ] in
              elim (subst (λ ts. i < length ts) nothing lt) [ ]
        ]
      ]

  pub closed : IsClosed (done db f 0 (length db) h small x)
  closed =
      let n = length db in
      let d = done db f 0 n h small x in
      let size = length-done db f 0 n h small x in
      record {
        epsilon = λ u v k.
            let (i, lt, q) = In-targets (part_at d u true) v k in omega (arith, inside u true i lt);
        moves = λ u v k.
            let (i, lt, q) = In-targets (part_at d u false) v k in
            omega (arith, inside u false i lt);
      }

  -- For a fragment of the whole database: a run of the simulator from the start of the finished
  -- automaton ends, and ends in the accepting state that was added exactly if the characters of the
  -- text are a word of the fragment.
  pub run-expression_end :
      (bytes : List ℕ)
      → (t : NfaSim) × (run (expression_end db f x).0 (expression_end db f x).1 bytes ≡ some t)
        × (In (length db) t.oldstates ↔ Reads db f (chars (decode (suc (length bytes)) bytes)))
  run-expression_end bytes =
      let n = length db in
      let d = done db f 0 n h small x in
      let size = length-done db f 0 n h small x in
      let b = h.begins in
      let (at_start, starts, accepts, data_, words) = expression_end_lem db f 0 n h small x in
      let start_in : (expression_end db f x).1 < length d = omega arith in
      let (t, runs, states) = run-Walk d (expression_end db f x).1 bytes closed start_in in
      let w = chars (decode (suc (length bytes)) bytes) in
      let walks = Walk-iff-Trace d (expression_end db f x).1 n w in
      (
        t,
        runs,
        (λ k. (words w).0 (walks.0 ((states n).0 k)), λ r. (states n).1 (walks.1 ((words w).1 r))),
      )
