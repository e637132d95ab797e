-- ===== src/Rex/Construct/Loop.antt =====
-- The outer loop: every state is finished in its turn, and no more states are made than there are
-- subsets.
use rpatk.Base.{
  ℕ, zero, suc, ◌+◌, ◌^◌, ◌<◌, ◌≤◌, ◌≡◌, inl, inr, refl, sym, ap, ◌∙◌, false, Bool-cases, some,
  List, [], ◌++◌, length, length-append, ltb, ltb→lt, ltb→le, ltb_no, ◌==◌, ==_iff, ==→ne, arith,
}
use mathlib.Core.Path.{subst}
use mathlib.Core.List.{append-nil, append_assoc}
use rpatk.Base.Slices.{take_exact}
use rpatk.RArray.{Memory, contents}
use rpatk.RArray.Contents.{IsValid}
use rpatk.Rex.Transition.{Transition}
use rpatk.Rex.Transition.Moves.{Moves}
use rpatk.Rex.State.{Db, State, state_at, IsClosed}
use rpatk.Rex.SubsetKey.{subset_key}
use rpatk.RHash.{lookup_object}
use rpatk.Rex.DfaConv.Move.{IsProper, ranges}
use rpatk.Rex.Normalize.Whole.{normalize-Moves}
use rpatk.Rex.Construct.{
  Conv, write_state, array_of, store_trans, normalize_state, convert_state, conv_loop,
}
use rpatk.Rex.Construct.Sets.{subsets_le}
use rpatk.Rex.Construct.Shapes.{
  Shape, shapes, shape_at, length-shapes, shapes-write_state, IsNumbered, IsMade,
}
use rpatk.Rex.Construct.Round.{
  Round, Round-trans, state_at-write_state, state_at-write_state_ne, range_loop-Led, inside_kept,
  subset_kept,
}
use rpatk.Rex.Construct.Done.{IsDone, IsDone-append, Led-IsDone, IsNormal-AreSorted}

-- there are no more states than subsets
pub made_le :
    (nfa : Db) (w : Conv) → IsMade nfa (shapes w.dfa) w.hash → length w.dfa ≤ 2 ^ length nfa
made_le nfa w made =
    let ks = shapes w.dfa in
    subsets_le (length nfa) (length w.dfa) (λ k. (shape_at ks k).subset)
      (λ k lt. elim (Bool-cases (k == 0)) [
        | inl first ↦
            let e : (shape_at ks k).subset ≡ [] =
              ap (λ i. (shape_at ks i).subset) ((==_iff k 0).0 first) ∙ made.dead_first in
            rw e (λ i j p h. elim h [ ], λ v h. absurd h)
        | inr later ↦
            let (sorted, below, _) =
              made.sets k (omega (arith, ==→ne k 0 later)) (omega (arith, length-shapes w.dfa)) in
            (sorted, below)
      ])
      (λ i j p lt e. elim (Bool-cases (i == 0)) [
        | inl first ↦
            let (_, _, some_) = made.sets j (omega arith) (omega (arith, length-shapes w.dfa)) in
            some_
              (sym e ∙ ap (λ i. (shape_at ks i).subset) ((==_iff i 0).0 first) ∙ made.dead_first)
        | inr later ↦
            let a =
              made.found i (omega (arith, ==→ne i 0 later)) (omega (arith, length-shapes w.dfa)) in
            let b = made.found j (omega arith) (omega (arith, length-shapes w.dfa)) in
            let same : i ≡ j = ground (arith, ap (lookup_object w.hash) e, a, b) in omega arith
      ])

module _ ⦃m : Memory Transition⦄ (spare : List Transition → List Transition) (nfa : Db)
    (closed : IsClosed nfa) (proper : IsProper nfa) (num : IsNumbered nfa) where
  -- the normalisation of a finished state
  normalize_state-IsDone :
      (i : ℕ) (w : Conv) (us : List ℕ)
      → IsMade nfa (shapes w.dfa) w.hash
      → ((v : ℕ) → w.marked v ≡ false)
      → i < length (shapes w.dfa)
      → IsDone nfa (shapes w.dfa) us (state_at w.dfa i).trans
      → (w' : Conv) × (normalize_state spare i w ≡ some w')
        × Round nfa i w w'
        × IsDone nfa (shapes w'.dfa) us (state_at w'.dfa i).trans
  unfolding normalize_state array_of
  normalize_state-IsDone i w us made clean inside done =
      let ts = (state_at w.dfa i).trans in
      let a = array_of spare ts in
      let held : contents a ≡ ts = take_exact (length ts) ts (spare ts) refl in
      let valid : IsValid a = record { fits = omega (arith, length-append ts (spare ts)) } in
      let (b, runs, _, leads, normal) =
        normalize-Moves a valid (rw held (IsNormal-AreSorted ts done.normal)) in
      let f = λ (s : State). record s { trans = contents b } in
      let same : shapes (write_state w.dfa i f) ≡ shapes w.dfa =
        shapes-write_state w.dfa i f (λ s. refl) in
      let now : (state_at (write_state w.dfa i f) i).trans ≡ contents b =
        ap (λ (s : State). s.trans)
          (state_at-write_state w.dfa i f (omega (arith, length-shapes w.dfa))) in
      let led : (c d : ℕ)
          → (Moves (contents b) c d → Moves ts c d) × (Moves ts c d → Moves (contents b) c d) =
        λ c d.
          subst
            (λ l. (Moves (contents b) c d → Moves l c d) × (Moves l c d → Moves (contents b) c d))
            held (leads c d) in
      let finished : IsDone nfa (shapes w.dfa) us (contents b) = record {
        normal = normal (rw held done.normal);
        total = λ c le. let (d, k) = done.total c le in (d, (led c d).1 k);
        sound = λ c d k. done.sound c d ((led c d).0 k);
      } in
      (
        record w { dfa = write_state w.dfa i f },
        rw (runs, store_trans) refl,
        record {
          more = [];
          longer = same ∙ sym (append-nil (shapes w.dfa));
          made = subst (λ ks. IsMade nfa ks w.hash) (sym same) made;
          marks = clean;
          others = λ k ne. ap (λ (s : State). s.trans) (state_at-write_state_ne w.dfa i k f ne);
        },
        subst (λ ks. IsDone nfa ks us (state_at (write_state w.dfa i f) i).trans) (sym same)
            (subst (IsDone nfa (shapes w.dfa) us) (sym now) finished),
      )

  convert_state-IsDone :
      (i : ℕ) (w : Conv)
      → IsMade nfa (shapes w.dfa) w.hash
      → ((v : ℕ) → w.marked v ≡ false)
      → i < length (shapes w.dfa)
      → (state_at w.dfa i).trans ≡ []
      → (w' : Conv) × (convert_state spare nfa i w ≡ some w')
        × Round nfa i w w'
        × IsDone nfa (shapes w'.dfa) (state_at w.dfa i).subset (state_at w'.dfa i).trans
  unfolding convert_state
  convert_state-IsDone i w made clean inside fresh =
      let us = (state_at w.dfa i).subset in
      let (w₁, runs, round, led) =
        range_loop-Led nfa closed proper num i us [] (ranges nfa us) w refl refl made clean inside
          (rw fresh tt) in
      let done = Led-IsDone nfa proper (shapes w₁.dfa) us (state_at w₁.dfa i).trans led in
      let (w', stored, round', done') =
        normalize_state-IsDone i w₁ us round.made round.marks
          (inside_kept nfa i i w w₁ round inside) done in
      (w', rw (runs, convert_state) stored, Round-trans nfa i w w₁ w' round round', done')

  -- the states below `i` are finished, and the others have no transitions yet
  pub record IsHalf (i : ℕ) (w : Conv) : Type 0 where
    pub made : IsMade nfa (shapes w.dfa) w.hash
    pub marks : (v : ℕ) → w.marked v ≡ false
    pub done :
        (k : ℕ)
        → k < i
        → IsDone nfa (shapes w.dfa) (state_at w.dfa k).subset (state_at w.dfa k).trans
    pub fresh : (k : ℕ) → i ≤ k → (state_at w.dfa k).trans ≡ []

  convert_state-IsHalf :
      (i : ℕ) (w : Conv)
      → IsHalf i w
      → i < length (shapes w.dfa)
      → (w' : Conv) × (convert_state spare nfa i w ≡ some w') × Round nfa i w w' × IsHalf (suc i) w'
  convert_state-IsHalf i w h inside =
      let (w', runs, round, done) =
        convert_state-IsDone i w h.made h.marks inside (h.fresh i (omega arith)) in
      (
        w',
        runs,
        round,
        record {
          made = round.made;
          marks = round.marks;
          done = λ k lt.
              rw (subset_kept nfa i k w w' round (omega arith)) (elim (Bool-cases (k == i)) [
                | inl same ↦
                    subst
                      (λ j.
                        IsDone nfa (shapes w'.dfa) (state_at w.dfa j).subset
                          (state_at w'.dfa j).trans)
                      (sym ((==_iff k i).0 same)) done
                | inr other ↦
                    rw (round.longer, round.others k (==→ne k i other))
                      (IsDone-append nfa (shapes w.dfa) round.more (state_at w.dfa k).subset
                        (state_at w.dfa k).trans (h.done k (omega (arith, ==→ne k i other))))
              ]);
          fresh = λ k le. round.others k (λ e. omega arith) ∙ h.fresh k (omega arith);
        },
      )

  -- The loop ends within its fuel, with every state finished.
  pub record IsFinished (w w' : Conv) : Type 0 where
    pub more : List Shape
    pub longer : shapes w'.dfa ≡ shapes w.dfa ++ more
    pub made : IsMade nfa (shapes w'.dfa) w'.hash
    pub done :
        (k : ℕ)
        → k < length (shapes w'.dfa)
        → IsDone nfa (shapes w'.dfa) (state_at w'.dfa k).subset (state_at w'.dfa k).trans

  ends_here : (i : ℕ) (w : Conv) → IsHalf i w → length (shapes w.dfa) ≤ i → IsFinished w w
  ends_here i w h le = record {
    more = [];
    longer = sym (append-nil (shapes w.dfa));
    made = h.made;
    done = λ k lt. h.done k (omega arith);
  }

  pub conv_loop-IsFinished :
      (fuel i : ℕ) (w : Conv)
      → IsHalf i w
      → 2 ^ length nfa ≤ i + fuel
      → (w' : Conv) × (conv_loop spare fuel nfa i w ≡ some w') × IsFinished w w'
  unfolding conv_loop
  conv_loop-IsFinished zero i w h enough =
      let le : length w.dfa ≤ i = omega (arith, made_le nfa w h.made) in
      (
        w,
        rw (ltb_no i (length w.dfa) le) refl,
        ends_here i w h (omega (arith, length-shapes w.dfa)),
      )
  conv_loop-IsFinished (suc fuel) i w h enough = elim (Bool-cases (ltb i (length w.dfa))) [
    | inr done ↦ (
      w,
      rw (done, conv_loop) refl,
      ends_here i w h (omega (arith, length-shapes w.dfa, ltb→le _ _ done)),
    )
    | inl more ↦
        let (w₁, runs, round, half) =
          convert_state-IsHalf i w h (omega (arith, ltb→lt _ _ more, length-shapes w.dfa)) in
        let (w', rest, end) = conv_loop-IsFinished fuel (suc i) w₁ half (omega arith) in
        (
          w',
          rw (more, conv_loop, runs) rest,
          record {
            more = round.more ++ end.more;
            longer =
                end.longer
                ∙ ap (λ ks. ks ++ end.more) round.longer
                ∙ append_assoc (shapes w.dfa) round.more end.more;
            made = end.made;
            done = end.done;
          },
        )
  ]
