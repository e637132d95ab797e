-- ===== src/Rex/Construct/Round.antt =====
-- `convert_range` on the state at `i`, and the inner loop: what they add and what they leave.
use rpatk.Base.{
  ℕ, ◌<◌, ◌≤◌, ◌≡◌, ◌≢◌, inl, inr, refl, sym, ap, ◌∙◌, false, some, List, [], ◌∷◌, ◌++◌, length,
  length-append, get_or-set_self, get_or-set_ne, arith,
}
use mathlib.Core.Path.{subst}
use mathlib.Core.List.{append-nil, append_assoc}
use rpatk.Base.Slices.{get_or-append}
use rpatk.Rex.Transition.{Transition, transitions_add, ordered, trans_at, low_at, blank}
use rpatk.Rex.Transition.Moves.{Moves}
use rpatk.Rex.Transition.Add.{transitions_add_last}
use rpatk.Rex.Subset.{In}
use rpatk.Rex.State.{Db, State, missing, state_at, addtransition, IsClosed, targets}
use rpatk.Rex.DfaConv.{Marks, move}
use rpatk.Rex.DfaConv.Reach.{Reach, here, step}
use rpatk.Rex.DfaConv.Closure.{eclosure-Reach}
use rpatk.Rex.DfaConv.Move.{SomeMoves, IsProper, ranges, ranges-IsNormal, move-SomeMoves}
use rpatk.Rex.Construct.{
  Conv, write_state, state_for, lead, lead_closed, lead_moved, convert_range, range_loop,
}
use rpatk.Rex.Construct.Sets.{AreBelow}
use rpatk.Rex.Construct.Shapes.{
  Shape, shape, shapes, shape_at, length-shapes, shape_at-shapes, shapes-write_state, IsNumbered,
  IsMade,
}
use rpatk.Rex.Construct.Led.{Goes, Led, Led-more, Led-append, Led-length, Led-at}
use rpatk.Rex.Construct.NewState.{state_for-Finds}

ordered_le :
    (low high src dst : ℕ)
    → low ≤ high
    → ((ordered low high src dst).lowin ≡ low)
      × ((ordered low high src dst).highin ≡ high)
      × ((ordered low high src dst).dstuid ≡ dst)
ordered_le low high src dst le = ground arith

-- What a step on the state at `i` leaves as it was.
pub record Round (nfa : Db) (i : ℕ) (w w' : Conv) : Type 0 where
  pub more : List Shape
  pub longer : shapes w'.dfa ≡ shapes w.dfa ++ more
  pub made : IsMade nfa (shapes w'.dfa) w'.hash
  pub marks : (v : ℕ) → w'.marked v ≡ false
  pub others : (k : ℕ) → k ≢ i → (state_at w'.dfa k).trans ≡ (state_at w.dfa k).trans

pub state_at-write_state :
    (db : Db) (i : ℕ) (f : State → State)
    → i < length db
    → state_at (write_state db i f) i ≡ f (state_at db i)
unfolding write_state
state_at-write_state db i f lt = get_or-set_self db i (f (state_at db i)) missing lt

pub state_at-write_state_ne :
    (db : Db) (i k : ℕ) (f : State → State)
    → k ≢ i
    → state_at (write_state db i f) k ≡ state_at db k
unfolding write_state
state_at-write_state_ne db i k f ne =
    get_or-set_ne db i k (f (state_at db i)) missing (λ e. ne (sym e))

pub Reach-below :
    (nfa : Db) (src : List ℕ) (v : ℕ)
    → IsClosed nfa
    → AreBelow (length nfa) src
    → Reach nfa src v
    → v < length nfa
Reach-below nfa src v closed below (here k) = below v k
Reach-below nfa src v closed below (step {u} r e) = closed.epsilon u v e

-- a transition for the range `r` to where it goes by way of the set `src`
record Leads (nfa : Db) (i : ℕ) (r : Transition) (src : List ℕ) (w w' : Conv) : Type 0 where
  round : Round nfa i w w'
  from : ℕ
  dst : ℕ
  added :
      (state_at w'.dfa i).trans ≡ transitions_add (state_at w.dfa i).trans r.lowin r.highin from dst
  goes : Goes nfa (shapes w'.dfa) src dst

module _ (nfa : Db) (i : ℕ) (r : Transition) (w w₁ : Conv) (more : List Shape)
    (longer : shapes w₁.dfa ≡ shapes w.dfa ++ more) (made : IsMade nfa (shapes w₁.dfa) w₁.hash)
    (clean : (v : ℕ) → w₁.marked v ≡ false)
    (trans : (k : ℕ) → (state_at w₁.dfa k).trans ≡ (state_at w.dfa k).trans)
    (inside : i < length (shapes w.dfa)) where
  lead-Leads :
      (src : List ℕ) (d : ℕ)
      → Goes nfa (shapes w₁.dfa) src d
      → Leads nfa i r src w (lead i r (w₁, d))
  unfolding lead addtransition
  lead-Leads src d goes =
      let f = λ (s : State). addtransition s r.lowin r.highin d in
      let same : shapes (write_state w₁.dfa i f) ≡ shapes w₁.dfa =
        shapes-write_state w₁.dfa i f (λ s. refl) in
      let room : i < length w₁.dfa =
        omega (arith, ap length longer, length-append (shapes w.dfa) more, length-shapes w₁.dfa) in
      record {
        round = record {
          more = more;
          longer = same ∙ longer;
          made = subst (λ ks. IsMade nfa ks w₁.hash) (sym same) made;
          marks = clean;
          others = λ k ne.
              ap (λ (s : State). s.trans) (state_at-write_state_ne w₁.dfa i k f ne) ∙ trans k;
        };
        from = (state_at w₁.dfa i).uid;
        dst = d;
        added =
            ap (λ (s : State). s.trans) (state_at-write_state w₁.dfa i f room)
            ∙ ap (λ ts. transitions_add ts r.lowin r.highin (state_at w₁.dfa i).uid d) (trans i);
        goes = subst (λ ks. Goes nfa ks src d) (sym same) goes;
      }

Moves-targets : (ts : List Transition) (c d : ℕ) → Moves ts c d → In d (targets ts)
Moves-targets [] c d h = absurd h
Moves-targets (t ∷ ts) c d (inl (_, e)) = inl e
Moves-targets (t ∷ ts) c d (inr h) = inr (Moves-targets ts c d h)

SomeMoves-below :
    (nfa : Db) (us : List ℕ) (c v : ℕ) → IsClosed nfa → SomeMoves nfa us c v → v < length nfa
SomeMoves-below nfa [] c v closed h = absurd h
SomeMoves-below nfa (u ∷ us) c v closed (inl h) =
    closed.moves u v (Moves-targets (state_at nfa u).trans c v h)
SomeMoves-below nfa (u ∷ us) c v closed (inr h) = SomeMoves-below nfa us c v closed h

-- The subset of a state stays.
pub subset_kept :
    (nfa : Db) (i k : ℕ) (w w' : Conv)
    → Round nfa i w w'
    → k < length (shapes w.dfa)
    → (state_at w'.dfa k).subset ≡ (state_at w.dfa k).subset
subset_kept nfa i k w w' r lt =
    ap (λ (y : Shape). y.subset)
      (sym (shape_at-shapes w'.dfa k)
        ∙ ap (λ ks. shape_at ks k) r.longer
        ∙ get_or-append k (shapes w.dfa) r.more (shape missing) lt
        ∙ shape_at-shapes w.dfa k)

pub Round-trans :
    (nfa : Db) (i : ℕ) (u v w : Conv) → Round nfa i u v → Round nfa i v w → Round nfa i u w
Round-trans nfa i u v w f g = record {
  more = f.more ++ g.more;
  longer = g.longer ∙ ap (λ ks. ks ++ g.more) f.longer ∙ append_assoc (shapes u.dfa) f.more g.more;
  made = g.made;
  marks = g.marks;
  others = λ k ne. g.others k ne ∙ f.others k ne;
}

pub inside_kept :
    (nfa : Db) (i k : ℕ) (w w' : Conv)
    → Round nfa i w w'
    → k < length (shapes w.dfa)
    → k < length (shapes w'.dfa)
inside_kept nfa i k w w' r lt =
    omega (arith, ap length r.longer, length-append (shapes w.dfa) r.more)

get_or-split : (xs ys : List Transition) (x : Transition) → trans_at (xs ++ x ∷ ys) (length xs) ≡ x
get_or-split [] ys x = refl
get_or-split (y ∷ xs) ys x = get_or-split xs ys x

module _ (nfa : Db) (closed : IsClosed nfa) (proper : IsProper nfa) (num : IsNumbered nfa)
    (i : ℕ) where
  lead_moved-Leads :
      (src : List ℕ) (r : Transition) (w : Conv)
      → IsMade nfa (shapes w.dfa) w.hash
      → ((v : ℕ) → w.marked v ≡ false)
      → i < length (shapes w.dfa)
      → AreBelow (length nfa) src
      → (w' : Conv) × (lead_moved nfa i r w src ≡ some w') × Leads nfa i r src w w'
  unfolding lead_moved
  lead_moved-Leads [] r w made clean inside below = (
    lead i r (w, 0),
    refl,
    lead-Leads nfa i r w w [] (sym (append-nil (shapes w.dfa))) made clean (λ k. refl) inside [] 0
        (inl (refl, refl)),
  )
  lead_moved-Leads (u ∷ us) r w made clean inside below =
      let src = u ∷ us in
      let (v, marks, runs, sorted, members, cleaned) =
        eclosure-Reach nfa src w.marked clean closed in
      let w₀ = record w { marked = marks } in
      let in_v : In u v = (members u).1 (here (inl refl)) in
      let some_ : v ≢ [] = λ e. subst (In u) e in_v in
      let f =
        state_for-Finds nfa v w₀ num sorted
          (λ x k. Reach-below nfa src x closed below ((members x).0 k)) some_ made in
      let (w₁, d) = state_for nfa v w₀ in
      (
        lead i r (w₁, d),
        rw (runs, lead_closed) refl,
        lead-Leads nfa i r w w₁ f.more f.longer f.made
            (λ x. ap (λ (m : Marks). m x) f.marks ∙ cleaned x) f.trans inside src d
            (inr (
              f.positive,
              f.inside,
              λ e. subst (In u) e (inl refl),
              λ x. rw f.its_set (members x),
            )),
      )

  -- a move leads to states of the database
  move-AreBelow :
      (us : List ℕ) (j : ℕ)
      → j < length (ranges nfa us)
      → AreBelow
          (length nfa)
          (move nfa us (trans_at (ranges nfa us) j).lowin (trans_at (ranges nfa us) j).highin)
  move-AreBelow us j lt v k =
      let t = trans_at (ranges nfa us) j in
      let ordered = (ranges-IsNormal nfa us proper).proper j lt in
      let (_, members) = move-SomeMoves nfa us j t.lowin v proper lt (omega arith, ordered) in
      SomeMoves-below nfa us t.lowin v closed (members.0 k)

  convert_range_lem :
      (us : List ℕ) (r : Transition) (w : Conv)
      → (state_at w.dfa i).subset ≡ us
      → convert_range nfa i r w ≡ lead_moved nfa i r w (move nfa us r.lowin r.highin)
  unfolding convert_range
  convert_range_lem us r w e = ap (λ set_. lead_moved nfa i r w (move nfa set_ r.lowin r.highin)) e

  -- the loop has come to the range `r`, behind those of `done`
  module _ (us : List ℕ) (done ts : List Transition) (r : Transition)
      (split : done ++ r ∷ ts ≡ ranges nfa us) where
    inside_ranges : length done < length (ranges nfa us)
    inside_ranges = omega (arith, ap length split, length-append done (r ∷ ts))

    at_range : trans_at (ranges nfa us) (length done) ≡ r
    at_range = ap (λ rs. trans_at rs (length done)) (sym split) ∙ get_or-split done ts r

    move_here : AreBelow (length nfa) (move nfa us r.lowin r.highin)
    move_here =
        subst (λ (t : Transition). AreBelow (length nfa) (move nfa us t.lowin t.highin)) at_range
          (move-AreBelow us (length done) inside_ranges)

    low_done : (k : ℕ) → k < length done → low_at done k ≡ low_at (ranges nfa us) k
    low_done k lt =
        ap (λ (t : Transition). t.lowin)
          (sym (get_or-append k done (r ∷ ts) blank lt) ∙ ap (λ rs. trans_at rs k) split)

    Led-next :
        (ks : List Shape) (old : List Transition) (src dst : ℕ)
        → Led nfa ks us done old
        → Goes nfa ks (move nfa us r.lowin r.highin) dst
        → Led nfa ks us (done ++ r ∷ []) (transitions_add old r.lowin r.highin src dst)
    Led-next ks old src dst led goes =
        let normal = ranges-IsNormal nfa us proper in
        let size = Led-length nfa us ks done old led in
        let low : (k : ℕ) → k < length done → low_at old k ≡ low_at (ranges nfa us) k =
          λ k lt. (Led-at nfa us ks done old k led lt).0 ∙ low_done k lt in
        let here_ = at_range in
        let le : r.lowin ≤ r.highin =
          subst (λ (t : Transition). t.lowin ≤ t.highin) here_
            (normal.proper (length done) inside_ranges) in
        let rise : (a b : ℕ)
            → a < b
            → b ≤ length done
            → low_at (ranges nfa us) a ≤ low_at (ranges nfa us) b =
          λ a b lt h. omega (
            arith,
            normal.proper a (omega (arith, inside_ranges)),
            normal.apart a b lt (omega (arith, inside_ranges)),
          ) in
        let last =
          transitions_add_last old r.lowin r.highin src dst
            (λ a b lt h.
              omega (arith, low a (omega arith), low b (omega arith), rise a b lt (omega arith)))
            (λ a h. omega (
              arith,
              low a (omega arith),
              rise a (length done) (omega arith) (omega arith),
              ap (λ (t : Transition). t.lowin) here_,
            )) in
        let (a, b, c) = ordered_le r.lowin r.highin src dst le in
        subst (Led nfa ks us (done ++ r ∷ [])) (sym last) (
          Led-append nfa us ks done old r (ordered r.lowin r.highin src dst) led a b
            (subst (Goes nfa ks (move nfa us r.lowin r.highin)) (sym c) goes))

  -- The inner loop gives the state one transition for each range, and leaves the others.
  pub range_loop-Led :
      (us : List ℕ) (done ts : List Transition) (w : Conv)
      → done ++ ts ≡ ranges nfa us
      → (state_at w.dfa i).subset ≡ us
      → IsMade nfa (shapes w.dfa) w.hash
      → ((v : ℕ) → w.marked v ≡ false)
      → i < length (shapes w.dfa)
      → Led nfa (shapes w.dfa) us done (state_at w.dfa i).trans
      → (w' : Conv) × (range_loop nfa i ts w ≡ some w')
        × Round nfa i w w'
        × Led nfa (shapes w'.dfa) us (ranges nfa us) (state_at w'.dfa i).trans
  unfolding range_loop
  range_loop-Led us done [] w split same made clean inside led = (
    w,
    refl,
    record {
      more = [];
      longer = sym (append-nil (shapes w.dfa));
      made = made;
      marks = clean;
      others = λ k ne. refl;
    },
    subst (λ rs. Led nfa (shapes w.dfa) us rs (state_at w.dfa i).trans)
        (sym (append-nil done) ∙ split) led,
  )
  range_loop-Led us done (r ∷ ts) w split same made clean inside led =
      let src = move nfa us r.lowin r.highin in
      let (w₁, runs, leads) =
        lead_moved-Leads src r w made clean inside (move_here us done ts r split) in
      let old = (state_at w.dfa i).trans in
      let grown : Led nfa (shapes w₁.dfa) us done old =
        subst (λ ks. Led nfa ks us done old) (sym leads.round.longer)
          (Led-more nfa us (shapes w.dfa) leads.round.more done old led) in
      let led₁ : Led nfa (shapes w₁.dfa) us (done ++ r ∷ []) (state_at w₁.dfa i).trans =
        subst (Led nfa (shapes w₁.dfa) us (done ++ r ∷ [])) (sym leads.added)
          (Led-next us done ts r split (shapes w₁.dfa) old leads.from leads.dst grown leads.goes) in
      let (w', rest, round, led') =
        range_loop-Led us (done ++ r ∷ []) ts w₁ (append_assoc done (r ∷ []) ts ∙ split)
          (subset_kept nfa i i w w₁ leads.round inside ∙ same) leads.round.made leads.round.marks
          (inside_kept nfa i i w w₁ leads.round inside) led₁ in
      (
        w',
        rw (convert_range_lem us r w same, runs, range_loop) rest,
        Round-trans nfa i w w₁ w' leads.round round,
        led',
      )
