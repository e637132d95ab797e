-- ===== src/Rex/Construct/Whole.antt =====
-- `rex_dfaconv_run` and `rex_db_createdfa` as a whole.
use rpatk.Base.{
  ℕ, zero, suc, ◌^◌, ◌<◌, ◌≤◌, ◌≡◌, ◌≢◌, ◌↔◌, inl, inr, refl, sym, ap, ◌∙◌, true, false, none, some,
  List, [], ◌∷◌, ◌++◌, length, arith,
}
use mathlib.Core.Path.{subst}
use rpatk.RArray.{Memory}
use rpatk.RHash.{RHash, create, insert, lookup_object}
use rpatk.RHash.Buckets.{IsHash, create-IsHash, values-create, lookup_lem}
use rpatk.RHash.Values.{first}
use rpatk.Rex.Transition.{Transition, char_max, transitions_find}
use rpatk.Rex.Transition.Find.{find-Moves}
use rpatk.Rex.Subset.{In, IsSubset}
use rpatk.Rex.State.{Db, start, dead, state_at, state_create, createstate, IsClosed}
use rpatk.Rex.SubsetKey.{subset_key}
use rpatk.Rex.DfaConv.{Marks}
use rpatk.Rex.DfaConv.Reach.{here}
use rpatk.Rex.DfaConv.Closure.{eclosure-Reach}
use rpatk.Rex.DfaConv.Move.{IsProper}
use rpatk.Rex.NfaSim.{is_accept}
use rpatk.Rex.NfaSim.AddState.{From}
use rpatk.Rex.DfaSim.{is_dead}
use rpatk.Rex.DfaSim.Longest.{IsDfa}
use rpatk.Rex.Construct.{Conv, write_state, initsubstates, run_from, dfaconv_run, createdfa}
use rpatk.Rex.Construct.Sets.{AreBelow}
use rpatk.Rex.Construct.Shapes.{
  Shape, shape, shapes, shape_at, length-shapes, shape_at-shapes, IsNumbered, SomeAccept, IsMade,
  insert-IsHash, lookup-insert, lookup-insert_ne, subset_cases,
}
use rpatk.Rex.Construct.Round.{Reach-below}
use rpatk.Rex.Construct.Done.{IsDone}
use rpatk.Rex.Construct.Loop.{made_le, IsHalf, IsFinished, conv_loop-IsFinished}

-- the two states that the construction starts with
abbrev first_two : List ℕ → Db
first_two v = state_create 0 dead ∷ record (state_create 1 start) { subset = v } ∷ []

module _ (nfa : Db) (h : RHash (List ℕ)) (v : List ℕ) (ok : IsHash h)
    (empty : (u : List ℕ) → lookup_object h u ≡ none) (sorted : IsSubset v)
    (below : AreBelow (length nfa) v) (some_ : v ≢ []) where
  first-alive : (k : ℕ) → 1 ≤ k → k < 2 → is_dead (shape_at (shapes (first_two v)) k).kind ≡ false
  unfolding state_create
  first-alive zero one lt = absurd (omega arith)
  first-alive (suc zero) one lt = refl
  first-alive (suc (suc k)) one lt = absurd (omega arith)

  first-numbers : (k : ℕ) → k < 2 → (shape_at (shapes (first_two v)) k).uid ≡ k
  unfolding state_create
  first-numbers zero lt = refl
  first-numbers (suc zero) lt = refl
  first-numbers (suc (suc k)) lt = absurd (omega arith)

  first-set : (k : ℕ) → 1 ≤ k → k < 2 → ((shape_at (shapes (first_two v)) k).subset ≡ v) × (k ≡ 1)
  first-set zero one lt = absurd (omega arith)
  first-set (suc zero) one lt = (refl, refl)
  first-set (suc (suc k)) one lt = absurd (omega arith)

  first-keys :
      (u : List ℕ) (k : ℕ)
      → lookup_object (insert h v 1) u ≡ some k
      → (1 ≤ k) × (k < 2) × ((shape_at (shapes (first_two v)) k).subset ≡ u)
  first-keys u k found = elim (subset_cases u v) [
    | inl same ↦
        let e : 1 ≡ k = ground (arith, lookup-insert h v 1 ok (empty v) u same, found) in
        (
          omega arith,
          omega arith,
          ap (λ i. (shape_at (shapes (first_two v)) i).subset) (sym e) ∙ sym same,
        )
    | inr other ↦ absurd (cc (lookup-insert_ne h v 1 ok (empty v) u other, empty u))
  ]

  first-IsMade : IsMade nfa (shapes (first_two v)) (insert h v 1)
  unfolding state_create
  first-IsMade = record {
    two = omega arith;
    dead_first = refl;
    dead_kind = refl;
    start_plain = refl;
    alive = first-alive;
    numbers = first-numbers;
    sets = λ k one lt. rw ((first-set k one lt).0) (sorted, below, some_);
    accepts = λ k two lt. absurd (omega arith);
    hashed = insert-IsHash h v 1 ok (empty v);
    found = λ k one lt.
        lookup-insert h v 1 ok (empty v) (shape_at (shapes (first_two v)) k).subset
          (first-set k one lt).0
        ∙ ap some (sym (first-set k one lt).1);
    keys = first-keys;
  }

  first-fresh : (k : ℕ) → (state_at (first_two v) k).trans ≡ []
  unfolding state_create
  first-fresh zero = refl
  first-fresh (suc zero) = refl
  first-fresh (suc (suc k)) = refl

-- The new database: a DFA whose states stand for subsets of the old one's states.
pub record IsConversion (nfa : Db) (from : ℕ) (dfa : Db) : Type 0 where
  pub shape_ok : IsDfa dfa
  pub small : length dfa ≤ 2 ^ length nfa
  pub start_inside : 1 < length dfa
  pub start_set : (v : ℕ) → In v (state_at dfa 1).subset ↔ From nfa from v
  pub start_plain : is_accept (state_at dfa 1).kind ≡ false
  pub dead_set : (state_at dfa 0).subset ≡ []
  pub accepts :
      (k : ℕ)
      → 2 ≤ k
      → k < length dfa
      → (is_accept (state_at dfa k).kind ≡ true) ↔ SomeAccept nfa (state_at dfa k).subset
  pub done :
      (k : ℕ)
      → k < length dfa
      → IsDone nfa (shapes dfa) (state_at dfa k).subset (state_at dfa k).trans

module _ ⦃m : Memory Transition⦄ (spare : List Transition → List Transition) (nfa : Db)
    (closed : IsClosed nfa) (proper : IsProper nfa) (num : IsNumbered nfa) where
  module _ (from : ℕ) (v : List ℕ) (w w' : Conv) (members : (x : ℕ) → In x v ↔ From nfa from x)
      (starts : w.dfa ≡ first_two v) (end : IsFinished spare nfa closed proper num w w') where
    shape_of : (k : ℕ) → shape_at (shapes w'.dfa) k ≡ shape (state_at w'.dfa k)
    shape_of k = shape_at-shapes w'.dfa k

    inside_shapes : (k : ℕ) → k < length w'.dfa → k < length (shapes w'.dfa)
    inside_shapes k lt = omega (arith, length-shapes w'.dfa)

    start_shape : (shape_at (shapes w'.dfa) 1).subset ≡ v
    start_shape =
        ap (λ ks. (shape_at ks 1).subset) (end.longer ∙ ap (λ db. shapes db ++ end.more) starts)

    total :
        (u c : ℕ)
        → u < length w'.dfa
        → c ≤ char_max
        → (t : Transition) × (transitions_find (state_at w'.dfa u).trans c ≡ some t)
          × (t.dstuid < length w'.dfa)
    total u c lt le =
        let done = end.done u (inside_shapes u lt) in
        let (d, k) = done.total c le in
        let (t, found, e) = (find-Moves (state_at w'.dfa u).trans done.normal c d).0 k in
        (
          t,
          found,
          elim (done.sound c d k) [
            | inl (z, _) ↦ omega (arith, e)
            | inr (one, inside, _) ↦ omega (arith, e, length-shapes w'.dfa)
          ],
        )

    finished : IsConversion nfa from w'.dfa
    finished = record {
      shape_ok = record {
        numbered = λ u lt.
            ap (λ (s : Shape). s.uid) (sym (shape_of u)) ∙ end.made.numbers u (inside_shapes u lt);
        dead_zero = ap (λ (s : Shape). is_dead s.kind) (sym (shape_of 0)) ∙ end.made.dead_kind;
        alive = λ u lt ne.
            ap (λ (s : Shape). is_dead s.kind) (sym (shape_of u))
            ∙ end.made.alive u (omega arith) (inside_shapes u lt);
        total = λ u c lt ne le. total u c lt le;
      };
      small = made_le nfa w' end.made;
      start_inside = omega (arith, length-shapes w'.dfa, end.made.two);
      start_set = λ x.
          subst (λ l. (In x l → From nfa from x) × (From nfa from x → In x l))
            (sym start_shape ∙ ap (λ (s : Shape). s.subset) (shape_of 1)) (members x);
      start_plain = ap (λ (s : Shape). is_accept s.kind) (sym (shape_of 1)) ∙ end.made.start_plain;
      dead_set = ap (λ (s : Shape). s.subset) (sym (shape_of 0)) ∙ end.made.dead_first;
      accepts = λ k two lt.
          subst (λ (s : Shape). (is_accept s.kind ≡ true) ↔ SomeAccept nfa s.subset) (shape_of k)
            (end.made.accepts k two (inside_shapes k lt));
      done = λ k lt. end.done k (inside_shapes k lt);
    }

  dfaconv_run-IsConversion :
      (h : RHash (List ℕ)) (marks : Marks) (from : ℕ)
      → IsHash h
      → ((u : List ℕ) → lookup_object h u ≡ none)
      → ((v : ℕ) → marks v ≡ false)
      → from < length nfa
      → (w : Conv) × (dfaconv_run spare h marks nfa from ≡ some w) × IsConversion nfa from w.dfa
  unfolding dfaconv_run createstate write_state state_create
  dfaconv_run-IsConversion h marks from ok empty clean lt =
      let (v, marks', runs, sorted, members, cleaned) =
        eclosure-Reach nfa (from ∷ []) marks clean closed in
      let in_v : In from v = (members from).1 (here (inl refl)) in
      let some_ : v ≢ [] = λ e. subst (In from) e in_v in
      let below : AreBelow (length nfa) v = λ x k.
        Reach-below nfa (from ∷ []) x closed
          (λ y q. elim q [ inl e ↦ omega arith | inr none_left ↦ absurd none_left ])
          ((members x).0 k) in
      let w : Conv = record {
        dfa = first_two v;
        substates = initsubstates nfa;
        hash = insert h v 1;
        marked = marks';
      } in
      let half : IsHalf spare nfa closed proper num 0 w = record {
        made = first-IsMade nfa h v ok empty sorted below some_;
        marks = cleaned;
        done = λ k p. elim p [ ];
        fresh = λ k le. first-fresh nfa h v ok empty sorted below some_ k;
      } in
      let (w', rest, end) =
        conv_loop-IsFinished spare nfa closed proper num (2 ^ length nfa) 0 w half (omega arith) in
      (w', rw (runs, run_from) rest, finished from v w w' members refl end)

  -- For a database of `n` states whose transitions lead to states of it, by proper ranges, with each
  -- state at its number, and a state of it: the conversion ends within its fuel. It makes a DFA of at
  -- most `2 ^ n` states, as the simulator asks for. State 1 stands for what empty transitions reach from
  -- the given state, and does not accept; every later state accepts exactly if its subset holds an
  -- accepting state. The transitions of each state do not overlap, cover every character, and lead it
  -- to the state of exactly what the subset leads to, or to the dead state if that is nothing.
  pub createdfa-IsConversion :
      (from : ℕ)
      → from < length nfa
      → (w : Conv) × (createdfa spare nfa from ≡ some w) × IsConversion nfa from w.dfa
  unfolding createdfa
  createdfa-IsConversion from lt =
      dfaconv_run-IsConversion (create 16) (λ _. false) from (create-IsHash 16)
        (λ u. (lookup_lem (create 16) u).0 ∙ ap first (values-create 16 u)) (λ v. refl) lt
