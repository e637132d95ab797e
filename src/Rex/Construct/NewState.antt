-- ===== src/Rex/Construct/NewState.antt =====
-- `state_for`: the state of a subset is found under it, or made and put under it.
use rpatk.Base.{
  ℕ, zero, suc, ◌<◌, ◌≤◌, ◌≡◌, ◌≢◌, ◌↔◌, inl, inr, refl, sym, ap, ◌∙◌, true, false, none, some,
  Option-cases, List, [], ◌∷◌, ◌++◌, length, set, length-append, arith,
}
use mathlib.Core.Path.{subst}
use mathlib.Core.List.{append-nil}
use rpatk.Base.Slices.{get_or-append, get_or-append_last, append_one-cases}
use rpatk.RHash.{RHash, insert, lookup_object}
use rpatk.Rex.Subset.{IsSubset}
use rpatk.Rex.State.{Db, State, none_state, missing, state_at, createstate, state_create}
use rpatk.Rex.SubsetKey.{subset_key}
use rpatk.Rex.NfaSim.{is_accept}
use rpatk.Rex.DfaSim.{is_dead}
use rpatk.Rex.Construct.{Conv, write_state, setsubstates, newstate, state_for}
use rpatk.Rex.Construct.Sets.{AreBelow}
use rpatk.Rex.Construct.Shapes.{
  Shape, shape, shapes, shape_at, length-shapes, shape_at-shapes, shapes-append, IsNumbered,
  SomeAccept, IsMade, insert-IsHash, lookup-insert, lookup-insert_ne, subset_cases,
  setsubstates-Filled,
}

-- the state that is made for a subset
record IsFresh (nfa : Db) (n : ℕ) (v : List ℕ) (x : Shape) : Type 0 where
  subset : x.subset ≡ v
  number : x.uid ≡ n
  alive : is_dead x.kind ≡ false
  accepts : (is_accept x.kind ≡ true) ↔ SomeAccept nfa v

module _ (nfa : Db) (ks : List Shape) (h : RHash (List ℕ)) (v : List ℕ) (x : Shape)
    (made : IsMade nfa ks h) (new : lookup_object h v ≡ none) (sorted : IsSubset v)
    (below : AreBelow (length nfa) v) (some_ : v ≢ []) (fresh : IsFresh nfa (length ks) v x) where
  -- a state is an old one or the new one
  module _ (P : ℕ → Shape → Type 0) (old : (k : ℕ) → k < length ks → P k (shape_at ks k))
      (last : P (length ks) x) where
    every : (k : ℕ) → k < length (ks ++ x ∷ []) → P k (shape_at (ks ++ x ∷ []) k)
    every k lt = elim (append_one-cases k ks x (shape missing) lt) [
      | inl (q, e) ↦ rw e (old k q)
      | inr (q, e) ↦ rw (e, q) last
    ]

  old_at : (k : ℕ) → k < length ks → shape_at (ks ++ x ∷ []) k ≡ shape_at ks k
  old_at k lt = get_or-append k ks (x ∷ []) (shape missing) lt

  other_set : (k : ℕ) → 1 ≤ k → k < length ks → (shape_at ks k).subset ≢ v
  other_set k one lt e = cc (made.found k one lt, ap (lookup_object h) e)

  new_key :
      (u : List ℕ) (k : ℕ)
      → lookup_object (insert h v (length ks)) u ≡ some k
      → (1 ≤ k) × (k < length (ks ++ x ∷ [])) × ((shape_at (ks ++ x ∷ []) k).subset ≡ u)
  new_key u k found = elim (subset_cases u v) [
    | inl same ↦
        let e : length ks ≡ k =
          ground (arith, lookup-insert h v (length ks) made.hashed new u same, found) in
        (
          omega (arith, made.two),
          omega (arith, length-append ks (x ∷ [])),
          ap (λ (y : Shape). y.subset)
                (ap (shape_at (ks ++ x ∷ [])) (sym e) ∙ get_or-append_last ks x (shape missing))
              ∙ fresh.subset
              ∙ sym same,
        )
    | inr other ↦
        let (one, lt, e) =
          made.keys u k (sym (lookup-insert_ne h v (length ks) made.hashed new u other) ∙ found) in
        (
          one,
          omega (arith, length-append ks (x ∷ [])),
          ap (λ (y : Shape). y.subset) (old_at k lt) ∙ e,
        )
  ]

  append-IsMade : IsMade nfa (ks ++ x ∷ []) (insert h v (length ks))
  append-IsMade = record {
    two = omega (arith, length-append ks (x ∷ []), made.two);
    dead_first = rw (old_at 0 (omega (arith, made.two))) made.dead_first;
    dead_kind = rw (old_at 0 (omega (arith, made.two))) made.dead_kind;
    start_plain = rw (old_at 1 (omega (arith, made.two))) made.start_plain;
    alive = λ k one lt.
        every (λ k (y : Shape). 1 ≤ k → is_dead y.kind ≡ false) (λ k lt one. made.alive k one lt)
          (λ one. fresh.alive) k lt one;
    numbers = every (λ k (y : Shape). y.uid ≡ k) made.numbers fresh.number;
    sets = λ k one lt.
        every
          (λ k (y : Shape).
            1 ≤ k → IsSubset y.subset × AreBelow (length nfa) y.subset × (y.subset ≢ []))
          (λ k lt one. made.sets k one lt) (λ one. rw fresh.subset (sorted, below, some_)) k lt one;
    accepts = λ k two lt.
        every (λ k (y : Shape). 2 ≤ k → (is_accept y.kind ≡ true) ↔ SomeAccept nfa y.subset)
          (λ k lt two. made.accepts k two lt) (λ two. rw fresh.subset fresh.accepts) k lt two;
    hashed = insert-IsHash h v (length ks) made.hashed new;
    found = λ k one lt.
        every (λ k (y : Shape). 1 ≤ k → lookup_object (insert h v (length ks)) y.subset ≡ some k)
          (λ k lt one.
            lookup-insert_ne h v (length ks) made.hashed new (shape_at ks k).subset
              (other_set k one lt)
            ∙ made.found k one lt)
          (λ one. lookup-insert h v (length ks) made.hashed new x.subset fresh.subset) k lt one;
    keys = new_key;
  }

set-append_last :
    {A : Type 0} (xs : List A) (x y : A) → set (xs ++ x ∷ []) (length xs) y ≡ xs ++ y ∷ []
set-append_last [] x y = refl
set-append_last (z ∷ xs) x y = ap (λ l. z ∷ l) (set-append_last xs x y)

-- a state without transitions at the end changes the transitions of none
trans-append :
    (db : Db) (s : State) (k : ℕ)
    → s.trans ≡ []
    → (state_at (db ++ s ∷ []) k).trans ≡ (state_at db k).trans
trans-append [] s zero e = e
trans-append [] s (suc k) e = refl
trans-append (x ∷ db) s zero e = refl
trans-append (x ∷ db) s (suc k) e = trans-append db s k e

-- The conversion after the state of the subset `v` was found or made: `more` are the new shapes.
pub record Finds (nfa : Db) (v : List ℕ) (w w' : Conv) (uid : ℕ) : Type 0 where
  pub more : List Shape
  pub longer : shapes w'.dfa ≡ shapes w.dfa ++ more
  pub made : IsMade nfa (shapes w'.dfa) w'.hash
  pub marks : w'.marked ≡ w.marked
  pub positive : 1 ≤ uid
  pub inside : uid < length (shapes w'.dfa)
  pub its_set : (shape_at (shapes w'.dfa) uid).subset ≡ v
  pub trans : (k : ℕ) → (state_at w'.dfa k).trans ≡ (state_at w.dfa k).trans

module _ (nfa : Db) (v : List ℕ) (w : Conv) (num : IsNumbered nfa) (sorted : IsSubset v)
    (below : AreBelow (length nfa) v) (some_ : v ≢ [])
    (made : IsMade nfa (shapes w.dfa) w.hash) where
  newstate-Finds :
      lookup_object w.hash v ≡ none → Finds nfa v w (newstate nfa v w).0 (newstate nfa v w).1
  unfolding newstate createstate write_state
  newstate-Finds new =
      let n = length w.dfa in
      let s = state_create n none_state in
      let next = setsubstates nfa v s in
      let blank : (is_accept s.kind ≡ false)
          × (s.uid ≡ n)
          × (s.trans ≡ [])
          × (is_dead s.kind ≡ false) =
        (refl, refl, refl, refl) in
      let (subset, accepts, number, no_trans, alive) =
        setsubstates-Filled nfa v s num below sorted blank.0 in
      let written : set (w.dfa ++ s ∷ []) n (setsubstates nfa v (state_at (w.dfa ++ s ∷ []) n))
          ≡ w.dfa ++ next ∷ [] =
        rw (get_or-append_last w.dfa s missing) (set-append_last w.dfa s next) in
      let at_ : state_at (w.dfa ++ next ∷ []) n ≡ next = get_or-append_last w.dfa next missing in
      let grown = shapes-append w.dfa next in
      let size : next.uid ≡ length (shapes w.dfa) = number ∙ sym (length-shapes w.dfa) in
      let fresh : IsFresh nfa (length (shapes w.dfa)) v (shape next) = record {
        subset = subset;
        number = size;
        alive = alive blank.3;
        accepts = accepts;
      } in
      let hash : insert w.hash next.subset next.uid ≡ insert w.hash v (length (shapes w.dfa)) =
        λ i. insert w.hash (subset i) (size i) in
      let added =
        append-IsMade nfa (shapes w.dfa) w.hash v (shape next) made new sorted below some_ fresh in
      let found : Finds nfa v w
          (record w { dfa = w.dfa ++ next ∷ []; hash = insert w.hash next.subset next.uid }) n =
        record {
          more = shape next ∷ [];
          longer = grown;
          made =
              subst (λ ks. IsMade nfa ks (insert w.hash next.subset next.uid)) (sym grown)
                (subst (IsMade nfa (shapes w.dfa ++ shape next ∷ [])) (sym hash) added);
          marks = refl;
          positive = omega (arith, made.two, length-shapes w.dfa);
          inside = omega (
            arith,
            ap length grown,
            length-append (shapes w.dfa) (shape next ∷ []),
            length-shapes w.dfa,
          );
          its_set =
              ap (λ (y : Shape). y.subset) (shape_at-shapes (w.dfa ++ next ∷ []) n ∙ ap shape at_)
              ∙ subset;
          trans = λ k. trans-append w.dfa next k no_trans;
        } in
      rw (written, at_) found

  pub state_for-Finds : Finds nfa v w (state_for nfa v w).0 (state_for nfa v w).1
  unfolding state_for
  state_for-Finds = elim (Option-cases (lookup_object w.hash v)) [
    | inl new ↦ rw (new, state_for) (newstate-Finds new)
    | inr (uid, found) ↦
        let (one, lt, e) = made.keys v uid found in
        rw (found, state_for)
          (record {
            more = [];
            longer = sym (append-nil (shapes w.dfa));
            made = made;
            marks = refl;
            positive = one;
            inside = lt;
            its_set = e;
            trans = λ k. refl;
          })
  ]
