-- ===== src/Rex/Construct/Shapes.antt =====
-- What the states of the new database are, apart from their transitions: the subsets that they stand
-- for, each once, under which the hash finds them.
use rpatk.Base.{
  ℕ, zero, suc, ◌<◌, ◌≤◌, ◌≡◌, ◌≢◌, ◌⊎◌, ◌↔◌, inl, inr, refl, sym, ap, ◌∙◌, true, false, Bool-cases,
  none, some, List, [], ◌∷◌, ◌++◌, map, length, get_or, arith,
}
use rpatk.RHash.{RHash, insert, lookup_object}
use rpatk.RHash.Values.{first}
use rpatk.RHash.Buckets.{IsHash, values, lookup_lem, insert_refines}
use rpatk.Rex.Subset.{In, IsSubset, addnew}
use rpatk.Rex.Subset.Insert.{addnew-Adds}
use rpatk.Rex.State.{Db, State, StateType, missing, state_at, addsubstate, accept}
use rpatk.Rex.SubsetKey.{subset_key, subset_key-IsKey, subsetequal, subsetequal_lem}
use rpatk.Rex.NfaSim.{is_accept}
use rpatk.Rex.DfaSim.{is_dead}
use rpatk.Rex.Construct.{write_state, substates_loop, setsubstates}
use rpatk.Rex.Construct.Sets.{IsSubset-ext, AreBelow}

pub record Shape : Type 0 where
  pub subset : List ℕ
  pub kind : StateType
  pub uid : ℕ

abbrev pub shape : State → Shape
shape s = record { subset = s.subset; kind = s.kind; uid = s.uid }

abbrev pub shapes : Db → List Shape
shapes db = map shape db

abbrev pub shape_at : List Shape → ℕ → Shape
shape_at ks i = get_or ks i (shape missing)

pub length-shapes : (db : Db) → length (shapes db) ≡ length db
length-shapes [] = refl
length-shapes (s ∷ db) = ap suc (length-shapes db)

pub shape_at-shapes : (db : Db) (i : ℕ) → shape_at (shapes db) i ≡ shape (state_at db i)
shape_at-shapes [] i = refl
shape_at-shapes (s ∷ db) zero = refl
shape_at-shapes (s ∷ db) (suc i) = shape_at-shapes db i

pub shapes-append : (db : Db) (s : State) → shapes (db ++ s ∷ []) ≡ shapes db ++ shape s ∷ []
shapes-append [] s = refl
shapes-append (x ∷ db) s = ap (λ ks. shape x ∷ ks) (shapes-append db s)

-- A write that leaves the shape of the state.
pub shapes-write_state :
    (db : Db) (i : ℕ) (f : State → State)
    → ((s : State) → shape (f s) ≡ shape s)
    → shapes (write_state db i f) ≡ shapes db
unfolding write_state
shapes-write_state [] i f h = refl
shapes-write_state (s ∷ db) zero f h = ap (λ k. k ∷ shapes db) (h s)
shapes-write_state (s ∷ db) (suc i) f h = ap (λ ks. shape s ∷ ks) (shapes-write_state db i f h)

-- A state at its number, among the states of the old database.
pub record IsNumbered (db : Db) : Type 0 where
  pub numbered : (u : ℕ) → u < length db → (state_at db u).uid ≡ u

-- some state of the set accepts
abbrev pub SomeAccept : Db → List ℕ → Type 0
SomeAccept nfa set = (u : ℕ) × In u set × (is_accept (state_at nfa u).kind ≡ true)

-- The shapes that the construction has made so far, and the hash of their subsets.
pub record IsMade (nfa : Db) (ks : List Shape) (h : RHash (List ℕ)) : Type 0 where
  pub two : 2 ≤ length ks
  pub dead_first : (shape_at ks 0).subset ≡ []
  pub dead_kind : is_dead (shape_at ks 0).kind ≡ true
  pub start_plain : is_accept (shape_at ks 1).kind ≡ false
  pub alive : (k : ℕ) → 1 ≤ k → k < length ks → is_dead (shape_at ks k).kind ≡ false
  pub numbers : (k : ℕ) → k < length ks → (shape_at ks k).uid ≡ k
  pub sets :
      (k : ℕ)
      → 1 ≤ k
      → k < length ks
      → IsSubset (shape_at ks k).subset
        × AreBelow (length nfa) (shape_at ks k).subset
        × ((shape_at ks k).subset ≢ [])
  pub accepts :
      (k : ℕ)
      → 2 ≤ k
      → k < length ks
      → (is_accept (shape_at ks k).kind ≡ true) ↔ SomeAccept nfa (shape_at ks k).subset
  pub hashed : IsHash h
  pub found : (k : ℕ) → 1 ≤ k → k < length ks → lookup_object h (shape_at ks k).subset ≡ some k
  pub keys :
      (v : List ℕ) (k : ℕ)
      → lookup_object h v ≡ some k
      → (1 ≤ k) × (k < length ks) × ((shape_at ks k).subset ≡ v)

first-none : (xs : List ℕ) → first xs ≡ none → xs ≡ []
first-none [] e = refl
first-none (x ∷ xs) e = absurd (ground arith)

-- The hash after an insertion under a subset that it did not have.
module _ (h : RHash (List ℕ)) (v : List ℕ) (k : ℕ) (ok : IsHash h)
    (new : lookup_object h v ≡ none) where
  pub insert-IsHash : IsHash (insert h v k)
  insert-IsHash = (insert_refines h v v (λ e. refl) k ok).1

  pub lookup-insert : (x : List ℕ) → x ≡ v → lookup_object (insert h v k) x ≡ some k
  lookup-insert x e =
      let nothing : values h x ≡ [] =
        ap (values h) e ∙ first-none (values h v) (sym (lookup_lem h v).0 ∙ new) in
      let inserted = (insert_refines h v x (subset_key-IsKey.hash v x) k ok).0 in
      let alike = (subsetequal_lem v x).1 (sym e) in
      let one : values (insert h v k) x ≡ k ∷ [] = inserted ∙ rw (alike, nothing) refl in
      (lookup_lem (insert h v k) x).0 ∙ ap first one

  pub lookup-insert_ne : (x : List ℕ) → x ≢ v → lookup_object (insert h v k) x ≡ lookup_object h x
  lookup-insert_ne x ne =
      let inserted = (insert_refines h v x (subset_key-IsKey.hash v x) k ok).0 in
      let differs : subsetequal v x ≡ false = elim (Bool-cases (subsetequal v x)) [
        | inl same ↦ absurd (ne (sym ((subsetequal_lem v x).0 same)))
        | inr no_ ↦ no_
      ] in
      let kept : values (insert h v k) x ≡ values h x = inserted ∙ rw differs refl in
      (lookup_lem (insert h v k) x).0 ∙ ap first kept ∙ sym (lookup_lem h x).0

pub subset_cases : (x v : List ℕ) → (x ≡ v) ⊎ (x ≢ v)
subset_cases x v = elim (Bool-cases (subsetequal x v)) [
  | inl same ↦ inl ((subsetequal_lem x v).0 same)
  | inr no_ ↦ inr (λ e. cc ((subsetequal_lem x v).1 e))
]

-- `setsubstates` makes the array of the subset itself, and accepts as one of its states does.
record Filled (nfa : Db) (set : List ℕ) (s t : State) : Type 0 where
  subset : IsSubset t.subset
  members : (v : ℕ) → In v t.subset ↔ (In v set ⊎ In v s.subset)
  accepting : (is_accept t.kind ≡ true) ↔ (SomeAccept nfa set ⊎ (is_accept s.kind ≡ true))
  same_uid : t.uid ≡ s.uid
  no_trans : t.trans ≡ s.trans
  alive : is_dead s.kind ≡ false → is_dead t.kind ≡ false

substates_loop-Filled :
    (nfa : Db) (set : List ℕ) (s : State)
    → IsNumbered nfa
    → AreBelow (length nfa) set
    → IsSubset s.subset
    → Filled nfa set s (substates_loop nfa set s)
unfolding substates_loop addsubstate
substates_loop-Filled nfa [] s num below h = record {
  subset = h;
  members = λ v. (inr, λ k. ground arith);
  accepting = (inr, λ k. elim k [ inl (u, none_left, _) ↦ absurd none_left | inr a ↦ a ]);
  same_uid = refl;
  no_trans = refl;
  alive = λ a. a;
}
substates_loop-Filled nfa (u ∷ set) s num below h =
    let n = state_at nfa u in
    let e : n.uid ≡ u = num.numbered u (below u (inl refl)) in
    let added = addnew-Adds s.subset n.uid h in
    let s' = record s { subset = addnew s.subset n.uid } in
    let below' : AreBelow (length nfa) set = λ v k. below v (inr k) in
    elim (Bool-cases (is_accept n.kind)) [
      | inl yes_ ↦
          let f =
            substates_loop-Filled nfa set (record s' { kind = accept }) num below' added.subset in
          rw yes_ (record {
            subset = f.subset;
            members = λ v. ground (arith, f.members v, added.members v);
            accepting = (λ k. inl (u, inl refl, yes_), λ k. f.accepting.1 (inr refl));
            same_uid = f.same_uid;
            no_trans = f.no_trans;
            alive = λ a. f.alive refl;
          })
      | inr no_ ↦
          let f = substates_loop-Filled nfa set s' num below' added.subset in
          rw no_ (record {
            subset = f.subset;
            members = λ v. ground (arith, f.members v, added.members v);
            accepting = (
              λ k. elim (f.accepting.0 k) [ inl (x, m, a) ↦ inl (x, inr m, a) | inr a ↦ inr a ],
              λ k. elim k [
                | inl (x, inl same, a) ↦ cc
                | inl (x, inr m, a) ↦ f.accepting.1 (inl (x, m, a))
                | inr a ↦ f.accepting.1 (inr a)
              ],
            );
            same_uid = f.same_uid;
            no_trans = f.no_trans;
            alive = f.alive;
          })
    ]

pub setsubstates-Filled :
    (nfa : Db) (set : List ℕ) (s : State)
    → IsNumbered nfa
    → AreBelow (length nfa) set
    → IsSubset set
    → is_accept s.kind ≡ false
    → let t = setsubstates nfa set s in
      (t.subset ≡ set)
      × ((is_accept t.kind ≡ true) ↔ SomeAccept nfa set)
      × (t.uid ≡ s.uid)
      × (t.trans ≡ s.trans)
      × (is_dead s.kind ≡ false → is_dead t.kind ≡ false)
unfolding setsubstates
setsubstates-Filled nfa set s num below sorted plain =
    let empty : State = record s { subset = [] } in
    let f = substates_loop-Filled nfa set empty num below (λ i j lt h. elim h [ ]) in
    (
      IsSubset-ext (substates_loop nfa set empty).subset set f.subset sorted
          (λ v. ground (arith, f.members v)),
      (λ k. elim (f.accepting.0 k) [ inl a ↦ a | inr a ↦ cc ], λ a. f.accepting.1 (inl a)),
      f.same_uid,
      f.no_trans,
      f.alive,
    )
