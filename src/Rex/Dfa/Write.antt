-- ===== src/Rex/Dfa/Write.antt =====
-- The loops that fill the common arrays write one list behind what was written before.
use rpatk.Base.{
  ℕ, suc, ◌+◌, ◌≤◌, ◌≡◌, refl, sym, ap, ◌∙◌, Bool-cases, inl, inr, List, [], ◌∷◌, ◌++◌, map, length,
  set, drop, length-append, arith, if◌then◌else◌,
}
use mathlib.Core.List.{append-nil, append_assoc}
use rpatk.Rex.Transition.{Transition}
use rpatk.Rex.NfaSim.{is_accept}
use rpatk.Rex.Construct.{Substate}
use rpatk.Rex.Dfa.{
  FlatTransition, FlatSubstate, flat_transition, flat_substate, substate_at, fill_trans,
  fill_accepting, fill_substates, count_accepting,
}

-- What the flat DFA is to hold of a transition and of a substate.
abbrev pub listed_transition : Transition → FlatTransition
listed_transition t = record { lowin = t.lowin; highin = t.highin; state = t.dstuid }

abbrev pub listed_substate : List Substate → ℕ → FlatSubstate
listed_substate subs uid = record {
  kind = (substate_at subs uid).ss_type;
  uid = uid;
  userdata = (substate_at subs uid).ss_userdata;
}

module _ {A : Type 0} where
  pub write_all : List A → ℕ → List A → List A
  write_all [] i out = out
  write_all (x ∷ xs) i out = write_all xs (suc i) (set out i x)

  pub set-append : (p r : List A) (y x : A) → set (p ++ y ∷ r) (length p) x ≡ (p ++ x ∷ []) ++ r
  set-append [] r y x = refl
  set-append (z ∷ p) r y x = ap (λ l. z ∷ l) (set-append p r y x)

  -- into an array that has room behind `p`
  pub write_all-append :
      (xs p r : List A)
      → length xs ≤ length r
      → write_all xs (length p) (p ++ r) ≡ (p ++ xs) ++ drop (length xs) r
  unfolding write_all
  write_all-append [] p r le = sym (ap (λ l. l ++ r) (append-nil p))
  write_all-append (x ∷ xs) p [] le = absurd (omega arith)
  write_all-append (x ∷ xs) p (y ∷ r) le =
      let size : length (p ++ x ∷ []) ≡ suc (length p) = omega (arith, length-append p (x ∷ [])) in
      let rest = write_all-append xs (p ++ x ∷ []) r (omega arith) in
      rw (set-append p r y x) (
        ap (λ n. write_all xs n ((p ++ x ∷ []) ++ r)) (sym size)
        ∙ rest
        ∙ ap (λ l. l ++ drop (length xs) r) (append_assoc p (x ∷ []) xs))

pub fill_trans-write_all :
    (ts : List Transition) (i : ℕ) (out : List FlatTransition)
    → fill_trans ts i out ≡ write_all (map listed_transition ts) i out
unfolding fill_trans write_all flat_transition
fill_trans-write_all [] i out = refl
fill_trans-write_all (t ∷ ts) i out =
    fill_trans-write_all ts (suc i) (set out i (listed_transition t))

pub fill_substates-write_all :
    (subs : List Substate) (us : List ℕ) (i : ℕ) (out : List FlatSubstate)
    → fill_substates subs us i out ≡ write_all (map (listed_substate subs) us) i out
unfolding fill_substates write_all flat_substate
fill_substates-write_all subs [] i out = refl
fill_substates-write_all subs (u ∷ us) i out =
    fill_substates-write_all subs us (suc i) (set out i (listed_substate subs u))

-- The accepting ones among the substates, in their order.
abbrev pub accepting_of : List Substate → List ℕ → List FlatSubstate
accepting_of subs [] = []
accepting_of subs (u ∷ us) =
    if is_accept (substate_at subs u).ss_type
    then listed_substate subs u ∷ accepting_of subs us
    else accepting_of subs us

pub length-accepting_of :
    (subs : List Substate) (us : List ℕ) → length (accepting_of subs us) ≡ count_accepting subs us
unfolding count_accepting
length-accepting_of subs [] = refl
length-accepting_of subs (u ∷ us) = ground (arith, length-accepting_of subs us)

pub fill_accepting-write_all :
    (subs : List Substate) (us : List ℕ) (base n : ℕ) (out : List FlatSubstate)
    → fill_accepting subs us base n out
      ≡ (write_all (accepting_of subs us) (base + n) out, n + length (accepting_of subs us))
unfolding fill_accepting write_all flat_substate
fill_accepting-write_all subs [] base n out = ground arith
fill_accepting-write_all subs (u ∷ us) base n out =
    elim (Bool-cases (is_accept (substate_at subs u).ss_type)) [
      | inl on ↦
          let rest =
            fill_accepting-write_all subs us base (suc n)
              (set out (base + n) (listed_substate subs u)) in
          let place : base + suc n ≡ suc (base + n) = omega arith in
          let count : suc n + length (accepting_of subs us)
              ≡ n + suc (length (accepting_of subs us)) =
            omega arith in
          let out' = set out (base + n) (listed_substate subs u) in
          rw on (rest ∙ λ i. (write_all (accepting_of subs us) (place i) out', count i))
      | inr off ↦ rw off (fill_accepting-write_all subs us base n out)
    ]
