-- ===== src/Rex/Fragment/Places.antt =====
-- `rex_fragment_patch` by places: it aims exactly the transitions that it is given.
use rpatk.Base.{
  ℕ, zero, suc, ◌<◌, ◌≡◌, refl, sym, ap, ◌∙◌, Bool, true, false, ◌&&◌, ◌||◌, Bool-cases, inl, inr,
  List, [], ◌∷◌, map, length, get_or, set, length-set, get_or-set_self, get_or-set_ne, ◌==◌, ==_iff,
  ==→ne, arith, if◌then◌else◌,
}
use rpatk.Rex.Transition.{Transition, blank, trans_at}
use rpatk.Rex.State.{Db, State, missing, state_at}
use rpatk.Rex.Fragment.{Place, nowhere, aim, aim_at, aim_state, aim_place, patch}

abbrev pub same_bool : Bool → Bool → Bool
same_bool true b = b
same_bool false true = false
same_bool false false = true

abbrev pub is_place : Place → ℕ → Bool → ℕ → Bool
is_place p u e i = (p.uid == u) && (same_bool p.is_empty e && (p.index == i))

-- whether the places name the transition
unfoldable pub hit : List Place → ℕ → Bool → ℕ → Bool
hit [] u e i = false
hit (p ∷ ps) u e i = is_place p u e i || hit ps u e i

-- the empty transitions of a state, or the others
abbrev pub part : Bool → State → List Transition
part true s = s.etrans
part false s = s.trans

abbrev pub part_at : Db → ℕ → Bool → List Transition
part_at db u e = part e (state_at db u)

pub length-patch : (db : Db) (ps : List Place) (t : ℕ) → length (patch db ps t) ≡ length db
unfolding patch aim_place
length-patch db [] t = refl
length-patch db (p ∷ ps) t =
    length-patch (aim_place db p t) ps t ∙ length-set db p.uid (aim_state p t (state_at db p.uid))

part-aim_state :
    (p : Place) (t : ℕ) (s : State) (e : Bool)
    → part e (aim_state p t s)
      ≡ (if same_bool p.is_empty e then aim_at (part e s) p.index t else part e s)
unfolding aim_state
part-aim_state p t s true = elim (Bool-cases p.is_empty) [ inl h ↦ rw h refl | inr h ↦ rw h refl ]
part-aim_state p t s false = elim (Bool-cases p.is_empty) [ inl h ↦ rw h refl | inr h ↦ rw h refl ]

-- one write
part_at-aim_place :
    (db : Db) (p : Place) (t u : ℕ) (e : Bool)
    → u < length db
    → part_at (aim_place db p t) u e ≡ (
        if (p.uid == u) && same_bool p.is_empty e
        then aim_at (part_at db u e) p.index t
        else part_at db u e)
unfolding aim_place
part_at-aim_place db p t u e lt = elim (Bool-cases (p.uid == u)) [
  | inr other ↦
      let f = aim_state p t (state_at db p.uid) in
      rw other (ap (part e) (get_or-set_ne db p.uid u f missing (==→ne p.uid u other)))
  | inl same ↦
      let q : p.uid ≡ u = (==_iff p.uid u).0 same in
      rw same (
        ap (part e) (
          ap (λ n. get_or (set db n (aim_state p t (state_at db n))) u missing) q
          ∙ get_or-set_self db u (aim_state p t (state_at db u)) missing lt)
        ∙ part-aim_state p t (state_at db u) e)
]

length-aim_at : (ts : List Transition) (i t : ℕ) → length (aim_at ts i t) ≡ length ts
unfolding aim_at
length-aim_at ts i t = length-set ts i (aim t (trans_at ts i))

trans_at-aim_at :
    (ts : List Transition) (i j t : ℕ)
    → j < length ts
    → trans_at (aim_at ts i t) j ≡ (if i == j then aim t (trans_at ts j) else trans_at ts j)
unfolding aim_at
trans_at-aim_at ts i j t lt = elim (Bool-cases (i == j)) [
  | inl same ↦
      let q : i ≡ j = (==_iff i j).0 same in
      rw same (
        ap (λ n. trans_at (set ts n (aim t (trans_at ts n))) j) q
        ∙ get_or-set_self ts j (aim t (trans_at ts j)) blank lt)
  | inr other ↦ rw other (get_or-set_ne ts i j (aim t (trans_at ts i)) blank (==→ne i j other))
]

-- one transition after one write
trans_at-aim_place :
    (db : Db) (p : Place) (t u : ℕ) (e : Bool) (j : ℕ)
    → u < length db
    → j < length (part_at db u e)
    → trans_at (part_at (aim_place db p t) u e) j ≡ (
        if is_place p u e j
        then aim t (trans_at (part_at db u e) j)
        else trans_at (part_at db u e) j)
trans_at-aim_place db p t u e j lt inside =
    ap (λ ts. trans_at ts j) (part_at-aim_place db p t u e lt)
    ∙ ground (arith, trans_at-aim_at (part_at db u e) p.index j t inside)

length-aim_place :
    (db : Db) (p : Place) (t u : ℕ) (e : Bool)
    → u < length db
    → length (part_at (aim_place db p t) u e) ≡ length (part_at db u e)
length-aim_place db p t u e lt =
    ap length (part_at-aim_place db p t u e lt)
    ∙ ground (arith, length-aim_at (part_at db u e) p.index t)

db_size : (db : Db) (p : Place) (t : ℕ) → length (aim_place db p t) ≡ length db
unfolding aim_place
db_size db p t = length-set db p.uid (aim_state p t (state_at db p.uid))

length-patch_part :
    (db : Db) (ps : List Place) (t u : ℕ) (e : Bool)
    → u < length db
    → length (part_at (patch db ps t) u e) ≡ length (part_at db u e)
unfolding patch
length-patch_part db [] t u e lt = refl
length-patch_part db (p ∷ ps) t u e lt =
    length-patch_part (aim_place db p t) ps t u e (omega (arith, db_size db p t))
    ∙ length-aim_place db p t u e lt

aimed_if : Bool → ℕ → Transition → Transition
aimed_if b t x = if b then aim t x else x

aimed_twice :
    (a b : Bool) (t : ℕ) (x : Transition) → aimed_if a t (aimed_if b t x) ≡ aimed_if (b || a) t x
unfolding aimed_if aim
aimed_twice true true t x = refl
aimed_twice true false t x = refl
aimed_twice false true t x = refl
aimed_twice false false t x = refl

-- every transition after the patch
trans_at-patch :
    (db : Db) (ps : List Place) (t u : ℕ) (e : Bool) (j : ℕ)
    → u < length db
    → j < length (part_at db u e)
    → trans_at (part_at (patch db ps t) u e) j
      ≡ aimed_if (hit ps u e j) t (trans_at (part_at db u e) j)
unfolding patch hit aimed_if
trans_at-patch db [] t u e j lt inside = refl
trans_at-patch db (p ∷ ps) t u e j lt inside =
    trans_at-patch (aim_place db p t) ps t u e j (omega (arith, db_size db p t))
      (omega (arith, length-aim_place db p t u e lt))
    ∙ ap (aimed_if (hit ps u e j) t) (trans_at-aim_place db p t u e j lt inside)
    ∙ aimed_twice (hit ps u e j) (is_place p u e j) t (trans_at (part_at db u e) j)

list-ext :
    (xs ys : List Transition)
    → length xs ≡ length ys
    → ((i : ℕ) → i < length xs → trans_at xs i ≡ trans_at ys i)
    → xs ≡ ys
list-ext [] [] size h = refl
list-ext [] (y ∷ ys) size h = absurd (omega arith)
list-ext (x ∷ xs) [] size h = absurd (omega arith)
list-ext (x ∷ xs) (y ∷ ys) size h =
    let rest = list-ext xs ys (omega arith) (λ i lt. h (suc i) (omega arith)) in
    cc (h 0 (omega arith))

-- a dangling transition is aimed, any other stays
unfoldable pub redirect : ℕ → Transition → Transition
redirect t x = if x.dstuid == nowhere then aim t x else x

pub trans_at-map :
    (t i : ℕ) (xs : List Transition)
    → i < length xs
    → trans_at (map (redirect t) xs) i ≡ redirect t (trans_at xs i)
trans_at-map t i [] lt = elim lt [ ]
trans_at-map t zero (x ∷ xs) lt = refl
trans_at-map t (suc i) (x ∷ xs) lt = trans_at-map t i xs (omega arith)

pub length-map : (t : ℕ) (xs : List Transition) → length (map (redirect t) xs) ≡ length xs
length-map t [] = refl
length-map t (x ∷ xs) = ap suc (length-map t xs)

module _ (db : Db) (ps : List Place) (t u : ℕ) (e : Bool) (lt : u < length db) where
  -- A patch with the places of all dangling transitions of the list.
  pub part_at-patch :
      ((i : ℕ)
        → i < length (part_at db u e)
        → hit ps u e i ≡ ((trans_at (part_at db u e) i).dstuid == nowhere))
      → part_at (patch db ps t) u e ≡ map (redirect t) (part_at db u e)
  unfolding redirect aimed_if
  part_at-patch exact =
      let size = length-patch_part db ps t u e lt in
      list-ext (part_at (patch db ps t) u e) (map (redirect t) (part_at db u e))
        (size ∙ sym (length-map t (part_at db u e)))
        (λ i inside.
          let room : i < length (part_at db u e) = omega (arith, size) in
          trans_at-patch db ps t u e i lt room
          ∙ ap (λ b. aimed_if b t (trans_at (part_at db u e) i)) (exact i room)
          ∙ sym (trans_at-map t i (part_at db u e) room))

  -- A patch with none of them.
  pub part_at-patch_away :
      ((i : ℕ) → i < length (part_at db u e) → hit ps u e i ≡ false)
      → part_at (patch db ps t) u e ≡ part_at db u e
  unfolding aimed_if
  part_at-patch_away none_ =
      let size = length-patch_part db ps t u e lt in
      list-ext (part_at (patch db ps t) u e) (part_at db u e) size (λ i inside.
        let room : i < length (part_at db u e) = omega (arith, size) in
        trans_at-patch db ps t u e i lt room
        ∙ ap (λ b. aimed_if b t (trans_at (part_at db u e) i)) (none_ i room))
