-- ===== src/Rex/Compiler/Single.antt =====
-- The fragments of one state: a character, a dot, nothing.
use rpatk.Base.{
  ℕ, zero, suc, ◌+◌, ◌-◌, ◌<◌, ◌≤◌, ◌≡◌, ◌≢◌, ◌↔◌, refl, sym, ap, ◌∙◌, Bool-cases, inl, inr, List,
  [], ◌∷◌, length, arith, ltb,
}
use rpatk.Base.Slices.{get_or-append_last}
use mathlib.Core.Path.{subst}
use rpatk.Rex.Transition.{
  Transition, trans_at, char_max, ordered, input, empty, transitions_add, transitions_add_e,
}
use rpatk.Rex.Transition.Moves.{Moves}
use rpatk.Rex.Search.{bound_loop}
use rpatk.Rex.State.{
  Db, State, state_at, missing, none_state, createstate, state_create, addtransition,
  addtransition_e,
}
use rpatk.Rex.Fragment.{nowhere}
use rpatk.Rex.Fragment.Traces.{Reads}
use rpatk.Rex.Fragment.Built.{IsFragment}
use rpatk.Rex.Compiler.{factor_char, factor_dot, qfactor_zero}
use rpatk.Rex.Compiler.OneState.{new-Moves, new_empty, one_end}

two_ends :
    (t s : Transition)
    → t.dstuid ≡ nowhere
    → s.dstuid ≡ nowhere
    → (i : ℕ) → i < length (t ∷ s ∷ [])
    → (trans_at (t ∷ s ∷ []) i).dstuid ≡ nowhere
two_ends t s q r zero lt = q
two_ends t s q r (suc zero) lt = r
two_ends t s q r (suc (suc i)) lt = absurd (omega arith)

-- a dangling range of the state `n`
abbrev range : ℕ → ℕ → ℕ → Transition
range low high n = record { kind = input; lowin = low; highin = high; srcuid = n; dstuid = nowhere }

ordered_same : (c n : ℕ) → ordered c c n nowhere ≡ range c c n
ordered_same c n = elim (Bool-cases (ltb c c)) [ inl h ↦ rw h refl | inr h ↦ rw h refl ]

one_character :
    (t : Transition) (c : ℕ) → Moves (t ∷ []) c nowhere → t.lowin ≡ t.highin → c ≡ t.lowin
one_character t c (inl (cover, q)) same = omega arith
one_character t c (inr h) same = absurd h

not_feed :
    (n c : ℕ) → Moves (range 0 9 n ∷ range 11 char_max n ∷ []) c nowhere → (c ≢ 10) × (c ≤ char_max)
not_feed n c (inl (cover, q)) = (λ e. omega arith, omega arith)
not_feed n c (inr (inl (cover, q))) = (λ e. omega arith, omega arith)
not_feed n c (inr (inr h)) = absurd h

feed_not :
    (n c : ℕ) → c ≢ 10 → c ≤ char_max → Moves (range 0 9 n ∷ range 11 char_max n ∷ []) c nowhere
feed_not n c other top = elim (Bool-cases (ltb c 10)) [
  | inl h ↦ inl (ground arith, refl)
  | inr h ↦ inr (inl (ground arith, refl))
]

module _ (db : Db) (small : length db < nowhere) where
  created : state_at (createstate db none_state).0 (length db) ≡ state_create (length db) none_state
  unfolding createstate
  created = get_or-append_last db (state_create (length db) none_state) missing

  -- A character's fragment reads that character.
  pub factor_char_lem :
      (token : ℕ)
      → IsFragment (factor_char db token).0 (factor_char db token).1 (length db) (suc (length db))
        × ((w : List ℕ)
            → Reads (factor_char db token).0 (factor_char db token).1 w ↔ (w ≡ token ∷ []))
  unfolding factor_char createstate addtransition state_create transitions_add bound_loop
  factor_char_lem token =
      let n = length db in
      let s = addtransition (state_at (createstate db none_state).0 n) token token nowhere in
      let t = range token token n in
      let trans : s.trans ≡ t ∷ [] =
        ap (λ x. (addtransition x token token nowhere).trans) created
        ∙ ap (λ x. x ∷ []) (ordered_same token n) in
      let etrans : s.etrans ≡ [] = ap (λ x. (addtransition x token token nowhere).etrans) created in
      let (is_fragment, reads) = new-Moves db s small etrans (
        subst (λ ts. (i : ℕ) → i < length ts → (trans_at ts i).dstuid ≡ nowhere) (sym trans)
          (one_end t refl)) in
      (
        is_fragment,
        λ w. (
          λ r.
              let (c, p, h) = (reads w).0 r in
              p
              ∙ ap (λ x. x ∷ [])
                  (one_character t c (subst (λ ts. Moves ts c nowhere) trans h) refl),
          λ p. (reads w).1 (
            token,
            p,
            subst (λ ts. Moves ts token nowhere) (sym trans) (inl (omega arith, refl)),
          ),
        ),
      )

  -- A dot's fragment reads any character but a line feed.
  pub factor_dot_lem :
      IsFragment (factor_dot db).0 (factor_dot db).1 (length db) (suc (length db))
      × ((w : List ℕ)
          → Reads (factor_dot db).0 (factor_dot db).1 w
            ↔ ((c : ℕ) × (w ≡ c ∷ []) × (c ≢ 10) × (c ≤ char_max)))
  unfolding factor_dot createstate addtransition state_create transitions_add bound_loop
  factor_dot_lem =
      let n = length db in
      let make : State → State =
        λ x. addtransition (addtransition x 0 (10 - 1) nowhere) (10 + 1) char_max nowhere in
      let s = make (state_at (createstate db none_state).0 n) in
      let below = range 0 9 n in
      let above = range 11 char_max n in
      let trans : s.trans ≡ below ∷ above ∷ [] = ap (λ x. (make x).trans) created in
      let etrans : s.etrans ≡ [] = ap (λ x. (make x).etrans) created in
      let (is_fragment, reads) = new-Moves db s small etrans (
        subst (λ ts. (i : ℕ) → i < length ts → (trans_at ts i).dstuid ≡ nowhere) (sym trans)
          (two_ends below above refl refl)) in
      (
        is_fragment,
        λ w. (
          λ r.
              let (c, p, h) = (reads w).0 r in
              let (other, top) = not_feed n c (subst (λ ts. Moves ts c nowhere) trans h) in
              (c, p, other, top),
          λ (c, p, other, top).
              (reads w).1
                (c, p, subst (λ ts. Moves ts c nowhere) (sym trans) (feed_not n c other top)),
        ),
      )

  -- The fragment of `{0}` reads the empty word.
  pub qfactor_zero_lem :
      IsFragment (qfactor_zero db).0 (qfactor_zero db).1 (length db) (suc (length db))
      × ((w : List ℕ) → Reads (qfactor_zero db).0 (qfactor_zero db).1 w ↔ (w ≡ []))
  unfolding qfactor_zero createstate addtransition_e state_create transitions_add_e
  qfactor_zero_lem =
      let make : State → State = λ x. addtransition_e x nowhere in
      new_empty db (make (state_at (createstate db none_state).0 (length db))) small
        (record { kind = empty; lowin = 0; highin = 0; srcuid = length db; dstuid = nowhere }) refl
        (ap (λ x. (make x).etrans) created) (ap (λ x. (make x).trans) created)
