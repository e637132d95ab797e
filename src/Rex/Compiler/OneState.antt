-- ===== src/Rex/Compiler/OneState.antt =====
-- What a fragment of one state reads: rex/rexcompiler.c makes one for a character.
use rpatk.Base.{
  ℕ, zero, suc, ◌<◌, ◌≤◌, ◌≡◌, ◌⊎◌, ◌↔◌, refl, sym, ap, ◌∙◌, Bool, true, false, ◌&&◌, inl, Option,
  none, some, List, [], ◌∷◌, ◌++◌, length, arith, ◌==◌, set, length-set, length-append,
  get_or-set_self,
}
use mathlib.Core.Path.{subst}
use rpatk.Rex.Transition.{Transition, trans_at}
use rpatk.Rex.Transition.Moves.{Moves, Moves-trans_at, trans_at-Moves}
use rpatk.Rex.State.{Db, State, missing, none_state, state_create}
use rpatk.Rex.Fragment.{nowhere, fragment}
use rpatk.Rex.Fragment.Places.{part_at, part, hit}
use rpatk.Rex.Fragment.Named.{dangles, hit-add_dangling}
use rpatk.Rex.Fragment.Traces.{Trace, Edge, Reads, letter, Trace-nowhere}
use rpatk.Rex.Fragment.Built.{IsFragment, within}

within_one : (n u : ℕ) → within n (suc n) u ≡ (n == u)
within_one n u = ground arith

-- the last state of the database, with all its transitions dangling
module _ (db : Db) (n : ℕ) (last : length db ≡ suc n) (small : length db ≤ nowhere)
    (ends : (e : Bool) (i : ℕ)
      → i < length (part_at db n e)
      → (trans_at (part_at db n e) i).dstuid ≡ nowhere) where
  single-IsFragment : IsFragment db (fragment db n) n (suc n)
  unfolding fragment hit
  single-IsFragment = record {
    begins = omega arith;
    room = omega arith;
    small = small;
    stays = λ u e i w lt.
        let q : n ≡ u = omega arith in
        subst
          (λ v.
            i < length (part_at db v e)
            → ((trans_at (part_at db v e) i).dstuid ≡ nowhere)
              ⊎ ((n ≤ (trans_at (part_at db v e) i).dstuid)
                  × ((trans_at (part_at db v e) i).dstuid < suc n)))
          q (λ k. inl (ends e i k)) lt;
    named = λ u e i.
        hit-add_dangling db [] n u e i ∙ ap (λ b. b && dangles db u e i) (sym (within_one n u));
  }

  Edge-end : (o : Option ℕ) (d : ℕ) → Edge db n o d → d ≡ nowhere
  Edge-end none d (i, lt, fit, q) = q ∙ ends true i lt
  Edge-end (some c) d (i, lt, fit, q) = q ∙ ends false i lt

  Reads-single :
      (m : ℕ) (w : List ℕ)
      → Trace db m n w nowhere
      → (o : Option ℕ) × (w ≡ letter o []) × Edge db n o nowhere
  unfolding Trace
  Reads-single zero w (q, z) = absurd (omega arith)
  Reads-single (suc m) w (o, x, d, p, e, t) =
      let out = Edge-end o d e in
      let nil : x ≡ [] =
        Trace-nowhere db m nowhere x small (subst (λ v. Trace db m v x nowhere) out t) in
      (o, p ∙ ap (letter o) nil, subst (Edge db n o) out e)

  single-Reads :
      (w : List ℕ)
      → Reads db (fragment db n) w ↔ ((o : Option ℕ) × (w ≡ letter o []) × Edge db n o nowhere)
  unfolding Reads fragment Trace
  single-Reads w =
      (λ (m, t). Reads-single m w t, λ (o, p, e). (1, (o, [], nowhere, p, e, (refl, refl))))

  module _ (no_empty : part_at db n true ≡ []) where
    move_of :
        (w : List ℕ) (o : Option ℕ)
        → w ≡ letter o []
        → Edge db n o nowhere
        → (c : ℕ) × (w ≡ c ∷ []) × Moves (part_at db n false) c nowhere
    move_of w none p (i, lt, fit, q) = elim (subst (λ ts. i < length ts) no_empty lt) [ ]
    move_of w (some c) p (i, lt, fit, q) = (
      c,
      p,
      subst (Moves (part_at db n false) c) (sym q) (trans_at-Moves (part_at db n false) i c lt fit),
    )

    -- a state without empty transitions
    Moves-Reads :
        (w : List ℕ)
        → Reads db (fragment db n) w
          ↔ ((c : ℕ) × (w ≡ c ∷ []) × Moves (part_at db n false) c nowhere)
    Moves-Reads w = (
      λ k. let (o, p, e) = (single-Reads w).0 k in move_of w o p e,
      λ (c, p, k). (single-Reads w).1 (some c, p, Moves-trans_at (part_at db n false) c nowhere k),
    )

pub one_end :
    (t : Transition)
    → t.dstuid ≡ nowhere
    → (i : ℕ) → i < length (t ∷ [])
    → (trans_at (t ∷ []) i).dstuid ≡ nowhere
one_end t q zero lt = q
one_end t q (suc i) lt = absurd (omega arith)

-- a new state, of which `s` was made
module _ (db : Db) (s : State) (small : length db < nowhere) where
  abbrev pub with_state : Db
  with_state = set (db ++ state_create (length db) none_state ∷ []) (length db) s

  length-with_state : length with_state ≡ suc (length db)
  length-with_state =
      length-set (db ++ state_create (length db) none_state ∷ []) (length db) s
      ∙ length-append db (state_create (length db) none_state ∷ [])
      ∙ omega arith

  part_last : (e : Bool) → part_at with_state (length db) e ≡ part e s
  part_last e = ap (part e) (
      get_or-set_self (db ++ state_create (length db) none_state ∷ []) (length db) s missing
        (omega (arith, length-append db (state_create (length db) none_state ∷ []))))

  -- its transitions
  new_ends :
      ((e : Bool) (i : ℕ) → i < length (part e s) → (trans_at (part e s) i).dstuid ≡ nowhere)
      → (e : Bool) (i : ℕ) → i < length (part_at with_state (length db) e)
      → (trans_at (part_at with_state (length db) e) i).dstuid ≡ nowhere
  new_ends h e i =
      subst (λ ts. i < length ts → (trans_at ts i).dstuid ≡ nowhere) (sym (part_last e)) (h e i)

  -- one with transitions on characters, which all dangle
  pub new-Moves :
      s.etrans ≡ []
      → ((i : ℕ) → i < length s.trans → (trans_at s.trans i).dstuid ≡ nowhere)
      → IsFragment with_state (fragment with_state (length db)) (length db) (suc (length db))
        × ((w : List ℕ)
            → Reads with_state (fragment with_state (length db)) w
              ↔ ((c : ℕ) × (w ≡ c ∷ []) × Moves s.trans c nowhere))
  new-Moves no_empty dangling =
      let n = length db in
      let grown = length-with_state in
      let ends = new_ends (λ e.
        elim e
          as (λ b. (i : ℕ) → i < length (part b s) → (trans_at (part b s) i).dstuid ≡ nowhere) [
            | true ↦ λ i lt. elim (subst (λ ts. i < length ts) no_empty lt) [ ]
            | false ↦ dangling
          ]) in
      let same : part_at with_state n false ≡ s.trans = part_last false in
      (
        single-IsFragment with_state n grown (omega arith) ends,
        λ w.
            let k =
              Moves-Reads with_state n grown (omega arith) ends (part_last true ∙ no_empty) w in
            (
              λ r. let (c, p, h) = k.0 r in (c, p, subst (λ ts. Moves ts c nowhere) same h),
              λ (c, p, h). k.1 (c, p, subst (λ ts. Moves ts c nowhere) (sym same) h),
            ),
      )

  -- one with an empty transition, which dangles
  nothing_of :
      s.trans ≡ []
      → (w : List ℕ) (o : Option ℕ) → w ≡ letter o []
      → Edge with_state (length db) o nowhere
      → w ≡ []
  nothing_of no_moves w none p e = p
  nothing_of no_moves w (some c) p (i, lt, fit, q) =
      elim (subst (λ ts. i < length ts) (part_last false ∙ no_moves) lt) [ ]

  pub new_empty :
      (t : Transition)
      → t.dstuid ≡ nowhere
      → s.etrans ≡ t ∷ []
      → s.trans ≡ []
      → IsFragment with_state (fragment with_state (length db)) (length db) (suc (length db))
        × ((w : List ℕ) → Reads with_state (fragment with_state (length db)) w ↔ (w ≡ []))
  new_empty t out ways no_moves =
      let n = length db in
      let grown = length-with_state in
      let ends = new_ends (λ e.
        elim e
          as (λ b. (i : ℕ) → i < length (part b s) → (trans_at (part b s) i).dstuid ≡ nowhere) [
            | true ↦
                subst (λ ts. (i : ℕ) → i < length ts → (trans_at ts i).dstuid ≡ nowhere) (sym ways)
                  (one_end t out)
            | false ↦ λ i lt. elim (subst (λ ts. i < length ts) no_moves lt) [ ]
          ]) in
      let all : part_at with_state n true ≡ t ∷ [] = part_last true ∙ ways in
      let edge : Edge with_state n none nowhere = (
        0,
        subst (λ ts. 0 < length ts) (sym all) (omega arith),
        tt,
        sym (ap (λ ts. (trans_at ts 0).dstuid) all ∙ out),
      ) in
      (
        single-IsFragment with_state n grown (omega arith) ends,
        λ w.
            let k = single-Reads with_state n grown (omega arith) ends w in
            (λ r. let (o, p, e) = k.0 r in nothing_of no_moves w o p e, λ p. k.1 (none, p, edge)),
      )
