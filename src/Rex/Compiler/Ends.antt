-- ===== src/Rex/Compiler/Ends.antt =====
-- The end of `rex_compiler_expression`: the automaton of the expression.
use rpatk.Base.{
  ℕ, zero, suc, ◌<◌, ◌≡◌, ◌≢◌, ◌↔◌, refl, sym, ap, ◌∙◌, Bool, true, false, ◌==◌, ==→ne, ==_iff,
  Bool-cases, inl, inr, Option, none, some, List, [], ◌∷◌, ◌++◌, length, arith, set, length-set,
  length-append, get_or-set_self, get_or-set_ne,
}
use rpatk.Base.Slices.{get_or-append_last, get_or-append}
use mathlib.Core.Path.{subst}
use rpatk.Rex.State.{
  Db, State, state_at, missing, start, accept, createstate, state_create, setuserdata,
}
use rpatk.Rex.Fragment.{Fragment, Place, nowhere, fragment, cat, patch, aim_state}
use rpatk.Rex.Fragment.Places.{part_at, part, length-patch}
use rpatk.Rex.Fragment.Traces.{
  Trace, Edge, Reads, Redirected, Trace-forth, Trace-back, aimed, aimed_away,
}
use rpatk.Rex.Fragment.Built.{IsFragment, patch-Redirected, patch_outside}
use rpatk.Rex.Fragment.Frame.{Keeps, IsFragment-Keeps}
use rpatk.Rex.Compiler.{expression_end}
use rpatk.Rex.Compiler.Plain.{patch_keeps}

-- a write that leaves the transitions of the state
part_at-set :
    (db : Db) (u v : ℕ) (s : State) (e : Bool)
    → u < length db
    → part e s ≡ part_at db u e
    → part_at (set db u s) v e ≡ part_at db v e
part_at-set db u v s e lt same = elim (Bool-cases (u == v)) [
  | inl h ↦
      let q = (==_iff u v).0 h in
      subst (λ x. part_at (set db u s) x e ≡ part_at db x e) q
        (ap (part e) (get_or-set_self db u s missing lt) ∙ same)
  | inr h ↦ ap (part e) (get_or-set_ne db u v s missing (==→ne u v h))
]

append_nil : (xs : List ℕ) → (xs ++ []) ≡ xs
append_nil [] = refl
append_nil (x ∷ xs) = ap (λ ys. x ∷ ys) (append_nil xs)

-- what is said of the accepting state
abbrev IsEnd : ℕ → State → Type 0
IsEnd userdata s = (s.kind ≡ accept) × (s.userdata ≡ userdata)

aim-IsEnd : (x : ℕ) (p : Place) (t : ℕ) (s : State) → IsEnd x s → IsEnd x (aim_state p t s)
unfolding aim_state
aim-IsEnd x p t s h = elim (Bool-cases p.is_empty) [ inl k ↦ rw k h | inr k ↦ rw k h ]

module _ (db : Db) (f : Fragment) (lo hi : ℕ) (h : IsFragment db f lo hi)
    (small : length db < nowhere) (x : ℕ) where
  abbrev new : State
  new = setuserdata (state_at (createstate db accept).0 (length db)) x

  abbrev pub ended : Db
  ended = set (createstate db accept).0 (length db) new

  abbrev pub patched : Db
  patched = patch ended f.dangling (length db)

  abbrev pub done : Db
  done = (expression_end db f x).0

  pub length-ended : length ended ≡ suc (length db)
  unfolding createstate
  length-ended =
      length-set (db ++ state_create (length db) accept ∷ []) (length db) new
      ∙ length-append db (state_create (length db) accept ∷ [])
      ∙ omega arith

  pub ended_last : state_at ended (length db) ≡ setuserdata (state_create (length db) accept) x
  unfolding createstate
  ended_last =
      get_or-set_self (db ++ state_create (length db) accept ∷ []) (length db) new missing
        (omega (arith, length-append db (state_create (length db) accept ∷ [])))
      ∙ ap (λ s. setuserdata s x) (get_or-append_last db (state_create (length db) accept) missing)

  pub ended_old : (u : ℕ) → u < length db → state_at ended u ≡ state_at db u
  unfolding createstate
  ended_old u lt =
      get_or-set_ne (db ++ state_create (length db) accept ∷ []) (length db) u new missing
        (λ q. omega arith)
      ∙ get_or-append u db _ missing lt

  ended-Keeps : Keeps db ended lo hi
  ended-Keeps u e w = let r = h.room in ap (part e) (ended_old u (omega arith))

  pub now : IsFragment ended f lo hi × ((w : List ℕ) → Reads ended f w ↔ Reads db f w)
  now =
      let grown = length-ended in
      IsFragment-Keeps db ended f lo hi h ended-Keeps (omega arith) (omega arith)

  pub start_in : f.sstate < length patched
  start_in =
      let b = h.begins in
      let r = h.room in omega (arith, length-ended, length-patch ended f.dangling (length db))

  done_part : (u : ℕ) (e : Bool) → part_at done u e ≡ part_at patched u e
  unfolding expression_end createstate cat fragment
  done_part u e =
      part_at-set patched f.sstate u (record (state_at patched f.sstate) { kind = start }) e
        start_in
        (elim e
          as (λ b.
            part b (record (state_at patched f.sstate) { kind = start })
            ≡ part b (state_at patched f.sstate)) [ true ↦ refl | false ↦ refl ])

  pub done-Redirected : Redirected ended done lo hi (length db)
  done-Redirected u e w = done_part u e ∙ patch-Redirected ended f lo hi now.0 (length db) u e w

  pub done_last : (e : Bool) → part_at done (length db) e ≡ part_at ended (length db) e
  done_last e =
      let r = h.room in
      done_part (length db) e
      ∙ patch_outside ended f lo hi now.0 (length db) (length db) e (omega (arith, length-ended))
          (inr (omega arith))

  pub last_empty : (e : Bool) → part_at ended (length db) e ≡ []
  unfolding setuserdata state_create
  last_empty true = ap (part true) ended_last
  last_empty false = ap (part false) ended_last

  stop : (o : Option ℕ) (d : ℕ) → ¬ (Edge done (length db) o d)
  stop none d (i, lt, fit, q) =
      elim (subst (λ ts. i < length ts) (done_last true ∙ last_empty true) lt) [ ]
  stop (some c) d (i, lt, fit, q) =
      elim (subst (λ ts. i < length ts) (done_last false ∙ last_empty false) lt) [ ]

  stopped : (m : ℕ) (w : List ℕ) → Trace done m (length db) w (length db) → w ≡ []
  unfolding Trace
  stopped zero w (q, z) = z
  stopped (suc m) w (o, y, d, p, e, t) = absurd (stop o d e)

  begin : aimed (length db) f.sstate ≡ f.sstate
  begin = let b = h.begins in let r = h.room in aimed_away (length db) f.sstate (omega arith)

  done-IsEnd : IsEnd x (state_at done (length db))
  unfolding expression_end createstate cat fragment setuserdata state_create
  done-IsEnd =
      let b = h.begins in
      let r = h.room in
      subst (IsEnd x)
        (sym (
          get_or-set_ne patched f.sstate (length db)
            (record (state_at patched f.sstate) { kind = start }) missing (λ q. omega arith)))
        (patch_keeps (IsEnd x) (aim-IsEnd x) ended f.dangling (length db) (length db)
          (omega (arith, length-ended)) (subst (IsEnd x) (sym ended_last) (refl, refl)))

  start_state : (state_at done f.sstate).kind ≡ start
  unfolding expression_end createstate cat fragment
  start_state =
      ap (λ s. s.kind)
        (get_or-set_self patched f.sstate (record (state_at patched f.sstate) { kind = start })
          missing start_in)

  Reads-done : (m : ℕ) (w : List ℕ) → Trace done m f.sstate w (length db) → Reads db f w
  unfolding Reads
  Reads-done m w t =
      let r = h.room in
      let g = now.0 in
      let (k, j, a, b, q, first, after, sum) =
        Trace-back ended done lo hi (length db) g.stays done-Redirected g.room g.small m f.sstate
          (length db) w (inl g.begins) (inr r)
          (subst (λ u. Trace done m u w (length db)) (sym begin) t) in
      let all : w ≡ a = q ∙ ap (λ c. a ++ c) (stopped j b after) ∙ append_nil a in
      (now.1 w).0 (subst (Reads ended f) (sym all) (k, first))

  done-Reads : (w : List ℕ) → Reads db f w → (m : ℕ) × Trace done m f.sstate w (length db)
  unfolding Reads
  done-Reads w k =
      let g = now.0 in
      let (m, t) = (now.1 w).1 k in
      (
        m,
        subst (λ u. Trace done m u w (length db)) begin
            (Trace-forth ended done lo hi (length db) g.stays done-Redirected g.room g.small m
              f.sstate w (inl g.begins) t),
      )

  pub done_start : state_at done f.sstate ≡ record (state_at patched f.sstate) { kind = start }
  unfolding expression_end createstate cat fragment
  done_start =
      get_or-set_self patched f.sstate (record (state_at patched f.sstate) { kind = start }) missing
        start_in

  pub done_others : (u : ℕ) → f.sstate ≢ u → state_at done u ≡ state_at patched u
  unfolding expression_end createstate cat fragment
  done_others u other =
      get_or-set_ne patched f.sstate u (record (state_at patched f.sstate) { kind = start }) missing
        other

  pub length-done : length done ≡ suc (length db)
  unfolding expression_end createstate cat fragment
  length-done =
      length-set patched f.sstate (record (state_at patched f.sstate) { kind = start })
      ∙ length-patch ended f.dangling (length db)
      ∙ length-ended

  -- The result is the start of the fragment, of type START, from which exactly the words of the
  -- fragment lead to the state that was added, and that one is of type ACCEPT with the user data.
  pub expression_end_lem :
      ((expression_end db f x).1 ≡ f.sstate)
      × ((state_at (expression_end db f x).0 f.sstate).kind ≡ start)
      × ((state_at (expression_end db f x).0 (length db)).kind ≡ accept)
      × ((state_at (expression_end db f x).0 (length db)).userdata ≡ x)
      × ((w : List ℕ)
          → ((m : ℕ) × Trace (expression_end db f x).0 m (expression_end db f x).1 w (length db))
            ↔ Reads db f w)
  unfolding expression_end createstate cat fragment
  expression_end_lem =
      let (accepts, data_) = done-IsEnd in
      (refl, start_state, accepts, data_, λ w. (λ (m, t). Reads-done m w t, done-Reads w))
