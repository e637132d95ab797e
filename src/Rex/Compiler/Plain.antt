-- ===== src/Rex/Compiler/Plain.antt =====
-- What every state that the compiler makes is like: it is at its number, does not accept, and its
-- ranges are proper.
use rpatk.Base.{
  ℕ, zero, suc, ◌+◌, ◌<◌, ◌≤◌, ◌≡◌, refl, sym, ◌∙◌, false, Bool-cases, inl, inr, List, [], ◌∷◌,
  ◌++◌, length, set, arith, ◌==◌, ==_iff, ==→ne, get_or-set_self, get_or-set_ne, length-set,
  length-append,
}
use rpatk.Base.Slices.{get_or-append_last, get_or-append}
use mathlib.Core.Path.{subst}
use rpatk.Rex.Search.{bound_loop}
use rpatk.Rex.Transition.{Transition, char_max, transitions_add}
use rpatk.Rex.State.{
  Db, State, state_at, missing, none_state, createstate, state_create, addtransition,
  addtransition_e,
}
use rpatk.Rex.NfaSim.{is_accept}
use rpatk.Rex.DfaConv.Move.{IsRangeOf}
use rpatk.Rex.Fragment.{
  Fragment, Place, aim, aim_at, aim_state, aim_place, patch, fork, cat, opt, mop, mul, alt, nowhere,
}
use rpatk.Rex.Fragment.Places.{length-patch}
use rpatk.Rex.Compiler.{factor_char, factor_dot}

-- A patch changes transitions only.
pub patch_keeps :
    (P : State → Type 0)
    → ((p : Place) (t : ℕ) (s : State) → P s → P (aim_state p t s))
    → (db : Db) (ps : List Place) (t u : ℕ) → u < length db
    → P (state_at db u)
    → P (state_at (patch db ps t) u)
unfolding patch aim_place
patch_keeps P h db [] t u lt k = k
patch_keeps P h db (p ∷ ps) t u lt k =
    patch_keeps P h (aim_place db p t) ps t u
      (omega (arith, length-set db p.uid (aim_state p t (state_at db p.uid))))
      (elim (Bool-cases (p.uid == u)) [
        | inl same ↦
            let q = (==_iff p.uid u).0 same in
            subst (λ v. P (state_at (set db v (aim_state p t (state_at db v))) u)) (sym q)
              (subst P (sym (get_or-set_self db u (aim_state p t (state_at db u)) missing lt))
                (h p t (state_at db u) k))
        | inr other ↦ subst P (sym (get_or-set_ne db p.uid u _ missing (==→ne p.uid u other))) k
      ])

IsRangeOf-aim_at :
    (low high i t : ℕ) (ts : List Transition)
    → IsRangeOf low high (aim_at ts i t)
    → IsRangeOf low high ts
unfolding aim_at aim
IsRangeOf-aim_at low high i t [] h = h
IsRangeOf-aim_at low high zero t (x ∷ ts) h = h
IsRangeOf-aim_at low high (suc i) t (x ∷ ts) (inl h) = inl h
IsRangeOf-aim_at low high (suc i) t (x ∷ ts) (inr h) = inr (IsRangeOf-aim_at low high i t ts h)

-- The state is at its number, and its ranges are proper.
pub record IsSound (u : ℕ) (s : State) : Type 0 where
  pub numbered : s.uid ≡ u
  pub proper : (low high : ℕ) → IsRangeOf low high s.trans → (low ≤ high) × (high ≤ char_max)

-- and it does not accept
abbrev pub IsPlain : ℕ → State → Type 0
IsPlain u s = IsSound u s × (is_accept s.kind ≡ false)

pub aim-IsSound :
    (u : ℕ) (p : Place) (t : ℕ) (s : State) → IsSound u s → IsSound u (aim_state p t s)
unfolding aim_state
aim-IsSound u p t s h = elim (Bool-cases p.is_empty) [
  | inl k ↦ rw k (record { numbered = h.numbered; proper = h.proper })
  | inr k ↦ rw k (record {
    numbered = h.numbered;
    proper = λ low high r. h.proper low high (IsRangeOf-aim_at low high p.index t s.trans r);
  })
]

pub aim-IsPlain :
    (u : ℕ) (p : Place) (t : ℕ) (s : State) → IsPlain u s → IsPlain u (aim_state p t s)
unfolding aim_state
aim-IsPlain u p t s (h, k) =
    (aim-IsSound u p t s h, elim (Bool-cases p.is_empty) [ inl e ↦ rw e k | inr e ↦ rw e k ])

abbrev pub ArePlain : Db → Type 0
ArePlain db = (u : ℕ) → u < length db → IsPlain u (state_at db u)

patch-ArePlain : (db : Db) (ps : List Place) (t : ℕ) → ArePlain db → ArePlain (patch db ps t)
patch-ArePlain db ps t h u lt =
    let inside : u < length db = omega (arith, length-patch db ps t) in
    patch_keeps (IsPlain u) (aim-IsPlain u) db ps t u inside (h u inside)

-- A plain state behind the others.
grown-ArePlain :
    (db : Db) (s : State)
    → ArePlain db
    → IsPlain (length db) s
    → ArePlain (set (db ++ state_create (length db) none_state ∷ []) (length db) s)
grown-ArePlain db s h new u lt =
    let n = length db in
    let more = db ++ state_create n none_state ∷ [] in
    let size : length more ≡ n + 1 = length-append db (state_create n none_state ∷ []) in
    elim (Bool-cases (n == u)) [
      | inl same ↦
          let q = (==_iff n u).0 same in
          subst (λ v. IsPlain v (state_at (set more n s) v)) q
            (subst (IsPlain n) (sym (get_or-set_self more n s missing (omega (arith, size)))) new)
      | inr other ↦
          let old : u < n = omega (arith, size, ==→ne n u other, length-set more n s) in
          subst (IsPlain u)
            (sym (
              get_or-set_ne more n u s missing (==→ne n u other)
              ∙ get_or-append u db _ missing old))
            (h u old)
    ]

created :
    (db : Db)
    → state_at (createstate db none_state).0 (length db) ≡ state_create (length db) none_state
unfolding createstate
created db = get_or-append_last db (state_create (length db) none_state) missing

fork-ArePlain : (db : Db) (a b : ℕ) → ArePlain db → ArePlain (fork db a b).0
unfolding fork createstate addtransition_e state_create
fork-ArePlain db a b h = grown-ArePlain db _ h (
    subst (λ s. IsPlain (length db) (addtransition_e (addtransition_e s a) b)) (sym (created db))
      (record { numbered = refl; proper = λ low high r. absurd r }, refl))

char-ArePlain :
    (db : Db) (token : ℕ) → token ≤ char_max → ArePlain db → ArePlain (factor_char db token).0
unfolding factor_char createstate addtransition state_create transitions_add bound_loop
char-ArePlain db token le h = grown-ArePlain db _ h (
    subst (λ s. IsPlain (length db) (addtransition s token token nowhere)) (sym (created db))
      (record { numbered = refl; proper = λ low high r. ground arith }, refl))

dot-ArePlain : (db : Db) → ArePlain db → ArePlain (factor_dot db).0
unfolding factor_dot createstate addtransition state_create transitions_add bound_loop
dot-ArePlain db h = grown-ArePlain db _ h (
    subst
      (λ s. IsPlain (length db) (addtransition (addtransition s 0 9 nowhere) 11 char_max nowhere))
      (sym (created db)) (record { numbered = refl; proper = λ low high r. ground arith }, refl))

-- Every operation of the compiler keeps the states plain.
pub operations-ArePlain :
    (db : Db) (f g : Fragment) (token : ℕ)
    → token ≤ char_max
    → ArePlain db
    → ArePlain (cat db f g).0
      × ArePlain (alt db f g).0
      × ArePlain (opt db f).0
      × ArePlain (mop db f).0
      × ArePlain (mul db f).0
      × ArePlain (factor_char db token).0
      × ArePlain (factor_dot db).0
unfolding cat alt opt mop mul
operations-ArePlain db f g token le h = (
  patch-ArePlain db f.dangling g.sstate h,
  fork-ArePlain db f.sstate g.sstate h,
  fork-ArePlain db nowhere f.sstate h,
  patch-ArePlain (fork db nowhere f.sstate).0 f.dangling _ (fork-ArePlain db nowhere f.sstate h),
  patch-ArePlain (fork db f.sstate nowhere).0 f.dangling _ (fork-ArePlain db f.sstate nowhere h),
  char-ArePlain db token le h,
  dot-ArePlain db h,
)
