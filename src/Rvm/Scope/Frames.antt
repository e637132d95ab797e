-- ===== src/Rvm/Scope/Frames.antt =====
-- What a scope hides comes back when it is popped, and the search finds the innermost variable.
use rpatk.Base.{
  ℕ, suc, ◌-◌, ◌%◌, ◌^◌, ◌<◌, ◌≤◌, ◌≡◌, ◌≢◌, ◌⊎◌, ◌↔◌, true, Bool-cases, refl, sym, ap, ◌∙◌, inl,
  inr, Option, Option-cases, none, some, List, [], ◌∷◌, ◌++◌, length, take, ne→==, arith,
}
use mathlib.Core.Path.{subst}
use rpatk.RHash.Names.{ZeroFree, same_prefix-equal, same_prefix_self}
use mathlib.Core.List.{append-nil, append_assoc}
use rpatk.RHash.{lookup_object}
use rpatk.Rvm.CodeMap.{name_key}
use rpatk.Base.Slices.{take-length}
use rpatk.Rvm.Scope.{
  Scope, VarMap, VarData, addname, push, split_last, pop_scope, addvar, lookup_from, scope_lookup,
  tipstart, tiplookup, strlen, matches,
}

split_last-append : (xs : List ℕ) (x : ℕ) → split_last (xs ++ x ∷ []) ≡ some (xs, x)
unfolding split_last
split_last-append [] x = refl
split_last-append (y ∷ xs) x = rw (split_last-append xs x, split_last) refl

-- a list of variables added one after another
unfoldable pub add_all : Scope → List (List ℕ × VarData) → Scope
add_all s [] = s
add_all s ((name, at) ∷ vars) = add_all (addvar s name at) vars

abbrev pub entries : List (List ℕ × VarData) → List VarMap
entries [] = []
entries ((name, at) ∷ vars) = record { name = name; data_ = at } ∷ entries vars

record Keeps (s t : Scope) (new : List VarMap) : Type 0 where
  vars : t.varstack ≡ s.varstack ++ new
  scopes : t.scopestack ≡ s.scopestack

addname-same :
    (s : Scope) (name : List ℕ)
    → ((addname s name).varstack ≡ s.varstack) × ((addname s name).scopestack ≡ s.scopestack)
unfolding addname
addname-same s name = elim (Option-cases (lookup_object s.nameshash name)) [
  | inl new ↦ rw (addname, new) (refl, refl)
  | inr (copy, known) ↦ rw (addname, known) (refl, refl)
]

addvar-Keeps :
    (s : Scope) (name : List ℕ) (at : VarData)
    → Keeps s (addvar s name at) (record { name = name; data_ = at } ∷ [])
unfolding addvar
addvar-Keeps s name at =
    let (vars, scopes) = addname-same s name in
    record { vars = ap (λ xs. xs ++ record { name = name; data_ = at } ∷ []) vars; scopes = scopes }

add_all-Keeps :
    (vars : List (List ℕ × VarData)) (s : Scope) → Keeps s (add_all s vars) (entries vars)
unfolding add_all
add_all-Keeps [] s = record { vars = sym (append-nil s.varstack); scopes = refl }
add_all-Keeps ((name, at) ∷ vars) s =
    let one = addvar-Keeps s name at in
    let more = add_all-Keeps vars (addvar s name at) in
    record {
      vars =
          more.vars
          ∙ ap (λ xs. xs ++ entries vars) one.vars
          ∙ append_assoc s.varstack (record { name = name; data_ = at } ∷ []) (entries vars);
      scopes = more.scopes ∙ one.scopes;
    }

-- Popping a scope after variables were added in it gives back the variables and the scopes that were
-- there when it was pushed, and with them every lookup, in the innermost scope and in all.
pub pop_scope-push :
    (s : Scope) (vars : List (List ℕ × VarData))
    → (t : Scope) × (pop_scope (add_all (push s) vars) ≡ some t)
      × (t.varstack ≡ s.varstack)
      × (t.scopestack ≡ s.scopestack)
      × ((name : List ℕ)
          → (scope_lookup t name ≡ scope_lookup s name) × (tiplookup t name ≡ tiplookup s name))
unfolding pop_scope push scope_lookup tiplookup tipstart
pop_scope-push s vars =
    let inner = add_all (push s) vars in
    let k = add_all-Keeps vars (push s) in
    let top = ap split_last k.scopes ∙ split_last-append s.scopestack (length s.varstack) in
    let same : take (length s.varstack) inner.varstack ≡ s.varstack =
      ap (take (length s.varstack)) k.vars ∙ take-length s.varstack (entries vars) in
    (
      record inner {
        scopestack = s.scopestack;
        varstack = take (length s.varstack) inner.varstack;
      },
      rw (pop_scope, top) refl,
      same,
      refl,
      λ name.
          (ap (λ xs. lookup_from 0 xs name) same, ap (λ xs. lookup_from (tipstart s) xs name) same),
    )

abbrev pub or_else : Option VarMap → Option VarMap → Option VarMap
or_else none o = o
or_else (some v) o = some v

or_else-none : (o : Option VarMap) → or_else o none ≡ o
or_else-none none = refl
or_else-none (some v) = refl

lookup_from-append :
    (from : ℕ) (xs ys : List VarMap) (name : List ℕ)
    → lookup_from from (xs ++ ys) name
      ≡ or_else (lookup_from (from - length xs) ys name) (lookup_from from xs name)
unfolding lookup_from
lookup_from-append from [] ys name =
    let e : from - 0 ≡ from = omega arith in
    elim (Option-cases (lookup_from from ys name)) [
      | inl nothing ↦ rw (e, nothing) refl
      | inr (v, found) ↦ rw (e, found) refl
    ]
lookup_from-append from (x ∷ xs) ys name =
    let e : from - suc (length xs) ≡ from - 1 - length xs = omega arith in
    let ih = lookup_from-append (from - 1) xs ys name in
    elim (Option-cases (lookup_from (from - 1 - length xs) ys name)) [
      | inl nothing ↦ rw (e, nothing, ih, nothing) refl
      | inr (v, found) ↦ rw (e, found, ih, found) refl
    ]

-- a scope that begins behind the variables hides all of them
lookup_from-none :
    (from : ℕ) (xs : List VarMap) (name : List ℕ)
    → length xs ≤ from
    → lookup_from from xs name ≡ none
unfolding lookup_from
lookup_from-none from [] name le = refl
lookup_from-none from (x ∷ xs) name le =
    rw (lookup_from-none (from - 1) xs name (omega arith), ne→== from 0 (omega arith)) refl

scope_lookup-add_all :
    (s : Scope) (vars : List (List ℕ × VarData)) (name : List ℕ)
    → scope_lookup (add_all s vars) name
      ≡ or_else (lookup_from 0 (entries vars) name) (scope_lookup s name)
unfolding scope_lookup
scope_lookup-add_all s vars name =
    let k = add_all-Keeps vars s in
    let e : 0 - length s.varstack ≡ 0 = omega arith in
    ap (λ xs. lookup_from 0 xs name) k.vars
    ∙ lookup_from-append 0 s.varstack (entries vars) name
    ∙ ap (λ n. or_else (lookup_from n (entries vars) name) (lookup_from 0 s.varstack name)) e

length-strlen : (own : List ℕ) → ZeroFree own → strlen own ≡ length own
unfolding strlen
length-strlen [] free = refl
length-strlen (c ∷ own) (no_zero, free) =
    let rest = length-strlen own free in rw (ne→== c 0 no_zero, strlen) (ap suc rest)

-- The test of the loop, on a stored name without a zero, is whether the names are the same bytes.
matches_lem : (own name : List ℕ) → ZeroFree own → (matches own name ≡ true) ↔ (own ≡ name)
matches_lem own name free =
    let size = length-strlen own free in
    (
      λ h. same_prefix-equal (length name) own name (ground arith) refl free (ground arith),
      λ e. rw (← e) (ground (arith, size, same_prefix_self own)),
    )

-- no variable of the list has the name
abbrev pub NotNamed : List ℕ → List (List ℕ × VarData) → Type 0
NotNamed name [] = Unit
NotNamed name ((own, at) ∷ vars) = (own ≢ name) × NotNamed name vars

-- the names of the list hold no zero
abbrev pub AreZeroFree : List (List ℕ × VarData) → Type 0
AreZeroFree [] = Unit
AreZeroFree ((own, at) ∷ vars) = ZeroFree own × AreZeroFree vars

-- `o` is the last variable of the list with the name, or `other` where none has it
abbrev pub IsLastOf : List ℕ → List (List ℕ × VarData) → Option VarMap → Option VarMap → Type 0
IsLastOf name vars other o =
    (NotNamed name vars × (o ≡ other))
    ⊎ ((before : List (List ℕ × VarData)) × (at : VarData) × (after : List (List ℕ × VarData))
        × (vars ≡ before ++ (name, at) ∷ after)
        × NotNamed name after
        × (o ≡ some (record { name = name; data_ = at })))

lookup_from-IsLastOf :
    (vars : List (List ℕ × VarData)) (name : List ℕ)
    → AreZeroFree vars
    → IsLastOf name vars none (lookup_from 0 (entries vars) name)
unfolding lookup_from
lookup_from-IsLastOf [] name free = inl (tt, refl)
lookup_from-IsLastOf ((own, at) ∷ vars) name (zero_free, free) =
    elim (lookup_from-IsLastOf vars name free) [
      | inl (others, nothing) ↦ elim (Bool-cases (matches own name)) [
        | inl yes_ ↦
            let same = (matches_lem own name zero_free).0 yes_ in
            inr (
              [],
              at,
              vars,
              ap (λ n. (n, at) ∷ vars) same,
              others,
              rw nothing (rw yes_ (ap (λ n. some (record { name = n; data_ = at })) same)),
            )
        | inr no_ ↦ inl (
          (λ same. let yes_ = (matches_lem own name zero_free).1 same in cc, others),
          rw nothing (rw no_ refl),
        )
      ]
      | inr (before, own_at, after, q, others, found) ↦
          inr
            ((own, at) ∷ before, own_at, after, ap (λ vs. (own, at) ∷ vs) q, others, rw found refl)
    ]

or_else-IsLastOf :
    (name : List ℕ) (vars : List (List ℕ × VarData)) (o other : Option VarMap)
    → IsLastOf name vars none o
    → IsLastOf name vars other (or_else o other)
or_else-IsLastOf name vars o other (inl (others, q)) = inl (others, ap (λ r. or_else r other) q)
or_else-IsLastOf name vars o other (inr (before, at, after, q, others, found)) =
    inr (before, at, after, q, others, ap (λ r. or_else r other) found)

-- For names without a zero: a lookup finds the last of the variables that were added with exactly
-- the name, and where none of them has it, what was found before they were added.
pub scope_lookup-IsLastOf :
    (s : Scope) (vars : List (List ℕ × VarData)) (name : List ℕ)
    → AreZeroFree vars
    → IsLastOf name vars (scope_lookup s name) (scope_lookup (add_all s vars) name)
scope_lookup-IsLastOf s vars name free =
    subst (IsLastOf name vars (scope_lookup s name)) (sym (scope_lookup-add_all s vars name)) (
      or_else-IsLastOf name vars (lookup_from 0 (entries vars) name) (scope_lookup s name)
        (lookup_from-IsLastOf vars name free))

-- The lookup in the innermost scope finds what was added in it and nothing else: while the number of
-- variables outside of it fits in 32 bits.
pub tiplookup-add_all :
    (s : Scope) (vars : List (List ℕ × VarData)) (name : List ℕ)
    → length s.varstack < 2 ^ 32
    → tiplookup (add_all (push s) vars) name ≡ lookup_from 0 (entries vars) name
unfolding tiplookup tipstart push
tiplookup-add_all s vars name small =
    let n = length s.varstack in
    let k = add_all-Keeps vars (push s) in
    let top = ap split_last k.scopes ∙ split_last-append s.scopestack n in
    let e : n % 2 ^ 32 ≡ n = omega arith in
    let d : n - n ≡ 0 = omega arith in
    let appended =
      lookup_from-append n s.varstack (entries vars) name
      ∙ ap (λ o. or_else (lookup_from (n - n) (entries vars) name) o)
          (lookup_from-none n s.varstack name (omega arith))
      ∙ or_else-none (lookup_from (n - n) (entries vars) name)
      ∙ ap (λ i. lookup_from i (entries vars) name) d in
    rw (tipstart, top, e) (ap (λ xs. lookup_from n xs name) k.vars ∙ appended)
