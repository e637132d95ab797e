-- ===== src/Rvm/Scope.antt =====
-- rvm/rvmscope.c: the variables in scope while code is generated, a stack of names with where they
-- are, and a stack of the sizes at which the scopes begin. The copy of a name that the table of names
-- holds has the same bytes, so a variable keeps the bytes; the table itself is modelled too.
pub mod Frames
use rpatk.Base.{
  ℕ, zero, suc, ◌+◌, ◌-◌, ◌%◌, ◌^◌, ◌&&◌, Bool, true, false, Option, none, some, List, [], ◌∷◌,
  ◌++◌, length, get_elem?, take, leb, ◌==◌, if◌then◌else◌,
}
use rpatk.RHash.{RHash, create, insert, lookup_object}
use rpatk.RHash.Names.{same_prefix}
use rpatk.Rvm.CodeMap.{name_key}

pub data VarData : Type 0 where
  offset_ pointer_ : ℕ → VarData

pub record VarMap : Type 0 where
  pub name : List ℕ
  pub data_ : VarData

pub record Scope : Type 0 where
  pub names : List (List ℕ)
  pub nameshash : RHash (List ℕ)
  pub varstack : List VarMap
  pub scopestack : List ℕ

unfoldable pub scope_create : Scope
scope_create = record { names = []; nameshash = create 5; varstack = []; scopestack = [] }

-- the value in the hash stands for the copy of the name
unfoldable pub addname : Scope → List ℕ → Scope
addname s name = elim (lookup_object s.nameshash name) [
  | some copy ↦ s
  | none ↦ record s {
    names = s.names ++ name ∷ [];
    nameshash = insert s.nameshash name (length s.names);
  }
]

unfoldable pub scope_count : Scope → ℕ
scope_count s = length s.scopestack

unfoldable pub push : Scope → Scope
push s = record s { scopestack = s.scopestack ++ length s.varstack ∷ [] }

-- the last element, and what stands before it
unfoldable pub split_last : List ℕ → Option (List ℕ × ℕ)
split_last [] = none
split_last (x ∷ xs) = elim (split_last xs) [ none ↦ some ([], x) | some (ys, y) ↦ some (x ∷ ys, y) ]

-- `none` is the read before the first element, where no scope was pushed
unfoldable pub pop_scope : Scope → Option Scope
pop_scope s = elim (split_last s.scopestack) [
  | none ↦ none
  | some (rest, scopelen) ↦
      some (record s { scopestack = rest; varstack = take scopelen s.varstack })
]

unfoldable pub addvar : Scope → List ℕ → VarData → Scope
addvar s name at =
    let s' = addname s name in
    record s' { varstack = s'.varstack ++ record { name = name; data_ = at } ∷ [] }

unfoldable pub scope_addoffset : Scope → List ℕ → ℕ → Scope
scope_addoffset s name off = addvar s name (offset_ (off % 2 ^ 32))

unfoldable pub scope_addpointer : Scope → List ℕ → ℕ → Scope
scope_addpointer s name ptr = addvar s name (pointer_ ptr)

unfoldable pub numentries : Scope → ℕ
numentries s = length s.varstack

-- `r_strlen` of the stored copy, which a zero ends
unfoldable pub strlen : List ℕ → ℕ
strlen [] = 0
strlen (c ∷ str) = let rest = suc (strlen str) in if c == 0 then 0 else rest

-- the length of the name, then its bytes
abbrev pub matches : List ℕ → List ℕ → Bool
matches own name = (strlen own == length name) && same_prefix (length name) own name

-- the loop from the last variable down to the one at `from`
unfoldable pub lookup_from : ℕ → List VarMap → List ℕ → Option VarMap
lookup_from from [] name = none
lookup_from from (v ∷ vars) name = elim (lookup_from (from - 1) vars name) [
  | some w ↦ some w
  | none ↦ if (from == 0) && matches v.name name then some v else none
]

unfoldable pub scope_lookup : Scope → List ℕ → Option VarMap
scope_lookup s name = lookup_from 0 s.varstack name

unfoldable pub tipstart : Scope → ℕ
tipstart s = elim (split_last s.scopestack) [ none ↦ 0 | some (rest, n) ↦ n % 2 ^ 32 ]

unfoldable pub tiplookup : Scope → List ℕ → Option VarMap
tiplookup s name = lookup_from (tipstart s) s.varstack name
