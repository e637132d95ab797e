-- ===== src/Rvm/Tests.antt =====
-- A map with one label, a relocation of two instructions, and a scope with one variable.
use rpatk.Base.{
  ℕ, zero, suc, ◌-◌, ◌^◌, ◌<◌, ◌≡◌, refl, true, Option, none, some, List, [], ◌∷◌, length,
  get_elem?, arith,
}
use rpatk.RHash.{create}
use rpatk.RHash.Buckets.{create-IsHash, values-create}
use rpatk.RHash.Names.{ZeroFree}
use rpatk.Rvm.CodeMap.{
  Label, offset, pointer, CodeMap, addoffset, label, resolve, name_key, minus_one,
}
use rpatk.Rvm.CodeMap.Add.{IsMap, Added, addoffset_lem}
use rpatk.Rvm.CodeMap.Resolve.{IsResolved, resolve-IsResolved}
use rpatk.Rvm.RelocMap.{RelocRecord, in_code, jump, branch, Instruction, Machine, patch, relocate}
use rpatk.Rvm.RelocMap.Relocate.{
  AllResolved, Spares, relocate_frame, IsRelocated, relocate-IsRelocated,
}
use rpatk.Rvm.Scope.{
  Scope, VarData, offset_, scope_create, push, pop_scope, addvar, scope_lookup, tiplookup,
}
use rpatk.Rvm.Scope.Frames.{add_all, IsLastOf, pop_scope-push, scope_lookup-IsLastOf}

abbrev code_name : List ℕ
code_name = b'.' ∷ b'c' ∷ []

code_name-ZeroFree : ZeroFree code_name
code_name-ZeroFree = (omega arith, (omega arith, tt))

-- two labels: a pointer, and an offset from it
abbrev two_labels : CodeMap
two_labels = record {
  labels =
      record { kind = pointer; base = 0; value = 4096; name = none }
      ∷ record { kind = offset; base = 0; value = 48; name = none }
      ∷ [];
  hash = create 0;
}

two_labels-IsMap : IsMap two_labels
two_labels-IsMap = record {
  hashed = create-IsHash 0;
  stored = λ name _. rw (values-create 0 name) tt;
  room = omega arith;
}

addoffset_lem_example :
    Added two_labels code_name
      (addoffset two_labels (some code_name) 0 16).0
      (addoffset two_labels (some code_name) 0 16).1
    × ((l : Label) × (label
            (addoffset two_labels (some code_name) 0 16).0
            (addoffset two_labels (some code_name) 0 16).1
          ≡ some l)
        × (l.kind ≡ offset)
        × (l.base ≡ 0)
        × (l.value ≡ 16))
addoffset_lem_example =
    addoffset_lem two_labels code_name 0 16 code_name-ZeroFree two_labels-IsMap (omega arith)

-- the rank of a label is its index
falls : (j : ℕ) (l : Label) → label two_labels j ≡ some l → l.kind ≡ offset → l.base < j
unfolding label
falls zero l e k = ground arith
falls (suc zero) l e k = ground arith
falls (suc (suc j)) l e k = ground arith

resolve-IsResolved_example :
    (v : ℕ) × (err : Option ℕ) × (resolve 2 two_labels 1 ≡ some (v, err))
    × IsResolved two_labels 1 v err
resolve-IsResolved_example = resolve-IsResolved 2 two_labels (λ i. i) 1 falls (omega arith)

-- a pointer that is -1 makes what stands on it -1, and no label is reported
abbrev lost_labels : CodeMap
lost_labels = record {
  labels =
      record { kind = pointer; base = 0; value = minus_one; name = none }
      ∷ record { kind = offset; base = 0; value = 48; name = none }
      ∷ [];
  hash = create 0;
}

lost_resolves : resolve 2 lost_labels 1 ≡ some (minus_one, none)
unfolding resolve label
lost_resolves = refl

abbrev plain_machine : Machine
plain_machine = record { code_at = 4096; instruction_size = 16; strlen = λ p. 0 }

abbrev to_second : RelocRecord
to_second = record { target = in_code; kind = jump; place = 0; label = 1 }

abbrev instructions : List Instruction
instructions = record { word = 0; size = 0 } ∷ record { word = 7; size = 0 } ∷ []

second_resolves : resolve 2 two_labels 1 ≡ some (4144, none)
unfolding resolve label
second_resolves = refl

to_second-AllResolved : AllResolved 2 two_labels (to_second ∷ [])
to_second-AllResolved = ((4144, none, second_resolves, omega arith), tt)

relocate_frame_example :
    (code' : List Instruction) × (relocate plain_machine 2 two_labels (to_second ∷ []) instructions
      ≡ some (code', true))
    × (length code' ≡ length instructions)
    × ((i : ℕ) → Spares i (to_second ∷ []) → get_elem? code' i ≡ get_elem? instructions i)
relocate_frame_example =
    relocate_frame plain_machine 2 two_labels (to_second ∷ []) instructions to_second-AllResolved

relocate-IsRelocated_example :
    (code' : List Instruction) × (out : Instruction) × (relocate plain_machine 2 two_labels
        (to_second ∷ [])
        instructions
      ≡ some (code', true))
    × (get_elem? code' 0 ≡ some out)
    × IsRelocated plain_machine to_second 4144 (record { word = 0; size = 0 }) out
relocate-IsRelocated_example =
    relocate-IsRelocated plain_machine 2 two_labels [] [] to_second instructions
      (record { word = 0; size = 0 }) 4144 none (omega arith) to_second-AllResolved tt tt refl
      second_resolves

-- a branch back from the instruction 3 to the instruction 1
branch_back :
    patch plain_machine branch 4112 3 (record { word = 0; size = 0 })
    ≡ record { word = 2 ^ 64 - 2; size = 0 }
unfolding patch
branch_back = refl

abbrev one_variable : Scope
one_variable = addvar scope_create code_name (offset_ 3)

abbrev two_more : List (List ℕ × VarData)
two_more = (b'x' ∷ [], offset_ 4) ∷ (code_name, offset_ 5) ∷ []

pop_scope-push_example :
    (t : Scope) × (pop_scope (add_all (push one_variable) two_more) ≡ some t)
    × (t.varstack ≡ one_variable.varstack)
    × (t.scopestack ≡ one_variable.scopestack)
    × ((name : List ℕ)
        → (scope_lookup t name ≡ scope_lookup one_variable name)
          × (tiplookup t name ≡ tiplookup one_variable name))
pop_scope-push_example = pop_scope-push one_variable two_more

scope_lookup-IsLastOf_example :
    IsLastOf code_name two_more
      (scope_lookup one_variable code_name)
      (scope_lookup (add_all one_variable two_more) code_name)
scope_lookup-IsLastOf_example =
    scope_lookup-IsLastOf one_variable two_more code_name
      ((omega arith, tt), (code_name-ZeroFree, tt))
