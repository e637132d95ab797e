-- ===== src/Rvm/RelocMap.antt =====
-- rvm/rvmrelocmap.c: the places of generated code that wait for the value of a label. Of an
-- instruction only the word and the size of its data are touched.
pub mod Patch
pub mod Relocate
use rpatk.Base.{
  ℕ, zero, suc, ◌+◌, ◌-◌, ◌*◌, ◌/◌, ◌%◌, ◌^◌, Bool, true, false, Option, none, some, List, [], ◌∷◌,
  ◌++◌, length, get_elem?, get_or, set, leb, ◌==◌, if◌then◌else◌,
}
use rpatk.Rvm.CodeMap.{CodeMap, minus_one, resolve}

pub data RelocKind : Type 0 where
  by_default jump branch string_ blob : RelocKind

pub data RelocTarget : Type 0 where
  in_code in_data : RelocTarget

pub record RelocRecord : Type 0 where
  pub target : RelocTarget
  pub kind : RelocKind
  pub place : ℕ
  pub label : ℕ

abbrev pub RelocMap : Type 0
RelocMap = List RelocRecord

unfoldable pub relocmap_create : RelocMap
relocmap_create = []

unfoldable pub relocmap_clear : RelocMap → RelocMap
relocmap_clear records = []

unfoldable pub relocmap_add : RelocMap → RelocTarget → RelocKind → ℕ → ℕ → RelocMap × ℕ
relocmap_add records target kind place label = (
  records ++ record { target = target; kind = kind; place = place; label = label } ∷ [],
  length records,
)

unfoldable pub relocmap_get : RelocMap → ℕ → Option RelocRecord
relocmap_get records i = if leb (length records) i then none else get_elem? records i

unfoldable pub relocmap_length : RelocMap → ℕ
relocmap_length records = length records

pub record Instruction : Type 0 where
  pub word : ℕ
  pub size : ℕ

-- What the code takes from the machine: where the instructions stand, how large one is, and the
-- length of the string at an address.
pub record Machine : Type 0 where
  pub code_at : ℕ
  pub instruction_size : ℕ
  pub strlen : ℕ → ℕ

module _ (machine : Machine) where
  -- the address of an instruction
  address : ℕ → ℕ
  address i = (machine.code_at + i * machine.instruction_size) % 2 ^ 64

  -- RVM_BYTE2CODE_OFFSET: a signed division, towards zero
  byte2code_offset : ℕ → ℕ
  byte2code_offset w =
      if leb (2 ^ 63) w
      then (2 ^ 64 - (2 ^ 64 - w) / machine.instruction_size) % 2 ^ 64
      else w / machine.instruction_size

  -- RVM_CODE2BYTE_OFFSET
  code2byte_offset : ℕ → ℕ
  code2byte_offset n = n * machine.instruction_size % 2 ^ 64

  unfoldable pub patch : RelocKind → ℕ → ℕ → Instruction → Instruction
  unfolding address byte2code_offset code2byte_offset
  patch branch value place ins = record ins {
    word = byte2code_offset ((value + 2 ^ 64 - address place) % 2 ^ 64);
  }
  patch jump value place ins = record ins { word = (value + 2 ^ 64 - code2byte_offset 1) % 2 ^ 64 }
  patch string_ value place ins = record { word = value; size = machine.strlen value }
  patch blob value place ins = record ins { word = value }
  patch by_default value place ins = record ins { word = value }

  -- A place outside of the code is written to by C all the same; here nothing is written.
  unfoldable pub apply : RelocRecord → ℕ → List Instruction → List Instruction
  apply r value code = elim r.target [
    | in_data ↦ code
    | in_code ↦ elim (get_elem? code r.place) [
      | none ↦ code
      | some ins ↦ set code r.place (patch r.kind value r.place ins)
    ]
  ]

  -- The loop of `rvm_relocmap_relocate`: the code, and whether all labels were resolved; `none`
  -- means that the fuel of `resolve` ran out. A failure leaves the places before it patched.
  unfoldable pub relocate :
      ℕ → CodeMap → RelocMap → List Instruction → Option (List Instruction × Bool)
  relocate fuel m [] code = some (code, true)
  relocate fuel m (r ∷ records) code = elim (resolve fuel m r.label) [
    | none ↦ none
    | some (value, err) ↦ elim (value == minus_one) [
      | true ↦ some (code, false)
      | false ↦ relocate fuel m records (apply r value code)
    ]
  ]
