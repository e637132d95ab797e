-- ===== src/Rvm/RelocMap/Patch.antt =====
-- What `rvm_relocmap_relocate` writes into an instruction, in terms of where the value points.
use rpatk.Base.{
  ℕ, ◌+◌, ◌-◌, ◌*◌, ◌/◌, ◌%◌, ◌^◌, ◌<◌, ◌≤◌, ◌≡◌, ◌⊎◌, inl, inr, refl, true, false, Bool-cases, leb,
  arith,
}
use native.Mathlib.Nat.{mod-lt, div-add-mod'}
use rpatk.Rvm.RelocMap.{
  RelocKind, by_default, jump, branch, string_, blob, Instruction, Machine, patch, address,
  byte2code_offset, code2byte_offset,
}

-- The distance from the instruction at `place` to `v` is `q` instructions and `r` bytes, forwards or
-- backwards, and `word` is `q` or the two's complement of it: what is left of an instruction is dropped.
abbrev pub IsBranch : Machine → ℕ → ℕ → ℕ → Type 0
IsBranch machine place v word =
    (q : ℕ) × (r : ℕ) × (r < machine.instruction_size)
    × (((q * machine.instruction_size + r < 2 ^ 63)
          × (word ≡ q)
          × ((machine.code_at
                  + place * machine.instruction_size
                  + (q * machine.instruction_size + r))
                % 2 ^ 64
              ≡ v % 2 ^ 64))
        ⊎ ((q * machine.instruction_size + r ≤ 2 ^ 63)
            × (word ≡ (2 ^ 64 - q) % 2 ^ 64)
            × ((v + (q * machine.instruction_size + r)) % 2 ^ 64
                ≡ (machine.code_at + place * machine.instruction_size) % 2 ^ 64)))

-- `out` is `ins` with the value `v` in it, as the kind of the relocation asks for: a jump goes to
-- the instruction before, as the machine steps on after it, and a string has its length as the size.
abbrev pub IsPatched : Machine → RelocKind → ℕ → ℕ → Instruction → Instruction → Type 0
IsPatched machine branch place v ins out = IsBranch machine place v out.word × (out.size ≡ ins.size)
IsPatched machine jump place v ins out =
    ((out.word + machine.instruction_size) % 2 ^ 64 ≡ v % 2 ^ 64)
    × (out.word < 2 ^ 64)
    × (out.size ≡ ins.size)
IsPatched machine string_ place v ins out = (out.word ≡ v) × (out.size ≡ machine.strlen v)
IsPatched machine blob place v ins out = (out.word ≡ v) × (out.size ≡ ins.size)
IsPatched machine by_default place v ins out = (out.word ≡ v) × (out.size ≡ ins.size)

distance_back :
    (v at d m : ℕ)
    → d ≡ (v + 2 ^ 64 - at % 2 ^ 64) % 2 ^ 64
    → m ≡ 2 ^ 64 - d
    → leb (2 ^ 63) d ≡ true
    → (m ≤ 2 ^ 63) × ((v + m) % 2 ^ 64 ≡ at % 2 ^ 64)
distance_back v at d m p q far = let le : 2 ^ 63 ≤ d = ground arith in (omega arith, omega arith)

distance_on :
    (v at d m : ℕ)
    → d ≡ (v + 2 ^ 64 - at % 2 ^ 64) % 2 ^ 64
    → m ≡ d
    → leb (2 ^ 63) d ≡ false
    → (m < 2 ^ 63) × ((at + m) % 2 ^ 64 ≡ v % 2 ^ 64)
distance_on v at d m p q near = let lt : d < 2 ^ 63 = ground arith in (omega arith, omega arith)

byte2code_offset-IsBranch :
    (machine : Machine) (place v : ℕ)
    → 0 < machine.instruction_size
    → IsBranch machine place v
        (byte2code_offset machine ((v + 2 ^ 64 - address machine place) % 2 ^ 64))
unfolding byte2code_offset address
byte2code_offset-IsBranch machine place v positive =
    let s = machine.instruction_size in
    let at = machine.code_at + place * s in
    let d = (v + 2 ^ 64 - at % 2 ^ 64) % 2 ^ 64 in
    let back = 2 ^ 64 - d in
    let whole_back = div-add-mod' back s in
    let whole = div-add-mod' d s in
    elim (Bool-cases (leb (2 ^ 63) d)) [
      | inl far ↦
          let (small, lands) = distance_back v at d (back / s * s + back % s) refl whole_back far in
          rw far (back / s, back % s, mod-lt back positive, inr (small, refl, lands))
      | inr near ↦
          let (small, lands) = distance_on v at d (d / s * s + d % s) refl whole near in
          rw near (d / s, d % s, mod-lt d positive, inl (small, refl, lands))
    ]

pub patch-IsPatched :
    (machine : Machine) (kind : RelocKind) (v place : ℕ) (ins : Instruction)
    → 0 < machine.instruction_size
    → IsPatched machine kind place v ins (patch machine kind v place ins)
unfolding patch code2byte_offset
patch-IsPatched machine branch v place ins positive =
    (byte2code_offset-IsBranch machine place v positive, refl)
patch-IsPatched machine jump v place ins positive = (omega arith, omega arith, refl)
patch-IsPatched machine string_ v place ins positive = (refl, refl)
patch-IsPatched machine blob v place ins positive = (refl, refl)
patch-IsPatched machine by_default v place ins positive = (refl, refl)
