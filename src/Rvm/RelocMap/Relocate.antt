-- ===== src/Rvm/RelocMap/Relocate.antt =====
-- What a relocation leaves alone and what it writes.
use rpatk.Base.{
  ℕ, zero, suc, ◌<◌, ◌≡◌, ◌≢◌, ◌⊎◌, inl, inr, refl, ap, ◌∙◌, true, Option, Option-cases, some, List,
  [], ◌∷◌, length, length-set, get_elem?, ne→==, ◌++◌, arith,
}
use rpatk.Rvm.CodeMap.{CodeMap, minus_one, resolve}
use rpatk.Rvm.CodeMap.Add.{get_elem?-set_ne, get_elem?-set_self}
use rpatk.Rvm.RelocMap.Patch.{IsPatched, patch-IsPatched}
use rpatk.Rvm.RelocMap.{
  RelocRecord, RelocTarget, in_code, in_data, RelocMap, Instruction, Machine, patch, apply,
  relocate,
}

-- no record names the instruction `i`
abbrev pub Spares : ℕ → RelocMap → Type 0
Spares i [] = Unit
Spares i (r ∷ records) = (i ≢ r.place) × Spares i records

-- every label of the records can be resolved with the fuel, to a value that is no failure
abbrev pub AllResolved : ℕ → CodeMap → RelocMap → Type 0
AllResolved fuel m [] = Unit
AllResolved fuel m (r ∷ records) =
    ((v : ℕ) × (err : Option ℕ) × (resolve fuel m r.label ≡ some (v, err)) × (v ≢ minus_one))
    × AllResolved fuel m records

target-cases : (t : RelocTarget) → (t ≡ in_data) ⊎ (t ≡ in_code)
target-cases in_data = inl refl
target-cases in_code = inr refl

get_elem?-some :
    {A : Type 0} (xs : List A) (i : ℕ) (a : A) → get_elem? xs i ≡ some a → i < length xs
get_elem?-some [] i a h = absurd (ground arith)
get_elem?-some (x ∷ xs) zero a h = omega arith
get_elem?-some (x ∷ xs) (suc i) a h = omega (arith, get_elem?-some xs i a h)

module _ (machine : Machine) where
  -- the cases of a relocation on whatever is found at its place
  unchanged :
      (r : RelocRecord) (value i : ℕ) (code : List Instruction)
      → i ≢ r.place
      → get_elem? (apply machine r value code) i ≡ get_elem? code i
  unfolding apply
  unchanged r value i code ne = elim (target-cases r.target) [
    | inl data_ ↦ rw (data_, apply) refl
    | inr code_ ↦ elim (Option-cases (get_elem? code r.place)) [
      | inl nothing ↦ rw (code_, apply, nothing) refl
      | inr (ins, found) ↦
          rw (code_, apply, found)
            (get_elem?-set_ne code r.place i (patch machine r.kind value r.place ins) ne)
    ]
  ]

  length-apply :
      (r : RelocRecord) (value : ℕ) (code : List Instruction)
      → length (apply machine r value code) ≡ length code
  unfolding apply
  length-apply r value code = elim (target-cases r.target) [
    | inl data_ ↦ rw (data_, apply) refl
    | inr code_ ↦ elim (Option-cases (get_elem? code r.place)) [
      | inl nothing ↦ rw (code_, apply, nothing) refl
      | inr (ins, found) ↦
          rw (code_, apply, found)
            (length-set code r.place (patch machine r.kind value r.place ins))
    ]
  ]

  -- the instruction after one record
  result : RelocRecord → ℕ → Instruction → Instruction
  result r value ins = elim r.target [
    | in_data ↦ ins
    | in_code ↦ patch machine r.kind value r.place ins
  ]

  written :
      (r : RelocRecord) (value : ℕ) (code : List Instruction) (ins : Instruction)
      → get_elem? code r.place ≡ some ins
      → get_elem? (apply machine r value code) r.place ≡ some (result r value ins)
  unfolding apply result
  written r value code ins found = elim (target-cases r.target) [
    | inl data_ ↦ rw (data_, apply, result) found
    | inr code_ ↦
        rw (code_, apply, result, found)
          (get_elem?-set_self code r.place (patch machine r.kind value r.place ins)
            (get_elem?-some code r.place ins found))
  ]

  -- A relocation whose labels all resolve succeeds. It keeps the number of instructions, and those
  -- that no record names stay as they are.
  pub relocate_frame :
      (fuel : ℕ) (m : CodeMap) (records : RelocMap) (code : List Instruction)
      → AllResolved fuel m records
      → (code' : List Instruction) × (relocate machine fuel m records code ≡ some (code', true))
        × (length code' ≡ length code)
        × ((i : ℕ) → Spares i records → get_elem? code' i ≡ get_elem? code i)
  unfolding relocate
  relocate_frame fuel m [] code all = (code, refl, refl, λ i s. refl)
  relocate_frame fuel m (r ∷ records) code ((v, err, e, good), all) =
      let next_ = apply machine r v code in
      let (code', runs, size, same) = relocate_frame fuel m records next_ all in
      (
        code',
        rw (e, relocate, ne→== v minus_one good) runs,
        size ∙ length-apply r v code,
        λ i (ne, s). same i s ∙ unchanged r v i code ne,
      )

  relocate-result :
      (fuel : ℕ) (m : CodeMap) (before later : RelocMap) (r : RelocRecord) (code : List Instruction)
      (ins : Instruction) (v : ℕ) (err : Option ℕ)
      → AllResolved fuel m (before ++ r ∷ later)
      → Spares r.place before
      → Spares r.place later
      → get_elem? code r.place ≡ some ins
      → resolve fuel m r.label ≡ some (v, err)
      → (code' : List Instruction) × (relocate machine fuel m (before ++ r ∷ later) code
          ≡ some (code', true))
        × (get_elem? code' r.place ≡ some (result r v ins))
  unfolding relocate
  relocate-result fuel m [] later r code ins v err ((w, err', e, good), all) a b found value =
      let same : w ≡ v = ground (arith, e, value) in
      let (code', runs, _, frame) = relocate_frame fuel m later (apply machine r w code) all in
      (
        code',
        rw (e, relocate, ne→== w minus_one good) runs,
        frame r.place b
            ∙ ap (λ x. get_elem? (apply machine r x code) r.place) same
            ∙ written r v code ins found,
      )
  relocate-result fuel m (s ∷ before) later r code ins v err ((w, err', e, good), all) (ne, a) b
        found value =
      let (code', runs, ends) =
        relocate-result fuel m before later r (apply machine s w code) ins v err all a b
          (unchanged s w r.place code ne ∙ found) value in
      (code', rw (e, relocate, ne→== w minus_one good) runs, ends)

  -- what a record asks for of an instruction: a record for data leaves it
  abbrev pub IsRelocated : RelocRecord → ℕ → Instruction → Instruction → Type 0
  IsRelocated r v ins out =
      ((r.target ≡ in_data) × (out ≡ ins))
      ⊎ ((r.target ≡ in_code) × IsPatched machine r.kind r.place v ins out)

  result-IsRelocated :
      (r : RelocRecord) (v : ℕ) (ins : Instruction)
      → 0 < machine.instruction_size
      → IsRelocated r v ins (result r v ins)
  unfolding result
  result-IsRelocated r v ins positive = elim (target-cases r.target) [
    | inl data_ ↦ inl (data_, rw (data_, result) refl)
    | inr code_ ↦
        inr (code_, rw (code_, result) (patch-IsPatched machine r.kind v r.place ins positive))
  ]

  -- A relocation whose labels all resolve succeeds, and an instruction that one record names, and no
  -- other, ends with the value `v` of its label in it. For a branch, the word counts the whole
  -- instructions from its own address to `v`, rounded towards zero, in two's complement; for a jump,
  -- one instruction added to the word gives `v`; a string's word is `v` and its size the length of
  -- the string; otherwise the word is `v`. But for a string the size stays. A record for data leaves
  -- the instruction as it was. Instructions have a size.
  pub relocate-IsRelocated :
      (fuel : ℕ) (m : CodeMap) (before later : RelocMap) (r : RelocRecord) (code : List Instruction)
      (ins : Instruction) (v : ℕ) (err : Option ℕ)
      → 0 < machine.instruction_size
      → AllResolved fuel m (before ++ r ∷ later)
      → Spares r.place before
      → Spares r.place later
      → get_elem? code r.place ≡ some ins
      → resolve fuel m r.label ≡ some (v, err)
      → (code' : List Instruction) × (out : Instruction) × (relocate machine fuel m
            (before ++ r ∷ later)
            code
          ≡ some (code', true))
        × (get_elem? code' r.place ≡ some out)
        × IsRelocated r v ins out
  relocate-IsRelocated fuel m before later r code ins v err positive all a b found value =
      let (code', runs, ends) =
        relocate-result fuel m before later r code ins v err all a b found value in
      (code', result r v ins, runs, ends, result-IsRelocated r v ins positive)
