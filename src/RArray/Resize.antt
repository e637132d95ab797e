-- ===== src/RArray/Resize.antt =====
-- How an array grows: the new size is large enough, the elements stay, and with an allocator that
-- does not fail the block holds the length asked for.
use rpatk.Base.{
  ℕ, zero, suc, ◌+◌, ◌-◌, ◌*◌, ◌≤◌, ◌<◌, ◌≡◌, refl, true, Bool-cases, inl, inr, ltb, ltb→lt, ltb→le,
  length-append, length-replicate, replicate, take, arith,
}
use rpatk.Base.Slices.{take-append_le}
use rpatk.RArray.{Memory, RArray, grow, alloc_size, check_resize}

-- enough fuel: a round adds one at least
pub le-grow : (fuel n len : ℕ) → len ≤ n + fuel → len ≤ grow fuel n len
unfolding grow
le-grow zero n len h = omega arith
le-grow (suc fuel) n len h = ground (arith, le-grow fuel (2 * n + 1) len)

pub grow-ge : (fuel n len : ℕ) → n ≤ grow fuel n len
unfolding grow
grow-ge zero n len = omega arith
grow-ge (suc fuel) n len = ground (arith, grow-ge fuel (2 * n + 1) len)

grow_stop : (fuel n len : ℕ) → len ≤ n → grow fuel n len ≡ n
unfolding grow
grow_stop zero n len h = refl
grow_stop (suc fuel) n len h = ground arith

-- doubling: at most twice the length asked for, unless the block was large enough
pub grow_le : (fuel n len : ℕ) → n < len → grow fuel n len < 2 * len
unfolding grow
grow_le zero n len h = omega arith
grow_le (suc fuel) n len h = elim (Bool-cases (ltb (2 * n + 1) len)) [
  | inl more ↦ ground (arith, grow_le fuel (2 * n + 1) len (ltb→lt _ _ more))
  | inr done ↦ ground (arith, grow_stop fuel (2 * n + 1) len (ltb→le _ _ done))
]

-- What the code relies on: the allocator provides what it is asked for.
abbrev pub Allocates : {A : Type 0} → Memory A → Type 0
Allocates m = (n : ℕ) → m.allocates n ≡ true

module _ {A : Type 0} ⦃m : Memory A⦄ where
  pub alloc_size-check_resize :
      (a : RArray A) (len : ℕ) → Allocates m → len ≤ alloc_size (check_resize a len)
  unfolding check_resize
  alloc_size-check_resize a len ok = ground (
    arith,
    ok (grow len (alloc_size a) len),
    le-grow len (alloc_size a) len,
    length-append a.data_ (replicate (grow len (alloc_size a) len - alloc_size a) m.blank),
    length-replicate (grow len (alloc_size a) len - alloc_size a) m.blank,
  )

  pub check_resize-ge : (a : RArray A) (len : ℕ) → alloc_size a ≤ alloc_size (check_resize a len)
  unfolding check_resize
  check_resize-ge a len = ground (
    arith,
    length-append a.data_ (replicate (grow len (alloc_size a) len - alloc_size a) m.blank),
  )

  pub take-check_resize :
      (a : RArray A) (n len : ℕ)
      → n ≤ alloc_size a
      → take n (check_resize a len).data_ ≡ take n a.data_
  unfolding check_resize
  take-check_resize a n len h = ground (
    arith,
    take-append_le n a.data_ (replicate (grow len (alloc_size a) len - alloc_size a) m.blank),
  )

  pub len-check_resize : (a : RArray A) (len : ℕ) → (check_resize a len).len ≡ a.len
  unfolding check_resize
  len-check_resize a len = ground arith

  pub check_resize_id : (a : RArray A) (len : ℕ) → len ≤ alloc_size a → check_resize a len ≡ a
  unfolding check_resize
  check_resize_id a len h = ground arith
