-- ===== src/RArray.antt =====
-- rlib/rarray.c and the macros of rlib/rarray.h: the growing array that every other part uses.
-- `data` holds one entry for each allocated element, so `alloc_size` is its length; what stands at
-- or above `len` is stale, and the code may still read it. A write past `data` changes nothing
-- here: RArray/Contents shows that none happens while `r_realloc` does not fail.
pub mod Resize
pub mod Contents
pub mod Delete
mod Tests
use rpatk.Base.{
  ℕ, zero, suc, ◌+◌, ◌-◌, ◌*◌, ◌≤◌, Bool, Option, none, some, List, [], ◌∷◌, ◌++◌, ltb, leb, ◌==◌,
  if◌then◌else◌, length, get_or, set, take, drop, replicate,
}

-- What the array takes from its surroundings: the element that zeroed memory holds, and whether
-- `r_realloc` can provide a block of so many elements.
pub record Memory (A : Type 0) : Type 0 where
  pub blank : A
  pub allocates : ℕ → Bool

pub record RArray (A : Type 0) : Type 0 where
  pub data_ : List A
  pub len : ℕ

-- `for (n = alloc_size; n < len;) n = 2 * n + 1`, with fuel; `2 * n + 1` stays below `SIZE_MAX`
-- for every array that fits in memory
unfoldable pub grow : ℕ → ℕ → ℕ → ℕ
grow zero n len = n
grow (suc fuel) n len = let more = grow fuel (2 * n + 1) len in if ltb n len then more else n

module _ {A : Type 0} where
  abbrev pub alloc_size : RArray A → ℕ
  alloc_size a = length a.data_

  -- the elements that the array holds
  abbrev pub contents : RArray A → List A
  contents a = take a.len a.data_

  -- `r_memmove` of `size` elements, inside the block
  unfoldable pub memmove : List A → ℕ → ℕ → ℕ → List A
  memmove xs dst src size = take dst xs ++ (take size (drop src xs) ++ drop (dst + size) xs)

module _ {A : Type 0} ⦃m : Memory A⦄ where
  abbrev pub slot : RArray A → ℕ → A
  slot a i = get_or a.data_ i m.blank

  unfoldable pub create : RArray A
  create = record { data_ = replicate 2 m.blank; len = 0 }

  unfoldable pub check_resize : RArray A → ℕ → RArray A
  check_resize a len =
      let size = grow len (alloc_size a) len in
      if ltb (alloc_size a) len
      then (if m.allocates size
          then record a { data_ = a.data_ ++ replicate (size - alloc_size a) m.blank }
          else a)
      else a

  unfoldable pub setlength : RArray A → ℕ → RArray A
  setlength a len = record (check_resize a len) { len = len }

  -- `none` is the null pointer
  unfoldable pub exist_replace : RArray A → ℕ → Option A → RArray A
  exist_replace a i (some v) = record a { data_ = set a.data_ i v }
  exist_replace a i none = record a { data_ = set a.data_ i m.blank }

  unfoldable pub add : RArray A → Option A → RArray A × ℕ
  add a v = let i = a.len in (exist_replace (setlength a (suc i)) i v, i)

  unfoldable pub removelast : RArray A → RArray A × ℕ
  removelast a = let a' = if a.len == 0 then a else setlength a (a.len - 1) in (a', a'.len)

  -- the elements from `index` on move up
  open_gap : RArray A → ℕ → RArray A
  open_gap a i =
      let b = setlength a (suc a.len) in record b { data_ = memmove b.data_ (suc i) i (a.len - i) }

  unfoldable pub insert : RArray A → ℕ → Option A → RArray A
  unfolding open_gap
  insert a i v =
      let b = check_resize a (suc i) in
      exist_replace (if ltb i b.len then open_gap b i else setlength b (suc i)) i v

  unfoldable pub replace : RArray A → ℕ → Option A → RArray A
  replace a i v = if leb a.len i then insert a i v else exist_replace a i v

  -- `r_array_move`: the two copying loops, by the rounds left
  unfoldable pub move_up : ℕ → RArray A → ℕ → ℕ → RArray A
  move_up zero a dst src = a
  move_up (suc n) a dst src = move_up n (replace a dst (some (slot a src))) (suc dst) (suc src)

  unfoldable pub move_down : ℕ → RArray A → ℕ → ℕ → RArray A
  move_down zero a dst src = a
  move_down (suc n) a dst src = move_down n (replace a (dst + n) (some (slot a (src + n)))) dst src

  -- `none` is the returned -1
  unfoldable pub move : RArray A → ℕ → ℕ → ℕ → Option (RArray A)
  move a dst src size =
      if ltb a.len (dst + size)
      then none
      else if dst == src
      then some a
      else if ltb dst src
      then some (move_up size a dst src)
      else some (move_down size a dst src)

  -- `r_array_delete` does not look at what `r_array_move` returns
  moved : RArray A → Option (RArray A) → RArray A
  moved a none = a
  moved a (some b) = b

  unfoldable pub delete : RArray A → ℕ → RArray A
  unfolding moved
  delete a i =
      let size = a.len - suc i in
      if leb a.len i
      then a
      else (removelast (if ltb 0 size then moved a (move a i (suc i) size) else a)).0

  unfoldable pub expand : RArray A → ℕ → RArray A
  expand a len = check_resize a (a.len + len)

  unfoldable pub slot_expand : RArray A → ℕ → RArray A × A
  slot_expand a i = let b = check_resize a (suc i) in (b, slot b i)

  -- the loop of `r_array_copy`, over the elements not yet copied
  unfoldable pub copy_loop : List A → ℕ → RArray A → RArray A
  copy_loop [] i dst = dst
  copy_loop (x ∷ xs) i dst = copy_loop xs (suc i) (replace dst i (some x))

  unfoldable pub copy : RArray A → RArray A
  unfolding copy_loop create
  copy a = copy_loop (contents a) 0 create

  -- `r_array_pop`; on an empty array it reads slot 0 and leaves the length alone
  unfoldable pub pop : RArray A → RArray A × A
  pop a = let i = a.len - 1 in (record a { len = i }, slot a i)
