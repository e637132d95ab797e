-- ===== src/RArray/Contents.antt =====
-- What the operations do to the elements: adding, inserting and replacing, as list operations.
use rpatk.Base.{
  ℕ, suc, ◌+◌, ◌-◌, ◌≤◌, ◌<◌, ◌≡◌, refl, sym, ap, ◌∙◌, inl, inr, Bool-cases, some, List, [], ◌∷◌,
  ◌++◌, ltb, leb, ltb→lt, ltb→le, leb→le, leb_no, lt→ltb, ltb_no, if◌then◌else◌, length,
  length-append, length-set, length-take, length-drop, take, drop, set, arith,
}
use rpatk.Base.Slices.{insert_at, take-suc-set, take-set_lt, take-gap, insert_at-length}
use rpatk.RArray.{
  Memory, RArray, alloc_size, contents, check_resize, setlength, exist_replace, add, memmove,
  insert, replace,
}
use rpatk.RArray.Resize.{
  Allocates, alloc_size-check_resize, check_resize_id, take-check_resize, len-check_resize,
}

-- The length never passes the block.
pub record IsValid {A : Type 0} (a : RArray A) : Type 0 where
  pub fits : a.len ≤ alloc_size a

length-memmove :
    {A : Type 0} (xs : List A) (dst src size : ℕ)
    → dst + size ≤ length xs
    → src + size ≤ length xs
    → length (memmove xs dst src size) ≡ length xs
unfolding memmove
length-memmove xs dst src size p q = omega (
  arith,
  length-append (take dst xs) (take size (drop src xs) ++ drop (dst + size) xs),
  length-append (take size (drop src xs)) (drop (dst + size) xs),
  length-take dst xs,
  length-take size (drop src xs),
  length-drop src xs,
  length-drop (dst + size) xs,
)

module _ {A : Type 0} ⦃m : Memory A⦄ (ok : Allocates m) where
  pub setlength-IsValid : (a : RArray A) (n : ℕ) → IsValid (setlength a n)
  unfolding setlength
  setlength-IsValid a n = record { fits = alloc_size-check_resize a n ok }

  contents-add :
      (a : RArray A) (v : A) → IsValid a → contents (add a (some v)).0 ≡ contents a ++ v ∷ []
  unfolding add setlength exist_replace
  contents-add a v h =
      let n = a.len in
      let room = alloc_size-check_resize a (suc n) ok in
      let grown = check_resize a (suc n) in
      rw (take-suc-set n grown.data_ v (omega arith), take-check_resize a n (suc n) h.fits)

  add-IsValid : (a : RArray A) (v : A) → IsValid (add a (some v)).0
  unfolding add setlength exist_replace
  add-IsValid a v =
      let grown = check_resize a (suc a.len) in
      record {
        fits =
            omega (arith, length-set grown.data_ a.len v, alloc_size-check_resize a (suc a.len) ok);
      }

  -- `r_array_add` on a valid array appends the element, returns its index, and leaves a valid array.
  pub add_lem :
      (a : RArray A) (v : A)
      → IsValid a
      → (contents (add a (some v)).0 ≡ contents a ++ v ∷ [])
        × ((add a (some v)).1 ≡ length (contents a))
        × IsValid (add a (some v)).0
  unfolding add
  add_lem a v h =
      (contents-add a v h, omega (arith, length-take a.len a.data_, h.fits), add-IsValid a v)

  contents-insert_inside :
      (a : RArray A) (i : ℕ) (v : A)
      → IsValid a
      → i < a.len
      → contents (insert a i (some v)) ≡ insert_at i v (contents a)
  unfolding insert setlength exist_replace memmove
  contents-insert_inside a i v h lt =
      let same = check_resize_id a (suc i) (omega (arith, h.fits)) in
      let room = alloc_size-check_resize a (suc a.len) ok in
      let grown = check_resize a (suc a.len) in
      let e : suc i + (a.len - i) ≡ suc a.len = omega arith in
      rw (same, lt→ltb _ _ lt, e)
        (take-gap i (a.len - i) (suc a.len) a.len grown.data_ v (omega arith) refl room
          ∙ ap (insert_at i v) (take-check_resize a a.len (suc a.len) h.fits))

  contents-insert_end :
      (a : RArray A) (v : A)
      → IsValid a
      → contents (insert a a.len (some v)) ≡ insert_at a.len v (contents a)
  unfolding insert setlength exist_replace
  contents-insert_end a v h =
      let n = a.len in
      let grown = check_resize a (suc n) in
      let room = alloc_size-check_resize a (suc n) ok in
      let size : length (contents a) ≡ n = omega (arith, length-take n a.data_, h.fits) in
      rw
        (
          len-check_resize a (suc n),
          ltb_no n n (omega arith),
          check_resize_id (record grown { len = n }) (suc n) room,
        )
        (rw (take-suc-set n grown.data_ v (omega arith), take-check_resize a n (suc n) h.fits)
          (sym (insert_at-length (contents a) v) ∙ ap (λ k. insert_at k v (contents a)) size))

  insert-IsValid :
      (a : RArray A) (i : ℕ) (v : A) → IsValid a → i ≤ a.len → IsValid (insert a i (some v))
  unfolding insert setlength exist_replace
  insert-IsValid a i v h le = elim (Bool-cases (ltb i a.len)) [
    | inl lt ↦
        let same = check_resize_id a (suc i) (omega (arith, h.fits, ltb→lt _ _ lt)) in
        let grown = check_resize a (suc a.len) in
        let room = alloc_size-check_resize a (suc a.len) ok in
        let moved = memmove grown.data_ (suc i) i (a.len - i) in
        rw (same, lt)
          (record {
            fits = omega (
              arith,
              room,
              length-set moved i v,
              length-memmove grown.data_ (suc i) i (a.len - i) (omega (arith, ltb→lt _ _ lt))
                  (omega (arith, ltb→lt _ _ lt)),
            );
          })
    | inr end ↦
        let grown = check_resize a (suc i) in
        let room = alloc_size-check_resize a (suc i) ok in
        let same = check_resize_id (record grown { len = a.len }) (suc i) room in
        rw (len-check_resize a (suc i), end, same)
          (record { fits = omega (arith, room, length-set grown.data_ i v) })
  ]

  -- `r_array_insert` on a valid array, at an index up to the length, puts the element at that index,
  -- moves what stood there and after it up by one, and leaves a valid array.
  pub insert_lem :
      (a : RArray A) (i : ℕ) (v : A)
      → IsValid a
      → i ≤ a.len
      → (contents (insert a i (some v)) ≡ insert_at i v (contents a))
        × IsValid (insert a i (some v))
  insert_lem a i v h le = (
    elim (Bool-cases (ltb i a.len)) [
      | inl lt ↦ contents-insert_inside a i v h (ltb→lt _ _ lt)
      | inr end ↦
          let e : i ≡ a.len = omega (arith, ltb→le _ _ end) in rw e (contents-insert_end a v h)
    ],
    insert-IsValid a i v h le,
  )

  -- `r_array_replace` on a valid array below the length overwrites that element and nothing else;
  -- at the length it appends.
  pub replace_lem :
      (a : RArray A) (i : ℕ) (v : A)
      → IsValid a
      → i ≤ a.len
      → (contents (replace a i (some v))
          ≡ (if ltb i a.len then set (contents a) i v else contents a ++ v ∷ []))
        × IsValid (replace a i (some v))
  unfolding replace exist_replace
  replace_lem a i v h le = elim (Bool-cases (leb a.len i)) [
    | inl end ↦
        let e : i ≡ a.len = omega (arith, leb→le _ _ end) in
        let (put, valid) = insert_lem a a.len v h (omega arith) in
        let size : a.len ≡ length (contents a) = omega (arith, length-take a.len a.data_, h.fits) in
        rw (end, e, ltb_no a.len a.len (omega arith))
          (put ∙ ap (λ k. insert_at k v (contents a)) size ∙ insert_at-length (contents a) v, valid)
    | inr inside ↦
        let lt : i < a.len = omega (arith, leb_no _ _ inside) in
        rw (inside, lt→ltb _ _ lt)
          (
            take-set_lt a.len i a.data_ v,
            record { fits = omega (arith, length-set a.data_ i v, h.fits) },
          )
  ]
