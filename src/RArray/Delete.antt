-- ===== src/RArray/Delete.antt =====
-- Deletion: the copying loop of `r_array_move` closes the gap, and the length falls by one.
use rpatk.Base.{
  ℕ, zero, suc, ◌+◌, ◌-◌, ◌≤◌, ◌<◌, ◌≡◌, refl, ap, ◌∙◌, inl, inr, Bool-cases, some, ltb, lt→ltb,
  ltb→lt, ltb→le, ltb_no, lt→leb, le→leb, sym, if◌then◌else◌, length-set, length-take, pred, take,
  set, arith, ne→==,
}
use rpatk.Base.Slices.{remove_at, take-set_lt, take-suc-remove_at, remove_at-suc-set, get_or-take}
use rpatk.RArray.{
  Memory, RArray, alloc_size, contents, slot, setlength, exist_replace, replace, move, move_up,
  moved, removelast, delete,
}
use rpatk.RArray.Resize.{check_resize_id}
use rpatk.RArray.Contents.{IsValid}

module _ {A : Type 0} ⦃m : Memory A⦄ where
  replace_inside :
      (a : RArray A) (i : ℕ) (v : A)
      → i < a.len
      → replace a i (some v) ≡ record a { data_ = set a.data_ i v }
  unfolding replace exist_replace
  replace_inside a i v h = rw (lt→leb _ _ h)

  -- the loop keeps the length and the block, and closes the gap at `d`
  pub record Closes (a b : RArray A) (d : ℕ) : Type 0 where
    pub same_len : b.len ≡ a.len
    pub same_alloc : alloc_size b ≡ alloc_size a
    pub closed : take (pred a.len) b.data_ ≡ remove_at d (take a.len a.data_)

  shifted :
      (a : RArray A) (d : ℕ)
      → suc d < a.len
      → a.len ≤ alloc_size a
      → remove_at (suc d) (take a.len (set a.data_ d (slot a (suc d))))
        ≡ remove_at d (take a.len a.data_)
  shifted a d h fits =
      let xs = take a.len a.data_ in
      rw
        (
          take-set_lt a.len d a.data_ (slot a (suc d)),
          ← get_or-take a.len (suc d) a.data_ m.blank h,
        )
        (remove_at-suc-set d xs m.blank (omega (arith, length-take a.len a.data_)))

  move_up-Closes :
      (n : ℕ) (a : RArray A) (d : ℕ)
      → suc d + n ≡ a.len
      → a.len ≤ alloc_size a
      → Closes a (move_up n a d (suc d)) d
  unfolding move_up
  move_up-Closes zero a d e fits = record {
    same_len = refl;
    same_alloc = refl;
    closed =
        let l : a.len ≡ suc d = omega arith in
        rw l (sym (take-suc-remove_at d a.data_ (omega arith)));
  }
  move_up-Closes (suc n) a d e fits =
      let b = record a { data_ = set a.data_ d (slot a (suc d)) } in
      let size = length-set a.data_ d (slot a (suc d)) in
      let rest = move_up-Closes n b (suc d) (omega arith) (omega (arith, size)) in
      rw (replace_inside a d (slot a (suc d)) (omega arith)) (record {
        same_len = rest.same_len;
        same_alloc = rest.same_alloc ∙ size;
        closed = rest.closed ∙ shifted a d (omega arith) fits;
      })

  removelast_lem :
      (a : RArray A)
      → 0 < a.len
      → a.len ≤ alloc_size a
      → (removelast a).0 ≡ record a { len = pred a.len }
  unfolding removelast setlength
  removelast_lem a h fits =
      rw (ne→== a.len 0 (omega arith), check_resize_id a (a.len - 1) (omega arith))
        (ap (λ n. record { data_ = a.data_; len = n }) (omega arith))

  -- the call that `r_array_delete` makes
  pub move_lem :
      (a : RArray A) (i size : ℕ)
      → suc i + size ≡ a.len
      → move a i (suc i) size ≡ some (move_up size a i (suc i))
  unfolding move
  move_lem a i size e = rw (
    ltb_no a.len (i + size) (omega arith),
    ne→== i (suc i) (omega arith),
    lt→ltb i (suc i) (omega arith),
  )

  delete_past :
      (a : RArray A) (i : ℕ)
      → IsValid a
      → a.len ≤ i
      → (contents (delete a i) ≡ contents a) × IsValid (delete a i)
  unfolding delete
  delete_past a i h le = rw (le→leb _ _ le) (refl, h)

  delete_inside :
      (a : RArray A) (i : ℕ)
      → IsValid a
      → i < a.len
      → (b : RArray A) × (delete a i ≡ record b { len = pred a.len }) × Closes a b i
  unfolding delete moved move_up
  delete_inside a i h lt =
      let size = a.len - suc i in
      let whole : suc i + size ≡ a.len = omega arith in
      let b = move_up size a i (suc i) in
      let closes = move_up-Closes size a i whole h.fits in
      elim (Bool-cases (ltb 0 size)) [
        | inl some_left ↦ (
          b,
          rw (lt→leb _ _ lt, some_left, move_lem a i size whole)
              (removelast_lem b (omega (arith, closes.same_len)) (omega (arith, closes, h.fits))
                ∙ ap (λ n. record { data_ = b.data_; len = pred n }) closes.same_len),
          closes,
        )
        | inr last ↦ (
          a,
          rw (lt→leb _ _ lt, last) (removelast_lem a (omega arith) h.fits),
          move_up-Closes 0 a i (omega (arith, ltb→le _ _ last)) h.fits,
        )
      ]

  -- `r_array_delete` on a valid array takes out the element at the index and keeps the others in
  -- order; past the end it changes nothing. The array stays valid.
  pub delete_lem :
      (a : RArray A) (i : ℕ)
      → IsValid a
      → (contents (delete a i) ≡ (if ltb i a.len then remove_at i (contents a) else contents a))
        × IsValid (delete a i)
  delete_lem a i h = elim (Bool-cases (ltb i a.len)) [
    | inl lt ↦
        let (b, e, closes) = delete_inside a i h (ltb→lt _ _ lt) in
        rw (e, lt) (closes.closed, record { fits = omega (arith, closes, h.fits) })
    | inr past ↦ rw past (delete_past a i h (ltb→le _ _ past))
  ]

  pub len-delete : (a : RArray A) (i : ℕ) → IsValid a → i < a.len → suc (delete a i).len ≡ a.len
  len-delete a i h lt =
      let (b, e, closes) = delete_inside a i h lt in omega (arith, ap (λ (x : RArray A). x.len) e)
