-- ===== src/Rvm/CodeMap/Add.antt =====
-- Adding a label: by which name and index it is found, and what stays.
use rpatk.Base.{
  ℕ, zero, suc, ◌^◌, ◌<◌, ◌≡◌, ◌≢◌, ◌⊎◌, inl, inr, refl, sym, ap, ◌∙◌, true, false, Bool-cases,
  some, List, [], ◌∷◌, ◌++◌, length, length-append, length-set, get_elem?, set, if◌then◌else◌,
  arith,
}
use rpatk.RHash.{insert}
use rpatk.RHash.Values.{first}
use rpatk.RHash.Buckets.{IsHash, values, index_or, lookup_lem, insert_refines}
use rpatk.RHash.Names.{rstrequal, rstrhash, ZeroFree, rstrequal_lem}
use rpatk.Rvm.CodeMap.{
  Label, offset, blank_label, name_key, CodeMap, is_negative, label, lookup, hash_name, add_label,
  update, setoffset, addoffset,
}

-- all of the values are below `n`
abbrev Below : ℕ → List ℕ → Type 0
Below n [] = Unit
Below n (v ∷ vs) = (v < n) × Below n vs

Below-weaken : (n : ℕ) (vs : List ℕ) → Below n vs → Below (suc n) vs
Below-weaken n [] h = tt
Below-weaken n (v ∷ vs) (lt, h) = (omega arith, Below-weaken n vs h)

Below-append : (n : ℕ) (vs : List ℕ) → Below n vs → Below (suc n) (vs ++ n ∷ [])
Below-append n [] h = (omega arith, tt)
Below-append n (v ∷ vs) (lt, h) = (omega arith, Below-append n vs h)

-- The names lead to labels that are there, and the indices are no negative `long`.
pub record IsMap (m : CodeMap) : Type 0 where
  pub hashed : IsHash m.hash
  pub stored : (name : List ℕ) → ZeroFree name → Below (length m.labels) (values m.hash name)
  pub room : length m.labels < 2 ^ 63

pub get_elem?-lt :
    {A : Type 0} (xs : List A) (i : ℕ) → i < length xs → (a : A) × (get_elem? xs i ≡ some a)
get_elem?-lt [] i lt = elim lt [ ]
get_elem?-lt (x ∷ xs) zero lt = (x, refl)
get_elem?-lt (x ∷ xs) (suc i) lt = get_elem?-lt xs i (omega arith)

pub get_elem?-set_self :
    {A : Type 0} (xs : List A) (i : ℕ) (a : A) → i < length xs → get_elem? (set xs i a) i ≡ some a
get_elem?-set_self [] i a lt = elim lt [ ]
get_elem?-set_self (x ∷ xs) zero a lt = refl
get_elem?-set_self (x ∷ xs) (suc i) a lt = get_elem?-set_self xs i a (omega arith)

pub get_elem?-set_ne :
    {A : Type 0} (xs : List A) (i j : ℕ) (a : A) → j ≢ i → get_elem? (set xs i a) j ≡ get_elem? xs j
get_elem?-set_ne [] i j a ne = refl
get_elem?-set_ne (x ∷ xs) zero zero a ne = absurd (ne refl)
get_elem?-set_ne (x ∷ xs) zero (suc j) a ne = refl
get_elem?-set_ne (x ∷ xs) (suc i) zero a ne = refl
get_elem?-set_ne (x ∷ xs) (suc i) (suc j) a ne = get_elem?-set_ne xs i j a (λ e. ne (ap suc e))

get_elem?-append_left :
    {A : Type 0} (xs ys : List A) (i : ℕ) → i < length xs → get_elem? (xs ++ ys) i ≡ get_elem? xs i
get_elem?-append_left [] ys i lt = elim lt [ ]
get_elem?-append_left (x ∷ xs) ys zero lt = refl
get_elem?-append_left (x ∷ xs) ys (suc i) lt = get_elem?-append_left xs ys i (omega arith)

get_elem?-append_last :
    {A : Type 0} (xs : List A) (a : A) → get_elem? (xs ++ a ∷ []) (length xs) ≡ some a
get_elem?-append_last [] a = refl
get_elem?-append_last (x ∷ xs) a = get_elem?-append_last xs a

label_lem :
    (m : CodeMap) (i : ℕ)
    → length m.labels < 2 ^ 63
    → i < length m.labels
    → label m i ≡ get_elem? m.labels i
unfolding label
label_lem m i room lt = ground arith

label_set :
    (m : CodeMap) (i j : ℕ) (l : Label)
    → j ≢ i
    → label (record m { labels = set m.labels i l }) j ≡ label m j
unfolding label
label_set m i j l ne = rw (get_elem?-set_ne m.labels i j l ne) refl

-- equal names have equal hashes
names_agree :
    (name other : List ℕ)
    → ZeroFree name
    → rstrequal name other ≡ true
    → rstrhash name ≡ rstrhash other
names_agree name other free same = ap rstrhash ((rstrequal_lem name other free).0 same)

-- what adding a label under a name does: the map and the index after it
pub record Added (m : CodeMap) (name : List ℕ) (m' : CodeMap) (i : ℕ) : Type 0 where
  pub map : IsMap m'
  pub inside : i < length m'.labels
  pub found : lookup m' (some name) ≡ i
  pub names :
      (other : List ℕ)
      → ZeroFree other
      → other ≢ name
      → lookup m' (some other) ≡ lookup m (some other)
  pub others : (j : ℕ) → j ≢ i → j < length m.labels → label m' j ≡ label m j

found-Below :
    (m : CodeMap) (n : ℕ) (vs : List ℕ)
    → n < 2 ^ 63
    → Below n vs
    → ((is_negative (index_or (first vs)) ≡ true) × (vs ≡ []))
      ⊎ ((is_negative (index_or (first vs)) ≡ false) × (index_or (first vs) < n))
found-Below m n [] room h = inl (refl, refl)
found-Below m n (v ∷ vs) room (lt, h) = inr (ground arith, lt)

lookup-first :
    (m : CodeMap) (name : List ℕ) → lookup m (some name) ≡ index_or (first (values m.hash name))
unfolding lookup
lookup-first m name = (lookup_lem m.hash name).1

module _ (m : CodeMap) (name : List ℕ) (free : ZeroFree name) (ok : IsMap m) where
  old : List ℕ
  old = values m.hash name

  -- a name that has a label
  add_found :
      is_negative (lookup m (some name)) ≡ false
      → lookup m (some name) < length m.labels
      → Added m name m (lookup m (some name))
  add_found there lt = record {
    map = ok;
    inside = lt;
    found = refl;
    names = λ other _ _. refl;
    others = λ j _ _. refl;
  }

  abbrev grown : CodeMap
  grown = record {
    labels = m.labels ++ record blank_label { name = some name } ∷ [];
    hash = insert m.hash name (length m.labels);
  }

  inserted :
      (other : List ℕ)
      → (values grown.hash other ≡ (
          if rstrequal name other
          then values m.hash other ++ length m.labels ∷ []
          else values m.hash other))
        × IsHash grown.hash
  inserted other =
      insert_refines m.hash name other (names_agree name other free) (length m.labels) ok.hashed

  differs : (other : List ℕ) → other ≢ name → rstrequal name other ≡ false
  differs other ne = elim (Bool-cases (rstrequal name other)) [
    | inl same ↦ absurd (ne (sym ((rstrequal_lem name other free).0 same)))
    | inr no_ ↦ no_
  ]

  size_grown : length grown.labels ≡ suc (length m.labels)
  size_grown = omega (arith, length-append m.labels (record blank_label { name = some name } ∷ []))

  grown-stored :
      (other : List ℕ) → ZeroFree other → Below (suc (length m.labels)) (values grown.hash other)
  grown-stored other other_free = elim (Bool-cases (rstrequal name other)) [
    | inl same ↦
        rw ((inserted other).0, same)
          (Below-append (length m.labels) (values m.hash other) (ok.stored other other_free))
    | inr no_ ↦
        rw ((inserted other).0, no_)
          (Below-weaken (length m.labels) (values m.hash other) (ok.stored other other_free))
  ]

  own : values m.hash name ≡ [] → values grown.hash name ≡ length m.labels ∷ []
  own nothing = (inserted name).0 ∙ rw ((rstrequal_lem name name free).1 refl, nothing) refl

  kept : (other : List ℕ) → other ≢ name → values grown.hash other ≡ values m.hash other
  kept other ne = (inserted other).0 ∙ rw (differs other ne) refl

  -- a name without one
  add_new :
      values m.hash name ≡ []
      → suc (length m.labels) < 2 ^ 63
      → Added m name grown (length m.labels)
  unfolding label
  add_new nothing room = record {
    map = record {
      hashed = (inserted name).1;
      stored = λ other k. rw size_grown (grown-stored other k);
      room = omega (arith, size_grown);
    };
    inside = omega (arith, size_grown);
    found = lookup-first grown name ∙ ap (λ vs. index_or (first vs)) (own nothing);
    names = λ other k ne.
        lookup-first grown other
        ∙ ap (λ vs. index_or (first vs)) (kept other ne)
        ∙ sym (lookup-first m other);
    others = λ j ne lt.
        label_lem grown j (omega (arith, size_grown)) (omega (arith, size_grown))
        ∙ get_elem?-append_left m.labels _ j lt
        ∙ sym (label_lem m j ok.room lt);
  }

  add_label_lem :
      suc (length m.labels) < 2 ^ 63
      → Added m name (add_label m (some name)).0 (add_label m (some name)).1
  unfolding add_label hash_name
  add_label_lem room =
      let first_one = lookup-first m name in
      elim (found-Below m (length m.labels) (values m.hash name) ok.room (ok.stored name free)) [
        | inl (negative, nothing) ↦ rw (ap is_negative first_one ∙ negative) (add_new nothing room)
        | inr (there, lt) ↦
            let there' = ap is_negative first_one ∙ there in
            rw there' (add_found there' (omega (arith, first_one)))
      ]

-- the label is there, and what is written into it is what is read
update-Added :
    (m m' : CodeMap) (name : List ℕ) (i : ℕ) (f : Label → Label)
    → Added m name m' i
    → Added m name (update f (m', i)).0 (update f (m', i)).1
      × ((l : Label) × (label (update f (m', i)).0 (update f (m', i)).1 ≡ some (f l)))
unfolding update lookup
update-Added m m' name i f a =
    let (l, there) = get_elem?-lt m'.labels i a.inside in
    let here = label_lem m' i a.map.room a.inside ∙ there in
    let size = length-set m'.labels i (f l) in
    let after = record m' { labels = set m'.labels i (f l) } in
    rw (here, update)
      (
        record {
          map = record {
            hashed = a.map.hashed;
            stored = λ other k. rw size (a.map.stored other k);
            room = omega (arith, size, a.map.room);
          };
          inside = omega (arith, size, a.inside);
          found = a.found;
          names = a.names;
          others = λ j ne lt. label_set m' i j (f l) ne ∙ a.others j ne lt;
        },
        (
          l,
          label_lem after i (omega (arith, size, a.map.room)) (omega (arith, size, a.inside))
              ∙ get_elem?-set_self m'.labels i (f l) a.inside,
        ),
      )

-- Adding an offset under a name: the name then leads to the returned index, where the label has the
-- base and the offset that were given. Every other name and every other label is found as before.
-- This holds for a name without a zero byte, and while the indices stay below 2 ^ 63.
pub addoffset_lem :
    (m : CodeMap) (name : List ℕ) (base value : ℕ)
    → ZeroFree name
    → IsMap m
    → suc (length m.labels) < 2 ^ 63
    → Added m name (addoffset m (some name) base value).0 (addoffset m (some name) base value).1
      × ((l : Label) × (label
              (addoffset m (some name) base value).0
              (addoffset m (some name) base value).1
            ≡ some l)
          × (l.kind ≡ offset)
          × (l.base ≡ base)
          × (l.value ≡ value))
unfolding addoffset setoffset
addoffset_lem m name base value free ok room =
    let (a, (l, e)) =
      update-Added m (add_label m (some name)).0 name (add_label m (some name)).1
        (setoffset base value) (add_label_lem m name free ok room) in
    (a, (setoffset base value l, e, refl, refl, refl))
