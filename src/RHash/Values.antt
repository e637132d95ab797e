-- ===== src/RHash/Values.antt =====
-- What a bucket holds for a key, and what the searches from its head and its tail find of it.
use rpatk.Base.{
  ℕ, ◌<◌, ◌≡◌, refl, ◌∙◌, inl, inr, true, false, Bool-cases, Option, none, some, List, [], ◌∷◌,
  ◌++◌, length, arith, if◌then◌else◌,
}
use rpatk.Base.Slices.{remove_at}
use rpatk.RHash.{Key, Node, head_scan, tail_scan, one_on}

-- the first and the last element
abbrev pub first : List ℕ → Option ℕ
first [] = none
first (x ∷ xs) = some x

unfoldable pub last : List ℕ → Option ℕ
last [] = none
last (x ∷ xs) = elim (last xs) [ none ↦ some x | some y ↦ some y ]

module _ {K : Type 0} ⦃k : Key K⦄ where
  -- the values that a bucket holds for a key, from head to tail
  unfoldable pub values_in : List (Node K) → K → List ℕ
  values_in [] key = []
  values_in (n ∷ ns) key =
      let rest = values_in ns key in if k.equal n.key key then n.value ∷ rest else rest

  abbrev pub value_of : Option (ℕ × Node K) → Option ℕ
  value_of none = none
  value_of (some (i, n)) = some n.value

  value_of-one_on : (o : Option (ℕ × Node K)) → value_of (one_on o) ≡ value_of o
  unfolding one_on
  value_of-one_on none = refl
  value_of-one_on (some (i, n)) = refl

  pub value_of-head_scan :
      (ns : List (Node K)) (key : K) → value_of (head_scan ns 0 key) ≡ first (values_in ns key)
  unfolding head_scan values_in
  value_of-head_scan [] key = refl
  value_of-head_scan (n ∷ ns) key = elim (Bool-cases (k.equal n.key key)) [
    | inl same ↦ rw (same, head_scan, values_in) refl
    | inr other ↦
        rw (other, head_scan, values_in)
          (value_of-one_on (head_scan ns 0 key) ∙ value_of-head_scan ns key)
  ]

  pub value_of-tail_scan :
      (ns : List (Node K)) (key : K)
      → value_of (tail_scan ns (length ns) key) ≡ last (values_in ns key)
  unfolding tail_scan values_in last
  value_of-tail_scan [] key = refl
  value_of-tail_scan (n ∷ ns) key = ground (arith, value_of-tail_scan ns key)

  pub values_in-append :
      (ns ms : List (Node K)) (key : K)
      → values_in (ns ++ ms) key ≡ values_in ns key ++ values_in ms key
  unfolding values_in
  values_in-append [] ms key = refl
  values_in-append (n ∷ ns) ms key = ground (arith, values_in-append ns ms key)

  -- what the removal of the node that a search finds does to a bucket
  pub record Removes (ns ms : List (Node K)) (key : K) : Type 0 where
    pub shorter : length ms < length ns
    pub others :
        (other : K)
        → ((a : K) → k.equal a key ≡ true → k.equal a other ≡ false)
        → values_in ms other ≡ values_in ns other

  -- the outcome of a search from the head, seen as a removal
  abbrev pub Searched : List (Node K) → K → Option (ℕ × Node K) → Type 0
  Searched ns key none =
      (other : K)
      → ((a : K) → k.equal a other ≡ true → k.equal a key ≡ true)
      → values_in ns other ≡ []
  Searched ns key (some (i, n)) = Removes ns (remove_at i ns) key

  skip :
      (n : Node K) (ns : List (Node K)) (key : K) (o : Option (ℕ × Node K))
      → k.equal n.key key ≡ false
      → Searched ns key o
      → Searched (n ∷ ns) key (one_on o)
  unfolding one_on values_in
  skip n ns key none differs all = λ other same. elim (Bool-cases (k.equal n.key other)) [
    | inl yes_ ↦ absurd (cc (differs, same n.key yes_))
    | inr no_ ↦ rw (no_, values_in) (all other same)
  ]
  skip n ns key (some (i, m)) differs found = record {
    shorter = omega (arith, found.shorter);
    others = λ other apart. ground (arith, found.others other apart);
  }

  pub head_scan-Searched : (ns : List (Node K)) (key : K) → Searched ns key (head_scan ns 0 key)
  unfolding head_scan values_in
  head_scan-Searched [] key = λ other same. refl
  head_scan-Searched (n ∷ ns) key = elim (Bool-cases (k.equal n.key key)) [
    | inl same ↦
        rw (same, head_scan)
          (record { shorter = omega arith; others = λ other apart. rw (apart n.key same) refl })
    | inr differs ↦
        rw (differs, head_scan)
          (skip n ns key (head_scan ns 0 key) differs (head_scan-Searched ns key))
  ]
