-- ===== src/RHash/Buckets.antt =====
-- The hash as a map from keys to the values inserted for them, in the order of insertion.
use Prim.Native.Nat.{bit_and}
use mathlib.Core.List.{append-nil}
use rpatk.Base.{
  replicate, ℕ, zero, suc, ◌-◌, ◌^◌, ◌<◌, ◌≡◌, refl, sym, ap, ◌∙◌, inl, inr, true, false,
  Bool-cases, Option-cases, Option, none, some, List, [], ◌∷◌, ◌++◌, length, length-set,
  length-replicate, get_or, get_or-set_self, get_or-set_ne, set, arith, if◌then◌else◌, ◌==◌, ==_iff,
  ==→ne,
}
use rpatk.Base.Bits.{bit_and-le, two_pow-pos}
use rpatk.Base.Slices.{remove_at}
use rpatk.RHash.{
  Key, Node, RHash, create, nbucket, bucket, head_scan, tail_scan, nodelookup, nodetaillookup,
  insert, lookup_object, lookup_index, taillookup_index, index_of, object_of, invalid_index,
  remove_loop, remove,
}
use rpatk.RHash.Values.{
  first, last, Searched, Removes, head_scan-Searched, values_in, value_of, value_of-head_scan,
  value_of-tail_scan, values_in-append,
}

-- What the hash asks of its functions: equal keys are alike, and have the same hash.
pub record IsKey {K : Type 0} (k : Key K) : Type 0 where
  pub symm : (a b : K) → k.equal a b ≡ true → k.equal b a ≡ true
  pub trans : (a b c : K) → k.equal a b ≡ true → k.equal b c ≡ true → k.equal a c ≡ true
  pub hash : (a b : K) → k.equal a b ≡ true → k.hash a ≡ k.hash b

pub record IsHash {K : Type 0} (h : RHash K) : Type 0 where
  pub size : length h.buckets ≡ 2 ^ h.nbits

pub create-IsHash : {K : Type 0} (nbits : ℕ) → IsHash (create {K = K} nbits)
unfolding create
create-IsHash nbits = record { size = length-replicate (2 ^ nbits) [] }

get_or-replicate : {A : Type 0} (n i : ℕ) (a : A) → get_or (replicate n a) i a ≡ a
get_or-replicate zero i a = refl
get_or-replicate (suc n) zero a = refl
get_or-replicate (suc n) (suc i) a = get_or-replicate n i a

-- the value that an index lookup returns for what it found
abbrev pub index_or : Option ℕ → ℕ
index_or none = invalid_index
index_or (some v) = v

module _ {K : Type 0} ⦃k : Key K⦄ where
  -- the values inserted for a key, the oldest first
  abbrev pub values : RHash K → K → List ℕ
  values h key = values_in (bucket h key) key

  -- a new hash is empty
  pub values-create : (nbits : ℕ) (key : K) → values (create nbits) key ≡ []
  unfolding create values_in
  values-create nbits key =
      ap (λ ns. values_in ns key) (get_or-replicate (2 ^ nbits) (nbucket (create nbits) key) [])

  index_of-value_of : (o : Option (ℕ × Node K)) → index_of o ≡ index_or (value_of o)
  unfolding index_of
  index_of-value_of none = refl
  index_of-value_of (some (i, n)) = refl

  object_of-value_of : (o : Option (ℕ × Node K)) → object_of o ≡ value_of o
  unfolding object_of
  object_of-value_of none = refl
  object_of-value_of (some (i, n)) = refl

  -- The lookups from the head find the first value inserted for the key, the lookup from the tail the
  -- last one, and all of them report a key without a value.
  pub lookup_lem :
      (h : RHash K) (key : K)
      → (lookup_object h key ≡ first (values h key))
        × (lookup_index h key ≡ index_or (first (values h key)))
        × (taillookup_index h key ≡ index_or (last (values h key)))
  unfolding lookup_object lookup_index taillookup_index nodelookup nodetaillookup
  lookup_lem h key =
      let ns = bucket h key in
      (
        object_of-value_of (head_scan ns 0 key) ∙ value_of-head_scan ns key,
        index_of-value_of (head_scan ns 0 key) ∙ ap index_or (value_of-head_scan ns key),
        index_of-value_of (tail_scan ns (length ns) key) ∙ ap index_or (value_of-tail_scan ns key),
      )

  nbucket_lt : (h : RHash K) (key : K) → IsHash h → nbucket h key < length h.buckets
  nbucket_lt h key ok =
      omega (arith, ok.size, bit_and-le (k.hash key) (2 ^ h.nbits - 1), two_pow-pos h.nbits)

  -- a bucket replaced: the key's own, or that of a key in another one
  bucket-set :
      (h : RHash K) (key key' : K) (ns : List (Node K))
      → IsHash h
      → bucket (record h { buckets = set h.buckets (nbucket h key) ns }) key'
        ≡ (if nbucket h key == nbucket h key' then ns else bucket h key')
  bucket-set h key key' ns ok = elim (Bool-cases (nbucket h key == nbucket h key')) [
    | inl same ↦
        let e = (==_iff _ _).0 same in
        rw (same, sym e) (get_or-set_self h.buckets (nbucket h key) ns [] (nbucket_lt h key ok))
    | inr other ↦
        rw other (get_or-set_ne h.buckets (nbucket h key) (nbucket h key') ns [] (==→ne _ _ other))
  ]

  set-IsHash :
      (h : RHash K) (i : ℕ) (ns : List (Node K))
      → IsHash h
      → IsHash (record h { buckets = set h.buckets i ns })
  set-IsHash h i ns ok = record { size = length-set h.buckets i ns ∙ ok.size }

  -- what an insertion asks of the functions: if its key is equal to the other one, so is the hash
  module _ (h : RHash K) (key key' : K)
      (agree : k.equal key key' ≡ true → k.hash key ≡ k.hash key') where
    -- keys in different buckets are different
    apart : (nbucket h key == nbucket h key') ≡ false → k.equal key key' ≡ false
    apart other = elim (Bool-cases (k.equal key key')) [
      | inr no_ ↦ no_
      | inl same ↦ absurd (==→ne _ _ other (ap (λ x. bit_and x (2 ^ h.nbits - 1)) (agree same)))
    ]

    values-insert :
        (v : ℕ)
        → IsHash h
        → values (insert h key v) key'
          ≡ (if k.equal key key' then values h key' ++ v ∷ [] else values h key')
    unfolding insert values_in
    values-insert v ok =
        let new : Node K = record { key = key; value = v } in
        let moved = bucket-set h key key' (bucket h key ++ new ∷ []) ok in
        elim (Bool-cases (nbucket h key == nbucket h key')) [
          | inr other ↦ rw (moved, other, apart other) refl
          | inl same ↦
              let e = ap (λ i. get_or h.buckets i []) ((==_iff _ _).0 same) in
              rw (moved, same, values_in-append (bucket h key) (new ∷ []) key', e)
                (elim (Bool-cases (k.equal key key')) [
                  | inl alike ↦ rw alike refl
                  | inr differs ↦ rw differs (append-nil (values h key'))
                ])
        ]

    -- Inserting a value adds it behind those of its key and of the keys equal to it, and leaves those
    -- of every other key as they were: if the two keys have the same hash where they are equal.
    pub insert_refines :
        (v : ℕ)
        → IsHash h
        → (values (insert h key v) key'
            ≡ (if k.equal key key' then values h key' ++ v ∷ [] else values h key'))
          × IsHash (insert h key v)
    unfolding insert
    insert_refines v ok = (values-insert v ok, set-IsHash h (nbucket h key) _ ok)

  module _ (laws : IsKey k) where
    bucket_same :
        (h : RHash K) (key key' : K) → k.equal key key' ≡ true → bucket h key ≡ bucket h key'
    bucket_same h key key' same =
        ap (λ x. get_or h.buckets (bit_and x (2 ^ h.nbits - 1)) []) (laws.hash key key' same)

    -- the outcome of the removal loop
    abbrev Emptied : RHash K → K → Option (RHash K) → Type 0
    Emptied h key o =
        (t : RHash K) × (o ≡ some t)
        × IsHash t
        × ((key' : K) → values t key' ≡ (if k.equal key key' then [] else values h key'))

    nothing_left :
        (h : RHash K) (key key' : K)
        → Searched (bucket h key) key none
        → values h key' ≡ (if k.equal key key' then [] else values h key')
    nothing_left h key key' searched = elim (Bool-cases (k.equal key key')) [
      | inr other ↦ rw other refl
      | inl same ↦
          rw (same, sym (bucket_same h key key' same))
            (searched key' (λ a e. laws.trans a key' key e (laws.symm key key' same)))
    ]

    removed_one :
        (h : RHash K) (key key' : K) (ms : List (Node K))
        → IsHash h
        → Removes (bucket h key) ms key
        → k.equal key key' ≡ false
        → values (record h { buckets = set h.buckets (nbucket h key) ms }) key' ≡ values h key'
    removed_one h key key' ms ok r differs =
        let moved = bucket-set h key key' ms ok in
        elim (Bool-cases (nbucket h key == nbucket h key')) [
          | inr other ↦ rw (moved, other) refl
          | inl same ↦
              let e = ap (λ i. get_or h.buckets i []) ((==_iff _ _).0 same) in
              rw (moved, same)
                (r.others key' (λ a q. elim (Bool-cases (k.equal a key')) [
                  | inr no_ ↦ no_
                  | inl yes_ ↦ cc (differs, laws.trans key a key' (laws.symm a key q) yes_)
                ])
                  ∙ ap (λ ns. values_in ns key') e)
        ]

    remove_loop_lem :
        (fuel : ℕ) (h : RHash K) (key : K)
        → IsHash h
        → length (bucket h key) < fuel
        → Emptied h key (remove_loop fuel h key)
    unfolding remove_loop nodelookup
    remove_loop_lem zero h key ok lt = elim lt [ ]
    remove_loop_lem (suc fuel) h key ok lt =
        let searched = head_scan-Searched (bucket h key) key in
        elim (Option-cases (head_scan (bucket h key) 0 key)) [
          | inl none_left ↦ (
            h,
            rw (none_left, remove_loop) refl,
            ok,
            λ key'. nothing_left h key key' (rw none_left at searched),
          )
          | inr ((i, n), found) ↦
              let ms = remove_at i (bucket h key) in
              let r : Removes (bucket h key) ms key = rw found at searched in
              let h' = record h { buckets = set h.buckets (nbucket h key) ms } in
              let own : bucket h' key ≡ ms =
                get_or-set_self h.buckets (nbucket h key) ms [] (nbucket_lt h key ok) in
              let (t, runs, valid, rest) =
                remove_loop_lem fuel h' key (set-IsHash h (nbucket h key) ms ok)
                  (omega (arith, r.shorter, ap length own)) in
              (
                t,
                rw (found, remove_loop) runs,
                valid,
                λ key'. rest key' ∙ elim (Bool-cases (k.equal key key')) [
                  | inl same ↦ rw same refl
                  | inr other ↦ rw other (removed_one h key key' ms ok r other)
                ],
              )
        ]

    -- Removing a key ends within its fuel. Then the key and those equal to it have no value left, and
    -- every other key has the values that it had, for functions that the hash can rely on.
    pub remove_refines :
        (h : RHash K) (key : K)
        → IsHash h
        → (t : RHash K) × (remove h key ≡ some t)
          × IsHash t
          × ((key' : K) → values t key' ≡ (if k.equal key key' then [] else values h key'))
    unfolding remove
    remove_refines h key ok = remove_loop_lem (suc (length (bucket h key))) h key ok (omega arith)
