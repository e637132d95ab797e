-- ===== src/RHash.antt =====
-- rlib/rhash.c: a hash of keys with duplicates, in buckets that are linked lists. A bucket is the
-- list of its nodes from head to tail, and a node is named by its place in its bucket. Of
-- `rhash_value_t` both members are a word, so `insert` is r_hash_insert_object and
-- r_hash_insert_index. Memory for a node is always there.
pub mod Values
pub mod Buckets
pub mod Names
mod Tests
use Prim.Native.Nat.{bit_and}
use rpatk.Base.{
  ℕ, zero, suc, ◌+◌, ◌-◌, ◌^◌, Bool, Option, none, some, List, [], ◌∷◌, ◌++◌, map, length, get_or,
  set, replicate, if◌then◌else◌,
}
use rpatk.Base.Slices.{remove_at}

-- `eqfunc` and `hfunc`
pub record Key (K : Type 0) : Type 0 where
  pub equal : K → K → Bool
  pub hash : K → ℕ

pub record Node (K : Type 0) : Type 0 where
  pub key : K
  pub value : ℕ

pub record RHash (K : Type 0) : Type 0 where
  pub buckets : List (List (Node K))
  pub nbits : ℕ

-- `r_hash_init`
unfoldable pub create : {K : Type 0} → ℕ → RHash K
create nbits = record { buckets = replicate (2 ^ nbits) []; nbits = nbits }

-- R_HASH_INVALID_INDEXVAL
abbrev pub invalid_index : ℕ
invalid_index = 2 ^ 64 - 1

module _ {K : Type 0} where
  one_on : Option (ℕ × Node K) → Option (ℕ × Node K)
  one_on none = none
  one_on (some (i, n)) = some (suc i, n)

  index_of : Option (ℕ × Node K) → ℕ
  index_of none = invalid_index
  index_of (some (i, n)) = n.value

  -- of a stored object, which is never null, as C cannot tell a null one from a miss
  object_of : Option (ℕ × Node K) → Option ℕ
  object_of none = none
  object_of (some (i, n)) = some n.value

  -- the inner loop of `r_hash_removeall`
  empty_bucket : List (Node K) → List (Node K)
  empty_bucket [] = []
  empty_bucket (n ∷ ns) = empty_bucket ns

  unfoldable pub removeall : RHash K → RHash K
  unfolding empty_bucket
  removeall h = record h { buckets = map empty_bucket h.buckets }

module _ {K : Type 0} ⦃k : Key K⦄ where
  abbrev pub nbucket : RHash K → K → ℕ
  nbucket h key = bit_and (k.hash key) (2 ^ h.nbits - 1)

  abbrev pub bucket : RHash K → K → List (Node K)
  bucket h key = get_or h.buckets (nbucket h key) []

  -- from the node `start` on, towards the tail
  unfoldable pub head_scan : List (Node K) → ℕ → K → Option (ℕ × Node K)
  unfolding one_on
  head_scan [] start key = none
  head_scan (n ∷ ns) zero key =
      let rest = one_on (head_scan ns zero key) in if k.equal n.key key then some (0, n) else rest
  head_scan (n ∷ ns) (suc start) key = one_on (head_scan ns start key)

  -- from the node before `stop` on, towards the head
  unfoldable pub tail_scan : List (Node K) → ℕ → K → Option (ℕ × Node K)
  unfolding one_on
  tail_scan [] stop key = none
  tail_scan (n ∷ ns) zero key = none
  tail_scan (n ∷ ns) (suc stop) key = elim (tail_scan ns stop key) [
    | some (i, m) ↦ some (suc i, m)
    | none ↦ if k.equal n.key key then some (0, n) else none
  ]

  -- `cur` is a node of the key's bucket, or none
  unfoldable pub nodelookup : RHash K → Option ℕ → K → Option (ℕ × Node K)
  nodelookup h none key = head_scan (bucket h key) 0 key
  nodelookup h (some cur) key = head_scan (bucket h key) (suc cur) key

  unfoldable pub nodetaillookup : RHash K → Option ℕ → K → Option (ℕ × Node K)
  nodetaillookup h none key = tail_scan (bucket h key) (length (bucket h key)) key
  nodetaillookup h (some cur) key = tail_scan (bucket h key) cur key

  unfoldable pub insert : RHash K → K → ℕ → RHash K
  insert h key value =
      let i = nbucket h key in
      record h {
        buckets = set h.buckets i (bucket h key ++ record { key = key; value = value } ∷ []);
      }

  unfoldable pub lookup_object : RHash K → K → Option ℕ
  unfolding object_of
  lookup_object h key = object_of (nodelookup h none key)

  unfoldable pub lookup_index : RHash K → K → ℕ
  unfolding index_of
  lookup_index h key = index_of (nodelookup h none key)

  unfoldable pub taillookup_index : RHash K → K → ℕ
  unfolding index_of
  taillookup_index h key = index_of (nodetaillookup h none key)

  -- the loop of `r_hash_remove`; `none` means that the fuel ran out
  unfoldable pub remove_loop : ℕ → RHash K → K → Option (RHash K)
  remove_loop zero h key = none
  remove_loop (suc fuel) h key = elim (nodelookup h none key) [
    | none ↦ some h
    | some (i, n) ↦
        remove_loop fuel
          (record h { buckets = set h.buckets (nbucket h key) (remove_at i (bucket h key)) }) key
  ]

  unfoldable pub remove : RHash K → K → Option (RHash K)
  remove h key = remove_loop (suc (length (bucket h key))) h key
