-- ===== src/Rpa/Cache/Tests.antt =====
-- A cache in which rule 7 matched three characters at place 5, with two records.
use rpatk.Base.{ℕ, ◌≡◌, refl, true, Option, none, some, [], ◌∷◌, ◌==◌, if◌then◌else◌, arith}
use rpatk.RArray.{Memory, RArray}
use rpatk.RArray.Resize.{Allocates}
use rpatk.Rpa.Cache.{Cache, bucket_of, cache_create, invalidate, cache_set}
use rpatk.Rpa.Cache.Stored.{stored, number_of}
use rpatk.Rpa.Cache.Lookup.{
  changes_nothing, found, same_key, IsCache, found-cache_set, invalidate_lem,
}

instance abbrev numbers : Memory ℕ
numbers = record { blank = 0; allocates = λ _. true }

numbers-Allocates : Allocates numbers
numbers-Allocates n = refl

abbrev matched : RArray ℕ
matched = record { data_ = 1 ∷ 2 ∷ 3 ∷ []; len = 3 }

abbrev fresh : Cache ℕ
fresh = cache_create

fresh-IsCache : IsCache fresh
unfolding cache_create
fresh-IsCache = record { past = λ i. omega arith }

abbrev started : Cache ℕ
started = invalidate fresh

found-cache_set_example :
    (found (cache_set started 5 7 3 (some matched) 1 2) 5 7 ≡ (
      if changes_nothing started.disabled 3 2
      then found started 5 7
      else if same_key 5 7 5 7
      then some (stored started 5 7 3 (some matched) 1 2)
      else if bucket_of 5 7 == bucket_of 5 7
      then none
      else found started 5 7))
    × ((stored started 5 7 3 (some matched) 1 2).records.len ≡ number_of (some matched) 2)
found-cache_set_example = found-cache_set started 5 7 3 (some matched) 1 2 5 7

invalidate_lem_example :
    ((top ruleid : ℕ) → found (invalidate fresh) top ruleid ≡ none)
    × IsCache (invalidate fresh)
    × ((top ruleid ret : ℕ) (records : Option (RArray ℕ)) (startrec size : ℕ)
        → IsCache (cache_set fresh top ruleid ret records startrec size))
unfolding cache_create
invalidate_lem_example = invalidate_lem fresh fresh-IsCache (omega arith)
