-- ===== src/Rpa/Cache/Stored.antt =====
-- The entry that `rpa_cache_set` stores, and its records.
use rpatk.Base.{
  ℕ, zero, suc, ◌+◌, ◌^◌, ◌≡◌, ltb, refl, sym, ap, ◌∙◌, true, ◌&&◌, Option, none, some, List, [],
  ◌∷◌, ◌++◌, if◌then◌else◌, arith,
}
use mathlib.Core.List.{append_assoc, append-nil}
use rpatk.RArray.{Memory, RArray, slot, contents, setlength, exist_replace, add}
use rpatk.RArray.Resize.{Allocates}
use rpatk.RArray.Contents.{IsValid, setlength-IsValid, add_lem}
use rpatk.Rpa.Cache.{Cache, Entry, bucket_of, is_positive, copy_records, filled, new_entry}

module _ {A : Type 0} ⦃m : Memory A⦄ where
  -- the records that stand in the array from `at` on
  abbrev pub slice : ℕ → RArray A → ℕ → List A
  slice zero records at = []
  slice (suc n) records at = slot records at ∷ slice n records (suc at)

  -- the entry of a result, with the records that were copied for it
  abbrev pub stored : Cache A → ℕ → ℕ → ℕ → Option (RArray A) → ℕ → ℕ → Entry A
  stored c top ruleid ret records startrec size = record {
    ruleid = ruleid;
    top = top;
    ret = ret;
    startrec = startrec;
    recsize = size;
    serial = c.serial;
    records = (new_entry c top ruleid ret records startrec size).records;
  }

  abbrev pub number_of : Option (RArray A) → ℕ → ℕ
  number_of none size = 0
  number_of (some records) size = if ltb 0 size && ltb size (2 ^ 63) then size else 0

  length-copy_records :
      (n : ℕ) (records : RArray A) (at : ℕ) (out : RArray A)
      → (copy_records n records at out).len ≡ out.len + n
  unfolding copy_records add exist_replace setlength
  length-copy_records zero records at out = omega arith
  length-copy_records (suc n) records at out =
      length-copy_records n records (suc at) (add out (some (slot records at))).0 ∙ omega arith

  pub length-stored :
      (c : Cache A) (top ruleid ret : ℕ) (records : Option (RArray A)) (startrec size : ℕ)
      → (stored c top ruleid ret records startrec size).records.len ≡ number_of records size
  unfolding new_entry filled setlength
  length-stored c top ruleid ret none startrec size = refl
  length-stored c top ruleid ret (some records) startrec size =
      length-copy_records (number_of (some records) size) records startrec
        (setlength (c.entry (bucket_of top ruleid)).records 0)
      ∙ omega arith

  copy_records_lem :
      (ok : Allocates m) (n : ℕ) (records : RArray A) (at : ℕ) (out : RArray A)
      → IsValid out
      → contents (copy_records n records at out) ≡ contents out ++ slice n records at
  unfolding copy_records
  copy_records_lem ok zero records at out valid = sym (append-nil (contents out))
  copy_records_lem ok (suc n) records at out valid =
      let (put, _, next_) = add_lem ok out (slot records at) valid in
      copy_records_lem ok n records (suc at) (add out (some (slot records at))).0 next_
      ∙ ap (λ xs. xs ++ slice n records (suc at)) put
      ∙ append_assoc (contents out) (slot records at ∷ []) (slice n records (suc at))

  -- The entry that is stored holds exactly the records of the match, in order, and none of those that
  -- its slot held before: while memory can be allocated.
  pub new_entry-slice :
      (ok : Allocates m) (c : Cache A) (top ruleid ret : ℕ) (records : RArray A) (startrec size : ℕ)
      → is_positive size ≡ true
      → contents (new_entry c top ruleid ret (some records) startrec size).records
        ≡ slice size records startrec
  unfolding new_entry filled setlength
  new_entry-slice ok c top ruleid ret records startrec size positive =
      let out = (c.entry (bucket_of top ruleid)).records in
      rw positive (
        copy_records_lem ok size records startrec (setlength out 0) (setlength-IsValid ok out 0)
        ∙ refl)
