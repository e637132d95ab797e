-- ===== src/Rpa/Cache/Lookup.antt =====
-- What a lookup finds after a result was stored, and after the cache was invalidated.
use rpatk.Base.{
  ℕ, ◌+◌, ◌%◌, ◌^◌, ◌≤◌, ◌<◌, ◌≡◌, ltb, refl, sym, ap, ◌∙◌, inl, inr, Bool, true, false, Bool-cases,
  ◌&&◌, Option, none, some, ◌==◌, ==_refl, ne→==, ==→ne, if◌then◌else◌, arith,
}
use rpatk.RArray.{Memory, RArray}
use rpatk.Rpa.Cache.Stored.{stored, number_of, length-stored}
use rpatk.Rpa.Cache.{
  Cache, Entry, bucket_of, invalidate, put_at, skips, new_entry, cache_set, is_hit, cache_lookup,
}

-- the two keys are one
abbrev pub same_key : ℕ → ℕ → ℕ → ℕ → Bool
same_key top ruleid top' ruleid' = (ruleid == ruleid') && (top == top')

same_bucket :
    (top ruleid top' ruleid' : ℕ)
    → (bucket_of top' ruleid' == bucket_of top ruleid) ≡ false
    → same_key top ruleid top' ruleid' ≡ false
same_bucket top ruleid top' ruleid' apart = elim (Bool-cases (same_key top ruleid top' ruleid')) [
  | inr differ ↦ differ
  | inl same ↦
      let e : ruleid ≡ ruleid' = ground arith in
      let f : top ≡ top' = ground arith in
      absurd (==→ne _ _ apart (ap (λ t. bucket_of t ruleid') (sym f) ∙ ap (bucket_of top) (sym e)))
]

-- whether a result is not stored, by the switch, the result and its number of records
abbrev pub changes_nothing : Bool → ℕ → ℕ → Bool
changes_nothing off ret size =
    if off
    then true
    else (ltb 0 ret && ltb ret (2 ^ 63)) && ((ltb 0 size && ltb size (2 ^ 63)) && ltb 128 size)

module _ {A : Type 0} ⦃m : Memory A⦄ where
  abbrev pub found : Cache A → ℕ → ℕ → Option (Entry A)
  found c top ruleid = (cache_lookup c top ruleid).1

  -- what a lookup finds, by its two tests
  pick : Bool → Bool → Entry A → Option (Entry A)
  pick true hit e = none
  pick false true e = some e
  pick false false e = none

  tests :
      (off hit : Bool) (c d : Cache A) (e : Entry A)
      → (if◌then◌else◌ {A = Cache A × Option (Entry A)} off
          (c, none)
          (if hit then (d, some e) else (c, none))).1
        ≡ pick off hit e
  unfolding pick
  tests true hit c d e = refl
  tests false true c d e = refl
  tests false false c d e = refl

  found_lem :
      (c : Cache A) (top ruleid : ℕ)
      → let e = c.entry (bucket_of top ruleid) in
        found c top ruleid ≡ pick c.disabled (is_hit c e top ruleid) e
  unfolding cache_lookup
  found_lem c top ruleid =
      let e = c.entry (bucket_of top ruleid) in
      tests c.disabled (is_hit c e top ruleid) c (record c { hit = c.hit + 1 }) e

  after_set :
      (c : Cache A) (top ruleid ret : ℕ) (records : Option (RArray A))
      (startrec size top' ruleid' : ℕ)
      → found (cache_set c top ruleid ret records startrec size) top' ruleid' ≡ (
          if skips c ret size
          then found c top' ruleid'
          else if same_key top ruleid top' ruleid'
          then some (new_entry c top ruleid ret records startrec size)
          else if bucket_of top' ruleid' == bucket_of top ruleid
          then none
          else found c top' ruleid')
  unfolding cache_set pick put_at new_entry
  after_set c top ruleid ret records startrec size top' ruleid' =
      elim (Bool-cases (skips c ret size)) [
        | inl skip ↦ rw (skip, cache_set) refl
        | inr stores ↦
            let on : c.disabled ≡ false = ground arith in
            let here = bucket_of top ruleid in
            let new = new_entry c top ruleid ret records startrec size in
            let looks = found_lem (record c { entry = put_at c.entry here new }) top' ruleid' in
            let seen : Entry A → Option (Entry A) =
              λ e. pick c.disabled (is_hit c e top' ruleid') e in
            elim (Bool-cases (bucket_of top' ruleid' == here)) [
              | inr apart ↦
                  let old : put_at c.entry here new (bucket_of top' ruleid')
                      ≡ c.entry (bucket_of top' ruleid') =
                    rw (put_at, apart) refl in
                  rw (stores, cache_set, same_bucket top ruleid top' ruleid' apart, apart)
                    (looks ∙ ap seen old ∙ sym (found_lem c top' ruleid'))
              | inl same ↦
                  let own : put_at c.entry here new (bucket_of top' ruleid') ≡ new =
                    rw (put_at, same) refl in
                  let hit : is_hit c new top' ruleid' ≡ same_key top ruleid top' ruleid' =
                    rw (==_refl c.serial) refl in
                  let chosen =
                    looks
                    ∙ ap seen own
                    ∙ ap (λ h. pick c.disabled h new) hit
                    ∙ ap (λ o. pick o (same_key top ruleid top' ruleid') new) on in
                  elim (Bool-cases (same_key top ruleid top' ruleid')) [
                    | inl alike ↦
                        rw (stores, cache_set, same, alike)
                          (chosen ∙ ap (λ h. pick false h new) alike)
                    | inr differ ↦
                        rw (stores, cache_set, same, differ)
                          (chosen ∙ ap (λ h. pick false h new) differ)
                  ]
            ]
      ]

  -- After a result was stored for a rule at a place, the lookup of that rule and place finds it, with
  -- its result, the start and the size that were given, and as many records as the match has. A
  -- lookup of another key that falls into the same slot finds nothing, and every other lookup finds
  -- what it found before. A disabled cache, or a match with more than 128 records, changes nothing.
  pub found-cache_set :
      (c : Cache A) (top ruleid ret : ℕ) (records : Option (RArray A))
      (startrec size top' ruleid' : ℕ)
      → (found (cache_set c top ruleid ret records startrec size) top' ruleid' ≡ (
          if changes_nothing c.disabled ret size
          then found c top' ruleid'
          else if same_key top ruleid top' ruleid'
          then some (stored c top ruleid ret records startrec size)
          else if bucket_of top' ruleid' == bucket_of top ruleid
          then none
          else found c top' ruleid'))
        × ((stored c top ruleid ret records startrec size).records.len ≡ number_of records size)
  unfolding new_entry
  found-cache_set c top ruleid ret records startrec size top' ruleid' = (
    after_set c top ruleid ret records startrec size top' ruleid',
    length-stored c top ruleid ret records startrec size,
  )

  -- no slot is from the future
  pub record IsCache (c : Cache A) : Type 0 where
    pub past : (i : ℕ) → (c.entry i).serial ≤ c.serial

  missed :
      (c : Cache A) (e : Entry A) (top ruleid : ℕ)
      → (e.serial == c.serial) ≡ false
      → is_hit c e top ruleid ≡ false
  missed c e top ruleid stale = rw stale refl

  pick_miss : (off : Bool) (e : Entry A) → pick off false e ≡ none
  unfolding pick
  pick_miss true e = refl
  pick_miss false e = refl

  put_at-past :
      (c : Cache A) (i : ℕ) (e : Entry A)
      → IsCache c
      → e.serial ≡ c.serial
      → (j : ℕ) → (put_at c.entry i e j).serial ≤ c.serial
  unfolding put_at
  put_at-past c i e ok now j = elim (Bool-cases (j == i)) [
    | inl here ↦ rw here (omega arith)
    | inr other ↦ rw other (ok.past j)
  ]

  -- Invalidating the cache makes every lookup find nothing, and keeps the cache well-formed, as storing
  -- a result does: while the serial number does not wrap.
  pub invalidate_lem :
      (c : Cache A)
      → IsCache c
      → c.serial + 1 < 2 ^ 64
      → ((top ruleid : ℕ) → found (invalidate c) top ruleid ≡ none)
        × IsCache (invalidate c)
        × ((top ruleid ret : ℕ) (records : Option (RArray A)) (startrec size : ℕ)
            → IsCache (cache_set c top ruleid ret records startrec size))
  unfolding invalidate cache_lookup cache_set put_at new_entry
  invalidate_lem c ok room =
      let e : (c.serial + 1) % 2 ^ 64 ≡ c.serial + 1 = omega arith in
      (
        λ top ruleid.
            let stale : ((c.entry (bucket_of top ruleid)).serial == ((c.serial + 1) % 2 ^ 64))
                ≡ false =
              ne→== _ _ (omega (arith, ok.past (bucket_of top ruleid))) in
            let slot_ = c.entry (bucket_of top ruleid) in
            found_lem (invalidate c) top ruleid
            ∙ ap (λ h. pick c.disabled h slot_) (missed (invalidate c) slot_ top ruleid stale)
            ∙ pick_miss c.disabled slot_,
        record { past = λ i. omega (arith, ok.past i, e) },
        λ top ruleid ret records startrec size. elim (Bool-cases (skips c ret size)) [
          | inl skip ↦ rw (skip, cache_set) ok
          | inr stores ↦
              rw (stores, cache_set)
                (record {
                  past =
                      put_at-past c (bucket_of top ruleid)
                        (new_entry c top ruleid ret records startrec size) ok refl;
                })
        ],
      )
