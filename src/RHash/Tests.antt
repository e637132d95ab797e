-- ===== src/RHash/Tests.antt =====
-- A hash of numbers, two numbers alike if they agree modulo 10.
use rpatk.Base.{ℕ, ◌%◌, ◌≡◌, some, List, [], ◌∷◌, ◌++◌, ◌==◌, if◌then◌else◌, arith}
use rpatk.RHash.{Key, RHash, create, insert, remove, lookup_object, lookup_index, taillookup_index}
use rpatk.RHash.Values.{first, last}
use rpatk.RHash.Buckets.{
  IsKey, IsHash, create-IsHash, values, index_or, lookup_lem, insert_refines, remove_refines,
}
use rpatk.RHash.Names.{ZeroFree}

instance abbrev last_digits : Key ℕ
last_digits = record { equal = λ a b. a % 10 == b % 10; hash = λ a. a % 10 }

last_digits-IsKey : IsKey last_digits
last_digits-IsKey = record { symm = ground arith; trans = ground arith; hash = ground arith }

abbrev empty_hash : RHash ℕ
empty_hash = create 1

-- 7 and 17 are alike, 15 stands in the same bucket
abbrev filled : RHash ℕ
filled = insert (insert (insert empty_hash 7 70) 15 150) 17 170

filled-IsHash : IsHash filled
filled-IsHash =
    (insert_refines (insert (insert empty_hash 7 70) 15 150) 17 17 (λ e. ground arith) 170
      (insert_refines (insert empty_hash 7 70) 15 15 (λ e. ground arith) 150
        (insert_refines empty_hash 7 7 (λ e. ground arith) 70 (create-IsHash 1)).1).1).1

lookup_lem_example :
    (lookup_object filled 27 ≡ first (values filled 27))
    × (lookup_index filled 27 ≡ index_or (first (values filled 27)))
    × (taillookup_index filled 27 ≡ index_or (last (values filled 27)))
lookup_lem_example = lookup_lem filled 27

insert_refines_example :
    (values (insert filled 37 370) 7
      ≡ (if last_digits.equal 37 7 then values filled 7 ++ 370 ∷ [] else values filled 7))
    × IsHash (insert filled 37 370)
insert_refines_example = insert_refines filled 37 7 (λ e. ground arith) 370 filled-IsHash

remove_refines_example :
    (t : RHash ℕ) × (remove filled 7 ≡ some t)
    × IsHash t
    × ((key' : ℕ) → values t key' ≡ (if last_digits.equal 7 key' then [] else values filled key'))
remove_refines_example = remove_refines last_digits-IsKey filled 7 filled-IsHash

abbrev name : List ℕ
name = b'r' ∷ b'e' ∷ b'x' ∷ []

name-ZeroFree : ZeroFree name
name-ZeroFree = (omega arith, (omega arith, (omega arith, tt)))
