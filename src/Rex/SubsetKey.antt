-- ===== src/Rex/SubsetKey.antt =====
-- rex/rexdfaconv.c: the functions by which the hash of the subset construction finds a subset.
use rpatk.Base.{
  ℕ, ◌≡◌, ◌↔◌, refl, sym, ap, ◌∙◌, Bool, true, false, ◌&&◌, ◌+◌, ◌*◌, ◌%◌, ◌^◌, List, [], ◌∷◌, ◌++◌,
  length, ◌==◌, arith, if◌then◌else◌,
}
use rpatk.RHash.{Key}
use rpatk.RHash.Names.{mix}
use rpatk.RHash.Buckets.{IsKey}

subsethash_loop : List ℕ → ℕ → ℕ
subsethash_loop [] hash = hash
subsethash_loop (uid ∷ subset) hash = subsethash_loop subset (mix uid hash)

unfoldable pub subsethash : List ℕ → ℕ
unfolding subsethash_loop
subsethash subset = subsethash_loop subset 0

-- the loop stops at the first difference; with equal lengths both lists end together
same_uids : List ℕ → List ℕ → Bool
same_uids [] ys = true
same_uids (x ∷ xs) [] = true
same_uids (x ∷ xs) (y ∷ ys) = let rest = same_uids xs ys in if x == y then rest else false

unfoldable pub subsetequal : List ℕ → List ℕ → Bool
unfolding same_uids
subsetequal xs ys = (length xs == length ys) && same_uids xs ys

instance abbrev pub subset_key : Key (List ℕ)
subset_key = record { equal = subsetequal; hash = subsethash }

same_uids-equal : (xs ys : List ℕ) → length xs ≡ length ys → same_uids xs ys ≡ true → xs ≡ ys
unfolding same_uids
same_uids-equal [] [] e h = refl
same_uids-equal [] (y ∷ ys) e h = absurd (omega arith)
same_uids-equal (x ∷ xs) [] e h = absurd (omega arith)
same_uids-equal (x ∷ xs) (y ∷ ys) e h =
    let tail = same_uids-equal xs ys (omega arith) in ground (arith, tail)

same_uids_self : (xs : List ℕ) → same_uids xs xs ≡ true
unfolding same_uids
same_uids_self [] = refl
same_uids_self (x ∷ xs) = ground (arith, same_uids_self xs)

-- Two subsets are equal to the hash exactly if they are the same array of states.
pub subsetequal_lem : (xs ys : List ℕ) → (subsetequal xs ys ≡ true) ↔ (xs ≡ ys)
unfolding subsetequal
subsetequal_lem xs ys = (
  λ h. same_uids-equal xs ys (ground arith) (ground arith),
  λ e. rw (← e) (ground (arith, same_uids_self xs)),
)

-- Equality of subsets is symmetric and transitive, and equal subsets have the same hash.
pub subset_key-IsKey : IsKey subset_key
subset_key-IsKey = record {
  symm = λ a b h. (subsetequal_lem b a).1 (sym ((subsetequal_lem a b).0 h));
  trans =
      λ a b c h g. (subsetequal_lem a c).1 ((subsetequal_lem a b).0 h ∙ (subsetequal_lem b c).0 g);
  hash = λ a b h. ap subsethash ((subsetequal_lem a b).0 h);
}

subsethash_loop-append :
    (xs : List ℕ) (y hash : ℕ)
    → subsethash_loop (xs ++ y ∷ []) hash ≡ mix y (subsethash_loop xs hash)
unfolding subsethash_loop
subsethash_loop-append [] y hash = refl
subsethash_loop-append (x ∷ xs) y hash = subsethash_loop-append xs y (mix x hash)

-- The functions of the hash of subsets: two subsets are equal exactly if they are the same array of
-- states, the empty one has the hash 0, and one more state at the end makes of a hash 65599 times
-- it plus the state, modulo the word.
pub subset_key_lem :
    (xs ys : List ℕ) (y : ℕ)
    → ((subset_key.equal xs ys ≡ true) ↔ (xs ≡ ys))
      × (subset_key.hash [] ≡ 0)
      × (subset_key.hash (xs ++ y ∷ []) ≡ (subset_key.hash xs * 65599 + y) % 2 ^ 64)
unfolding subsethash subsethash_loop mix
subset_key_lem xs ys y =
    let h = subsethash xs in
    (subsetequal_lem xs ys, refl, subsethash_loop-append xs y 0 ∙ omega arith)
