-- ===== src/Rex/Subset.antt =====
-- Sets of state numbers as strictly ascending arrays: rex/rexstate.c, rex/rexstate.h.
pub mod Member
pub mod Insert
use rpatk.Base.{ℕ, suc, Option, none, some, List, [], ◌∷◌, ◌++◌, ◌≡◌, ◌⊎◌, length, get_or}
use rpatk.Base.Slices.{insert_at}
use rpatk.Rex.Search.{place_loop, IsStrict}

abbrev pub uid_at : List ℕ → ℕ → ℕ
uid_at xs i = get_or xs i 0

abbrev pub IsSubset : List ℕ → Type 0
IsSubset xs = IsStrict (uid_at xs) (length xs)

-- the member relation, as a predicate that computes
abbrev pub In : ℕ → List ℕ → Type 0
In a [] = ⊥
In a (x ∷ xs) = (a ≡ x) ⊎ In a xs

placed : List ℕ → ℕ → Option ℕ → List ℕ
placed xs uid none = xs
placed xs uid (some r) = insert_at r uid xs

-- `rex_subset_addnewsubstate`, and in the same words `rex_dfaconv_uniquerange_insertvalue`
unfoldable pub addnew : List ℕ → ℕ → List ℕ
unfolding placed
addnew xs uid = placed xs uid (place_loop (length xs) (uid_at xs) uid 0 (length xs))

-- `rex_subset_pop`: the last member, and the rest
unfoldable pub pop_last : List ℕ → Option (List ℕ × ℕ)
pop_last [] = none
pop_last (x ∷ xs) = elim (pop_last xs) [ none ↦ some ([], x) | some (ys, y) ↦ some (x ∷ ys, y) ]
