-- ===== src/RArray/Tests.antt =====
-- The array operations on a concrete array, with an allocator that never fails.
use rpatk.Base.{ℕ, ◌≡◌, refl, true, [], ◌∷◌, ltb, if◌then◌else◌, arith}
use rpatk.Base.Slices.{remove_at}
use rpatk.RArray.{Memory, RArray, contents, delete}
use rpatk.RArray.Resize.{Allocates}
use rpatk.RArray.Contents.{IsValid}
use rpatk.RArray.Delete.{delete_lem}

instance abbrev words : Memory ℕ
words = record { blank = 0; allocates = λ _. true }

words-Allocates : Allocates words
words-Allocates n = refl

-- three elements in a block of four
abbrev three : RArray ℕ
three = record { data_ = 5 ∷ 6 ∷ 7 ∷ 9 ∷ []; len = 3 }

three-IsValid : IsValid three
three-IsValid = record { fits = omega arith }

delete_lem_example :
    (contents (delete three 0)
      ≡ (if ltb 0 three.len then remove_at 0 (contents three) else contents three))
    × IsValid (delete three 0)
delete_lem_example = delete_lem three 0 three-IsValid
