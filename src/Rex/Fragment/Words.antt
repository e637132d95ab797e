-- ===== src/Rex/Fragment/Words.antt =====
-- Sets of words, and the operations on them that the operators of regular expressions mean.
use rpatk.Base.{ℕ, zero, suc, ◌≡◌, List, [], ◌++◌}

-- a word of `P` and one of `Q` after it
abbrev pub Concat : (List ℕ → Type 0) → (List ℕ → Type 0) → List ℕ → Type 0
Concat P Q w = (x : List ℕ) × (y : List ℕ) × (w ≡ x ++ y) × P x × Q y

unfoldable pub Times : (List ℕ → Type 0) → ℕ → List ℕ → Type 0
Times P zero w = w ≡ []
Times P (suc n) w = Concat P (Times P n) w

-- any number of words of `P`, one after the other
abbrev pub Star : (List ℕ → Type 0) → List ℕ → Type 0
Star P w = (n : ℕ) × Times P n w
