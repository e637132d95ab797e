-- ===== src/Base/Bits.antt =====
-- Masks and disjoint bits: `bit_and` with a mask of ones is a remainder, and `bit_or` of numbers with
-- no bit in common is their sum.
use Prim.Native.Nat.{
  ℕ, zero, suc, ◌+◌, ◌*◌, ◌/◌, ◌%◌, ◌^◌, ◌≤◌, ◌<◌, min, max, bit_and, bit_or, digits,
  bit_and-bitwise, bit_or-bitwise,
}
use mathlib.Core.Path.{◌≡◌, refl, ap}
use mathlib.Core.Bool.{Bool, true, ◌&&◌}
use native.Mathlib.Nat.{pow-suc}
use native.Mathlib.Omega.{arith}

-- a test that passes for each number under a bound
unfoldable pub passes : (ℕ → Bool) → ℕ → Bool
passes test zero = true
passes test (suc bound) = passes test bound && test bound

pub passes_lem :
    (test : ℕ → Bool) (bound i : ℕ) → i < bound → passes test bound ≡ true → test i ≡ true
unfolding passes
passes_lem test zero i lt all = elim lt [ ]
passes_lem test (suc bound) i lt all = ground (arith, passes_lem test bound i)

-- Both operations are one recursion on the digits, with what to do at zero and on two digits.
module _ (at_zero : ℕ → ℕ) (bit : ℕ → ℕ → ℕ) where
  -- Any fuel that the first number fits in gives what the number itself as fuel gives.
  digits_irrelevant :
      (u v x y : ℕ) → u ≤ x → u ≤ y → digits at_zero bit x u v ≡ digits at_zero bit y u v
  digits_irrelevant zero v zero zero l r = refl
  digits_irrelevant zero v zero (suc y) l r = refl
  digits_irrelevant zero v (suc x) zero l r = refl
  digits_irrelevant zero v (suc x) (suc y) l r = refl
  digits_irrelevant (suc u) v zero y l r = elim l [ ]
  digits_irrelevant (suc u) v (suc x) zero l r = elim r [ ]
  digits_irrelevant (suc u) v (suc x) (suc y) l r =
      ap (λ rest. rest * 2 + bit (suc u % 2) (v % 2))
        (digits_irrelevant (suc u / 2) (v / 2) x y (omega arith) (omega arith))

  -- one digit of a positive number
  digits-half :
      (u v : ℕ)
      → digits at_zero bit (suc u) (suc u) v
        ≡ digits at_zero bit (suc u / 2) (suc u / 2) (v / 2) * 2 + bit (suc u % 2) (v % 2)
  digits-half u v =
      ap (λ rest. rest * 2 + bit (suc u % 2) (v % 2))
        (digits_irrelevant (suc u / 2) (v / 2) u (suc u / 2) (omega arith) (omega arith))

bit_and-half : (u v : ℕ) → bit_and u v ≡ bit_and (u / 2) (v / 2) * 2 + min (u % 2) (v % 2)
bit_and-half zero v = omega (arith, bit_and-bitwise 0 v, bit_and-bitwise 0 (v / 2))
bit_and-half (suc u) v = omega (
  arith,
  bit_and-bitwise (suc u) v,
  bit_and-bitwise (suc u / 2) (v / 2),
  digits-half (λ _. 0) min u v,
)

bit_or-half : (u v : ℕ) → bit_or u v ≡ bit_or (u / 2) (v / 2) * 2 + max (u % 2) (v % 2)
bit_or-half zero v = omega (arith, bit_or-bitwise 0 v, bit_or-bitwise 0 (v / 2))
bit_or-half (suc u) v = omega (
  arith,
  bit_or-bitwise (suc u) v,
  bit_or-bitwise (suc u / 2) (v / 2),
  digits-half (λ k. k) max u v,
)

zero-bit_or : (v : ℕ) → bit_or 0 v ≡ v
zero-bit_or v = bit_or-bitwise 0 v

-- Zero on the right: halving often enough leaves zero on the left as well.
zeros-right : (fuel u : ℕ) → u ≤ fuel → (bit_and u 0 ≡ 0) × (bit_or u 0 ≡ u)
zeros-right zero u le =
    let e : u ≡ 0 = omega arith in rw e (bit_and-bitwise 0 0, bit_or-bitwise 0 0)
zeros-right (suc fuel) u le =
    let (none_left, same) = zeros-right fuel (u / 2) (omega arith) in
    (omega (arith, bit_and-half u 0, none_left), omega (arith, bit_or-half u 0, same))

bit_and-zero : (u : ℕ) → bit_and u 0 ≡ 0
bit_and-zero u = (zeros-right u u (omega arith)).0

bit_or-zero : (u : ℕ) → bit_or u 0 ≡ u
bit_or-zero u = (zeros-right u u (omega arith)).1

-- One more digit of a mask.
mask_step :
    (m q a : ℕ) → bit_and (a / 2) m ≡ a / 2 % q → bit_and a (m * 2 + 1) ≡ a / 2 % q * 2 + a % 2
mask_step m q a h = omega (arith, bit_and-half a (m * 2 + 1), ap (λ t. bit_and (a / 2) t) (half m))
  where
    half : (m : ℕ) → (m * 2 + 1) / 2 ≡ m
    half m = omega arith

-- A mask of k ones keeps the k lowest bits.
pub bit_and_mask1 : (a : ℕ) → bit_and a 1 ≡ a % 2
bit_and_mask1 a = omega (arith, mask_step 0 1 a (omega (arith, bit_and-zero (a / 2))))

pub bit_and_mask2 : (a : ℕ) → bit_and a 3 ≡ a % 4
bit_and_mask2 a = omega (arith, mask_step 1 2 a (bit_and_mask1 (a / 2)))

pub bit_and_mask3 : (a : ℕ) → bit_and a 7 ≡ a % 8
bit_and_mask3 a = omega (arith, mask_step 3 4 a (bit_and_mask2 (a / 2)))

pub bit_and_mask4 : (a : ℕ) → bit_and a 15 ≡ a % 16
bit_and_mask4 a = omega (arith, mask_step 7 8 a (bit_and_mask3 (a / 2)))

pub bit_and_mask5 : (a : ℕ) → bit_and a 31 ≡ a % 32
bit_and_mask5 a = omega (arith, mask_step 15 16 a (bit_and_mask4 (a / 2)))

pub bit_and_mask6 : (a : ℕ) → bit_and a 63 ≡ a % 64
bit_and_mask6 a = omega (arith, mask_step 31 32 a (bit_and_mask5 (a / 2)))

pub bit_and_mask7 : (a : ℕ) → bit_and a 127 ≡ a % 128
bit_and_mask7 a = omega (arith, mask_step 63 64 a (bit_and_mask6 (a / 2)))

pub bit_and_mask8 : (a : ℕ) → bit_and a 255 ≡ a % 256
bit_and_mask8 a = omega (arith, mask_step 127 128 a (bit_and_mask7 (a / 2)))

pub bit_and_mask9 : (a : ℕ) → bit_and a 511 ≡ a % 512
bit_and_mask9 a = omega (arith, mask_step 255 256 a (bit_and_mask8 (a / 2)))

pub bit_and_mask10 : (a : ℕ) → bit_and a 1023 ≡ a % 1024
bit_and_mask10 a = omega (arith, mask_step 511 512 a (bit_and_mask9 (a / 2)))

double_or : (m b : ℕ) → bit_or m (b / 2) ≡ m + b / 2 → bit_or (m * 2) b ≡ m * 2 + b
double_or m b e =
    let half : m * 2 / 2 ≡ m = omega arith in
    omega (arith, bit_or-half (m * 2) b, ap (λ t. bit_or t (b / 2)) half)

or_double : (m b : ℕ) → bit_or (b / 2) m ≡ m + b / 2 → bit_or b (m * 2) ≡ m * 2 + b
or_double m b e =
    let half : m * 2 / 2 ≡ m = omega arith in
    omega (arith, bit_or-half b (m * 2), ap (λ t. bit_or (b / 2) t) half)

shift_suc : (a k : ℕ) → a * 2 ^ suc k ≡ a * 2 ^ k * 2
shift_suc a k = rw (pow-suc 2 k) (omega arith)

-- An or of numbers whose bits are disjoint is their sum.
pub bit_or-high : (k a b : ℕ) → b < 2 ^ k → bit_or (a * 2 ^ k) b ≡ a * 2 ^ k + b
bit_or-high zero a b h = let e : b ≡ 0 = omega arith in rw e (omega (arith, bit_or-zero (a * 1)))
bit_or-high (suc k) a b h =
    rw (shift_suc a k)
      (double_or (a * 2 ^ k) b (bit_or-high k a (b / 2) (omega (arith, pow-suc 2 k))))

pub bit_or-low : (k a b : ℕ) → b < 2 ^ k → bit_or b (a * 2 ^ k) ≡ a * 2 ^ k + b
bit_or-low zero a b h = let e : b ≡ 0 = omega arith in rw e (omega (arith, zero-bit_or (a * 1)))
bit_or-low (suc k) a b h =
    rw (shift_suc a k)
      (or_double (a * 2 ^ k) b (bit_or-low k a (b / 2) (omega (arith, pow-suc 2 k))))

-- a mask bounds what it lets through
bit_and-le_fuel : (fuel u mask : ℕ) → mask ≤ fuel → bit_and u mask ≤ mask
bit_and-le_fuel zero u mask le =
    let e : mask ≡ 0 = omega arith in rw e (omega (arith, bit_and-zero u))
bit_and-le_fuel (suc fuel) u zero le = omega (arith, bit_and-zero u)
bit_and-le_fuel (suc fuel) u (suc mask) le =
    omega
      (arith, bit_and-half u (suc mask), bit_and-le_fuel fuel (u / 2) (suc mask / 2) (omega arith))

pub bit_and-le : (u mask : ℕ) → bit_and u mask ≤ mask
bit_and-le u mask = bit_and-le_fuel mask u mask (omega arith)

pub two_pow-pos : (k : ℕ) → 0 < 2 ^ k
two_pow-pos zero = omega arith
two_pow-pos (suc k) = omega (arith, pow-suc 2 k, two_pow-pos k)
