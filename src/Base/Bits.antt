-- ===== src/Base/Bits.antt =====
-- `bit_xor` and `bit_and` at variables.
use Prim.Native.Nat.{
  ℕ, zero, suc, ◌+◌, ◌*◌, ◌/◌, ◌%◌, ◌≤◌, ◌<◌, bit_xor, digits, differ, bit_xor-bitwise,
  bit_and-bitwise, bit_and, min, ◌-◌, ◌^◌,
}
use mathlib.Core.Path.{◌≡◌, refl, ap, ◌∙◌, ap₂, sym}
use native.Mathlib.Omega.{arith}

differ_mod : (a b : ℕ) → differ (a % 2) (b % 2) ≡ (a + b) % 2
differ_mod a b = digit (a % 2) (b % 2) (omega arith) (omega arith) ∙ omega arith
  where
    digit : (x y : ℕ) → x < 2 → y < 2 → differ x y ≡ (x + y) % 2
    digit zero y p q = omega arith
    digit (suc zero) zero p q = refl
    digit (suc zero) (suc zero) p q = refl
    digit (suc zero) (suc (suc y)) p q = absurd (omega arith)
    digit (suc (suc x)) y p q = absurd (omega arith)

-- Fuel of at least the first number reads all its digits.
digits_fuel :
    (over : ℕ → ℕ) (f : ℕ → ℕ → ℕ) (n m a b : ℕ)
    → a ≤ n
    → a ≤ m
    → digits over f n a b ≡ digits over f m a b
digits_fuel over f zero zero a b p q = refl
digits_fuel over f zero (suc m) zero b p q = refl
digits_fuel over f zero (suc m) (suc a) b p q = absurd (omega arith)
digits_fuel over f (suc n) zero zero b p q = refl
digits_fuel over f (suc n) zero (suc a) b p q = absurd (omega arith)
digits_fuel over f (suc n) (suc m) zero b p q = refl
digits_fuel over f (suc n) (suc m) (suc a) b p q =
    ap (λ r. r * 2 + f (suc a % 2) (b % 2))
      (digits_fuel over f n m (suc a / 2) (b / 2) (omega arith) (omega arith))

zero-bit_xor : (b : ℕ) → bit_xor 0 b ≡ b
zero-bit_xor b = bit_xor-bitwise 0 b

pub bit_xor_step : (a b : ℕ) → bit_xor a b ≡ bit_xor (a / 2) (b / 2) * 2 + (a + b) % 2
bit_xor_step zero b = omega (arith, zero-bit_xor b, zero-bit_xor (b / 2))
bit_xor_step (suc a) b = omega (
  arith,
  differ_mod (suc a) b,
  bit_xor-bitwise (suc a) b,
  bit_xor-bitwise (suc a / 2) (b / 2),
  digits_fuel (λ b. b) differ a (suc a / 2) (suc a / 2) (b / 2) (omega arith) (omega arith),
)

bit_xor_small : (n a b : ℕ) → a ≤ n → b ≤ n → bit_xor (bit_xor a b) b ≡ a
bit_xor_small zero zero zero p q = refl
bit_xor_small zero zero (suc b) p q = absurd (omega arith)
bit_xor_small zero (suc a) b p q = absurd (omega arith)
bit_xor_small (suc n) a b p q = omega (
  arith,
  bit_xor_step a b,
  bit_xor_step (bit_xor a b) b,
  ap (λ x. bit_xor x (b / 2)) half,
  bit_xor_small n (a / 2) (b / 2) (omega arith) (omega arith),
)
  where
    half : bit_xor a b / 2 ≡ bit_xor (a / 2) (b / 2)
    half = omega (arith, bit_xor_step a b)

-- Exclusive or with the same number twice changes nothing.
pub bit_xor_twice : (a b : ℕ) → bit_xor (bit_xor a b) b ≡ a
bit_xor_twice a b = bit_xor_small (a + b) a b (omega arith) (omega arith)

zero-bit_and : (b : ℕ) → bit_and 0 b ≡ 0
zero-bit_and b = bit_and-bitwise 0 b

bit_and-lowest : (a b : ℕ) → bit_and a b ≡ bit_and (a / 2) (b / 2) * 2 + min (a % 2) (b % 2)
bit_and-lowest zero b = omega (arith, zero-bit_and b, zero-bit_and (b / 2))
bit_and-lowest (suc a) b = omega (
  arith,
  bit_and-bitwise (suc a) b,
  bit_and-bitwise (suc a / 2) (b / 2),
  digits_fuel (λ b. 0) min a (suc a / 2) (suc a / 2) (b / 2) (omega arith) (omega arith),
)

half_mask : (k : ℕ) → (2 ^ suc k - 1) / 2 ≡ 2 ^ k - 1
half_mask k = omega arith

-- A mask of `k` ones keeps what is below `2 ^ k`, and turns `2 ^ k` into 0.
pub bit_and-mask : (k a : ℕ) → a < 2 ^ k → bit_and a (2 ^ k - 1) ≡ a
bit_and-mask zero a lt = ap (λ x. bit_and x 0) none_left ∙ sym none_left
  where
    none_left : a ≡ 0
    none_left = omega arith
bit_and-mask (suc k) a lt = omega (
  arith,
  bit_and-lowest a (2 ^ suc k - 1),
  ap (bit_and (a / 2)) (half_mask k),
  bit_and-mask k (a / 2) (omega arith),
)

pub bit_and-mask_top : (k : ℕ) → bit_and (2 ^ k) (2 ^ k - 1) ≡ 0
bit_and-mask_top zero = refl
bit_and-mask_top (suc k) = omega (
  arith,
  bit_and-lowest (2 ^ suc k) (2 ^ suc k - 1),
  ap₂ bit_and half_top (half_mask k),
  bit_and-mask_top k,
)
  where
    half_top : 2 ^ suc k / 2 ≡ 2 ^ k
    half_top = omega arith
