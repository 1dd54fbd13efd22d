-- ===== src/Bits/Digits.antt =====
-- The three operations, one binary digit at a time.
use Prim.Native.Nat.{
  min, max, differ, digits, bit_and, bit_or, bit_xor, bit_and-bitwise, bit_or-bitwise,
  bit_xor-bitwise,
}
use cfunction.Prelude.{ℕ, zero, suc, ◌+◌, ◌*◌, ◌/◌, ◌%◌, ◌≤◌, ◌<◌, ◌≡◌, refl, ap, ◌∙◌, arith}

module _ (last : ℕ → ℕ) (op : ℕ → ℕ → ℕ) where
  -- Any count of digits that covers the first number gives the same result.
  enough_digits : (a b n k : ℕ) → a ≤ n → a ≤ k → digits last op n a b ≡ digits last op k a b
  enough_digits zero b zero zero p q = refl
  enough_digits zero b zero (suc k) p q = refl
  enough_digits zero b (suc n) zero p q = refl
  enough_digits zero b (suc n) (suc k) p q = refl
  enough_digits (suc a) b zero k p q = absurd (omega arith)
  enough_digits (suc a) b (suc n) zero p q = absurd (omega arith)
  enough_digits (suc a) b (suc n) (suc k) p q =
      ap (λ r. r * 2 + op (suc a % 2) (b % 2))
        (enough_digits (suc a / 2) (b / 2) n k (omega arith) (omega arith))

  bitwise_step :
      (a b : ℕ)
      → digits last op (suc a) (suc a) b
        ≡ digits last op (suc a / 2) (suc a / 2) (b / 2) * 2 + op (suc a % 2) (b % 2)
  bitwise_step a b =
      ap (λ r. r * 2 + op (suc a % 2) (b % 2))
        (enough_digits (suc a / 2) (b / 2) a (suc a / 2) (omega arith) (omega arith))

differ_digit : (x y : ℕ) → x < 2 → y < 2 → differ x y ≡ (x + y) % 2
differ_digit zero y p q = omega arith
differ_digit (suc zero) zero p q = refl
differ_digit (suc zero) (suc zero) p q = refl
differ_digit (suc zero) (suc (suc y)) p q = absurd (omega arith)
differ_digit (suc (suc x)) y p q = absurd (omega arith)

bit_xor_whole :
    (x y : ℕ)
    → bit_xor (suc x) y
      ≡ digits (λ d. d) differ (suc x / 2) (suc x / 2) (y / 2) * 2 + differ (suc x % 2) (y % 2)
bit_xor_whole x y = bit_xor-bitwise (suc x) y ∙ bitwise_step (λ d. d) differ x y

-- The lowest digits of `^` are added without carry.
pub bit_xor_step : (x y : ℕ) → bit_xor x y ≡ 2 * bit_xor (x / 2) (y / 2) + (x % 2 + y % 2) % 2
bit_xor_step zero y = omega (arith, bit_xor-bitwise 0 y, bit_xor-bitwise 0 (y / 2))
bit_xor_step (suc x) y = omega (
  arith,
  bit_xor_whole x y,
  bit_xor-bitwise (suc x / 2) (y / 2),
  differ_digit (suc x % 2) (y % 2) (omega arith) (omega arith),
)

bit_or_whole :
    (x y : ℕ)
    → bit_or (suc x) y
      ≡ digits (λ d. d) max (suc x / 2) (suc x / 2) (y / 2) * 2 + max (suc x % 2) (y % 2)
bit_or_whole x y = bit_or-bitwise (suc x) y ∙ bitwise_step (λ d. d) max x y

-- Those of `|` give the larger, those of `&` the smaller.
pub bit_or_step : (x y : ℕ) → bit_or x y ≡ 2 * bit_or (x / 2) (y / 2) + max (x % 2) (y % 2)
bit_or_step zero y = omega (arith, bit_or-bitwise 0 y, bit_or-bitwise 0 (y / 2))
bit_or_step (suc x) y = omega (arith, bit_or_whole x y, bit_or-bitwise (suc x / 2) (y / 2))

bit_and_whole :
    (x y : ℕ)
    → bit_and (suc x) y
      ≡ digits (λ d. 0) min (suc x / 2) (suc x / 2) (y / 2) * 2 + min (suc x % 2) (y % 2)
bit_and_whole x y = bit_and-bitwise (suc x) y ∙ bitwise_step (λ d. 0) min x y

pub bit_and_step : (x y : ℕ) → bit_and x y ≡ 2 * bit_and (x / 2) (y / 2) + min (x % 2) (y % 2)
bit_and_step zero y = omega (arith, bit_and-bitwise 0 y, bit_and-bitwise 0 (y / 2))
bit_and_step (suc x) y = omega (arith, bit_and_whole x y, bit_and-bitwise (suc x / 2) (y / 2))
