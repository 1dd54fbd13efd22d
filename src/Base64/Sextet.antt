-- ===== src/Base64/Sextet.antt =====
-- Three bytes against four digits of six bits: the arithmetic of encode/base64.c.
use cfunction.Prelude.{
  ℕ, ◌+◌, ◌*◌, ◌/◌, ◌%◌, ◌^◌, ◌<◌, ◌≡◌, refl, ◌∙◌, Bool, true, ◌&&◌, none, some, ◌==◌, not,
  get_elem?, holds_below, holds_at, arith,
}
use cfunction.Bits.{bit_and, bit_or, bit_or_fields, bit_and_three, bit_and_fifteen}
use cfunction.Base64.{digit}
use cfunction.Base64.Table.{table}

-- The table inverts the digits, and no digit ends the string or is the padding.
invert : ℕ → Bool
unfolding table digit
invert v = elim (get_elem? table (digit v)) [ none ↦ Bool.false | some w ↦ v == w ]

inverts : holds_below invert 64 ≡ true
unfolding invert holds_below
inverts = refl

Option-eq :
    (v d : ℕ)
    → (elim (get_elem? table d) [ none ↦ Bool.false | some w ↦ v == w ]) ≡ true
    → get_elem? table d ≡ some v
Option-eq v d h = ground arith

pub table-digit : (v : ℕ) → v < 64 → get_elem? table (digit v) ≡ some v
unfolding invert
table-digit v lt = Option-eq v (digit v) (holds_at invert 64 v lt inverts)

letter : ℕ → Bool
unfolding digit
letter v = not (digit v == 0) && not (digit v == b'=')

letters : holds_below letter 64 ≡ true
unfolding letter holds_below
letters = refl

pub digit-letter :
    (v : ℕ) → v < 64 → ((digit v == 0) ≡ Bool.false) × ((digit v == b'=') ≡ Bool.false)
unfolding letter
digit-letter v lt = let h = holds_at letter 64 v lt letters in ground arith

-- The digits of a round

pub second_digit :
    (a b : ℕ) → b < 256 → bit_or (bit_and a 0x3 * 2 ^ 4) (b / 2 ^ 4) ≡ a % 4 * 16 + b / 16
second_digit a b h =
    bit_or_fields 4 (bit_and a 0x3) (b / 2 ^ 4) (omega arith) ∙ omega (arith, bit_and_three a)

pub third_digit :
    (b c : ℕ) → c < 256 → bit_or (bit_and b 0xF * 2 ^ 2) (c / 2 ^ 6) ≡ b % 16 * 4 + c / 64
third_digit b c h =
    bit_or_fields 2 (bit_and b 0xF) (c / 2 ^ 6) (omega arith) ∙ omega (arith, bit_and_fifteen b)

-- The bytes that the decoder puts together
pub first_byte :
    (a p q : ℕ) → a < 256 → p ≡ a / 4 → q / 16 ≡ a % 4 → bit_or (p * 2 ^ 2) (q / 2 ^ 4) % 256 ≡ a
first_byte a p q h e f = omega (arith, bit_or_fields 2 p (q / 2 ^ 4) (omega arith))

pub second_byte :
    (b q r : ℕ)
    → b < 256
    → q % 16 ≡ b / 16
    → r < 64
    → r / 4 ≡ b % 16
    → bit_or (q * 2 ^ 4) (r / 2 ^ 2) % 256 ≡ b
second_byte b q r h e l f = omega (arith, bit_or_fields 4 q (r / 2 ^ 2) (omega arith))

pub third_byte :
    (c r s : ℕ) → c < 256 → r % 4 ≡ c / 64 → s ≡ c % 64 → bit_or (r * 2 ^ 6) s % 256 ≡ c
third_byte c r s h e f = omega (arith, bit_or_fields 6 r s (omega arith))
