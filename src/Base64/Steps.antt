-- ===== src/Base64/Steps.antt =====
-- A round of the decoder of encode/base64.c on the digits that the encoder wrote.
use cfunction.Prelude.{
  ℕ, suc, ◌+◌, ◌*◌, ◌/◌, ◌%◌, ◌^◌, ◌<◌, ◌≤◌, ◌≡◌, refl, true, some, List, ltb, lt→ltb, length,
  arith,
}
use cfunction.Bits.{bit_or, bit_and, bit_and_three, bit_and_fifteen, bit_and_63}
use cfunction.Base64.{digit, decode_round, decode_loop}
use cfunction.Base64.Table.{table}
use cfunction.Base64.Sextet.{
  table-digit, second_digit, third_digit, first_byte, second_byte, third_byte,
}
use cfunction.Base64.Buffer.{Step, step}

pub stop : (k n i j : ℕ) (code : List ℕ) → n ≤ i → decode_loop (suc k) n i j code ≡ some code
unfolding decode_loop
stop k n i j code h = ground arith

pub go_on :
    (k n i j : ℕ) (code next : List ℕ)
    → i + 4 ≤ n
    → decode_round i j code ≡ some next
    → decode_loop (suc k) n i j code ≡ decode_loop k n (i + 4) (j + 3) next
unfolding decode_loop
go_on k n i j code next h e =
    let t : ltb (i + 2) n ≡ true = lt→ltb (i + 2) n (omega arith) in rw (t, e) refl

pub step_three :
    (out gap digits : List ℕ) (i j a b c : ℕ)
    → i ≡ length out + length gap
    → j ≡ length out
    → a < 256
    → b < 256
    → c < 256
    → Step out gap digits i j
        (digit (a / 2 ^ 2))
        (digit (bit_or (bit_and a 0x3 * 2 ^ 4) (b / 2 ^ 4)))
        (digit (bit_or (bit_and b 0xF * 2 ^ 2) (c / 2 ^ 6)))
        (digit (bit_and c 0x3F))
        a
        b
        c
step_three out gap digits i j a b c hi hj ha hb hc =
    let q = bit_or (bit_and a 0x3 * 2 ^ 4) (b / 2 ^ 4) in
    let r = bit_or (bit_and b 0xF * 2 ^ 2) (c / 2 ^ 6) in
    let eq : q ≡ a % 4 * 16 + b / 16 = second_digit a b hb in
    let er : r ≡ b % 16 * 4 + c / 64 = third_digit b c hc in
    let es : bit_and c 0x3F ≡ c % 64 = bit_and_63 c in
    step out gap digits i j (digit (a / 2 ^ 2)) (digit q) (digit r) (digit (bit_and c 0x3F))
      (a / 2 ^ 2) q r (bit_and c 0x3F) a b c hi hj (table-digit (a / 2 ^ 2) (omega arith))
      (table-digit q (omega arith)) (table-digit r (omega arith))
      (table-digit (bit_and c 0x3F) (omega arith))
      (first_byte a (a / 2 ^ 2) q ha (omega arith) (omega arith))
      (second_byte b q r hb (omega arith) (omega arith) (omega arith))
      (third_byte c r (bit_and c 0x3F) hc (omega arith) (omega arith))

-- With one or two bytes the round writes two or one more behind them.
pub step_two :
    (out gap digits : List ℕ) (i j a b : ℕ)
    → i ≡ length out + length gap
    → j ≡ length out
    → a < 256
    → b < 256
    → (c : ℕ) × Step out gap digits i j
        (digit (a / 2 ^ 2))
        (digit (bit_or (bit_and a 0x3 * 2 ^ 4) (b / 2 ^ 4)))
        (digit (bit_and b 0xF * 2 ^ 2))
        b'='
        a
        b
        c
unfolding table
step_two out gap digits i j a b hi hj ha hb =
    let q = bit_or (bit_and a 0x3 * 2 ^ 4) (b / 2 ^ 4) in
    let r = bit_and b 0xF * 2 ^ 2 in
    let eq : q ≡ a % 4 * 16 + b / 16 = second_digit a b hb in
    let er : r ≡ b % 16 * 4 = omega (arith, bit_and_fifteen b) in
    let c = bit_or (r * 2 ^ 6) 0 % 256 in
    (
      c,
      step out gap digits i j (digit (a / 2 ^ 2)) (digit q) (digit r) b'=' (a / 2 ^ 2) q r 0 a b c
          hi hj (table-digit (a / 2 ^ 2) (omega arith)) (table-digit q (omega arith))
          (table-digit r (omega arith)) refl
          (first_byte a (a / 2 ^ 2) q ha (omega arith) (omega arith))
          (second_byte b q r hb (omega arith) (omega arith) (omega arith)) refl,
    )

pub step_one :
    (out gap digits : List ℕ) (i j a : ℕ)
    → i ≡ length out + length gap
    → j ≡ length out
    → a < 256
    → (b c : ℕ) × Step out gap digits i j
        (digit (a / 2 ^ 2))
        (digit (bit_and a 0x3 * 2 ^ 4))
        b'='
        b'='
        a
        b
        c
unfolding table
step_one out gap digits i j a hi hj ha =
    let q = bit_and a 0x3 * 2 ^ 4 in
    let eq : q ≡ a % 4 * 16 = omega (arith, bit_and_three a) in
    let b = bit_or (q * 2 ^ 4) (0 / 2 ^ 2) % 256 in
    let c = bit_or (0 * 2 ^ 6) 0 % 256 in
    (
      b,
      c,
      step out gap digits i j (digit (a / 2 ^ 2)) (digit q) b'=' b'=' (a / 2 ^ 2) q 0 0 a b c hi hj
          (table-digit (a / 2 ^ 2) (omega arith)) (table-digit q (omega arith)) refl refl
          (first_byte a (a / 2 ^ 2) q ha (omega arith) (omega arith)) refl refl,
    )
