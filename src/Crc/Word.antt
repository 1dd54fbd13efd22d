-- ===== src/Crc/Word.antt =====
-- crc/crc16.c against the definition of CRC-16/MODBUS.
use Prim.Native.Nat.{bit_or, bit_xor}
use Prim.Native.Nat.add
use native.Mathlib.Nat.{add-zero}
use cfunction.Prelude.{
  ℕ, ◌+◌, ◌*◌, ◌/◌, ◌%◌, ◌^◌, ◌<◌, ◌≡◌, refl, ap, ap₂, ◌∙◌, true, List, [], ◌∷◌, ◌++◌, arith, ◌==◌,
  ◌&&◌, ==_iff, get_or, holds_below, holds_at,
}
use cfunction.Bits.{
  bit_xor_lt, bit_xor_self, bit_xor_comm, bit_xor_fields, zero-bit_xor, bit_xor-zero, bit_or_fields,
}
use cfunction.Crc.{crc16_from, crc16}
use cfunction.Crc.Table16.{table_crc_hi, table_crc_lo}
use cfunction.Crc.Modbus.{shift16, rounds16, modbus_from, modbus, rounds16-bit_xor}
use cfunction.Crc.Byte.{IsBytes}

-- Eight rounds of a byte are the entries of the two tables, and eight rounds of a high byte
-- move it down.
rounds_of_low :
    holds_below (λ x. rounds16 8 x == get_or table_crc_lo x 0 * 2 ^ 8 + get_or table_crc_hi x 0) 256
    ≡ true
unfolding holds_below table_crc_hi table_crc_lo rounds16 shift16
rounds_of_low = refl

rounds_of_high : holds_below (λ x. rounds16 8 (x * 2 ^ 8) == x) 256 ≡ true
unfolding holds_below rounds16 shift16
rounds_of_high = refl

tables_are_bytes :
    holds_below
      (λ x. (get_or table_crc_hi x 0 / 256 == 0) && (get_or table_crc_lo x 0 / 256 == 0))
      256
    ≡ true
unfolding holds_below table_crc_hi table_crc_lo
tables_are_bytes = refl

hi_byte : (x : ℕ) → x < 256 → get_or table_crc_hi x 0 < 256
hi_byte x h = ground (arith, holds_at _ 256 x h tables_are_bytes)

lo_byte : (x : ℕ) → x < 256 → get_or table_crc_lo x 0 < 256
lo_byte x h = ground (arith, holds_at _ 256 x h tables_are_bytes)

low_xor : (q r b : ℕ) → r < 256 → b < 256 → bit_xor (q * 2 ^ 8 + r) b ≡ q * 2 ^ 8 + bit_xor r b
low_xor q r b h k =
    omega (
      arith,
      bit_xor_fields 8 q r 0 b h k,
      ap (bit_xor (q * 2 ^ 8 + r)) (add.zero b),
      bit_xor-zero q,
    )

-- One byte: the register `lo * 256 + hi` goes to the register of the two new halves.
rounds-step :
    (hi lo b : ℕ)
    → hi < 256
    → lo < 256
    → b < 256
    → let i = bit_xor hi b in
      rounds16 8 (bit_xor (lo * 2 ^ 8 + hi) b)
      ≡ get_or table_crc_lo i 0 * 2 ^ 8 + bit_xor lo (get_or table_crc_hi i 0)
rounds-step hi lo b hh hl hb =
    let i = bit_xor hi b in
    let i_lt : i < 256 = bit_xor_lt 8 hi b hh hb in
    let th = get_or table_crc_hi i 0 in
    let tl = get_or table_crc_lo i 0 in
    let meet : bit_xor (lo * 2 ^ 8 + hi) b ≡ bit_xor (lo * 2 ^ 8) i = omega (
      arith,
      low_xor lo hi b hh hb,
      low_xor lo 0 i (omega arith) i_lt,
      ap (λ x. bit_xor x i) (add-zero (lo * 2 ^ 8)),
      zero-bit_xor i,
    ) in
    let low : rounds16 8 i ≡ tl * 2 ^ 8 + th =
      (==_iff _ _).0 (holds_at _ 256 i i_lt rounds_of_low) in
    let high : rounds16 8 (lo * 2 ^ 8) ≡ lo =
      (==_iff _ _).0 (holds_at _ 256 lo hl rounds_of_high) in
    let join : bit_xor lo (tl * 2 ^ 8 + th) ≡ tl * 2 ^ 8 + bit_xor lo th =
      bit_xor_comm lo (tl * 2 ^ 8 + th)
      ∙ low_xor tl th lo (hi_byte i i_lt) hl
      ∙ ap (λ x. tl * 2 ^ 8 + x) (bit_xor_comm th lo) in
    ap (rounds16 8) meet ∙ rounds16-bit_xor 8 (lo * 2 ^ 8) i ∙ ap₂ bit_xor high low ∙ join

-- The two bytes of a register in the other order.
abbrev pub swap : ℕ → ℕ
swap r = r % 256 * 256 + r / 256

crc16_from-swap :
    (hi lo : ℕ) (buf : List ℕ)
    → hi < 256
    → lo < 256
    → IsBytes buf
    → crc16_from hi lo buf ≡ swap (modbus_from (lo * 2 ^ 8 + hi) buf)
unfolding crc16_from modbus_from
crc16_from-swap hi lo [] hh hl bs = bit_or_fields 8 hi lo hl ∙ omega arith
crc16_from-swap hi lo (b ∷ buf) hh hl (hb, hs) =
    let i = bit_xor hi b in
    let i_lt : i < 256 = bit_xor_lt 8 hi b hh hb in
    rw (rounds-step hi lo b hh hl hb) (
      crc16_from-swap (bit_xor lo (get_or table_crc_hi i 0)) (get_or table_crc_lo i 0) buf
        (bit_xor_lt 8 lo (get_or table_crc_hi i 0) hl (hi_byte i i_lt)) (lo_byte i i_lt) hs)

-- `crc16` returns the CRC-16/MODBUS of the buffer, its low byte first, for every byte buffer.
pub crc16-modbus : (buf : List ℕ) → IsBytes buf → crc16 buf ≡ swap (modbus buf)
unfolding crc16 modbus
crc16-modbus buf bs = crc16_from-swap 0xFF 0xFF buf (omega arith) (omega arith) bs

crc16_from-append_self :
    (hi lo : ℕ) (buf : List ℕ)
    → hi < 256
    → lo < 256
    → IsBytes buf
    → let c = crc16_from hi lo buf in crc16_from hi lo (buf ++ (c / 256) ∷ (c % 256) ∷ []) ≡ 0
unfolding crc16_from table_crc_hi table_crc_lo
crc16_from-append_self hi lo [] hh hl bs =
    let c = bit_or (hi * 2 ^ 8) lo in
    let high : c / 256 ≡ hi = omega (arith, bit_or_fields 8 hi lo hl) in
    let low : c % 256 ≡ lo = omega (arith, bit_or_fields 8 hi lo hl) in
    rw (high, low, bit_xor_self, bit_xor-zero, bit_xor_self)
crc16_from-append_self hi lo (b ∷ buf) hh hl (hb, hs) =
    let i = bit_xor hi b in
    let i_lt : i < 256 = bit_xor_lt 8 hi b hh hb in
    crc16_from-append_self (bit_xor lo (get_or table_crc_hi i 0)) (get_or table_crc_lo i 0) buf
      (bit_xor_lt 8 lo (get_or table_crc_hi i 0) hl (hi_byte i i_lt)) (lo_byte i i_lt) hs

-- A frame that carries its checksum behind the message, high byte of the result first, has
-- checksum 0.
pub crc16-append_self :
    (buf : List ℕ) → IsBytes buf → crc16 (buf ++ (crc16 buf / 256) ∷ (crc16 buf % 256) ∷ []) ≡ 0
unfolding crc16
crc16-append_self buf bs = crc16_from-append_self 0xFF 0xFF buf (omega arith) (omega arith) bs
