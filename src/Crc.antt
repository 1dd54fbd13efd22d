-- ===== src/Crc.antt =====
-- The checksums of crc/: crc8.c, crc16.c and bcc.c. Every byte is a number below 256, a `char` its
-- bit pattern; the length argument is the length of the list.
pub mod Table8
pub mod Byte
pub mod Modbus
pub mod Word
pub mod Parity
mod Tests
pub mod Table16
use Prim.Native.Nat.{bit_and, bit_or, bit_xor}
use cfunction.Prelude.{
  ℕ, zero, suc, ◌+◌, ◌*◌, ◌/◌, ◌%◌, ◌^◌, List, [], ◌∷◌, ◌==◌, if◌then◌else◌, get_or,
}
use Table8.{crc_array}
use Table16.{table_crc_hi, table_crc_lo}

-- One round of the inner `for` of `crc8`: the register is an `unsigned char`, so `crc << 1` loses
-- its top bit.
pub shift8 : ℕ → ℕ
shift8 crc = if bit_and crc 0x80 == 0 then crc * 2 % 256 else bit_xor (crc * 2) 0x07 % 256

pub rounds8 : ℕ → ℕ → ℕ
rounds8 zero crc = crc
rounds8 (suc i) crc = rounds8 i (shift8 crc)

pub crc8_from : ℕ → List ℕ → ℕ
unfolding rounds8 shift8
crc8_from crc [] = crc
crc8_from crc (b ∷ buf) = crc8_from (rounds8 8 (bit_xor crc b)) buf

pub crc8 : List ℕ → ℕ
unfolding crc8_from
crc8 = crc8_from 0

-- The index of the table is below 256 for bytes, so the default of `get_or` is not reached.
pub crc8_table_from : ℕ → List ℕ → ℕ
unfolding crc_array
crc8_table_from crc [] = crc
crc8_table_from crc (b ∷ buf) = crc8_table_from (get_or crc_array (bit_xor crc b) 0) buf

pub crc8_table : List ℕ → ℕ
unfolding crc8_table_from
crc8_table = crc8_table_from 0

-- The loop of `crc16` over the two halves of its register.
pub crc16_from : (crc_hi crc_lo : ℕ) → List ℕ → ℕ
unfolding table_crc_hi table_crc_lo
crc16_from crc_hi crc_lo [] = bit_or (crc_hi * 2 ^ 8) crc_lo
crc16_from crc_hi crc_lo (b ∷ buf) =
    let i = bit_xor crc_hi b in
    crc16_from (bit_xor crc_lo (get_or table_crc_hi i 0)) (get_or table_crc_lo i 0) buf

pub crc16 : List ℕ → ℕ
unfolding crc16_from
crc16 = crc16_from 0xFF 0xFF

-- `bcc`: the exclusive or of all bytes.
pub bcc_from : ℕ → List ℕ → ℕ
bcc_from crc [] = crc
bcc_from crc (b ∷ buf) = bcc_from (bit_xor crc b) buf

pub bcc : List ℕ → ℕ
unfolding bcc_from
bcc = bcc_from 0
