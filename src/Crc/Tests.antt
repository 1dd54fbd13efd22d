-- ===== src/Crc/Tests.antt =====
-- Runs of the checksums, those of `main` in crc8.c and crc16.c among them, and the theorems at
-- concrete messages.
use cfunction.Prelude.{ℕ, ◌≡◌, refl, List, [], ◌∷◌, arith, codes}
use cfunction.Crc.{crc8, crc8_table, crc16, bcc}
use cfunction.Crc.Byte.{IsBytes, crc8_table-eq-crc8}
use cfunction.Crc.Modbus.{modbus}
use cfunction.Crc.Word.{swap, crc16-modbus}

abbrev arr3 : List ℕ
arr3 = 0x10 ∷ 0x11 ∷ 0x12 ∷ []

abbrev frame : List ℕ
frame = 0x52 ∷ 0x4A ∷ 0x01 ∷ 0x01 ∷ 0x00 ∷ 0x00 ∷ 0x00 ∷ 0x00 ∷ []

-- The sentence of the usage text of bcc.c, which names 59 (hexadecimal) for it
gnrmc : bcc (codes "GNRMC,031211.104,V,,,,,0.00,0.00,060180,,,N") ≡ 0x59
unfolding bcc
gnrmc = refl

both_routines : crc8_table arr3 ≡ crc8 arr3
unfolding crc8_table crc8
both_routines = refl

arr3-IsBytes : IsBytes arr3
arr3-IsBytes = omega arith

frame-IsBytes : IsBytes frame
frame-IsBytes = omega arith

crc8_table-eq-crc8_example : crc8_table arr3 ≡ crc8 arr3
crc8_table-eq-crc8_example = crc8_table-eq-crc8 arr3 arr3-IsBytes

crc16-modbus_example : crc16 frame ≡ swap (modbus frame)
crc16-modbus_example = crc16-modbus frame frame-IsBytes
