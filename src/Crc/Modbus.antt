-- ===== src/Crc/Modbus.antt =====
-- CRC-16/MODBUS by its definition: the reflected polynomial 0xA001 over a 16-bit register that
-- starts at 0xFFFF. It is written without the tables of crc/crc16.c, as the measure for them.
use Prim.Native.Nat.{bit_xor}
use cfunction.Prelude.{
  ℕ, zero, suc, ◌/◌, ◌%◌, ◌≡◌, refl, sym, ap, ap₂, ◌∙◌, List, [], ◌∷◌, arith, ◌==◌, if◌then◌else◌,
}
use cfunction.Bits.{bit_xor_assoc, bit_xor_comm, div-bit_xor, mod-bit_xor, bit_xor-zero}

unfoldable pub shift16 : ℕ → ℕ
shift16 r = if r % 2 == 0 then r / 2 else bit_xor (r / 2) 0xA001

unfoldable pub rounds16 : ℕ → ℕ → ℕ
rounds16 zero r = r
rounds16 (suc n) r = rounds16 n (shift16 r)

unfoldable pub modbus_from : ℕ → List ℕ → ℕ
modbus_from r [] = r
modbus_from r (b ∷ buf) = modbus_from (rounds16 8 (bit_xor r b)) buf

unfoldable pub modbus : List ℕ → ℕ
unfolding modbus_from
modbus = modbus_from 0xFFFF

-- What a round mixes in.
feedback : ℕ → ℕ
feedback r = if r % 2 == 0 then 0 else 0xA001

shift16-feedback : (r : ℕ) → shift16 r ≡ bit_xor (r / 2) (feedback r)
unfolding shift16 feedback
shift16-feedback r = ground (arith, bit_xor-zero (r / 2))

feedback-bit_xor : (a b : ℕ) → feedback (bit_xor a b) ≡ bit_xor (feedback a) (feedback b)
unfolding feedback
feedback-bit_xor a b = ground (arith, mod-bit_xor a b)

-- Two sums of two meet crosswise.
xor_middle :
    (a b c d : ℕ) → bit_xor (bit_xor a b) (bit_xor c d) ≡ bit_xor (bit_xor a c) (bit_xor b d)
xor_middle a b c d =
    bit_xor_assoc a b (bit_xor c d)
    ∙ ap (bit_xor a)
        (sym (bit_xor_assoc b c d) ∙ ap (λ x. bit_xor x d) (bit_xor_comm b c) ∙ bit_xor_assoc c b d)
    ∙ sym (bit_xor_assoc a c (bit_xor b d))

-- A round, and so any number of rounds, is linear.
pub shift16-bit_xor : (a b : ℕ) → shift16 (bit_xor a b) ≡ bit_xor (shift16 a) (shift16 b)
shift16-bit_xor a b =
    shift16-feedback (bit_xor a b)
    ∙ ap₂ bit_xor (div-bit_xor a b) (feedback-bit_xor a b)
    ∙ xor_middle (a / 2) (b / 2) (feedback a) (feedback b)
    ∙ ap₂ bit_xor (sym (shift16-feedback a)) (sym (shift16-feedback b))

pub rounds16-bit_xor :
    (n a b : ℕ) → rounds16 n (bit_xor a b) ≡ bit_xor (rounds16 n a) (rounds16 n b)
unfolding rounds16
rounds16-bit_xor zero a b = refl
rounds16-bit_xor (suc n) a b =
    ap (rounds16 n) (shift16-bit_xor a b) ∙ rounds16-bit_xor n (shift16 a) (shift16 b)
