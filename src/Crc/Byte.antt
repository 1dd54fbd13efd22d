-- ===== src/Crc/Byte.antt =====
-- crc/crc8.c: the table driven routine against the bitwise one, and what the checksum detects.
use Prim.Native.Nat.{bit_xor}
use cfunction.Prelude.{
  ℕ, zero, suc, ◌+◌, ◌/◌, ◌%◌, ◌<◌, ◌≡◌, ◌≢◌, refl, sym, ap, ◌∙◌, true, List, [], ◌∷◌, ◌++◌, arith,
  ◌==◌, ==_iff, if◌then◌else◌, get_or, holds_below, holds_at, All,
}
use cfunction.Bits.{bit_xor_lt, bit_xor_self, bit_xor_cancel, bit_xor_comm}
use cfunction.Crc.{shift8, rounds8, crc8_from, crc8, crc8_table_from, crc8_table}
use cfunction.Crc.Table8.{crc_array}

abbrev pub IsBytes : List ℕ → Type 0
IsBytes = All (λ b. b < 256)

-- The table holds the eight rounds of every byte.
table_holds_rounds : holds_below (λ x. get_or crc_array x 0 == rounds8 8 x) 256 ≡ true
unfolding holds_below crc_array rounds8 shift8
table_holds_rounds = refl

table-rounds8 : (x : ℕ) → x < 256 → get_or crc_array x 0 ≡ rounds8 8 x
table-rounds8 x h = (==_iff _ _).0 (holds_at _ 256 x h table_holds_rounds)

shift8_lt : (x : ℕ) → shift8 x < 256
unfolding shift8
shift8_lt x = ground arith

rounds8_lt : (n x : ℕ) → x < 256 → rounds8 n x < 256
unfolding rounds8
rounds8_lt zero x h = h
rounds8_lt (suc n) x h = rounds8_lt n (shift8 x) (shift8_lt x)

xor_byte : (x y : ℕ) → x < 256 → y < 256 → bit_xor x y < 256
xor_byte = bit_xor_lt 8

table_from-crc8_from :
    (crc : ℕ) (buf : List ℕ) → crc < 256 → IsBytes buf → crc8_table_from crc buf ≡ crc8_from crc buf
unfolding crc8_from crc8_table_from
table_from-crc8_from crc [] h bs = refl
table_from-crc8_from crc (b ∷ buf) h (hb, hs) =
    let fits = xor_byte crc b h hb in
    rw (table-rounds8 (bit_xor crc b) fits)
      (table_from-crc8_from (rounds8 8 (bit_xor crc b)) buf (rounds8_lt 8 _ fits) hs)

-- The table driven checksum is the bitwise one, for every byte buffer.
pub crc8_table-eq-crc8 : (buf : List ℕ) → IsBytes buf → crc8_table buf ≡ crc8 buf
unfolding crc8 crc8_table
crc8_table-eq-crc8 buf bs = table_from-crc8_from 0 buf (omega arith) bs

crc8_from_lt : (crc : ℕ) (buf : List ℕ) → crc < 256 → IsBytes buf → crc8_from crc buf < 256
unfolding crc8_from
crc8_from_lt crc [] h bs = h
crc8_from_lt crc (b ∷ buf) h (hb, hs) =
    crc8_from_lt (rounds8 8 (bit_xor crc b)) buf (rounds8_lt 8 _ (xor_byte crc b h hb)) hs

crc8_from-append :
    (crc : ℕ) (xs ys : List ℕ) → crc8_from crc (xs ++ ys) ≡ crc8_from (crc8_from crc xs) ys
unfolding crc8_from
crc8_from-append crc [] ys = refl
crc8_from-append crc (x ∷ xs) ys = crc8_from-append (rounds8 8 (bit_xor crc x)) xs ys

-- A message followed by its own checksum has checksum 0.
pub crc8-append_self : (buf : List ℕ) → crc8 (buf ++ (crc8 buf ∷ [])) ≡ 0
unfolding crc8 crc8_from rounds8 shift8
crc8-append_self buf =
    crc8_from-append 0 buf (crc8_from 0 buf ∷ []) ∙ ap (rounds8 8) (bit_xor_self (crc8_from 0 buf))

-- The round run backwards: the low bit tells whether the polynomial was mixed in.
unshift8 : ℕ → ℕ
unshift8 y = if y % 2 == 0 then y / 2 else bit_xor y 0x07 / 2 + 128

unrounds8 : ℕ → ℕ → ℕ
unrounds8 zero y = y
unrounds8 (suc n) y = unshift8 (unrounds8 n y)

rounds_undone : holds_below (λ x. unrounds8 8 (rounds8 8 x) == x) 256 ≡ true
unfolding holds_below unrounds8 unshift8 rounds8 shift8
rounds_undone = refl

rounds8_injective : (x y : ℕ) → x < 256 → y < 256 → rounds8 8 x ≡ rounds8 8 y → x ≡ y
rounds8_injective x y hx hy e =
    sym ((==_iff _ _).0 (holds_at _ 256 x hx rounds_undone))
    ∙ ap (unrounds8 8) e
    ∙ (==_iff _ _).0 (holds_at _ 256 y hy rounds_undone)

crc8_from_injective :
    (c d : ℕ) (buf : List ℕ)
    → c < 256
    → d < 256
    → IsBytes buf
    → crc8_from c buf ≡ crc8_from d buf
    → c ≡ d
unfolding crc8_from
crc8_from_injective c d [] hc hd bs e = e
crc8_from_injective c d (b ∷ buf) hc hd (hb, hs) e =
    let p = xor_byte c b hc hb in
    let q = xor_byte d b hd hb in
    let same_rounds : rounds8 8 (bit_xor c b) ≡ rounds8 8 (bit_xor d b) =
      crc8_from_injective (rounds8 8 (bit_xor c b)) (rounds8 8 (bit_xor d b)) buf (rounds8_lt 8 _ p)
        (rounds8_lt 8 _ q) hs e in
    let same_xor = rounds8_injective (bit_xor c b) (bit_xor d b) p q same_rounds in
    bit_xor_cancel b c d (bit_xor_comm b c ∙ same_xor ∙ bit_xor_comm d b)

-- The checksum detects every change of a single byte: two messages that differ in one byte have
-- different checksums.
pub crc8_detects :
    (xs ys : List ℕ) (a b : ℕ)
    → IsBytes xs
    → IsBytes ys
    → a < 256
    → b < 256
    → a ≢ b
    → crc8 (xs ++ a ∷ ys) ≢ crc8 (xs ++ b ∷ ys)
unfolding crc8 crc8_from
crc8_detects xs ys a b hx hy ha hb ne e =
    let c = crc8_from 0 xs in
    let hc = crc8_from_lt 0 xs (omega arith) hx in
    let p = xor_byte c a hc ha in
    let q = xor_byte c b hc hb in
    let same : crc8_from (rounds8 8 (bit_xor c a)) ys ≡ crc8_from (rounds8 8 (bit_xor c b)) ys =
      sym (crc8_from-append 0 xs (a ∷ ys)) ∙ e ∙ crc8_from-append 0 xs (b ∷ ys) in
    let same_rounds =
      crc8_from_injective (rounds8 8 (bit_xor c a)) (rounds8 8 (bit_xor c b)) ys (rounds8_lt 8 _ p)
        (rounds8_lt 8 _ q) hy same in
    ne (bit_xor_cancel c a b (rounds8_injective (bit_xor c a) (bit_xor c b) p q same_rounds))
