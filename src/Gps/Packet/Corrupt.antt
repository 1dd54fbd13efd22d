-- ===== src/Gps/Packet/Corrupt.antt =====
-- The checksum of a sentence in uart/read_gps.c against a wrong byte.
use cfunction.Prelude.{
  ℕ, ◌+◌, ◌-◌, ◌*◌, ◌<◌, ◌≡◌, ◌≢◌, refl, sym, ◌∙◌, Bool, true, ◌&&◌, some, List, [], ◌∷◌, ◌++◌, inl,
  inr, leb, ◌==◌, if◌then◌else◌, All, Bool-cases, holds_below, holds_at, length, arith,
}
use cfunction.Bits.{bit_xor, bit_xor_comm, bit_xor_cancel, bit_xor_lt}
use cfunction.Gps.Packet.{
  check_from, hex_high, hex_low, to_lower, same_letter, wrong_crc, parse_packet,
}
use cfunction.Gps.Packet.Sentence.{framed, parse_packet-framed}

-- The number that two hexadecimal digits spell, in either case
value : ℕ → ℕ
value c = if leb c b'9' then c - 48 else c - 87

spelt : ℕ → ℕ → ℕ
unfolding value to_lower
spelt h l = value (to_lower h) * 16 + value (to_lower l)

spells : ℕ → Bool
unfolding spelt hex_high hex_low
spells crc = spelt (hex_high crc) (hex_low crc) == crc

every_spells : holds_below spells 256 ≡ true
unfolding spells holds_below
every_spells = refl

match_spelt :
    (crc h l : ℕ)
    → crc < 256
    → (same_letter (hex_high crc) h && same_letter (hex_low crc) l) ≡ true
    → spelt h l ≡ crc
unfolding same_letter spelt spells
match_spelt crc h l lt e =
    let hi : to_lower (hex_high crc) ≡ to_lower h = ground arith in
    let lo : to_lower (hex_low crc) ≡ to_lower l = ground arith in
    let ok : spelt (hex_high crc) (hex_low crc) ≡ crc =
      ground (arith, holds_at spells 256 crc lt every_spells) in
    rw (hi, lo) at ok

check_from_lt : (crc : ℕ) (s : List ℕ) → crc < 256 → All (λ c. c < 256) s → check_from crc s < 256
unfolding check_from
check_from_lt crc [] h hs = h
check_from_lt crc (c ∷ s) h (hc, hs) = check_from_lt (bit_xor crc c) s (bit_xor_lt 8 crc c h hc) hs

check_from_injective : (x y : ℕ) (s : List ℕ) → check_from x s ≡ check_from y s → x ≡ y
unfolding check_from
check_from_injective x y [] e = e
check_from_injective x y (c ∷ s) e =
    bit_xor_cancel c x y
      (bit_xor_comm c x ∙ (check_from_injective (bit_xor x c) (bit_xor y c) s e ∙ bit_xor_comm y c))

check_from_differs :
    (crc : ℕ) (xs : List ℕ) (a b : ℕ) (ys : List ℕ)
    → check_from crc (xs ++ (a ∷ ys)) ≡ check_from crc (xs ++ (b ∷ ys))
    → a ≡ b
unfolding check_from
check_from_differs crc [] a b ys e =
    bit_xor_cancel crc a b (check_from_injective (bit_xor crc a) (bit_xor crc b) ys e)
check_from_differs crc (x ∷ xs) a b ys e = check_from_differs (bit_xor crc x) xs a b ys e

-- parse_packet refuses a sentence for its checksum, and writes nothing, when one byte of the body
-- differs from a sentence whose checksum is right.
pub parse_packet-corrupted :
    (pre : List ℕ) (c : ℕ) (xs : List ℕ) (a b : ℕ) (ys : List ℕ) (h l : ℕ) (tail : List ℕ)
    → c ≢ 0
    → h ≢ 0
    → l ≢ 0
    → a ≢ b
    → All (λ c. c < 256) (xs ++ (a ∷ ys))
    → All (λ c. c < 256) (xs ++ (b ∷ ys))
    → All (λ c. c ≢ 0) (xs ++ (b ∷ ys))
    → (same_letter (hex_high (check_from 0 (xs ++ (a ∷ ys)))) h
        && same_letter (hex_low (check_from 0 (xs ++ (a ∷ ys)))) l)
      ≡ true
    → parse_packet (pre ++ framed c (xs ++ (b ∷ ys)) b'*' h l tail) (length pre)
      ≡ some (wrong_crc, pre ++ framed c (xs ++ (b ∷ ys)) b'*' h l tail)
parse_packet-corrupted pre c xs a b ys h l tail hc hh hl ne ha hb hz right =
    let old = check_from 0 (xs ++ (a ∷ ys)) in
    let new = check_from 0 (xs ++ (b ∷ ys)) in
    elim (Bool-cases (same_letter (hex_high new) h && same_letter (hex_low new) l)) [
      | inl y ↦ absurd (
          ne (
            check_from_differs 0 xs a b ys (
              sym (match_spelt old h l (check_from_lt 0 (xs ++ (a ∷ ys)) (omega arith) ha) right)
              ∙ match_spelt new h l (check_from_lt 0 (xs ++ (b ∷ ys)) (omega arith) hb) y)))
      | inr n ↦ parse_packet-framed pre c (xs ++ (b ∷ ys)) h l tail hc hz hh hl ∙ rw n refl
    ]
