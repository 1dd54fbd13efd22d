-- ===== src/Gps/Packet/Tests.antt =====
-- Runs of `parse_packet`.
use cfunction.Prelude.{◌≡◌, ◌≢◌, ◌<◌, ◌&&◌, true, refl, some, [], ◌∷◌, ◌++◌, codes, All, arith}
use cfunction.Gps.Packet.{
  gngga, wrong_crc, check_from, hex_high, hex_low, same_letter, parse_packet,
}
use cfunction.Gps.Packet.Sentence.{framed}
use cfunction.Gps.Packet.Corrupt.{parse_packet-corrupted}

right :
    parse_packet (codes "$GNGGA,1*55" ++ (0 ∷ [])) 0
    ≡ some (gngga (codes "1"), codes "$GNGGA,1" ++ (0 ∷ []) ++ codes "55" ++ (0 ∷ []))
unfolding parse_packet
right = refl

wrong :
    parse_packet (codes "$GNGGA,2*55" ++ (0 ∷ [])) 0
    ≡ some (wrong_crc, codes "$GNGGA,2*55" ++ (0 ∷ []))
unfolding parse_packet
wrong = refl

not_zero : All (λ c. c ≢ 0) (codes "GNGGA,1")
not_zero = (
  omega arith,
  (omega arith, (omega arith, (omega arith, (omega arith, (omega arith, (omega arith, tt)))))),
)

-- The digit 1 has become a 2.
byte_1 : All (λ c. c < 256) (codes "GNGGA," ++ (b'1' ∷ []))
byte_1 = (
  omega arith,
  (omega arith, (omega arith, (omega arith, (omega arith, (omega arith, (omega arith, tt)))))),
)

byte_2 : All (λ c. c < 256) (codes "GNGGA," ++ (b'2' ∷ []))
byte_2 = (
  omega arith,
  (omega arith, (omega arith, (omega arith, (omega arith, (omega arith, (omega arith, tt)))))),
)

not_zero_2 : All (λ c. c ≢ 0) (codes "GNGGA," ++ (b'2' ∷ []))
not_zero_2 = (
  omega arith,
  (omega arith, (omega arith, (omega arith, (omega arith, (omega arith, (omega arith, tt)))))),
)

signed :
    (same_letter (hex_high (check_from 0 (codes "GNGGA," ++ (b'1' ∷ [])))) b'5'
      && same_letter (hex_low (check_from 0 (codes "GNGGA," ++ (b'1' ∷ [])))) b'5')
    ≡ true
unfolding same_letter hex_high hex_low check_from
signed = refl

parse_packet-corrupted_example :
    parse_packet ([] ++ framed b'$' (codes "GNGGA," ++ (b'2' ∷ [])) b'*' b'5' b'5' []) 0
    ≡ some (wrong_crc, [] ++ framed b'$' (codes "GNGGA," ++ (b'2' ∷ [])) b'*' b'5' b'5' [])
parse_packet-corrupted_example =
    parse_packet-corrupted [] b'$' (codes "GNGGA,") b'1' b'2' [] b'5' b'5' [] (omega arith)
      (omega arith) (omega arith) (omega arith) byte_1 byte_2 not_zero_2 signed
