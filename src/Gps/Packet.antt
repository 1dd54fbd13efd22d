-- ===== src/Gps/Packet.antt =====
-- `parse_packet` of uart/read_gps.c: the frame and the checksum of a sentence. `rx` is the whole
-- receive buffer and `p` the place of `buf` in it; a `char` is its bit pattern, below 256.
pub mod Sentence
pub mod Read
mod Corrupt
mod Tests
use cfunction.Prelude.{
  ℕ, zero, suc, ◌+◌, ◌-◌, ◌*◌, ◌/◌, ◌%◌, ◌^◌, Bool, true, false, ◌&&◌, ◌||◌, not, Option, none,
  some, List, [], ◌∷◌, ◌>>=◌, ltb, leb, ◌==◌, if◌then◌else◌, get_elem?, get_or, set, length, take,
  drop, codes,
}
use cfunction.Bits.{bit_and, bit_xor}

-- The bytes up to the byte 0; a fault if there is none.
pub string : List ℕ → Option (List ℕ)
string [] = none
string (c ∷ s) = let rest = (do r ← string s; some (c ∷ r)) in if c == 0 then some [] else rest

-- `rx[i - k]`, a fault before the buffer and behind it
pub before : List ℕ → (i k : ℕ) → Option ℕ
before rx i k = if ltb i k then none else get_elem? rx (i - k)

unfoldable pub poke : List ℕ → ℕ → ℕ → Option (List ℕ)
poke rx i v = if ltb i (length rx) then some (set rx i v) else none

-- `bcc`
pub check_from : ℕ → List ℕ → ℕ
check_from crc [] = crc
check_from crc (c ∷ s) = check_from (bit_xor crc c) s

abbrev pub hex_str : List ℕ
hex_str = codes "0123456789ABCDEF"

-- The indices are below 16, so the default is not reached.
pub hex_high : ℕ → ℕ
hex_high crc = get_or hex_str (bit_and crc 0xF0 / 2 ^ 4) 0

pub hex_low : ℕ → ℕ
hex_low crc = get_or hex_str (bit_and crc 0x0F) 0

pub to_lower : ℕ → ℕ
to_lower c = if leb b'A' c && leb c b'Z' then c + 32 else c

-- A step of `strncasecmp`; no hexadecimal digit is 0.
pub same_letter : ℕ → ℕ → Bool
unfolding to_lower
same_letter c d = to_lower c == to_lower d

-- `!strncmp(name, buf + 1, 5)`, for a name without a byte 0, on the bytes from `buf + 1`
pub starts : List ℕ → List ℕ → Option Bool
starts [] s = some true
starts (c ∷ name) [] = none
starts (c ∷ name) (d ∷ s) = let rest = starts name s in if c == d then rest else some false

-- What `parse_packet` finds; the two kinds of sentence that it reads go on with the string at
-- `buf + 7`.
pub data Verdict : Type 0 where
  no_star : Verdict
  wrong_crc : Verdict
  gnrmc : List ℕ → Verdict
  gngga : List ℕ → Verdict
  other : Verdict

pub dispatch : List ℕ → ℕ → Option Verdict
unfolding string starts
dispatch rx p = do
  first ← starts (codes "GNRMC") (drop (p + 1) rx)
  second ← starts (codes "GNGGA") (drop (p + 1) rx)
  if first
      then (do s ← string (drop (p + 7) rx); some (gnrmc s))
      else if second
      then (do s ← string (drop (p + 7) rx); some (gngga s))
      else some other

-- The last two characters of the packet against the digits of its checksum: the second is read
-- only when the first is right.
unfoldable pub digits_match : List ℕ → ℕ → ℕ → Option Bool
unfolding before hex_high hex_low same_letter
digits_match rx stop crc = do
  d ← before rx stop 2
  if same_letter (hex_high crc) d
      then (do e ← before rx stop 1; some (same_letter (hex_low crc) e))
      else some false

-- `stop` is where the byte 0 of the packet stands.
unfoldable pub parse_packet : List ℕ → ℕ → Option (Verdict × List ℕ)
unfolding digits_match dispatch poke check_from string before
parse_packet rx p = do
  s ← string (drop p rx)
  let stop = p + length s
  star ← before rx stop 3
  if star == b'*'
      then (do
        ok ← digits_match rx stop (check_from 0 (take (length s - 4) (drop 1 s)))
        if ok
            then (do rx ← poke rx (stop - 3) 0; v ← dispatch rx p; some (v, rx))
            else some (wrong_crc, rx))
      else some (no_star, rx)
