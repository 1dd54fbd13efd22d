-- ===== src/Gps/Frames.antt =====
-- `parse_buf` of uart/read_gps.c: from the bytes received to packets. `p` is the place of `buf` in
-- the receive buffer. Each loop moves `i` on, so `len + 1` rounds are enough.
pub mod Scan
pub mod Returned
pub mod Sentence
mod Tests
use cfunction.Prelude.{
  ℕ, zero, suc, ◌+◌, ◌-◌, ◌*◌, ◌/◌, ◌%◌, ◌^◌, Bool, true, false, ◌&&◌, ◌||◌, not, Option, none,
  some, List, [], ◌∷◌, ◌>>=◌, ltb, leb, ◌==◌, if◌then◌else◌, get_elem?, get_or, set, length, take,
  drop, codes,
}
use cfunction.Gps.Packet.{Verdict, parse_packet, poke}

-- `while ((buf[i] != '$') && (i < len)) i++`
pub seek : ℕ → List ℕ → (p len i : ℕ) → Option ℕ
seek zero rx p len i = none
seek (suc k) rx p len i =
    let rest = seek k rx p len (i + 1) in
    do c ← get_elem? rx (p + i); if c == b'$' then some i else if ltb i len then rest else some i

-- Where the packet behind a carriage return starts, and where the loop goes on: behind a line feed
-- the first character of the next packet is passed over.
unfoldable pub after_return : List ℕ → (p len i : ℕ) → Option (ℕ × ℕ)
after_return rx p len i =
    if ltb i len
    then (do c ← get_elem? rx (p + i); if c == b'\n' then some (i + 1, i + 2) else some (i, i + 1))
    else some (i, i + 1)

-- The `for` loop: the last `istart`, the buffer, and what was found in each packet
unfoldable pub split : ℕ → List ℕ → (p len i istart : ℕ) → Option (ℕ × List ℕ × List Verdict)
unfolding parse_packet poke after_return
split zero rx p len i istart = none
split (suc k) rx p len i istart =
    let packet = (do
      rx ← poke rx (p + i) 0
      (v, rx) ← parse_packet rx (p + istart)
      (istart, i) ← after_return rx p len (i + 1)
      (n, rx, vs) ← split k rx p len i istart
      some (n, rx, v ∷ vs)) in
    let rest = split k rx p len (i + 1) istart in
    let round = (do c ← get_elem? rx (p + i); if c == b'\r' then packet else rest) in
    if ltb i len then round else some (istart, rx, [])

unfoldable pub parse_buf : List ℕ → (p len : ℕ) → Option (ℕ × List ℕ × List Verdict)
unfolding seek split
parse_buf rx p len = do
  i ← seek (len + 1) rx p len 0
  if leb len i then some (len, rx, []) else split (len + 1) rx p len i i
