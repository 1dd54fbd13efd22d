-- ===== src/Base64.antt =====
-- encode/base64.c: encoding, and decoding in place.
pub mod Table
mod Sextet
mod Round
mod Buffer
mod Padding
mod Steps
mod RoundTrip
mod Tests
use Prim.Native.Nat.{bit_and, bit_or}
use cfunction.Prelude.{
  ℕ, zero, suc, ◌+◌, ◌-◌, ◌*◌, ◌/◌, ◌%◌, ◌^◌, Bool, true, false, ◌&&◌, ◌||◌, Option, none, some,
  List, [], ◌∷◌, ◌>>=◌, ltb, ◌==◌, if◌then◌else◌, ℤ, sub_ℕ, codes, length, get_elem?, get_or, set,
}
use Table.{table}

-- The 64 digits
abbrev pub enc : List ℕ
enc = codes "ABCDEFGHIJKLMNOPQRSTUVWXYZabcdefghijklmnopqrstuvwxyz0123456789+/"

-- The index is below 64 for bytes, so the default is not reached.
pub digit : ℕ → ℕ
digit v = get_or enc v 0

-- A round of the loop takes up to three bytes; `*in` stays where it is until the next `in++`.
pub encode : List ℕ → List ℕ
unfolding digit
encode [] = []
encode (a ∷ []) = digit (a / 2 ^ 2) ∷ digit (bit_and a 0x3 * 2 ^ 4) ∷ b'=' ∷ b'=' ∷ []
encode (a ∷ b ∷ []) =
    digit (a / 2 ^ 2)
    ∷ digit (bit_or (bit_and a 0x3 * 2 ^ 4) (b / 2 ^ 4))
    ∷ digit (bit_and b 0xF * 2 ^ 2)
    ∷ b'='
    ∷ []
encode (a ∷ b ∷ c ∷ rest) =
    digit (a / 2 ^ 2)
    ∷ digit (bit_or (bit_and a 0x3 * 2 ^ 4) (b / 2 ^ 4))
    ∷ digit (bit_or (bit_and b 0xF * 2 ^ 2) (c / 2 ^ 6))
    ∷ digit (bit_and c 0x3F)
    ∷ encode rest

-- `strlen`: a fault if no byte is 0
pub strlen : List ℕ → Option ℕ
strlen [] = none
strlen (c ∷ s) = let rest = (do n ← strlen s; some (n + 1)) in if c == 0 then some 0 else rest

-- `strstr(code, "=")` and `strstr(code, "==")`, up to the byte 0
pub has_pad : List ℕ → Bool
has_pad [] = false
has_pad (c ∷ s) = if c == 0 then false else (c == b'=') || has_pad s

pub has_two_pads : List ℕ → Bool
has_two_pads [] = false
has_two_pads (c ∷ []) = false
has_two_pads (c ∷ d ∷ s) =
    if c == 0 then false else ((c == b'=') && (d == b'=')) || has_two_pads (d ∷ s)

-- `(unsigned char)table[code[i]]`: a fault past the end of either
pub value_at : List ℕ → ℕ → Option ℕ
unfolding table
value_at code i = do c ← get_elem? code i; get_elem? table c

pub store : List ℕ → ℕ → ℕ → Option (List ℕ)
store code j v = if ltb j (length code) then some (set code j (v % 256)) else none

-- The three statements of a round.
pub decode_round : ℕ → ℕ → List ℕ → Option (List ℕ)
unfolding value_at store
decode_round i j code = do
  p ← value_at code i
  q ← value_at code (i + 1)
  code ← store code j (bit_or (p * 2 ^ 2) (q / 2 ^ 4))
  q ← value_at code (i + 1)
  r ← value_at code (i + 2)
  code ← store code (j + 1) (bit_or (q * 2 ^ 4) (r / 2 ^ 2))
  r ← value_at code (i + 2)
  s ← value_at code (i + 3)
  store code (j + 2) (bit_or (r * 2 ^ 6) s)

-- `for (i = 0, j = 0; i < len - 2; j += 3, i += 4)`, on fuel
pub decode_loop : ℕ → (len i j : ℕ) → List ℕ → Option (List ℕ)
unfolding decode_round
decode_loop zero len i j code = none
decode_loop (suc k) len i j code =
    let round = (do code ← decode_round i j code; decode_loop k len (i + 4) (j + 3) code) in
    if ltb (i + 2) len then round else some code

-- `outlen` is computed before the loop; it is negative for a short text with padding.
pub outlen : ℕ → List ℕ → ℤ
unfolding has_pad has_two_pads
outlen len code =
    if has_two_pads code
    then sub_ℕ (len / 4 * 3) 2
    else if has_pad code
    then sub_ℕ (len / 4 * 3) 1
    else sub_ℕ (len / 4 * 3) 0

-- Every round moves `i` on, so `len + 1` rounds are enough.
pub decode : List ℕ → Option (ℤ × List ℕ)
unfolding strlen outlen decode_loop
decode code = do
  len ← strlen code
  let n = outlen len code
  code ← decode_loop (len + 1) len 0 0 code
  some (n, code)
