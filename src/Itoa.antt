-- ===== src/Itoa.antt =====
-- common_itoa.c: printing an integer. `str` is the list of the characters written; the caller's
-- buffer is taken to be long enough.
pub mod Reverse
pub mod Read
mod Tests
use cfunction.Prelude.{
  ℕ, zero, suc, ◌+◌, ◌-◌, ◌/◌, ◌%◌, ◌^◌, Bool, true, false, ◌&&◌, Option, none, some, List, [], ◌∷◌,
  ◌++◌, leb, ◌==◌, if◌then◌else◌, ◌>>=◌, ℤ, pos, negsuc, codes, length, get_elem?, set,
}

-- The 16 digits and the byte 0 behind them
abbrev pub index : List ℕ
index = codes "0123456789ABCDEF" ++ (0 ∷ [])

pub is_negative : ℤ → Bool
is_negative (pos _) = false
is_negative (negsuc _) = true

-- `(unsigned)-num`: `-num` overflows for INT_MIN, which is undefined.
pub negated : ℤ → Option ℕ
negated (pos n) = some ((2 ^ 32 - n) % 2 ^ 32)
negated (negsuc n) = if leb (2 ^ 31 - 1) n then none else some (n + 1)

-- `(unsigned)num`, of 32 bits
pub as_unsigned : ℤ → ℕ
as_unsigned (pos n) = n % 2 ^ 32
as_unsigned (negsuc n) = 2 ^ 32 - (n + 1)

-- `do … while (unum)`: the digits, the last one first; a radix of 0 and an index past the end of the
-- digits are undefined.
pub digits : ℕ → (radix unum : ℕ) → Option (List ℕ)
digits zero radix unum = none
digits (suc k) radix unum =
    let rest = digits k radix (unum / radix) in
    if radix == 0 then none else do
      c ← get_elem? index (unum % radix)
      if unum / radix == 0 then some (c ∷ []) else do r ← rest; some (c ∷ r)

-- `for (j = k; j <= (i-1)/2; j++)`
pub swap_loop : ℕ → (k i j : ℕ) → List ℕ → Option (List ℕ)
swap_loop zero k i j str = none
swap_loop (suc fuel) k i j str =
    let round = (do
      tmp ← get_elem? str j
      c ← get_elem? str (i - 1 + k - j)
      swap_loop fuel k i (j + 1) (set (set str j c) (i - 1 + k - j) tmp)) in
    if leb j ((i - 1) / 2) then round else some str

-- 32 digits are enough for a word; each round of the swaps moves `j` on. `str[0]` is the sign where it
-- has been written, as no digit is, so that `k` is 1 there.
pub itoa : ℤ → (radix : ℕ) → Option (List ℕ)
unfolding is_negative negated as_unsigned digits swap_loop
itoa num radix =
    if (radix == 10) && is_negative num
    then (do
      unum ← negated num
      s ← digits 33 radix unum
      swap_loop (length s + 2) 1 (length s + 1) 1 (b'-' ∷ (s ++ (0 ∷ []))))
    else (do
      s ← digits 33 radix (as_unsigned num)
      swap_loop (length s + 2) 0 (length s) 0 (s ++ (0 ∷ [])))
