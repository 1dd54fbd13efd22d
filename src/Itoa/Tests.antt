-- ===== src/Itoa/Tests.antt =====
-- Runs of `itoa`, those of its `main` among them.
use cfunction.Prelude.{
  ℕ, ◌≡◌, refl, inr, none, some, ◌-◌, ◌^◌, List, [], ◌∷◌, ◌++◌, pos, negsuc, codes, arith,
}
use cfunction.Itoa.{itoa}
use cfunction.Itoa.Read.{IsPrintable, sign, magnitude, read, itoa-read}

decimal : itoa (pos 10009856) 10 ≡ some (codes "10009856" ++ (0 ∷ []))
unfolding itoa
decimal = refl

negative : itoa (negsuc 10009855) 10 ≡ some (codes "-10009856" ++ (0 ∷ []))
unfolding itoa
negative = refl

-- 0xFFFF0000 as an int
hexadecimal : itoa (negsuc 65535) 16 ≡ some (codes "FFFF0000" ++ (0 ∷ []))
unfolding itoa
hexadecimal = refl

-- INT_MIN in radix 10 is undefined.
overflow : itoa (negsuc (2 ^ 31 - 1)) 10 ≡ none
unfolding itoa
overflow = refl

-- -42 and radix 10
forty_two : IsPrintable (negsuc 41) 10
forty_two = (omega arith, inr (ground arith))

itoa-read_example :
    (s : List ℕ) × (itoa (negsuc 41) 10 ≡ some (sign (negsuc 41) 10 ++ (s ++ (0 ∷ []))))
    × (read 10 0 s ≡ magnitude (negsuc 41) 10)
itoa-read_example = itoa-read (negsuc 41) 10 forty_two (omega arith) (omega arith)
