-- ===== src/Itoa/Read.antt =====
-- What common_itoa.c prints reads back as the number.
use native.Mathlib.Nat.{pow-suc, div-add-mod', mod-lt, mul-le-mul_left}
use cfunction.Prelude.{
  ℕ, zero, suc, ◌+◌, ◌-◌, ◌*◌, ◌/◌, ◌%◌, ◌^◌, ◌≤◌, ◌<◌, ◌≡◌, ◌≢◌, ◌⊎◌, refl, ap, ap₂, ◌∙◌, inl, inr,
  Bool, true, false, ◌&&◌, Option, none, some, List, [], ◌∷◌, ◌++◌, leb, ◌==◌, ==_ne, if◌then◌else◌,
  ℤ, pos, negsuc, get_elem?, Bool-cases, length, holds_below, holds_at, arith,
}
use cfunction.Itoa.{index, is_negative, negated, as_unsigned, digits, itoa}
use cfunction.Itoa.Reverse.{rev, swap_loop-rev}

-- A number read in a radix, as `strtoul` reads it
pub digit_value : ℕ → ℕ
digit_value c = if leb c b'9' then c - 48 else c - 55

pub read : (radix acc : ℕ) → List ℕ → ℕ
unfolding digit_value
read radix acc [] = acc
read radix acc (c ∷ s) = read radix (acc * radix + digit_value c) s

read-append :
    (radix acc : ℕ) (s t : List ℕ) → read radix acc (s ++ t) ≡ read radix (read radix acc s) t
unfolding read
read-append radix acc [] t = refl
read-append radix acc (c ∷ s) t = read-append radix (acc * radix + digit_value c) s t

stands : ℕ → Bool
unfolding digit_value
stands d = elim (get_elem? index d) [ none ↦ false | some c ↦ digit_value c == d ]

every_stands : holds_below stands 16 ≡ true
unfolding stands holds_below
every_stands = refl

standing :
    (o : Option ℕ) (d : ℕ)
    → (elim o [ none ↦ false | some c ↦ digit_value c == d ]) ≡ true
    → (c : ℕ) × (o ≡ some c) × (digit_value c ≡ d)
standing none d h = absurd (ground arith)
standing (some c) d h = (c, refl, ground arith)

digit_at : (d : ℕ) → d < 16 → (c : ℕ) × (get_elem? index d ≡ some c) × (digit_value c ≡ d)
unfolding stands
digit_at d h = standing (get_elem? index d) d (holds_at stands 16 d h every_stands)

half : (radix u : ℕ) → 2 ≤ radix → u / radix * 2 ≤ u
half radix u h = omega (arith, div-add-mod' u radix, mul-le-mul_left (u / radix) h)

-- A round of the loop, the last one and any other
digits_last :
    (k radix u c : ℕ)
    → 2 ≤ radix
    → get_elem? index (u % radix) ≡ some c
    → (u / radix == 0) ≡ true
    → digits (suc k) radix u ≡ some (c ∷ [])
unfolding digits
digits_last k radix u c h2 e y =
    let r : (radix == 0) ≡ false = ==_ne radix 0 (omega arith) in rw (r, e, y) refl

digits_more :
    (k radix u c : ℕ) (s : List ℕ)
    → 2 ≤ radix
    → get_elem? index (u % radix) ≡ some c
    → (u / radix == 0) ≡ false
    → digits k radix (u / radix) ≡ some s
    → digits (suc k) radix u ≡ some (c ∷ s)
unfolding digits
digits_more k radix u c s h2 e n f =
    let r : (radix == 0) ≡ false = ==_ne radix 0 (omega arith) in rw (r, e, n, f) refl

-- The digits of a word
Reads : (k radix u : ℕ) → Type 0
Reads k radix u =
    (s : List ℕ) × (digits k radix u ≡ some s)
    × (read radix 0 (rev s) ≡ u)
    × (1 ≤ length s)
    × (length s ≤ k)

last_read :
    (k radix u c : ℕ)
    → 2 ≤ radix
    → get_elem? index (u % radix) ≡ some c
    → digit_value c ≡ u % radix
    → (u / radix == 0) ≡ true
    → Reads (suc k) radix u
unfolding Reads rev read
last_read k radix u c h2 e v y =
    let q : u / radix ≡ 0 = ground arith in
    let m : u / radix * radix ≡ 0 = rw q (omega arith) in
    (
      c ∷ [],
      digits_last k radix u c h2 e y,
      omega (arith, div-add-mod' u radix),
      omega arith,
      omega arith,
    )

more_read :
    (k radix u c : ℕ)
    → 2 ≤ radix
    → get_elem? index (u % radix) ≡ some c
    → digit_value c ≡ u % radix
    → (u / radix == 0) ≡ false
    → Reads k radix (u / radix)
    → Reads (suc k) radix u
unfolding Reads rev read
more_read k radix u c h2 e v n (s, f, g, l, m) = (
  c ∷ s,
  digits_more k radix u c s h2 e n f,
  read-append radix 0 (rev s) (c ∷ []) ∙ (ap₂ (λ w d. w * radix + d) g v ∙ div-add-mod' u radix),
  omega arith,
  omega arith,
)

-- A word of k bits has at most k digits, or one, and they read back.
digits-Reads : (k radix u : ℕ) → 2 ≤ radix → radix ≤ 16 → u < 2 ^ k → Reads (suc k) radix u
digits-Reads zero radix u h2 h16 hu =
    let below : u % radix < radix = mod-lt u (omega arith) in
    let (c, e, v) = digit_at (u % radix) (omega arith) in
    let q : u / radix ≡ 0 = omega (arith, half radix u h2) in
    last_read 0 radix u c h2 e v (ground arith)
digits-Reads (suc k) radix u h2 h16 hu =
    let below : u % radix < radix = mod-lt u (omega arith) in
    let (c, e, v) = digit_at (u % radix) (omega arith) in
    elim (Bool-cases (u / radix == 0)) [
      | inl y ↦ last_read (suc k) radix u c h2 e v y
      | inr n ↦
          more_read (suc k) radix u c h2 e v n
            (digits-Reads k radix (u / radix) h2 h16 (omega (arith, pow-suc 2 k, half radix u h2)))
    ]

-- The sign that is printed
pub sign : ℤ → ℕ → List ℕ
sign (pos n) radix = []
sign (negsuc n) radix = if radix == 10 then b'-' ∷ [] else []

-- An int of 32 bits, and those of them that radix 10 can print: not INT_MIN.
abbrev pub IsInt : ℤ → Type 0
IsInt (pos n) = n < 2 ^ 31
IsInt (negsuc n) = n < 2 ^ 31

abbrev pub IsPrintable : ℤ → ℕ → Type 0
IsPrintable num radix = IsInt num × ((radix ≢ 10) ⊎ (num ≢ negsuc (2 ^ 31 - 1)))

abbrev pub absolute : ℤ → ℕ
absolute (pos n) = n
absolute (negsuc n) = n + 1

-- The two's complement of 32 bits
abbrev pub complement : ℤ → ℕ
complement (pos n) = n
complement (negsuc n) = 2 ^ 32 - (n + 1)

-- The number of 32 bits whose digits are printed
pub magnitude : ℤ → ℕ → ℕ
magnitude num radix = if radix == 10 then absolute num else complement num

complement_lt : (num : ℤ) → IsInt num → complement num < 2 ^ 32
complement_lt (pos n) h = omega (arith, h)
complement_lt (negsuc n) h = omega arith

negated_lem :
    (n radix : ℕ)
    → IsPrintable (negsuc n) radix
    → (radix == 10) ≡ true
    → negated (negsuc n) ≡ some (n + 1)
unfolding negated
negated_lem n radix (int, inl other) ten = absurd (ground (arith, ten, other))
negated_lem n radix (int, inr apart) ten = elim (Bool-cases (leb (2 ^ 31 - 1) n)) [
  | inl y ↦ let least : n ≡ 2 ^ 31 - 1 = ground (arith, y, int) in absurd (apart (ap negsuc least))
  | inr z ↦ rw z refl
]

as_unsigned_lem : (num : ℤ) → IsInt num → as_unsigned num ≡ complement num
unfolding as_unsigned
as_unsigned_lem (pos n) h = omega (arith, h)
as_unsigned_lem (negsuc n) h = refl

-- The two branches
unsigned-read :
    (num : ℤ) (radix : ℕ)
    → IsInt num
    → 2 ≤ radix
    → radix ≤ 16
    → ((radix == 10) && is_negative num) ≡ false
    → (s : List ℕ) × (itoa num radix ≡ some (s ++ (0 ∷ []))) × (read radix 0 s ≡ complement num)
unfolding itoa Reads
unsigned-read num radix h h2 h16 plain =
    let (s, e, g, l, _) = digits-Reads 32 radix (complement num) h2 h16 (complement_lt num h) in
    (
      rev s,
      rw (plain, as_unsigned_lem num h, e)
          (swap_loop-rev (length s + 2) 0 (length s) 0 [] s (0 ∷ []) refl (omega arith)
            (omega arith) l (omega arith)),
      g,
    )

signed-read :
    (n radix : ℕ)
    → IsPrintable (negsuc n) radix
    → 2 ≤ radix
    → radix ≤ 16
    → (radix == 10) ≡ true
    → (s : List ℕ) × (itoa (negsuc n) radix ≡ some (b'-' ∷ (s ++ (0 ∷ []))))
      × (read radix 0 s ≡ n + 1)
unfolding itoa Reads
signed-read n radix h h2 h16 ten =
    let (s, e, g, l, _) = digits-Reads 32 radix (n + 1) h2 h16 (omega (arith, h.0)) in
    let negative : ((radix == 10) && is_negative (negsuc n)) ≡ true = rw ten refl in
    (
      rev s,
      rw (negative, negated_lem n radix h ten, e)
          (swap_loop-rev (length s + 2) 1 (length s + 1) 1 (b'-' ∷ []) s (0 ∷ []) refl (omega arith)
            (omega arith) (omega arith) (omega arith)),
      g,
    )

magnitude_pos : (n radix : ℕ) → n ≡ magnitude (pos n) radix
unfolding magnitude
magnitude_pos n radix = ground arith

-- itoa, for every int of 32 bits and every radix from 2 to 16, but for INT_MIN in radix 10, returns
-- a sign exactly for a negative number in radix 10, then digits, most significant first, and a byte
-- 0. The digits read back as a word of 32 bits: in radix 10 the number without its sign, in another
-- radix the number or the two's complement of a negative one.
pub itoa-read :
    (num : ℤ) (radix : ℕ)
    → IsPrintable num radix
    → 2 ≤ radix
    → radix ≤ 16
    → (s : List ℕ) × (itoa num radix ≡ some (sign num radix ++ (s ++ (0 ∷ []))))
      × (read radix 0 s ≡ magnitude num radix)
unfolding sign magnitude is_negative
itoa-read (pos n) radix h h2 h16 =
    let (s, e, g) = unsigned-read (pos n) radix h.0 h2 h16 (ground arith) in
    (s, e, g ∙ magnitude_pos n radix)
itoa-read (negsuc n) radix h h2 h16 = elim (Bool-cases (radix == 10)) [
  | inl ten ↦
      let (s, e, g) = signed-read n radix h h2 h16 ten in (s, rw ten e, rw (magnitude, ten) g)
  | inr other ↦
      let (s, e, g) = unsigned-read (negsuc n) radix h.0 h2 h16 (rw other refl) in
      (s, rw other e, rw (magnitude, other) g)
]
