-- ===== src/Base64/Padding.antt =====
-- The length and the padding that encode/base64.c writes, and how its decoder reads them.
use cfunction.Prelude.{
  ℕ, zero, suc, ◌+◌, ◌*◌, ◌/◌, ◌^◌, ◌<◌, ◌≤◌, ◌≡◌, refl, ap, ◌∙◌, false, some, List, [], ◌∷◌, ◌++◌,
  ◌==◌, leb, length, length-append, length-replicate, replicate, append_assoc, All, pos, arith,
}
use cfunction.Bits.{bit_or, bit_and, bit_and_three, bit_and_fifteen, bit_and_63}
use cfunction.Base64.{digit, encode, strlen, has_pad, has_two_pads, outlen}
use cfunction.Base64.Sextet.{digit-letter, second_digit, third_digit}

Letter : ℕ → Type 0
Letter d = ((d == 0) ≡ false) × ((d == b'=') ≡ false)

pub pads : List ℕ → ℕ
pads [] = 0
pads (a ∷ []) = 2
pads (a ∷ b ∷ []) = 1
pads (a ∷ b ∷ c ∷ xs) = pads xs

-- The text is letters and the padding.
encode-Letter :
    (xs : List ℕ)
    → All (λ x. x < 256) xs
    → (body : List ℕ) × All Letter body × (encode xs ≡ body ++ replicate (pads xs) b'=')
unfolding encode pads Letter
encode-Letter [] h = ([], tt, refl)
encode-Letter (a ∷ []) (ha, _) = (
  digit (a / 2 ^ 2) ∷ digit (bit_and a 0x3 * 2 ^ 4) ∷ [],
  (
    digit-letter (a / 2 ^ 2) (omega arith),
    (digit-letter (bit_and a 0x3 * 2 ^ 4) (omega (arith, bit_and_three a)), tt),
  ),
  refl,
)
encode-Letter (a ∷ b ∷ []) (ha, (hb, _)) =
    let q = bit_or (bit_and a 0x3 * 2 ^ 4) (b / 2 ^ 4) in
    let r = bit_and b 0xF * 2 ^ 2 in
    (
      digit (a / 2 ^ 2) ∷ digit q ∷ digit r ∷ [],
      (
        digit-letter (a / 2 ^ 2) (omega arith),
        (
          digit-letter q (omega (arith, second_digit a b hb)),
          (digit-letter r (omega (arith, bit_and_fifteen b)), tt),
        ),
      ),
      refl,
    )
encode-Letter (a ∷ b ∷ c ∷ xs) (ha, (hb, (hc, hx))) =
    let q = bit_or (bit_and a 0x3 * 2 ^ 4) (b / 2 ^ 4) in
    let r = bit_or (bit_and b 0xF * 2 ^ 2) (c / 2 ^ 6) in
    let s = bit_and c 0x3F in
    let (body, hl, e) = encode-Letter xs hx in
    (
      digit (a / 2 ^ 2) ∷ digit q ∷ digit r ∷ digit s ∷ body,
      (
        digit-letter (a / 2 ^ 2) (omega arith),
        (
          digit-letter q (omega (arith, second_digit a b hb)),
          (
            digit-letter r (omega (arith, third_digit b c hc)),
            (digit-letter s (omega (arith, bit_and_63 c)), hl),
          ),
        ),
      ),
      ap (λ l. digit (a / 2 ^ 2) ∷ digit q ∷ digit r ∷ digit s ∷ l) e,
    )

has_pad-Letter : (body s : List ℕ) → All Letter body → has_pad (body ++ s) ≡ has_pad s
unfolding has_pad Letter
has_pad-Letter [] s h = refl
has_pad-Letter (c ∷ body) s ((hz, hp), h) = rw (hz, hp) (has_pad-Letter body s h)

has_two_pads-Letter :
    (body : List ℕ) (d : ℕ) (s : List ℕ)
    → All Letter body
    → has_two_pads (body ++ (d ∷ s)) ≡ has_two_pads (d ∷ s)
unfolding has_two_pads Letter
has_two_pads-Letter [] d s h = refl
has_two_pads-Letter (c ∷ []) d s ((hz, hp), h) = rw (hz, hp) refl
has_two_pads-Letter (c ∷ b ∷ body) d s ((hz, hp), h) =
    rw (hz, hp) (has_two_pads-Letter (b ∷ body) d s h)

two_after :
    (body : List ℕ) (p : ℕ) (s : List ℕ)
    → All Letter body
    → has_two_pads (body ++ (replicate p b'=' ++ (0 ∷ s)))
      ≡ has_two_pads (replicate p b'=' ++ (0 ∷ s))
two_after body zero s h = has_two_pads-Letter body 0 s h
two_after body (suc p) s h = has_two_pads-Letter body b'=' (replicate p b'=' ++ (0 ∷ s)) h

strlen-Letter :
    (body s : List ℕ) (n : ℕ)
    → All Letter body
    → strlen s ≡ some n
    → strlen (body ++ s) ≡ some (length body + n)
unfolding strlen Letter
strlen-Letter [] s n h e = e ∙ ap some (omega arith)
strlen-Letter (c ∷ body) s n ((hz, hp), h) e =
    rw (hz, strlen-Letter body s n h e) (ap some (omega arith))

strlen-pad : (p : ℕ) (s : List ℕ) → strlen (replicate p b'=' ++ (0 ∷ s)) ≡ some p
unfolding strlen
strlen-pad zero s = refl
strlen-pad (suc p) s = rw (strlen-pad p s) (ap some (omega arith))

pads-encode : (xs : List ℕ) → (length (encode xs) * 3 ≡ (length xs + pads xs) * 4) × (pads xs ≤ 2)
unfolding encode pads
pads-encode [] = (refl, omega arith)
pads-encode (a ∷ []) = (refl, omega arith)
pads-encode (a ∷ b ∷ []) = (refl, omega arith)
pads-encode (a ∷ b ∷ c ∷ xs) = let (h, l) = pads-encode xs in (omega arith, l)

-- The text has four characters for every three bytes begun.
pub length-encode : (xs : List ℕ) → length (encode xs) ≡ (length xs + 2) / 3 * 4
length-encode xs = let (h, l) = pads-encode xs in omega arith

pub strlen-encode :
    (xs tail : List ℕ)
    → All (λ x. x < 256) xs
    → strlen (encode xs ++ (0 ∷ tail)) ≡ some (length (encode xs))
strlen-encode xs tail h =
    let (body, hl, e) = encode-Letter xs h in
    let pad : List ℕ = replicate (pads xs) b'=' in
    rw (e, append_assoc body pad (0 ∷ tail))
      (strlen-Letter body (pad ++ (0 ∷ tail)) (pads xs) hl (strlen-pad (pads xs) tail)
        ∙ ap some (omega (arith, length-append body pad, length-replicate {A = ℕ} (pads xs) b'=')))

two_pads : (p : ℕ) (s : List ℕ) → has_two_pads (replicate p b'=' ++ (0 ∷ s)) ≡ leb 2 p
unfolding has_two_pads
two_pads zero [] = refl
two_pads zero (c ∷ s) = refl
two_pads (suc zero) [] = refl
two_pads (suc zero) (c ∷ s) = refl
two_pads (suc (suc p)) s = ground arith

one_pad : (p : ℕ) (s : List ℕ) → has_pad (replicate p b'=' ++ (0 ∷ s)) ≡ leb 1 p
unfolding has_pad
one_pad zero s = refl
one_pad (suc p) s = ground arith

by_pads :
    (len p n : ℕ) (code : List ℕ)
    → has_two_pads code ≡ leb 2 p
    → has_pad code ≡ leb 1 p
    → p ≤ 2
    → len * 3 ≡ (n + p) * 4
    → outlen len code ≡ pos n
unfolding outlen
by_pads len p n code two one h e = rw (two, one) (ground arith)

-- The decoder computes the length of what was encoded.
pub outlen-encode :
    (xs tail : List ℕ)
    → All (λ x. x < 256) xs
    → outlen (length (encode xs)) (encode xs ++ (0 ∷ tail)) ≡ pos (length xs)
outlen-encode xs tail h =
    let (body, hl, e) = encode-Letter xs h in
    let (f, l) = pads-encode xs in
    let pad : List ℕ = replicate (pads xs) b'=' in
    let code : encode xs ++ (0 ∷ tail) ≡ body ++ (pad ++ (0 ∷ tail)) =
      rw e (append_assoc body pad (0 ∷ tail)) in
    by_pads (length (encode xs)) (pads xs) (length xs) (encode xs ++ (0 ∷ tail))
      (rw code (two_after body (pads xs) tail hl ∙ two_pads (pads xs) tail))
      (rw code (has_pad-Letter body (pad ++ (0 ∷ tail)) hl ∙ one_pad (pads xs) tail)) l f
