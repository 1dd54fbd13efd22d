-- ===== src/Base64/Buffer.antt =====
-- The buffer of the decoder of encode/base64.c between two rounds.
use cfunction.Prelude.{
  ℕ, ◌+◌, ◌*◌, ◌/◌, ◌%◌, ◌^◌, ◌≡◌, refl, sym, ap, ◌∙◌, some, List, [], ◌∷◌, ◌++◌, get_elem?,
  get_elem?-append, length, drop, length-append, append_assoc, arith,
}
use cfunction.Bits.{bit_or}
use cfunction.Base64.{value_at, decode_round}
use cfunction.Base64.Table.{table}
use cfunction.Base64.Round.{set_three, set_three-append, decode_round-set_three}

-- The buffer during the loop: the bytes decoded, bytes left over, and the digits that are left.
abbrev pub buffer : (out gap digits : List ℕ) → List ℕ
buffer out gap digits = out ++ (gap ++ digits)

value_at-buffer :
    (out gap digits : List ℕ) (i m d v : ℕ)
    → i ≡ length out + length gap + m
    → get_elem? digits m ≡ some d
    → get_elem? table d ≡ some v
    → value_at (buffer out gap digits) i ≡ some v
unfolding value_at
value_at-buffer out gap digits i m d v hi hd hv =
    let e : i ≡ length out + (length gap + m) = omega arith in
    rw (e, get_elem?-append out (gap ++ digits) (length gap + m), get_elem?-append gap digits m, hd)
      hv

-- Three bytes written at the front leave one byte more behind them.
drop_three :
    (gap : List ℕ) (w x y z : ℕ) (digits : List ℕ)
    → (left : List ℕ) × (length left ≡ length gap + 1)
      × (drop 3 (gap ++ (w ∷ x ∷ y ∷ z ∷ digits)) ≡ left ++ digits)
drop_three [] w x y z digits = (z ∷ [], refl, refl)
drop_three (a ∷ []) w x y z digits = (y ∷ z ∷ [], refl, refl)
drop_three (a ∷ b ∷ []) w x y z digits = (x ∷ y ∷ z ∷ [], refl, refl)
drop_three (a ∷ b ∷ c ∷ gap) w x y z digits = (
  gap ++ (w ∷ x ∷ y ∷ z ∷ []),
  omega (arith, length-append gap (w ∷ x ∷ y ∷ z ∷ [])),
  sym (append_assoc gap (w ∷ x ∷ y ∷ z ∷ []) digits),
)

pub length-buffer :
    (out gap digits : List ℕ)
    → length (buffer out gap digits) ≡ length out + length gap + length digits
length-buffer out gap digits =
    omega (arith, length-append out (gap ++ digits), length-append gap digits)

-- A round on four digits of the alphabet appends the three bytes that they spell.
unfoldable pub Step : (out gap digits : List ℕ) (i j w x y z a b c : ℕ) → Type 0
Step out gap digits i j w x y z a b c =
    (left : List ℕ) × (length left ≡ length gap + 1)
    × (decode_round i j (buffer out gap (w ∷ x ∷ y ∷ z ∷ digits))
        ≡ some (buffer (out ++ (a ∷ b ∷ c ∷ [])) left digits))

pub step :
    (out gap digits : List ℕ) (i j w x y z p q r s a b c : ℕ)
    → i ≡ length out + length gap
    → j ≡ length out
    → get_elem? table w ≡ some p
    → get_elem? table x ≡ some q
    → get_elem? table y ≡ some r
    → get_elem? table z ≡ some s
    → bit_or (p * 2 ^ 2) (q / 2 ^ 4) % 256 ≡ a
    → bit_or (q * 2 ^ 4) (r / 2 ^ 2) % 256 ≡ b
    → bit_or (r * 2 ^ 6) s % 256 ≡ c
    → Step out gap digits i j w x y z a b c
unfolding Step
step out gap digits i j w x y z p q r s a b c hi hj hw hx hy hz ha hb hc =
    let code = w ∷ x ∷ y ∷ z ∷ digits in
    let round =
      decode_round-set_three i j (buffer out gap code) p q r s (omega arith)
        (omega (arith, length-buffer out gap code))
        (value_at-buffer out gap code i 0 w p (omega arith) refl hw)
        (value_at-buffer out gap code (i + 1) 1 x q (omega arith) refl hx)
        (value_at-buffer out gap code (i + 2) 2 y r (omega arith) refl hy)
        (value_at-buffer out gap code (i + 3) 3 z s (omega arith) refl hz) in
    let (left, h, e) = drop_three gap w x y z digits in
    let written : set_three (buffer out gap code) (length out) a b c
        ≡ buffer (out ++ (a ∷ b ∷ c ∷ [])) left digits =
      set_three-append out (gap ++ code) a b c (omega (arith, length-append gap code))
      ∙ (ap (λ l. out ++ (a ∷ b ∷ c ∷ l)) e
          ∙ sym (append_assoc out (a ∷ b ∷ c ∷ []) (left ++ digits))) in
    (left, h, round ∙ ap some (rw (ha, hb, hc, hj) written))
