-- ===== src/Base64/RoundTrip.antt =====
-- encode/base64.c decodes in place what it encodes.
use cfunction.Prelude.{
  ℕ, zero, suc, ◌+◌, ◌*◌, ◌/◌, ◌^◌, ◌<◌, ◌≤◌, ◌≡◌, refl, sym, ap, ◌∙◌, true, none, some, List, [],
  ◌∷◌, ◌++◌, ltb, lt→ltb, get_elem?, length, length-append, append_assoc, All, pos, arith,
}
use cfunction.Bits.{bit_or, bit_and}
use cfunction.Base64.{digit, encode, decode_round, decode_loop, decode, strlen, value_at}
use cfunction.Base64.Table.{table}
use cfunction.Base64.Buffer.{buffer, Step}
use cfunction.Base64.Padding.{length-encode, strlen-encode, outlen-encode}
use cfunction.Base64.Steps.{stop, go_on, step_one, step_two, step_three}

-- The decoder with fuel for every round that is left
Spells : (k n i j : ℕ) (code out : List ℕ) → Type 0
Spells k n i j code out = (rest : List ℕ) × (decode_loop k n i j code ≡ some (out ++ rest))

-- The last round
last :
    (k n i j w x y z a b c : ℕ) (out gap tail : List ℕ)
    → i + 4 ≡ n
    → Step out gap tail i j w x y z a b c
    → (left : List ℕ) × (decode_loop (suc (suc k)) n i j (buffer out gap (w ∷ x ∷ y ∷ z ∷ tail))
        ≡ some (out ++ (a ∷ b ∷ c ∷ left)))
unfolding Step
last k n i j w x y z a b c out gap tail h (left, hl, e) = (
  left ++ tail,
  go_on (suc k) n i j (buffer out gap (w ∷ x ∷ y ∷ z ∷ tail))
        (buffer (out ++ (a ∷ b ∷ c ∷ [])) left tail) (omega arith) e
      ∙ (stop k n (i + 4) (j + 3) (buffer (out ++ (a ∷ b ∷ c ∷ [])) left tail) (omega arith)
          ∙ ap some (append_assoc out (a ∷ b ∷ c ∷ []) (left ++ tail))),
)

decode_loop-encode :
    (k n i j : ℕ) (xs out gap tail : List ℕ)
    → All (λ x. x < 256) xs
    → length xs < k
    → i ≡ length out + length gap
    → j ≡ length out
    → n ≡ i + length (encode xs)
    → Spells k n i j (buffer out gap (encode xs ++ tail)) (out ++ xs)
unfolding encode Spells Step
decode_loop-encode zero n i j xs out gap tail hx hk hi hj hn = absurd (omega arith)
decode_loop-encode (suc k) n i j [] out gap tail hx hk hi hj hn = (
  gap ++ tail,
  stop k n i j (buffer out gap tail) (omega arith)
      ∙ ap some (sym (append_assoc out [] (gap ++ tail))),
)
decode_loop-encode (suc zero) n i j (a ∷ xs) out gap tail hx hk hi hj hn = absurd (omega arith)
decode_loop-encode (suc (suc k)) n i j (a ∷ []) out gap tail (ha, _) hk hi hj hn =
    let (b, c, h) = step_one out gap tail i j a hi hj ha in
    let (left, e) =
      last k n i j (digit (a / 2 ^ 2)) (digit (bit_and a 0x3 * 2 ^ 4)) b'=' b'=' a b c out gap tail
        (omega arith) h in
    (b ∷ c ∷ left, e ∙ ap some (sym (append_assoc out (a ∷ []) (b ∷ c ∷ left))))
decode_loop-encode (suc (suc k)) n i j (a ∷ b ∷ []) out gap tail (ha, (hb, _)) hk hi hj hn =
    let (c, h) = step_two out gap tail i j a b hi hj ha hb in
    let (left, e) =
      last k n i j (digit (a / 2 ^ 2)) (digit (bit_or (bit_and a 0x3 * 2 ^ 4) (b / 2 ^ 4)))
        (digit (bit_and b 0xF * 2 ^ 2)) b'=' a b c out gap tail (omega arith) h in
    (c ∷ left, e ∙ ap some (sym (append_assoc out (a ∷ b ∷ []) (c ∷ left))))
decode_loop-encode (suc (suc k)) n i j (a ∷ b ∷ c ∷ xs) out gap tail (ha, (hb, (hc, hx))) hk hi hj
      hn =
    let h = step_three out gap (encode xs ++ tail) i j a b c hi hj ha hb hc in
    let abc = a ∷ b ∷ c ∷ [] in
    let (left, hl, e) = h in
    let (rest, f) =
      decode_loop-encode (suc k) n (i + 4) (j + 3) xs (out ++ abc) left tail hx (omega arith)
        (omega (arith, length-append out abc)) (omega (arith, length-append out abc))
        (omega arith) in
    (
      rest,
      go_on (suc k) n i j (buffer out gap (encode (a ∷ b ∷ c ∷ xs) ++ tail))
            (buffer (out ++ abc) left (encode xs ++ tail)) (omega arith) e
          ∙ (f ∙ ap (λ l. some (l ++ rest)) (append_assoc out abc xs)),
    )

-- base64_decode on a buffer that holds the text of base64_encode, a byte 0 and anything behind
-- it: for every byte sequence it returns the length, does not leave the buffer, and the buffer
-- starts with the bytes again.
pub decode-encode :
    (xs tail : List ℕ)
    → All (λ x. x < 256) xs
    → (rest : List ℕ) × (decode (encode xs ++ (0 ∷ tail)) ≡ some (pos (length xs), xs ++ rest))
unfolding decode Spells
decode-encode xs tail h =
    let n = length (encode xs) in
    let text = encode xs ++ (0 ∷ tail) in
    let (rest, e) =
      decode_loop-encode (n + 1) n 0 0 xs [] [] (0 ∷ tail) h (omega (arith, length-encode xs)) refl
        refl (omega arith) in
    (rest, rw (strlen-encode xs tail h, outlen-encode xs tail h, e) refl)

length-table : length table ≡ 123
unfolding table
length-table = refl

get_elem?-beyond {ℓ} : {A : Type ℓ} (xs : List A) (i : ℕ) → length xs ≤ i → get_elem? xs i ≡ none
get_elem?-beyond [] i h = refl
get_elem?-beyond (x ∷ xs) zero h = absurd (omega arith)
get_elem?-beyond (x ∷ xs) (suc i) h = get_elem?-beyond xs i (omega arith)

-- On a text of three characters or more whose first is beyond the letter z, base64_decode reads
-- behind its table: undefined behaviour.
pub decode_beyond_table :
    (code : List ℕ) (n c : ℕ)
    → strlen code ≡ some n
    → 3 ≤ n
    → get_elem? code 0 ≡ some c
    → 123 ≤ c
    → decode code ≡ none
unfolding decode decode_loop decode_round value_at
decode_beyond_table code n c hn h3 hc big =
    let t : ltb 2 n ≡ true = lt→ltb 2 n (omega arith) in
    let m : n + 1 ≡ suc n = omega arith in
    rw (hn, m, t, hc, get_elem?-beyond table c (omega (arith, length-table))) refl
