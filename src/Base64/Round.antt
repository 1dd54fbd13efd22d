-- ===== src/Base64/Round.antt =====
-- A round of the decoder of encode/base64.c, on the buffer that it overwrites.
use cfunction.Prelude.{
  ℕ, zero, suc, ◌+◌, ◌*◌, ◌/◌, ◌%◌, ◌^◌, ◌<◌, ◌≤◌, ◌≡◌, refl, ap, ◌≢◌, some, List, [], ◌∷◌, ◌++◌,
  lt→ltb, get_elem?, set, length, length-set, drop, arith,
}
use cfunction.Bits.{bit_or}
use cfunction.Base64.{value_at, store, decode_round}

module _ {ℓ} {A : Type ℓ} where
  get_elem?-set_ne :
      (xs : List A) (i j : ℕ) (v : A) → i ≢ j → get_elem? (set xs i v) j ≡ get_elem? xs j
  get_elem?-set_ne [] i j v h = refl
  get_elem?-set_ne (x ∷ xs) zero zero v h = absurd (h refl)
  get_elem?-set_ne (x ∷ xs) zero (suc j) v h = refl
  get_elem?-set_ne (x ∷ xs) (suc i) zero v h = refl
  get_elem?-set_ne (x ∷ xs) (suc i) (suc j) v h = get_elem?-set_ne xs i j v (λ e. h (ap suc e))

  -- Three writes in a row.
  abbrev pub set_three : List A → ℕ → (a b c : A) → List A
  set_three xs j a b c = set (set (set xs j a) (j + 1) b) (j + 2) c

  three_at_front :
      (ys : List A) (a b c : A) → 3 ≤ length ys → set_three ys 0 a b c ≡ a ∷ b ∷ c ∷ drop 3 ys
  three_at_front [] a b c h = absurd (omega arith)
  three_at_front (x ∷ []) a b c h = absurd (omega arith)
  three_at_front (x ∷ y ∷ []) a b c h = absurd (omega arith)
  three_at_front (x ∷ y ∷ z ∷ ys) a b c h = refl

  pub set_three-append :
      (xs ys : List A) (a b c : A)
      → 3 ≤ length ys
      → set_three (xs ++ ys) (length xs) a b c ≡ xs ++ (a ∷ b ∷ c ∷ drop 3 ys)
  set_three-append [] ys a b c h = three_at_front ys a b c h
  set_three-append (x ∷ xs) ys a b c h =
      let one : suc (length xs) + 1 ≡ suc (length xs + 1) = omega arith in
      let two : suc (length xs) + 2 ≡ suc (length xs + 2) = omega arith in
      rw (one, two) (ap (λ l. x ∷ l) (set_three-append xs ys a b c h))

value_at-set_ne : (code : List ℕ) (j i v : ℕ) → j ≢ i → value_at (set code j v) i ≡ value_at code i
unfolding value_at
value_at-set_ne code j i v h = rw (get_elem?-set_ne code j i v h) refl

store-set :
    (code : List ℕ) (j v : ℕ) → j < length code → store code j v ≡ some (set code j (v % 256))
unfolding store
store-set code j v h = rw (lt→ltb j (length code) h) refl

-- The writes of a round stay behind its reads.
pub decode_round-set_three :
    (i j : ℕ) (code : List ℕ) (p q r s : ℕ)
    → j ≤ i
    → i + 3 < length code
    → value_at code i ≡ some p
    → value_at code (i + 1) ≡ some q
    → value_at code (i + 2) ≡ some r
    → value_at code (i + 3) ≡ some s
    → decode_round i j code
      ≡ some (
          set_three code j
            (bit_or (p * 2 ^ 2) (q / 2 ^ 4) % 256)
            (bit_or (q * 2 ^ 4) (r / 2 ^ 2) % 256)
            (bit_or (r * 2 ^ 6) s % 256))
unfolding decode_round
decode_round-set_three i j code p q r s le lt hp hq hr hs =
    let a = bit_or (p * 2 ^ 2) (q / 2 ^ 4) in
    let b = bit_or (q * 2 ^ 4) (r / 2 ^ 2) in
    let one = set code j (a % 256) in
    let two = set one (j + 1) (b % 256) in
    rw
      (
        hp,
        hq,
        store-set code j a (omega arith),
        value_at-set_ne code j (i + 1) (a % 256) (omega arith),
        value_at-set_ne code j (i + 2) (a % 256) (omega arith),
        hq,
        hr,
        store-set one (j + 1) b (omega (arith, length-set code j (a % 256))),
        value_at-set_ne one (j + 1) (i + 2) (b % 256) (omega arith),
        value_at-set_ne one (j + 1) (i + 3) (b % 256) (omega arith),
        value_at-set_ne code j (i + 2) (a % 256) (omega arith),
        value_at-set_ne code j (i + 3) (a % 256) (omega arith),
        hr,
        hs,
      )
      (store-set two (j + 2) (bit_or (r * 2 ^ 6) s)
        (omega (arith, length-set one (j + 1) (b % 256), length-set code j (a % 256))))
