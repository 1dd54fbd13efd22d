-- ===== src/Kv/Key.antt =====
-- Which lines `kv_is_key_equal` takes for lines of a key.
use cfunction.Prelude.{
  ◌==◌, if◌then◌else◌, ==_refl, Bool-cases, length, get_or, All, same, begins, ℕ, ◌≡◌, refl, sym,
  ap, ap₂, ◌∙◌, ◌≢◌, ◌↔◌, inl, inr, Bool, true, false, ◌&&◌, ◌||◌, some, List, [], ◌∷◌, ◌++◌, arith,
}
use cfunction.Kv.{upto_sign, is_space, get_key, has_sign, is_key_equal}

-- A string without a byte 0 and without the end of a line.
abbrev pub IsText : List ℕ → Type 0
IsText = All (λ c. (c ≢ 0) × (c ≢ b'\n'))

-- A key has no blanks and no sign `=` in it.
abbrev pub IsKey : List ℕ → Type 0
IsKey = All (λ c. (c ≢ 0) × (c ≢ b'=') × (is_space c ≡ false))

-- The bytes up to the first blank or sign `=`.
unfoldable pub word : List ℕ → List ℕ
word [] = []
word (c ∷ s) = let rest = word s in if is_space c || (c == b'=') then [] else c ∷ rest

-- The first word of a line, where there may be blanks before it.
pub key_of : List ℕ → List ℕ
key_of str = word (get_key str)

-- A line has the key, and a sign `=` somewhere.
unfoldable pub matches : (key str : List ℕ) → Bool
matches key str = same (word (get_key str)) key && has_sign str

has_sign-get_key : (str : List ℕ) → has_sign (get_key str) ≡ has_sign str
unfolding has_sign get_key
has_sign-get_key [] = refl
has_sign-get_key (c ∷ str) = ground (arith, has_sign-get_key str)

sign_next :
    (blank sign later : Bool) (c : ℕ) (rest : List ℕ)
    → ((blank && (sign || later)) || sign)
      ≡ (same (if blank || sign then [] else c ∷ rest) [] && (sign || later))
sign_next true true later c rest = refl
sign_next true false later c rest = ground arith
sign_next false true later c rest = refl
sign_next false false later c rest = refl

same_ne :
    (k c : ℕ) (key : List ℕ) (stop : Bool) (rest : List ℕ) (signed : Bool)
    → (k == c) ≡ false
    → (same (if stop then [] else c ∷ rest) (k ∷ key) && signed) ≡ false
same_ne k c key true rest signed e = refl
same_ne k c key false rest signed e = ground arith

begins-word :
    (key p : List ℕ)
    → IsKey key
    → (begins key p
        && ((is_space (get_or p (length key) 0) && has_sign p)
            || (get_or p (length key) 0 == b'=')))
      ≡ (same (word p) key && has_sign p)
unfolding begins has_sign word
begins-word [] [] h = refl
begins-word [] (c ∷ p) h = sign_next (is_space c) (c == b'=') (has_sign p) c (word p)
begins-word (k ∷ key) [] h = refl
begins-word (k ∷ key) (c ∷ p) h = elim (Bool-cases (k == c)) [
  | inl e ↦
      let e' : c ≡ k = ground arith in
      let plain : (is_space c || (c == b'=')) ≡ false = ground (arith, h.0) in
      let unsigned : (c == b'=') ≡ false = ground (arith, h.0) in
      let here : (c == k) ≡ true = ground arith in
      rw (e, plain, unsigned, here) (begins-word key p h.1)
  | inr e ↦ rw e (sym (same_ne k c key (is_space c || (c == b'=')) (word p) (has_sign (c ∷ p)) e))
]

pub is_key_equal-matches :
    (key str : List ℕ) → IsKey key → is_key_equal (some str) (some key) ≡ matches key str
unfolding is_key_equal matches
is_key_equal-matches key str h =
    begins-word key (get_key str) h
    ∙ ap (λ b. same (word (get_key str)) key && b) (has_sign-get_key str)

pub same-eq : (xs ys : List ℕ) → same xs ys ≡ true → xs ≡ ys
same-eq [] [] h = refl
same-eq (x ∷ xs) [] h = ground arith
same-eq [] (y ∷ ys) h = ground arith
same-eq (x ∷ xs) (y ∷ ys) h =
    let e : x ≡ y = ground arith in ap₂ (λ a l. a ∷ l) e (same-eq xs ys (ground arith))

pub same_refl : (xs : List ℕ) → same xs xs ≡ true
same_refl [] = refl
same_refl (x ∷ xs) = rw (==_refl x) (same_refl xs)

-- For a key without blanks, signs `=` and bytes 0: kv_is_key_equal accepts exactly the strings that
-- have a sign `=` and whose first word, up to a blank or that sign and behind leading blanks, is the
-- key.
pub is_key_equal-key_of :
    (key str : List ℕ)
    → IsKey key
    → (is_key_equal (some str) (some key) ≡ true) ↔ ((key_of str ≡ key) × (has_sign str ≡ true))
unfolding matches key_of
is_key_equal-key_of key str h =
    let e = is_key_equal-matches key str h in
    (
      λ yes. ground (arith, same-eq (word (get_key str)) key),
      λ (first, sign). rw (e, first, sign, same_refl key) refl,
    )

-- Nothing that follows the sign `=`, or the end of the line, changes the key.
word-upto_sign : (str v : List ℕ) → has_sign str ≡ true → word (upto_sign str ++ v) ≡ word str
unfolding word has_sign upto_sign
word-upto_sign [] v h = absurd (ground arith)
word-upto_sign (c ∷ str) v h = elim (Bool-cases (c == b'=')) [
  | inl e ↦ let e' : c ≡ b'=' = ground arith in rw e' refl
  | inr e ↦ rw e (ground (arith, word-upto_sign str v (ground arith)))
]

get_key-upto_sign :
    (str v : List ℕ)
    → has_sign str ≡ true
    → word (get_key (upto_sign str ++ v)) ≡ word (get_key str)
unfolding get_key has_sign upto_sign word
get_key-upto_sign [] v h = absurd (ground arith)
get_key-upto_sign (c ∷ str) v h = elim (Bool-cases (c == b'=')) [
  | inl e ↦ let e' : c ≡ b'=' = ground arith in rw e' refl
  | inr e ↦
      rw e (
        ground (arith, get_key-upto_sign str v (ground arith), word-upto_sign str v (ground arith)))
]

has_sign-upto_sign : (str v : List ℕ) → has_sign str ≡ true → has_sign (upto_sign str ++ v) ≡ true
unfolding has_sign upto_sign
has_sign-upto_sign [] v h = absurd (ground arith)
has_sign-upto_sign (c ∷ str) v h = elim (Bool-cases (c == b'=')) [
  | inl e ↦ let e' : c ≡ b'=' = ground arith in rw e' refl
  | inr e ↦ rw e (ground (arith, has_sign-upto_sign str v (ground arith)))
]

pub matches-upto_sign :
    (key str v : List ℕ) → has_sign str ≡ true → matches key (upto_sign str ++ v) ≡ matches key str
unfolding matches
matches-upto_sign key str v h = rw (get_key-upto_sign str v h, has_sign-upto_sign str v h, h) refl

word-end : (str : List ℕ) → word (str ++ (b'\n' ∷ [])) ≡ word str
unfolding word
word-end [] = refl
word-end (c ∷ str) = ground (arith, word-end str)

get_key-end : (str : List ℕ) → word (get_key (str ++ (b'\n' ∷ []))) ≡ word (get_key str)
unfolding get_key
get_key-end [] = refl
get_key-end (c ∷ str) = ground (arith, get_key-end str, word-end (c ∷ str))

has_sign-end : (str : List ℕ) → has_sign (str ++ (b'\n' ∷ [])) ≡ has_sign str
unfolding has_sign
has_sign-end [] = refl
has_sign-end (c ∷ str) = ground (arith, has_sign-end str)

pub matches-end : (key str : List ℕ) → matches key (str ++ (b'\n' ∷ [])) ≡ matches key str
unfolding matches
matches-end key str = rw (get_key-end str, has_sign-end str) refl
