-- ===== src/Kv/Spec.antt =====
-- What a file of lines means: the first line of a key holds its value.
use cfunction.Prelude.{
  ◌==◌, if◌then◌else◌, Bool-cases, same, ℕ, ◌≡◌, refl, ap, ◌∙◌, inl, inr, Bool, true, false, ◌||◌,
  Option, none, some, List, [], ◌∷◌, ◌++◌, arith,
}
use cfunction.Kv.{is_space, get_key, has_sign, get_value, upto_sign}
use cfunction.Kv.Key.{matches, matches-upto_sign, IsKey, word, same_refl, same-eq}

-- The first line of a key.
unfoldable pub first : (key : List ℕ) → List (List ℕ) → Option (List ℕ)
first key [] = none
first key (line ∷ lines) =
    let rest = first key lines in if matches key line then some line else rest

-- Its value.
unfoldable pub find : (key : List ℕ) → List (List ℕ) → Option (List ℕ)
find key [] = none
find key (line ∷ lines) =
    let rest = find key lines in if matches key line then get_value line else rest

unfoldable pub found : (key : List ℕ) → List (List ℕ) → Bool
found key [] = false
found key (line ∷ lines) = matches key line || found key lines

-- A line with a value in place of what follows its sign `=`.
unfoldable pub changed : (key value line : List ℕ) → List ℕ
changed key value line = if matches key line then upto_sign line ++ value else line

unfoldable pub change_all : (key value : List ℕ) → List (List ℕ) → List (List ℕ)
change_all key value [] = []
change_all key value (line ∷ lines) = changed key value line ∷ change_all key value lines

-- A line of its own for the key.
abbrev pub entry : (key value : List ℕ) → List ℕ
entry key value = key ++ (b'=' ∷ value)

-- The lines with a value for the key: in every line of the key, or else in a new one.
unfoldable pub put : (key value : List ℕ) → List (List ℕ) → List (List ℕ)
put key value lines =
    if found key lines then change_all key value lines else lines ++ (entry key value ∷ [])

pub matches-has_sign : (key line : List ℕ) → matches key line ≡ true → has_sign line ≡ true
unfolding matches
matches-has_sign key line h = ground arith

pub get_value-has_sign :
    (str : List ℕ) → has_sign str ≡ true → (v : List ℕ) × (get_value str ≡ some v)
unfolding has_sign get_value
get_value-has_sign [] h = absurd (ground arith)
get_value-has_sign (c ∷ str) h = elim (Bool-cases (c == b'=')) [
  | inl e ↦ (str, rw e refl)
  | inr e ↦ let (v, found) = get_value-has_sign str (ground arith) in (v, rw e found)
]

pub get_value-upto_sign :
    (line v : List ℕ) → has_sign line ≡ true → get_value (upto_sign line ++ v) ≡ some v
unfolding get_value has_sign upto_sign
get_value-upto_sign [] v h = absurd (ground arith)
get_value-upto_sign (c ∷ line) v h = elim (Bool-cases (c == b'=')) [
  | inl e ↦ let e' : c ≡ b'=' = ground arith in rw e' refl
  | inr e ↦ rw e (rw e (get_value-upto_sign line v (ground arith)))
]

get_key-entry : (key value : List ℕ) → IsKey key → get_key (entry key value) ≡ entry key value
unfolding get_key
get_key-entry [] value h = refl
get_key-entry (c ∷ key) value h = rw h.0.2 refl

word-entry : (key value : List ℕ) → IsKey key → word (entry key value) ≡ key
unfolding word
word-entry [] value h = refl
word-entry (c ∷ key) value h =
    let plain : (is_space c || (c == b'=')) ≡ false = ground (arith, h.0) in
    rw plain (ap (λ s. c ∷ s) (word-entry key value h.1))

has_sign-entry : (key value : List ℕ) → has_sign (entry key value) ≡ true
unfolding has_sign
has_sign-entry [] value = refl
has_sign-entry (c ∷ key) value = ground (arith, has_sign-entry key value)

get_value-entry : (key value : List ℕ) → IsKey key → get_value (entry key value) ≡ some value
unfolding get_value
get_value-entry [] value h = refl
get_value-entry (c ∷ key) value h = ground (arith, get_value-entry key value h.1, h.0)

-- An entry for a key is a line of that key only.
pub matches-entry :
    (other key value : List ℕ) → IsKey key → matches other (entry key value) ≡ same key other
unfolding matches
matches-entry other key value h =
    rw (get_key-entry key value h, word-entry key value h, has_sign-entry key value) (ground arith)

find-change_all :
    (key value : List ℕ) (lines : List (List ℕ))
    → found key lines ≡ true
    → find key (change_all key value lines) ≡ some value
unfolding find found change_all changed
find-change_all key value [] h = absurd (ground arith)
find-change_all key value (line ∷ lines) h = elim (Bool-cases (matches key line)) [
  | inl e ↦
      let sign = matches-has_sign key line e in
      let still : matches key (upto_sign line ++ value) ≡ true =
        matches-upto_sign key line value sign ∙ e in
      rw e (rw still (get_value-upto_sign line value sign))
  | inr e ↦ rw e (rw e (find-change_all key value lines (ground (arith, h, e))))
]

pub find-append :
    (key : List ℕ) (lines : List (List ℕ)) (line : List ℕ)
    → found key lines ≡ false
    → find key (lines ++ (line ∷ [])) ≡ find key (line ∷ [])
unfolding find found
find-append key [] line h = refl
find-append key (l ∷ lines) line h =
    let e : matches key l ≡ false = ground arith in rw e (find-append key lines line (ground arith))

-- After a value has been put for a key, the key has that value.
pub find-put :
    (key value : List ℕ) (lines : List (List ℕ))
    → IsKey key
    → find key (put key value lines) ≡ some value
unfolding put find
find-put key value lines h = elim (Bool-cases (found key lines)) [
  | inl e ↦ rw e (find-change_all key value lines e)
  | inr e ↦ rw e (
      find-append key lines (entry key value) e
      ∙ rw (matches-entry key key value h, same_refl key, get_value-entry key value h) refl)
]

-- A line has one key.
matches_other :
    (key other line : List ℕ)
    → same key other ≡ false
    → matches key line ≡ true
    → matches other line ≡ false
unfolding matches
matches_other key other line ne h =
    let e : word (get_key line) ≡ key = same-eq (word (get_key line)) key (ground arith) in
    rw (e, ne) refl

first_other-change_all :
    (key other value : List ℕ) (lines : List (List ℕ))
    → same key other ≡ false
    → first other (change_all key value lines) ≡ first other lines
unfolding first change_all changed
first_other-change_all key other value [] ne = refl
first_other-change_all key other value (line ∷ lines) ne = elim (Bool-cases (matches key line)) [
  | inl e ↦
      let miss = matches_other key other line ne e in
      let still : matches other (upto_sign line ++ value) ≡ false =
        matches-upto_sign other line value (matches-has_sign key line e) ∙ miss in
      rw e (rw (still, miss) (first_other-change_all key other value lines ne))
  | inr e ↦ rw e (
      ap (λ rest. if matches other line then some line else rest)
        (first_other-change_all key other value lines ne))
]

first_other-append :
    (other : List ℕ) (lines : List (List ℕ)) (line : List ℕ)
    → matches other line ≡ false
    → first other (lines ++ (line ∷ [])) ≡ first other lines
unfolding first
first_other-append other [] line miss = rw miss refl
first_other-append other (l ∷ lines) line miss =
    ap (λ rest. if matches other l then some l else rest) (first_other-append other lines line miss)

-- The first line of every other key stays, or there is none still.
pub first-put_other :
    (key other value : List ℕ) (lines : List (List ℕ))
    → IsKey key
    → same key other ≡ false
    → first other (put key value lines) ≡ first other lines
unfolding put
first-put_other key other value lines h ne = elim (Bool-cases (found key lines)) [
  | inl e ↦ rw e (first_other-change_all key other value lines ne)
  | inr e ↦
      rw e (first_other-append other lines (entry key value) (matches-entry other key value h ∙ ne))
]
