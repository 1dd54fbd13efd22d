-- ===== src/Gps/Fields/Split.antt =====
-- Fields between commas.
use cfunction.Prelude.{
  ltb, ==_ne, codes, length, replicate, length-append, take-append, All, pos, begins, strstr, ℕ,
  suc, ◌+◌, ◌-◌, ◌≤◌, ◌<◌, ◌≡◌, refl, sym, ◌≢◌, true, false, some, List, [], ◌∷◌, ◌++◌, append-nil,
  arith,
}
use cfunction.Serial.Line.{strncpy}
use cfunction.Gps.Fields.{date_size, here, skip, has_field, date_field}

-- A field with something in it and no comma.
abbrev pub IsField : List ℕ → Type 0
IsField f = (0 < length f) × All (λ c. c ≢ b',') f

-- A field, the comma and what follows.
abbrev pub field : List ℕ → List ℕ → List ℕ
field f s = f ++ (b',' ∷ s)

pub skip-comma : (f s : List ℕ) → All (λ c. c ≢ b',') f → skip (field f s) ≡ some s
unfolding skip
skip-comma [] s h = refl
skip-comma (c ∷ f) s h = rw (==_ne c b',' h.0) (skip-comma f s h.1)

pub skip-field : (f s : List ℕ) → IsField f → skip (field f s) ≡ some s
skip-field f s h = skip-comma f s h.1

pub has_field-append : (f s : List ℕ) → IsField f → has_field (f ++ s) ≡ true
has_field-append [] s h = absurd (omega (arith, h.0))
has_field-append (c ∷ f) s h = rw (==_ne c b',' h.1.0) refl

pub here-append : (f s : List ℕ) → IsField f → here (f ++ s) ≡ here f
here-append [] s h = absurd (omega (arith, h.0))
here-append (c ∷ f) s h = refl

-- The first "A," behind a field without an A.
pub strstr-field :
    (time s : List ℕ)
    → All (λ c. c ≢ b'A') time
    → strstr (field time (b'A' ∷ b',' ∷ s)) (codes "A,") ≡ some (length time + 1)
unfolding strstr begins
strstr-field [] s h = refl
strstr-field (c ∷ time) s h =
    let e : suc (length time) + 1 ≡ length time + 1 + 1 = omega arith in
    rw (==_ne b'A' c (λ e. h.0 (sym e)), strstr-field time s h.1, e) refl

-- The first n bytes of a string in a cleared buffer.
pub date_field-append :
    (f s : List ℕ)
    → length f ≤ date_size
    → date_field (f ++ s) (pos (length f)) ≡ some (f ++ replicate (date_size - length f) 0)
unfolding date_field strncpy
date_field-append f s h =
    let fits : ltb date_size (length f) ≡ false = ground (arith, h) in
    let none_left : length f - length (f ++ s) ≡ 0 = omega (arith, length-append f s) in
    rw (fits, take-append f s, none_left, append-nil f) refl
