-- ===== src/Kv/Blank.antt =====
-- `kv_del_blank` on strings that do not begin with a blank.
use cfunction.Prelude.{
  text-append, length, get_or, set, replicate, length-append, set-append, All, All-append, text, ℕ,
  zero, suc, ◌+◌, ◌-◌, ◌<◌, ◌≡◌, refl, sym, ◌∙◌, ◌≢◌, true, false, some, List, [], ◌∷◌, ◌++◌,
  append_assoc, arith,
}
use cfunction.Kv.{is_space, trim_end, blanks, move_front, del_blank_end, del_blank}

abbrev pub IsBlank : List ℕ → Type 0
IsBlank = All (λ c. is_space c ≡ true)

-- Bytes that no call of kv_del_blank changes: the first and the last are no blanks.
abbrev pub IsCore : List ℕ → Type 0
IsCore core =
    (0 < length core)
    × All (λ c. c ≢ 0) core
    × (is_space (get_or core 0 0) ≡ false)
    × (is_space (get_or core (length core - 1) 0) ≡ false)

get_or-append : (xs : List ℕ) (y : ℕ) (ys : List ℕ) → get_or (xs ++ (y ∷ ys)) (length xs) 0 ≡ y
get_or-append [] y ys = refl
get_or-append (x ∷ xs) y ys = get_or-append xs y ys

trim_end-step :
    (core rest : List ℕ) (w k : ℕ)
    → length core ≡ suc k
    → is_space w ≡ true
    → trim_end (suc k) (core ++ (w ∷ rest)) ≡ trim_end k (core ++ (0 ∷ rest))
unfolding trim_end
trim_end-step core rest w k e blank =
    let read : get_or (core ++ (w ∷ rest)) (suc k) 0 ≡ w = rw (sym e) (get_or-append core w rest) in
    let write : set (core ++ (w ∷ rest)) (suc k) 0 ≡ core ++ (0 ∷ rest) =
      rw (sym e) (set-append core w rest 0) in
    rw (read, blank, write) refl

-- The loop runs back over the blanks.
trim_end-blanks :
    (core ws tail : List ℕ) (k : ℕ)
    → length core ≡ suc k
    → IsBlank ws
    → trim_end (k + length ws) (core ++ (ws ++ tail))
      ≡ trim_end k (core ++ (replicate (length ws) 0 ++ tail))
trim_end-blanks core [] tail k e h = let e0 : k + 0 ≡ k = omega arith in rw e0 refl
trim_end-blanks core (w ∷ ws) tail k e h =
    let at : k + suc (length ws) ≡ suc k + length ws = omega arith in
    let longer : length (core ++ (w ∷ [])) ≡ suc (suc k) =
      omega (arith, length-append core (w ∷ []), e) in
    let before : core ++ (w ∷ (ws ++ tail)) ≡ (core ++ (w ∷ [])) ++ (ws ++ tail) =
      sym (append_assoc core (w ∷ []) (ws ++ tail)) in
    let behind : (core ++ (w ∷ [])) ++ (replicate (length ws) 0 ++ tail)
        ≡ core ++ (w ∷ (replicate (length ws) 0 ++ tail)) =
      append_assoc core (w ∷ []) (replicate (length ws) 0 ++ tail) in
    let here : trim_end (k + suc (length ws)) (core ++ (w ∷ (ws ++ tail)))
        ≡ trim_end (suc k) (core ++ (w ∷ (replicate (length ws) 0 ++ tail))) =
      rw (at, before)
        (rw (sym behind) (trim_end-blanks (core ++ (w ∷ [])) ws tail (suc k) longer h.1)) in
    here ∙ trim_end-step core (replicate (length ws) 0 ++ tail) w k e h.0

get_or-core :
    (core rest : List ℕ) (i : ℕ) → i < length core → get_or (core ++ rest) i 0 ≡ get_or core i 0
get_or-core [] rest i h = absurd (omega arith)
get_or-core (c ∷ core) rest zero h = refl
get_or-core (c ∷ core) rest (suc i) h = get_or-core core rest i (omega arith)

-- It stops at the last byte of the core.
trim_end-core :
    (core rest : List ℕ) (k : ℕ)
    → length core ≡ suc k
    → is_space (get_or core k 0) ≡ false
    → trim_end k (core ++ rest) ≡ (core ++ rest, k)
unfolding trim_end
trim_end-core core rest zero e h = refl
trim_end-core core rest (suc k) e h =
    let read : get_or (core ++ rest) (suc k) 0 ≡ get_or core (suc k) 0 =
      get_or-core core rest (suc k) (omega (arith, e)) in
    rw (read, h) refl

blanks-core :
    (core rest : List ℕ) (k : ℕ)
    → 0 < length core
    → is_space (get_or core 0 0) ≡ false
    → blanks k (core ++ rest) ≡ 0
unfolding blanks
blanks-core [] rest k e h = absurd (omega arith)
blanks-core (c ∷ core) rest zero e h = refl
blanks-core (c ∷ core) rest (suc k) e h = rw h refl

blank_ne : (ws : List ℕ) → IsBlank ws → All (λ c. c ≢ 0) ws
blank_ne [] h = tt
blank_ne (w ∷ ws) h = (ground (arith, h.0), blank_ne ws h.1)

del_blank_end-core :
    (core ws rest : List ℕ) (k : ℕ)
    → length core ≡ suc k
    → IsCore core
    → IsBlank ws
    → del_blank_end (core ++ (ws ++ rest)) (suc (k + length ws))
      ≡ some (core ++ (replicate (length ws) 0 ++ rest))
unfolding del_blank_end move_front
del_blank_end-core core ws rest k e (positive, filled, first, last) blank =
    let at : length core - 1 ≡ k = omega (arith, e) in
    let zeros = replicate (length ws) 0 ++ rest in
    let trimmed : trim_end (k + length ws) (core ++ (ws ++ rest)) ≡ (core ++ zeros, k) =
      trim_end-blanks core ws rest k e blank ∙ trim_end-core core zeros k e (rw (sym at) last) in
    rw (trimmed, blanks-core core zeros k positive first) refl

-- On a buffer with a string that begins with a byte that is not blank and goes on to another such
-- byte, or ends with it, and then has only blanks: kv_del_blank puts a byte 0 in place of each of
-- these blanks and changes nothing else.
pub del_blank_lem :
    (core ws rest : List ℕ)
    → IsCore core
    → IsBlank ws
    → del_blank (some (core ++ (ws ++ (0 ∷ rest))))
      ≡ some (some (core ++ (replicate (length ws) 0 ++ (0 ∷ rest))))
unfolding del_blank
del_blank_lem core ws rest h blank =
    let read : text (core ++ (ws ++ (0 ∷ rest))) ≡ some (core ++ ws) =
      rw (sym (append_assoc core ws (0 ∷ rest)))
        (text-append (core ++ ws) rest (All-append (λ x. x ≢ 0) core ws h.1 (blank_ne ws blank))) in
    let k = length core - 1 in
    let positive : 0 < length core = h.0 in
    let e : length core ≡ suc k = omega (arith, positive) in
    let len : length (core ++ ws) ≡ suc (k + length ws) =
      omega (arith, length-append core ws, positive) in
    rw (read, len, del_blank_end-core core ws (0 ∷ rest) k e h blank) refl
