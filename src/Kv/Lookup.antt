-- ===== src/Kv/Lookup.antt =====
-- `file_get_value` on a file of lines.
use cfunction.Prelude.{
  leb, ◌==◌, Bool-cases, Option-cases, length, drop, replicate, length-append, length-replicate,
  All, pos, negsuc, ◌>>=◌, begins, ℕ, zero, suc, ◌+◌, ◌≡◌, refl, sym, ap, ◌∙◌, inl, inr, true,
  false, none, some, List, [], ◌∷◌, ◌++◌, append_assoc, arith,
}
use cfunction.Kv.{get_value, is_key_equal, get_key, copy}
use cfunction.Kv.Blank.{IsCore, del_blank_lem}
use cfunction.Kv.File.{cut, refill, get_loop, Calls, open_file, found_value, file_get_value}
use cfunction.Kv.Key.{IsText, IsKey, matches, is_key_equal-matches, matches-end}
use cfunction.Kv.Spec.{first, get_value-has_sign, matches-has_sign, find, matches-has_sign}
use cfunction.Kv.Read.{reads-ended, unlines, IsLine, ended_lines, cut-end}

first-find :
    (key : List ℕ) (lines : List (List ℕ)) → (first key lines >>= get_value) ≡ find key lines
unfolding first find
first-find key [] = refl
first-find key (line ∷ lines) = elim (Bool-cases (matches key line)) [
  | inl e ↦ rw e refl
  | inr e ↦ rw e (first-find key lines)
]

refill-end :
    (line linebuf : List ℕ)
    → IsText line
    → refill (line ++ (b'\n' ∷ [])) linebuf ≡ line ++ (b'\n' ∷ [])
unfolding cut
refill-end [] linebuf h = refl
refill-end (c ∷ line) linebuf h = cut-end (c ∷ line) h

first-matches :
    (key : List ℕ) (lines : List (List ℕ)) (line : List ℕ)
    → first key lines ≡ some line
    → matches key line ≡ true
unfolding first
first-matches key [] line h = absurd (ground arith)
first-matches key (l ∷ lines) line h = elim (Bool-cases (matches key l)) [
  | inl e ↦ let same : l ≡ line = ground (arith, h, e) in rw (sym same) e
  | inr e ↦ first-matches key lines line (ground (arith, h, e))
]

pub get_loop-ended_lines :
    (key : List ℕ) (lines : List (List ℕ)) (linebuf : List ℕ)
    → IsKey key
    → All IsLine lines
    → is_key_equal (some linebuf) (some key) ≡ false
    → get_loop (ended_lines [] lines) linebuf key
      ≡ (first key lines >>= λ line. some (line ++ (b'\n' ∷ [])))
unfolding get_loop first
get_loop-ended_lines key [] linebuf k l miss = rw miss refl
get_loop-ended_lines key (line ∷ lines) linebuf k l miss =
    let e = is_key_equal-matches key (line ++ (b'\n' ∷ [])) k ∙ matches-end key line in
    elim (Bool-cases (matches key line)) [
      | inl hit ↦ rw (refill-end line linebuf l.0.0, e, hit) refl
      | inr other ↦
          rw (refill-end line linebuf l.0.0, e, other)
            (get_loop-ended_lines key lines (line ++ (b'\n' ∷ [])) k l.1 (e ∙ other))
    ]

pub is_key_equal-empty : (key : List ℕ) → is_key_equal (some []) (some key) ≡ false
unfolding is_key_equal get_key begins
is_key_equal-empty [] = refl
is_key_equal-empty (c ∷ key) = refl

get_value-end :
    (line v : List ℕ)
    → get_value line ≡ some v
    → get_value (line ++ (b'\n' ∷ [])) ≡ some (v ++ (b'\n' ∷ []))
unfolding get_value
get_value-end [] v h = absurd (ground arith)
get_value-end (c ∷ line) v h = elim (Bool-cases (c == b'=')) [
  | inl e ↦ let same : line ≡ v = ground (arith, h, e) in rw (e, same) refl
  | inr e ↦ rw e (get_value-end line v (ground (arith, h, e)))
]

drop-replicate : (n m x : ℕ) → drop n (replicate (n + m) x) ≡ replicate m x
drop-replicate zero m x = let e : 0 + m ≡ m = omega arith in rw e refl
drop-replicate (suc n) m x =
    let e : suc n + m ≡ suc (n + m) = omega arith in rw e (drop-replicate n m x)

pub copy-replicate :
    (s : List ℕ) (n : ℕ) → copy s (replicate (length s + n) 0) ≡ some (s ++ replicate n 0)
unfolding copy
copy-replicate s n =
    let size = length-replicate {A = ℕ} (length s + n) 0 in
    let fits : leb (length s) (length s + n) ≡ true = ground arith in
    rw (size, fits, drop-replicate (length s) n 0) refl

-- A value of the file, in a zeroed buffer that has room for it and the end of its line.
found_value-core :
    (line v : List ℕ) (more : ℕ)
    → get_value line ≡ some v
    → IsCore v
    → found_value (some (line ++ (b'\n' ∷ []))) (replicate (length v + 2 + more) 0)
      ≡ some (pos 0, v ++ (0 ∷ 0 ∷ replicate more 0))
unfolding found_value
found_value-core line v more h core =
    let size : length v + 2 + more ≡ length (v ++ (b'\n' ∷ [])) + suc more =
      omega (arith, length-append v (b'\n' ∷ [])) in
    let copied : copy (v ++ (b'\n' ∷ [])) (replicate (length v + 2 + more) 0)
        ≡ some (v ++ (b'\n' ∷ 0 ∷ replicate more 0)) =
      rw (size, copy-replicate (v ++ (b'\n' ∷ [])) (suc more))
        (ap some (append_assoc v (b'\n' ∷ []) (0 ∷ replicate more 0))) in
    rw
      (
        found_value,
        get_value-end line v h,
        copied,
        del_blank_lem v (b'\n' ∷ []) (replicate more 0) core (refl, tt),
      )
      refl

-- For a file of lines of at most 254 bytes, all ended, and a key without blanks and signs `=`:
-- file_get_value returns -3 when no line has the key, and the buffer is not written to.
pub file_get_value-missing :
    (calls : Calls) (key value : List ℕ) (lines : List (List ℕ))
    → calls.readable ≡ true
    → IsKey key
    → All IsLine lines
    → find key lines ≡ none
    → file_get_value calls (some (unlines lines)) (some key) (some value)
      ≡ some (negsuc 2, some value)
unfolding file_get_value open_file found_value
file_get_value-missing calls key value lines r k l h = elim (Option-cases (first key lines)) [
  | inl e ↦
      let loop = get_loop-ended_lines key lines [] k l (is_key_equal-empty key) in
      rw (r, reads-ended lines l, loop, e) refl
  | inr (line, e) ↦
      let (v, valued) =
        get_value-has_sign line (matches-has_sign key line (first-matches key lines line e)) in
      let bad : none ≡ some v =
        sym h ∙ sym (first-find key lines) ∙ ap (λ o. o >>= get_value) e ∙ valued in
      absurd (ground arith)
]

-- On such a file, when the first line with the key has a value that is not empty and neither begins
-- nor ends with a blank: file_get_value with a zeroed buffer of two bytes more, or larger, returns 0 and writes the
-- value, behind which the buffer is still zero.
pub file_get_value-find :
    (calls : Calls) (key v : List ℕ) (more : ℕ) (lines : List (List ℕ))
    → calls.readable ≡ true
    → IsKey key
    → All IsLine lines
    → find key lines ≡ some v
    → IsCore v
    → file_get_value calls
        (some (unlines lines))
        (some key)
        (some (replicate (length v + 2 + more) 0))
      ≡ some (pos 0, some (v ++ (0 ∷ 0 ∷ replicate more 0)))
unfolding file_get_value open_file
file_get_value-find calls key v more lines r k l h core = elim (Option-cases (first key lines)) [
  | inl e ↦
      let bad : none ≡ some v = ap (λ o. o >>= get_value) (sym e) ∙ first-find key lines ∙ h in
      absurd (ground arith)
  | inr (line, e) ↦
      let loop = get_loop-ended_lines key lines [] k l (is_key_equal-empty key) in
      let valued : get_value line ≡ some v =
        ap (λ o. o >>= get_value) (sym e) ∙ first-find key lines ∙ h in
      rw (r, reads-ended lines l, loop, e, found_value-core line v more valued core) refl
]
