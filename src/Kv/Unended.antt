-- ===== src/Kv/Unended.antt =====
-- `file_update_value` on a file whose last line has no end.
use cfunction.Prelude.{
  ◌==◌, Bool-cases, length, length-append, All, All-append, pos, negsuc, ℕ, ◌+◌, ◌≤◌, ◌<◌, ◌≡◌,
  refl, sym, ap, ◌∙◌, inl, inr, true, false, none, some, List, [], ◌∷◌, ◌++◌, append_assoc, arith,
}
use cfunction.Kv.{kv_size, has_sign, upto_sign, get_value}
use cfunction.Kv.File.{
  Calls, open_file, file_get_value, finish_update, update_opened, file_update_value,
}
use cfunction.Kv.Key.{IsText, IsKey, matches, matches-upto_sign}
use cfunction.Kv.Spec.{find-append, find, found, changed, change_all, entry, get_value-has_sign}
use cfunction.Kv.Read.{unlines, IsLine, reads-unlines, unlines-append}
use cfunction.Kv.Update.{Fits, update_loop-ended_lines}
use cfunction.Kv.Lookup.{file_get_value-missing}
use cfunction.Kv.RoundTrip.{Succeed, IsKey-IsText}

upto_sign-append-get_value : (s v : List ℕ) → get_value s ≡ some v → upto_sign s ++ v ≡ s
unfolding get_value upto_sign
upto_sign-append-get_value [] v h = absurd (ground arith)
upto_sign-append-get_value (c ∷ s) v h = elim (Bool-cases (c == b'=')) [
  | inl e ↦ let same : s ≡ v = ground (arith, h, e) in rw (e, same) refl
  | inr e ↦ rw e (ap (λ l. c ∷ l) (upto_sign-append-get_value s v (ground (arith, h, e))))
]

-- Text behind a line that has a sign `=` does not change its key.
matches-append : (key s more : List ℕ) → has_sign s ≡ true → matches key (s ++ more) ≡ matches key s
matches-append key s more h =
    let (v, valued) = get_value-has_sign s h in
    let split = upto_sign-append-get_value s v valued in
    let whole : s ++ more ≡ upto_sign s ++ (v ++ more) =
      ap (λ l. l ++ more) (sym split) ∙ append_assoc (upto_sign s) v more in
    ap (matches key) whole ∙ matches-upto_sign key s (v ++ more) h

change_all-missing :
    (key value : List ℕ) (lines : List (List ℕ))
    → found key lines ≡ false
    → change_all key value lines ≡ lines
unfolding change_all changed found
change_all-missing key value [] h = refl
change_all-missing key value (line ∷ lines) h =
    let e : matches key line ≡ false = ground (arith, h) in
    rw (e, change_all-missing key value lines (ground (arith, h))) refl

Fits-missing :
    (key value : List ℕ) (lines : List (List ℕ))
    → found key lines ≡ false
    → All IsLine lines
    → All (Fits key value) lines
unfolding changed found
Fits-missing key value [] h l = tt
Fits-missing key value (line ∷ lines) h l =
    let e : matches key line ≡ false = ground (arith, h) in
    let fit : length (changed key value line) ≤ 254 = rw e l.0.1 in
    (fit, Fits-missing key value lines (ground (arith, h)) l.1)

file_update_value-unended :
    (calls : Calls) (key value last : List ℕ) (lines : List (List ℕ))
    → Succeed calls
    → IsKey key
    → IsText value
    → All IsLine lines
    → found key lines ≡ false
    → IsLine last
    → matches key last ≡ false
    → file_update_value calls (some (unlines lines ++ last)) (some key) (some value)
      ≡ some (pos 0, some ((unlines lines ++ last) ++ (key ++ (b'=' ∷ (value ++ (b'\n' ∷ []))))))
unfolding file_update_value open_file update_opened finish_update
file_update_value-unended calls key value last lines (r, a, w) k v l new (t, short) miss =
    let room : 0 + (length (unlines (change_all key value lines)) + length last)
        < length (unlines lines ++ last) + kv_size =
      omega (
        arith,
        ap (λ ls. length (unlines ls)) (change_all-missing key value lines new),
        length-append (unlines lines) last,
      ) in
    let loop =
      update_loop-ended_lines (length (unlines lines ++ last) + kv_size) key value last lines false
        [] k v t miss l (Fits-missing key value lines new l) room in
    rw (r, a, reads-unlines last lines (t, short) l, loop, new) refl

layout :
    (lines : List (List ℕ)) (last key value : List ℕ)
    → (unlines lines ++ last) ++ (key ++ (b'=' ∷ (value ++ (b'\n' ∷ []))))
      ≡ unlines (lines ++ ((last ++ entry key value) ∷ []))
layout lines last key value =
    rw
      (
        unlines-append lines (last ++ entry key value),
        append_assoc (unlines lines) last (key ++ (b'=' ∷ (value ++ (b'\n' ∷ [])))),
        append_assoc last (entry key value) (b'\n' ∷ []),
        append_assoc key (b'=' ∷ value) (b'\n' ∷ []),
      )
      refl

find-unended :
    (key value last : List ℕ) (lines : List (List ℕ))
    → found key lines ≡ false
    → has_sign last ≡ true
    → matches key last ≡ false
    → find key (lines ++ ((last ++ entry key value) ∷ [])) ≡ none
unfolding find
find-unended key value last lines new sign miss =
    let other : matches key (last ++ entry key value) ≡ false =
      matches-append key last (entry key value) sign ∙ miss in
    find-append key lines (last ++ entry key value) new ∙ rw other refl

-- On a file of ended lines of at most 254 bytes without a byte 0, and a last line that is not
-- ended, has a sign = and no byte 0; for a key without blanks, signs = and bytes 0 that no line
-- has, and a value without a byte 0 and an end of a line, where the last line and the entry
-- key=value behind it have together at most 254 bytes: when the calls of the system succeed
-- file_update_value returns 0, but it puts the entry behind the last line, on the same line;
-- file_get_value for the key then returns -3, and leaves any buffer as it is.
pub update-unended :
    (calls : Calls) (key value last buf : List ℕ) (lines : List (List ℕ))
    → Succeed calls
    → IsKey key
    → IsText value
    → All IsLine lines
    → found key lines ≡ false
    → IsText last
    → has_sign last ≡ true
    → matches key last ≡ false
    → length (last ++ entry key value) ≤ 254
    → (file_update_value calls (some (unlines lines ++ last)) (some key) (some value)
        ≡ some (pos 0, some (unlines (lines ++ ((last ++ entry key value) ∷ [])))))
      × (file_get_value calls
            (some (unlines (lines ++ ((last ++ entry key value) ∷ []))))
            (some key)
            (some buf)
          ≡ some (negsuc 2, some buf))
update-unended calls key value last buf lines ok k v l new t sign miss small =
    let textual : IsText (last ++ entry key value) =
      All-append _ last (entry key value) t
        (All-append _ key (b'=' ∷ value) (IsKey-IsText key k) (ground arith, v)) in
    let short : length last ≤ 254 = omega (arith, small, length-append last (entry key value)) in
    (
      file_update_value-unended calls key value last lines ok k v l new (t, short) miss
          ∙ ap (λ s. some (pos 0, some s)) (layout lines last key value),
      file_get_value-missing calls key buf (lines ++ ((last ++ entry key value) ∷ [])) ok.0 k
          (All-append IsLine lines ((last ++ entry key value) ∷ []) l ((textual, small), tt))
          (find-unended key value last lines new sign miss),
    )
