-- ===== src/Kv/Update.antt =====
-- `file_update_value` on a file of lines.
use mathlib.Core.Path.{subst}
use cfunction.Prelude.{
  ◌==◌, lt→ltb, Bool-cases, length, get_or, length-append, All, All-append, pos, ℕ, suc, ◌+◌, ◌-◌,
  ◌≤◌, ◌<◌, ◌≡◌, refl, sym, ap, ◌∙◌, inl, inr, Bool, true, false, ◌||◌, some, List, [], ◌∷◌, ◌++◌,
  append_assoc, append-nil, arith,
}
use cfunction.Kv.{kv_size, has_sign, upto_sign, change_value}
use cfunction.Kv.File.{
  Calls, open_file, ended, update_line, concat, update_loop, finish_update, update_opened,
  file_update_value,
}
use cfunction.Kv.Key.{IsText, IsKey, matches, is_key_equal-matches, matches-end}
use cfunction.Kv.Spec.{get_value-has_sign, matches-has_sign, found, changed, change_all, entry, put}
use cfunction.Kv.Read.{
  cut-IsText, reads-ended, unlines, IsLine, ended_lines, cut-end, unlines-append,
}

upto_sign-end :
    (str : List ℕ) → has_sign str ≡ true → upto_sign (str ++ (b'\n' ∷ [])) ≡ upto_sign str
unfolding has_sign upto_sign
upto_sign-end [] h = absurd (ground arith)
upto_sign-end (c ∷ str) h = elim (Bool-cases (c == b'=')) [
  | inl e ↦ rw e refl
  | inr e ↦ rw (e, upto_sign-end str (ground arith)) refl
]

pub upto_sign-IsText : (str : List ℕ) → IsText str → IsText (upto_sign str)
unfolding upto_sign
upto_sign-IsText [] h = tt
upto_sign-IsText (c ∷ str) h = elim (Bool-cases (c == b'=')) [
  | inl e ↦ rw e (h.0, tt)
  | inr e ↦ rw e (h.0, upto_sign-IsText str h.1)
]

last-IsText : (s : List ℕ) → IsText s → (get_or s (length s - 1) 0 == b'\n') ≡ false
last-IsText [] h = refl
last-IsText (c ∷ []) h = ground (arith, h.0)
last-IsText (c ∷ d ∷ s) h =
    let e : suc (suc (length s)) - 1 ≡ suc (suc (length s) - 1) = omega arith in
    rw e (last-IsText (d ∷ s) h.1)

ended-IsText : (s : List ℕ) → IsText s → length s ≤ 254 → ended s ≡ some (s ++ (b'\n' ∷ []))
unfolding ended
ended-IsText s h fits = rw (last-IsText s h, lt→ltb (length s + 1) kv_size (omega arith)) refl

-- The new line fits the buffer of a line.
abbrev pub Fits : (key value line : List ℕ) → Type 0
Fits key value line = length (changed key value line) ≤ 254

change_value-upto_sign :
    (size : ℕ) (str value : List ℕ)
    → has_sign str ≡ true
    → length (upto_sign str ++ value) < size
    → change_value size str (some value) ≡ some (pos 0, upto_sign str ++ value)
unfolding change_value
change_value-upto_sign size str value h fits =
    let (_, valued) = get_value-has_sign str h in
    let room = lt→ltb (length (upto_sign str ++ value)) size fits in
    rw (change_value, valued, room) refl

update_line-changed :
    (key value line : List ℕ)
    → IsKey key
    → IsText value
    → IsText line
    → Fits key value line
    → update_line key value (line ++ (b'\n' ∷ []))
      ≡ some (matches key line, changed key value line ++ (b'\n' ∷ []))
unfolding update_line changed
update_line-changed key value line k v l fits = elim (Bool-cases (matches key line)) [
  | inl e ↦
      let sign = matches-has_sign key line e in
      let signed : has_sign (line ++ (b'\n' ∷ [])) ≡ true =
        matches-has_sign key (line ++ (b'\n' ∷ [])) (matches-end key line ∙ e) in
      let same : changed key value line ≡ upto_sign line ++ value = rw e refl in
      let fit : length (upto_sign line ++ value) ≤ 254 = subst (λ s. length s ≤ 254) same fits in
      let textual : IsText (upto_sign line ++ value) =
        All-append _ (upto_sign line) value (upto_sign-IsText line l) v in
      let written : change_value kv_size (line ++ (b'\n' ∷ [])) (some value)
          ≡ some (pos 0, upto_sign line ++ value) =
        subst
          (λ s. change_value kv_size (line ++ (b'\n' ∷ [])) (some value) ≡ some (pos 0, s ++ value))
          (upto_sign-end line sign)
          (change_value-upto_sign kv_size (line ++ (b'\n' ∷ [])) value signed
            (rw (upto_sign-end line sign) (omega arith))) in
      rw
        (
          cut-end line l,
          is_key_equal-matches key (line ++ (b'\n' ∷ [])) k,
          matches-end key line,
          e,
          written,
          ended-IsText (upto_sign line ++ value) textual fit,
        )
        refl
  | inr e ↦
      rw
        (cut-end line l, is_key_equal-matches key (line ++ (b'\n' ∷ [])) k, matches-end key line, e)
        refl
]

update_line-other :
    (key value last : List ℕ)
    → IsKey key
    → IsText last
    → matches key last ≡ false
    → update_line key value last ≡ some (false, last)
unfolding update_line
update_line-other key value last k t miss =
    rw (cut-IsText last t, is_key_equal-matches key last k, miss) refl

pub matches-empty : (key : List ℕ) → matches key [] ≡ false
unfolding matches has_sign
matches-empty key = ground arith

or_swap : (a b c : Bool) → (b || (a || c)) ≡ ((a || b) || c)
or_swap true true c = refl
or_swap true false c = refl
or_swap false b c = refl

concat-room :
    (size : ℕ) (filebuf linebuf : List ℕ)
    → length filebuf + length linebuf < size
    → concat size filebuf linebuf ≡ some (filebuf ++ linebuf)
unfolding concat
concat-room size filebuf linebuf h = rw (lt→ltb (length filebuf + length linebuf) size h) refl

pub update_loop-ended_lines :
    (size : ℕ) (key value last : List ℕ) (lines : List (List ℕ)) (flag : Bool) (filebuf : List ℕ)
    → IsKey key
    → IsText value
    → IsText last
    → matches key last ≡ false
    → All IsLine lines
    → All (Fits key value) lines
    → length filebuf + (length (unlines (change_all key value lines)) + length last) < size
    → update_loop size key value (ended_lines last lines) flag filebuf
      ≡ some (found key lines || flag, filebuf ++ (unlines (change_all key value lines) ++ last))
unfolding update_loop change_all found
update_loop-ended_lines size key value last [] flag filebuf k v t miss l fits room =
    let fit : length filebuf + length last < size = omega (arith, room) in
    rw (update_line-other key value last k t miss, concat-room size filebuf last fit) refl
update_loop-ended_lines size key value last (line ∷ lines) flag filebuf k v t miss l fits room =
    let new = changed key value line ++ (b'\n' ∷ []) in
    let rest = unlines (change_all key value lines) in
    let whole : (changed key value line ++ (b'\n' ∷ rest)) ++ last ≡ new ++ (rest ++ last) =
      append_assoc (changed key value line) (b'\n' ∷ rest) last
      ∙ sym (append_assoc (changed key value line) (b'\n' ∷ []) (rest ++ last)) in
    let total : length filebuf + (length new + (length rest + length last)) < size = omega (
      arith,
      room,
      length-append (changed key value line) (b'\n' ∷ rest),
      length-append (changed key value line) (b'\n' ∷ []),
    ) in
    let fit : length filebuf + length new < size = omega (arith, total) in
    let next : length (filebuf ++ new) + (length rest + length last) < size =
      omega (arith, total, length-append filebuf new) in
    rw
      (
        update_line-changed key value line k v l.0.0 fits.0,
        concat-room size filebuf new fit,
        update_loop-ended_lines size key value last lines (matches key line || flag)
            (filebuf ++ new) k v t miss l.1 fits.1 next,
        or_swap (matches key line) (found key lines) flag,
        whole,
      )
      (ap (λ s. some ((matches key line || found key lines) || flag, s))
        (append_assoc filebuf new (rest ++ last)))

-- On a file of lines of at most 254 bytes, all ended, for a key without blanks and signs `=` and a
-- value without the end of a line, where every changed line is that short again and filebuf has room
-- for the changed lines: with calls that succeed file_update_value returns 0, and the file has the
-- lines with the value put for the key.
pub file_update_value-put :
    (calls : Calls) (key value : List ℕ) (lines : List (List ℕ))
    → (calls.readable ≡ true) × (calls.allocated ≡ true) × (calls.writable ≡ true)
    → IsKey key
    → IsText value
    → All IsLine lines
    → All (Fits key value) lines
    → length (unlines (change_all key value lines)) < length (unlines lines) + kv_size
    → file_update_value calls (some (unlines lines)) (some key) (some value)
      ≡ some (pos 0, some (unlines (put key value lines)))
unfolding file_update_value open_file update_opened finish_update put
file_update_value-put calls key value lines (r, a, w) k v l fits room =
    let loop =
      update_loop-ended_lines (length (unlines lines) + kv_size) key value [] lines false [] k v tt
        (matches-empty key) l fits (omega (arith, room)) in
    elim (Bool-cases (found key lines)) [
      | inl e ↦
          rw (r, a, reads-ended lines l, loop, e)
            (rw (w, append-nil (unlines (change_all key value lines))) refl)
      | inr e ↦
          rw (r, a, reads-ended lines l, loop, e)
            (rw
              (unlines-append lines (entry key value), append_assoc key (b'=' ∷ value) (b'\n' ∷ []))
              refl)
    ]
