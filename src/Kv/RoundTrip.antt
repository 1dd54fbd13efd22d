-- ===== src/Kv/RoundTrip.antt =====
-- `file_update_value` and then `file_get_value`, on a file of lines.
use cfunction.Prelude.{
  Bool-cases, length, replicate, All, All-append, same, pos, ◌>>=◌, ℕ, ◌+◌, ◌≤◌, ◌<◌, ◌≡◌, refl,
  sym, ◌∙◌, inl, inr, true, false, Option, some, List, [], ◌∷◌, ◌++◌, arith,
}
use cfunction.Kv.{kv_size, upto_sign}
use cfunction.Kv.Blank.{IsCore}
use cfunction.Kv.File.{Calls, open_file, found_value, file_get_value, file_update_value}
use cfunction.Kv.Key.{IsText, IsKey, matches}
use cfunction.Kv.Spec.{first, found, changed, change_all, entry, put, find-put, first-put_other}
use cfunction.Kv.Read.{reads-ended, unlines, IsLine}
use cfunction.Kv.Update.{Fits, upto_sign-IsText, file_update_value-put}
use cfunction.Kv.Lookup.{file_get_value-find, get_loop-ended_lines, is_key_equal-empty}

-- The calls of the system succeed.
abbrev pub Succeed : Calls → Type 0
Succeed calls = (calls.readable ≡ true) × (calls.allocated ≡ true) × (calls.writable ≡ true)

-- What the functions can do for a key and a value: every changed line and a new one fit the buffer
-- of a line, and the changed lines the buffer of the file.
abbrev pub HasRoom : (key value : List ℕ) → List (List ℕ) → Type 0
HasRoom key value lines =
    All (Fits key value) lines
    × (length (unlines (change_all key value lines)) < length (unlines lines) + kv_size)
    × (length (entry key value) ≤ 254)

pub IsKey-IsText : (key : List ℕ) → IsKey key → IsText key
IsKey-IsText [] h = tt
IsKey-IsText (c ∷ key) h = ((h.0.0, ground (arith, h.0)), IsKey-IsText key h.1)

change_all-IsLine :
    (key value : List ℕ) (lines : List (List ℕ))
    → IsText value
    → All IsLine lines
    → All (Fits key value) lines
    → All IsLine (change_all key value lines)
unfolding change_all changed
change_all-IsLine key value [] v l fits = tt
change_all-IsLine key value (line ∷ lines) v l fits =
    let rest = change_all-IsLine key value lines v l.1 fits.1 in
    elim (Bool-cases (matches key line)) [
      | inl e ↦
          let textual : IsText (changed key value line) =
            rw e (All-append _ (upto_sign line) value (upto_sign-IsText line l.0.0) v) in
          ((textual, fits.0), rest)
      | inr e ↦ rw e (l.0, rest)
    ]

put-IsLine :
    (key value : List ℕ) (lines : List (List ℕ))
    → IsKey key
    → IsText value
    → All IsLine lines
    → HasRoom key value lines
    → All IsLine (put key value lines)
unfolding put
put-IsLine key value lines k v l (fits, room, small) = elim (Bool-cases (found key lines)) [
  | inl e ↦ rw e (change_all-IsLine key value lines v l fits)
  | inr e ↦
      let textual : IsText (entry key value) =
        All-append _ key (b'=' ∷ value) (IsKey-IsText key k) (ground arith, v) in
      rw e (All-append IsLine lines (entry key value ∷ []) l ((textual, small), tt))
]

-- On a file of ended lines of at most 254 bytes without a byte 0, for a key without blanks, signs =
-- and bytes 0, and a value that is not empty, neither begins nor ends with a blank and has no byte
-- 0 and no end of a line in it; where the entry key=value and every line, as the change of its
-- value leaves it, have at most 254 bytes, and the changed lines are together less than 256 bytes
-- longer than the file was; when the calls of the system succeed: file_update_value returns 0, and
-- then file_get_value for the key, with a zeroed buffer of two bytes more than the value or larger,
-- returns 0 and the value, behind which the buffer is still zero.
pub update-get :
    (calls : Calls) (key value : List ℕ) (more : ℕ) (lines : List (List ℕ))
    → Succeed calls
    → IsKey key
    → IsText value
    → IsCore value
    → All IsLine lines
    → HasRoom key value lines
    → (file : Option (List ℕ)) × (file_update_value calls
          (some (unlines lines))
          (some key)
          (some value)
        ≡ some (pos 0, file))
      × (file_get_value calls file (some key) (some (replicate (length value + 2 + more) 0))
          ≡ some (pos 0, some (value ++ (0 ∷ 0 ∷ replicate more 0))))
update-get calls key value more lines ok k v core l (fits, room, small) = (
  some (unlines (put key value lines)),
  file_update_value-put calls key value lines ok k v l fits room,
  file_get_value-find calls key value more (put key value lines) ok.0 k
      (put-IsLine key value lines k v l (fits, room, small)) (find-put key value lines k) core,
)

get-first :
    (calls : Calls) (key value : List ℕ) (lines : List (List ℕ))
    → calls.readable ≡ true
    → IsKey key
    → All IsLine lines
    → file_get_value calls (some (unlines lines)) (some key) (some value) ≡ (
        found_value (first key lines >>= λ line. some (line ++ (b'\n' ∷ []))) value >>= λ result.
        some (result.0, some result.1))
unfolding file_get_value open_file
get-first calls key value lines r k l =
    let loop = get_loop-ended_lines key lines [] k l (is_key_equal-empty key) in
    rw (r, reads-ended lines l, loop) refl

-- Under the conditions of update-get on the file, the key and the room, for any value without a byte 0 and
-- an end of a line, any other such key and any buffer: file_update_value returns 0, and
-- file_get_value for the other key does behind it what it does before, result and buffer alike.
pub update-get_other :
    (calls : Calls) (key value other buf : List ℕ) (lines : List (List ℕ))
    → Succeed calls
    → IsKey key
    → IsText value
    → IsKey other
    → same key other ≡ false
    → All IsLine lines
    → HasRoom key value lines
    → (file : Option (List ℕ)) × (file_update_value calls
          (some (unlines lines))
          (some key)
          (some value)
        ≡ some (pos 0, file))
      × (file_get_value calls file (some other) (some buf)
          ≡ file_get_value calls (some (unlines lines)) (some other) (some buf))
update-get_other calls key value other buf lines ok k v o ne l (fits, room, small) = (
  some (unlines (put key value lines)),
  file_update_value-put calls key value lines ok k v l fits room,
  get-first calls other buf (put key value lines) ok.0 o
        (put-IsLine key value lines k v l (fits, room, small))
      ∙ rw (first-put_other key other value lines k ne)
          (sym (get-first calls other buf lines ok.0 o l)),
)
