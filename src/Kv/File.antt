-- ===== src/Kv/File.antt =====
-- The functions of parsekv.c on a file. A file is its bytes, none if it does not exist; sizes are
-- below 2^31. Whether a call succeeds is for the system to say.
use cfunction.Prelude.{
  ltb, ◌==◌, if◌then◌else◌, length, get_or, ℤ, pos, negsuc, ◌>>=◌, ℕ, ◌+◌, ◌-◌, Bool, true, false,
  ◌||◌, Option, none, some, List, [], ◌∷◌, ◌++◌,
}
use cfunction.Kv.{kv_size, copy, del_blank, get_value, is_key_equal, change_value}

-- Puts a byte before the first of the strings.
abbrev pub push : ℕ → List (List ℕ) → List (List ℕ)
push c [] = (c ∷ []) ∷ []
push c (line ∷ lines) = (c ∷ line) ∷ lines

-- What the calls of `fgets` with a buffer of kv_size bytes read, up to the one that meets the end of
-- the file, which may read nothing. `room` is how much the current call may still read.
unfoldable pub reads : ℕ → List ℕ → List (List ℕ)
reads room [] = [] ∷ []
reads room (c ∷ s) =
    let fresh = reads (kv_size - 1) s in
    let more = reads (room - 1) s in
    if (c == b'\n') || (room == 1) then (c ∷ []) ∷ fresh else push c more

-- The string in a buffer behind which there are bytes 0.
unfoldable pub cut : List ℕ → List ℕ
cut [] = []
cut (c ∷ s) = let rest = cut s in if c == 0 then [] else c ∷ rest

-- `fgets` leaves linebuf alone when it reads nothing.
abbrev pub refill : (line linebuf : List ℕ) → List ℕ
refill [] linebuf = linebuf
refill (c ∷ line) linebuf = cut (c ∷ line)

-- The loop of `file_get_value`: linebuf with the key, if it is found.
unfoldable pub get_loop : List (List ℕ) → (linebuf key : List ℕ) → Option (List ℕ)
get_loop [] linebuf key = none
get_loop (line ∷ lines) linebuf key =
    let linebuf' = refill line linebuf in
    let rest = get_loop lines linebuf' key in
    if is_key_equal (some linebuf') (some key) then some linebuf' else rest

-- `fopen(file, "r+")` of a file that exists succeeds if it is `readable`.
pub record Calls : Type 0 where
  pub readable : Bool
  pub creatable : Bool  -- fopen(file, "w+"), the first one
  pub allocated : Bool
  pub writable : Bool  -- fopen(file, "w+"), the second one

unfoldable pub open_file : Bool → Option (List ℕ) → Option (List ℕ)
open_file ok none = none
open_file ok (some content) = if ok then some content else none

-- What `file_get_value` does with the line of the key.
unfoldable pub found_value : Option (List ℕ) → List ℕ → Option (ℤ × List ℕ)
found_value none value = some (negsuc 2, value)
found_value (some linebuf) value = elim (get_value linebuf) [
  | none ↦ none
  | some res ↦ do
    copied ← copy res value
    trimmed ← del_blank (some copied)
    elim trimmed [ none ↦ none | some v ↦ some (pos 0, v) ]
]

-- `file_get_value`: the result, and the buffer `value` afterwards
unfoldable pub file_get_value :
    Calls → Option (List ℕ) → (key value : Option (List ℕ)) → Option (ℤ × Option (List ℕ))
file_get_value calls file none value = some (negsuc 0, value)
file_get_value calls file (some key) none = some (negsuc 0, none)
file_get_value calls file (some key) (some value) = elim (open_file calls.readable file) [
  | none ↦ some (negsuc 1, some value)
  | some content ↦ do
    (ret, value') ← found_value (get_loop (reads (kv_size - 1) content) [] key) value
    some (ret, some value')
]

-- The line feed that `file_update_value` puts behind a changed line that has none.
unfoldable pub ended : List ℕ → Option (List ℕ)
ended linebuf =
    if get_or linebuf (length linebuf - 1) 0 == b'\n'
    then some linebuf
    else if ltb (length linebuf + 1) kv_size
    then some (linebuf ++ (b'\n' ∷ []))
    else none

-- A round of its loop, up to `strcat`: whether the key is on the line, and the new line.
unfoldable pub update_line : (key value line : List ℕ) → Option (Bool × List ℕ)
update_line key value line =
    if is_key_equal (some (cut line)) (some key)
    then (change_value kv_size (cut line) (some value) >>= λ result.
        ended result.1 >>= λ linebuf. some (true, linebuf))
    else some (false, cut line)

-- `strcat(filebuf, linebuf)`, for a buffer of `size` bytes
unfoldable pub concat : (size : ℕ) (filebuf linebuf : List ℕ) → Option (List ℕ)
concat size filebuf linebuf =
    if ltb (length filebuf + length linebuf) size then some (filebuf ++ linebuf) else none

-- The loop, with the flag and the string in filebuf so far.
unfoldable pub update_loop :
    (size : ℕ) (key value : List ℕ)
    → List (List ℕ)
    → Bool
    → (filebuf : List ℕ) → Option (Bool × List ℕ)
update_loop size key value [] flag filebuf = some (flag, filebuf)
update_loop size key value (line ∷ lines) flag filebuf = do
  (hit, linebuf) ← update_line key value line
  filebuf' ← concat size filebuf linebuf
  update_loop size key value lines (hit || flag) filebuf'

-- What follows the loop: the result and the file.
unfoldable pub finish_update :
    Calls → (content key value : List ℕ) → Bool × List ℕ → ℤ × Option (List ℕ)
finish_update calls content key value (false, filebuf) =
    (pos 0, some (content ++ (key ++ (b'=' ∷ (value ++ (b'\n' ∷ []))))))
finish_update calls content key value (true, filebuf) =
    if calls.writable then (pos 0, some filebuf) else (negsuc 3, some content)

unfoldable pub update_opened : Calls → (content key value : List ℕ) → Option (ℤ × Option (List ℕ))
update_opened calls content key value =
    let size = length content + kv_size in
    if calls.allocated
    then (update_loop size key value (reads (kv_size - 1) content) false [] >>= λ outcome.
        some (finish_update calls content key value outcome))
    else some (negsuc 2, some content)

-- `file_update_value`, whose name for the file is not NULL: the result, and the file afterwards
unfoldable pub file_update_value :
    Calls → Option (List ℕ) → (key value : Option (List ℕ)) → Option (ℤ × Option (List ℕ))
file_update_value calls file none value = some (negsuc 0, file)
file_update_value calls file (some key) none = some (negsuc 0, file)
file_update_value calls file (some key) (some value) = elim (open_file calls.readable file) [
  | none ↦ if calls.creatable then update_opened calls [] key value else some (negsuc 1, file)
  | some content ↦ update_opened calls content key value
]
