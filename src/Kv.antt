-- ===== src/Kv.antt =====
-- parsekv.c: lines `key=value` of a text file. A string is its bytes without the byte 0 that ends
-- it; a buffer is all its bytes. NULL is none. `isspace` is that of the C locale.
mod Blank
mod File
mod Key
mod Spec
mod Parse
mod Read
mod Update
mod Lookup
mod RoundTrip
mod Unended
mod Tests
use cfunction.Prelude.{
  text, begins, ltb, leb, ◌==◌, if◌then◌else◌, ltb→lt, lt→ltb, ==_iff, ==_refl, ==_ne, Bool-cases,
  Option-cases, codes, length, get_elem?, get_or, set, take, drop, replicate, length-append,
  length-replicate, length-set, get_elem?-append, drop-append, take-append, set-append,
  get_elem?-eq-get_or, get_or-set_self, get_or-set_ne, All, All-append, same, holds_below, holds_at,
  ℤ, pos, negsuc, pos_part, to_size, int_max, eq_int, sub_ℕ, ◌>>=◌, ℕ, zero, suc, ◌+◌, ◌-◌, ◌*◌,
  ◌/◌, ◌%◌, ◌^◌, ◌≤◌, ◌<◌, ◌≡◌, refl, sym, ap, ap₂, ◌∙◌, ◌≢◌, ◌↔◌, ◌⊎◌, inl, inr, Bool, true, false,
  not, ◌&&◌, ◌||◌, Option, none, some, List, [], ◌∷◌, ◌++◌, map, append_assoc, append-nil, arith,
}

abbrev pub is_space : ℕ → Bool
is_space c = (c == b' ') || (leb 9 c && leb c 13)

-- `KV_SIZE`
abbrev pub kv_size : ℕ
kv_size = 256

-- `strncpy(to, s, n)` for the n = strlen(s) bytes of s: without the byte 0. A fault behind the buffer.
unfoldable pub copy : (s buf : List ℕ) → Option (List ℕ)
copy s buf = if leb (length s) (length buf) then some (s ++ drop (length s) buf) else none

-- The first loop of `kv_del_blank`, with its j: it stops at 0.
unfoldable pub trim_end : ℕ → List ℕ → List ℕ × ℕ
trim_end zero str = (str, 0)
trim_end (suc j) str =
    let rest = trim_end j (set str (suc j) 0) in
    if is_space (get_or str (suc j) 0) then rest else (str, suc j)

-- The second loop, with the i that it ends with.
unfoldable pub blanks : ℕ → List ℕ → ℕ
blanks zero str = 0
blanks (suc j) [] = 0
blanks (suc j) (c ∷ str) = let rest = blanks j str in if is_space c then suc rest else 0

-- The copy of `kv_del_blank` when i is not 0: its two sides overlap, as i < j < len.
unfoldable pub move_front : List ℕ → ℕ → Option (List ℕ)
move_front str zero = some str
move_front str (suc i) = none

unfoldable pub del_blank_end : List ℕ → ℕ → Option (List ℕ)
unfolding trim_end blanks move_front
del_blank_end str zero = some str
del_blank_end str (suc len) =
    let (trimmed, j) = trim_end len str in move_front trimmed (blanks j trimmed)

-- `kv_del_blank`
unfoldable pub del_blank : Option (List ℕ) → Option (Option (List ℕ))
unfolding del_blank_end
del_blank none = some none
del_blank (some str) = do s ← text str; trimmed ← del_blank_end str (length s); some (some trimmed)

-- `kv_get_key`: the rest of the string from the first byte that is not blank
unfoldable pub get_key : List ℕ → List ℕ
get_key [] = []
get_key (c ∷ str) = let rest = get_key str in if is_space c then rest else c ∷ str

-- `kv_get_value`: the rest behind the first sign `=`
unfoldable pub get_value : List ℕ → Option (List ℕ)
get_value [] = none
get_value (c ∷ str) = let rest = get_value str in if c == b'=' then some str else rest

-- The string up to that sign, with it.
unfoldable pub upto_sign : List ℕ → List ℕ
upto_sign [] = []
upto_sign (c ∷ str) = let rest = upto_sign str in if c == b'=' then c ∷ [] else c ∷ rest

unfoldable pub has_sign : List ℕ → Bool
has_sign [] = false
has_sign (c ∷ str) = (c == b'=') || has_sign str

-- `kv_is_key_equal`; `!strncmp(pstr, key, len)` says that pstr begins with key.
unfoldable pub is_key_equal : (str key : Option (List ℕ)) → Bool
unfolding get_key has_sign
is_key_equal none key = false
is_key_equal (some str) none = false
is_key_equal (some str) (some key) =
    let pstr = get_key str in
    let next = get_or pstr (length key) 0 in
    begins key pstr && ((is_space next && has_sign pstr) || (next == b'='))

-- `kv_parse_kv_to_kv`: the result, and the two buffers afterwards
unfoldable pub parse_kv_to_kv : (str key value : List ℕ) → Option (ℤ × List ℕ × List ℕ)
unfolding get_value upto_sign copy del_blank
parse_kv_to_kv str key value = elim (get_value str) [
  | none ↦ some (negsuc 0, key, value)
  | some res ↦ do
    copied ← copy (take (length str - suc (length res)) str) key
    key' ← del_blank (some copied)
    copied ← copy res value
    value' ← del_blank (some copied)
    elim key' [ none ↦ none | some k ↦ elim value' [ none ↦ none | some v ↦ some (pos 0, k, v) ] ]
]

-- `kv_change_value`, on a string in a buffer of `size` bytes; `strcpy` writes the byte 0 as well.
unfoldable pub change_value : (size : ℕ) (str : List ℕ) → Option (List ℕ) → Option (ℤ × List ℕ)
unfolding get_value upto_sign
change_value size str none = some (negsuc 0, str)
change_value size str (some value) = elim (get_value str) [
  | none ↦ some (negsuc 0, str)
  | some _ ↦
      let changed = upto_sign str ++ value in
      if ltb (length changed) size then some (pos 0, changed) else none
]
