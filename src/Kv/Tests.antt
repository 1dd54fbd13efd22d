-- ===== src/Kv/Tests.antt =====
-- Runs of parsekv.c, and the theorems at them.
use cfunction.Prelude.{
  codes, length, replicate, All, pos, negsuc, text, begins, ℕ, ◌+◌, ◌≡◌, refl, true, Option, none,
  some, List, [], ◌∷◌, ◌++◌, arith,
}
use cfunction.Kv.{kv_size, is_space, has_sign, upto_sign, del_blank, is_key_equal, parse_kv_to_kv}
use cfunction.Kv.Blank.{IsCore}
use cfunction.Kv.File.{
  reads, cut, get_loop, Calls, open_file, found_value, file_get_value, ended, update_line, concat,
  update_loop, finish_update, update_opened, file_update_value,
}
use cfunction.Kv.Key.{IsText, IsKey, key_of, is_key_equal-key_of, matches}
use cfunction.Kv.Spec.{put, entry, change_all, changed}
use cfunction.Kv.Read.{unlines, IsLine}
use cfunction.Kv.Update.{file_update_value-put}
use cfunction.Kv.RoundTrip.{HasRoom, update-get, update-get_other}
use cfunction.Kv.Unended.{update-unended}

abbrev two_lines : List (List ℕ)
two_lines = codes "a=1" ∷ codes "b =2" ∷ []

abbrev fine : Calls
fine = record { readable = true; creatable = true; allocated = true; writable = true }

-- The value of b changes, and c is new.
update_b :
    file_update_value fine (some (unlines two_lines)) (some (codes "b")) (some (codes "33"))
    ≡ some (pos 0, some (codes "a=1\nb =33\n"))
unfolding file_update_value open_file update_opened update_loop reads update_line is_key_equal
    begins cut concat cfunction.Kv.change_value ended finish_update
update_b = refl

update_c :
    file_update_value fine (some (unlines two_lines)) (some (codes "c")) (some (codes "5"))
    ≡ some (pos 0, some (codes "a=1\nb =2\nc=5\n"))
unfolding file_update_value open_file update_opened update_loop reads update_line is_key_equal
    begins cut concat finish_update
update_c = refl

-- An empty value reads back as the end of the line.
get_empty :
    file_get_value fine (some (codes "a=\n")) (some (codes "a")) (some (replicate 4 0))
    ≡ some (pos 0, some (10 ∷ 0 ∷ 0 ∷ 0 ∷ []))
unfolding file_get_value open_file found_value get_loop reads is_key_equal begins cut
    cfunction.Kv.get_value cfunction.Kv.copy del_blank text
get_empty = refl

-- A value that begins with a blank is moved over itself.
get_blank :
    file_get_value fine (some (codes "a= 1\n")) (some (codes "a")) (some (replicate 8 0)) ≡ none
unfolding file_get_value open_file found_value get_loop reads is_key_equal begins cut
    cfunction.Kv.get_value cfunction.Kv.copy del_blank text
get_blank = refl

b-IsKey : IsKey (codes "b")
b-IsKey = (ground arith, tt)

a-IsKey : IsKey (codes "a")
a-IsKey = (ground arith, tt)

value-IsText : IsText (codes "33")
value-IsText = ground arith

value-IsCore : IsCore (codes "33")
value-IsCore = ground arith

lines_fit : All IsLine two_lines
lines_fit = ground arith

b_room : HasRoom (codes "b") (codes "33") two_lines
unfolding change_all changed matches upto_sign cfunction.Kv.Key.word cfunction.Kv.get_key has_sign
b_room = ((omega arith, (omega arith, tt)), omega arith, omega arith)

file_update_value-put_example :
    file_update_value fine (some (unlines two_lines)) (some (codes "b")) (some (codes "33"))
    ≡ some (pos 0, some (unlines (put (codes "b") (codes "33") two_lines)))
file_update_value-put_example =
    file_update_value-put fine (codes "b") (codes "33") two_lines (refl, refl, refl) b-IsKey
      value-IsText lines_fit b_room.0 b_room.1

update-get_example :
    (file : Option (List ℕ)) × (file_update_value fine
        (some (unlines two_lines))
        (some (codes "b"))
        (some (codes "33"))
      ≡ some (pos 0, file))
    × (file_get_value fine file
          (some (codes "b"))
          (some (replicate (length (codes "33") + 2 + 0) 0))
        ≡ some (pos 0, some (codes "33" ++ (0 ∷ 0 ∷ replicate 0 0))))
update-get_example =
    update-get fine (codes "b") (codes "33") 0 two_lines (refl, refl, refl) b-IsKey value-IsText
      value-IsCore lines_fit b_room

update-get_other_example :
    (file : Option (List ℕ)) × (file_update_value fine
        (some (unlines two_lines))
        (some (codes "b"))
        (some (codes "33"))
      ≡ some (pos 0, file))
    × (file_get_value fine file (some (codes "a")) (some (replicate 5 0))
        ≡ file_get_value fine (some (unlines two_lines)) (some (codes "a")) (some (replicate 5 0)))
update-get_other_example =
    update-get_other fine (codes "b") (codes "33") (codes "a") (replicate 5 0) two_lines
      (refl, refl, refl) b-IsKey value-IsText a-IsKey refl lines_fit b_room

c-IsKey : IsKey (codes "c")
c-IsKey = (ground arith, tt)

last-IsText : IsText (codes "x=0")
last-IsText = ground arith

update-unended_example :
    (file_update_value fine
        (some (unlines two_lines ++ codes "x=0"))
        (some (codes "c"))
        (some (codes "33"))
      ≡ some (
        pos 0,
        some (unlines (two_lines ++ ((codes "x=0" ++ entry (codes "c") (codes "33")) ∷ []))),
      ))
    × (file_get_value fine
          (some (unlines (two_lines ++ ((codes "x=0" ++ entry (codes "c") (codes "33")) ∷ []))))
          (some (codes "c"))
          (some (replicate 5 0))
        ≡ some (negsuc 2, some (replicate 5 0)))
unfolding cfunction.Kv.Spec.found cfunction.Kv.Key.matches cfunction.Kv.Key.word
    cfunction.Kv.get_key has_sign
update-unended_example =
    update-unended fine (codes "c") (codes "33") (codes "x=0") (replicate 5 0) two_lines
      (refl, refl, refl) c-IsKey value-IsText lines_fit refl last-IsText refl refl (omega arith)
