-- ===== src/Kv/Read.antt =====
-- What `fgets` reads of a file of lines.
use cfunction.Prelude.{
  ◌==◌, ==_ne, length, All, ℕ, ◌-◌, ◌≤◌, ◌<◌, ◌≡◌, refl, sym, ap, ◌∙◌, false, ◌||◌, List, [], ◌∷◌,
  ◌++◌, append_assoc, append-nil, arith,
}
use cfunction.Kv.File.{reads, cut}
use cfunction.Kv.Key.{IsText}

-- A file whose lines all end with a line feed.
abbrev pub unlines : List (List ℕ) → List ℕ
unlines [] = []
unlines (line ∷ lines) = line ++ (b'\n' ∷ unlines lines)

-- A line that one call reads, with its end.
abbrev pub IsLine : List ℕ → Type 0
IsLine line = IsText line × (length line ≤ 254)

-- The strings read: the lines with their ends, and what stands behind the last end.
abbrev pub ended_lines : (last : List ℕ) → List (List ℕ) → List (List ℕ)
ended_lines last [] = last ∷ []
ended_lines last (line ∷ lines) = (line ++ (b'\n' ∷ [])) ∷ ended_lines last lines

reads-line :
    (room : ℕ) (line s : List ℕ)
    → IsText line
    → length line < room
    → reads room (line ++ (b'\n' ∷ s)) ≡ (line ++ (b'\n' ∷ [])) ∷ reads 255 s
unfolding reads
reads-line room [] s h fits = refl
reads-line room (c ∷ line) s h fits =
    let more : ((c == b'\n') || (room == 1)) ≡ false = ground (arith, h.0) in
    rw (more, reads-line (room - 1) line s h.1 (omega (arith, fits))) refl

reads-last :
    (room : ℕ) (last : List ℕ) → IsText last → length last < room → reads room last ≡ last ∷ []
unfolding reads
reads-last room [] h fits = refl
reads-last room (c ∷ last) h fits =
    let more : ((c == b'\n') || (room == 1)) ≡ false = ground (arith, h.0) in
    rw (more, reads-last (room - 1) last h.1 (omega (arith, fits))) refl

pub reads-unlines :
    (last : List ℕ) (lines : List (List ℕ))
    → IsLine last
    → All IsLine lines
    → reads 255 (unlines lines ++ last) ≡ ended_lines last lines
reads-unlines last [] end h = reads-last 255 last end.0 (omega (arith, end.1))
reads-unlines last (line ∷ lines) end h = rw (append_assoc line (b'\n' ∷ unlines lines) last) (
    reads-line 255 line (unlines lines ++ last) h.0.0 (omega (arith, h.0.1))
    ∙ ap (λ rest. (line ++ (b'\n' ∷ [])) ∷ rest) (reads-unlines last lines end h.1))

pub reads-ended :
    (lines : List (List ℕ)) → All IsLine lines → reads 255 (unlines lines) ≡ ended_lines [] lines
reads-ended lines h =
    rw (sym (append-nil (unlines lines))) (reads-unlines [] lines (tt, omega arith) h)

pub cut-IsText : (s : List ℕ) → IsText s → cut s ≡ s
unfolding cut
cut-IsText [] h = refl
cut-IsText (c ∷ s) h = rw (==_ne c 0 h.0.0, cut-IsText s h.1) refl

pub cut-end : (line : List ℕ) → IsText line → cut (line ++ (b'\n' ∷ [])) ≡ line ++ (b'\n' ∷ [])
unfolding cut
cut-end [] h = refl
cut-end (c ∷ line) h = rw (==_ne c 0 h.0.0, cut-end line h.1) refl

pub unlines-append :
    (lines : List (List ℕ)) (line : List ℕ)
    → unlines (lines ++ (line ∷ [])) ≡ unlines lines ++ (line ++ (b'\n' ∷ []))
unlines-append [] line = refl
unlines-append (l ∷ lines) line =
    rw (unlines-append lines line)
      (sym (append_assoc l (b'\n' ∷ unlines lines) (line ++ (b'\n' ∷ []))))
