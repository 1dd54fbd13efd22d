-- ===== src/Gps/Frames/Scan.antt =====
-- The two loops of `parse_buf` in uart/read_gps.c, over bytes that they pass by.
use cfunction.Prelude.{
  ℕ, zero, suc, ◌+◌, ◌≤◌, ◌<◌, ◌≡◌, ◌≢◌, refl, sym, ap, ◌∙◌, true, false, some, List, [], ◌∷◌, ◌++◌,
  ltb, lt→ltb, ==_ne, get_elem?, length, length-append, All, append_assoc, get_elem?-append, arith,
}
use cfunction.Gps.Frames.{seek, split}

-- The element behind a prefix
pub at :
    (before : List ℕ) (c : ℕ) (rest : List ℕ) (n : ℕ)
    → n ≡ length before
    → get_elem? (before ++ (c ∷ rest)) n ≡ some c
at before c rest n e =
    let m : n ≡ length before + 0 = omega arith in rw m (get_elem?-append before (c ∷ rest) 0)

snoc :
    (before : List ℕ) (c : ℕ) (rest : List ℕ) → before ++ (c ∷ rest) ≡ (before ++ (c ∷ [])) ++ rest
snoc before c rest = sym (append_assoc before (c ∷ []) rest)

-- The search passes by every byte that is no dollar.
pub seek-junk :
    (k : ℕ) (before junk rest : List ℕ) (p len i : ℕ)
    → length before ≡ p + i
    → All (λ c. c ≢ b'$') junk
    → i + length junk < len
    → length junk < k
    → seek k (before ++ (junk ++ (b'$' ∷ rest))) p len i ≡ some (i + length junk)
unfolding seek
seek-junk zero before junk rest p len i hb hj hl hk = absurd (omega arith)
seek-junk (suc k) before [] rest p len i hb hj hl hk =
    rw (at before b'$' rest (p + i) (sym hb)) (ap some (omega arith))
seek-junk (suc k) before (c ∷ junk) rest p len i hb (hc, hj) hl hk =
    let next = before ++ (c ∷ []) in
    let y : ltb i len ≡ true = lt→ltb i len (omega arith) in
    let ih =
      seek-junk k next junk rest p len (i + 1) (omega (arith, length-append before (c ∷ []))) hj
        (omega arith) (omega arith) in
    rw (at before c (junk ++ (b'$' ∷ rest)) (p + i) (sym hb), ==_ne c b'$' hc, y)
      (ap (λ l. seek k l p len (i + 1)) (snoc before c (junk ++ (b'$' ∷ rest)))
        ∙ (ih ∙ ap some (omega arith)))

-- The loop passes by every byte that is no carriage return.
pub split-pass :
    (k : ℕ) (before line rest : List ℕ) (p len i istart : ℕ)
    → length before ≡ p + i
    → All (λ c. c ≢ b'\r') line
    → i + length line ≤ len
    → split (length line + k) (before ++ (line ++ rest)) p len i istart
      ≡ split k (before ++ (line ++ rest)) p len (i + length line) istart
unfolding split
split-pass k before [] rest p len i istart hb hl hn =
    let e : 0 + k ≡ k = omega arith in let f : i + 0 ≡ i = omega arith in rw (e, f) refl
split-pass k before (c ∷ line) rest p len i istart hb (hc, hl) hn =
    let next = before ++ (c ∷ []) in
    let e : suc (length line) + k ≡ suc (length line + k) = omega arith in
    let f : i + suc (length line) ≡ i + 1 + length line = omega arith in
    let y : ltb i len ≡ true = lt→ltb i len (omega arith) in
    let ih =
      split-pass k next line rest p len (i + 1) istart
        (omega (arith, length-append before (c ∷ []))) hl (omega arith) in
    rw
      (
        e,
        f,
        y,
        at before c (line ++ rest) (p + i) (sym hb),
        ==_ne c b'\r' hc,
        snoc before c (line ++ rest),
      )
      ih

split-end :
    (k : ℕ) (rx : List ℕ) (p len i istart : ℕ)
    → len ≤ i
    → split (suc k) rx p len i istart ≡ some (istart, rx, [])
unfolding split
split-end k rx p len i istart h = let n : ltb i len ≡ false = ground arith in rw n refl

-- Behind a line the first byte is passed by whatever it is; a fragment that is not ended stays.
pub split-fragment :
    (k : ℕ) (before fragment rest : List ℕ) (p len i : ℕ)
    → length before ≡ p + i
    → All (λ c. c ≢ b'\r') fragment
    → i + length fragment ≡ len
    → split (length fragment + suc k) (before ++ (fragment ++ rest)) p len (i + 1) i
      ≡ some (i, before ++ (fragment ++ rest), [])
split-fragment k before [] rest p len i hb hf hn =
    let e : 0 + suc k ≡ suc k = omega arith in
    rw e (split-end k (before ++ rest) p len (i + 1) i (omega arith))
split-fragment k before (c ∷ fragment) rest p len i hb (hc, hf) hn =
    let next = before ++ (c ∷ []) in
    let e : suc (length fragment) + suc k ≡ length fragment + suc (suc k) = omega arith in
    rw (e, snoc before c (fragment ++ rest))
      (split-pass (suc (suc k)) next fragment rest p len (i + 1) i
          (omega (arith, length-append before (c ∷ []))) hf (omega arith)
        ∙ split-end (suc k) (next ++ (fragment ++ rest)) p len (i + 1 + length fragment) i
            (omega arith))
