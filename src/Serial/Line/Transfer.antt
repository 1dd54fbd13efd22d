-- ===== src/Serial/Line/Transfer.antt =====
-- The read and write loops of LTE/at/muart.c.
use cfunction.Prelude.{
  ℕ, zero, suc, ◌+◌, ◌-◌, ◌≤◌, ◌<◌, ◌≡◌, refl, sym, ap, ◌∙◌, inl, inr, false, some, List, [], ◌∷◌,
  ◌++◌, map, ltb, ◌==◌, ==_ne, if◌then◌else◌, ◌>>=◌, ℤ, pos, negsuc, length, length-append, take,
  drop, All, Bool-cases, append-nil, arith,
}
use cfunction.Serial.Line.{
  Muart, Read, failed, got, Write, took, read_loop, muart_read_nbytes, write_loop, muart_write,
}

-- The bytes of several reads
unfoldable pub concat : List (List ℕ) → List ℕ
concat [] = []
concat (c ∷ chunks) = c ++ concat chunks

step :
    (nbytes nleft : ℕ) (c : List ℕ) (answers : List Read)
    → (nleft == 0) ≡ false
    → (length c == 0) ≡ false
    → ltb nleft (length c) ≡ false
    → read_loop (got c ∷ answers) nbytes nleft
      ≡ (do (ret, buf) ← read_loop answers nbytes (nleft - length c); some (ret, c ++ buf))
unfolding read_loop
step nbytes nleft c answers e f g = rw (e, f, g) refl

enough : (answers : List Read) (nbytes : ℕ) → read_loop answers nbytes 0 ≡ some (pos nbytes, [])
unfolding read_loop
enough [] nbytes = ground arith
enough (failed ∷ answers) nbytes = ground arith
enough (got c ∷ answers) nbytes = ground arith

too_few :
    (answers : List Read) (nbytes n : ℕ)
    → n < nbytes
    → read_loop (failed ∷ answers) nbytes (nbytes - n)
      ≡ some ((if n == 0 then negsuc 0 else pos n), [])
unfolding read_loop
too_few answers nbytes n h = ground arith

-- The loop over reads that are not empty, up to an answer that ends it
read_loop-chunks :
    (chunks : List (List ℕ)) (answers : List Read) (nbytes nleft left : ℕ) (ret : ℤ)
    → All (λ c. 1 ≤ length c) chunks
    → nleft ≡ length (concat chunks) + left
    → read_loop answers nbytes left ≡ some (ret, [])
    → read_loop (map got chunks ++ answers) nbytes nleft ≡ some (ret, concat chunks)
unfolding concat
read_loop-chunks [] answers nbytes nleft left ret h l e =
    let m : nleft ≡ left = omega arith in rw (m, e) refl
read_loop-chunks (c ∷ chunks) answers nbytes nleft left ret (hc, h) l e =
    let n : length (c ++ concat chunks) ≡ length c + length (concat chunks) =
      length-append c (concat chunks) in
    let more : (nleft == 0) ≡ false = ==_ne nleft 0 (omega arith) in
    let some_bytes : (length c == 0) ≡ false = ==_ne (length c) 0 (omega arith) in
    let fits : ltb nleft (length c) ≡ false = ground arith in
    rw
      (
        step nbytes nleft c (map got chunks ++ answers) more some_bytes fits,
        read_loop-chunks chunks answers nbytes (nleft - length c) left ret h (omega arith) e,
      )
      refl

-- muart_read_nbytes, when the system hands out the bytes in any pieces that are not empty: as soon as
-- the pieces add up to nbytes it returns nbytes and the buffer holds the bytes in order, whatever
-- would come next.
pub muart_read_nbytes-concat :
    (chunks : List (List ℕ)) (answers : List Read)
    → All (λ c. 1 ≤ length c) chunks
    → muart_read_nbytes (map got chunks ++ answers) (length (concat chunks))
      ≡ some (pos (length (concat chunks)), concat chunks)
unfolding muart_read_nbytes
muart_read_nbytes-concat chunks answers h =
    read_loop-chunks chunks answers (length (concat chunks)) (length (concat chunks)) 0
      (pos (length (concat chunks))) h (omega arith) (enough answers (length (concat chunks)))

-- muart_read_nbytes, when an error or a time-out comes before nbytes bytes: -1 if there was no byte,
-- else the number of the bytes so far, which the buffer holds.
pub muart_read_nbytes-failed :
    (chunks : List (List ℕ)) (answers : List Read) (nbytes : ℕ)
    → All (λ c. 1 ≤ length c) chunks
    → length (concat chunks) < nbytes
    → muart_read_nbytes (map got chunks ++ (failed ∷ answers)) nbytes
      ≡ some (
        (if length (concat chunks) == 0 then negsuc 0 else pos (length (concat chunks))),
        concat chunks,
      )
unfolding muart_read_nbytes
muart_read_nbytes-failed chunks answers nbytes h l =
    read_loop-chunks chunks (failed ∷ answers) nbytes nbytes (nbytes - length (concat chunks)) _ h
      (omega arith) (too_few answers nbytes (length (concat chunks)) l)

-- The bytes that the system takes with a list of writes
unfoldable pub total : List ℕ → ℕ
total [] = 0
total (n ∷ ns) = n + total ns

take-drop :
    (n : ℕ) (xs : List ℕ)
    → n ≤ length xs
    → (take n xs ++ drop n xs ≡ xs) × (length (drop n xs) ≡ length xs - n)
take-drop zero xs h = (refl, omega arith)
take-drop (suc n) [] h = absurd (omega arith)
take-drop (suc n) (x ∷ xs) h =
    let (e, l) = take-drop n xs (omega arith) in (ap (λ l. x ∷ l) e, omega arith)

nothing_left : (xs : List ℕ) → length xs ≡ 0 → xs ≡ []
nothing_left [] h = refl
nothing_left (x ∷ xs) h = absurd (omega arith)

all_taken :
    (n : ℕ) (xs : List ℕ) → take n xs ++ drop n xs ≡ xs → length (drop n xs) ≡ 0 → take n xs ≡ xs
all_taken n xs e l =
    sym (append-nil (take n xs)) ∙ (ap (λ d. take n xs ++ d) (sym (nothing_left (drop n xs) l)) ∙ e)

took_step :
    (n : ℕ) (answers : List Write) (max nbytes npos : ℕ) (buf : List ℕ)
    → n ≤ max
    → n ≤ length buf
    → write_loop (took n ∷ answers) max nbytes npos buf ≡ (
        if ltb 0 (length buf - n)
        then (do
          (r, sent) ← write_loop answers max nbytes (npos + n) (drop n buf)
          some (r, take n buf ++ sent))
        else some (pos (npos + n), take n buf))
unfolding write_loop
took_step n answers max nbytes npos buf h l =
    let fits : ltb (if ltb max (length buf) then max else length buf) n ≡ false = ground arith in
    rw fits refl

write_loop-took :
    (counts : List ℕ) (answers : List Write) (max nbytes npos : ℕ) (buf : List ℕ)
    → All (λ n. (1 ≤ n) × (n ≤ max)) counts
    → total counts ≡ length buf
    → 1 ≤ length buf
    → write_loop (map took counts ++ answers) max nbytes npos buf
      ≡ some (pos (npos + length buf), buf)
unfolding total
write_loop-took [] answers max nbytes npos buf h e l = absurd (omega arith)
write_loop-took (n ∷ counts) answers max nbytes npos buf ((h1, hm), h) e l =
    let (joined, left) = take-drop n buf (omega arith) in
    let one = took_step n (map took counts ++ answers) max nbytes npos buf hm (omega arith) in
    elim (Bool-cases (ltb 0 (length buf - n))) [
      | inl y ↦
          let m : npos + n + length (drop n buf) ≡ npos + length buf = omega arith in
          let ih =
            write_loop-took counts answers max nbytes (npos + n) (drop n buf) h (omega arith)
              (ground arith) in
          rw (one, y, ih, m, joined) refl
      | inr z ↦
          let m : n ≡ length buf = ground arith in
          let whole : take n buf ≡ buf = all_taken n buf joined (omega arith) in
          rw (one, z, whole, m) refl
    ]

-- muart_write, when the system takes the bytes in any portions, none of them empty or larger than a
-- write may be: it returns the length of the buffer, and the system has taken its bytes in order.
pub muart_write-took :
    (counts : List ℕ) (answers : List Write) (m : Muart) (buf : List ℕ)
    → All (λ n. (1 ≤ n) × (n ≤ m.write_max_bytes_once)) counts
    → total counts ≡ length buf
    → 1 ≤ length buf
    → muart_write (map took counts ++ answers) m buf ≡ some (pos (length buf), buf)
unfolding muart_write
muart_write-took counts answers m buf h e l =
    write_loop-took counts answers m.write_max_bytes_once (length buf) 0 buf h e l
    ∙ ap (λ n. some (pos n, buf)) (omega arith)
