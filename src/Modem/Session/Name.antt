-- ===== src/Modem/Session/Name.antt =====
-- The operator's name of LTE/at/mat.c, which `mat_uart_get_operator` and `mat_uart_get_sim` copy.
use cfunction.Prelude.{
  text-append, ltb, leb, ◌==◌, if◌then◌else◌, ==_refl, ==_ne, Bool-cases, codes, length, take, drop,
  length-append, take-append, All, pos, text, begins, strstr, ℕ, zero, suc, ◌+◌, ◌-◌, ◌≤◌, ◌≡◌,
  refl, sym, ap, ◌≢◌, inl, inr, true, false, some, List, [], ◌∷◌, ◌++◌, append-nil, arith,
}
use cfunction.Modem.{Msim, Exchange, send_at_cmd, copy_operator, check_sim_operator, read_operator}
use cfunction.Serial.Line.{strncpy, Muart}
use cfunction.Modem.Session.{copy_name, mat_uart_get_operator}

-- What a copy of a name and its byte 0 into a buffer comes to, when `size` bytes of it may be used.
unfoldable pub copied : (name buf : List ℕ) (size : ℕ) → List ℕ
copied name buf size =
    let ended = name ++ (0 ∷ []) in
    if ltb (length name) size
    then ended ++ drop (length ended) buf
    else take size name ++ drop size buf

take_all : (xs : List ℕ) (n : ℕ) → length xs ≤ n → take n xs ≡ xs
take_all [] zero h = refl
take_all [] (suc n) h = refl
take_all (x ∷ xs) zero h = absurd (omega arith)
take_all (x ∷ xs) (suc n) h = ap (λ l. x ∷ l) (take_all xs n (omega arith))

strstr-append :
    (pre : List ℕ) (q : ℕ) (rest : List ℕ)
    → All (λ c. c ≢ q) pre
    → strstr (pre ++ (q ∷ rest)) (q ∷ []) ≡ some (length pre)
unfolding strstr begins
strstr-append [] q rest h = rw (==_refl q) refl
strstr-append (c ∷ pre) q rest h =
    let e : (q == c) ≡ false = ==_ne q c (λ f. h.0 (sym f)) in
    rw (e, strstr-append pre q rest h.1) (ap some (omega arith))

drop-suc :
    (pre : List ℕ) (q : ℕ) (rest : List ℕ) → drop (suc (length pre)) (pre ++ (q ∷ rest)) ≡ rest
drop-suc [] q rest = refl
drop-suc (c ∷ pre) q rest = drop-suc pre q rest

drop-quote :
    (pre : List ℕ) (q : ℕ) (rest : List ℕ) → drop (length pre + 1) (pre ++ (q ∷ rest)) ≡ rest
drop-quote pre q rest =
    let e : length pre + 1 ≡ suc (length pre) = omega arith in rw e (drop-suc pre q rest)

copy_name-copied :
    (name rest buf : List ℕ) (size : ℕ)
    → All (λ c. c ≢ 0) name
    → size ≤ length buf
    → copy_name (name ++ (0 ∷ rest)) buf (pos size) ≡ some (copied name buf size)
unfolding copy_name copied strncpy
copy_name-copied name rest buf size h room =
    let n = length name in
    elim (Bool-cases (ltb n size)) [
      | inl y ↦
          let len : (if ltb (n + 1) size then n + 1 else size) ≡ n + 1 = ground (arith, y) in
          let fits : leb (n + 1) (length buf) ≡ true = ground (arith, y, room) in
          let one : n + 1 - n ≡ 1 = omega arith in
          let all = take_all name (n + 1) (omega arith) in
          rw (text-append name rest h, len, fits, y, one, all, length-append name (0 ∷ [])) refl
      | inr z ↦
          let len : (if ltb (n + 1) size then n + 1 else size) ≡ size = ground (arith, z) in
          let fits : leb size (length buf) ≡ true = ground (arith, room) in
          let none_left : size - n ≡ 0 = ground (arith, z) in
          rw (text-append name rest h, len, fits, z, none_left, append-nil (take size name)) refl
    ]

get_operator_lem :
    (ms : Msim) (name rest buf : List ℕ) (size : ℕ)
    → All (λ c. c ≢ 0) name
    → 1 ≤ length name
    → size ≤ length buf
    → ms.operator ≡ name ++ (0 ∷ rest)
    → mat_uart_get_operator (some ms) buf (pos size) ≡ some (pos 0, copied name buf size)
unfolding mat_uart_get_operator
get_operator_lem ms [] rest buf size h low room e = absurd (omega arith)
get_operator_lem ms (c ∷ name) rest buf size h low room e =
    rw (e, ==_ne c 0 h.0, copy_name-copied (c ∷ name) rest buf size h room) refl

-- A name that the array of 16 characters has room for
abbrev pub IsName : List ℕ → Type 0
IsName name =
    All (λ c. c ≢ b'"') name × All (λ c. c ≢ 0) name × (1 ≤ length name) × (length name ≤ 15)

read_operator_lem :
    (ms : Msim) (pre name post : List ℕ)
    → All (λ c. c ≢ b'"') pre
    → IsName name
    → read_operator ms (pre ++ (b'"' ∷ (name ++ (b'"' ∷ post))))
      ≡ some (pos 0, record ms { operator = name ++ (0 ∷ drop (length name + 1) ms.operator) })
unfolding read_operator copy_operator
read_operator_lem ms pre name post before (quotes, zeros, low, high) =
    let q : ℕ = b'"' in
    let fits : leb (length name + 1) 16 ≡ true = ground (arith, high) in
    let mark : codes "\"" ≡ q ∷ [] = refl in
    rw
      (
        read_operator,
        mark,
        strstr-append pre q (name ++ (q ∷ post)) before,
        drop-quote pre q (name ++ (q ∷ post)),
        mark,
        strstr-append name q post quotes,
        take-append name (q ∷ post),
        fits,
      )
      refl

-- When the reply has a name of at most 15 bytes between the first two quotation marks,
-- check_sim_operator returns 0, and mat_uart_get_operator then puts the name and its byte 0 into the
-- buffer, or as much of the name as `size` bytes hold, without a byte 0; the rest of the buffer stays.
pub get_operator-check_sim_operator :
    (m : Muart) (ms : Msim) (line : Exchange) (reply pre name post buf : List ℕ) (size : ℕ)
    → send_at_cmd m (some (codes "AT+COPS?\r")) (some (codes "OK")) line ≡ some (pos 0, reply)
    → text reply ≡ some (pre ++ (b'"' ∷ (name ++ (b'"' ∷ post))))
    → All (λ c. c ≢ b'"') pre
    → IsName name
    → size ≤ length buf
    → (new : Msim) × (check_sim_operator m ms line ≡ some (pos 0, new))
      × (mat_uart_get_operator (some new) buf (pos size) ≡ some (pos 0, copied name buf size))
unfolding check_sim_operator
get_operator-check_sim_operator m ms line reply pre name post buf size sent t before named room =
    let rest = drop (length name + 1) ms.operator in
    (
      record ms { operator = name ++ (0 ∷ rest) },
      rw (check_sim_operator, sent, t) (read_operator_lem ms pre name post before named),
      get_operator_lem _ name rest buf size named.1 named.2 room refl,
    )
