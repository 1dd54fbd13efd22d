-- ===== src/Msgqueue/Retry.antt =====
-- The loops of ipc/queue/msg_queue.c.
use cfunction.Prelude.{
  ℕ, zero, suc, ◌+◌, ◌*◌, ◌/◌, ◌≤◌, ◌≡◌, refl, ap, ◌∙◌, true, false, some, List, [], ◌∷◌, ◌++◌, ltb,
  if◌then◌else◌, ℤ, pos, negsuc, int_max, inl, inr, Bool-cases, ◌-◌, length, All, arith,
}
use cfunction.Msgqueue.{is_error, is_empty_handed, send_loop, msq_send, recv_loop, msq_recv_timeout}

send_loop-errors :
    (k : ℕ) (errors answers : List ℤ)
    → All (λ r. is_error r ≡ true) errors
    → send_loop (length errors + k) (errors ++ answers) ≡ send_loop k answers
unfolding send_loop
send_loop-errors k [] answers h = let e : 0 + k ≡ k = omega arith in rw e refl
send_loop-errors k (r ∷ errors) answers (hr, h) =
    let e : suc (length errors) + k ≡ suc (length errors + k) = omega arith in
    rw (e, hr) (send_loop-errors k errors answers h)

send_loop-answer :
    (k : ℕ) (ret : ℤ) (answers : List ℤ)
    → is_error ret ≡ false
    → send_loop k (ret ∷ answers)
      ≡ (if ltb 0 k then some (pos 0, answers) else some (negsuc 0, ret ∷ answers))
unfolding send_loop
send_loop-answer zero ret answers h = refl
send_loop-answer (suc k) ret answers h =
    let y : ltb 0 (suc k) ≡ true = ground arith in rw (h, y) refl

-- msq_send makes three attempts at most: it returns 0 at the first that succeeds and makes no
-- further one, and after three that fail it returns -1.
pub msq_send_lem :
    (errors : List ℤ) (ret : ℤ) (answers : List ℤ)
    → All (λ r. is_error r ≡ true) errors
    → length errors ≤ 3
    → is_error ret ≡ false
    → msq_send (errors ++ (ret ∷ answers))
      ≡ (if ltb (length errors) 3 then some (pos 0, answers) else some (negsuc 0, ret ∷ answers))
unfolding msq_send
msq_send_lem errors ret answers h l hr =
    let n : 3 ≡ length errors + (3 - length errors) = omega arith in
    let t : ltb 0 (3 - length errors) ≡ ltb (length errors) 3 = ground arith in
    ap (λ k. send_loop k (errors ++ (ret ∷ answers))) n
    ∙ (send_loop-errors (3 - length errors) errors (ret ∷ answers) h
        ∙ (send_loop-answer (3 - length errors) ret answers hr
            ∙ ap (λ b. if b then some (pos 0, answers) else some (negsuc 0, ret ∷ answers)) t))

recv_loop-empty :
    (k : ℕ) (empty answers left : List ℤ) (ret : ℤ) (slept : ℕ)
    → All (λ r. is_empty_handed r ≡ true) empty
    → recv_loop k answers ≡ some (ret, slept, left)
    → recv_loop (length empty + k) (empty ++ answers) ≡ some (ret, length empty + slept, left)
unfolding recv_loop
recv_loop-empty k [] answers left ret slept h e =
    let f : 0 + k ≡ k = omega arith in let g : 0 + slept ≡ slept = omega arith in rw (f, g) e
recv_loop-empty k (r ∷ empty) answers left ret slept (hr, h) e =
    let f : suc (length empty) + k ≡ suc (length empty + k) = omega arith in
    let g : length empty + slept + 1 ≡ suc (length empty) + slept = omega arith in
    rw (f, hr, recv_loop-empty k empty answers left ret slept h e, g) refl

recv_loop-answer :
    (k : ℕ) (ret : ℤ) (answers : List ℤ)
    → is_empty_handed ret ≡ false
    → recv_loop k (ret ∷ answers)
      ≡ some (if ltb 0 k then (ret, 0, answers) else (negsuc 0, 0, ret ∷ answers))
unfolding recv_loop
recv_loop-answer zero ret answers h = refl
recv_loop-answer (suc k) ret answers h =
    let y : ltb 0 (suc k) ≡ true = ground arith in rw (h, y) refl

-- msq_recv_timeout, for a number of seconds whose milliseconds fit an int: it asks at most twice a
-- second and sleeps half a second after each time without a byte. It returns the first answer with
-- bytes that comes in time, and else -1 after exactly the seconds given.
pub msq_recv_timeout_lem :
    (sec_wait : ℕ) (empty : List ℤ) (ret : ℤ) (answers : List ℤ)
    → sec_wait * 1000 ≤ int_max
    → All (λ r. is_empty_handed r ≡ true) empty
    → length empty ≤ sec_wait * 2
    → is_empty_handed ret ≡ false
    → msq_recv_timeout sec_wait (empty ++ (ret ∷ answers))
      ≡ some (
          if ltb (length empty) (sec_wait * 2)
          then (ret, length empty, answers)
          else (negsuc 0, sec_wait * 2, ret ∷ answers))
unfolding msq_recv_timeout
msq_recv_timeout_lem sec_wait empty ret answers fits h l hr =
    let y : ltb int_max (sec_wait * 1000) ≡ false = ground arith in
    let n : sec_wait * 1000 / 500 ≡ length empty + (sec_wait * 2 - length empty) = omega arith in
    let k = sec_wait * 2 - length empty in
    let whole = recv_loop-answer k ret answers hr in
    rw (y, n)
      (elim (Bool-cases (ltb (length empty) (sec_wait * 2))) [
        | inl t ↦
            let u : ltb 0 k ≡ true = ground arith in
            let m : length empty + 0 ≡ length empty = omega arith in
            rw t (
              recv_loop-empty k empty (ret ∷ answers) answers ret 0 h (rw u at whole)
              ∙ ap (λ s. some (ret, s, answers)) m)
        | inr f ↦
            let u : ltb 0 k ≡ false = ground arith in
            let m : length empty + 0 ≡ sec_wait * 2 = ground arith in
            rw f (
              recv_loop-empty k empty (ret ∷ answers) (ret ∷ answers) (negsuc 0) 0 h (rw u at whole)
              ∙ ap (λ s. some (negsuc 0, s, ret ∷ answers)) m)
      ])
