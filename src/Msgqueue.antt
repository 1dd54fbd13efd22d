-- ===== src/Msgqueue.antt =====
-- ipc/queue/msg_queue.c: System V message queues. What the calls of msgget, msgsnd, msgrcv and msgctl
-- return is given as a list of answers, one for each call; without an answer a call blocks.
pub mod Retry
mod Tests
use cfunction.Prelude.{
  ℕ, zero, suc, ◌+◌, ◌*◌, ◌/◌, Bool, true, false, Option, none, some, List, [], ◌∷◌, ltb,
  if◌then◌else◌, ◌>>=◌, ℤ, pos, negsuc, int_max,
}

-- `ret < 0` and `ret <= 0`
pub is_error : ℤ → Bool
is_error (pos _) = false
is_error (negsuc _) = true

pub is_empty_handed : ℤ → Bool
is_empty_handed (pos zero) = true
is_empty_handed (pos (suc _)) = false
is_empty_handed (negsuc _) = true

pub msq_init : (msgget : ℤ) → ℤ
unfolding is_error
msq_init msgget = if is_error msgget then negsuc 0 else msgget

-- `while (count--)`: the value returned, and the answers that are left
pub send_loop : (count : ℕ) → List ℤ → Option (ℤ × List ℤ)
unfolding is_error
send_loop zero answers = some (negsuc 0, answers)
send_loop (suc count) [] = none
send_loop (suc count) (ret ∷ answers) =
    let rest = send_loop count answers in if is_error ret then rest else some (pos 0, answers)

pub msq_send : List ℤ → Option (ℤ × List ℤ)
unfolding send_loop
msq_send answers = send_loop 3 answers

-- The value returned, the half seconds slept, and the answers that are left
pub recv_loop : (count : ℕ) → List ℤ → Option (ℤ × ℕ × List ℤ)
unfolding is_empty_handed
recv_loop zero answers = some (negsuc 0, 0, answers)
recv_loop (suc count) [] = none
recv_loop (suc count) (ret ∷ answers) =
    let rest = (do (r, slept, left) ← recv_loop count answers; some (r, slept + 1, left)) in
    if is_empty_handed ret then rest else some (ret, 0, answers)

-- A number of seconds whose product with 1000 does not fit an `int` is undefined, and a negative one
-- makes `count--` run below the least `int`, so both are left out.
pub msq_recv_timeout : (sec_wait : ℕ) → List ℤ → Option (ℤ × ℕ × List ℤ)
unfolding recv_loop
msq_recv_timeout sec_wait answers =
    if ltb int_max (sec_wait * 1000) then none else recv_loop (sec_wait * 1000 / 500) answers

pub msq_recv_noblock : (msgrcv : ℤ) → ℤ
unfolding is_error
msq_recv_noblock msgrcv = if is_error msgrcv then negsuc 0 else msgrcv

pub msq_recv_block : (msgrcv : ℤ) → ℤ
unfolding is_empty_handed
msq_recv_block msgrcv = if is_empty_handed msgrcv then negsuc 0 else msgrcv

pub msq_close : (msgctl : ℤ) → ℤ
unfolding is_error
msq_close msgctl = if is_error msgctl then negsuc 0 else pos 0
