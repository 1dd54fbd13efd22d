-- ===== src/Msgqueue/Tests.antt =====
-- Runs of the message queue functions.
use cfunction.Prelude.{
  ◌≡◌, ◌*◌, refl, true, some, [], ◌∷◌, ◌++◌, ltb, if◌then◌else◌, pos, negsuc, length, All, arith,
}
use cfunction.Msgqueue.{is_error, is_empty_handed, msq_send, msq_recv_timeout}
use cfunction.Msgqueue.Retry.{msq_recv_timeout_lem}

given_up : msq_send (negsuc 0 ∷ negsuc 0 ∷ negsuc 0 ∷ pos 0 ∷ []) ≡ some (negsuc 0, pos 0 ∷ [])
unfolding msq_send
given_up = refl

two_errors : All (λ r. is_error r ≡ true) (negsuc 0 ∷ negsuc 0 ∷ [])
unfolding is_error
two_errors = (refl, (refl, tt))

one_empty : All (λ r. is_empty_handed r ≡ true) (negsuc 0 ∷ [])
unfolding is_empty_handed
one_empty = (refl, tt)

msq_recv_timeout_lem_example :
    msq_recv_timeout 1 ((negsuc 0 ∷ []) ++ (pos 4 ∷ []))
    ≡ some (
        if ltb (length (negsuc 0 ∷ [])) (1 * 2)
        then (pos 4, length (negsuc 0 ∷ []), [])
        else (negsuc 0, 1 * 2, pos 4 ∷ []))
unfolding is_empty_handed
msq_recv_timeout_lem_example =
    msq_recv_timeout_lem 1 (negsuc 0 ∷ []) (pos 4) [] (omega arith) one_empty (omega arith) refl
