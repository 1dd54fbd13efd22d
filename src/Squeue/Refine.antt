-- ===== src/Squeue/Refine.antt =====
-- A valid array queue answers every sequence of calls as the bounded FIFO of its items.
use cfunction.Prelude.{
  ◌≡◌, ap, ap₂, ◌∙◌, refl, some, List, [], ◌∷◌, arith, length, ltb, Bool-cases, inl, inr, ltb→lt,
}
use cfunction.Squeue.{
  Item, Squeue, bound, Op, put, get, ask_full, ask_empty, step, run, is_full, is_empty,
}
use cfunction.Squeue.Inv.{
  IsValid, contents, pushed, popped, enqueue_eq, dequeue_eq, pushed-IsShaped, popped-IsShaped,
  contents-pushed, contents-popped, length-contents,
}
use cfunction.Squeue.Fifo

-- What one call of a valid queue answers and leaves, by the contract.
abbrev pub Steps : Squeue → Op → Type 0
Steps q o =
    (q' : Squeue) × (step q o ≡ some ((Fifo.step (bound q) (contents q) o).0, q'))
    × IsValid q'
    × (contents q' ≡ (Fifo.step (bound q) (contents q) o).1)
    × (bound q' ≡ bound q)

put-Steps : (q : Squeue) (d : Item) → IsValid q → Steps q (put d)
unfolding step Fifo.step
put-Steps q d v = elim (Bool-cases (ltb q.count (bound q))) [
  | inl room ↦ (
    pushed q d,
    ground (arith, enqueue_eq d v, length-contents q),
    record { shape = pushed-IsShaped d v.shape (ltb→lt _ _ room); free = v.free },
    ground (arith, contents-pushed d v.shape, length-contents q),
    refl,
  )
  | inr full ↦ (
    q,
    ground (arith, enqueue_eq d v, length-contents q),
    v,
    ground (arith, length-contents q),
    refl,
  )
]

nil_of_length : (xs : List Item) → length xs ≡ 0 → xs ≡ []
nil_of_length [] e = refl
nil_of_length (x ∷ xs) e = absurd (omega arith)

get-Steps : (q : Squeue) → IsValid q → Steps q get
unfolding step Fifo.step
get-Steps q v = elim (Bool-cases (ltb 0 q.count)) [
  | inl some_item ↦ (
    popped q,
    ground (arith, dequeue_eq v, contents-popped v.shape),
    record { shape = popped-IsShaped v.shape (ltb→lt _ _ some_item); free = v.free },
    ground (arith, contents-popped v.shape),
    refl,
  )
  | inr empty ↦ (
    q,
    ground (arith, dequeue_eq v, length-contents q, nil_of_length (contents q)),
    v,
    ground (arith, length-contents q, nil_of_length (contents q)),
    refl,
  )
]

-- Every call returns what the contract says, and leaves a valid queue that holds what it says.
pub step-Steps : (q : Squeue) (o : Op) → IsValid q → Steps q o
unfolding step Fifo.step is_full is_empty
step-Steps q (put d) v = put-Steps q d v
step-Steps q get v = get-Steps q v
step-Steps q ask_full v = (q, ground (arith, length-contents q), v, refl, refl)
step-Steps q ask_empty v = (q, ground (arith, length-contents q), v, refl, refl)

-- For every sequence of enqueue, dequeue, full and empty calls, a valid queue returns the codes, items
-- and Booleans of the bounded FIFO that starts with its items, with no fault and with the mutex
-- free after each call, and ends valid with the items of the FIFO.
pub run_refines :
    (os : List Op) (q : Squeue)
    → IsValid q
    → (q' : Squeue) × (run q os ≡ some ((Fifo.run (bound q) (contents q) os).0, q'))
      × IsValid q'
      × (contents q' ≡ (Fifo.run (bound q) (contents q) os).1)
unfolding run Fifo.run
run_refines [] q v = (q, refl, v, refl)
run_refines (o ∷ os) q v =
    let (q₁, done, v₁, holds, same) = step-Steps q o v in
    let (q₂, rest, v₂, last) = run_refines os q₁ v₁ in
    let e : Fifo.run (bound q₁) (contents q₁) os
        ≡ Fifo.run (bound q) (Fifo.step (bound q) (contents q) o).1 os =
      ap₂ (λ c xs. Fifo.run c xs os) same holds in
    (q₂, ground (arith, e), v₂, last ∙ ap (λ r. r.1) e)
