-- ===== src/Pthread/Items/Counts.antt =====
-- What the places of the two threads in their loops say about the semaphores and the output.
use cfunction.Prelude.{ℕ, zero, suc, List, [], ◌∷◌}
use cfunction.Pthread.Items.{
  Line, produced, mismatch, consumed, Produce, starting, claiming, locking, making, storing,
  unlocking, offering, done, Consume, looking, taking, entering, checking, reporting, using,
  leaving, freeing, finished,
}

-- Between the wait on `nempty` and the post on `nstored`.
abbrev pub claims : Produce → ℕ
claims starting = 0
claims claiming = 0
claims done = 0
claims _ = 1

-- Behind the write to the ring.
abbrev pub stores : Produce → ℕ
stores unlocking = 1
stores offering = 1
stores _ = 0

-- Behind the printf.
abbrev pub prints : Produce → ℕ
prints storing = 1
prints p = stores p

-- Between the wait and the post on the mutex.
abbrev pub p_in_section : Produce → ℕ
p_in_section making = 1
p_in_section storing = 1
p_in_section unlocking = 1
p_in_section _ = 0

-- Between the wait on `nstored` and the post on `nempty`.
abbrev pub takes : Consume → ℕ
takes looking = 0
takes taking = 0
takes finished = 0
takes _ = 1

abbrev pub reports : Consume → ℕ
reports reporting = 1
reports _ = 0

-- Behind the printf of the item.
abbrev pub shows : Consume → ℕ
shows leaving = 1
shows freeing = 1
shows _ = 0

abbrev pub c_in_section : Consume → ℕ
c_in_section checking = 1
c_in_section reporting = 1
c_in_section using = 1
c_in_section leaving = 1
c_in_section _ = 0

-- In the body of the loop, and behind the loop.
abbrev pub p_inside : Produce → ℕ
p_inside claiming = 1
p_inside p = claims p

abbrev pub p_behind : Produce → ℕ
p_behind done = 1
p_behind _ = 0

abbrev pub c_inside : Consume → ℕ
c_inside taking = 1
c_inside c = takes c

abbrev pub c_behind : Consume → ℕ
c_behind finished = 1
c_behind _ = 0

-- The items of the lines of each kind, the newest first.
abbrev pub produced_items : List Line → List ℕ
produced_items [] = []
produced_items (produced i ∷ out) = i ∷ produced_items out
produced_items (_ ∷ out) = produced_items out

abbrev pub consumed_items : List Line → List ℕ
consumed_items [] = []
consumed_items (consumed i ∷ out) = i ∷ consumed_items out
consumed_items (_ ∷ out) = consumed_items out

abbrev pub mismatches : List Line → ℕ
mismatches [] = 0
mismatches (mismatch _ _ ∷ out) = suc (mismatches out)
mismatches (_ ∷ out) = mismatches out

abbrev pub countdown : ℕ → List ℕ
countdown zero = []
countdown (suc n) = n ∷ countdown n

-- The steps since the head of the loop; behind the loop, those since it ended.
abbrev pub p_rank : Produce → ℕ
p_rank starting = 0
p_rank claiming = 1
p_rank locking = 2
p_rank making = 3
p_rank storing = 4
p_rank unlocking = 5
p_rank offering = 6
p_rank done = 1

-- The step that reports a mismatch is never taken.
abbrev pub c_rank : Consume → ℕ
c_rank looking = 0
c_rank taking = 1
c_rank entering = 2
c_rank checking = 3
c_rank reporting = 4
c_rank using = 4
c_rank leaving = 5
c_rank freeing = 6
c_rank finished = 1
