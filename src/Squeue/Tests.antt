-- ===== src/Squeue/Tests.antt =====
-- Runs of the array queue, and its theorems at concrete queues.
use cfunction.Prelude.{
  ℕ, ◌≡◌, refl, Bool, true, false, none, some, List, [], ◌∷◌, arith, pos, negsuc, ltb, ◌==◌, inr,
  if◌then◌else◌,
}
use cfunction.Memory.{Heap}
use cfunction.Squeue.{
  Item, no_item, Squeue, data_destroy, destroy, enqueue_ext, Op, put, get, ask_full, ask_empty,
  code, taken, flag, run,
}
use cfunction.Squeue.Inv.{IsValid, contents}
use cfunction.Squeue.Fifo
use cfunction.Squeue.Refine.{run_refines}
use cfunction.Squeue.Destroy.{owned, Owns, destroy_frees}
use cfunction.Squeue.Alloc.{RefusesOverflow, enqueue_ext_leaks}

abbrev item : ℕ → Item
item p = record { pdata = p; len = 2 }

-- Two items in an array of three, the second behind its end.
abbrev wrapped : Squeue
wrapped = record {
  head = 2;
  tail = 1;
  count = 2;
  size = pos 3;
  locked = false;
  qdata = some (item 20 ∷ no_item ∷ item 10 ∷ []);
}

abbrev one_full : Squeue
one_full = record {
  head = 0;
  tail = 0;
  count = 1;
  size = pos 1;
  locked = false;
  qdata = some (item 10 ∷ []);
}

abbrev heap : Heap
heap p = if p == 10 then some (1 ∷ 2 ∷ []) else if p == 20 then some (3 ∷ 4 ∷ []) else none

abbrev script : List Op
script = put (item 30) ∷ put (item 40) ∷ ask_full ∷ get ∷ get ∷ get ∷ get ∷ ask_empty ∷ []

wrapped-IsValid : IsValid wrapped
wrapped-IsValid = record { shape = ground arith; free = refl }

one_full-IsValid : IsValid one_full
one_full-IsValid = record { shape = ground arith; free = refl }

heap-Owns : Owns heap (contents wrapped)
heap-Owns = (inr (1 ∷ 2 ∷ [], refl, refl), (inr (3 ∷ 4 ∷ [], refl, refl), tt))

heap-Owns_one : Owns heap (contents one_full)
heap-Owns_one = (inr (1 ∷ 2 ∷ [], refl, refl), tt)

run-wrapped :
    (Fifo.run 3 (contents wrapped) script).0
    ≡ code (pos 0)
      ∷ code (negsuc 0)
      ∷ flag true
      ∷ taken (pos 0) (some (item 10))
      ∷ taken (pos 0) (some (item 20))
      ∷ taken (pos 0) (some (item 30))
      ∷ taken (negsuc 0) none
      ∷ flag true
      ∷ []
unfolding Fifo.run Fifo.step
run-wrapped = refl

run_refines_example :
    (q : Squeue) × (run wrapped script ≡ some ((Fifo.run 3 (item 10 ∷ item 20 ∷ []) script).0, q))
    × IsValid q
    × (contents q ≡ (Fifo.run 3 (item 10 ∷ item 20 ∷ []) script).1)
run_refines_example = run_refines script wrapped wrapped-IsValid

destroy_frees_example :
    (q : Squeue) × (h : Heap) × (destroy wrapped (some data_destroy) heap ≡ some (q, h))
    × (q.count ≡ 0)
    × (q.qdata ≡ none)
    × (q.locked ≡ false)
    × ((p : ℕ) → h p ≡ (if owned p (contents wrapped) then none else heap p))
destroy_frees_example = destroy_frees heap wrapped-IsValid heap-Owns

-- An allocator with room for a hundred items.
abbrev small_heap : ℕ → Bool
small_heap n = ltb n 100

small_heap-RefusesOverflow : RefusesOverflow small_heap
small_heap-RefusesOverflow n h = ground arith

enqueue_ext_leaks_example :
    (h : Heap) × (enqueue_ext 30 one_full heap (5 ∷ 6 ∷ []) ≡ some (negsuc 0, one_full, h))
    × (h 30 ≡ some (5 ∷ 6 ∷ []))
    × (false ≡ false)
    × Owns h (contents one_full)
enqueue_ext_leaks_example =
    enqueue_ext_leaks 30 heap (5 ∷ 6 ∷ []) one_full-IsValid heap-Owns_one (omega arith) refl refl
