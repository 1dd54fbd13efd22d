-- ===== src/Squeue.antt =====
-- queue/array/queue.c and queue/array/queue.h: a bounded queue in a circular array.
pub mod Alloc
pub mod Destroy
pub mod Inv
pub mod Fifo
pub mod Refine
pub mod Window
mod Tests
use cfunction.Prelude.{
  ℕ, zero, suc, ◌+◌, ◌-◌, ◌%◌, Bool, true, false, Option, none, some, List, [], ◌∷◌, ltb, ◌==◌,
  if◌then◌else◌, ◌>>=◌, ℤ, pos, negsuc, pos_part, to_size, eq_int, length, get_elem?, set,
  replicate,
}
use cfunction.Memory.{Heap, write, free}

-- `squeue_data_t`: a pointer, 0 for NULL, and the length of what it points to
pub record Item : Type 0 where
  pub pdata : ℕ
  pub len : ℕ

abbrev pub no_item : Item
no_item = record { pdata = 0; len = 0 }

-- `squeue_t`. `head`, `tail` and `count` are never negative. A NULL `qdata` is `none`.
pub record Squeue : Type 0 where
  pub head : ℕ
  pub tail : ℕ
  pub count : ℕ
  pub size : ℤ
  pub locked : Bool
  pub qdata : Option (List Item)

-- `count < size` in signed arithmetic, and the divisor of `% size` where that holds
abbrev pub bound : Squeue → ℕ
bound q = pos_part q.size

pub lock : Squeue → Option Squeue
lock q = if q.locked then none else some (record q { locked = true })

pub unlock : Squeue → Squeue
unlock q = record q { locked = false }

-- `qdata[i]`, a fault through NULL or past the end
pub load : Option (List Item) → ℕ → Option Item
load none i = none
load (some a) i = get_elem? a i

pub store : Option (List Item) → ℕ → Item → Option (List Item)
store none i d = none
store (some a) i d = if ltb i (length a) then some (set a i d) else none

-- Allocation of the array: `calloc_ok n` says whether `calloc(n, sizeof(squeue_data_t))` succeeds.
-- `pthread_mutex_init` is reached on success alone.
pub init : (calloc_ok : ℕ → Bool) → Squeue → ℤ → ℤ × Squeue
init calloc_ok q size =
    if calloc_ok (to_size size)
    then (
      pos 0,
      record {
        head = 0;
        tail = 0;
        count = 0;
        size = size;
        locked = false;
        qdata = some (replicate (to_size size) no_item);
      },
    )
    else (negsuc 9, record q { qdata = none })

-- `squeue_data_destroy`
pub data_destroy : Item → Heap → Option (Item × Heap)
data_destroy d h = if d.pdata == 0 then some (d, h) else do h' ← free h d.pdata; some (no_item, h')

pub enqueue : Squeue → Item → Option (ℤ × Squeue)
unfolding lock unlock store
enqueue q d = do
  q ← lock q
  if ltb q.count (bound q)
      then (do
        a ← store q.qdata q.tail d
        some (
          pos 0,
          unlock (record q { qdata = some a; tail = (q.tail + 1) % bound q; count = q.count + 1 }),
        ))
      else some (negsuc 0, unlock q)

-- `fresh` is what `malloc(length)` returns, `src` the `length` bytes at the caller's `pdata`.
pub enqueue_ext : (fresh : ℕ) → Squeue → Heap → List ℕ → Option (ℤ × Squeue × Heap)
enqueue_ext fresh q h src = if fresh == 0 then some (negsuc 9, q, h) else do
  (r, q') ← enqueue q (record { pdata = fresh; len = length src })
  some (r, q', write h fresh (some src))

-- `_squeue_dequeue`, which runs with the mutex held. The item is what goes through `*pdata`.
pub dequeue_locked : Squeue → Option (ℤ × Option Item × Squeue)
unfolding load store
dequeue_locked q =
    if ltb 0 q.count
    then (do
      d ← load q.qdata q.head
      a ← store q.qdata q.head no_item
      some (
        pos 0,
        some d,
        record q { qdata = some a; head = (q.head + 1) % bound q; count = q.count - 1 },
      ))
    else some (negsuc 0, none, q)

pub dequeue : Squeue → Option (ℤ × Option Item × Squeue)
unfolding lock unlock
dequeue q = do q ← lock q; (r, out, q) ← dequeue_locked q; some (r, out, unlock q)

abbrev pub Destroy : Type 0
Destroy = Item → Heap → Option (Item × Heap)

-- `if (destroy) destroy(&data)`; the item is a local variable of `squeue_destroy`
pub call : Option Destroy → Item → Heap → Option Heap
call none d h = some h
call (some f) d h = do (d', h') ← f d h; some h'

-- The dequeue of a round hands its item to the callback.
abbrev pub destroy_out : Option Destroy → Option Item → Heap → Option Heap
destroy_out f none h = none
destroy_out f (some d) h = call f d h

-- `while (count > 0)`. The fuel is `count`, which each round lowers by one.
pub drain : ℕ → Option Destroy → Squeue → Heap → Option (Squeue × Heap)
unfolding call
drain zero f q h = if ltb 0 q.count then none else some (q, h)
drain (suc n) f q h =
    let round = (do (r, out, q') ← dequeue_locked q; h' ← destroy_out f out h; drain n f q' h') in
    if ltb 0 q.count then round else some (q, h)

-- The array goes back to the allocator when `qdata` is not NULL already.
pub destroy : Squeue → Option Destroy → Heap → Option (Squeue × Heap)
unfolding lock unlock
destroy q f h = do
  q ← lock q
  (q, h) ← drain q.count f q h
  some (unlock (record q { qdata = none }), h)

pub is_full : Squeue → Option (Bool × Squeue)
unfolding lock unlock
is_full q = do q ← lock q; let ret = eq_int q.count q.size; some (ret, unlock q)

pub is_empty : Squeue → Option (Bool × Squeue)
unfolding lock unlock
is_empty q = do q ← lock q; let ret = q.count == 0; some (ret, unlock q)

-- The calls that a client makes, and what it sees of each: the returned code, the code with the
-- item, or the Boolean.
pub data Op : Type 0 where
  put : Item → Op
  get : Op
  ask_full : Op
  ask_empty : Op

pub data Reply : Type 0 where
  code : ℤ → Reply
  taken : ℤ → Option Item → Reply
  flag : Bool → Reply

pub step : Squeue → Op → Option (Reply × Squeue)
step q (put d) = do (r, q') ← enqueue q d; some (code r, q')
step q get = do (r, out, q') ← dequeue q; some (taken r out, q')
step q ask_full = do (b, q') ← is_full q; some (flag b, q')
step q ask_empty = do (b, q') ← is_empty q; some (flag b, q')

pub run : Squeue → List Op → Option (List Reply × Squeue)
run q [] = some ([], q)
run q (o ∷ os) = do (r, q') ← step q o; (rs, q'') ← run q' os; some (r ∷ rs, q'')
