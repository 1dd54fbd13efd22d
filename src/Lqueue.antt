-- ===== src/Lqueue.antt =====
-- queue/list/lqueue.c and lqueue.h: a queue as a circular doubly linked list.
-- The functions are given what `malloc` returns, 0 for NULL. A NULL `pqueue` is `none`.
-- `count` counts allocated nodes, so it cannot overflow. Each loop runs on fuel.
pub mod Store
pub mod Ring
pub mod Insert
pub mod Enqueue
pub mod Copying
pub mod Dequeue
pub mod Walk
mod Tests
use cfunction.Prelude.{
  ℕ, zero, suc, ◌+◌, ◌-◌, Bool, true, false, ◌&&◌, ◌||◌, Option, none, some, List, [], ◌∷◌, ◌++◌,
  ltb, leb, ◌==◌, if◌then◌else◌, ℤ, pos, negsuc, pos_part, length,
}
use Store.{
  Node, Mem, Run, Cmd, done, fault, no_fuel, pure, bind, ◌>>=◌, ◌>>◌, load, store, set_next,
  set_prev, free_node, free_block, fill_block, put,
}

-- `lqueue_t`
pub record Lqueue : Type 0 where
  pub count : ℕ
  pub size : ℤ
  pub phead : ℕ

pub init : Option Lqueue → ℤ → ℤ × Option Lqueue
init none size = (negsuc 10, none)
init (some q) size = (pos 0, some (record { count = 0; size = size; phead = 0 }))

-- `(size > 0) && (count >= size)`: a queue of no positive size is never full.
pub is_full : Lqueue → Bool
is_full q = ltb 0 (pos_part q.size) && leb (pos_part q.size) q.count

pub is_empty : Lqueue → Bool
is_empty q = q.phead == 0

-- Linking a new node in: the first node of an empty queue points to itself, any other goes between
-- the last node and `phead`.
pub link : Lqueue → ℕ → Cmd (Unit {0})
unfolding load set_next set_prev
link q n = if q.phead == 0 then (do set_next n n; set_prev n n) else do
  set_next n q.phead
  h ← load q.phead
  set_next h.prev n
  h ← load q.phead
  set_prev n h.prev
  set_prev q.phead n

-- The struct as `malloc` and the two assignments leave it; `next` and `prev` are written by `link`
-- before they are read.
abbrev pub new_node : ℕ → ℤ → Node
new_node pbuf length = record { next = 0; prev = 0; pqdata = pbuf; len = length }

-- The new node becomes the first.
pub insert_front : Lqueue → ℕ → Cmd Lqueue
unfolding link
insert_front q n = do link q n; pure (record q { phead = n; count = q.count + 1 })

-- The new node becomes the last; `phead` moves only in an empty queue.
pub insert_back : Lqueue → ℕ → Cmd Lqueue
unfolding link
insert_back q n = do
  link q n
  pure (record q { phead = if q.phead == 0 then n else q.phead; count = q.count + 1 })

abbrev pub Insert : Type 0
Insert = Lqueue → ℕ → Cmd Lqueue

-- What `lqueue_enqueue_front` and `lqueue_enqueue_back` share.
pub enqueue : Insert → (fresh : ℕ) → Option Lqueue → ℕ → ℤ → Cmd (ℤ × Option Lqueue)
unfolding is_full
enqueue insert fresh none pbuf length = pure (negsuc 10, none)
enqueue insert fresh (some q) pbuf length =
    if pbuf == 0
    then pure (negsuc 10, some q)
    else if is_full q
    then pure (negsuc 0, some q)
    else if fresh == 0
    then pure (negsuc 9, some q)
    else do store fresh (some (new_node pbuf length)); q' ← insert q fresh; pure (pos 0, some q')

pub enqueue_front : (fresh : ℕ) → Option Lqueue → ℕ → ℤ → Cmd (ℤ × Option Lqueue)
unfolding enqueue insert_front
enqueue_front = enqueue insert_front

pub enqueue_back : (fresh : ℕ) → Option Lqueue → ℕ → ℤ → Cmd (ℤ × Option Lqueue)
unfolding enqueue insert_back
enqueue_back = enqueue insert_back

-- What the two `_ext` functions share: they copy the `length` bytes at `pbuf`, here `src`, to a
-- block of their own, and give the node back when that cannot be had. A negative length, for which
-- `memcpy` is undefined, is left out.
pub enqueue_ext :
    Insert → (fresh fresh_data : ℕ) → Option Lqueue → ℕ → List ℕ → Cmd (ℤ × Option Lqueue)
unfolding is_full free_node fill_block
enqueue_ext insert fresh fresh_data none pbuf src = pure (negsuc 10, none)
enqueue_ext insert fresh fresh_data (some q) pbuf src =
    if pbuf == 0
    then pure (negsuc 10, some q)
    else if is_full q
    then pure (negsuc 0, some q)
    else if fresh == 0
    then pure (negsuc 9, some q)
    else if fresh_data == 0
    then (do store fresh (some (new_node 0 (pos 0))); free_node fresh; pure (negsuc 9, some q))
    else do
      fill_block fresh_data src
      store fresh (some (new_node fresh_data (pos (length src))))
      q' ← insert q fresh
      pure (pos 0, some q')

pub enqueue_front_ext :
    (fresh fresh_data : ℕ) → Option Lqueue → ℕ → List ℕ → Cmd (ℤ × Option Lqueue)
unfolding enqueue_ext insert_front
enqueue_front_ext = enqueue_ext insert_front

pub enqueue_back_ext : (fresh fresh_data : ℕ) → Option Lqueue → ℕ → List ℕ → Cmd (ℤ × Option Lqueue)
unfolding enqueue_ext insert_back
enqueue_back_ext = enqueue_ext insert_back

-- What a dequeue writes through `pbuf` and `plen`: `none` where it writes nothing.
pub record Out : Type 0 where
  pub buf : Option ℕ
  pub len : Option ℤ

abbrev pub no_out : Out
no_out = record { buf = none; len = none }

-- `pbuf` and `plen` are the addresses given, 0 for NULL. With more than one node `phead` keeps the
-- address of the node that is freed, and `pbuf = ppdata->pqdata` sets the parameter, not what it
-- points to.
pub dequeue_front : Option Lqueue → (pbuf plen : ℕ) → Cmd (ℤ × Out × Option Lqueue)
unfolding load set_next set_prev free_node
dequeue_front none pbuf plen = pure (negsuc 10, no_out, none)
dequeue_front (some q) pbuf plen =
    if (pbuf == 0) || (plen == 0)
    then pure (negsuc 10, no_out, some q)
    else if q.phead == 0
    then pure (negsuc 0, no_out, some q)
    else do
      d ← load q.phead
      q' ←
          (if d.next == q.phead
            then pure (record q { phead = 0 })
            else do set_next d.prev d.next; d' ← load q.phead; set_prev d'.next d'.prev; pure q)
      d ← load q.phead
      free_node q.phead
      pure
          (pos 0, record { buf = none; len = some d.len }, some (record q' { count = q.count - 1 }))

pub dequeue_back : Option Lqueue → (pbuf plen : ℕ) → Cmd (ℤ × Out × Option Lqueue)
unfolding load set_next set_prev free_node
dequeue_back none pbuf plen = pure (negsuc 10, no_out, none)
dequeue_back (some q) pbuf plen =
    if (pbuf == 0) || (plen == 0)
    then pure (negsuc 10, no_out, some q)
    else if q.phead == 0
    then pure (negsuc 0, no_out, some q)
    else do
      h ← load q.phead
      (p, q') ←
          (if h.next == q.phead then pure (q.phead, record q { phead = 0 }) else do
            l ← load h.prev
            set_next l.prev q.phead
            h' ← load q.phead
            l' ← load h'.prev
            set_prev q.phead l'.prev
            pure (h.prev, q))
      d ← load p
      free_node p
      pure (
        pos 0,
        record { buf = some d.pqdata; len = some d.len },
        some (record q' { count = q.count - 1 }),
      )

-- `destroy(pdata->pqdata)`, for a callback that frees the buffer or for none
abbrev pub Destroy : Type 0
Destroy = ℕ → Cmd (Unit {0})

pub call : Option Destroy → ℕ → Cmd (Unit {0})
call none p = pure tt
call (some f) p = f p

-- `lqueue_data_destroy_ext`; `pbuf = NULL` sets the parameter only.
pub data_destroy_ext : ℕ → Cmd (Unit {0})
unfolding free_block
data_destroy_ext pbuf = if pbuf == 0 then pure tt else free_block pbuf

-- `while (pqueue->phead != NULL)`, over the `phead` of each round
pub destroy_loop : ℕ → Option Destroy → ℕ → Cmd (Unit {0})
unfolding load call free_node
destroy_loop zero f phead = λ _. no_fuel
destroy_loop (suc k) f phead = if phead == 0 then pure tt else do
  d ← load phead
  call f d.pqdata
  free_node phead
  destroy_loop k f (if phead == d.next then 0 else d.next)

pub destroy : ℕ → Option Lqueue → Option Destroy → Cmd (Option Lqueue)
unfolding destroy_loop
destroy fuel none f = pure none
destroy fuel (some q) f = do
  destroy_loop fuel f q.phead
  pure (some (record { count = 0; size = pos 0; phead = 0 }))

-- `do … while (pnode != phead)`: the items printed, length and buffer of each
pub info_loop : ℕ → (phead pnode : ℕ) → Cmd (List (ℤ × ℕ))
unfolding load
info_loop zero phead pnode = λ _. no_fuel
info_loop (suc k) phead pnode = do
  d ← load pnode
  rest ← (if d.next == phead then pure [] else info_loop k phead d.next)
  pure ((d.len, d.pqdata) ∷ rest)

pub info : ℕ → Option Lqueue → Cmd (List (ℤ × ℕ))
unfolding info_loop
info fuel none = pure []
info fuel (some q) = if q.phead == 0 then pure [] else info_loop fuel q.phead q.phead
