-- ===== src/Squeue/Inv.antt =====
-- The representation invariant of `squeue_t`, and that every operation keeps it.
use native.Mathlib.Nat.{mod-lt, mod-add-mod}
use cfunction.Prelude.{
  ℕ, ◌+◌, ◌-◌, ◌%◌, ◌≤◌, ◌<◌, ◌≡◌, suc, ap, sym, ◌∙◌, [], ◌∷◌, ◌++◌, false, none, some, List, arith,
  pos, negsuc, int_max, length, length-set, set, get_elem?-eq-get_or, if◌then◌else◌, ltb, get_or,
}
use cfunction.Squeue.{Item, no_item, Squeue, bound, enqueue, dequeue, dequeue_locked}
use cfunction.Squeue.Window.{window, length-window, window_push, window_pop, window_first}

-- The array of a queue that is not destroyed.
abbrev pub slots : Squeue → List Item
slots q = elim q.qdata [ none ↦ List.[] | some a ↦ a ]

-- The items in the queue, oldest first.
abbrev pub contents : Squeue → List Item
contents q = window no_item (bound q) (slots q) q.head q.count

-- The array holds `size` items, `head` stands in it, and `tail` is `count` places behind `head`.
pub record IsShaped (q : Squeue) : Type 0 where
  pub array : q.qdata ≡ some (slots q)
  pub storage : length (slots q) ≡ bound q
  pub signed : q.size ≡ pos (bound q)
  pub fits : bound q ≤ int_max
  pub head_in : q.head ≤ bound q - 1
  pub count_in : q.count ≤ bound q
  pub tail_at : q.tail ≡ (q.head + q.count) % bound q

-- Between two calls the mutex is free.
pub record IsValid (q : Squeue) : Type 0 where
  pub shape : IsShaped q
  pub free : q.locked ≡ false

-- What an enqueue leaves behind when there is room.
abbrev pub pushed : Squeue → Item → Squeue
pushed q d = record q {
  qdata = some (set (slots q) q.tail d);
  tail = (q.tail + 1) % bound q;
  count = q.count + 1;
}

-- What a dequeue leaves behind when there is an item.
abbrev pub popped : Squeue → Squeue
popped q = record q {
  qdata = some (set (slots q) q.head no_item);
  head = (q.head + 1) % bound q;
  count = q.count - 1;
}

-- Both indices stay inside the array, and the room test covers the modulus.
tail_lt : {q : Squeue} → IsShaped q → q.count < bound q → q.tail < bound q
tail_lt {q} v lt = rw v.tail_at (mod-lt _ (omega arith))

next_tail : (b h c : ℕ) → ((h + c) % b + 1) % b ≡ (h + (c + 1)) % b
next_tail b h c = rw mod-add-mod (ap (λ k. k % b) (omega arith))

next_head : (b h c : ℕ) → 0 < c → ((h + 1) % b + (c - 1)) % b ≡ (h + c) % b
next_head b h c lt = rw mod-add-mod (ap (λ k. k % b) (omega arith))

-- The item that a dequeue hands out.
abbrev pub oldest : Squeue → Item
oldest q = get_or (slots q) q.head no_item

pub enqueue_eq :
    {q : Squeue} (d : Item)
    → IsValid q
    → enqueue q d ≡ some (if ltb q.count (bound q) then (pos 0, pushed q d) else (negsuc 0, q))
unfolding enqueue
enqueue_eq {q} d v = ground (arith, tail_lt v.shape)

pub dequeue_locked_eq :
    {q : Squeue}
    → IsShaped q
    → dequeue_locked q
      ≡ some (if ltb 0 q.count then (pos 0, some (oldest q), popped q) else (negsuc 0, none, q))
unfolding dequeue_locked
dequeue_locked_eq {q} v = ground (arith, get_elem?-eq-get_or (slots q) q.head no_item)

pub dequeue_eq :
    {q : Squeue}
    → IsValid q
    → dequeue q
      ≡ some (if ltb 0 q.count then (pos 0, some (oldest q), popped q) else (negsuc 0, none, q))
unfolding dequeue dequeue_locked
dequeue_eq {q} v = ground (arith, get_elem?-eq-get_or (slots q) q.head no_item)

pub pushed-IsShaped :
    {q : Squeue} (d : Item) → IsShaped q → q.count < bound q → IsShaped (pushed q d)
pushed-IsShaped {q} d v lt =
    ground (arith, length-set (slots q) q.tail d, next_tail (bound q) q.head q.count)

pub popped-IsShaped : {q : Squeue} → IsShaped q → 0 < q.count → IsShaped (popped q)
popped-IsShaped {q} v lt = ground (
  arith,
  length-set (slots q) q.head no_item,
  next_head (bound q) q.head q.count,
  mod-lt (q.head + 1) {m = bound q} (omega arith),
)

-- An enqueue appends, and a dequeue takes the first item.
pub contents-pushed :
    {q : Squeue} (d : Item)
    → IsShaped q
    → q.count < bound q
    → contents (pushed q d) ≡ contents q ++ (d ∷ [])
contents-pushed {q} d v lt =
    let h = q.head in
    let n = q.count in
    let a = slots q in
    let e : q.count + 1 ≡ suc n = omega arith in
    ap (window no_item (bound q) (set a q.tail d) h) e
    ∙ ap (λ t. window no_item (bound q) (set a t d) h (suc n)) v.tail_at
    ∙ window_push no_item (bound q) a h n d (omega arith) lt (omega arith)

pub contents-popped :
    {q : Squeue} → IsShaped q → 0 < q.count → contents q ≡ oldest q ∷ contents (popped q)
contents-popped {q} v lt =
    let h = q.head in
    let n = q.count - 1 in
    let a = slots q in
    let e : q.count ≡ suc n = omega arith in
    ap (window no_item (bound q) a h) e
    ∙ window_first no_item (bound q) a h n (omega arith)
    ∙ ap (λ w. oldest q ∷ w)
        (sym (window_pop no_item (bound q) a h n no_item (omega arith) (omega arith)))

pub length-contents : (q : Squeue) → length (contents q) ≡ q.count
length-contents q = length-window no_item (bound q) (slots q) q.head q.count
