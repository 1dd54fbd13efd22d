-- ===== src/Lqueue/Enqueue.antt =====
-- The enqueue functions of queue/list/lqueue.c, over every outcome: full, no memory, inserted.
use cfunction.Prelude.{
  ℕ, ◌<◌, ◌≤◌, ◌≡◌, ◌≢◌, ◌⊎◌, inl, inr, refl, ap, true, false, ◌&&◌, Option, none, some, List, [],
  ◌∷◌, ◌++◌, arith, ◌==◌, length, pos, negsuc, ltb, leb, pos_part, ℤ, Bool-cases,
}
use cfunction.Lqueue.Store.{Node, Nodes, Mem, Run, done, put}
use cfunction.Lqueue.{
  Lqueue, Insert, insert_front, insert_back, new_node, enqueue, enqueue_front, enqueue_back,
  is_full,
}
use cfunction.Lqueue.Ring.{Cell, Dll, first, last, has, frame-put}
use cfunction.Lqueue.Insert.{IsQueue, Inserts, cell, insert_front-Inserts, insert_back-Inserts}

-- A queue of positive size that holds as many items.
abbrev pub IsFull : Lqueue → List Cell → Type 0
IsFull q xs = (0 < pos_part q.size) × (pos_part q.size ≤ length xs)

abbrev pub HasRoom : Lqueue → List Cell → Type 0
HasRoom q xs = (pos_part q.size ≡ 0) ⊎ (length xs < pos_part q.size)

pub IsFull-cases :
    (h : Nodes) (q : Lqueue) (xs : List Cell)
    → IsQueue h q xs
    → ((is_full q ≡ true) × IsFull q xs) ⊎ ((is_full q ≡ false) × HasRoom q xs)
unfolding is_full
IsFull-cases h q xs v =
    elim (Bool-cases (ltb 0 (pos_part q.size) && leb (pos_part q.size) q.count)) [
      | inl full ↦ inl (full, ground (arith, v.count))
      | inr room ↦ inr (
        room,
        elim (Bool-cases (ltb 0 (pos_part q.size))) [
          | inl positive ↦ inr (ground (arith, v.count))
          | inr unbounded ↦ inl (ground arith)
        ],
      )
    ]

-- A free address is no node of the queue.
pub not_has :
    (h : Nodes) (p before after : ℕ) (xs : List Cell)
    → h p ≡ none
    → Dll h before xs after
    → has p xs ≡ false
not_has h p before after [] free d = refl
not_has h p before after (c ∷ xs) free (e, nz, out, d) =
    let apart : p ≢ c.addr = λ i. cc (free, e, ap h i) in
    ground (arith, apart, not_has h p c.addr after xs free d)

pub put_self : (h : Nodes) (p : ℕ) (n : Node) → put h p (some n) p ≡ some n
unfolding put
put_self h p n = ground arith

abbrev pub stored : Mem → ℕ → Node → Mem
stored m p n = record m { nodes = put m.nodes p (some n) }

-- A node filled in at a free address leaves the queue as it is.
pub IsQueue-stored :
    (m : Mem) (q : Lqueue) (xs : List Cell) (p : ℕ) (n : Node)
    → m.nodes p ≡ none
    → IsQueue m.nodes q xs
    → IsQueue (stored m p n).nodes q xs
IsQueue-stored m q xs p n free v = record {
  head = v.head;
  count = v.count;
  ring =
      frame-put m.nodes (last 0 xs) (first xs 0) p (some n) xs
        (not_has m.nodes p (last 0 xs) (first xs 0) xs free v.ring) v.ring;
}

-- What an enqueue of `pbuf` returns for a queue of items `xs`, if inserting makes them `ys`.
abbrev pub Enqueued : Run (ℤ × Option Lqueue) → ℕ → Lqueue → Mem → List Cell → List Cell → Type 0
Enqueued run fresh q m xs ys =
    (IsFull q xs × (run ≡ done (negsuc 0, some q) m))
    ⊎ (HasRoom q xs × (fresh ≡ 0) × (run ≡ done (negsuc 9, some q) m))
    ⊎ (HasRoom q xs
        × (q' : Lqueue) × (g : Nodes) × (run ≡ done (pos 0, some q') (record m { nodes = g }))
        × IsQueue g q' ys
        × (q'.size ≡ q.size))

module _ (insert : Insert) (q : Lqueue) (m : Mem) (xs ys : List Cell)
    (v : IsQueue m.nodes q xs) where
  enqueue-Enqueued :
      (fresh pbuf : ℕ) (len : ℤ)
      → pbuf ≢ 0
      → (fresh ≢ 0 → Inserts insert q (stored m fresh (new_node pbuf len)) fresh ys)
      → Enqueued (enqueue insert fresh (some q) pbuf len m) fresh q m xs ys
  unfolding enqueue
  enqueue-Enqueued fresh pbuf len nz inserts = elim (IsFull-cases m.nodes q xs v) [
    | inl (e, full) ↦ inl (full, ground arith)
    | inr (e, room) ↦ elim (Bool-cases (fresh == 0)) [
      | inl no_memory ↦ inr (inl (room, ground arith, ground arith))
      | inr memory ↦
          let live : fresh ≢ 0 = ground arith in
          let (q', g, runs, v', same) = inserts live in
          inr (inr (room, q', g, ground (arith, runs), v', same))
    ]
  ]

-- `lqueue_enqueue_front` on a queue of items `xs`, for a buffer that is not NULL and a node that
-- `malloc` takes from free memory: on a full queue it returns -1 and changes nothing; without
-- memory it returns -10 and changes nothing; else it returns 0, and the queue is well formed and
-- holds the new item before `xs`.
pub enqueue_front-Enqueued :
    (q : Lqueue) (m : Mem) (xs : List Cell) (fresh pbuf : ℕ) (len : ℤ)
    → IsQueue m.nodes q xs
    → m.nodes fresh ≡ none
    → pbuf ≢ 0
    → Enqueued (enqueue_front fresh (some q) pbuf len m) fresh q m xs (cell fresh pbuf len ∷ xs)
unfolding enqueue_front
enqueue_front-Enqueued q m xs fresh pbuf len v free nz =
    enqueue-Enqueued insert_front q m xs (cell fresh pbuf len ∷ xs) v fresh pbuf len nz λ live.
      insert_front-Inserts q (stored m fresh (new_node pbuf len)) fresh pbuf len xs
        (IsQueue-stored m q xs fresh (new_node pbuf len) free v) live
        (not_has m.nodes fresh (last 0 xs) (first xs 0) xs free v.ring) (put_self m.nodes fresh _)

-- `lqueue_enqueue_back`, likewise: the new item stands behind `xs`.
pub enqueue_back-Enqueued :
    (q : Lqueue) (m : Mem) (xs : List Cell) (fresh pbuf : ℕ) (len : ℤ)
    → IsQueue m.nodes q xs
    → m.nodes fresh ≡ none
    → pbuf ≢ 0
    → Enqueued
        (enqueue_back fresh (some q) pbuf len m)
        fresh
        q
        m
        xs
        (xs ++ (cell fresh pbuf len ∷ []))
unfolding enqueue_back
enqueue_back-Enqueued q m xs fresh pbuf len v free nz =
    enqueue-Enqueued insert_back q m xs (xs ++ (cell fresh pbuf len ∷ [])) v fresh pbuf len nz
      λ live.
        insert_back-Inserts q (stored m fresh (new_node pbuf len)) fresh pbuf len xs
          (IsQueue-stored m q xs fresh (new_node pbuf len) free v) live
          (not_has m.nodes fresh (last 0 xs) (first xs 0) xs free v.ring) (put_self m.nodes fresh _)
