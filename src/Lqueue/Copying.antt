-- ===== src/Lqueue/Copying.antt =====
-- The enqueue functions of queue/list/lqueue.c that copy the item, over every outcome.
use mathlib.Core.Path.{fun_ext}
use cfunction.Prelude.{
  ℕ, ◌≡◌, ◌≢◌, ◌⊎◌, inl, inr, refl, ap, Option, none, some, List, [], ◌∷◌, ◌++◌, arith, ◌==◌,
  if◌then◌else◌, length, pos, negsuc, ℤ, Bool-cases,
}
use cfunction.Memory
use cfunction.Memory.{Heap}
use cfunction.Lqueue.Store.{Node, Nodes, Mem, Run, done, put, fill_block, free_node, load}
use cfunction.Lqueue.{
  Lqueue, Insert, insert_front, insert_back, new_node, enqueue_ext, enqueue_front_ext,
  enqueue_back_ext,
}
use cfunction.Lqueue.Ring.{Cell, first, last}
use cfunction.Lqueue.Insert.{IsQueue, Inserts, cell, insert_front-Inserts, insert_back-Inserts}
use cfunction.Lqueue.Enqueue.{
  IsFull, HasRoom, IsFull-cases, not_has, put_self, stored, IsQueue-stored,
}

-- What an `_ext` enqueue returns: without memory for either block the node, if it was had, is
-- given back; else the new item's buffer `fresh_data` holds a copy of the source.
abbrev pub EnqueuedExt :
    Run (ℤ × Option Lqueue)
    → (fresh fresh_data : ℕ) → Lqueue
    → Mem
    → List ℕ
    → List Cell
    → List Cell
    → Type 0
EnqueuedExt run fresh fresh_data q m src xs ys =
    (IsFull q xs × (run ≡ done (negsuc 0, some q) m))
    ⊎ (HasRoom q xs × ((fresh ≡ 0) ⊎ (fresh_data ≡ 0)) × (run ≡ done (negsuc 9, some q) m))
    ⊎ (HasRoom q xs
        × (q' : Lqueue) × (m' : Mem) × (run ≡ done (pos 0, some q') m')
        × IsQueue m'.nodes q' ys
        × (q'.size ≡ q.size)
        × ((p : ℕ) → m'.blocks p ≡ (if p == fresh_data then some src else m.blocks p)))

-- Filling a free address and giving it back changes nothing.
put_back : (h : Nodes) (p : ℕ) (n : Node) → h p ≡ none → put (put h p (some n)) p none ≡ h
unfolding put
put_back h p n free = fun_ext λ a. elim (Bool-cases (a == p)) [
  | inl e ↦ let i : a ≡ p = ground arith in ground (arith, ap h i)
  | inr e ↦ ground arith
]

free_new :
    (m : Mem) (p : ℕ) (n : Node) → p ≢ 0 → m.nodes p ≡ none → free_node p (stored m p n) ≡ done tt m
unfolding free_node load
free_new m p n nz free = ground (arith, put_self m.nodes p n, put_back m.nodes p n free)

written :
    (b : Heap) (p a : ℕ) (src : List ℕ)
    → Memory.write b p (some src) a ≡ (if a == p then some src else b a)
unfolding Memory.write
written b p a src = refl

abbrev filled : Mem → ℕ → List ℕ → Mem
filled m p src = record m { blocks = Memory.write m.blocks p (some src) }

module _ (insert : Insert) (q : Lqueue) (m : Mem) (xs ys : List Cell)
    (v : IsQueue m.nodes q xs) where
  enqueue_ext-EnqueuedExt :
      (fresh fresh_data pbuf : ℕ) (src : List ℕ)
      → m.nodes fresh ≡ none
      → pbuf ≢ 0
      → (fresh ≢ 0
          → Inserts insert q
              (stored (filled m fresh_data src) fresh (new_node fresh_data (pos (length src))))
              fresh
              ys)
      → EnqueuedExt
          (enqueue_ext insert fresh fresh_data (some q) pbuf src m)
          fresh
          fresh_data
          q
          m
          src
          xs
          ys
  unfolding enqueue_ext fill_block
  enqueue_ext-EnqueuedExt fresh fresh_data pbuf src free nz inserts =
      elim (IsFull-cases m.nodes q xs v) [
        | inl (e, full) ↦ inl (full, ground arith)
        | inr (e, room) ↦ elim (Bool-cases (fresh == 0)) [
          | inl no_node ↦ inr (inl (room, inl (ground arith), ground arith))
          | inr node ↦ elim (Bool-cases (fresh_data == 0)) [
            | inl no_data ↦ inr (
                inl (
                  room,
                  inr (ground arith),
                  ground (arith, free_new m fresh (new_node 0 (pos 0)) (ground arith) free),
                ))
            | inr memory ↦
                let live : fresh ≢ 0 = ground arith in
                let (q', g, runs, v', same) = inserts live in
                inr (
                  inr (
                    room,
                    q',
                    record (filled m fresh_data src) { nodes = g },
                    ground (arith, runs),
                    v',
                    same,
                    λ p. written m.blocks fresh_data p src,
                  ))
          ]
        ]
      ]

-- `lqueue_enqueue_front_ext`, with two blocks from free memory: the new item stands before `xs`,
-- and its buffer is a copy of the source. No other buffer changes.
pub enqueue_front_ext-EnqueuedExt :
    (q : Lqueue) (m : Mem) (xs : List Cell) (fresh fresh_data pbuf : ℕ) (src : List ℕ)
    → IsQueue m.nodes q xs
    → m.nodes fresh ≡ none
    → pbuf ≢ 0
    → EnqueuedExt
        (enqueue_front_ext fresh fresh_data (some q) pbuf src m)
        fresh
        fresh_data
        q
        m
        src
        xs
        (cell fresh fresh_data (pos (length src)) ∷ xs)
unfolding enqueue_front_ext
enqueue_front_ext-EnqueuedExt q m xs fresh fresh_data pbuf src v free nz =
    let len = pos (length src) in
    enqueue_ext-EnqueuedExt insert_front q m xs (cell fresh fresh_data len ∷ xs) v fresh fresh_data
      pbuf src free nz
      λ live.
        insert_front-Inserts q (stored (filled m fresh_data src) fresh (new_node fresh_data len))
          fresh fresh_data len xs (IsQueue-stored m q xs fresh (new_node fresh_data len) free v)
          live (not_has m.nodes fresh (last 0 xs) (first xs 0) xs free v.ring)
          (put_self m.nodes fresh _)

-- `lqueue_enqueue_back_ext`, likewise: the new item stands behind `xs`.
pub enqueue_back_ext-EnqueuedExt :
    (q : Lqueue) (m : Mem) (xs : List Cell) (fresh fresh_data pbuf : ℕ) (src : List ℕ)
    → IsQueue m.nodes q xs
    → m.nodes fresh ≡ none
    → pbuf ≢ 0
    → EnqueuedExt
        (enqueue_back_ext fresh fresh_data (some q) pbuf src m)
        fresh
        fresh_data
        q
        m
        src
        xs
        (xs ++ (cell fresh fresh_data (pos (length src)) ∷ []))
unfolding enqueue_back_ext
enqueue_back_ext-EnqueuedExt q m xs fresh fresh_data pbuf src v free nz =
    let len = pos (length src) in
    enqueue_ext-EnqueuedExt insert_back q m xs (xs ++ (cell fresh fresh_data len ∷ [])) v fresh
      fresh_data pbuf src free nz
      λ live.
        insert_back-Inserts q (stored (filled m fresh_data src) fresh (new_node fresh_data len))
          fresh fresh_data len xs (IsQueue-stored m q xs fresh (new_node fresh_data len) free v)
          live (not_has m.nodes fresh (last 0 xs) (first xs 0) xs free v.ring)
          (put_self m.nodes fresh _)
