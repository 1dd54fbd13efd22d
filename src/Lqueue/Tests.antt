-- ===== src/Lqueue/Tests.antt =====
-- Runs of the list queue, and its theorems at a concrete memory.
use cfunction.Prelude.{◌≡◌, refl, none, some, [], ◌∷◌, arith, pos, ◌==◌, if◌then◌else◌}
use cfunction.Lqueue.Store.{Nodes, Mem, done, fault, load}
use cfunction.Lqueue.{
  Lqueue, enqueue_front, dequeue_front, dequeue_back, destroy, data_destroy_ext, info,
}
use cfunction.Lqueue.Ring.{Cell, cell_node}
use cfunction.Lqueue.Insert.{IsQueue, cell}
use cfunction.Lqueue.Enqueue.{Enqueued, enqueue_front-Enqueued}
use cfunction.Lqueue.Dequeue.{dequeue_back_lem, dequeue_front_dangles}
use cfunction.Lqueue.Walk.{data_destroy_ext-KeepsNodes, destroy_faults}

abbrev first_cell : Cell
first_cell = cell 10 100 (pos 4)

abbrev second_cell : Cell
second_cell = cell 20 200 (pos 5)

-- Two nodes in a ring.
abbrev pair_nodes : Nodes
pair_nodes p =
    if p == 10
    then some (cell_node first_cell 20 20)
    else if p == 20
    then some (cell_node second_cell 10 10)
    else none

abbrev pair_mem : Mem
pair_mem = record { nodes = pair_nodes; blocks = λ p. none }

abbrev pair : Lqueue
pair = record { count = 2; size = pos 3; phead = 10 }

abbrev single_mem : Mem
single_mem = record {
  nodes = λ p. if p == 10 then some (cell_node first_cell 10 10) else none;
  blocks = λ p. none;
}

abbrev single : Lqueue
single = record { count = 1; size = pos 0; phead = 10 }

pair-IsQueue : IsQueue pair_nodes pair (first_cell ∷ second_cell ∷ [])
pair-IsQueue = record {
  head = refl;
  count = refl;
  ring = (refl, omega arith, refl, (refl, omega arith, refl, tt));
}

single-IsQueue : IsQueue single_mem.nodes single (first_cell ∷ [])
single-IsQueue = record { head = refl; count = refl; ring = (refl, omega arith, refl, tt) }

-- The pair prints its two items in order.
info-pair : info 2 (some pair) pair_mem ≡ done ((pos 4, 100) ∷ (pos 5, 200) ∷ []) pair_mem
unfolding info load
info-pair = refl

enqueue_front-Enqueued_example :
    Enqueued
      (enqueue_front 30 (some pair) 300 (pos 6) pair_mem)
      30
      pair
      pair_mem
      (first_cell ∷ second_cell ∷ [])
      (cell 30 300 (pos 6) ∷ first_cell ∷ second_cell ∷ [])
enqueue_front-Enqueued_example =
    enqueue_front-Enqueued pair pair_mem (first_cell ∷ second_cell ∷ []) 30 300 (pos 6) pair-IsQueue
      refl (omega arith)

dequeue_back_lem_example :
    (q : Lqueue) × (g : Nodes) × (dequeue_back (some pair) 1 2 pair_mem
      ≡ done
          (pos 0, record { buf = some 200; len = some (pos 5) }, some q)
          (record pair_mem { nodes = g }))
    × IsQueue g q (first_cell ∷ [])
    × (g 20 ≡ none)
    × (q.size ≡ pos 3)
dequeue_back_lem_example =
    dequeue_back_lem pair pair_mem (first_cell ∷ []) second_cell 1 2 pair-IsQueue (omega arith)
      (omega arith)

dequeue_front_dangles_example :
    (q : Lqueue) × (m : Mem) × (dequeue_front (some pair) 1 2 pair_mem
      ≡ done (pos 0, record { buf = none; len = some (pos 4) }, some q) m)
    × (q.phead ≡ 10)
    × (m.nodes 10 ≡ none)
    × IsQueue m.nodes (record q { phead = 20 }) (second_cell ∷ [])
    × (dequeue_front (some q) 1 2 m ≡ fault)
    × (dequeue_back (some q) 1 2 m ≡ fault)
dequeue_front_dangles_example =
    dequeue_front_dangles pair pair_mem first_cell second_cell [] 1 2 pair-IsQueue (omega arith)
      (omega arith)

destroy_faults_example : destroy 9 (some pair) (some data_destroy_ext) pair_mem ≡ fault
destroy_faults_example =
    destroy_faults pair pair_mem first_cell second_cell [] (some data_destroy_ext) 9 pair-IsQueue
      data_destroy_ext-KeepsNodes (omega arith)
