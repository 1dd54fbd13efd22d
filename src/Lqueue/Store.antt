-- ===== src/Lqueue/Store.antt =====
-- The memory that queue/list/lqueue.c works on, and commands that read and write it.
-- A `lqueue_data_t` is known by the address of its `node` field: `lqueue_container_of` goes from
-- the one to the other by a fixed offset.
use cfunction.Prelude.{ℕ, ℤ, Option, none, some, List, ◌==◌, if◌then◌else◌}
use cfunction.Memory
use cfunction.Memory.{Heap}

-- `lqueue_data_t` with its `list_node_t`
pub record Node : Type 0 where
  pub next : ℕ
  pub prev : ℕ
  pub pqdata : ℕ
  pub len : ℤ

abbrev pub Nodes : Type 0
Nodes = ℕ → Option Node

-- The list nodes, and the buffers that the `_ext` functions copy to.
pub record Mem : Type 0 where
  pub nodes : Nodes
  pub blocks : Heap

-- A command returns, or meets undefined behaviour, or its loop has run out of the fuel given.
pub data Run (A : Type 0) : Type 0 where
  done : A → Mem → Run A
  fault : Run A
  no_fuel : Run A

abbrev pub Cmd : Type 0 → Type 0
Cmd A = Mem → Run A

abbrev pub pure : {A : Type 0} → A → Cmd A
pure = done

abbrev pub bind : {A B : Type 0} → Run A → (A → Cmd B) → Run B
bind (done a m) k = k a m
bind fault k = fault
bind no_fuel k = no_fuel

infixl 5 ◌>>=◌ ◌>>◌
abbrev pub ◌>>=◌ : {A B : Type 0} → Cmd A → (A → Cmd B) → Cmd B
c >>= k = λ m. bind (c m) k

abbrev pub ◌>>◌ : {A B : Type 0} → Cmd A → Cmd B → Cmd B
c >> d = c >>= λ _. d

unfoldable pub put : Nodes → ℕ → Option Node → Nodes
put h p c a = if a == p then c else h a

-- `*p`: a fault at NULL and at an address that holds no node
unfoldable pub load : ℕ → Cmd Node
load p m = if p == 0 then fault else elim (m.nodes p) [ none ↦ fault | some n ↦ done n m ]

abbrev pub store : ℕ → Option Node → Cmd (Unit {0})
store p c m = done tt (record m { nodes = put m.nodes p c })

update_node : ℕ → (Node → Node) → Cmd (Unit {0})
unfolding load
update_node p f = do n ← load p; store p (some (f n))

-- `p->next = q`, `p->prev = q`
unfoldable pub set_next : ℕ → ℕ → Cmd (Unit {0})
unfolding update_node
set_next p q = update_node p (λ n. record n { next = q })

unfoldable pub set_prev : ℕ → ℕ → Cmd (Unit {0})
unfolding update_node
set_prev p q = update_node p (λ n. record n { prev = q })

-- `free(pdata)` of a node
unfoldable pub free_node : ℕ → Cmd (Unit {0})
free_node p = load p >> store p none

-- `free(pbuf)` of a buffer
unfoldable pub free_block : ℕ → Cmd (Unit {0})
unfolding Memory.free
free_block p m = elim (Memory.free m.blocks p) [
  | none ↦ fault
  | some b ↦ done tt (record m { blocks = b })
]

-- `memcpy` into the buffer that `malloc` returned
unfoldable pub fill_block : ℕ → List ℕ → Cmd (Unit {0})
unfolding Memory.write
fill_block p src m = done tt (record m { blocks = Memory.write m.blocks p (some src) })
