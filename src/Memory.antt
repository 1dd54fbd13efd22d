-- ===== src/Memory.antt =====
-- What the queues take from `malloc`, `memcpy` and `free`: blocks of bytes at addresses.
-- The address that `malloc` returns is an argument of the operation that calls it, 0 for NULL.
use cfunction.Prelude.{ℕ, Option, none, some, List, ◌==◌, if◌then◌else◌}

abbrev pub Heap : Type 0
Heap = ℕ → Option (List ℕ)

unfoldable pub write : Heap → ℕ → Option (List ℕ) → Heap
write h p b q = if q == p then b else h q

-- `free`: nothing at NULL, undefined at an address that is not a live block
unfoldable pub free : Heap → ℕ → Option Heap
unfolding write
free h p = if p == 0 then some h else elim (h p) [ none ↦ none | some _ ↦ some (write h p none) ]
