-- ===== src/Pthread/Items/Invariant.antt =====
-- The invariant of sem_pc.c.
use cfunction.Prelude.{length, ℕ, ◌+◌, ◌*◌, ◌≤◌, ◌<◌, ◌≡◌, refl, Option, none, some, arith}
use cfunction.Pthread.Items.{nbuff, System, start, item_at}
use cfunction.Pthread.Items.Counts.{
  p_rank, c_rank, claims, stores, prints, p_in_section, takes, reports, shows, c_in_section,
  p_inside, p_behind, c_inside, c_behind, produced_items, consumed_items, mismatches, countdown,
}

-- The values of the semaphores, and how far the loops have come in a number of steps.
abbrev pub IsBalanced : ℕ → ℕ → System → Type 0
IsBalanced nitems steps s =
    (length s.shared.buff ≡ nbuff)
    × (s.shared.mutex + p_in_section s.producer + c_in_section s.consumer ≡ 1)
    × (s.shared.nempty + s.made + claims s.producer ≡ nbuff + s.used)
    × (s.shared.nstored + s.used + takes s.consumer ≡ s.made)
    × (s.made + p_inside s.producer ≤ nitems)
    × (nitems * p_behind s.producer ≤ s.made)
    × (s.used + c_inside s.consumer ≤ nitems)
    × (nitems * c_behind s.consumer ≤ s.used)
    × (reports s.consumer ≡ 0)
    × (mismatches s.out ≡ 0)
    × (steps ≡ 7 * s.made + p_rank s.producer + 7 * s.used + c_rank s.consumer)

-- The ring holds every item that has been stored and is not yet given back, and the lines are those
-- of the items so far.
abbrev pub Remembers : System → Type 0
Remembers s =
    ((k : ℕ) → s.used ≤ k → k < s.made + stores s.producer → item_at s.shared.buff k ≡ k)
    × (produced_items s.out ≡ countdown (s.made + prints s.producer))
    × (consumed_items s.out ≡ countdown (s.used + shows s.consumer))

abbrev pub IsSound : ℕ → ℕ → System → Type 0
IsSound nitems steps s = IsBalanced nitems steps s × Remembers s

abbrev pub Kept : ℕ → ℕ → Option System → Type 0
Kept nitems steps none = Unit
Kept nitems steps (some s) = IsSound nitems steps s

pub start-IsSound : (nitems : ℕ) → IsSound nitems 0 start
start-IsSound nitems = (ground arith, (λ k lo hi. ground arith, refl, refl))
