-- ===== src/Pthread/Items/Safety.antt =====
-- What the threads never do, and what they print.
use cfunction.Prelude.{ℕ, ◌+◌, ◌%◌, ◌≤◌, ◌<◌, ◌≡◌, refl, ◌≢◌, arith}
use cfunction.Pthread.Items.{nbuff, Produce, storing, Consume, System, item_at, Reach}
use cfunction.Pthread.Items.Counts.{
  claims, prints, p_in_section, takes, shows, c_in_section, produced_items, consumed_items,
  mismatches, countdown,
}
use cfunction.Pthread.Items.Steps.{Reach-IsSound}

-- In every reachable state: at most one of the threads is between its wait and its post on the
-- mutex, whose value is 0 then and 1 otherwise; the two counting semaphores together are never above
-- NBUFF; the producer is at most NBUFF items ahead of the consumer, and the consumer never ahead.
pub Reach-exclusive :
    {nitems k : ℕ} {s : System}
    → Reach nitems k s
    → (s.shared.mutex + p_in_section s.producer + c_in_section s.consumer ≡ 1)
      × (s.shared.nempty + s.shared.nstored ≤ nbuff)
      × (s.used ≤ s.made)
      × (s.made ≤ s.used + nbuff)
Reach-exclusive r = ground (arith, (Reach-IsSound r).0)

-- In a reachable state in which `produce` is before its write: every item that has been stored and
-- not given back by `consume` is in its place of the ring, and the write goes to another place.
pub Reach-no_overwrite :
    {nitems k : ℕ} {s : System}
    → Reach nitems k s
    → s.producer ≡ storing
    → (item : ℕ) → s.used ≤ item
    → item < s.made
    → (item_at s.shared.buff item ≡ item) × (s.made % nbuff ≢ item % nbuff)
Reach-no_overwrite {s} r at_store item lo hi =
    let inv = Reach-IsSound r in
    let claimed : claims s.producer ≡ 1 = rw at_store refl in
    (inv.1.0 item lo (omega arith), ground (arith, inv.0))

-- In every reachable state no line reports a mismatch; the items printed as produced, and those
-- printed as consumed, are each the numbers from 0 on, in order and without a gap or a repetition;
-- the latter are no more than the former, and at most NBUFF fewer.
pub Reach-in_order :
    {nitems k : ℕ} {s : System}
    → Reach nitems k s
    → (mismatches s.out ≡ 0)
      × ((a : ℕ) × (b : ℕ) × (produced_items s.out ≡ countdown a)
          × (consumed_items s.out ≡ countdown b)
          × (b ≤ a)
          × (a ≤ b + nbuff))
Reach-in_order {s} r =
    let inv = Reach-IsSound r in
    let prints_late = prints-claims s.producer in
    let shows_late = shows-takes s.consumer in
    (ground (arith, inv.0), (_, _, inv.1.1, inv.1.2, ground (arith, inv.0), ground (arith, inv.0)))
  where
    prints-claims : (p : Produce) → prints p ≤ claims p
    prints-claims p = ground arith

    shows-takes : (c : Consume) → shows c ≤ takes c
    shows-takes c = ground arith
