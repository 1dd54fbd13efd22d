-- ===== src/Pthread/Items/Tests.antt =====
-- Runs of sem_pc.c, and the theorems at them.
use cfunction.Prelude.{
  replicate, ℕ, suc, ◌+◌, ◌≤◌, ◌<◌, ◌≡◌, refl, ◌⊎◌, Bool, true, false, Option, none, some, List, [],
  ◌∷◌, ◌++◌,
}
use cfunction.Pthread.Items.{
  nbuff, produced, consumed, storing, System, start, produce, consume, Step, producer_runs,
  consumer_runs, Reach, begin, later,
}
use cfunction.Pthread.Items.Counts.{
  p_in_section, c_in_section, produced_items, consumed_items, mismatches, countdown,
}
use cfunction.Pthread.Items.Safety.{Reach-exclusive, Reach-in_order}
use cfunction.Pthread.Items.Progress.{Reach-completes, IsComplete}

record Run (nitems : ℕ) : Type 0 where
  count : ℕ
  last : System
  reach : Reach nitems count last

-- A step of a thread, unless it is blocked.
advance :
    {nitems : ℕ} (r : Run nitems) (next : Option System)
    → ((t : System) → next ≡ some t → Step nitems r.last t)
    → Run nitems
advance r none step = r
advance r (some t) step = record {
  count = suc r.count;
  last = t;
  reach = later r.reach (step t refl);
}

-- One step of the thread that is named.
turn : {nitems : ℕ} → Run nitems → Bool → Run nitems
turn {nitems} r true = advance r (produce nitems r.last) (λ t e. producer_runs e)
turn {nitems} r false = advance r (consume nitems r.last) (λ t e. consumer_runs e)

run_from : {nitems : ℕ} → Run nitems → List Bool → Run nitems
run_from r [] = r
run_from r (who ∷ order) = run_from (turn r who) order

run : (nitems : ℕ) → List Bool → Run nitems
run nitems = run_from (record { count = 0; last = start; reach = begin })

-- The producer has made one item and stands before the write of the next.
abbrev ahead : Run 2
ahead = run 2 (replicate 11 true)

abbrev whole : Run 2
whole = run 2 (replicate 15 true ++ replicate 15 false)

ahead_at_store : (ahead.last.producer ≡ storing) × (ahead.last.made ≡ 1)
unfolding run run_from turn advance
ahead_at_store = (refl, refl)

whole_out : whole.last.out ≡ consumed 1 ∷ consumed 0 ∷ produced 1 ∷ produced 0 ∷ []
unfolding run run_from turn advance
whole_out = refl

Reach-exclusive_example :
    (ahead.last.shared.mutex + p_in_section ahead.last.producer + c_in_section ahead.last.consumer
      ≡ 1)
    × (ahead.last.shared.nempty + ahead.last.shared.nstored ≤ nbuff)
    × (ahead.last.used ≤ ahead.last.made)
    × (ahead.last.made ≤ ahead.last.used + nbuff)
Reach-exclusive_example = Reach-exclusive ahead.reach

Reach-in_order_example :
    (mismatches whole.last.out ≡ 0)
    × ((a : ℕ) × (b : ℕ) × (produced_items whole.last.out ≡ countdown a)
        × (consumed_items whole.last.out ≡ countdown b)
        × (b ≤ a)
        × (a ≤ b + nbuff))
Reach-in_order_example = Reach-in_order whole.reach

Reach-completes_example :
    ((whole.count < 30) × ((t : System) × Step 2 whole.last t))
    ⊎ ((whole.count ≡ 30) × IsComplete 2 whole.last)
Reach-completes_example = Reach-completes whole.reach
