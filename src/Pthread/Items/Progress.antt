-- ===== src/Pthread/Items/Progress.antt =====
-- The threads never block each other for ever, and end after a known number of steps.
use cfunction.Prelude.{Option-cases, ℕ, ◌+◌, ◌*◌, ◌≤◌, ◌<◌, ◌≡◌, refl, ◌⊎◌, inl, inr, none, arith}
use cfunction.Pthread.Items.{
  nbuff, Produce, claiming, locking, done, Consume, taking, entering, finished, System, produce_at,
  produce, consume_at, consume, Step, producer_runs, consumer_runs, Reach, later,
}
use cfunction.Pthread.Items.Counts.{
  prints, shows, produced_items, consumed_items, countdown, p_rank, c_rank,
}
use cfunction.Pthread.Items.Invariant.{IsSound}
use cfunction.Pthread.Items.Steps.{Reach-IsSound}

-- Both loops have ended, the semaphores are as at the start, and every item has been consumed.
abbrev pub IsComplete : ℕ → System → Type 0
IsComplete nitems s =
    (s.producer ≡ done)
    × (s.consumer ≡ finished)
    × (s.shared.mutex ≡ 1)
    × (s.shared.nempty ≡ nbuff)
    × (s.shared.nstored ≡ 0)
    × (produced_items s.out ≡ countdown nitems)
    × (consumed_items s.out ≡ countdown nitems)

-- Why a thread cannot take a step.
produce_at-none :
    (nitems : ℕ) (s : System) (p : Produce)
    → produce_at nitems s p ≡ none
    → ((p ≡ claiming) × (s.shared.nempty ≡ 0))
      ⊎ (((p ≡ locking) × (s.shared.mutex ≡ 0)) ⊎ (p ≡ done))
produce_at-none nitems s p e = ground arith

consume_at-none :
    (nitems : ℕ) (s : System) (c : Consume)
    → consume_at nitems s c ≡ none
    → ((c ≡ taking) × (s.shared.nstored ≡ 0))
      ⊎ (((c ≡ entering) × (s.shared.mutex ≡ 0)) ⊎ (c ≡ finished))
consume_at-none nitems s c e = ground arith

stuck :
    (nitems k : ℕ) (s : System)
    → produce nitems s ≡ none
    → consume nitems s ≡ none
    → IsSound nitems k s
    → (s.producer ≡ done) × (s.consumer ≡ finished)
stuck nitems k s p c inv =
    ground
      (arith, inv.0, produce_at-none nitems s s.producer p, consume_at-none nitems s s.consumer c)

ended-IsComplete :
    (nitems k : ℕ) (s : System)
    → (s.producer ≡ done) × (s.consumer ≡ finished)
    → IsSound nitems k s
    → (k ≡ 14 * nitems + 2) × IsComplete nitems s
ended-IsComplete nitems k s (p, c) (balanced, (kept, told, shown)) =
    let made : s.made + prints s.producer ≡ nitems = ground (arith, balanced) in
    let used : s.used + shows s.consumer ≡ nitems = ground (arith, balanced) in
    (
      ground (arith, balanced),
      (
        p,
        c,
        ground (arith, balanced),
        ground (arith, balanced),
        ground (arith, balanced),
        rw (told, made) refl,
        rw (shown, used) refl,
      ),
    )

-- The rank of a thread grows by at most 7 in a round, and by 1 at the end.
steps_bound : {nitems k : ℕ} {s : System} → Reach nitems k s → k ≤ 14 * nitems + 2
steps_bound {nitems} {k} {s} r =
    let inv = (Reach-IsSound r).0 in
    let p : 7 * s.made + p_rank s.producer ≤ 7 * nitems + 1 = ground (arith, inv) in
    let c : 7 * s.used + c_rank s.consumer ≤ 7 * nitems + 1 = ground (arith, inv) in
    ground (arith, inv)

-- Whatever the order of the steps: no run is longer than 14 * nitems + 2 steps, a shorter one can
-- always go on with a step of one of the threads, and one of that length is complete: both loops
-- have ended, the semaphores have their first values again, and every item from 0 up to nitems has
-- been produced and consumed once, in order.
pub Reach-completes :
    {nitems k : ℕ} {s : System}
    → Reach nitems k s
    → ((k < 14 * nitems + 2) × ((t : System) × Step nitems s t))
      ⊎ ((k ≡ 14 * nitems + 2) × IsComplete nitems s)
Reach-completes {nitems} {k} {s} r = elim (Option-cases (produce nitems s)) [
  | inr (t, e) ↦ inl (steps_bound (later r (producer_runs e)), (t, producer_runs e))
  | inl p ↦ elim (Option-cases (consume nitems s)) [
    | inr (t, e) ↦ inl (steps_bound (later r (consumer_runs e)), (t, consumer_runs e))
    | inl c ↦
        let inv = Reach-IsSound r in
        inr (ended-IsComplete nitems k s (stuck nitems k s p c inv) inv)
  ]
]
