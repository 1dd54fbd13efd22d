-- ===== src/Pthread/Queue/Tests.antt =====
-- Runs of the two threads.
use cfunction.Prelude.{ℕ, ◌+◌, ◌*◌, ◌≤◌, ◌<◌, ◌≡◌, ◌≢◌, refl, true, [], ◌∷◌}
use cfunction.Pthread.Queue.{
  num, printing, showing, System, Step, producer_runs, consumer_runs, Reach, begin, later,
}
use cfunction.Pthread.Queue.Invariant.{values}
use cfunction.Pthread.Queue.Order.{Reach-fifo, Reach-race_free, Reach-moves, writes, reads}

abbrev rand : ℕ → ℕ
rand k = 7919 * k + 41

-- A round of the producer, its next wait and store, and the consumer behind its first wait.
abbrev both : System
both = record {
  queue = 42 ∷ 961 ∷ 0 ∷ 0 ∷ 0 ∷ [];
  blank_number = 3;
  product_number = 0;
  producer = printing;
  i = 1;
  made = 1;
  produced = 42 ∷ [];
  consumer = showing;
  j = 0;
  used = 0;
  consumed = [];
}

both_reached : Reach rand both
both_reached =
    later
      (later
        (later
          (later
            (later (later (later begin (producer_runs refl)) (producer_runs refl))
              (producer_runs refl))
            (producer_runs refl))
          (producer_runs refl))
        (producer_runs refl))
      (consumer_runs refl)

Reach-fifo_example :
    (a : ℕ) × (b : ℕ) × (both.produced ≡ values rand a)
    × (both.consumed ≡ values rand b)
    × (b ≤ a)
    × (a ≤ b + num)
Reach-fifo_example = Reach-fifo both_reached

Reach-race_free_example :
    (both.i < num)
    × (both.j < num)
    × (writes both.producer ≡ true → reads both.consumer ≡ true → both.i ≢ both.j)
Reach-race_free_example = Reach-race_free both_reached

Reach-moves_example : (t : System) × Step rand both t
Reach-moves_example = Reach-moves both_reached
