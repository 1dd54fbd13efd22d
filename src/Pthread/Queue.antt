-- ===== src/Pthread/Queue.antt =====
-- pthread/sem/base/sem.c: a producer and a consumer without end, over a ring of NUM places and two
-- semaphores. A step of a thread is one call or one access of the ring; the index i, which only its
-- own thread uses, is stepped together with the last call of the body.
use cfunction.Prelude.{
  ℕ, ◌+◌, ◌%◌, ◌≡◌, Option, none, some, List, [], ◌∷◌, set, get_or, replicate, ◌>>=◌, suc,
}
use cfunction.Pthread.{sem_wait, sem_post}
mod Invariant
mod Order
mod Tests

-- `NUM`
abbrev pub num : ℕ
num = 5

-- Where `producer` stands.
pub data Producer : Type 0 where
  blank_wait : Producer  -- sem_wait(&blank_number)
  storing : Producer
  printing : Producer
  product_post : Producer  -- sem_post(&product_number)

-- Where `consumer` stands.
pub data Consumer : Type 0 where
  product_wait : Consumer  -- sem_wait(&product_number)
  showing : Consumer  -- the printf
  clearing : Consumer
  blank_post : Consumer  -- sem_post(&blank_number)

-- `made` and `used` are the rounds of the two loops so far, which the source does not keep; `produced`
-- and `consumed` are the numbers that the threads have printed, the newest first.
pub record System : Type 0 where
  pub queue : List ℕ
  pub blank_number : ℕ
  pub product_number : ℕ
  pub producer : Producer
  pub i : ℕ
  pub made : ℕ
  pub produced : List ℕ
  pub consumer : Consumer
  pub j : ℕ  -- i of `consumer`
  pub used : ℕ
  pub consumed : List ℕ

-- `main`, when both threads have been created
abbrev pub start : System
start = record {
  queue = replicate num 0;
  blank_number = num;
  product_number = 0;
  producer = blank_wait;
  i = 0;
  made = 0;
  produced = [];
  consumer = product_wait;
  j = 0;
  used = 0;
  consumed = [];
}

-- `rand k` is what the call of `rand` in round k of `producer` returns.
module _ (rand : ℕ → ℕ) where
  -- `rand() % 1000 + 1`
  abbrev pub value : ℕ → ℕ
  value k = rand k % 1000 + 1

  -- One step of `producer`; `none` while it is blocked.
  abbrev pub producer_at : System → Producer → Option System
  producer_at s blank_wait =
      sem_wait s.blank_number >>= λ n. some (record s { blank_number = n; producer = storing })
  producer_at s storing =
      some (record s { queue = set s.queue s.i (value s.made); producer = printing })
  producer_at s printing =
      some (record s { produced = get_or s.queue s.i 0 ∷ s.produced; producer = product_post })
  producer_at s product_post = some (record s {
    product_number = sem_post s.product_number;
    producer = blank_wait;
    i = (s.i + 1) % num;
    made = s.made + 1;
  })

  -- One step of `consumer`.
  abbrev pub consumer_at : System → Consumer → Option System
  consumer_at s product_wait =
      sem_wait s.product_number >>= λ n. some (record s { product_number = n; consumer = showing })
  consumer_at s showing =
      some (record s { consumed = get_or s.queue s.j 0 ∷ s.consumed; consumer = clearing })
  consumer_at s clearing = some (record s { queue = set s.queue s.j 0; consumer = blank_post })
  consumer_at s blank_post = some (record s {
    blank_number = sem_post s.blank_number;
    consumer = product_wait;
    j = (s.j + 1) % num;
    used = s.used + 1;
  })

  -- The threads run in any order, one step of either at a time.
  pub data Step (s : System) (t : System) : Type 0 where
    producer_runs : producer_at s s.producer ≡ some t → Step s t
    consumer_runs : consumer_at s s.consumer ≡ some t → Step s t

  pub data Reach : System → Type 0 where
    begin : Reach start
    later : {s t : System} → Reach s → Step s t → Reach t
