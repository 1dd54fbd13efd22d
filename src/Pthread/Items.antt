-- ===== src/Pthread/Items.antt =====
-- pthread/sem/product_consumer/sem_pc.c: one producer and one consumer of `nitems` items over a
-- ring of NBUFF places. A step of a thread is one call or one access of the shared struct; the
-- counter i, which only its own thread uses, is stepped together with the last call of the body.
use cfunction.Prelude.{
  ltb, leb, ◌==◌, if◌then◌else◌, ltb→lt, lt→ltb, ==_iff, ==_refl, ==_ne, Bool-cases, Option-cases,
  codes, length, get_elem?, get_or, set, take, drop, replicate, length-append, length-replicate,
  length-set, get_elem?-append, drop-append, take-append, set-append, get_elem?-eq-get_or,
  get_or-set_self, get_or-set_ne, All, All-append, same, holds_below, holds_at, ℤ, pos, negsuc,
  pos_part, to_size, int_max, eq_int, sub_ℕ, ◌>>=◌, ℕ, zero, suc, ◌+◌, ◌-◌, ◌*◌, ◌/◌, ◌%◌, ◌^◌, ◌≤◌,
  ◌<◌, ◌≡◌, refl, sym, ap, ap₂, ◌∙◌, ◌≢◌, ◌↔◌, ◌⊎◌, inl, inr, Bool, true, false, not, ◌&&◌, ◌||◌,
  Option, none, some, List, [], ◌∷◌, ◌++◌, map, append_assoc, append-nil, arith,
}
use cfunction.Pthread.{sem_wait, sem_post}
mod Counts
mod Invariant
mod Steps
mod Safety
mod Progress
mod Tests

abbrev pub nbuff : ℕ
nbuff = 10

-- `shared`
pub record Shared : Type 0 where
  pub buff : List ℕ
  pub mutex : ℕ
  pub nempty : ℕ
  pub nstored : ℕ

-- The lines that the loops print, for an item.
pub data Line : Type 0 where
  produced : (i : ℕ) → Line
  mismatch : (i : ℕ) (value : ℕ) → Line
  consumed : (i : ℕ) → Line

-- Where `produce` stands: before the test of its loop, before each call or access of the body, or
-- behind the loop.
pub data Produce : Type 0 where
  starting : Produce
  claiming : Produce  -- sem_wait(shared.nempty)
  locking : Produce
  making : Produce  -- the printf
  storing : Produce
  unlocking : Produce
  offering : Produce  -- sem_post(shared.nstored)
  done : Produce

-- Where `consume` stands.
pub data Consume : Type 0 where
  looking : Consume  -- the test of the loop
  taking : Consume  -- sem_wait(shared.nstored)
  entering : Consume
  checking : Consume
  reporting : Consume  -- the printf under the if
  using : Consume  -- the last printf
  leaving : Consume
  freeing : Consume  -- sem_post(shared.nempty)
  finished : Consume

pub record System : Type 0 where
  pub shared : Shared
  pub out : List Line  -- the newest line first
  pub producer : Produce
  pub made : ℕ  -- i of `produce`
  pub consumer : Consume
  pub used : ℕ  -- i of `consume`

-- `main`, when both threads have been created
abbrev pub start : System
start = record {
  shared = record { buff = replicate nbuff 0; mutex = 1; nempty = nbuff; nstored = 0 };
  out = [];
  producer = starting;
  made = 0;
  consumer = looking;
  used = 0;
}

-- One step of `produce`; `none` while it is blocked and when it has returned.
abbrev pub produce_at : ℕ → System → Produce → Option System
produce_at nitems s starting =
    some (record s { producer = if ltb s.made nitems then claiming else done })
produce_at nitems s claiming = sem_wait s.shared.nempty >>= λ value.
    some (record s { shared = record s.shared { nempty = value }; producer = locking })
produce_at nitems s locking = sem_wait s.shared.mutex >>= λ value.
    some (record s { shared = record s.shared { mutex = value }; producer = making })
produce_at nitems s making = some (record s { out = produced s.made ∷ s.out; producer = storing })
produce_at nitems s storing = some (record s {
  shared = record s.shared { buff = set s.shared.buff (s.made % nbuff) s.made };
  producer = unlocking;
})
produce_at nitems s unlocking =
    some (record s {
      shared = record s.shared { mutex = sem_post s.shared.mutex };
      producer = offering;
    })
produce_at nitems s offering = some (record s {
  shared = record s.shared { nstored = sem_post s.shared.nstored };
  producer = starting;
  made = s.made + 1;
})
produce_at nitems s done = none

abbrev pub produce : ℕ → System → Option System
produce nitems s = produce_at nitems s s.producer

-- `shared.buff[i % NBUFF]`
abbrev pub item_at : List ℕ → ℕ → ℕ
item_at buff i = get_or buff (i % nbuff) 0

-- One step of `consume`.
abbrev pub consume_at : ℕ → System → Consume → Option System
consume_at nitems s looking =
    some (record s { consumer = if ltb s.used nitems then taking else finished })
consume_at nitems s taking = sem_wait s.shared.nstored >>= λ value.
    some (record s { shared = record s.shared { nstored = value }; consumer = entering })
consume_at nitems s entering = sem_wait s.shared.mutex >>= λ value.
    some (record s { shared = record s.shared { mutex = value }; consumer = checking })
consume_at nitems s checking =
    some
      (record s { consumer = if item_at s.shared.buff s.used == s.used then using else reporting })
consume_at nitems s reporting =
    some
      (record s { out = mismatch s.used (item_at s.shared.buff s.used) ∷ s.out; consumer = using })
consume_at nitems s using = some (record s { out = consumed s.used ∷ s.out; consumer = leaving })
consume_at nitems s leaving =
    some (record s {
      shared = record s.shared { mutex = sem_post s.shared.mutex };
      consumer = freeing;
    })
consume_at nitems s freeing = some (record s {
  shared = record s.shared { nempty = sem_post s.shared.nempty };
  consumer = looking;
  used = s.used + 1;
})
consume_at nitems s finished = none

abbrev pub consume : ℕ → System → Option System
consume nitems s = consume_at nitems s s.consumer

-- The threads run in any order, one step of either at a time.
pub data Step (nitems : ℕ) (s : System) (t : System) : Type 0 where
  producer_runs : produce nitems s ≡ some t → Step nitems s t
  consumer_runs : consume nitems s ≡ some t → Step nitems s t

-- The states after a number of steps.
pub data Reach (nitems : ℕ) : ℕ → System → Type 0 where
  begin : Reach nitems 0 start
  later : {k : ℕ} {s t : System} → Reach nitems k s → Step nitems s t → Reach nitems (suc k) t
