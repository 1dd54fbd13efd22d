-- ===== src/Pthread.antt =====
-- pthread/: threads as interleavings of steps. Here the calls on a semaphore that its programs share.
use cfunction.Prelude.{
  ltb, leb, ◌==◌, if◌then◌else◌, ltb→lt, lt→ltb, ==_iff, ==_refl, ==_ne, Bool-cases, Option-cases,
  codes, length, get_elem?, get_or, set, take, drop, replicate, length-append, length-replicate,
  length-set, get_elem?-append, drop-append, take-append, set-append, get_elem?-eq-get_or,
  get_or-set_self, get_or-set_ne, All, All-append, same, holds_below, holds_at, ℤ, pos, negsuc,
  pos_part, to_size, int_max, eq_int, sub_ℕ, ◌>>=◌, ℕ, zero, suc, ◌+◌, ◌-◌, ◌*◌, ◌/◌, ◌%◌, ◌^◌, ◌≤◌,
  ◌<◌, ◌≡◌, refl, sym, ap, ap₂, ◌∙◌, ◌≢◌, ◌↔◌, ◌⊎◌, inl, inr, Bool, true, false, not, ◌&&◌, ◌||◌,
  Option, none, some, List, [], ◌∷◌, ◌++◌, map, append_assoc, append-nil, arith,
}
mod Items
mod Queue

-- `sem_wait` on a semaphore of this value: `none` blocks the caller.
abbrev pub sem_wait : ℕ → Option ℕ
sem_wait zero = none
sem_wait (suc value) = some value

-- `sem_post`; no program here comes near SEM_VALUE_MAX.
abbrev pub sem_post : ℕ → ℕ
sem_post value = suc value
