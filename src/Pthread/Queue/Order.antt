-- ===== src/Pthread/Queue/Order.antt =====
-- What the two threads of sem.c print, where they are in the ring, and that one of them can go on.
use cfunction.Prelude.{ℕ, zero, suc, ◌+◌, ◌≤◌, ◌<◌, ◌≡◌, ◌≢◌, refl, Bool, true, false, arith, List}
use cfunction.Pthread.Queue.{
  num, Producer, blank_wait, storing, printing, product_post, Consumer, product_wait, showing,
  clearing, blank_post, System, Step, producer_runs, consumer_runs, Reach,
}
use cfunction.Pthread.Queue.Invariant.{claims, prints, takes, shows, values, system, Reach-IsSound}

-- In every reachable state the numbers printed as produced, and those printed as consumed, are each
-- the first values of rand, in order; the latter are no more than the former, and at most NUM fewer.
pub Reach-fifo :
    {rand : ℕ → ℕ} {s : System}
    → Reach rand s
    → (a : ℕ) × (b : ℕ) × (s.produced ≡ values rand a)
      × (s.consumed ≡ values rand b)
      × (b ≤ a)
      × (a ≤ b + num)
Reach-fifo {rand} {s} r =
    let inv = Reach-IsSound rand r in
    let prints_late = prints-claims s.producer in
    let shows_late = shows-takes s.consumer in
    (_, _, inv.1.1, inv.1.2, ground (arith, inv.0), ground (arith, inv.0))
  where
    prints-claims : (p : Producer) → prints p ≤ claims p
    prints-claims p = ground arith

    shows-takes : (c : Consumer) → shows c ≤ takes c
    shows-takes c = ground arith

-- Before an access of the ring
abbrev pub writes : Producer → Bool
writes storing = true
writes printing = true
writes _ = false

abbrev pub reads : Consumer → Bool
reads showing = true
reads clearing = true
reads _ = false

claims-writes : (p : Producer) → writes p ≡ true → claims p ≡ 1
claims-writes p h = ground arith

takes-reads : (c : Consumer) → reads c ≡ true → takes c ≡ 1
takes-reads c h = ground arith

-- In every reachable state the indices of both threads lie in the ring, and while both threads are
-- before an access of the ring they are at different places.
pub Reach-race_free :
    {rand : ℕ → ℕ} {s : System}
    → Reach rand s
    → (s.i < num) × (s.j < num) × (writes s.producer ≡ true → reads s.consumer ≡ true → s.i ≢ s.j)
Reach-race_free {rand} {s} r =
    let inv = (Reach-IsSound rand r).0 in
    (
      ground (arith, inv),
      ground (arith, inv),
      λ w v.
          let p = claims-writes s.producer w in
          let c = takes-reads s.consumer v in ground (arith, inv, p, c),
    )

moves :
    (rand : ℕ → ℕ) (q : List ℕ) (b n : ℕ) (p : Producer) (i made : ℕ) (out : List ℕ) (c : Consumer)
    (j used : ℕ) (seen : List ℕ)
    → b + made + claims p ≡ num + used
    → n + used + takes c ≡ made
    → let s = system q b n p i made out c j used seen in (t : System) × Step rand s t
moves rand q b n storing i made out c j used seen h g = (_, producer_runs refl)
moves rand q b n printing i made out c j used seen h g = (_, producer_runs refl)
moves rand q b n product_post i made out c j used seen h g = (_, producer_runs refl)
moves rand q (suc b) n blank_wait i made out c j used seen h g = (_, producer_runs refl)
moves rand q zero n blank_wait i made out showing j used seen h g = (_, consumer_runs refl)
moves rand q zero n blank_wait i made out clearing j used seen h g = (_, consumer_runs refl)
moves rand q zero n blank_wait i made out blank_post j used seen h g = (_, consumer_runs refl)
moves rand q zero (suc n) blank_wait i made out product_wait j used seen h g =
    (_, consumer_runs refl)
moves rand q zero zero blank_wait i made out product_wait j used seen h g =
    absurd (omega (arith, h, g))

-- In every reachable state one of the threads can make a step: they never block each other for ever.
pub Reach-moves : {rand : ℕ → ℕ} {s : System} → Reach rand s → (t : System) × Step rand s t
Reach-moves {rand} {s} r =
    let inv = (Reach-IsSound rand r).0 in
    moves rand s.queue s.blank_number s.product_number s.producer s.i s.made s.produced s.consumer
      s.j s.used s.consumed inv.1 inv.2
