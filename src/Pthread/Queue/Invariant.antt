-- ===== src/Pthread/Queue/Invariant.antt =====
-- The invariant of sem.c, and that every step of either thread keeps it.
use mathlib.Core.Path.{subst}
use cfunction.Prelude.{
  ◌==◌, Bool-cases, length, set, get_or, length-set, get_or-set_self, get_or-set_ne, ℕ, zero, suc,
  ◌+◌, ◌%◌, ◌≤◌, ◌<◌, ◌≡◌, refl, sym, ◌∙◌, ◌≢◌, inl, inr, List, [], ◌∷◌, arith, Option, none, some,
}
use cfunction.Pthread.Queue.{
  num, Producer, blank_wait, storing, printing, product_post, Consumer, product_wait, showing,
  clearing, blank_post, System, start, value, producer_at, consumer_at, Step, producer_runs,
  consumer_runs, Reach, begin, later,
}

-- Between the two calls on semaphores of a round; behind the write, and behind the printf.
abbrev pub claims : Producer → ℕ
claims blank_wait = 0
claims _ = 1

abbrev pub stores : Producer → ℕ
stores printing = 1
stores product_post = 1
stores _ = 0

abbrev pub prints : Producer → ℕ
prints product_post = 1
prints _ = 0

abbrev pub takes : Consumer → ℕ
takes product_wait = 0
takes _ = 1

abbrev pub shows : Consumer → ℕ
shows clearing = 1
shows blank_post = 1
shows _ = 0

abbrev pub clears : Consumer → ℕ
clears blank_post = 1
clears _ = 0

abbrev pub IsBalanced : System → Type 0
IsBalanced s =
    (length s.queue ≡ num)
    × (s.blank_number + s.made + claims s.producer ≡ num + s.used)
    × (s.product_number + s.used + takes s.consumer ≡ s.made)
    × (s.i ≡ s.made % num)
    × (s.j ≡ s.used % num)

abbrev pub system : List ℕ → ℕ → ℕ → Producer → ℕ → ℕ → List ℕ → Consumer → ℕ → ℕ → List ℕ → System
system q b n p i made out c j used seen = record {
  queue = q;
  blank_number = b;
  product_number = n;
  producer = p;
  i = i;
  made = made;
  produced = out;
  consumer = c;
  j = j;
  used = used;
  consumed = seen;
}

module _ (rand : ℕ → ℕ) where
  -- The first n values, the newest first
  abbrev pub values : ℕ → List ℕ
  values zero = []
  values (suc n) = value rand n ∷ values n

  -- The ring holds every value that has been stored and is not yet cleared, and the threads have
  -- printed the values so far.
  abbrev pub Remembers : System → Type 0
  Remembers s =
      ((k : ℕ)
        → s.used + clears s.consumer ≤ k
        → k < s.made + stores s.producer
        → get_or s.queue (k % num) 0 ≡ value rand k)
      × (s.produced ≡ values (s.made + prints s.producer))
      × (s.consumed ≡ values (s.used + shows s.consumer))

  abbrev pub IsSound : System → Type 0
  IsSound s = IsBalanced s × Remembers s

  abbrev pub Kept : Option System → Type 0
  Kept none = Unit
  Kept (some s) = IsSound s

  start-IsSound : IsSound start
  start-IsSound = (ground arith, (λ k lo hi. absurd (omega arith), refl, refl))

  values-next :
      (l : List ℕ) (v n : ℕ) → v ≡ value rand n → l ≡ values (n + 0) → v ∷ l ≡ values (n + 1)
  values-next l v n h e =
      let e1 : n + 1 ≡ suc n = omega arith in
      let e0 : n + 0 ≡ n = omega arith in rw (e1, e, e0, h) refl

  values-same : (l : List ℕ) (a b : ℕ) → a ≡ b → l ≡ values a → l ≡ values b
  values-same l a b h e = rw (sym h) e

  stored :
      (queue : List ℕ) (i made low : ℕ)
      → length queue ≡ num
      → i ≡ made % num
      → made < num + low
      → ((k : ℕ) → low ≤ k → k < made + 0 → get_or queue (k % num) 0 ≡ value rand k)
      → (k : ℕ) → low ≤ k
      → k < made + 1
      → get_or (set queue i (value rand made)) (k % num) 0 ≡ value rand k
  stored queue i made low room at near kept k lo hi = elim (Bool-cases (k == made)) [
    | inl e ↦
        let e' : k ≡ made = ground arith in
        rw (at, e') (get_or-set_self queue (made % num) (value rand made) 0 (omega (arith, room)))
    | inr e ↦
        let apart : i ≢ k % num = ground arith in
        get_or-set_ne queue i (k % num) (value rand made) 0 apart ∙ kept k lo (ground arith)
  ]

  cleared :
      (queue : List ℕ) (j used high : ℕ)
      → j ≡ used % num
      → high ≤ num + used
      → ((k : ℕ) → used + 0 ≤ k → k < high → get_or queue (k % num) 0 ≡ value rand k)
      → (k : ℕ) → used + 1 ≤ k
      → k < high
      → get_or (set queue j 0) (k % num) 0 ≡ value rand k
  cleared queue j used high at near kept k lo hi =
      let apart : j ≢ k % num = ground arith in
      get_or-set_ne queue j (k % num) 0 0 apart ∙ kept k (omega arith) hi

  producer-IsSound :
      (q : List ℕ) (b n : ℕ) (p : Producer) (i made : ℕ) (out : List ℕ) (c : Consumer) (j used : ℕ)
      (seen : List ℕ)
      → IsSound (system q b n p i made out c j used seen)
      → Kept (producer_at rand (system q b n p i made out c j used seen) p)
  producer-IsSound q zero n blank_wait i made out c j used seen inv = tt
  producer-IsSound q (suc b) n blank_wait i made out c j used seen inv =
      (ground (arith, inv.0), inv.1)
  producer-IsSound q b n storing i made out c j used seen inv = (
    ground (arith, inv.0, length-set q i (value rand made)),
    (
      stored q i made (used + clears c) inv.0.0 inv.0.3 (ground (arith, inv.0)) inv.1.0,
      inv.1.1,
      inv.1.2,
    ),
  )
  producer-IsSound q b n printing i made out c j used seen inv =
      let place : get_or q i 0 ≡ value rand made =
        rw inv.0.3 (inv.1.0 made (ground (arith, inv.0)) (omega arith)) in
      (ground (arith, inv.0), (inv.1.0, values-next _ _ made place inv.1.1, inv.1.2))
  producer-IsSound q b n product_post i made out c j used seen inv = (
    ground (arith, inv.0),
    (
      λ k lo hi. inv.1.0 k lo (omega arith),
      values-same _ (made + 1) _ (omega arith) inv.1.1,
      inv.1.2,
    ),
  )

  consumer-IsSound :
      (q : List ℕ) (b n : ℕ) (p : Producer) (i made : ℕ) (out : List ℕ) (c : Consumer) (j used : ℕ)
      (seen : List ℕ)
      → IsSound (system q b n p i made out c j used seen)
      → Kept (consumer_at rand (system q b n p i made out c j used seen) c)
  consumer-IsSound q b zero p i made out product_wait j used seen inv = tt
  consumer-IsSound q b (suc n) p i made out product_wait j used seen inv =
      (ground (arith, inv.0), inv.1)
  consumer-IsSound q b n p i made out showing j used seen inv =
      let place : get_or q j 0 ≡ value rand used =
        rw inv.0.4 (inv.1.0 used (omega arith) (ground (arith, inv.0))) in
      (ground (arith, inv.0), (inv.1.0, inv.1.1, values-next _ _ used place inv.1.2))
  consumer-IsSound q b n p i made out clearing j used seen inv = (
    ground (arith, inv.0, length-set q j 0),
    (cleared q j used (made + stores p) inv.0.4 (ground (arith, inv.0)) inv.1.0, inv.1.1, inv.1.2),
  )
  consumer-IsSound q b n p i made out blank_post j used seen inv = (
    ground (arith, inv.0),
    (
      λ k lo hi. inv.1.0 k (omega arith) hi,
      inv.1.1,
      values-same _ (used + 1) _ (omega arith) inv.1.2,
    ),
  )

  pub Step-IsSound : {s t : System} → Step rand s t → IsSound s → IsSound t
  Step-IsSound (producer_runs e) inv = subst Kept e (producer-IsSound _ _ _ _ _ _ _ _ _ _ _ inv)
  Step-IsSound (consumer_runs e) inv = subst Kept e (consumer-IsSound _ _ _ _ _ _ _ _ _ _ _ inv)

  pub Reach-IsSound : {s : System} → Reach rand s → IsSound s
  Reach-IsSound begin = start-IsSound
  Reach-IsSound (later r st) = Step-IsSound st (Reach-IsSound r)
