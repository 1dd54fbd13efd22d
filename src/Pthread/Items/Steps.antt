-- ===== src/Pthread/Items/Steps.antt =====
-- Every step of either thread keeps the invariant.
use mathlib.Core.Path.{subst}
use cfunction.Prelude.{
  ltb, ◌==◌, ==_refl, Bool-cases, length, set, length-set, get_or-set_self, get_or-set_ne, ℕ, zero,
  suc, ◌+◌, ◌%◌, ◌≤◌, ◌<◌, ◌≡◌, refl, sym, ◌∙◌, ◌≢◌, inl, inr, true, List, ◌∷◌, arith,
}
use cfunction.Pthread.Items.{
  nbuff, Line, Produce, starting, claiming, locking, making, storing, unlocking, offering, done,
  Consume, looking, taking, entering, checking, reporting, using, leaving, freeing, finished,
  System, produce, item_at, consume, Step, producer_runs, consumer_runs, Reach, begin, later,
}
use cfunction.Pthread.Items.Counts.{countdown}
use cfunction.Pthread.Items.Invariant.{IsSound, Kept, start-IsSound}

item_at-set :
    (buff : List ℕ) (i j : ℕ)
    → length buff ≡ nbuff
    → i < nbuff + j
    → ((k : ℕ) → j ≤ k → k < i + 0 → item_at buff k ≡ k)
    → (k : ℕ) → j ≤ k
    → k < i + 1
    → item_at (set buff (i % nbuff) i) k ≡ k
item_at-set buff i j room near kept k lo hi = elim (Bool-cases (k == i)) [
  | inl e ↦
      let e' : k ≡ i = ground arith in
      rw e' (get_or-set_self buff (i % nbuff) i 0 (omega (arith, room)))
  | inr e ↦
      let apart : i % nbuff ≢ k % nbuff = ground arith in
      get_or-set_ne buff (i % nbuff) (k % nbuff) i 0 apart ∙ kept k lo (ground arith)
]

countdown-next : (l : List ℕ) (i : ℕ) → l ≡ countdown (i + 0) → i ∷ l ≡ countdown (i + 1)
countdown-next l i e =
    let e1 : i + 1 ≡ suc i = omega arith in let e0 : i + 0 ≡ i = omega arith in rw (e1, e, e0) refl

countdown-same : (l : List ℕ) (a b : ℕ) → a ≡ b → l ≡ countdown a → l ≡ countdown b
countdown-same l a b h e = rw (sym h) e

abbrev system : List ℕ → ℕ → ℕ → ℕ → List Line → Produce → ℕ → Consume → ℕ → System
system b m e n out p i c j = record {
  shared = record { buff = b; mutex = m; nempty = e; nstored = n };
  out = out;
  producer = p;
  made = i;
  consumer = c;
  used = j;
}

produce-IsSound :
    (nitems k : ℕ) (b : List ℕ) (m e n : ℕ) (out : List Line) (p : Produce) (i : ℕ) (c : Consume)
    (j : ℕ)
    → IsSound nitems k (system b m e n out p i c j)
    → Kept nitems (suc k) (produce nitems (system b m e n out p i c j))
produce-IsSound nitems k b m e n out starting i c j inv =
    elim (Bool-cases (ltb i nitems))
      as (λ _. Kept nitems (suc k) (produce nitems (system b m e n out starting i c j))) [
        | inl le ↦ rw le (ground (arith, inv.0), inv.1)
        | inr ge ↦ rw ge (ground (arith, inv.0), inv.1)
      ]
produce-IsSound nitems k b m zero n out claiming i c j inv = tt
produce-IsSound nitems k b m (suc e) n out claiming i c j inv = (ground (arith, inv.0), inv.1)
produce-IsSound nitems k b zero e n out locking i c j inv = tt
produce-IsSound nitems k b (suc m) e n out locking i c j inv = (ground (arith, inv.0), inv.1)
produce-IsSound nitems k b m e n out making i c j inv =
    (ground (arith, inv.0), (inv.1.0, countdown-next _ i inv.1.1, inv.1.2))
produce-IsSound nitems k b m e n out storing i c j inv = (
  ground (arith, inv.0, length-set b (i % nbuff) i),
  (item_at-set b i j inv.0.0 (ground (arith, inv.0)) inv.1.0, inv.1.1, inv.1.2),
)
produce-IsSound nitems k b m e n out unlocking i c j inv = (ground (arith, inv.0), inv.1)
produce-IsSound nitems k b m e n out offering i c j inv = (
  ground (arith, inv.0),
  (
    λ x lo hi. inv.1.0 x lo (omega arith),
    countdown-same _ (i + 1) _ (omega arith) inv.1.1,
    inv.1.2,
  ),
)
produce-IsSound nitems k b m e n out done i c j inv = tt

consume-IsSound :
    (nitems k : ℕ) (b : List ℕ) (m e n : ℕ) (out : List Line) (p : Produce) (i : ℕ) (c : Consume)
    (j : ℕ)
    → IsSound nitems k (system b m e n out p i c j)
    → Kept nitems (suc k) (consume nitems (system b m e n out p i c j))
consume-IsSound nitems k b m e n out p i looking j inv =
    elim (Bool-cases (ltb j nitems))
      as (λ _. Kept nitems (suc k) (consume nitems (system b m e n out p i looking j))) [
        | inl le ↦ rw le (ground (arith, inv.0), inv.1)
        | inr ge ↦ rw ge (ground (arith, inv.0), inv.1)
      ]
consume-IsSound nitems k b m e zero out p i taking j inv = tt
consume-IsSound nitems k b m e (suc n) out p i taking j inv = (ground (arith, inv.0), inv.1)
consume-IsSound nitems k b zero e n out p i entering j inv = tt
consume-IsSound nitems k b (suc m) e n out p i entering j inv = (ground (arith, inv.0), inv.1)
consume-IsSound nitems k b m e n out p i checking j inv =
    let right : item_at b j ≡ j = inv.1.0 j (omega arith) (ground (arith, inv.0)) in
    let test : (item_at b j == j) ≡ true = rw right (==_refl j) in
    rw test (ground (arith, inv.0), inv.1)
consume-IsSound nitems k b m e n out p i reporting j inv = absurd (ground (arith, inv.0))
consume-IsSound nitems k b m e n out p i using j inv =
    (ground (arith, inv.0), (inv.1.0, inv.1.1, countdown-next _ j inv.1.2))
consume-IsSound nitems k b m e n out p i leaving j inv = (ground (arith, inv.0), inv.1)
consume-IsSound nitems k b m e n out p i freeing j inv = (
  ground (arith, inv.0),
  (
    λ x lo hi. inv.1.0 x (omega arith) hi,
    inv.1.1,
    countdown-same _ (j + 1) _ (omega arith) inv.1.2,
  ),
)
consume-IsSound nitems k b m e n out p i finished j inv = tt

pub Step-IsSound :
    {nitems k : ℕ} {s t : System} → Step nitems s t → IsSound nitems k s → IsSound nitems (suc k) t
Step-IsSound {nitems} {k} (producer_runs e) inv =
    subst (Kept nitems (suc k)) e (produce-IsSound nitems k _ _ _ _ _ _ _ _ _ inv)
Step-IsSound {nitems} {k} (consumer_runs e) inv =
    subst (Kept nitems (suc k)) e (consume-IsSound nitems k _ _ _ _ _ _ _ _ _ inv)

-- In every state that the threads can reach the invariant holds.
pub Reach-IsSound : {nitems k : ℕ} {s : System} → Reach nitems k s → IsSound nitems k s
Reach-IsSound begin = start-IsSound _
Reach-IsSound (later r st) = Step-IsSound st (Reach-IsSound r)
