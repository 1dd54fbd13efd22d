-- ===== src/Squeue/Window.antt =====
-- The items of a circular array, oldest first: index `head` and the `count - 1` indices after it,
-- modulo the size. The array is read as a function of the index.
use native.Mathlib.Nat.{mod-eq_of_lt, mod-eq-sub-mod, mod-add-mod, add-zero}
use native.Mathlib.Decide.{dec_lt}
use cfunction.Prelude.{
  ℕ, zero, suc, ◌+◌, ◌-◌, ◌%◌, ◌≤◌, ◌<◌, ◌≡◌, ◌≢◌, refl, sym, ap, ap₂, ◌∙◌, List, [], ◌∷◌, ◌++◌,
  arith, length, get_or, set, get_or-set_ne, get_or-set_self, length-append,
}

-- A sum of two indices of the array goes round at most once.
mod_once : (cap x : ℕ) → cap ≤ x → x < cap + cap → x % cap ≡ x - cap
mod_once cap x h k =
    mod-eq-sub-mod {n = x} {m = cap} h ∙ mod-eq_of_lt {n = x - cap} {m = cap} (omega arith)

-- Two indices less than a full round apart are different.
pub round_ne :
    (cap h i j : ℕ) → h < cap → i < j → j ≤ cap → j < i + cap → (h + i) % cap ≢ (h + j) % cap
round_ne cap h i j hh ij jc lt = elim (dec_lt (h + i) cap) [
  | yes p ↦ elim (dec_lt (h + j) cap) [
    | yes q ↦ omega (arith, mod-eq_of_lt p, mod-eq_of_lt q)
    | no q ↦ omega (arith, mod-eq_of_lt p, mod_once cap (h + j) (omega arith) (omega arith))
  ]
  | no p ↦ omega (
    arith,
    mod_once cap (h + i) (omega arith) (omega arith),
    mod_once cap (h + j) (omega arith) (omega arith),
  )
]

module _ {ℓ} {A : Type ℓ} (d : A) (cap : ℕ) where
  abbrev pub window : List A → ℕ → ℕ → List A
  window buf h zero = []
  window buf h (suc n) = window buf h n ++ (get_or buf ((h + n) % cap) d ∷ [])

  pub length-window : (buf : List A) (h n : ℕ) → length (window buf h n) ≡ n
  length-window buf h zero = refl
  length-window buf h (suc n) = omega (
    arith,
    length-window buf h n,
    length-append (window buf h n) (get_or buf ((h + n) % cap) d ∷ []),
  )

  shift : (h n : ℕ) → ((h + 1) % cap + n) % cap ≡ (h + suc n) % cap
  shift h n = rw mod-add-mod (ap (λ k. k % cap) (omega arith))

  -- The oldest item stands first.
  pub window_first :
      (buf : List A) (h n : ℕ)
      → h < cap
      → window buf h (suc n) ≡ get_or buf h d ∷ window buf ((h + 1) % cap) n
  window_first buf h zero lt = ap (λ i. get_or buf i d ∷ []) (rw add-zero (mod-eq_of_lt lt))
  window_first buf h (suc n) lt =
      ap₂ (λ w i. w ++ (get_or buf i d ∷ [])) (window_first buf h n lt) (sym (shift h n))

  -- A write that misses the window leaves it alone.
  pub window-set :
      (buf : List A) (h n i : ℕ) (v : A)
      → ((k : ℕ) → k < n → i ≢ (h + k) % cap)
      → window (set buf i v) h n ≡ window buf h n
  window-set buf h zero i v miss = refl
  window-set buf h (suc n) i v miss =
      ap₂ (λ w x. w ++ (x ∷ [])) (window-set buf h n i v (λ k lt. miss k (omega arith)))
        (get_or-set_ne buf i ((h + n) % cap) v d (miss n (omega arith)))

  -- Writing behind the newest item appends.
  pub window_push :
      (buf : List A) (h n : ℕ) (v : A)
      → h < cap
      → n < cap
      → cap ≤ length buf
      → window (set buf ((h + n) % cap) v) h (suc n) ≡ window buf h n ++ (v ∷ [])
  window_push buf h n v hh hn fits =
      ap₂ (λ w x. w ++ (x ∷ []))
        (window-set buf h n ((h + n) % cap) v
          (λ k lt e. round_ne cap h k n hh lt (omega arith) (omega arith) (sym e)))
        (get_or-set_self buf ((h + n) % cap) v d (omega arith))

  -- Taking the oldest item out, and clearing its place, leaves the others.
  pub window_pop :
      (buf : List A) (h n : ℕ) (v : A)
      → h < cap
      → n < cap
      → window (set buf h v) ((h + 1) % cap) n ≡ window buf ((h + 1) % cap) n
  window_pop buf h n v hh hn = window-set buf ((h + 1) % cap) n h v (λ k lt e.
      round_ne cap h 0 (suc k) hh (omega arith) (omega arith) (omega arith)
        (rw add-zero (mod-eq_of_lt hh ∙ e ∙ shift h k)))
