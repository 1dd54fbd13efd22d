-- ===== src/Itoa/Reverse.antt =====
-- The swaps of common_itoa.c turn the digits round.
use cfunction.Prelude.{
  ℕ, zero, suc, ◌+◌, ◌-◌, ◌*◌, ◌/◌, ◌≤◌, ◌<◌, ◌≡◌, refl, sym, ap, ◌∙◌, true, false, some, List, [],
  ◌∷◌, ◌++◌, leb, length, length-append, append_assoc, get_elem?, get_elem?-append, set, set-append,
  arith,
}
use cfunction.Itoa.{swap_loop}

unfoldable pub rev : List ℕ → List ℕ
rev [] = []
rev (x ∷ xs) = rev xs ++ (x ∷ [])

rev-snoc : (xs : List ℕ) (y : ℕ) → rev (xs ++ (y ∷ [])) ≡ y ∷ rev xs
unfolding rev
rev-snoc [] y = refl
rev-snoc (x ∷ xs) y = ap (λ l. l ++ (x ∷ [])) (rev-snoc xs y)

-- A list that is not empty has a last element.
last :
    (x : ℕ) (xs : List ℕ)
    → (ys : List ℕ) × (y : ℕ) × (x ∷ xs ≡ ys ++ (y ∷ [])) × (length ys ≡ length xs)
last x [] = ([], x, refl, refl)
last x (z ∷ xs) = let (ys, y, e, l) = last z xs in (x ∷ ys, y, ap (λ l. x ∷ l) e, ap suc l)

get_at :
    (a : List ℕ) (x : ℕ) (b : List ℕ) (n : ℕ) → n ≡ length a → get_elem? (a ++ (x ∷ b)) n ≡ some x
get_at a x b n e = let m : n ≡ length a + 0 = omega arith in rw m (get_elem?-append a (x ∷ b) 0)

set_at :
    (a : List ℕ) (x : ℕ) (b : List ℕ) (n v : ℕ)
    → n ≡ length a
    → set (a ++ (x ∷ b)) n v ≡ a ++ (v ∷ b)
set_at a x b n v e = rw e (set-append a x b v)

-- One round on two different places
round :
    (fuel k i j : ℕ) (a : List ℕ) (x : ℕ) (ys : List ℕ) (y : ℕ) (b : List ℕ)
    → length a ≡ j
    → leb j ((i - 1) / 2) ≡ true
    → i - 1 + k - j ≡ j + 1 + length ys
    → swap_loop (suc fuel) k i j (a ++ (x ∷ (ys ++ (y ∷ b))))
      ≡ swap_loop fuel k i (j + 1) (a ++ (y ∷ (ys ++ (x ∷ b))))
unfolding swap_loop
round fuel k i j a x ys y b ha le hi =
    let far : (v : ℕ) (c : List ℕ) → a ++ (v ∷ (ys ++ c)) ≡ (a ++ (v ∷ ys)) ++ c =
      λ v c. sym (append_assoc a (v ∷ ys) c) in
    let n : (v : ℕ) → j + 1 + length ys ≡ length (a ++ (v ∷ ys)) =
      λ v. omega (arith, length-append a (v ∷ ys)) in
    let one = get_at a x (ys ++ (y ∷ b)) j (sym ha) in
    let two : get_elem? (a ++ (x ∷ (ys ++ (y ∷ b)))) (j + 1 + length ys) ≡ some y =
      rw (far x (y ∷ b)) (get_at (a ++ (x ∷ ys)) y b (j + 1 + length ys) (n x)) in
    let three = set_at a x (ys ++ (y ∷ b)) j y (sym ha) in
    let four : set (a ++ (y ∷ (ys ++ (y ∷ b)))) (j + 1 + length ys) x ≡ a ++ (y ∷ (ys ++ (x ∷ b))) =
      rw (far y (y ∷ b), far y (x ∷ b)) (set_at (a ++ (y ∷ ys)) y b (j + 1 + length ys) x (n y)) in
    rw (le, hi, one, two, three, four) refl

stop :
    (fuel k i j : ℕ) (str : List ℕ)
    → leb j ((i - 1) / 2) ≡ false
    → swap_loop (suc fuel) k i j str ≡ some str
unfolding swap_loop
stop fuel k i j str e = rw e refl

-- The place in the middle is swapped with itself, or the loop ends before it.
middle :
    (fuel k i j : ℕ) (a : List ℕ) (x : ℕ) (b : List ℕ)
    → length a ≡ j
    → 1 + j * 2 ≡ i + k
    → k ≤ 1
    → 1 ≤ i
    → swap_loop (suc (suc fuel)) k i j (a ++ (x ∷ b)) ≡ some (a ++ (x ∷ b))
unfolding swap_loop
middle fuel zero i j a x b ha h hk hi =
    let le : leb j ((i - 1) / 2) ≡ true = ground arith in
    let far : i - 1 + 0 - j ≡ j = omega arith in
    let n : leb (j + 1) ((i - 1) / 2) ≡ false = ground arith in
    rw (le, far, get_at a x b j (sym ha), set_at a x b j x (sym ha), set_at a x b j x (sym ha), n)
      refl
middle fuel (suc zero) i j a x b ha h hk hi = stop (suc fuel) 1 i j (a ++ (x ∷ b)) (ground arith)
middle fuel (suc (suc k)) i j a x b ha h hk hi = absurd (omega arith)

-- The loop turns round what lies between the two ends that it has reached.
pub swap_loop-rev :
    (fuel k i j : ℕ) (a xs b : List ℕ)
    → length a ≡ j
    → length xs + j * 2 ≡ i + k
    → k ≤ 1
    → 1 ≤ i
    → length xs < fuel
    → swap_loop fuel k i j (a ++ (xs ++ b)) ≡ some (a ++ (rev xs ++ b))
unfolding rev
swap_loop-rev zero k i j a xs b ha h hk hi hf = absurd (omega arith)
swap_loop-rev (suc fuel) k i j a [] b ha h hk hi hf = stop fuel k i j (a ++ b) (ground arith)
swap_loop-rev (suc zero) k i j a (x ∷ xs) b ha h hk hi hf = absurd (omega arith)
swap_loop-rev (suc (suc fuel)) k i j a (x ∷ []) b ha h hk hi hf = middle fuel k i j a x b ha h hk hi
swap_loop-rev (suc (suc fuel)) k i j a (x ∷ z ∷ zs) b ha h hk hi hf =
    let (ys, y, e, l) = last z zs in
    let le : leb j ((i - 1) / 2) ≡ true = ground arith in
    let swapped = round (suc fuel) k i j a x ys y b ha le (omega arith) in
    let next = a ++ (y ∷ []) in
    let ih =
      swap_loop-rev (suc fuel) k i (j + 1) next ys (x ∷ b) (omega (arith, length-append a (y ∷ [])))
        (omega arith) hk hi (omega arith) in
    let open_up : a ++ (x ∷ ((z ∷ zs) ++ b)) ≡ a ++ (x ∷ (ys ++ (y ∷ b))) =
      ap (λ l. a ++ (x ∷ l)) (ap (λ l. l ++ b) e ∙ append_assoc ys (y ∷ []) b) in
    let move : a ++ (y ∷ (ys ++ (x ∷ b))) ≡ next ++ (ys ++ (x ∷ b)) =
      sym (append_assoc a (y ∷ []) (ys ++ (x ∷ b))) in
    let close : next ++ (rev ys ++ (x ∷ b)) ≡ a ++ ((rev (z ∷ zs) ++ (x ∷ [])) ++ b) =
      append_assoc a (y ∷ []) (rev ys ++ (x ∷ b))
      ∙ ap (λ l. a ++ l)
          (sym (append_assoc (y ∷ rev ys) (x ∷ []) b)
            ∙ ap (λ r. (r ++ (x ∷ [])) ++ b) (sym (ap rev e ∙ rev-snoc ys y))) in
    ap (swap_loop (suc (suc fuel)) k i j) open_up
    ∙ (swapped ∙ (ap (swap_loop (suc fuel) k i (j + 1)) move ∙ (ih ∙ ap some close)))
