-- ===== src/Squeue/Destroy.antt =====
-- `squeue_destroy` with `squeue_data_destroy`: the buffers of the queued items are freed, each once.
use cfunction.Prelude.{
  ℕ, ◌<◌, ◌≡◌, ◌⊎◌, inl, inr, refl, ap, sym, ◌∙◌, Bool, true, false, not, ◌&&◌, ◌||◌, none, some,
  List, [], ◌∷◌, arith, length, ◌==◌, Bool-cases, if◌then◌else◌,
}
use cfunction.Memory.{Heap, write, free}
use cfunction.Squeue.{Item, Squeue, data_destroy, drain, destroy, call, destroy_out}
use cfunction.Squeue.Inv.{
  IsShaped, IsValid, contents, popped, oldest, dequeue_locked_eq, popped-IsShaped, contents-popped,
  length-contents,
}

-- `p` is the buffer of one of the items.
abbrev pub owned : ℕ → List Item → Bool
owned p [] = false
owned p (d ∷ xs) = ((p == d.pdata) && not (p == 0)) || owned p xs

-- Each item has no buffer, or a live one that no later item has.
abbrev pub Owns : Heap → List Item → Type 0
Owns h [] = Unit {0}
Owns h (d ∷ xs) =
    ((d.pdata ≡ 0) ⊎ ((b : List ℕ) × (h d.pdata ≡ some b) × (owned d.pdata xs ≡ false))) × Owns h xs

-- The heap without the buffer of an item.
release : Item → Heap → Heap
release d h = if d.pdata == 0 then h else write h d.pdata none

release_lem :
    (d : Item) (h : Heap) (p : ℕ)
    → release d h p ≡ (if (p == d.pdata) && not (p == 0) then none else h p)
unfolding release write
release_lem d h p = ground arith

data_destroy_eq :
    (d : Item) (xs : List Item) (h : Heap)
    → Owns h (d ∷ xs)
    → destroy_out (some data_destroy) (some d) h ≡ some (release d h)
unfolding data_destroy release call free write
data_destroy_eq d xs h (inl e, rest) = ground arith
data_destroy_eq d xs h (inr (b, live, out), rest) = ground arith

Owns-release :
    (d : Item) (h : Heap) (xs : List Item)
    → ((d.pdata ≡ 0) ⊎ (owned d.pdata xs ≡ false))
    → Owns h xs
    → Owns (release d h) xs
Owns-release d h [] apart o = tt
Owns-release d h (x ∷ xs) apart (inl e, rest) = (inl e, Owns-release d h xs (ground arith) rest)
Owns-release d h (x ∷ xs) apart (inr (b, live, out), rest) = elim (Bool-cases (x.pdata == 0)) [
  | inl z ↦ (inl (ground arith), Owns-release d h xs (ground arith) rest)
  | inr nz ↦ (
    inr (b, ground (arith, release_lem d h x.pdata), out),
    Owns-release d h xs (ground arith) rest,
  )
]

-- What the loop leaves: no item, the mutex as it was, and every buffer freed.
abbrev Drained : Squeue → Heap → List Item → Type 0
Drained q h xs =
    (q' : Squeue) × (h' : Heap) × (drain (length xs) (some data_destroy) q h ≡ some (q', h'))
    × (q'.count ≡ 0)
    × (q'.locked ≡ q.locked)
    × ((p : ℕ) → h' p ≡ (if owned p xs then none else h p))

drain-Drained :
    (xs : List Item) (q : Squeue) (h : Heap)
    → IsShaped q
    → contents q ≡ xs
    → Owns h xs
    → Drained q h xs
unfolding drain
drain-Drained [] q h v e o =
    let n : q.count ≡ 0 = sym (length-contents q) ∙ ap length e in
    (q, h, ground arith, n, refl, λ p. refl)
drain-Drained (x ∷ xs) q h v e o =
    let some_item : 0 < q.count = omega (arith, length-contents q, ap length e) in
    let first = contents-popped v some_item in
    let (q', h', done, none_left, lock, freed) =
      drain-Drained xs (popped q) (release x h) (popped-IsShaped v some_item) (cc first)
        (Owns-release x h xs (ground arith) o.1) in
    let head : oldest q ≡ x = cc first in
    (
      q',
      h',
      ground (arith, dequeue_locked_eq v, data_destroy_eq x xs h o, head),
      none_left,
      lock,
      λ p. ground (arith, freed p, release_lem x h p),
    )

-- A valid queue whose items have separate live buffers is destroyed with no fault: `destroy`
-- returns an empty queue without its array, the mutex is free, and of the heap exactly the
-- buffers of the items are gone.
pub destroy_frees :
    {q : Squeue} (h : Heap)
    → IsValid q
    → Owns h (contents q)
    → (q' : Squeue) × (h' : Heap) × (destroy q (some data_destroy) h ≡ some (q', h'))
      × (q'.count ≡ 0)
      × (q'.qdata ≡ none)
      × (q'.locked ≡ false)
      × ((p : ℕ) → h' p ≡ (if owned p (contents q) then none else h p))
unfolding destroy
destroy_frees {q} h v o =
    let taken : Squeue = record q { locked = true } in
    let (q', h', done, none_left, lock, freed) =
      drain-Drained (contents q) taken h (ground arith) refl o in
    (
      record q' { qdata = none; locked = false },
      h',
      ground (arith, done, length-contents q),
      none_left,
      refl,
      refl,
      freed,
    )
