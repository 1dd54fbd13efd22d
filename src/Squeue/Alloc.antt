-- ===== src/Squeue/Alloc.antt =====
-- `squeue_init` and `squeue_enqueue_ext`: what they allocate, and who owns it.
use cfunction.Prelude.{
  ℕ, ◌*◌, ◌^◌, ◌≤◌, ◌<◌, ◌≡◌, ◌≢◌, ◌⊎◌, inl, inr, refl, ap, Bool, true, false, none, some, List, [],
  ◌∷◌, ◌++◌, arith, length, Bool-cases, ℤ, pos, negsuc, to_size, int_max, length-replicate,
}
use cfunction.Memory.{Heap, write}
use cfunction.Squeue.{Item, no_item, Squeue, bound, init, enqueue_ext}
use cfunction.Squeue.Inv.{IsValid, contents, pushed, enqueue_eq, pushed-IsShaped, contents-pushed}
use cfunction.Squeue.Destroy.{owned, Owns}

-- `calloc` refuses a product of 2^64 bytes or more; `sizeof(squeue_data_t)` is 16.
abbrev pub RefusesOverflow : (ℕ → Bool) → Type 0
RefusesOverflow calloc_ok = (n : ℕ) → 2 ^ 64 ≤ n * 16 → calloc_ok n ≡ false

-- An `int` is at most `int_max`, and a negative one at least `-int_max - 1`.
abbrev pub IsInt : ℤ → Type 0
IsInt (pos n) = n ≤ int_max
IsInt (negsuc n) = n ≤ int_max

-- `squeue_init` returns 0 exactly when `calloc` succeeds, and the queue is then valid, empty and
-- of the size asked for, which is not negative. Otherwise it returns -10 and `qdata` is NULL.
pub init_lem :
    (calloc_ok : ℕ → Bool) (q : Squeue) (size : ℤ)
    → RefusesOverflow calloc_ok
    → IsInt size
    → let (r, q') = init calloc_ok q size in
      (calloc_ok (to_size size) ≡ true)
        × (r ≡ pos 0)
        × IsValid q'
        × (contents q' ≡ [])
        × (size ≡ pos (bound q'))
      ⊎ (calloc_ok (to_size size) ≡ false) × (r ≡ negsuc 9) × (q'.qdata ≡ none)
unfolding init
init_lem calloc_ok q (pos n) refuses fits = elim (Bool-cases (calloc_ok n)) [
  | inl ok ↦ inl (
    ok,
    ground arith,
    rw ok (record { shape = ground (arith, length-replicate n no_item); free = refl }),
    rw ok,
    rw ok,
  )
  | inr no_room ↦ inr (no_room, ground arith, ground arith)
]
init_lem calloc_ok q (negsuc n) refuses fits =
    let refused : calloc_ok (to_size (negsuc n)) ≡ false =
      refuses (to_size (negsuc n)) (omega arith) in
    inr (refused, ground arith, ground arith)

owned-append_self :
    (p n a : ℕ) (xs : List Item)
    → owned p xs ≡ false
    → p ≢ a
    → owned p (xs ++ (record { pdata = a; len = n } ∷ [])) ≡ false
owned-append_self p n a [] out ne = ground arith
owned-append_self p n a (x ∷ xs) out ne = ground (arith, owned-append_self p n a xs)

Owns-append :
    (h : Heap) (a : ℕ) (src : List ℕ) (xs : List Item)
    → h a ≡ none
    → Owns h xs
    → Owns (write h a (some src)) (xs ++ (record { pdata = a; len = length src } ∷ []))
unfolding write
Owns-append h a src [] free o = (inr (src, ground arith, refl), tt)
Owns-append h a src (x ∷ xs) free (inl e, rest) = (inl e, Owns-append h a src xs free rest)
Owns-append h a src (x ∷ xs) free (inr (b, live, out), rest) = (
  inr (b, ground arith, owned-append_self x.pdata (length src) a xs out (ground arith)),
  Owns-append h a src xs free rest,
)

Owns-write :
    (h : Heap) (a : ℕ) (src : List ℕ) (xs : List Item)
    → h a ≡ none
    → Owns h xs
    → Owns (write h a (some src)) xs
unfolding write
Owns-write h a src [] free o = tt
Owns-write h a src (x ∷ xs) free (inl e, rest) = (inl e, Owns-write h a src xs free rest)
Owns-write h a src (x ∷ xs) free (inr (b, live, out), rest) =
    (inr (b, ground arith, out), Owns-write h a src xs free rest)

not_owned : (h : Heap) (a : ℕ) (xs : List Item) → h a ≡ none → Owns h xs → owned a xs ≡ false
not_owned h a [] free o = refl
not_owned h a (x ∷ xs) free (inl e, rest) = ground (arith, not_owned h a xs free rest)
not_owned h a (x ∷ xs) free (inr (b, live, out), rest) =
    let apart : a ≢ x.pdata = λ e. cc (ap h e) in ground (arith, apart, not_owned h a xs free rest)

-- `squeue_enqueue_ext` on a valid queue, where `malloc` returns a fresh block: with room it
-- returns 0 and appends an item that owns a copy of the source. Every item keeps its own buffer.
pub enqueue_ext_ok :
    {q : Squeue} (fresh : ℕ) (h : Heap) (src : List ℕ)
    → IsValid q
    → Owns h (contents q)
    → fresh ≢ 0
    → h fresh ≡ none
    → q.count < bound q
    → (q' : Squeue) × (h' : Heap) × (enqueue_ext fresh q h src ≡ some (pos 0, q', h'))
      × IsValid q'
      × (contents q' ≡ contents q ++ (record { pdata = fresh; len = length src } ∷ []))
      × (h' fresh ≡ some src)
      × Owns h' (contents q')
unfolding enqueue_ext write
enqueue_ext_ok {q} fresh h src v o nz free room =
    let d : Item = record { pdata = fresh; len = length src } in
    (
      pushed q d,
      write h fresh (some src),
      ground (arith, enqueue_eq d v),
      record { shape = pushed-IsShaped d v.shape room; free = v.free },
      contents-pushed d v.shape room,
      ground arith,
      rw (contents-pushed d v.shape room) (Owns-append h fresh src (contents q) free o),
    )

-- On a full queue it returns -1 and leaves the queue alone, but the block that it allocated stays
-- live, and no item of the queue has it: the memory is leaked.
pub enqueue_ext_leaks :
    {q : Squeue} (fresh : ℕ) (h : Heap) (src : List ℕ)
    → IsValid q
    → Owns h (contents q)
    → fresh ≢ 0
    → h fresh ≡ none
    → q.count ≡ bound q
    → (h' : Heap) × (enqueue_ext fresh q h src ≡ some (negsuc 0, q, h'))
      × (h' fresh ≡ some src)
      × (owned fresh (contents q) ≡ false)
      × Owns h' (contents q)
unfolding enqueue_ext write
enqueue_ext_leaks {q} fresh h src v o nz free full = (
  write h fresh (some src),
  ground (arith, enqueue_eq (record { pdata = fresh; len = length src }) v),
  ground arith,
  not_owned h fresh (contents q) free o,
  Owns-write h fresh src (contents q) free o,
)
