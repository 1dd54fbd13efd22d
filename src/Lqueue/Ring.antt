-- ===== src/Lqueue/Ring.antt =====
-- Segments of a doubly linked list in the heap, and what writing to their ends does.
use mathlib.Core.Path.{fun_ext}
use cfunction.Prelude.{
  ℤ, ℕ, ◌≡◌, ◌≢◌, refl, sym, ap, ◌∙◌, Bool, true, false, ◌||◌, Option, none, some, List, [], ◌∷◌,
  ◌++◌, arith, ◌==◌, if◌then◌else◌,
}
use cfunction.Lqueue.Store.{Node, Nodes, Mem, done, load, set_next, set_prev, put, free_node}

-- An item of a queue: its node's address, and what the node carries.
pub record Cell : Type 0 where
  pub addr : ℕ
  pub pqdata : ℕ
  pub len : ℤ

abbrev pub cell_node : Cell → ℕ → ℕ → Node
cell_node c next prev = record { next = next; prev = prev; pqdata = c.pqdata; len = c.len }

-- The address of the first cell, or of what follows an empty segment; and so for the last.
abbrev pub first : List Cell → ℕ → ℕ
first [] after = after
first (c ∷ xs) after = c.addr

abbrev pub last : ℕ → List Cell → ℕ
last before [] = before
last before (c ∷ xs) = last c.addr xs

abbrev pub has : ℕ → List Cell → Bool
has p [] = false
has p (c ∷ xs) = (p == c.addr) || has p xs

-- The cells are distinct nodes, linked in order both ways, from `before` to `after`.
abbrev pub Dll : Nodes → ℕ → List Cell → ℕ → Type 0
Dll h before [] after = Unit {0}
Dll h before (c ∷ xs) after =
    (h c.addr ≡ some (cell_node c (first xs after) before))
    × (c.addr ≢ 0)
    × (has c.addr xs ≡ false)
    × Dll h c.addr xs after

abbrev pub with_next : ℕ → Node → Node
with_next q n = record n { next = q }

abbrev pub with_prev : ℕ → Node → Node
with_prev q n = record n { prev = q }

abbrev pub map_node : (Node → Node) → Option Node → Option Node
map_node f none = none
map_node f (some n) = some (f n)

pub modify : Nodes → ℕ → (Node → Node) → Nodes
modify h p f a = if a == p then map_node f (h a) else h a

pub modify_self :
    (h : Nodes) (p : ℕ) (f : Node → Node) {n : Node} → h p ≡ some n → modify h p f p ≡ some (f n)
unfolding modify
modify_self h p f e = ground arith

pub modify_ne : (h : Nodes) (p : ℕ) (f : Node → Node) (a : ℕ) → a ≢ p → modify h p f a ≡ h a
unfolding modify
modify_ne h p f a ne = ground arith

-- The commands on a live node.
put-modify :
    (h : Nodes) (p : ℕ) (f : Node → Node) {n : Node}
    → h p ≡ some n
    → put h p (some (f n)) ≡ modify h p f
unfolding put modify
put-modify h p f e = fun_ext λ a. ground arith

module _ (p : ℕ) (m : Mem) {n : Node} (nz : p ≢ 0) (live : m.nodes p ≡ some n) where
  pub load_eq : load p m ≡ done n m
  unfolding load
  load_eq = ground arith

  pub set_next_eq :
      (q : ℕ) → set_next p q m ≡ done tt (record m { nodes = modify m.nodes p (with_next q) })
  unfolding set_next load
  set_next_eq q = ground (arith, put-modify m.nodes p (with_next q) live)

  pub set_prev_eq :
      (q : ℕ) → set_prev p q m ≡ done tt (record m { nodes = modify m.nodes p (with_prev q) })
  unfolding set_prev load
  set_prev_eq q = ground (arith, put-modify m.nodes p (with_prev q) live)

  pub free_node_eq : free_node p m ≡ done tt (record m { nodes = put m.nodes p none })
  unfolding free_node load
  free_node_eq = ground arith

pub first-snoc :
    (xs : List Cell) (c : Cell) (after : ℕ) → first (xs ++ (c ∷ [])) after ≡ first xs c.addr
first-snoc [] c after = refl
first-snoc (x ∷ xs) c after = refl

pub last-snoc : (before : ℕ) (xs : List Cell) (c : Cell) → last before (xs ++ (c ∷ [])) ≡ c.addr
last-snoc before [] c = refl
last-snoc before (x ∷ xs) c = last-snoc x.addr xs c

pub has-snoc :
    (p : ℕ) (xs : List Cell) (c : Cell) → has p (xs ++ (c ∷ [])) ≡ (has p xs || (p == c.addr))
has-snoc p [] c = ground arith
has-snoc p (x ∷ xs) c = ground (arith, has-snoc p xs c)

pub has-last : (c : Cell) (xs : List Cell) → has (last c.addr xs) (c ∷ xs) ≡ true
has-last c [] = ground arith
has-last c (d ∷ xs) = ground (arith, has-last d xs)

-- A segment survives every change that spares its own nodes.
pub frame :
    (h g : Nodes) (before after : ℕ) (xs : List Cell)
    → Dll h before xs after
    → ((p : ℕ) → has p xs ≡ true → g p ≡ h p)
    → Dll g before xs after
frame h g before after [] d same = tt
frame h g before after (c ∷ xs) (e, nz, out, rest) same = (
  same c.addr (ground arith) ∙ e,
  nz,
  out,
  frame h g c.addr after xs rest (λ p i. same p (ground arith)),
)

module _ (h : Nodes) (before after : ℕ) where
  pub frame-modify :
      (p : ℕ) (f : Node → Node) (xs : List Cell)
      → has p xs ≡ false
      → Dll h before xs after
      → Dll (modify h p f) before xs after
  frame-modify p f xs out d =
      frame h (modify h p f) before after xs d
        (λ a i. modify_ne h p f a (λ e. cc (out, i, ap (λ z. has z xs) e)))

  pub frame-put :
      (p : ℕ) (c : Option Node) (xs : List Cell)
      → has p xs ≡ false
      → Dll h before xs after
      → Dll (put h p c) before xs after
  unfolding put
  frame-put p c xs out d =
      frame h (put h p c) before after xs d
        (λ a i. let ne : a ≢ p = λ e. cc (out, i, ap (λ z. has z xs) e) in ground arith)

-- Writing the `next` of the last node, and the `prev` of the first.
pub relink_next :
    (h : Nodes) (before after after' : ℕ) (c : Cell) (xs : List Cell)
    → Dll h before (c ∷ xs) after
    → Dll (modify h (last c.addr xs) (with_next after')) before (c ∷ xs) after'
relink_next h before after after' c [] (e, nz, out, rest) =
    (modify_self h c.addr (with_next after') e, nz, refl, tt)
relink_next h before after after' c (d ∷ xs) (e, nz, out, rest) =
    let l = last d.addr xs in
    let apart : c.addr ≢ l = λ i. cc (out, has-last d xs, ap (λ z. has z (d ∷ xs)) i) in
    (
      modify_ne h l (with_next after') c.addr apart ∙ e,
      nz,
      out,
      relink_next h c.addr after after' d xs rest,
    )

pub relink_prev :
    (h : Nodes) (before after before' : ℕ) (c : Cell) (xs : List Cell)
    → Dll h before (c ∷ xs) after
    → Dll (modify h c.addr (with_prev before')) before' (c ∷ xs) after
relink_prev h before after before' c xs (e, nz, out, rest) = (
  modify_self h c.addr (with_prev before') e,
  nz,
  out,
  frame-modify h c.addr after c.addr (with_prev before') xs out rest,
)

-- A segment is put together before its last cell, and cut there.
pub snoc :
    (h : Nodes) (before after : ℕ) (xs : List Cell) (c : Cell)
    → Dll h before xs c.addr
    → h c.addr ≡ some (cell_node c after (last before xs))
    → c.addr ≢ 0
    → has c.addr xs ≡ false
    → Dll h before (xs ++ (c ∷ [])) after
snoc h before after [] c d e nz out = (e, nz, refl, tt)
snoc h before after (x ∷ xs) c (ex, nzx, outx, d) e nz out = (
  ex ∙ ap (λ a. some (cell_node x a before)) (sym (first-snoc xs c after)),
  nzx,
  has-snoc x.addr xs c ∙ ground arith,
  snoc h x.addr after xs c d e nz (ground arith),
)

pub unsnoc :
    (h : Nodes) (before after : ℕ) (xs : List Cell) (c : Cell)
    → Dll h before (xs ++ (c ∷ [])) after
    → Dll h before xs c.addr
      × (h c.addr ≡ some (cell_node c after (last before xs)))
      × (c.addr ≢ 0)
      × (has c.addr xs ≡ false)
unsnoc h before after [] c (e, nz, out, d) = (tt, e, nz, refl)
unsnoc h before after (x ∷ xs) c (ex, nzx, outx, d) =
    let (d', e, nz, out) = unsnoc h x.addr after xs c d in
    (
      (
        ex ∙ ap (λ a. some (cell_node x a before)) (first-snoc xs c after),
        nzx,
        ground (arith, has-snoc x.addr xs c),
        d',
      ),
      e,
      nz,
      ground (arith, has-snoc x.addr xs c),
    )
