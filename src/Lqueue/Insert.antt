-- ===== src/Lqueue/Insert.antt =====
-- The enqueue functions on a well-formed queue: the new item stands at the end that they name.
use cfunction.Prelude.{
  ℤ, ℕ, ◌+◌, ◌≡◌, ◌≢◌, refl, sym, ap, ◌∙◌, false, some, List, [], ◌∷◌, ◌++◌, arith, length,
  length-append,
}
use mathlib.Core.Path.{subst}
use cfunction.Lqueue.Store.{Run, Node, Nodes, Mem, done}
use cfunction.Lqueue.{Lqueue, link, insert_front, insert_back, new_node}
use cfunction.Lqueue.Ring.{
  Cell, cell_node, first, last, has, Dll, with_next, with_prev, modify, modify_self, modify_ne,
  load_eq, set_next_eq, set_prev_eq, relink_next, relink_prev, frame-modify, snoc, last-snoc,
  has-last,
}

-- `xs` are the items of the queue, first one first, in a circular list; `phead` is the first node.
pub record IsQueue (h : Nodes) (q : Lqueue) (xs : List Cell) : Type 0 where
  pub head : q.phead ≡ first xs 0
  pub count : q.count ≡ length xs
  pub ring : Dll h (last 0 xs) xs (first xs 0)

-- The last node of a segment is live.
pub live_last :
    (h : Nodes) (before after : ℕ) (c : Cell) (xs : List Cell)
    → Dll h before (c ∷ xs) after
    → (n : Node) × (h (last c.addr xs) ≡ some n) × (last c.addr xs ≢ 0)
live_last h before after c [] (e, nz, out, d) = (cell_node c after before, e, nz)
live_last h before after c (x ∷ xs) (e, nz, out, d) = live_last h c.addr after x xs d

-- What `link` makes of a circular list `c ∷ xs` and a new node `n`: the list is open now, with
-- `n` before it and behind it.
record Linked (q : Lqueue) (m : Mem) (n : ℕ) (c : Cell) (xs : List Cell) (new : Node) : Type 0 where
  out : Nodes
  runs : link q n m ≡ done tt (record m { nodes = out })
  node : out n ≡ some (record new { next = c.addr; prev = last c.addr xs })
  opened : Dll out n (c ∷ xs) n

link-Linked :
    (q : Lqueue) (m : Mem) (n : ℕ) (c : Cell) (xs : List Cell) (new : Node)
    → q.phead ≡ c.addr
    → Dll m.nodes (last c.addr xs) (c ∷ xs) c.addr
    → n ≢ 0
    → has n (c ∷ xs) ≡ false
    → m.nodes n ≡ some new
    → Linked q m n c xs new
unfolding link
link-Linked q m n c xs new head d nz fresh live =
    let l = last c.addr xs in
    let apart : n ≢ c.addr = ground arith in
    let apart_last : n ≢ l = λ i. cc (fresh, has-last c xs, ap (λ z. has z (c ∷ xs)) i) in
    let h₁ = modify m.nodes n (with_next c.addr) in
    let d₁ : Dll h₁ l (c ∷ xs) c.addr =
      frame-modify m.nodes l c.addr n (with_next c.addr) (c ∷ xs) fresh d in
    let h₂ = modify h₁ l (with_next n) in
    let d₂ : Dll h₂ l (c ∷ xs) n = relink_next h₁ l c.addr n c xs d₁ in
    let h₃ = modify h₂ n (with_prev l) in
    let d₃ : Dll h₃ l (c ∷ xs) n = frame-modify h₂ l n n (with_prev l) (c ∷ xs) fresh d₂ in
    let h₄ = modify h₃ c.addr (with_prev n) in
    let d₄ : Dll h₄ n (c ∷ xs) n = relink_prev h₃ l n n c xs d₃ in
    let m₁ : Mem = record m { nodes = h₁ } in
    let m₂ : Mem = record m { nodes = h₂ } in
    let m₃ : Mem = record m { nodes = h₃ } in
    let (nl, el, nzl) = live_last h₁ l c.addr c xs d₁ in
    let e₁ = modify_self m.nodes n (with_next c.addr) live in
    let e₂ = modify_ne h₁ l (with_next n) n apart_last ∙ e₁ in
    let e₃ = modify_self h₂ n (with_prev l) e₂ in
    record {
      out = h₄;
      runs = ground (
        arith,
        set_next_eq n m nz live c.addr,
        load_eq c.addr m₁ d.1 d₁.0,
        set_next_eq l m₁ nzl el n,
        load_eq c.addr m₂ d.1 d₂.0,
        set_prev_eq n m₂ nz e₂ l,
        set_prev_eq c.addr m₃ d.1 d₃.0 n,
      );
      node = modify_ne h₃ c.addr (with_prev n) n apart ∙ e₃;
      opened = d₄;
    }

-- In an empty queue the new node is linked to itself.
link_empty :
    (q : Lqueue) (m : Mem) (n : ℕ) (new : Node)
    → q.phead ≡ 0
    → n ≢ 0
    → m.nodes n ≡ some new
    → (g : Nodes) × (link q n m ≡ done tt (record m { nodes = g }))
      × (g n ≡ some (record new { next = n; prev = n }))
unfolding link
link_empty q m n new head nz live =
    let h₁ = modify m.nodes n (with_next n) in
    let e₁ = modify_self m.nodes n (with_next n) live in
    let m₁ : Mem = record m { nodes = h₁ } in
    (
      modify h₁ n (with_prev n),
      ground (arith, set_next_eq n m nz live n, set_prev_eq n m₁ nz e₁ n),
      modify_self h₁ n (with_prev n) e₁,
    )

abbrev pub cell : ℕ → ℕ → ℤ → Cell
cell n pbuf length = record { addr = n; pqdata = pbuf; len = length }

-- What an insertion of a live node `n` does to the memory `m`, with `ys` the items afterwards.
abbrev pub Inserts : (Lqueue → ℕ → Mem → Run Lqueue) → Lqueue → Mem → ℕ → List Cell → Type 0
Inserts insert q m n ys =
    (q' : Lqueue) × (g : Nodes) × (insert q n m ≡ done q' (record m { nodes = g }))
    × IsQueue g q' ys
    × (q'.size ≡ q.size)

module _ (q : Lqueue) (m : Mem) (n pbuf : ℕ) (len : ℤ) where
  pub insert_front-Inserts :
      (xs : List Cell)
      → IsQueue m.nodes q xs
      → n ≢ 0
      → has n xs ≡ false
      → m.nodes n ≡ some (new_node pbuf len)
      → Inserts insert_front q m n (cell n pbuf len ∷ xs)
  unfolding insert_front
  insert_front-Inserts [] v nz fresh live =
      let (g, runs, e) = link_empty q m n (new_node pbuf len) v.head nz live in
      (
        record q { phead = n; count = q.count + 1 },
        g,
        ground (arith, runs),
        record { head = refl; count = omega arith; ring = (e, nz, refl, tt) },
        refl,
      )
  insert_front-Inserts (c ∷ xs) v nz fresh live =
      let k = link-Linked q m n c xs (new_node pbuf len) v.head v.ring nz fresh live in
      (
        record q { phead = n; count = q.count + 1 },
        k.out,
        ground (arith, k.runs),
        record { head = refl; count = omega arith; ring = (k.node, nz, fresh, k.opened) },
        refl,
      )

  pub insert_back-Inserts :
      (xs : List Cell)
      → IsQueue m.nodes q xs
      → n ≢ 0
      → has n xs ≡ false
      → m.nodes n ≡ some (new_node pbuf len)
      → Inserts insert_back q m n (xs ++ (cell n pbuf len ∷ []))
  unfolding insert_back
  insert_back-Inserts [] v nz fresh live =
      let (g, runs, e) = link_empty q m n (new_node pbuf len) v.head nz live in
      (
        record q { phead = n; count = q.count + 1 },
        g,
        ground (arith, runs),
        record { head = refl; count = omega arith; ring = (e, nz, refl, tt) },
        refl,
      )
  insert_back-Inserts (c ∷ xs) v nz fresh live =
      let k = link-Linked q m n c xs (new_node pbuf len) v.head v.ring nz fresh live in
      let new = cell n pbuf len in
      let d : Dll k.out n ((c ∷ xs) ++ (new ∷ [])) c.addr =
        snoc k.out n c.addr (c ∷ xs) new k.opened k.node nz fresh in
      let e : last 0 ((c ∷ xs) ++ (new ∷ [])) ≡ n = last-snoc c.addr xs new in
      (
        record q { phead = q.phead; count = q.count + 1 },
        k.out,
        ground (arith, k.runs, v.ring.1),
        record {
          head = v.head;
          count = omega (arith, v.count, length-append (c ∷ xs) (new ∷ []));
          ring = subst (λ b. Dll k.out b ((c ∷ xs) ++ (new ∷ [])) c.addr) (sym e) d;
        },
        refl,
      )
