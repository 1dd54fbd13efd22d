-- ===== src/Lqueue/Dequeue.antt =====
-- The two dequeue functions on a well-formed queue.
use mathlib.Core.Path.{subst}
use cfunction.Prelude.{
  ℕ, ◌-◌, ◌≡◌, ◌≢◌, refl, ap, ◌∙◌, false, none, some, List, [], ◌∷◌, ◌++◌, arith, length-append,
  pos,
}
use cfunction.Lqueue.Store.{Node, Nodes, Mem, done, fault, put, load, set_next, set_prev, free_node}
use cfunction.Lqueue.{Lqueue, Out, dequeue_front, dequeue_back}
use cfunction.Lqueue.Ring.{
  Cell, cell_node, first, last, has, Dll, with_next, with_prev, modify, modify_ne, load_eq,
  set_next_eq, set_prev_eq, free_node_eq, relink_next, relink_prev, frame-put, unsnoc, last-snoc,
  has-last,
}
use cfunction.Lqueue.Insert.{IsQueue, live_last}

-- The first node of a longer segment does not point to itself.
pub next_ne :
    (x : Cell) (zs : List Cell) (after : ℕ)
    → has x.addr zs ≡ false
    → after ≢ x.addr
    → first zs after ≢ x.addr
next_ne x [] after out ne = ne
next_ne x (z ∷ zs) after out ne = ground arith

pub put-none : (h : Nodes) (p : ℕ) → put h p none p ≡ none
unfolding put
put-none h p = ground arith

abbrev out_of : Cell → Out
out_of c = record { buf = some c.pqdata; len = some c.len }

-- The commands of `lqueue_dequeue_back` with more than one node, one after the other: `p` is the
-- first node, `c` the last and `l` the one before it.
back_runs :
    (q : Lqueue) (m m₁ m₂ m₃ : Mem) (p c l pbuf plen : ℕ) (hn ln h₁ l₁ dn : Node)
    → q.phead ≡ p
    → p ≢ 0
    → pbuf ≢ 0
    → plen ≢ 0
    → load p m ≡ done hn m
    → hn.next ≢ p
    → hn.prev ≡ c
    → load c m ≡ done ln m
    → ln.prev ≡ l
    → set_next l p m ≡ done tt m₁
    → load p m₁ ≡ done h₁ m₁
    → h₁.prev ≡ c
    → load c m₁ ≡ done l₁ m₁
    → l₁.prev ≡ l
    → set_prev p l m₁ ≡ done tt m₂
    → load c m₂ ≡ done dn m₂
    → free_node c m₂ ≡ done tt m₃
    → dequeue_back (some q) pbuf plen m
      ≡ done
          (
            pos 0,
            record { buf = some dn.pqdata; len = some dn.len },
            some (record q { count = q.count - 1 }),
          )
          m₃
unfolding dequeue_back
back_runs q m m₁ m₂ m₃ p c l pbuf plen hn ln h₁ l₁ dn e nz nb nl a b d f g i j k o r s t u =
    ground arith

-- `lqueue_dequeue_back` on a queue whose last item is `c`: it returns 0 with the buffer and the
-- length of `c`, frees its node, and leaves a well-formed queue of the items before it.
pub dequeue_back_lem :
    (q : Lqueue) (m : Mem) (ys : List Cell) (c : Cell) (pbuf plen : ℕ)
    → IsQueue m.nodes q (ys ++ (c ∷ []))
    → pbuf ≢ 0
    → plen ≢ 0
    → (q' : Lqueue) × (g : Nodes) × (dequeue_back (some q) pbuf plen m
        ≡ done
            (pos 0, record { buf = some c.pqdata; len = some c.len }, some q')
            (record m { nodes = g }))
      × IsQueue g q' ys
      × (g c.addr ≡ none)
      × (q'.size ≡ q.size)
unfolding dequeue_back
dequeue_back_lem q m [] c pbuf plen v nb nl =
    let (e, nz, out, d) = v.ring in
    (
      record q { phead = 0; count = q.count - 1 },
      put m.nodes c.addr none,
      ground (arith, v.head, load_eq c.addr m nz e, free_node_eq c.addr m nz e),
      record { head = refl; count = omega (arith, v.count); ring = tt },
      put-none m.nodes c.addr,
      refl,
    )
dequeue_back_lem q m (x ∷ zs) c pbuf plen v nb nl =
    let h = m.nodes in
    let l = last x.addr zs in
    let ring : Dll h c.addr ((x ∷ zs) ++ (c ∷ [])) x.addr =
      subst (λ b. Dll h b ((x ∷ zs) ++ (c ∷ [])) x.addr) (last-snoc x.addr zs c) v.ring in
    let (d, ec, nzc, outc) = unsnoc h c.addr x.addr (x ∷ zs) c ring in
    let apart : c.addr ≢ x.addr = ground arith in
    let apart_last : c.addr ≢ l = λ i. cc (outc, has-last x zs, ap (λ z. has z (x ∷ zs)) i) in
    let longer = next_ne x zs c.addr d.2 apart in
    let (nl', el, nzl) = live_last h c.addr c.addr x zs d in
    let h₁ = modify h l (with_next x.addr) in
    let d₁ : Dll h₁ c.addr (x ∷ zs) x.addr = relink_next h c.addr c.addr x.addr x zs d in
    let c₁ = modify_ne h l (with_next x.addr) c.addr apart_last ∙ ec in
    let h₂ = modify h₁ x.addr (with_prev l) in
    let d₂ : Dll h₂ l (x ∷ zs) x.addr = relink_prev h₁ c.addr x.addr l x zs d₁ in
    let c₂ = modify_ne h₁ x.addr (with_prev l) c.addr apart ∙ c₁ in
    let m₁ : Mem = record m { nodes = h₁ } in
    let m₂ : Mem = record m { nodes = h₂ } in
    (
      record q { count = q.count - 1 },
      put h₂ c.addr none,
      back_runs q m m₁ m₂ (record m { nodes = put h₂ c.addr none }) x.addr c.addr l pbuf plen
          (cell_node x (first zs c.addr) c.addr) (cell_node c x.addr l)
          (cell_node x (first zs x.addr) c.addr) (cell_node c x.addr l) (cell_node c x.addr l)
          v.head d.1 nb nl (load_eq x.addr m d.1 d.0) longer refl (load_eq c.addr m nzc ec) refl
          (set_next_eq l m nzl el x.addr) (load_eq x.addr m₁ d.1 d₁.0) refl
          (load_eq c.addr m₁ nzc c₁) refl (set_prev_eq x.addr m₁ d.1 d₁.0 l)
          (load_eq c.addr m₂ nzc c₂) (free_node_eq c.addr m₂ nzc c₂),
      record {
        head = v.head;
        count = omega (arith, v.count, length-append (x ∷ zs) (c ∷ []));
        ring = frame-put h₂ l x.addr c.addr none (x ∷ zs) outc d₂;
      },
      put-none h₂ c.addr,
      refl,
    )

-- `lqueue_dequeue_front` on a queue of one item: it returns 0 with the length, frees the node and
-- leaves an empty queue, but writes nothing through `pbuf`: the buffer is lost.
pub dequeue_front_single :
    (q : Lqueue) (m : Mem) (c : Cell) (pbuf plen : ℕ)
    → IsQueue m.nodes q (c ∷ [])
    → pbuf ≢ 0
    → plen ≢ 0
    → (q' : Lqueue) × (g : Nodes) × (dequeue_front (some q) pbuf plen m
        ≡ done (pos 0, record { buf = none; len = some c.len }, some q') (record m { nodes = g }))
      × IsQueue g q' []
unfolding dequeue_front
dequeue_front_single q m c pbuf plen v nb nl =
    let (e, nz, out, d) = v.ring in
    (
      record q { phead = 0; count = q.count - 1 },
      put m.nodes c.addr none,
      ground (arith, v.head, load_eq c.addr m nz e, free_node_eq c.addr m nz e),
      record { head = refl; count = omega (arith, v.count); ring = tt },
    )

-- A command through a dangling pointer.
pub load_fault : (p : ℕ) (m : Mem) → m.nodes p ≡ none → load p m ≡ fault
unfolding load
load_fault p m e = ground arith

-- `lqueue_dequeue_front` on a queue of two items or more: it returns 0 with the length of the first
-- item, writes nothing through `pbuf`, and unlinks and frees the first node. The other items are
-- well linked, but `phead` still points to the freed node, so that each later dequeue is
-- undefined behaviour.
pub dequeue_front_dangles :
    (q : Lqueue) (m : Mem) (x y : Cell) (zs : List Cell) (pbuf plen : ℕ)
    → IsQueue m.nodes q (x ∷ y ∷ zs)
    → pbuf ≢ 0
    → plen ≢ 0
    → (q' : Lqueue) × (m' : Mem) × (dequeue_front (some q) pbuf plen m
        ≡ done (pos 0, record { buf = none; len = some x.len }, some q') m')
      × (q'.phead ≡ x.addr)
      × (m'.nodes x.addr ≡ none)
      × IsQueue m'.nodes (record q' { phead = y.addr }) (y ∷ zs)
      × (dequeue_front (some q') pbuf plen m' ≡ fault)
      × (dequeue_back (some q') pbuf plen m' ≡ fault)
unfolding dequeue_front dequeue_back
dequeue_front_dangles q m x y zs pbuf plen v nb nl =
    let h = m.nodes in
    let l = last y.addr zs in
    let (ex, nzx, outx, d) = v.ring in
    let apart : x.addr ≢ y.addr = ground arith in
    let apart_last : x.addr ≢ l = λ i. cc (outx, has-last y zs, ap (λ z. has z (y ∷ zs)) i) in
    let (nl', el, nzl) = live_last h x.addr x.addr y zs d in
    let h₁ = modify h l (with_next y.addr) in
    let d₁ : Dll h₁ x.addr (y ∷ zs) y.addr = relink_next h x.addr x.addr y.addr y zs d in
    let x₁ = modify_ne h l (with_next y.addr) x.addr apart_last ∙ ex in
    let h₂ = modify h₁ y.addr (with_prev l) in
    let d₂ : Dll h₂ l (y ∷ zs) y.addr = relink_prev h₁ x.addr y.addr l y zs d₁ in
    let x₂ = modify_ne h₁ y.addr (with_prev l) x.addr apart ∙ x₁ in
    let m₁ : Mem = record m { nodes = h₁ } in
    let m₂ : Mem = record m { nodes = h₂ } in
    let m₃ : Mem = record m { nodes = put h₂ x.addr none } in
    let gone = put-none h₂ x.addr in
    (
      record q { count = q.count - 1 },
      m₃,
      ground (
        arith,
        v.head,
        load_eq x.addr m nzx ex,
        set_next_eq l m nzl el y.addr,
        load_eq x.addr m₁ nzx x₁,
        set_prev_eq y.addr m₁ d₁.1 d₁.0 l,
        load_eq x.addr m₂ nzx x₂,
        free_node_eq x.addr m₂ nzx x₂,
      ),
      v.head,
      gone,
      record {
        head = refl;
        count = omega (arith, v.count);
        ring = frame-put h₂ l y.addr x.addr none (y ∷ zs) outx d₂;
      },
      ground (arith, v.head, load_fault x.addr m₃ gone),
      ground (arith, v.head, load_fault x.addr m₃ gone),
    )
