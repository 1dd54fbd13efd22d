-- ===== src/Lqueue/Walk.antt =====
-- The two loops over the nodes: `lqueue_info` and `lqueue_destroy`.
use mathlib.Core.Path.{subst}
use cfunction.Prelude.{
  ℤ, ◌⊎◌, inl, inr, ◌==◌, Bool-cases, Option-cases, ℕ, zero, suc, ◌+◌, ◌≤◌, ◌<◌, ◌≡◌, ◌≢◌, refl,
  sym, ap, ◌∙◌, false, Option, none, some, List, [], ◌∷◌, map, arith, if◌then◌else◌, length, pos,
}
use cfunction.Memory
use cfunction.Lqueue.Store.{Nodes, Mem, done, fault, put, free_block}
use cfunction.Lqueue.{
  Lqueue, Destroy, call, data_destroy_ext, destroy_loop, destroy, info_loop, info,
}
use cfunction.Lqueue.Ring.{Cell, cell_node, last, has, Dll, load_eq, free_node_eq, frame-put}
use cfunction.Lqueue.Insert.{IsQueue}
use cfunction.Lqueue.Dequeue.{put-none, load_fault}

-- The line that `lqueue_info` prints of an item.
abbrev pub shown : Cell → ℤ × ℕ
shown c = (c.len, c.pqdata)

info_loop-shown :
    (m : Mem) (before p : ℕ) (c : Cell) (xs : List Cell) (fuel : ℕ)
    → Dll m.nodes before (c ∷ xs) p
    → has p xs ≡ false
    → length xs < fuel
    → info_loop fuel p c.addr m ≡ done (map shown (c ∷ xs)) m
unfolding info_loop
info_loop-shown m before p c xs zero d out h = elim h [ ]
info_loop-shown m before p c [] (suc k) (e, nz, apart, d) out h =
    ground (arith, load_eq c.addr m nz e)
info_loop-shown m before p c (x ∷ xs) (suc k) (e, nz, apart, d) out h =
    ground (
      arith,
      load_eq c.addr m nz e,
      info_loop-shown m c.addr p x xs k d (ground arith) (omega arith),
    )

-- With fuel for every item the walk of `lqueue_info` ends at the first node again: it prints each
-- item once, in order, and changes nothing.
pub info-shown :
    (q : Lqueue) (m : Mem) (xs : List Cell) (fuel : ℕ)
    → IsQueue m.nodes q xs
    → length xs ≤ fuel
    → info fuel (some q) m ≡ done (map shown xs) m
unfolding info
info-shown q m [] fuel v h = ground (arith, v.head)
info-shown q m (x ∷ xs) fuel v h =
    let (e, nz, out, d) = v.ring in
    ground
      (arith, v.head, info_loop-shown m (last x.addr xs) x.addr x xs fuel v.ring out (omega arith))

-- A call of the callback returns and leaves the nodes alone.
abbrev pub Spares : Option Destroy → ℕ → Mem → Type 0
Spares f p m = (m' : Mem) × (call f p m ≡ done tt m') × (m'.nodes ≡ m.nodes)

-- Wherever the callback returns, it leaves the nodes alone; elsewhere it is undefined itself.
abbrev pub KeepsNodes : Option Destroy → Type 0
KeepsNodes f = (p : ℕ) (m : Mem) → (call f p m ≡ fault) ⊎ Spares f p m

-- One round frees the node that it stands on and goes to the next.
round :
    (f : Option Destroy) (m : Mem) (c : Cell) (after before k : ℕ)
    → Spares f c.pqdata m
    → m.nodes c.addr ≡ some (cell_node c after before)
    → c.addr ≢ 0
    → after ≢ c.addr
    → (m' : Mem) × (destroy_loop (suc k) f c.addr m ≡ destroy_loop k f after m')
      × (m'.nodes ≡ put m.nodes c.addr none)
unfolding destroy_loop
round f m c after before k (m₁, runs, same) e nz ne =
    let e₁ = ap (λ g. g c.addr) same ∙ e in
    (
      record m₁ { nodes = put m₁.nodes c.addr none },
      ground (arith, load_eq c.addr m nz e, runs, free_node_eq c.addr m₁ nz e₁),
      ap (λ g. put g c.addr none) same,
    )

-- A callback that is undefined at the buffer of the first node
callback_faults :
    (f : Option Destroy) (m : Mem) (c : Cell) (after before k : ℕ)
    → call f c.pqdata m ≡ fault
    → m.nodes c.addr ≡ some (cell_node c after before)
    → c.addr ≢ 0
    → destroy_loop (suc k) f c.addr m ≡ fault
unfolding destroy_loop
callback_faults f m c after before k bad e nz = ground (arith, load_eq c.addr m nz e, bad)

put_lem :
    (h : Nodes) (c : Cell) (p : ℕ) → put h c.addr none p ≡ (if has p (c ∷ []) then none else h p)
unfolding put
put_lem h c p = ground arith

put_spares : (h : Nodes) (p a : ℕ) → a ≢ p → put h p none a ≡ h a
unfolding put
put_spares h p a ne = ground arith

loop_stuck :
    (f : Option Destroy) (a : ℕ) (m : Mem) (k : ℕ)
    → a ≢ 0
    → m.nodes a ≡ none
    → destroy_loop (suc k) f a m ≡ fault
unfolding destroy_loop
loop_stuck f a m k za gone = ground (arith, load_fault a m gone)

second_ne : (c x : Cell) (xs : List Cell) → has c.addr (x ∷ xs) ≡ false → x.addr ≢ c.addr
second_ne c x xs out = ground arith

-- A list that ends at a freed node: the loop goes on to it.
loop_faults :
    (f : Option Destroy) (m : Mem) (before a : ℕ) (c : Cell) (xs : List Cell) (fuel : ℕ)
    → KeepsNodes f
    → a ≢ 0
    → Dll m.nodes before (c ∷ xs) a
    → m.nodes a ≡ none
    → length xs + 1 < fuel
    → destroy_loop fuel f c.addr m ≡ fault
loop_faults f m before a c xs zero keeps za d gone h = elim h [ ]
loop_faults f m before a c [] (suc zero) keeps za d gone h = absurd (omega arith)
loop_faults f m before a c [] (suc (suc k)) keeps za (e, nz, out, d) gone h =
    elim (keeps c.pqdata m) [
      | inl bad ↦ callback_faults f m c a before (suc k) bad e nz
      | inr spares ↦
          let apart : a ≢ c.addr = λ i. cc (gone, e, ap m.nodes i) in
          let (m', goes, nodes) = round f m c a before (suc k) spares e nz apart in
          let gone' : m'.nodes a ≡ none =
            ap (λ g. g a) nodes ∙ put_spares m.nodes c.addr a apart ∙ gone in
          goes ∙ loop_stuck f a m' k za gone'
    ]
loop_faults f m before a c (x ∷ xs) (suc k) keeps za (e, nz, out, d) gone h =
    elim (keeps c.pqdata m) [
      | inl bad ↦ callback_faults f m c x.addr before k bad e nz
      | inr spares ↦
          let apart : a ≢ c.addr = λ i. cc (gone, e, ap m.nodes i) in
          let ne = second_ne c x xs out in
          let (m', goes, nodes) = round f m c x.addr before k spares e nz ne in
          let gone' : m'.nodes a ≡ none =
            ap (λ g. g a) nodes ∙ put_spares m.nodes c.addr a apart ∙ gone in
          let d' : Dll m'.nodes c.addr (x ∷ xs) a =
            subst (λ g. Dll g c.addr (x ∷ xs) a) (sym nodes)
              (frame-put m.nodes c.addr a c.addr none (x ∷ xs) out d) in
          goes ∙ loop_faults f m' c.addr a x xs k keeps za d' gone' (omega arith)
    ]

loop_faults_ring :
    (f : Option Destroy) (m : Mem) (x y : Cell) (zs : List Cell) (fuel : ℕ)
    → KeepsNodes f
    → Dll m.nodes (last y.addr zs) (x ∷ y ∷ zs) x.addr
    → length (x ∷ y ∷ zs) < fuel
    → destroy_loop fuel f x.addr m ≡ fault
loop_faults_ring f m x y zs zero keeps d h = elim h [ ]
loop_faults_ring f m x y zs (suc k) keeps (e, nz, out, d) h = elim (keeps x.pqdata m) [
  | inl bad ↦ callback_faults f m x y.addr (last y.addr zs) k bad e nz
  | inr spares ↦
      let ne = second_ne x y zs out in
      let (m', goes, nodes) = round f m x y.addr (last y.addr zs) k spares e nz ne in
      let gone : m'.nodes x.addr ≡ none = ap (λ g. g x.addr) nodes ∙ put-none m.nodes x.addr in
      let d' : Dll m'.nodes x.addr (y ∷ zs) x.addr =
        subst (λ g. Dll g x.addr (y ∷ zs) x.addr) (sym nodes)
          (frame-put m.nodes x.addr x.addr x.addr none (y ∷ zs) out d) in
      goes ∙ loop_faults f m' x.addr x.addr y zs k keeps nz d' gone (omega arith)
]

-- destroy on a queue of two items or more, with fuel for more rounds than items and any callback
-- that leaves the nodes alone wherever it returns and is undefined elsewhere: undefined behaviour.
-- The walk comes back to the first node, which it has freed, unless the callback was undefined
-- before.
pub destroy_faults :
    (q : Lqueue) (m : Mem) (x y : Cell) (zs : List Cell) (f : Option Destroy) (fuel : ℕ)
    → IsQueue m.nodes q (x ∷ y ∷ zs)
    → KeepsNodes f
    → length (x ∷ y ∷ zs) < fuel
    → destroy fuel (some q) f m ≡ fault
unfolding destroy
destroy_faults q m x y zs f fuel v keeps h =
    ground (arith, v.head, loop_faults_ring f m x y zs fuel keeps v.ring h)

-- `lqueue_data_destroy_ext` leaves the nodes alone.
pub data_destroy_ext-KeepsNodes : KeepsNodes (some data_destroy_ext)
unfolding call data_destroy_ext free_block
data_destroy_ext-KeepsNodes p m = elim (Bool-cases (p == 0)) [
  | inl y ↦ rw y (inr (m, refl, refl))
  | inr n ↦ rw n (elim (Option-cases (Memory.free m.blocks p)) [
    | inl e ↦ rw (free_block, e) (inl refl)
    | inr (b, e) ↦ rw (free_block, e) (inr (record m { blocks = b }, refl, refl))
  ])
]

-- On a queue of at most one item it frees that item, and the queue is empty and of no size.
pub destroy_short :
    (q : Lqueue) (m : Mem) (xs : List Cell) (f : Option Destroy) (fuel : ℕ)
    → IsQueue m.nodes q xs
    → ((p : ℕ) (m' : Mem) → Spares f p m')
    → length xs ≤ 1
    → length xs < fuel
    → (m' : Mem) × (destroy fuel (some q) f m
        ≡ done (some (record { count = 0; size = pos 0; phead = 0 })) m')
      × ((p : ℕ) → m'.nodes p ≡ (if has p xs then none else m.nodes p))
unfolding destroy destroy_loop
destroy_short q m xs f zero v keeps short h = elim h [ ]
destroy_short q m [] f (suc k) v keeps short h = (m, ground (arith, v.head), λ p. refl)
destroy_short q m (c ∷ []) f (suc zero) v keeps short h = absurd (omega arith)
destroy_short q m (c ∷ []) f (suc (suc k)) v keeps short h =
    let (e, nz, out, d) = v.ring in
    let (m₁, runs, same) = keeps c.pqdata m in
    let e₁ = ap (λ g. g c.addr) same ∙ e in
    (
      record m₁ { nodes = put m₁.nodes c.addr none },
      ground (arith, v.head, load_eq c.addr m nz e, runs, free_node_eq c.addr m₁ nz e₁),
      λ p. ap (λ g. put g c.addr none p) same ∙ (put_lem m.nodes c p),
    )
destroy_short q m (c ∷ x ∷ xs) f (suc k) v keeps short h = absurd (omega arith)
