-- ===== src/Crc/Parity.antt =====
-- crc/bcc.c: the block check character.
use Prim.Native.Nat.{bit_xor}
use mathlib.Core.Logic.{∥∥₁_elim}
use mathlib.Core.List.{Perm, Permᴰ}
use native.Mathlib.Nat.{ℕ_set}
use cfunction.Prelude.{ℕ, ◌≡◌, refl, sym, ap, ap₂, ◌∙◌, List, [], ◌∷◌, ◌++◌}
use cfunction.Bits.{bit_xor_self, bit_xor_assoc, bit_xor_comm, bit_xor-zero, zero-bit_xor}
use cfunction.Crc.{bcc_from, bcc}

bcc_from-bcc : (crc : ℕ) (buf : List ℕ) → bcc_from crc buf ≡ bit_xor crc (bcc buf)
unfolding bcc bcc_from
bcc_from-bcc crc [] = sym (bit_xor-zero crc)
bcc_from-bcc crc (b ∷ buf) =
    bcc_from-bcc (bit_xor crc b) buf
    ∙ bit_xor_assoc crc b (bcc buf)
    ∙ ap (bit_xor crc) (sym (bcc_from-bcc b buf) ∙ ap (λ x. bcc_from x buf) (sym (zero-bit_xor b)))

bcc-cons : (b : ℕ) (buf : List ℕ) → bcc (b ∷ buf) ≡ bit_xor b (bcc buf)
unfolding bcc bcc_from
bcc-cons b buf = bcc_from-bcc (bit_xor 0 b) buf ∙ ap (λ x. bit_xor x (bcc buf)) (zero-bit_xor b)

bcc-append : (xs ys : List ℕ) → bcc (xs ++ ys) ≡ bit_xor (bcc xs) (bcc ys)
unfolding bcc
bcc-append [] ys = sym (zero-bit_xor (bcc ys))
bcc-append (x ∷ xs) ys =
    bcc-cons x (xs ++ ys)
    ∙ ap (bit_xor x) (bcc-append xs ys)
    ∙ sym (bit_xor_assoc x (bcc xs) (bcc ys))
    ∙ ap (λ z. bit_xor z (bcc ys)) (sym (bcc-cons x xs))

-- A message followed by its check character has the check character 0.
pub bcc-append_self : (buf : List ℕ) → bcc (buf ++ (bcc buf ∷ [])) ≡ 0
unfolding bcc
bcc-append_self buf =
    bcc-append buf (bcc buf ∷ [])
    ∙ ap (bit_xor (bcc buf)) (bcc-cons (bcc buf) [] ∙ bit_xor-zero (bcc buf))
    ∙ bit_xor_self (bcc buf)

two : (a b : ℕ) (l : List ℕ) → bcc (a ∷ b ∷ l) ≡ bit_xor (bit_xor a b) (bcc l)
two a b l = bcc-cons a (b ∷ l) ∙ ap (bit_xor a) (bcc-cons b l) ∙ sym (bit_xor_assoc a b (bcc l))

perm-bcc : {xs ys : List ℕ} → Permᴰ xs ys → bcc xs ≡ bcc ys
perm-bcc Permᴰ.nil = refl
perm-bcc (Permᴰ.cons {a} {b} {l₁} {l₂} e d) =
    bcc-cons a l₁ ∙ ap₂ bit_xor e (perm-bcc d) ∙ sym (bcc-cons b l₂)
perm-bcc (Permᴰ.swap {a} {b} {a'} {b'} {l} e e') =
    two a b l
    ∙ ap₂ (λ x y. bit_xor (bit_xor x y) (bcc l)) e e'
    ∙ ap (λ x. bit_xor x (bcc l)) (bit_xor_comm b' a')
    ∙ sym (two a' b' l)
perm-bcc (Permᴰ.trans d d') = perm-bcc d ∙ perm-bcc d'

-- The check character does not depend on the order of the bytes, so it misses every transposition.
pub bcc-perm : {xs ys : List ℕ} → Perm xs ys → bcc xs ≡ bcc ys
bcc-perm p = ∥∥₁_elim p (ℕ_set _ _) perm-bcc
