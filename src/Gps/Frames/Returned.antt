-- ===== src/Gps/Frames/Returned.antt =====
-- `parse_buf` of uart/read_gps.c from the end of a packet on.
use cfunction.Prelude.{
  ℕ, suc, ◌+◌, ◌<◌, ◌≡◌, ◌≢◌, refl, sym, ap, ◌∙◌, inl, inr, Bool, true, false, Option, some, List,
  [], ◌∷◌, ◌++◌, ◌>>=◌, ltb, lt→ltb, if◌then◌else◌, length, length-append, All, append_assoc,
  set-append, Option-cases, arith,
}
use cfunction.Gps.Packet.{Verdict, wrong_crc, dispatch, poke, parse_packet}
use cfunction.Gps.Packet.Sentence.{framed}
use cfunction.Gps.Frames.{after_return, split}
use cfunction.Gps.Frames.Scan.{at, split-fragment}

-- `split` behind the packet that ends at `i`
abbrev pub continue : (k p len i : ℕ) → Verdict × List ℕ → Option (ℕ × List ℕ × List Verdict)
continue k p len i (v, rx) = do
  (istart, i) ← after_return rx p len (i + 1)
  (n, rx, vs) ← split k rx p len i istart
  some (n, rx, v ∷ vs)

pub split-return :
    (k : ℕ) (before rest : List ℕ) (p len i istart : ℕ)
    → length before ≡ p + i
    → i < len
    → split (suc k) (before ++ (b'\r' ∷ rest)) p len i istart
      ≡ (parse_packet (before ++ (0 ∷ rest)) (p + istart) >>= continue k p len i)
unfolding split poke
split-return k before rest p len i istart hb hi =
    let y : ltb i len ≡ true = lt→ltb i len hi in
    let z : ltb (length before) (length (before ++ (b'\r' ∷ rest))) ≡ true =
      lt→ltb (length before) (length (before ++ (b'\r' ∷ rest)))
        (omega (arith, length-append before (b'\r' ∷ rest))) in
    rw (y, at before b'\r' rest (p + i) (sym hb), sym hb, z, set-append before b'\r' rest 0) refl

-- A line feed follows, then a fragment.
continue-fragment :
    (k : ℕ) (before fragment rest : List ℕ) (p len i : ℕ) (v : Verdict)
    → length before ≡ p + i + 1
    → All (λ c. c ≢ b'\r') fragment
    → i + 2 + length fragment ≡ len
    → continue (length fragment + suc k) p len i (v, before ++ (b'\n' ∷ (fragment ++ rest)))
      ≡ some (i + 2, before ++ (b'\n' ∷ (fragment ++ rest)), v ∷ [])
unfolding after_return
continue-fragment k before fragment rest p len i v hb hf hn =
    let next = before ++ (b'\n' ∷ []) in
    let y : ltb (i + 1) len ≡ true = lt→ltb (i + 1) len (omega arith) in
    let e : before ++ (b'\n' ∷ (fragment ++ rest)) ≡ next ++ (fragment ++ rest) =
      sym (append_assoc before (b'\n' ∷ []) (fragment ++ rest)) in
    let a : i + 1 + 1 ≡ i + 2 = omega arith in
    let b : i + 1 + 2 ≡ i + 2 + 1 = omega arith in
    let f =
      split-fragment k next fragment rest p len (i + 2)
        (omega (arith, length-append before (b'\n' ∷ []))) hf (omega arith) in
    rw (y, at before b'\n' (fragment ++ rest) (p + (i + 1)) (omega arith), a, b, e, f) refl

abbrev pub sentence : (body : List ℕ) (h l : ℕ) → List ℕ
sentence body h l = b'$' ∷ (body ++ (b'*' ∷ h ∷ l ∷ []))

-- A fragment behind a sentence, in both states of its star
unfoldable pub parsed : (before body : List ℕ) (star h l : ℕ) (tail : List ℕ) → List ℕ
parsed before body star h l tail = before ++ framed b'$' body star h l tail

parsed-split :
    (before body : List ℕ) (star h l : ℕ) (tail : List ℕ)
    → parsed before body star h l tail
      ≡ (before ++ (b'$' ∷ (body ++ (star ∷ h ∷ l ∷ 0 ∷ [])))) ++ tail
unfolding parsed
parsed-split before body star h l tail =
    ap (λ s. before ++ (b'$' ∷ s)) (sym (append_assoc body (star ∷ h ∷ l ∷ 0 ∷ []) tail))
    ∙ sym (append_assoc before (b'$' ∷ (body ++ (star ∷ h ∷ l ∷ 0 ∷ []))) tail)

pub length-sentence : (body : List ℕ) (h l : ℕ) → length (sentence body h l) ≡ length body + 4
length-sentence body h l = omega (arith, length-append body (b'*' ∷ h ∷ l ∷ []))

continue-parsed :
    (k : ℕ) (before body : List ℕ) (star h l : ℕ) (fragment rest : List ℕ) (p len i : ℕ)
    (v : Verdict)
    → length before + length body + 4 ≡ p + i
    → All (λ c. c ≢ b'\r') fragment
    → i + 2 + length fragment ≡ len
    → continue
        (length fragment + suc k)
        p
        len
        i
        (v, parsed before body star h l (b'\n' ∷ (fragment ++ rest)))
      ≡ some (i + 2, parsed before body star h l (b'\n' ∷ (fragment ++ rest)), v ∷ [])
continue-parsed k before body star h l fragment rest p len i v hb hf hn =
    let first = before ++ (b'$' ∷ (body ++ (star ∷ h ∷ l ∷ 0 ∷ []))) in
    let n : length first ≡ p + i + 1 = omega (
      arith,
      length-append before (b'$' ∷ (body ++ (star ∷ h ∷ l ∷ 0 ∷ []))),
      length-append body (star ∷ h ∷ l ∷ 0 ∷ []),
    ) in
    rw (parsed-split before body star h l (b'\n' ∷ (fragment ++ rest)))
      (continue-fragment k first fragment rest p len i v n hf hn)

-- What becomes of the sentence: accepted and read, or refused
abbrev pub Outcome : Type 0
Outcome = Option (ℕ × List ℕ × List Verdict)

unfoldable pub outcome :
    (ok : Bool) (n : ℕ) (before body : List ℕ) (h l : ℕ) (tail : List ℕ) → Outcome
unfolding parsed
outcome true n before body h l tail = do
  v ← dispatch (parsed before body 0 h l tail) (length before)
  some (n, parsed before body 0 h l tail, v ∷ [])
outcome false n before body h l tail = some (n, parsed before body b'*' h l tail, wrong_crc ∷ [])

pub decide :
    (ok : Bool) (k : ℕ) (before body : List ℕ) (h l : ℕ) (fragment rest : List ℕ) (p len i : ℕ)
    → length before + length body + 4 ≡ p + i
    → All (λ c. c ≢ b'\r') fragment
    → i + 2 + length fragment ≡ len
    → ((if ok
          then (do
            v ← dispatch (parsed before body 0 h l (b'\n' ∷ (fragment ++ rest))) (length before)
            some (v, parsed before body 0 h l (b'\n' ∷ (fragment ++ rest))))
          else some (wrong_crc, parsed before body b'*' h l (b'\n' ∷ (fragment ++ rest))))
        >>= continue (length fragment + suc k) p len i)
      ≡ outcome ok (i + 2) before body h l (b'\n' ∷ (fragment ++ rest))
unfolding outcome
decide true k before body h l fragment rest p len i hb hf hn =
    elim (Option-cases
      (dispatch (parsed before body 0 h l (b'\n' ∷ (fragment ++ rest))) (length before))) [
        | inl e ↦ rw e refl
        | inr (v, e) ↦ rw e (continue-parsed k before body 0 h l fragment rest p len i v hb hf hn)
      ]
decide false k before body h l fragment rest p len i hb hf hn =
    continue-parsed k before body b'*' h l fragment rest p len i wrong_crc hb hf hn
