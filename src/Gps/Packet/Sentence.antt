-- ===== src/Gps/Packet/Sentence.antt =====
-- What `parse_packet` of uart/read_gps.c makes of a framed sentence.
use cfunction.Prelude.{
  ℕ, suc, ◌+◌, ◌-◌, ◌≤◌, ◌≡◌, ◌≢◌, refl, sym, ap, ◌∙◌, Bool, true, false, ◌&&◌, some, List, [], ◌∷◌,
  ◌++◌, ◌>>=◌, ltb, lt→ltb, ==_ne, if◌then◌else◌, get_elem?, length, length-append, All, All-append,
  append_assoc, get_elem?-append, drop-append, take-append, set-append, arith,
}
use cfunction.Gps.Packet.{
  string, before, poke, check_from, hex_high, hex_low, same_letter, digits_match, wrong_crc,
  dispatch, parse_packet,
}

-- The bytes behind the place of a sentence: its first character, its body, the star and two
-- characters, and what follows the byte 0.
abbrev pub framed : (c : ℕ) (body : List ℕ) (star h l : ℕ) (tail : List ℕ) → List ℕ
framed c body star h l tail = c ∷ (body ++ (star ∷ h ∷ l ∷ 0 ∷ tail))

string-append : (s tail : List ℕ) → All (λ c. c ≢ 0) s → string (s ++ (0 ∷ tail)) ≡ some s
unfolding string
string-append [] tail h = refl
string-append (c ∷ s) tail (hc, h) = rw (==_ne c 0 hc, string-append s tail h) refl

string-framed :
    (c : ℕ) (body : List ℕ) (h l : ℕ) (tail : List ℕ)
    → c ≢ 0
    → All (λ c. c ≢ 0) body
    → h ≢ 0
    → l ≢ 0
    → string (framed c body b'*' h l tail) ≡ some (c ∷ (body ++ (b'*' ∷ h ∷ l ∷ [])))
string-framed c body h l tail hc hb hh hl =
    ap (λ s. string (c ∷ s)) (sym (append_assoc body (b'*' ∷ h ∷ l ∷ []) (0 ∷ tail)))
    ∙ string-append (c ∷ (body ++ (b'*' ∷ h ∷ l ∷ []))) tail
        (hc, All-append (λ c. c ≢ 0) body (b'*' ∷ h ∷ l ∷ []) hb (omega arith, (hh, (hl, tt))))

-- A read before the end of the packet
before-framed :
    (pre : List ℕ) (c : ℕ) (body : List ℕ) (h l : ℕ) (tail : List ℕ) (k d : ℕ)
    → k ≤ 3
    → get_elem? (b'*' ∷ h ∷ l ∷ 0 ∷ tail) (3 - k) ≡ some d
    → before (pre ++ framed c body b'*' h l tail) (length pre + (length body + 4)) k ≡ some d
unfolding before
before-framed pre c body h l tail k d hk e =
    let n : ltb (length pre + (length body + 4)) k ≡ false = ground arith in
    let i : length pre + (length body + 4) - k ≡ length pre + (1 + (length body + (3 - k))) =
      omega arith in
    let j : 1 + (length body + (3 - k)) ≡ suc (length body + (3 - k)) = omega arith in
    rw
      (
        n,
        i,
        get_elem?-append pre (framed c body b'*' h l tail) (1 + (length body + (3 - k))),
        j,
        get_elem?-append body (b'*' ∷ h ∷ l ∷ 0 ∷ tail) (3 - k),
      )
      e

second_only_after : (a b : Bool) → (if a then some b else some false) ≡ some (a && b)
second_only_after true b = refl
second_only_after false b = refl

digits_match-framed :
    (pre : List ℕ) (c : ℕ) (body : List ℕ) (h l : ℕ) (tail : List ℕ) (crc : ℕ)
    → digits_match (pre ++ framed c body b'*' h l tail) (length pre + (length body + 4)) crc
      ≡ some (same_letter (hex_high crc) h && same_letter (hex_low crc) l)
unfolding digits_match
digits_match-framed pre c body h l tail crc =
    rw
      (
        before-framed pre c body h l tail 2 h (omega arith) refl,
        before-framed pre c body h l tail 1 l (omega arith) refl,
      )
      (second_only_after (same_letter (hex_high crc) h) (same_letter (hex_low crc) l))

poke-framed :
    (pre : List ℕ) (c : ℕ) (body : List ℕ) (h l : ℕ) (tail : List ℕ)
    → poke (pre ++ framed c body b'*' h l tail) (length pre + (length body + 4) - 3) 0
      ≡ some (pre ++ framed c body 0 h l tail)
unfolding poke
poke-framed pre c body h l tail =
    let start = pre ++ (c ∷ body) in
    let rest = h ∷ l ∷ 0 ∷ tail in
    let e : (s : ℕ) → pre ++ (c ∷ (body ++ (s ∷ rest))) ≡ start ++ (s ∷ rest) =
      λ s. sym (append_assoc pre (c ∷ body) (s ∷ rest)) in
    let i : length pre + (length body + 4) - 3 ≡ length start =
      omega (arith, length-append pre (c ∷ body)) in
    let y : ltb (length start) (length (start ++ (b'*' ∷ rest))) ≡ true =
      lt→ltb (length start) (length (start ++ (b'*' ∷ rest)))
        (omega (arith, length-append start (b'*' ∷ rest))) in
    rw (e b'*', e 0, i, y, set-append start b'*' rest 0) refl

pub parse_packet-framed :
    (pre : List ℕ) (c : ℕ) (body : List ℕ) (h l : ℕ) (tail : List ℕ)
    → c ≢ 0
    → All (λ c. c ≢ 0) body
    → h ≢ 0
    → l ≢ 0
    → parse_packet (pre ++ framed c body b'*' h l tail) (length pre) ≡ (
        if same_letter (hex_high (check_from 0 body)) h
          && same_letter (hex_low (check_from 0 body)) l
        then (do
          v ← dispatch (pre ++ framed c body 0 h l tail) (length pre)
          some (v, pre ++ framed c body 0 h l tail))
        else some (wrong_crc, pre ++ framed c body b'*' h l tail))
unfolding parse_packet
parse_packet-framed pre c body h l tail hc hb hh hl =
    let end = b'*' ∷ h ∷ l ∷ [] in
    let n : suc (length (body ++ end)) ≡ length body + 4 = omega (arith, length-append body end) in
    let m : length body + 4 - 4 ≡ length body = omega arith in
    rw
      (
        drop-append pre (framed c body b'*' h l tail),
        string-framed c body h l tail hc hb hh hl,
        n,
        m,
        take-append body end,
        before-framed pre c body h l tail 3 b'*' (omega arith) refl,
        digits_match-framed pre c body h l tail (check_from 0 body),
        poke-framed pre c body h l tail,
      )
      refl
