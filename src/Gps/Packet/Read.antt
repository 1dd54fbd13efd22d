-- ===== src/Gps/Packet/Read.antt =====
-- `parse_packet` of uart/read_gps.c stays in a framed sentence: each read finds its byte 0.
use cfunction.Prelude.{
  ℕ, zero, suc, ◌+◌, ◌≤◌, ◌≡◌, ◌≢◌, refl, sym, ap, inl, inr, ◌⊎◌, true, false, some, List, [], ◌∷◌,
  ◌++◌, ◌&&◌, ◌==◌, ==_ne, if◌then◌else◌, length, length-append, drop, codes, All, append_assoc,
  Bool-cases, arith,
}
use cfunction.Gps.Packet.{
  string, starts, Verdict, wrong_crc, gnrmc, gngga, other, dispatch, parse_packet, check_from,
  hex_high, hex_low, same_letter,
}
use cfunction.Gps.Packet.Sentence.{framed, parse_packet-framed}

string_total : (xs tail : List ℕ) → (s : List ℕ) × (string (xs ++ (0 ∷ tail)) ≡ some s)
unfolding string
string_total [] tail = ([], refl)
string_total (c ∷ xs) tail =
    let (s, e) = string_total xs tail in
    elim (Bool-cases (c == 0)) [ inl y ↦ ([], rw y refl) | inr n ↦ (c ∷ s, rw (n, e) refl) ]

drop_within : (n : ℕ) (xs ys : List ℕ) → n ≤ length xs → drop n (xs ++ ys) ≡ drop n xs ++ ys
drop_within zero xs ys h = refl
drop_within (suc n) [] ys h = absurd (omega arith)
drop_within (suc n) (x ∷ xs) ys h = drop_within n xs ys (omega arith)

drop_further : (pre ys : List ℕ) (n : ℕ) → drop (length pre + n) (pre ++ ys) ≡ drop n ys
drop_further [] ys n = ap (λ m. drop m ys) (let e : 0 + n ≡ n = omega arith in e)
drop_further (x ∷ pre) ys n =
    let e : suc (length pre) + n ≡ suc (length pre + n) = omega arith in
    rw e (drop_further pre ys n)

-- A comparison ends at the byte 0 at the latest, and a name that is found fits into the body.
Fitting : (name body rest : List ℕ) → Type 0
Fitting name body rest =
    (starts name (body ++ (0 ∷ rest)) ≡ some false)
    ⊎ ((starts name (body ++ (0 ∷ rest)) ≡ some true) × (length name ≤ length body))

starts-Fitting : (name body rest : List ℕ) → All (λ c. c ≢ 0) name → Fitting name body rest
unfolding Fitting starts
starts-Fitting [] body rest h = inr (refl, omega arith)
starts-Fitting (c ∷ name) [] rest (hc, h) = inl (rw (==_ne c 0 hc) refl)
starts-Fitting (c ∷ name) (d ∷ body) rest (hc, h) = elim (Bool-cases (c == d)) [
  | inl y ↦ elim (starts-Fitting name body rest h) [
    | inl f ↦ inl (rw (y, f) refl)
    | inr (t, le) ↦ inr (rw (y, t) refl, omega arith)
  ]
  | inr n ↦ inl (rw n refl)
]

-- The string behind the name
rest_total :
    (pre : List ℕ) (c : ℕ) (body : List ℕ) (h l : ℕ) (tail : List ℕ)
    → 5 ≤ length body
    → (s : List ℕ) × (string (drop (length pre + 7) (pre ++ framed c body 0 h l tail)) ≡ some s)
rest_total pre c body h l tail le =
    let start = body ++ (0 ∷ h ∷ l ∷ []) in
    let split : body ++ (0 ∷ h ∷ l ∷ 0 ∷ tail) ≡ start ++ (0 ∷ tail) =
      sym (append_assoc body (0 ∷ h ∷ l ∷ []) (0 ∷ tail)) in
    let (s, e) = string_total (drop 6 start) tail in
    (
      s,
      rw
          (
            drop_further pre (framed c body 0 h l tail) 7,
            split,
            drop_within 6 start (0 ∷ tail) (omega (arith, length-append body (0 ∷ h ∷ l ∷ []))),
          )
          e,
    )

name_letters : (All (λ c. c ≢ 0) (codes "GNRMC")) × (All (λ c. c ≢ 0) (codes "GNGGA"))
name_letters = (
  (omega arith, (omega arith, (omega arith, (omega arith, (omega arith, tt))))),
  (omega arith, (omega arith, (omega arith, (omega arith, (omega arith, tt))))),
)

-- A sentence whose star is replaced is read without a fault.
pub dispatch-framed :
    (pre : List ℕ) (c : ℕ) (body : List ℕ) (h l : ℕ) (tail : List ℕ)
    → (v : Verdict) × (dispatch (pre ++ framed c body 0 h l tail) (length pre) ≡ some v)
unfolding dispatch Fitting
dispatch-framed pre c body h l tail =
    let rest = h ∷ l ∷ 0 ∷ tail in
    let (rmc, gga) = name_letters in
    elim (starts-Fitting (codes "GNRMC") body rest rmc) [
      | inl f ↦ elim (starts-Fitting (codes "GNGGA") body rest gga) [
        | inl g ↦ (other, rw (drop_further pre (framed c body 0 h l tail) 1, f, g) refl)
        | inr (g, le) ↦
            let (s, e) = rest_total pre c body h l tail le in
            (gngga s, rw (drop_further pre (framed c body 0 h l tail) 1, f, g, e) refl)
      ]
      | inr (f, le) ↦
          let (s, e) = rest_total pre c body h l tail le in
          elim (starts-Fitting (codes "GNGGA") body rest gga) [
            | inl g ↦ (gnrmc s, rw (drop_further pre (framed c body 0 h l tail) 1, f, g, e) refl)
            | inr (g, _) ↦
                (gnrmc s, rw (drop_further pre (framed c body 0 h l tail) 1, f, g, e) refl)
          ]
    ]

-- parse_packet on a sentence of a first character, a body, a star, two characters and a byte 0,
-- with no other byte 0, never faults: when the two are the hexadecimal digits of the exclusive or
-- of the body, in either case, a byte 0 takes the place of the star and the sentence is read; else
-- the packet is refused for its checksum and nothing is written.
pub parse_packet_lem :
    (pre : List ℕ) (c : ℕ) (body : List ℕ) (h l : ℕ) (tail : List ℕ)
    → c ≢ 0
    → All (λ c. c ≢ 0) body
    → h ≢ 0
    → l ≢ 0
    → (v : Verdict) × (dispatch (pre ++ framed c body 0 h l tail) (length pre) ≡ some v)
      × (parse_packet (pre ++ framed c body b'*' h l tail) (length pre)
          ≡ some (
              if same_letter (hex_high (check_from 0 body)) h
                && same_letter (hex_low (check_from 0 body)) l
              then (v, pre ++ framed c body 0 h l tail)
              else (wrong_crc, pre ++ framed c body b'*' h l tail)))
parse_packet_lem pre c body h l tail hc hb hh hl =
    let (v, e) = dispatch-framed pre c body h l tail in
    let ok =
      same_letter (hex_high (check_from 0 body)) h && same_letter (hex_low (check_from 0 body)) l in
    let whole = parse_packet-framed pre c body h l tail hc hb hh hl in
    elim (Bool-cases ok) [
      | inl y ↦ (v, e, rw (whole, y, e) refl)
      | inr n ↦ (v, e, rw (whole, n) refl)
    ]
