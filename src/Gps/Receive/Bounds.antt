-- ===== src/Gps/Receive/Bounds.antt =====
-- `parse_buf` stays within the bytes it is given.
use cfunction.Prelude.{
  ltb, leb, ◌==◌, ltb→lt, Bool-cases, length, get_elem?, take, drop, length-set, Holds, Holds-bind,
  Holds-then, Holds-if, Holds-then, ℕ, zero, suc, ◌+◌, ◌-◌, ◌≤◌, ◌≡◌, refl, ◌∙◌, inl, inr, List,
  arith,
}
use cfunction.Gps.Packet.{poke, parse_packet, digits_match, dispatch, string, before, check_from}
use cfunction.Gps.Frames.{seek, split, after_return, parse_buf}

poke-length : (rx : List ℕ) (i v : ℕ) → Holds (λ rx'. length rx' ≡ length rx) (poke rx i v)
unfolding poke
poke-length rx i v = Holds-if _ (ltb i (length rx)) _ _ (length-set rx i v) tt

parse_packet-length :
    (rx : List ℕ) (p : ℕ) → Holds (λ result. length result.1 ≡ length rx) (parse_packet rx p)
unfolding parse_packet
parse_packet-length rx p = Holds-then _ (string (drop p rx)) _ (λ s.
    let stop = p + length s in
    let crc = check_from 0 (take (length s - 4) (drop 1 s)) in
    Holds-then _ (before rx stop 3) _ (λ star.
      Holds-if _ (star == b'*') _ _
        (Holds-then _ (digits_match rx stop crc) _ (λ ok.
          Holds-if _ ok _ _
            (Holds-bind (λ rx'. length rx' ≡ length rx) _ (poke rx (stop - 3) 0) _
              (poke-length rx (stop - 3) 0) (λ rx' e. Holds-then _ (dispatch rx' p) _ (λ v. e)))
            refl))
        refl))

after_return-bound :
    (rx : List ℕ) (p len i : ℕ) → i ≤ len → Holds (λ next. next.0 ≤ len) (after_return rx p len i)
unfolding after_return
after_return-bound rx p len i h = elim (Bool-cases (ltb i len)) [
  | inl y ↦ rw y (
      Holds-then _ (get_elem? rx (p + i)) _ (λ c.
        Holds-if _ (c == b'\n') _ _ (omega (arith, ltb→lt i len y))
          (omega (arith, ltb→lt i len y))))
  | inr n ↦ rw n h
]

split-bound :
    (k : ℕ) (rx : List ℕ) (p len i istart : ℕ)
    → istart ≤ len
    → Holds (λ result. (result.0 ≤ len) × (length result.1 ≡ length rx)) (split k rx p len i istart)
unfolding split
split-bound zero rx p len i istart h = tt
split-bound (suc k) rx p len i istart h = elim (Bool-cases (ltb i len)) [
  | inl y ↦ rw y (
      Holds-then _ (get_elem? rx (p + i)) _ (λ c.
        Holds-if _ (c == b'\r') _ _
          (Holds-bind (λ rx'. length rx' ≡ length rx) _ (poke rx (p + i) 0) _
            (poke-length rx (p + i) 0)
            (λ rx1 e1.
              Holds-bind (λ r. length r.1 ≡ length rx1) _ (parse_packet rx1 (p + istart)) _
                (parse_packet-length rx1 (p + istart))
                (λ r e2.
                  Holds-bind (λ n. n.0 ≤ len) _ (after_return r.1 p len (i + 1)) _
                    (after_return-bound r.1 p len (i + 1) (omega (arith, ltb→lt i len y)))
                    (λ n e3.
                      Holds-bind (λ r'. (r'.0 ≤ len) × (length r'.1 ≡ length r.1)) _
                        (split k r.1 p len n.1 n.0) _ (split-bound k r.1 p len n.1 n.0 e3)
                        (λ r' e4. (e4.0, e4.1 ∙ e2 ∙ e1))))))
          (split-bound k rx p len (i + 1) istart h)))
  | inr n ↦ rw n (h, refl)
]

pub parse_buf-bound :
    (rx : List ℕ) (p len : ℕ)
    → Holds (λ result. (result.0 ≤ len) × (length result.1 ≡ length rx)) (parse_buf rx p len)
unfolding parse_buf
parse_buf-bound rx p len = Holds-then _ (seek (len + 1) rx p len 0) _ (λ i.
    elim (Bool-cases (leb len i)) [
      | inl y ↦ rw y (omega arith, refl)
      | inr n ↦ rw n (split-bound (len + 1) rx p len i i (ground arith))
    ])
