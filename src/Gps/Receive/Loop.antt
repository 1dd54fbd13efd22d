-- ===== src/Gps/Receive/Loop.antt =====
-- The positions of the receive buffer through the rounds of the loop.
use cfunction.Prelude.{
  ltb, Bool-cases, length, take, drop, length-append, same, ◌>>=◌, Holds, Holds-bind, ◌↔◌, ℕ, zero,
  suc, ◌+◌, ◌-◌, ◌≤◌, ◌<◌, ◌≡◌, refl, ap, ◌∙◌, ◌↔◌, inl, inr, Option, none, some, List, [], ◌∷◌,
  ◌++◌, arith,
}
use cfunction.Gps.Frames.{parse_buf}
use cfunction.Gps.Receive.{
  buf_size, min_size, Rx, Dread, timeout, failed, got, move_down, make_room, fill, after_read,
  receive,
}
use cfunction.Gps.Receive.Bounds.{parse_buf-bound}

pub record IsSound (s : Rx) : Type 0 where
  pub whole : length s.rx_buf ≡ buf_size
  pub ordered : s.read_pos ≤ s.write_pos
  pub ended : s.write_pos ≤ buf_size - 1
  pub few : s.num_errors ≤ 5

-- The rounds of the loop over what `dread` comes to: the state, if none of them is undefined.
unfoldable pub rounds : Rx → List Dread → Option Rx
rounds s [] = some s
rounds s (event ∷ events) = do (t, verdicts, again) ← receive s event; rounds t events

length-take-drop : (n : ℕ) (xs : List ℕ) → length (take n xs) + length (drop n xs) ≡ length xs
length-take-drop zero xs = omega arith
length-take-drop (suc n) [] = refl
length-take-drop (suc n) (x ∷ xs) = omega (arith, length-take-drop n xs)

length-take : (n : ℕ) (xs : List ℕ) → n ≤ length xs → length (take n xs) ≡ n
length-take zero xs h = refl
length-take (suc n) [] h = absurd (omega arith)
length-take (suc n) (x ∷ xs) h = ap suc (length-take n xs (omega arith))

length-move_down :
    (rx : List ℕ) (read n : ℕ)
    → read + n ≤ length rx
    → Holds (λ rx'. (length rx' ≡ length rx) × (n ≤ read)) (move_down rx read n)
unfolding move_down
length-move_down rx read n h =
    let a = length-take-drop read rx in
    let b = length-take read rx (omega arith) in
    let c : length (take n (drop read rx)) ≡ n =
      length-take n (drop read rx) (omega (arith, a, b)) in
    let d = length-take-drop n rx in
    let e = length-take n rx (omega arith) in
    let f = length-append (take n (drop read rx)) (drop n rx) in
    elim (Bool-cases (ltb read n)) [
      | inl y ↦ rw y tt
      | inr z ↦ rw z (omega (arith, c, d, e, f), ground (arith, z))
    ]

-- Room for a line is made, unless the copy overlaps.
pub make_room-Holds :
    (s : Rx)
    → IsSound s
    → Holds (λ t. IsSound t × (t.write_pos + min_size ≤ buf_size - 1)) (make_room s)
unfolding make_room
make_room-Holds s inv = elim (Bool-cases (ltb (buf_size - 1 - s.write_pos) min_size)) [
  | inl y ↦
      let n = s.write_pos - s.read_pos in
      rw y (
        Holds-bind (λ rx'. (length rx' ≡ length s.rx_buf) × (n ≤ s.read_pos)) _
          (move_down s.rx_buf s.read_pos n) _
          (length-move_down s.rx_buf s.read_pos n
            (omega (arith, inv.whole, inv.ordered, inv.ended)))
          (λ rx' (same, apart). (
            record {
              whole = same ∙ inv.whole;
              ordered = omega arith;
              ended = omega (arith, inv.ended);
              few = inv.few;
            },
            omega (arith, apart, inv.ended, inv.ordered),
          )))
  | inr z ↦ rw z (inv, ground (arith, z))
]

length-fill :
    (rx : List ℕ) (write_pos : ℕ) (bytes : List ℕ)
    → length rx ≡ buf_size
    → write_pos ≤ buf_size - 1
    → Holds
        (λ rx'. (length rx' ≡ buf_size) × (write_pos + length bytes ≤ buf_size - 1))
        (fill rx write_pos bytes)
unfolding fill
length-fill rx write_pos bytes whole ended =
    let n = length bytes in
    let rest = drop (write_pos + n + 1) rx in
    elim (Bool-cases (ltb (buf_size - 1 - write_pos) n)) [
      | inl y ↦ rw y tt
      | inr z ↦
          let fits : write_pos + n ≤ buf_size - 1 = ground (arith, z) in
          let a = length-take write_pos rx (omega (arith, whole)) in
          let b = length-take-drop (write_pos + n + 1) rx in
          let c = length-take (write_pos + n + 1) rx (omega (arith, whole, fits)) in
          let d = length-append (take write_pos rx) (bytes ++ (0 ∷ rest)) in
          let e = length-append bytes (0 ∷ rest) in
          rw z (omega (arith, a, b, c, d, e, whole, fits), fits)
    ]

after_read-Holds :
    (s : Rx) (event : Dread) → IsSound s → Holds (λ r. IsSound r.0) (after_read s event)
unfolding after_read
after_read-Holds s timeout inv = inv
after_read-Holds s failed inv = elim (Bool-cases (ltb 5 (s.num_errors + 1))) [
  | inl y ↦
      rw y
        (record { whole = inv.whole; ordered = inv.ordered; ended = inv.ended; few = omega arith })
  | inr z ↦ rw z (record {
    whole = inv.whole;
    ordered = inv.ordered;
    ended = inv.ended;
    few = ground (arith, z);
  })
]
after_read-Holds s (got bytes) inv =
    let w = s.write_pos + length bytes in
    Holds-bind (λ rx'. (length rx' ≡ buf_size) × (w ≤ buf_size - 1)) _
      (fill s.rx_buf s.write_pos bytes) _
      (length-fill s.rx_buf s.write_pos bytes inv.whole inv.ended)
      (λ rx' (whole, fits).
        Holds-bind (λ r. (r.0 ≤ w - s.read_pos) × (length r.1 ≡ length rx')) _
          (parse_buf rx' s.read_pos (w - s.read_pos)) _
          (parse_buf-bound rx' s.read_pos (w - s.read_pos))
          (λ r (used, same). record {
            whole = same ∙ whole;
            ordered = omega (arith, used, inv.ordered);
            ended = fits;
            few = inv.few;
          }))

receive-IsSound : (s : Rx) (event : Dread) → IsSound s → Holds (λ r. IsSound r.0) (receive s event)
unfolding receive
receive-IsSound s event inv =
    Holds-bind (λ t. IsSound t × (t.write_pos + min_size ≤ buf_size - 1)) _ (make_room s) _
      (make_room-Holds s inv) (λ t (sound, room). after_read-Holds t event sound)

-- Whatever bytes, errors and time-outs come: as long as no round is undefined the read position is
-- not behind the write position, the byte 0 at the write position lies in the buffer, and num_errors is
-- at most five.
pub rounds-IsSound : (s : Rx) (events : List Dread) → IsSound s → Holds IsSound (rounds s events)
unfolding rounds
rounds-IsSound s [] inv = inv
rounds-IsSound s (event ∷ events) inv =
    Holds-bind (λ r. IsSound r.0) _ (receive s event) _ (receive-IsSound s event inv)
      (λ r sound. rounds-IsSound r.0 events sound)

-- In a sound state a round is undefined for want of room exactly when there is less room than for a
-- line and more bytes are left to be parsed than have been parsed: then, whatever comes next.
pub make_room-none :
    (s : Rx)
    → IsSound s
    → (make_room s ≡ none)
      ↔ ((buf_size - 1 < s.write_pos + min_size) × (s.read_pos < s.write_pos - s.read_pos))
unfolding make_room move_down
make_room-none s inv = ground arith
