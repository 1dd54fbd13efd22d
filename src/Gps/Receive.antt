-- ===== src/Gps/Receive.antt =====
-- The loop of `main` in uart/read_gps.c: the receive buffer and its two positions.
mod Bounds
mod Loop
mod Tests
use cfunction.Prelude.{
  ltb, leb, ◌==◌, if◌then◌else◌, ltb→lt, lt→ltb, ==_iff, ==_refl, ==_ne, Bool-cases, Option-cases,
  codes, length, get_elem?, get_or, set, take, drop, replicate, length-append, length-replicate,
  length-set, get_elem?-append, drop-append, take-append, set-append, get_elem?-eq-get_or,
  get_or-set_self, get_or-set_ne, All, All-append, same, holds_below, holds_at, ℤ, pos, negsuc,
  pos_part, to_size, int_max, eq_int, sub_ℕ, ◌>>=◌, Holds, Holds-bind, Holds-if, always, text,
  begins, ℕ, zero, suc, ◌+◌, ◌-◌, ◌*◌, ◌/◌, ◌%◌, ◌^◌, ◌≤◌, ◌<◌, ◌≡◌, refl, sym, ap, ap₂, ◌∙◌, ◌≢◌,
  ◌↔◌, ◌⊎◌, inl, inr, Bool, true, false, not, ◌&&◌, ◌||◌, Option, none, some, List, [], ◌∷◌, ◌++◌,
  map, append_assoc, append-nil, arith,
}
use cfunction.Gps.Packet.{Verdict}
use cfunction.Gps.Frames.{parse_buf}

-- `BUF_SIZE`
abbrev pub buf_size : ℕ
buf_size = 2048

-- `MIN_SIZE`
abbrev pub min_size : ℕ
min_size = 64

pub record Rx : Type 0 where
  pub rx_buf : List ℕ
  pub read_pos : ℕ
  pub write_pos : ℕ
  pub num_errors : ℕ

-- What `dread` comes to: the time is over, an error, or the bytes that `read` wrote.
pub data Dread : Type 0 where
  timeout : Dread
  failed : Dread
  got : List ℕ → Dread

-- `memcpy(rx_buf, rx_buf + read_pos, n)`: undefined when the two parts overlap.
unfoldable pub move_down : List ℕ → (read_pos n : ℕ) → Option (List ℕ)
move_down rx read_pos n =
    if ltb read_pos n then none else some (take n (drop read_pos rx) ++ drop n rx)

-- The start of a round: room for a line is made if there is none.
unfoldable pub make_room : Rx → Option Rx
make_room s =
    if ltb (buf_size - 1 - s.write_pos) min_size
    then (move_down s.rx_buf s.read_pos (s.write_pos - s.read_pos) >>= λ rx.
        some (record s { rx_buf = rx; write_pos = s.write_pos - s.read_pos; read_pos = 0 }))
    else some s

-- `read(uart_fd, rx_buf + write_pos, left)` and the byte 0 behind it. The system reads no more than
-- it is asked for.
unfoldable pub fill : (rx : List ℕ) (write_pos : ℕ) → List ℕ → Option (List ℕ)
fill rx write_pos bytes =
    if ltb (buf_size - 1 - write_pos) (length bytes)
    then none
    else some (take write_pos rx ++ (bytes ++ (0 ∷ drop (write_pos + length bytes + 1) rx)))

-- What follows `dread`: the new state, what was found in the packets, and whether the port is set up
-- again.
unfoldable pub after_read : Rx → Dread → Option (Rx × List Verdict × Bool)
after_read s timeout = some (s, [], false)
after_read s failed =
    if ltb 5 (s.num_errors + 1)
    then some (record s { num_errors = 0 }, [], true)
    else some (record s { num_errors = s.num_errors + 1 }, [], false)
after_read s (got bytes) = do
  rx ← fill s.rx_buf s.write_pos bytes
  let write_pos = s.write_pos + length bytes
  (parse_len, rx, verdicts) ← parse_buf rx s.read_pos (write_pos - s.read_pos)
  some (
    record s { rx_buf = rx; write_pos = write_pos; read_pos = s.read_pos + parse_len },
    verdicts,
    false,
  )

-- A round of the loop.
unfoldable pub receive : Rx → Dread → Option (Rx × List Verdict × Bool)
receive s event = do s ← make_room s; after_read s event
