-- ===== src/Gps/Receive/Tests.antt =====
-- The receive loop at concrete inputs.
use cfunction.Prelude.{
  Holds, codes, replicate, length-replicate, Holds, ℕ, ◌≡◌, refl, true, some, [], ◌∷◌, arith,
}
use cfunction.Gps.Receive.{buf_size, Rx, timeout, failed, got, after_read}
use cfunction.Gps.Receive.Loop.{IsSound, rounds, rounds-IsSound}

abbrev at_start : Rx
at_start = record { rx_buf = replicate buf_size 0; read_pos = 0; write_pos = 0; num_errors = 0 }

-- A line that is not ended has filled the buffer up to the last 64 bytes.
abbrev long_line : Rx
long_line = record { rx_buf = replicate buf_size 0; read_pos = 0; write_pos = 1984; num_errors = 0 }

start-IsSound : IsSound at_start
start-IsSound = record {
  whole = length-replicate {A = ℕ} buf_size 0;
  ordered = omega arith;
  ended = omega arith;
  few = omega arith;
}

long_line-IsSound : IsSound long_line
long_line-IsSound = record {
  whole = length-replicate {A = ℕ} buf_size 0;
  ordered = omega arith;
  ended = omega arith;
  few = omega arith;
}

six_errors :
    after_read (record at_start { num_errors = 5 }) failed
    ≡ some (record at_start { num_errors = 0 }, [], true)
unfolding after_read
six_errors = refl

rounds-IsSound_example :
    Holds IsSound
      (rounds at_start (got (codes "$GNRMC,1*5A\r\n$G") ∷ timeout ∷ failed ∷ got (codes "N") ∷ []))
rounds-IsSound_example =
    rounds-IsSound at_start
      (got (codes "$GNRMC,1*5A\r\n$G") ∷ timeout ∷ failed ∷ got (codes "N") ∷ []) start-IsSound
