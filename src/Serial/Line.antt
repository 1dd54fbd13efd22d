-- ===== src/Serial/Line.antt =====
-- The ports of LTE/at/muart.c, and `init_uart` of uart/read_gps.c.
pub mod Transfer
pub mod Reopen
pub mod Session
use cfunction.Prelude.{
  ℕ, ◌+◌, ◌-◌, Bool, true, false, not, ◌&&◌, Option, none, some, List, [], ◌∷◌, ◌==◌, ltb, leb,
  if◌then◌else◌, ◌>>=◌, ℤ, pos, negsuc, length, take, drop, replicate, ◌++◌,
}
use cfunction.Serial.{Conf, Driver, set_speed, frame, set_parity}
use cfunction.Serial.Raw.{Tty, tty_raw, once, restore}

-- `muart_t`; `dev` is the array of 16 characters
pub record Muart : Type 0 where
  pub fd : ℕ
  pub baudrate : ℤ
  pub databits : ℕ
  pub stopbits : ℕ
  pub parity : ℕ
  pub dev : List ℕ
  pub old_conf : Conf
  pub write_max_bytes_once : ℕ

-- `strncpy(to, s, n)`: no byte 0 behind a string of n characters or more
unfoldable pub strncpy : ℕ → List ℕ → List ℕ
strncpy n s = take n s ++ replicate (n - length s) 0

abbrev pub path_len : ℕ
path_len = 16

abbrev pub write_max_bytes : ℕ
write_max_bytes = 128

-- `opened` is what `open` returns, none for an error, `first` and `second` as in `tty_raw`; the last
-- component is whether the descriptor stays open.
unfoldable pub muart_open :
    Driver
    → (opened : Option ℕ) (first second : Bool) → Option Muart
    → (dev : List ℕ) → Conf
    → ℤ × Option Muart × Conf × Bool
unfolding tty_raw strncpy
muart_open driver opened first second none dev port = (negsuc 0, none, port, false)
muart_open driver none first second (some m) dev port = (negsuc 0, some m, port, false)
muart_open driver (some fd) first second (some m) dev port =
    let tty = tty_raw driver first second port m.old_conf in
    elim tty.ret [
      | pos _ ↦ (
        pos 0,
        some (record m {
          old_conf = tty.saved;
          fd = fd;
          dev = strncpy path_len dev;
          write_max_bytes_once = write_max_bytes;
        }),
        tty.port,
        true,
      )
      | negsuc _ ↦ (negsuc 0, some (record m { old_conf = tty.saved }), tty.port, false)
    ]

-- `muart_setup`; the Booleans are for the calls of `tcgetattr` in the two functions
-- that it calls.
unfoldable pub muart_setup :
    Driver
    → (speed_readable parity_readable : Bool) → Option Muart
    → ℤ
    → (databits stopbits parity : ℕ) → Conf
    → Option (ℤ × Option Muart × Conf)
unfolding set_speed set_parity
muart_setup driver speed_readable parity_readable none speed databits stopbits parity port =
    some (negsuc 0, none, port)
muart_setup driver speed_readable parity_readable (some m) speed databits stopbits parity port = do
  (ret, port) ← set_speed driver speed_readable port speed
  elim ret [
    | negsuc _ ↦ some (negsuc 0, some m, port)
    | pos _ ↦
        let (ret, port) = set_parity driver parity_readable port databits stopbits parity in
        elim ret [
          | negsuc _ ↦ some (negsuc 0, some m, port)
          | pos _ ↦ some (
            pos 0,
            some (record m {
              baudrate = speed;
              databits = databits;
              stopbits = stopbits;
              parity = parity;
            }),
            port,
          )
        ]
  ]

-- `muart_close`; the result of `tcsetattr` is not looked at.
unfoldable pub muart_close : Driver → Option Muart → Conf → ℤ × Conf
unfolding restore
muart_close driver none port = (negsuc 0, port)
muart_close driver (some m) port = (pos 0, restore driver port m.old_conf)

-- What a call of `read` or `write`, behind its `select`, comes to: an error or a time-out, or the
-- bytes that were read, none at the end of the file.
pub data Read : Type 0 where
  failed : Read
  got : List ℕ → Read

-- The loop of `muart_read_nbytes` over the answers of the system: the value returned and the bytes
-- in the buffer. With no answer the call blocks. The system never reads more than it is asked for.
pub read_loop : List Read → (nbytes nleft : ℕ) → Option (ℤ × List ℕ)
read_loop [] nbytes nleft = if nleft == 0 then some (pos (nbytes - nleft), []) else none
read_loop (failed ∷ answers) nbytes nleft =
    if nleft == 0
    then some (pos (nbytes - nleft), [])
    else if nleft == nbytes
    then some (negsuc 0, [])
    else some (pos (nbytes - nleft), [])
read_loop (got bytes ∷ answers) nbytes nleft =
    let rest = (do
      (ret, buf) ← read_loop answers nbytes (nleft - length bytes)
      some (ret, bytes ++ buf)) in
    if nleft == 0
    then some (pos (nbytes - nleft), [])
    else if length bytes == 0
    then some (pos (nbytes - nleft), [])
    else if ltb nleft (length bytes)
    then none
    else rest

unfoldable pub muart_read_nbytes : List Read → ℕ → Option (ℤ × List ℕ)
unfolding read_loop
muart_read_nbytes answers nbytes = read_loop answers nbytes nbytes

pub data Write : Type 0 where
  refused : Write
  took : ℕ → Write

-- The loop of `muart_write` on the bytes that are left: the value returned and the bytes that the
-- system took. It never takes more than it is given.
pub write_loop : List Write → (max nbytes npos : ℕ) → List ℕ → Option (ℤ × List ℕ)
write_loop [] max nbytes npos buf = none
write_loop (refused ∷ answers) max nbytes npos buf =
    if length buf == nbytes then some (negsuc 0, []) else some (pos npos, [])
write_loop (took ret ∷ answers) max nbytes npos buf =
    let nwrite = if ltb max (length buf) then max else length buf in
    let rest = (do
      (r, sent) ← write_loop answers max nbytes (npos + ret) (drop ret buf)
      some (r, take ret buf ++ sent)) in
    if ltb nwrite ret
    then none
    else if ltb 0 (length buf - ret)
    then rest
    else some (pos (npos + ret), take ret buf)

unfoldable pub muart_write : List Write → Muart → List ℕ → Option (ℤ × List ℕ)
unfolding write_loop
muart_write answers m buf = write_loop answers m.write_max_bytes_once (length buf) 0 buf

-- The variants of uart/read_gps.c: `set_speed` returns nothing, `set_Parity` returns 1 for an error,
-- and `dreadn` has the loop of `muart_read_nbytes`.
pub gps_set_speed : Driver → (readable : Bool) → Conf → ℤ → Option Conf
unfolding set_speed
gps_set_speed driver readable port speed = do
  (_, port) ← set_speed driver readable port speed
  some port

pub gps_set_parity : Driver → (readable : Bool) → Conf → (databits stopbits parity : ℕ) → ℤ × Conf
unfolding frame
gps_set_parity driver readable port databits stopbits parity =
    if readable
    then elim (frame databits stopbits parity port) [
      | none ↦ (pos 1, port)
      | some c ↦ elim (driver port c) [ none ↦ (pos 1, port) | some new ↦ (pos 0, new) ]
    ]
    else (pos 1, port)

pub dreadn : List Read → ℕ → Option (ℤ × List ℕ)
unfolding read_loop
dreadn answers nbytes = read_loop answers nbytes nbytes

-- `init_uart`: `uart` is none for NULL, `first` and `second` are what the calls of `open` return, and
-- `reopen` is what the driver does to the settings between a last `close` and the next `open`. What
-- `tty_raw`, `set_speed` and `set_Parity` return is not looked at. The last components are the
-- settings of the port and the two globals.
pub init_uart :
    Driver
    → (reopen : Conf → Conf) → (uart : Option (List ℕ)) → (first second : Option ℕ)
    → (readable : Bool) → (speed : ℤ) → (databits stopbits parity : ℕ) → (state : Option ℕ)
    → (port saved : Conf) → Option (ℤ × Conf × Conf × Option ℕ)
unfolding once gps_set_speed gps_set_parity
init_uart driver reopen none first second readable speed databits stopbits parity state port saved =
    some (negsuc 0, port, saved, state)
init_uart driver reopen (some uart) none second readable speed databits stopbits parity state port
      saved =
    some (negsuc 0, port, saved, state)
init_uart driver reopen (some uart) (some fd) none readable speed databits stopbits parity state
      port saved =
    let (tty, state) = once driver readable readable fd state port saved in
    some (negsuc 0, tty.port, tty.saved, state)
init_uart driver reopen (some uart) (some fd) (some fd') readable speed databits stopbits parity
      state port saved =
    do
      let (tty, state) = once driver readable readable fd state port saved
      let (tty, state) = once driver readable readable fd' state (reopen tty.port) tty.saved
      port ← gps_set_speed driver readable tty.port speed
      let (_, port) = gps_set_parity driver readable port databits stopbits parity
      some (pos fd', port, tty.saved, state)
