-- ===== src/Serial.antt =====
-- LTE/at/muart.c and the serial set-up of uart/read_gps.c: the terminal settings of a port.
pub mod Raw
pub mod Line
pub mod Frame
mod Tests
use cfunction.Prelude.{
  ℕ, Bool, true, false, not, ◌&&◌, ◌||◌, Option, none, some, List, [], ◌∷◌, ◌==◌, if◌then◌else◌,
  ◌>>=◌, ℤ, pos, negsuc, eq_int,
}

-- What the sources set in a `struct termios`. A flag is a Boolean, the field `CSIZE` its number of
-- bits, and a speed constant the rate that it stands for.
pub record Conf : Type 0 where
  pub size : ℕ
  pub parenb : Bool
  pub parodd : Bool
  pub cstopb : Bool
  pub inpck : Bool
  pub echo : Bool
  pub icanon : Bool
  pub iexten : Bool
  pub isig : Bool
  pub brkint : Bool
  pub icrnl : Bool
  pub istrip : Bool
  pub ixon : Bool
  pub opost : Bool
  pub vmin : ℕ
  pub vtime : ℕ
  pub ispeed : ℕ
  pub ospeed : ℕ

-- `tcsetattr` of the system, from the settings of the port and those asked for to the settings that
-- the port then has, or an error. It may succeed with a part of what was asked for.
abbrev pub Driver : Type 0
Driver = Conf → Conf → Option Conf

abbrev pub speed_arr : List ℕ
speed_arr = 115200 ∷ 57600 ∷ 38400 ∷ 19200 ∷ 9600 ∷ 4800 ∷ 2400 ∷ 1200 ∷ 300 ∷ []

abbrev pub name_arr : List ℕ
name_arr = 115200 ∷ 57600 ∷ 38400 ∷ 19200 ∷ 9600 ∷ 4800 ∷ 2400 ∷ 1200 ∷ 300 ∷ []

-- The loop of `set_speed`; `opt` is none where `tcgetattr` has failed and `Opt` is not initialised.
pub set_speeds : Driver → (names speeds : List ℕ) → ℤ → Option Conf → Conf → Option (ℤ × Conf)
set_speeds driver [] speeds speed opt port = some (pos 0, port)
set_speeds driver (n ∷ names) [] speed opt port = none
set_speeds driver (n ∷ names) (b ∷ speeds) speed opt port =
    let rest = set_speeds driver names speeds speed opt port in
    let found = (do
      old ← opt
      let new = record old { ispeed = b; ospeed = b }
      elim (driver port new) [
        | none ↦ some (negsuc 0, port)
        | some port ↦ set_speeds driver names speeds speed (some new) port
      ]) in
    if eq_int n speed then found else rest

-- `readable` says whether `tcgetattr` succeeds.
pub set_speed : Driver → (readable : Bool) → Conf → ℤ → Option (ℤ × Conf)
unfolding set_speeds
set_speed driver readable port speed =
    set_speeds driver name_arr speed_arr speed (if readable then some port else none) port

-- The three `switch`es of `set_Parity`. A negative argument takes the default as 0 does.
pub with_size : ℕ → Conf → Option Conf
with_size databits c =
    if databits == 7
    then some (record c { size = 7 })
    else if databits == 8
    then some (record c { size = 8 })
    else none

pub with_parity : ℕ → Conf → Option Conf
with_parity parity c =
    if (parity == b'n') || (parity == b'N')
    then some (record c { parenb = false; inpck = false })
    else if (parity == b'o') || (parity == b'O')
    then some (record c { parodd = true; parenb = true; inpck = true })
    else if (parity == b'e') || (parity == b'E')
    then some (record c { parenb = true; parodd = false; inpck = true })
    else if (parity == b'S') || (parity == b's')
    then some (record c { parenb = false; cstopb = false })
    else none

pub with_stop : ℕ → Conf → Option Conf
with_stop stopbits c =
    if stopbits == 1
    then some (record c { cstopb = false })
    else if stopbits == 2
    then some (record c { cstopb = true })
    else none

-- The settings that `set_Parity` asks for
pub frame : (databits stopbits parity : ℕ) → Conf → Option Conf
unfolding with_size with_parity with_stop
frame databits stopbits parity c = do
  c ← with_size databits c
  c ← with_parity parity c
  c ← with_stop stopbits c
  let c = if not (parity == b'n') then record c { inpck = true } else c
  some (record c { vtime = 0; vmin = 1 })

pub set_parity : Driver → (readable : Bool) → Conf → (databits stopbits parity : ℕ) → ℤ × Conf
unfolding frame
set_parity driver readable port databits stopbits parity =
    if readable
    then elim (frame databits stopbits parity port) [
      | none ↦ (negsuc 0, port)
      | some c ↦ elim (driver port c) [ none ↦ (negsuc 0, port) | some new ↦ (pos 0, new) ]
    ]
    else (negsuc 0, port)
