-- ===== src/Serial/Frame.antt =====
-- What `set_Parity` of LTE/at/muart.c and of uart/read_gps.c asks of a port.
use cfunction.Prelude.{
  ℕ, Bool, true, false, not, ◌&&◌, ◌||◌, none, some, ◌==◌, if◌then◌else◌, ℤ, pos, negsuc, ◌≡◌, refl,
  arith, Bool-cases, inl, inr,
}
use cfunction.Serial.{Conf, Driver, with_size, with_parity, with_stop, frame, set_parity}

-- The parities, and the arguments that are supported
pub is_odd : ℕ → Bool
is_odd p = (p == b'o') || (p == b'O')

pub is_even : ℕ → Bool
is_even p = (p == b'e') || (p == b'E')

pub is_none : ℕ → Bool
is_none p = (p == b'n') || (p == b'N') || (p == b's') || (p == b'S')

pub valid : (databits stopbits parity : ℕ) → Bool
unfolding is_odd is_even is_none
valid d s p =
    ((d == 7) || (d == 8)) && ((s == 1) || (s == 2)) && (is_odd p || is_even p || is_none p)

-- The frame, setting by setting; the others stay.
unfoldable pub wanted : (databits stopbits parity : ℕ) → Conf → Conf
wanted d s p c = record c {
  size = d;
  parenb = is_odd p || is_even p;
  parodd = if is_odd p then true else if is_even p then false else c.parodd;
  cstopb = s == 2;
  inpck = not (p == b'n');
  vmin = 1;
  vtime = 0;
}

with_size_lem :
    (d : ℕ) (c : Conf)
    → with_size d c ≡ (if (d == 7) || (d == 8) then some (record c { size = d }) else none)
unfolding with_size
with_size_lem d c = ground arith

with_stop_lem :
    (s : ℕ) (c : Conf)
    → with_stop s c ≡ (if (s == 1) || (s == 2) then some (record c { cstopb = s == 2 }) else none)
unfolding with_stop
with_stop_lem s c = ground arith

pub frame_lem :
    (d s p : ℕ) (c : Conf) → frame d s p c ≡ (if valid d s p then some (wanted d s p c) else none)
unfolding frame with_size with_stop with_parity valid wanted is_odd is_even is_none
frame_lem d s p c = ground arith

-- The driver's answer to a request
unfoldable pub granted : Driver → (port c : Conf) → ℤ × Conf
granted driver port c = elim (driver port c) [ none ↦ (negsuc 0, port) | some new ↦ (pos 0, new) ]

-- set_Parity, for every argument: on a port that can be read and with 7 or 8 data bits, 1 or 2 stop
-- bits and a known parity it asks the driver for exactly that frame, parity checked unless the
-- letter is a small n, and returns its answer; in every other case it returns -1 and leaves the
-- port alone.
pub set_parity_lem :
    (driver : Driver) (readable : Bool) (port : Conf) (d s p : ℕ)
    → set_parity driver readable port d s p ≡ (
        if readable && valid d s p
        then granted driver port (wanted d s p port)
        else (negsuc 0, port))
unfolding set_parity granted
set_parity_lem driver false port d s p = refl
set_parity_lem driver true port d s p = elim (Bool-cases (valid d s p)) [
  | inl y ↦ rw (frame_lem d s p port, y) refl
  | inr n ↦ rw (frame_lem d s p port, n) refl
]
