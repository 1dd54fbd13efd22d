-- ===== src/Modem/Session.antt =====
-- LTE/at/mat.c: the modem behind a port that is opened, set up and closed again.
pub mod Ports
pub mod Name
mod Tests
use cfunction.Prelude.{
  ltb, leb, ◌==◌, if◌then◌else◌, ltb→lt, lt→ltb, ==_iff, ==_refl, ==_ne, Bool-cases, Option-cases,
  codes, length, get_elem?, get_or, set, take, drop, replicate, length-append, length-replicate,
  length-set, get_elem?-append, drop-append, take-append, set-append, get_elem?-eq-get_or,
  get_or-set_self, get_or-set_ne, All, All-append, same, holds_below, holds_at, ℤ, pos, negsuc,
  pos_part, to_size, int_max, eq_int, sub_ℕ, ◌>>=◌, Holds, Holds-bind, Holds-if, Holds-then, always,
  text, begins, strstr, ℕ, zero, suc, ◌+◌, ◌-◌, ◌*◌, ◌/◌, ◌%◌, ◌^◌, ◌≤◌, ◌<◌, ◌≡◌, refl, sym, ap,
  ap₂, ◌∙◌, ◌≢◌, ◌↔◌, ◌⊎◌, inl, inr, Bool, true, false, not, ◌&&◌, ◌||◌, Option, none, some, List,
  [], ◌∷◌, ◌++◌, map, append_assoc, append-nil, arith,
}
use cfunction.Serial.{
  Conf, Driver, speed_arr, name_arr, set_speeds, set_speed, with_size, with_parity, with_stop,
  frame, set_parity,
}
use cfunction.Serial.Line.{
  Muart, strncpy, path_len, write_max_bytes, muart_open, muart_setup, muart_close, Read, failed,
  got, read_loop, muart_read_nbytes, Write, refused, took, write_loop, muart_write, gps_set_speed,
  gps_set_parity, dreadn, init_uart,
}
use cfunction.Modem.{
  State, sim_zero, sim_init, sim_ready, sim_signal, sim_register, Msim, before_ready, found,
  at_max_len, Exchange, filled, send_at_cmd, check_at_ok, check_sim_ready, value, signal_at, level,
  read_signal, check_sim_signal, check_sim_register, copy_operator, check_sim_operator, is_negative,
  Lines, check_sim_start, msim_reset, register_or_reset, check_sim_rest, check_sim_all,
  mat_uart_get_signal,
}

-- `mat_uart_t`
pub record MatUart : Type 0 where
  pub muart : Muart
  pub msim : Msim

-- The bytes 0 of `memset`: the field `CSIZE` of 0 is five bits, and the speed of 0 is B0.
abbrev pub zero_conf : Conf
zero_conf = record {
  size = 5;
  parenb = false;
  parodd = false;
  cstopb = false;
  inpck = false;
  echo = false;
  icanon = false;
  iexten = false;
  isig = false;
  brkint = false;
  icrnl = false;
  istrip = false;
  ixon = false;
  opost = false;
  vmin = 0;
  vtime = 0;
  ispeed = 0;
  ospeed = 0;
}

abbrev pub zero_muart : Muart
zero_muart = record {
  fd = 0;
  baudrate = pos 0;
  databits = 0;
  stopbits = 0;
  parity = 0;
  dev = replicate path_len 0;
  old_conf = zero_conf;
  write_max_bytes_once = 0;
}

abbrev pub zero_msim : Msim
zero_msim = record { state = sim_zero; signal = 0; operator = replicate 16 0 }

-- What the system answers while a port is opened and set up: the result of `open`, and whether the
-- two calls of `tcgetattr` in `tty_raw` and those in `set_speed` and `set_Parity` succeed.
pub record Answers : Type 0 where
  pub opened : Option ℕ
  pub first : Bool
  pub second : Bool
  pub speed_readable : Bool
  pub parity_readable : Bool

-- The struct with a port, and a card that nothing is known of
pub with_port : Option Muart → Option MatUart
with_port m = do m ← m; some (record { muart = m; msim = zero_msim })

-- Behind `muart_setup`
pub after_setup : Driver → ℤ × Option Muart × Conf → ℤ × Option MatUart × Conf
unfolding muart_close with_port
after_setup driver (pos _, m, port) = (pos 0, with_port m, port)
after_setup driver (negsuc _, m, port) =
    let (_, port) = muart_close driver m port in (negsuc 0, with_port m, port)

-- Behind `muart_open`
pub after_open :
    Driver → Answers → ℤ × Option Muart × Conf × Bool → Option (ℤ × Option MatUart × Conf)
unfolding muart_setup after_setup with_port
after_open driver answers (negsuc _, m, port, is_open) = some (negsuc 0, with_port m, port)
after_open driver answers (pos _, m, port, is_open) = do
  r ← muart_setup driver answers.speed_readable answers.parity_readable m (pos 115200) 8 1 b'N' port
  some (after_setup driver r)

-- `mat` is none for NULL; what it points to is overwritten.
pub mat_uart_init :
    Driver
    → Answers
    → (mat : Option MatUart) → (dev : List ℕ) → Conf
    → Option (ℤ × Option MatUart × Conf)
unfolding muart_open after_open
mat_uart_init driver answers none dev port = some (negsuc 0, none, port)
mat_uart_init driver answers (some _) dev port =
    after_open driver answers
      (muart_open driver answers.opened answers.first answers.second (some zero_muart) dev port)

pub mat_uart_deinit : Driver → MatUart → Conf → ℤ × MatUart × Conf
unfolding muart_close
mat_uart_deinit driver mat port =
    let (_, port) = muart_close driver (some mat.muart) port in
    (pos 0, record mat { msim = record mat.msim { state = sim_zero } }, port)

-- `strncpy(operator, mat->msim.operator, len)`, into a buffer of the caller's: undefined when the
-- length is negative or the buffer is smaller, and when the name is not ended.
pub copy_name : (name operator : List ℕ) → (operator_size : ℤ) → Option (List ℕ)
unfolding text strncpy
copy_name name operator (negsuc _) = none
copy_name name operator (pos size) = do
  s ← text name
  let len = if ltb (length s + 1) size then length s + 1 else size
  if leb len (length operator) then some (strncpy len s ++ drop len operator) else none

-- The Boolean test of `operator[0]`: undefined on an array without elements.
pub mat_uart_get_operator :
    (mat : Option Msim) → (operator : List ℕ) → (operator_size : ℤ) → Option (ℤ × List ℕ)
mat_uart_get_operator none operator size = some (negsuc 0, operator)
mat_uart_get_operator (some ms) operator size = do
  c ← get_elem? ms.operator 0
  if c == 0
      then if ltb 0 (length operator) then some (negsuc 1, set operator 0 0) else none
      else (copy_name ms.operator operator size >>= (λ operator. some (pos 0, operator)))

-- What `mat_uart_get_sim` gives back: its result, the caller's variables and the settings of the port.
pub record Result : Type 0 where
  pub ret : ℤ
  pub signal : ℕ
  pub operator : List ℕ
  pub port : Conf

-- Behind `mat_uart_check_sim_all`
pub deliver :
    Driver
    → MatUart
    → ℤ × Msim
    → (signal : ℕ) → (operator : List ℕ) → (operator_size : ℤ) → Conf
    → Option Result
unfolding mat_uart_deinit copy_name is_negative
deliver driver mat (ret, ms) signal operator operator_size port =
    let (_, _, closed) = mat_uart_deinit driver (record mat { msim = ms }) port in
    if is_negative ret
    then some (record { ret = negsuc 0; signal = signal; operator = operator; port = closed })
    else (copy_name ms.operator operator operator_size >>= (λ operator.
        some (record { ret = pos 0; signal = ms.signal; operator = operator; port = closed })))

-- Behind `mat_uart_init`
pub after_init :
    Driver
    → Lines
    → (signal : ℕ) → (operator : List ℕ) → (operator_size : ℤ) → ℤ × Option MatUart × Conf
    → Option Result
unfolding check_sim_all deliver
after_init driver lines signal operator operator_size (negsuc _, mat, port) =
    some (record { ret = negsuc 0; signal = signal; operator = operator; port = port })
after_init driver lines signal operator operator_size (pos _, none, port) = none
after_init driver lines signal operator operator_size (pos _, some mat, port) = do
  checked ← check_sim_all mat.muart lines mat.msim
  deliver driver mat checked signal operator operator_size port

pub mat_uart_get_sim :
    Driver
    → Answers
    → Lines
    → (dev : List ℕ) → (signal : ℕ) → (operator : List ℕ) → (operator_size : ℤ) → Conf
    → Option Result
unfolding mat_uart_init after_init
mat_uart_get_sim driver answers lines dev signal operator operator_size port = do
  r ← mat_uart_init driver answers (some (record { muart = zero_muart; msim = zero_msim })) dev port
  after_init driver lines signal operator operator_size r
