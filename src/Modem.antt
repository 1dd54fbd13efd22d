-- ===== src/Modem.antt =====
-- LTE/at/mat.c: the state of a SIM card, asked for with AT commands over a serial port.
pub mod Answers
pub mod Signal
pub mod Sim
pub mod Session
mod Tests
use cfunction.Prelude.{
  ℕ, zero, suc, ◌+◌, ◌-◌, ◌*◌, Bool, true, false, not, ◌&&◌, ◌||◌, Option, none, some, List, [],
  ◌∷◌, ◌++◌, ◌==◌, ltb, leb, if◌then◌else◌, ◌>>=◌, ℤ, pos, negsuc, codes, length, get_elem?, set,
  take, drop, replicate, text, strstr,
}
use cfunction.Serial.Line.{Muart, Read, Write, strncpy, muart_write, muart_read_nbytes}

-- The states, in the order of the enumeration
pub data State : Type 0 where
  sim_zero : State
  sim_init : State
  sim_ready : State
  sim_signal : State
  sim_register : State

-- `msim_t`; `operator` is the array of 16 characters
pub record Msim : Type 0 where
  pub state : State
  pub signal : ℕ
  pub operator : List ℕ

-- `state < SIM_READY`
pub before_ready : State → Bool
before_ready sim_zero = true
before_ready sim_init = true
before_ready sim_ready = false
before_ready sim_signal = false
before_ready sim_register = false

pub found : (s pattern : List ℕ) → Bool
unfolding strstr
found s pattern = elim (strstr s pattern) [ none ↦ false | some _ ↦ true ]

abbrev pub at_max_len : ℕ
at_max_len = 64

-- What the line does during one command
abbrev pub Exchange : Type 0
Exchange = List Write × List Read

-- The buffer starts with zeros; what was read lies in front.
pub filled : List ℕ → List ℕ
filled bytes = bytes ++ replicate (at_max_len - length bytes) 0

-- `send_at_cmd`: the value returned, and the buffer `msg` of 64 bytes, as every caller that gives
-- one has it. A NULL string is none. The string in the reply ends before the last byte, so that
-- `buf[63] = 0` does not change it.
pub send_at_cmd : Muart → (at_cmd expect : Option (List ℕ)) → Exchange → Option (ℤ × List ℕ)
unfolding filled text found muart_write muart_read_nbytes strncpy
send_at_cmd m none expect line = some (negsuc 0, replicate at_max_len 0)
send_at_cmd m (some at_cmd) none line = some (negsuc 0, replicate at_max_len 0)
send_at_cmd m (some at_cmd) (some expect) (writes, reads) = do
  (sent, _) ← muart_write writes m at_cmd
  elim sent [
    | negsuc _ ↦ some (negsuc 0, replicate at_max_len 0)
    | pos _ ↦ do
      (n, bytes) ← muart_read_nbytes reads at_max_len
      elim n [
        | negsuc _ ↦ some (negsuc 0, replicate at_max_len 0)
        | pos zero ↦ some (negsuc 0, replicate at_max_len 0)
        | pos (suc _) ↦ do
          s ← text (filled bytes)
          if found s expect
              then some (pos 0, strncpy at_max_len s)
              else some (negsuc 0, replicate at_max_len 0)
      ]
  ]

pub check_at_ok : Muart → Exchange → Option ℤ
unfolding send_at_cmd
check_at_ok m line = do
  (ret, _) ← send_at_cmd m (some (codes "AT\r")) (some (codes "OK")) line
  some ret

pub check_sim_ready : Muart → Exchange → Option ℤ
unfolding send_at_cmd
check_sim_ready m line = do
  (ret, _) ← send_at_cmd m (some (codes "AT+CPIN?\r")) (some (codes "READY")) line
  some ret

-- What a character adds: a character that is no decimal digit adds nothing.
pub value : ℕ → ℕ
value c = if leb b'0' c && leb c b'9' then c - b'0' else 0

-- The loop of `check_sim_signal` at the first comma: the digit before it, and ten times the one
-- before that. Undefined when there are not two characters before the comma.
pub signal_at : (buf : List ℕ) (i : ℕ) → Option ℕ
unfolding value
signal_at buf i =
    if ltb i 2
    then none
    else do c ← get_elem? buf (i - 1); d ← get_elem? buf (i - 2); some (value c + value d * 10)

-- What `check_sim_signal` makes of the reply
pub level : Msim → ℕ → ℤ × Msim
level ms signal =
    if ltb signal 7 || (signal == 99)
    then (negsuc 0, ms)
    else (pos 0, record ms { signal = signal })

pub read_signal : Msim → ℤ × List ℕ → Option (ℤ × Msim)
unfolding text strstr signal_at level
read_signal ms (negsuc _, buf) = some (negsuc 0, ms)
read_signal ms (pos _, buf) = do
  s ← text buf
  signal ← elim (strstr s (codes ",")) [ none ↦ some 0 | some i ↦ signal_at buf i ]
  some (level ms signal)

pub check_sim_signal : Muart → Msim → Exchange → Option (ℤ × Msim)
unfolding send_at_cmd read_signal
check_sim_signal m ms line = do
  reply ← send_at_cmd m (some (codes "AT+CSQ\r")) (some (codes "+CSQ")) line
  read_signal ms reply

pub check_sim_register : Muart → Exchange → Option ℤ
unfolding send_at_cmd text found
check_sim_register m line = do
  (ret, buf) ← send_at_cmd m (some (codes "AT+CREG?\r")) (some (codes "OK")) line
  elim ret [
    | negsuc _ ↦ some (negsuc 0)
    | pos _ ↦ do
      s ← text buf
      if found s (codes "0,1") || found s (codes "0,5") then some (pos 0) else some (negsuc 1)
  ]

-- `strncpy(ms->operator, pstart, n + 1)` of a string of `n` bytes: undefined past the 16 of the array
pub copy_operator : Msim → List ℕ → Option Msim
copy_operator ms name =
    if leb (length name + 1) 16
    then some (record ms { operator = name ++ (0 ∷ drop (length name + 1) ms.operator) })
    else none

-- What `check_sim_operator` makes of the string in the reply. The second quotation mark is written
-- through without a test: undefined when there is none.
pub read_operator : Msim → (s : List ℕ) → Option (ℤ × Msim)
unfolding strstr copy_operator
read_operator ms s = elim (strstr s (codes "\"")) [
  | none ↦ some (negsuc 0, ms)
  | some i ↦ do
    n ← strstr (drop (i + 1) s) (codes "\"")
    ms ← copy_operator ms (take n (drop (i + 1) s))
    some (pos 0, ms)
]

pub check_sim_operator : Muart → Msim → Exchange → Option (ℤ × Msim)
unfolding send_at_cmd text read_operator
check_sim_operator m ms line = do
  (ret, buf) ← send_at_cmd m (some (codes "AT+COPS?\r")) (some (codes "OK")) line
  elim ret [ negsuc _ ↦ some (negsuc 0, ms) | pos _ ↦ do s ← text buf; read_operator ms s ]

pub is_negative : ℤ → Bool
is_negative (pos _) = false
is_negative (negsuc _) = true

-- What the line does during each of the five commands
pub record Lines : Type 0 where
  pub at : Exchange
  pub pin : Exchange
  pub register : Exchange
  pub operator : Exchange
  pub signal : Exchange

-- The four checks of a card that is not known to be ready, each made when those before succeed
pub check_sim_start : Muart → Lines → Msim → Option (ℤ × Msim)
unfolding check_at_ok check_sim_ready check_sim_register check_sim_operator is_negative
check_sim_start m lines ms = do
  ret ← check_at_ok m lines.at
  if is_negative ret then some (ret, ms) else do
    ret ← check_sim_ready m lines.pin
    if is_negative ret then some (ret, ms) else do
      ret ← check_sim_register m lines.register
      if is_negative ret then some (ret, ms) else check_sim_operator m ms lines.operator

-- `msim_reset`
pub msim_reset : Msim → ℤ × Msim
msim_reset ms = (negsuc 0, record ms { state = sim_zero })

-- Behind the check of the signal
pub register_or_reset : ℤ × Msim → ℤ × Msim
unfolding is_negative msim_reset
register_or_reset (ret, ms) =
    if is_negative ret then msim_reset ms else (pos 0, record ms { state = sim_register })

-- The check of the signal, when those before have succeeded
pub check_sim_rest : Muart → Lines → ℤ × Msim → Option (ℤ × Msim)
unfolding check_sim_signal register_or_reset msim_reset
check_sim_rest m lines (ret, ms) =
    if is_negative ret
    then some (msim_reset ms)
    else do checked ← check_sim_signal m ms lines.signal; some (register_or_reset checked)

pub check_sim_all : Muart → Lines → Msim → Option (ℤ × Msim)
unfolding before_ready check_sim_start check_sim_rest
check_sim_all m lines ms = do
  started ← (if before_ready ms.state then check_sim_start m lines ms else some (pos 0, ms))
  check_sim_rest m lines started

-- The result of the check is not looked at.
pub mat_uart_get_signal : Muart → Lines → Msim → Option (ℕ × Msim)
unfolding check_sim_all
mat_uart_get_signal m lines ms = do (_, ms) ← check_sim_all m lines ms; some (ms.signal, ms)
