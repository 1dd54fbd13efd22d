-- ===== src/Modem/Tests.antt =====
-- Runs of the SIM check.
use cfunction.Prelude.{
  ℕ, ◌≡◌, ◌≤◌, ◌⊎◌, refl, false, none, some, List, [], ◌∷◌, ◌++◌, pos, negsuc, codes, replicate,
}
use cfunction.Serial.{Conf}
use cfunction.Serial.Line.{Muart, got, failed, took}
use cfunction.Modem.{
  sim_zero, sim_register, Msim, Lines, Exchange, check_sim_all, check_sim_operator,
  mat_uart_get_signal,
}
use cfunction.Modem.Signal.{Reports}
use cfunction.Modem.Sim.{HasPassed, HasFailed, check_sim_all-Settled}

abbrev pub conf : Conf
conf = record {
  size = 8;
  parenb = false;
  parodd = false;
  cstopb = false;
  inpck = false;
  echo = false;
  icanon = false;
  iexten = false;
  isig = false;
  brkint = false;
  icrnl = false;
  istrip = false;
  ixon = false;
  opost = false;
  vmin = 1;
  vtime = 0;
  ispeed = 115200;
  ospeed = 115200;
}

abbrev pub port : Muart
port = record {
  fd = 3;
  baudrate = pos 115200;
  databits = 8;
  stopbits = 1;
  parity = b'N';
  dev = [];
  old_conf = conf;
  write_max_bytes_once = 128;
}

-- A command of some bytes and a reply, behind which the modem is silent
abbrev pub exchange : ℕ → List ℕ → Exchange
exchange n reply = (took n ∷ [], got reply ∷ failed ∷ [])

abbrev pub lines : Lines
lines = record {
  at = exchange 3 (codes "OK\r\n");
  pin = exchange 9 (codes "+CPIN: READY\r\nOK\r\n");
  register = exchange 9 (codes "+CREG: 0,1\r\nOK\r\n");
  operator = exchange 9 (codes "+COPS: 0,0,\"CMCC\",7\r\nOK\r\n");
  signal = exchange 7 (codes "+CSQ: 23,99\r\nOK\r\n");
}

abbrev pub card : Msim
card = record { state = sim_zero; signal = 0; operator = replicate 16 0 }

abbrev registered : Msim
registered = record { state = sim_register; signal = 23; operator = codes "CMCC" ++ replicate 12 0 }

all_well : check_sim_all port lines card ≡ some (pos 0, registered)
unfolding check_sim_all
all_well = refl

signal_23 : mat_uart_get_signal port lines card ≡ some (23, registered)
unfolding mat_uart_get_signal
signal_23 = refl

-- A reply with one quotation mark, and an operator of sixteen characters: undefined behaviour
one_mark : check_sim_operator port card (exchange 9 (codes "+COPS: 0,0,\"CMCC\r\nOK\r\n")) ≡ none
unfolding check_sim_operator
one_mark = refl

long_name :
    check_sim_operator port card (exchange 9 (codes "+COPS: 0,0,\"0123456789abcdef\"\r\nOK\r\n"))
    ≡ none
unfolding check_sim_operator
long_name = refl

check_sim_all-Settled_example :
    ((pos 0 ≡ pos 0)
      × (registered.state ≡ sim_register)
      × (7 ≤ registered.signal)
      × (registered.signal ≤ 98)
      × Reports port lines.signal registered.signal
      × HasPassed port lines card registered)
    ⊎ ((pos 0 ≡ negsuc 0) × (registered.state ≡ sim_zero) × HasFailed port lines card)
check_sim_all-Settled_example = check_sim_all-Settled port lines card (pos 0) registered all_well
