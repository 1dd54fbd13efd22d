-- ===== src/Modem/Session/Tests.antt =====
-- A modem behind a port, and the theorems at it.
use cfunction.Prelude.{
  codes, set, replicate, pos, negsuc, text, ℕ, ◌≤◌, ◌≡◌, refl, ◌⊎◌, true, false, some, List, ◌++◌,
  arith,
}
use cfunction.Serial.{Conf}
use cfunction.Serial.Line.Reopen.{exact}
use cfunction.Modem.{Msim, send_at_cmd, check_sim_operator}
use cfunction.Modem.Tests.{conf, port, exchange, lines, card}
use cfunction.Modem.Session.{Answers, mat_uart_get_operator, Result, mat_uart_get_sim}
use cfunction.Modem.Session.Ports.{mat_uart_get_sim-Restores}
use cfunction.Modem.Session.Name.{copied, get_operator-check_sim_operator}

-- A terminal in line mode
abbrev cooked : Conf
cooked = record conf { echo = true; icanon = true; ispeed = 9600; ospeed = 9600 }

abbrev answers : Answers
answers = record {
  opened = some 3;
  first = true;
  second = true;
  speed_readable = true;
  parity_readable = true;
}

abbrev buffer : List ℕ
buffer = replicate 8 b'x'

abbrev served : Result
served = record {
  ret = pos 0;
  signal = 23;
  operator = copied (codes "CMCC") buffer 8;
  port = cooked;
}

get_sim_served :
    mat_uart_get_sim exact answers lines (codes "/dev/ttyUSB2") 0 buffer (pos 8) cooked
    ≡ some served
unfolding mat_uart_get_sim copied
get_sim_served = refl

mat_uart_get_sim-Restores_example :
    (((served.ret ≡ pos 0) × (7 ≤ served.signal) × (served.signal ≤ 98))
      ⊎ ((served.ret ≡ negsuc 0) × (served.signal ≡ 0) × (served.operator ≡ buffer)))
    × (served.port ≡ cooked)
mat_uart_get_sim-Restores_example =
    mat_uart_get_sim-Restores exact answers lines (codes "/dev/ttyUSB2") 0 buffer (pos 8) cooked
      served (λ c. refl) get_sim_served

-- The port cannot be set up, and has its settings again.
get_sim_refused :
    mat_uart_get_sim exact
      (record answers { parity_readable = false })
      lines
      (codes "/dev/ttyUSB2")
      0
      buffer
      (pos 8)
      cooked
    ≡ some (record { ret = negsuc 0; signal = 0; operator = buffer; port = cooked })
unfolding mat_uart_get_sim
get_sim_refused = refl

abbrev reply : List ℕ
reply = codes "+COPS: 0,0,\"CMCC\",7\r\nOK\r\n"

reply_sent :
    send_at_cmd port (some (codes "AT+COPS?\r")) (some (codes "OK")) (exchange 9 reply)
    ≡ some (pos 0, reply ++ replicate 39 0)
unfolding send_at_cmd
reply_sent = refl

text-reply : text (reply ++ replicate 39 0) ≡ some reply
unfolding text
text-reply = refl

-- A buffer that holds three bytes of the name
get_operator-check_sim_operator_example :
    (new : Msim) × (check_sim_operator port card (exchange 9 reply) ≡ some (pos 0, new))
    × (mat_uart_get_operator (some new) buffer (pos 3)
        ≡ some (pos 0, copied (codes "CMCC") buffer 3))
get_operator-check_sim_operator_example =
    get_operator-check_sim_operator port card (exchange 9 reply) (reply ++ replicate 39 0)
      (codes "+COPS: 0,0,") (codes "CMCC") (codes ",7\r\nOK\r\n") buffer 3 reply_sent text-reply
      (ground arith) (ground arith, ground arith, omega arith, omega arith) (omega arith)

no_operator : mat_uart_get_operator (some card) buffer (pos 8) ≡ some (negsuc 1, set buffer 0 0)
unfolding mat_uart_get_operator
no_operator = refl
