-- ===== src/Serial/Tests.antt =====
-- Runs of the serial functions.
use cfunction.Prelude.{
  ℕ, ◌≡◌, ◌≤◌, ◌&&◌, ◌⊎◌, refl, true, false, some, List, [], ◌∷◌, ◌++◌, map, pos, negsuc, length,
  codes, if◌then◌else◌, All, arith,
}
use cfunction.Serial.{Conf, set_speed, set_parity}
use cfunction.Serial.Frame.{set_parity_lem, valid, wanted, granted}
use cfunction.Serial.Raw.{tty_raw, IsRaw, tty_raw-IsRaw}
use cfunction.Serial.Line.{Muart, got, muart_read_nbytes}
use cfunction.Serial.Line.Transfer.{concat, muart_read_nbytes-concat}
use cfunction.Serial.Line.Reopen.{exact}

-- A terminal in line mode
abbrev cooked : Conf
cooked = record {
  size = 8;
  parenb = false;
  parodd = false;
  cstopb = false;
  inpck = false;
  echo = true;
  icanon = true;
  iexten = true;
  isig = true;
  brkint = false;
  icrnl = true;
  istrip = false;
  ixon = true;
  opost = true;
  vmin = 1;
  vtime = 0;
  ispeed = 9600;
  ospeed = 9600;
}

abbrev port : Muart
port = record {
  fd = 3;
  baudrate = pos 9600;
  databits = 8;
  stopbits = 1;
  parity = b'n';
  dev = [];
  old_conf = cooked;
  write_max_bytes_once = 128;
}

fast :
    set_speed exact true cooked (pos 57600)
    ≡ some (pos 0, record cooked { ispeed = 57600; ospeed = 57600 })
unfolding set_speed
fast = refl

set_parity_lem_example : set_parity exact true cooked 7 2 b'E' ≡ (
    if true && valid 7 2 b'E'
    then granted exact cooked (wanted 7 2 b'E' cooked)
    else (negsuc 0, cooked))
set_parity_lem_example = set_parity_lem exact true cooked 7 2 b'E'

tty_raw-IsRaw_example :
    ((tty_raw exact true true cooked cooked).ret ≡ pos 0)
      × IsRaw (tty_raw exact true true cooked cooked).port
      × ((tty_raw exact true true cooked cooked).saved ≡ cooked)
    ⊎ ((tty_raw exact true true cooked cooked).ret ≡ negsuc 0)
tty_raw-IsRaw_example = tty_raw-IsRaw exact true true cooked cooked

abbrev pieces : List (List ℕ)
pieces = codes "AT" ∷ codes "\r\nO" ∷ codes "K" ∷ []

pieces_full : All (λ c. 1 ≤ length c) pieces
pieces_full = (omega arith, (omega arith, (omega arith, tt)))

muart_read_nbytes-concat_example :
    muart_read_nbytes (map got pieces ++ []) (length (concat pieces))
    ≡ some (pos (length (concat pieces)), concat pieces)
muart_read_nbytes-concat_example = muart_read_nbytes-concat pieces [] pieces_full

portions : All (λ n. (1 ≤ n) × (n ≤ 128)) (2 ∷ 1 ∷ [])
portions = ((omega arith, omega arith), ((omega arith, omega arith), tt))
