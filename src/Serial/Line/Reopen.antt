-- ===== src/Serial/Line/Reopen.antt =====
-- `init_uart` of uart/read_gps.c and the global `ttystate`.
use cfunction.Prelude.{
  ℕ, ◌≡◌, refl, ◌∙◌, inl, inr, true, none, some, List, [], ◌∷◌, ℤ, pos, eq_int, Bool-cases, length,
  arith,
}
use cfunction.Serial.{Conf, Driver, speed_arr, name_arr, set_speeds, set_speed}
use cfunction.Serial.Frame.{frame_lem, valid, wanted}
use cfunction.Serial.Raw.{raw, is_raw, tty_raw, once}
use cfunction.Serial.Line.{gps_set_speed, gps_set_parity, init_uart}

-- A driver that carries out each request
abbrev pub exact : Driver
exact port c = some c

set_speeds-icanon :
    (names speeds : List ℕ) (speed : ℤ) (opt port : Conf)
    → length names ≡ length speeds
    → opt.icanon ≡ port.icanon
    → (ret : ℤ) × (new : Conf) × (set_speeds exact names speeds speed (some opt) port
        ≡ some (ret, new))
      × (new.icanon ≡ port.icanon)
unfolding set_speeds
set_speeds-icanon [] speeds speed opt port e h = (pos 0, port, refl, refl)
set_speeds-icanon (n ∷ names) [] speed opt port e h = absurd (omega arith)
set_speeds-icanon (n ∷ names) (b ∷ speeds) speed opt port e h =
    let new = record opt { ispeed = b; ospeed = b } in
    elim (Bool-cases (eq_int n speed)) [
      | inl y ↦
          let (r, q, f, g) = set_speeds-icanon names speeds speed new new (omega arith) refl in
          (r, q, rw y f, g ∙ h)
      | inr z ↦
          let (r, q, f, g) = set_speeds-icanon names speeds speed opt port (omega arith) h in
          (r, q, rw z f, g)
    ]

set_parity-icanon :
    (port : Conf) (d s p : ℕ) → (gps_set_parity exact true port d s p).1.icanon ≡ port.icanon
unfolding gps_set_parity wanted
set_parity-icanon port d s p = elim (Bool-cases (valid d s p)) [
  | inl y ↦ rw (frame_lem d s p port, y) refl
  | inr n ↦ rw (frame_lem d s p port, n) refl
]

-- init_uart puts the port in raw mode, closes it, opens it again and calls tty_raw once more; that
-- call refuses, as ttystate is RAW by now. So with a driver that carries out each request the port
-- ends in the line mode that the driver gives to a port that is opened again.
pub init_uart_reopened :
    (reopen : Conf → Conf) (uart : List ℕ) (first second : ℕ) (speed : ℤ) (d s p : ℕ)
    (port saved : Conf)
    → (new : Conf) × (init_uart exact reopen
          (some uart)
          (some first)
          (some second)
          true
          speed
          d
          s
          p
          none
          port
          saved
        ≡ some (pos second, new, port, some first))
      × (new.icanon ≡ (reopen (raw port)).icanon)
unfolding init_uart gps_set_speed once tty_raw raw is_raw set_speed
init_uart_reopened reopen uart first second speed d s p port saved =
    let again = reopen (raw port) in
    let (r, q, e, g) = set_speeds-icanon name_arr speed_arr speed again again refl refl in
    ((gps_set_parity exact true q d s p).1, rw e refl, set_parity-icanon q d s p ∙ g)
