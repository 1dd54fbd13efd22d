-- ===== src/Serial/Line/Session.antt =====
-- The settings that a port of LTE/at/muart.c has between `muart_open` and `muart_close`.
use cfunction.Prelude.{
  ℤ-cases, Bool-cases, Option-cases, ℤ, pos, negsuc, Holds, Holds-then, ℕ, ◌≡◌, refl, ap, ◌⊎◌, inl,
  inr, Bool, true, false, ◌&&◌, Option, none, some, List,
}
use cfunction.Serial.{Conf, Driver, set_speed, set_parity}
use cfunction.Serial.Raw.{raw, is_raw, restore, Tty, tty_raw}
use cfunction.Serial.Line.{Muart, muart_open, muart_setup, muart_close}

-- The driver gives the port these settings back, whichever it has by then.
abbrev pub Restores : Driver → Conf → Type 0
Restores driver saved = (c : Conf) → driver c saved ≡ some saved

-- The settings are saved in the port.
abbrev pub Saved : Conf → Option Muart → Type 0
Saved before none = ⊥
Saved before (some m) = m.old_conf ≡ before

-- A successful call has saved the settings; a failed one leaves them.
abbrev Kept : Conf → Tty → Type 0
Kept before tty =
    ((tty.ret ≡ pos 0) × (tty.saved ≡ before)) ⊎ ((tty.ret ≡ negsuc 0) × (tty.port ≡ before))

restore_lem :
    (driver : Driver) (port saved : Conf)
    → Restores driver saved
    → restore driver port saved ≡ saved
unfolding restore
restore_lem driver port saved h = rw (restore, h port) refl

tty_raw-Kept :
    (driver : Driver) (first second : Bool) (port saved : Conf)
    → Restores driver port
    → Kept port (tty_raw driver first second port saved)
unfolding tty_raw
tty_raw-Kept driver false second port saved h = inr (refl, refl)
tty_raw-Kept driver true second port saved h = elim (Option-cases (driver port (raw port))) [
  | inl e ↦ rw e (inr (refl, refl))
  | inr (new, e) ↦ rw e (elim (Bool-cases (second && is_raw new)) [
    | inl y ↦ rw y (inl (refl, refl))
    | inr n ↦ rw n (inr (refl, restore_lem driver new port h))
  ])
]

pub muart_open-cases :
    (driver : Driver) (opened : Option ℕ) (first second : Bool) (m : Muart) (dev : List ℕ)
    (port : Conf)
    → Restores driver port
    → let r = muart_open driver opened first second (some m) dev port in
      ((r.0 ≡ pos 0) × Saved port r.1) ⊎ ((r.0 ≡ negsuc 0) × (r.2 ≡ port))
unfolding muart_open
muart_open-cases driver none first second m dev port h = inr (refl, refl)
muart_open-cases driver (some fd) first second m dev port h =
    elim (tty_raw-Kept driver first second port m.old_conf h) [
      | inl (e, saved) ↦ rw (muart_open, e) (inl (refl, saved))
      | inr (e, kept) ↦ rw (muart_open, e) (inr (refl, kept))
    ]

pub muart_setup-Saved :
    (driver : Driver) (speed_readable parity_readable : Bool) (m : Option Muart) (speed : ℤ)
    (d s p : ℕ) (port before : Conf)
    → Saved before m
    → Holds
        (λ r. Saved before r.1)
        (muart_setup driver speed_readable parity_readable m speed d s p port)
unfolding muart_setup
muart_setup-Saved driver a b none speed d s p port before h = absurd h
muart_setup-Saved driver a b (some m) speed d s p port before h =
    Holds-then (λ r. Saved before r.1) (set_speed driver a port speed) _
      (λ r. elim (ℤ-cases r.0) [
        | inr (n, e) ↦ rw e h
        | inl (n, e) ↦ rw e (elim (ℤ-cases (set_parity driver b r.1 d s p).0) [
          | inr (k, f) ↦ rw f h
          | inl (k, f) ↦ rw f h
        ])
      ])

-- muart_close on a port that has saved its settings gives them back.
pub muart_close_lem :
    (driver : Driver) (m : Muart) (port before : Conf)
    → m.old_conf ≡ before
    → Restores driver before
    → muart_close driver (some m) port ≡ (pos 0, before)
unfolding muart_close
muart_close_lem driver m port before e h =
    rw e (ap (λ c. (pos 0, c)) (restore_lem driver port before h))
