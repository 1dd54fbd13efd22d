-- ===== src/Modem/Session/Ports.antt =====
-- What `mat_uart_get_sim` of LTE/at/mat.c leaves of the port.
use cfunction.Prelude.{
  Option-cases, ℤ, pos, negsuc, Holds, Holds-bind, Holds-then, ℕ, ◌≤◌, ◌≡◌, refl, ap, ◌⊎◌, inl, inr,
  Bool, Option, none, some, List, arith,
}
use cfunction.Serial.{Conf, Driver}
use cfunction.Serial.Line.{Muart}
use cfunction.Serial.Line.Session.{
  Restores, Saved, muart_open-cases, muart_setup-Saved, muart_close_lem,
}
use cfunction.Modem.{sim_zero, sim_register, Msim, is_negative, Lines, check_sim_all}
use cfunction.Modem.Sim.{check_sim_all-Settled}
use cfunction.Modem.Session.{
  MatUart, zero_muart, zero_msim, Answers, with_port, after_setup, after_open, mat_uart_init,
  mat_uart_deinit, copy_name, Result, deliver, after_init, mat_uart_get_sim,
}

-- A struct with a port that has saved the settings, or the settings as they were
Ready : Conf → ℤ × Option MatUart × Conf → Type 0
Ready before (pos _, none, port) = ⊥
Ready before (pos _, some mat, port) = (mat.muart.old_conf ≡ before) × (mat.msim ≡ zero_msim)
Ready before (negsuc _, mat, port) = port ≡ before

with_port-Ready :
    (before port : Conf) (m : Option Muart)
    → Saved before m
    → Ready before (pos 0, with_port m, port)
unfolding Ready with_port
with_port-Ready before port none h = absurd h
with_port-Ready before port (some m) h = (h, refl)

setup-Ready :
    (driver : Driver) (before : Conf) (r : ℤ × Option Muart × Conf)
    → Restores driver before
    → Saved before r.1
    → Ready before (after_setup driver r)
unfolding Ready after_setup
setup-Ready driver before (pos _, m, port) restores h = with_port-Ready before port m h
setup-Ready driver before (negsuc _, none, port) restores h = absurd h
setup-Ready driver before (negsuc _, some m, port) restores h =
    ap (λ r. r.1) (muart_close_lem driver m port before h restores)

open-Ready :
    (driver : Driver) (answers : Answers) (before : Conf) (r : ℤ × Option Muart × Conf × Bool)
    → Restores driver before
    → ((r.0 ≡ pos 0) × Saved before r.1) ⊎ ((r.0 ≡ negsuc 0) × (r.2 ≡ before))
    → Holds (Ready before) (after_open driver answers r)
unfolding after_open Ready
open-Ready driver answers before (pos _, m, port, is_open) restores (inr (e, h)) =
    absurd (ground arith)
open-Ready driver answers before (negsuc _, m, port, is_open) restores (inl (e, h)) =
    absurd (ground arith)
open-Ready driver answers before (negsuc _, m, port, is_open) restores (inr (e, h)) = h
open-Ready driver answers before (pos _, m, port, is_open) restores (inl (e, h)) =
    Holds-bind (λ r. Saved before r.1) (Ready before) _ _
      (muart_setup-Saved driver answers.speed_readable answers.parity_readable m _ 8 1 b'N' port
        before h)
      (λ r saved. setup-Ready driver before r restores saved)

-- What the caller has: the settings as they were, and a signal that is good enough or the variables
-- from before.
Delivered : (signal : ℕ) (operator : List ℕ) (before : Conf) → Result → Type 0
Delivered signal operator before r =
    (((r.ret ≡ pos 0) × (7 ≤ r.signal) × (r.signal ≤ 98))
      ⊎ ((r.ret ≡ negsuc 0) × (r.signal ≡ signal) × (r.operator ≡ operator)))
    × (r.port ≡ before)

deinit-port :
    (driver : Driver) (mat : MatUart) (ms : Msim) (port before : Conf)
    → Restores driver before
    → mat.muart.old_conf ≡ before
    → (mat_uart_deinit driver (record mat { msim = ms }) port).2 ≡ before
unfolding mat_uart_deinit
deinit-port driver mat ms port before restores e =
    ap (λ r. r.1) (muart_close_lem driver mat.muart port before e restores)

deliver-Delivered :
    (driver : Driver) (mat : MatUart) (ret : ℤ) (ms : Msim) (signal : ℕ) (operator : List ℕ)
    (size : ℤ) (port before : Conf)
    → Restores driver before
    → mat.muart.old_conf ≡ before
    → ((ret ≡ pos 0) × (7 ≤ ms.signal) × (ms.signal ≤ 98)) ⊎ (ret ≡ negsuc 0)
    → Holds
        (Delivered signal operator before)
        (deliver driver mat (ret, ms) signal operator size port)
unfolding deliver Delivered is_negative
deliver-Delivered driver mat ret ms signal operator size port before restores e h =
    let closed = deinit-port driver mat ms port before restores e in
    elim h [
      | inr f ↦ rw (f, closed) (inr (refl, refl, refl), refl)
      | inl (f, low, high) ↦
          rw (f, closed)
            (Holds-then (Delivered signal operator before) (copy_name ms.operator operator size) _
              (λ o. (inl (refl, low, high), refl)))
    ]

-- Of what check_sim_all has settled, the result and the range of the signal
settled-range :
    {P Q R : Type 0} (ret : ℤ) (ms : Msim)
    → ((ret ≡ pos 0) × (ms.state ≡ sim_register) × (7 ≤ ms.signal) × (ms.signal ≤ 98) × P × Q)
      ⊎ ((ret ≡ negsuc 0) × (ms.state ≡ sim_zero) × R)
    → ((ret ≡ pos 0) × (7 ≤ ms.signal) × (ms.signal ≤ 98)) ⊎ (ret ≡ negsuc 0)
settled-range ret ms (inl (f, _, low, high, _, _)) = inl (f, low, high)
settled-range ret ms (inr (f, _, _)) = inr f

init-Delivered :
    (driver : Driver) (lines : Lines) (signal : ℕ) (operator : List ℕ) (size : ℤ) (before : Conf)
    (r : ℤ × Option MatUart × Conf)
    → Restores driver before
    → Ready before r
    → Holds (Delivered signal operator before) (after_init driver lines signal operator size r)
unfolding Ready after_init Delivered
init-Delivered driver lines signal operator size before (negsuc _, mat, port) restores h =
    (inr (refl, refl, refl), h)
init-Delivered driver lines signal operator size before (pos _, none, port) restores h = absurd h
init-Delivered driver lines signal operator size before (pos _, some mat, port) restores (h, z) =
    elim (Option-cases (check_sim_all mat.muart lines mat.msim)) [
      | inl e ↦ rw e tt
      | inr ((ret, ms), e) ↦ rw e (
          deliver-Delivered driver mat ret ms signal operator size port before restores h
            (settled-range ret ms (check_sim_all-Settled mat.muart lines mat.msim ret ms e)))
    ]

-- mat_uart_get_sim, whatever the system and the modem answer, with a driver that gives the port its
-- settings back: when no step is undefined the port ends with the settings it had, and the caller
-- has 0 and a signal between 7 and 98, or -1 and the variables as they were.
pub mat_uart_get_sim-Restores :
    (driver : Driver) (answers : Answers) (lines : Lines) (dev : List ℕ) (signal : ℕ)
    (operator : List ℕ) (size : ℤ) (port : Conf) (r : Result)
    → Restores driver port
    → mat_uart_get_sim driver answers lines dev signal operator size port ≡ some r
    → (((r.ret ≡ pos 0) × (7 ≤ r.signal) × (r.signal ≤ 98))
        ⊎ ((r.ret ≡ negsuc 0) × (r.signal ≡ signal) × (r.operator ≡ operator)))
      × (r.port ≡ port)
unfolding Delivered mat_uart_get_sim mat_uart_init
mat_uart_get_sim-Restores driver answers lines dev signal operator size port r restores e =
    let opened =
      muart_open-cases driver answers.opened answers.first answers.second zero_muart dev port
        restores in
    let h : Holds (Delivered signal operator port)
        (mat_uart_get_sim driver answers lines dev signal operator size port) =
      Holds-bind (Ready port) (Delivered signal operator port) _ _
        (open-Ready driver answers port _ restores opened)
        (λ s ready. init-Delivered driver lines signal operator size port s restores ready) in
    rw e at h
