-- ===== src/Modem/Sim.antt =====
-- The state machine of LTE/at/mat.c.
use mathlib.Core.Path.{subst}
use cfunction.Prelude.{
  Holds, Holds-bind, ℕ, ◌≤◌, ◌≡◌, refl, ◌∙◌, ◌⊎◌, inl, inr, true, false, Option, none, some, ℤ, pos,
  negsuc, Option-cases, arith,
}
use cfunction.Serial.Line.{Muart}
use cfunction.Modem.{
  State, sim_zero, sim_init, sim_ready, sim_signal, sim_register, Msim, Lines, check_sim_signal,
  is_negative, msim_reset, check_sim_start, register_or_reset, check_sim_rest, check_sim_all,
  before_ready,
}
use cfunction.Modem.Answers.{
  Unless, IsRegistered, IsRefused, Because, check_sim_start-IsRegistered, check_sim_start-IsRefused,
}
use cfunction.Modem.Signal.{Reports, Checked, check_sim_signal-Checked}

-- A card that is ready has been checked before; of any other the checks have been made, and the
-- operator's name is the one that they have read.
abbrev pub HasPassed : Muart → Lines → (before new : Msim) → Type 0
HasPassed m lines before new =
    ((before.state ≡ sim_ready) ⊎ ((before.state ≡ sim_signal) ⊎ (before.state ≡ sim_register)))
    ⊎ ((ms : Msim) × IsRegistered m lines before ms × (new.operator ≡ ms.operator))

HasPassed-same :
    (m : Muart) (lines : Lines) (before ms new : Msim)
    → HasPassed m lines before ms
    → new.operator ≡ ms.operator
    → HasPassed m lines before new
HasPassed-same m lines before ms new (inl ready) same = inl ready
HasPassed-same m lines before ms new (inr (named, registered, e)) same =
    inr (named, registered, same ∙ e)

-- A card that was not ready has failed one of the four checks, or the check of the signal has failed.
abbrev pub HasFailed : Muart → Lines → Msim → Type 0
HasFailed m lines before =
    (((before.state ≡ sim_zero) ⊎ (before.state ≡ sim_init)) × IsRefused m lines before)
    ⊎ ((k : ℕ) × (ms : Msim) × (new : Msim) × (check_sim_signal m ms lines.signal
          ≡ some (negsuc k, new)))

-- What a run of the check comes to
Settled : Muart → Lines → Msim → ℤ × Msim → Type 0
Settled m lines before (ret, new) =
    ((ret ≡ pos 0)
      × (new.state ≡ sim_register)
      × (7 ≤ new.signal)
      × (new.signal ≤ 98)
      × Reports m lines.signal new.signal
      × HasPassed m lines before new)
    ⊎ ((ret ≡ negsuc 0) × (new.state ≡ sim_zero) × HasFailed m lines before)

signal-Settled :
    (m : Muart) (lines : Lines) (before ms : Msim) (r : ℤ × Msim)
    → HasPassed m lines before ms
    → Checked m lines.signal ms r
    → check_sim_signal m ms lines.signal ≡ some r
    → Settled m lines before (register_or_reset r)
unfolding register_or_reset Settled msim_reset is_negative
signal-Settled m lines before ms (negsuc k, new) passed checked e =
    inr (refl, refl, inr (k, ms, new, e))
signal-Settled m lines before ms (pos k, new) passed (inl bad) e = absurd (ground arith)
signal-Settled m lines before ms (pos k, new) passed (inr (n, low, high, same, reports)) e =
    inl (refl, refl, low, high, reports, HasPassed-same m lines before ms new passed same)

Holds-at :
    (P : ℤ × Msim → Type 0) (o : Option (ℤ × Msim)) (r : ℤ × Msim) → Holds P o → o ≡ some r → P r
Holds-at P o r h e = subst (Holds P) e h

rest-Settled :
    (m : Muart) (lines : Lines) (before : Msim) (r : ℤ × Msim)
    → Unless r.0 (HasPassed m lines before r.1) × Because (HasFailed m lines before) r
    → Holds (Settled m lines before) (check_sim_rest m lines r)
unfolding check_sim_rest msim_reset Settled is_negative
rest-Settled m lines before (negsuc k, ms) (h, inl bad) = absurd (ground arith)
rest-Settled m lines before (negsuc k, ms) (h, inr failed) = inr (refl, refl, failed)
rest-Settled m lines before (pos k, ms) (inl bad, w) = absurd (ground arith)
rest-Settled m lines before (pos k, ms) (inr passed, w) =
    let signal = check_sim_signal m ms lines.signal in
    elim (Option-cases signal) [
      | inl e ↦ rw (check_sim_rest, e) tt
      | inr (r, e) ↦
          rw (check_sim_rest, e)
            (signal-Settled m lines before ms r passed
              (Holds-at (Checked m lines.signal ms) signal r
                (check_sim_signal-Checked m lines.signal ms) e)
              e)
    ]

start-Settled :
    (m : Muart) (lines : Lines) (ms : Msim) (o : Option (ℤ × Msim))
    → (ms.state ≡ sim_zero) ⊎ (ms.state ≡ sim_init)
    → Holds (λ r. Unless r.0 (IsRegistered m lines ms r.1)) o
    → Holds (Because (IsRefused m lines ms)) o
    → Holds (λ r. Unless r.0 (HasPassed m lines ms r.1) × Because (HasFailed m lines ms) r) o
start-Settled m lines ms none new h w = tt
start-Settled m lines ms (some r) new h w = (
  elim h [ inl y ↦ inl y | inr p ↦ inr (inr (r.1, p, refl)) ],
  elim w [ inl n ↦ inl n | inr f ↦ inr (inl (new, f)) ],
)

-- A card that is ready has passed.
ready-cases :
    (s : State)
    → ((before_ready s ≡ true) × ((s ≡ sim_zero) ⊎ (s ≡ sim_init)))
      ⊎ ((before_ready s ≡ false) × ((s ≡ sim_ready) ⊎ ((s ≡ sim_signal) ⊎ (s ≡ sim_register))))
unfolding before_ready
ready-cases sim_zero = inl (refl, inl refl)
ready-cases sim_init = inl (refl, inr refl)
ready-cases sim_ready = inr (refl, inl refl)
ready-cases sim_signal = inr (refl, inr (inl refl))
ready-cases sim_register = inr (refl, inr (inr refl))

not_negative : is_negative (pos 0) ≡ false
unfolding is_negative
not_negative = refl

all-Holds :
    (m : Muart) (lines : Lines) (ms : Msim) → Holds (Settled m lines ms) (check_sim_all m lines ms)
unfolding check_sim_all
all-Holds m lines ms = elim (ready-cases ms.state) [
  | inl (y, new) ↦
      let start = check_sim_start m lines ms in
      rw y (
        Holds-bind (λ r. Unless r.0 (HasPassed m lines ms r.1) × Because (HasFailed m lines ms) r)
          (Settled m lines ms) start (check_sim_rest m lines)
          (start-Settled m lines ms start new (check_sim_start-IsRegistered m lines ms)
            (check_sim_start-IsRefused m lines ms))
          (rest-Settled m lines ms))
  | inr (n, ready) ↦ rw n (rest-Settled m lines ms (pos 0, ms) (inr (inl ready), inl not_negative))
]

-- mat_uart_check_sim_all, from any state and whatever the modem answers, when it returns: either 0,
-- with the state SIM_REGISTER, a signal between 7 and 98 that the modem has reported, and a card
-- that was ready before or has passed the checks: the modem has answered OK, then READY, then 0,1
-- or 0,5 to AT+CREG?, and the operator's name is the one that check_sim_operator has read; or -1,
-- with the state reset to zero, and only when the check of the signal, or for a card that was not
-- ready one of the other four checks, has failed.
pub check_sim_all-Settled :
    (m : Muart) (lines : Lines) (ms : Msim) (ret : ℤ) (new : Msim)
    → check_sim_all m lines ms ≡ some (ret, new)
    → ((ret ≡ pos 0)
        × (new.state ≡ sim_register)
        × (7 ≤ new.signal)
        × (new.signal ≤ 98)
        × Reports m lines.signal new.signal
        × HasPassed m lines ms new)
      ⊎ ((ret ≡ negsuc 0) × (new.state ≡ sim_zero) × HasFailed m lines ms)
unfolding Settled
check_sim_all-Settled m lines ms ret new e =
    let h : Holds (Settled m lines ms) (check_sim_all m lines ms) = all-Holds m lines ms in
    rw e at h
