-- ===== src/Modem/Signal.antt =====
-- The check of the signal in LTE/at/mat.c.
use cfunction.Prelude.{
  strstr, Holds, text, ℕ, ◌+◌, ◌-◌, ◌*◌, ◌≤◌, ◌≡◌, refl, ◌⊎◌, inl, inr, true, false, ◌||◌, some,
  List, ltb, ◌==◌, ◌>>=◌, ℤ, pos, negsuc, codes, Bool-cases, Option-cases, get_elem?, arith,
}
use cfunction.Serial.Line.{Muart}
use cfunction.Modem.{
  Msim, Exchange, value, signal_at, level, read_signal, check_sim_signal, is_negative,
}
use cfunction.Modem.Answers.{Answered, Unless, replied}

-- The reply to AT+CSQ has two characters and a comma, which stand for the level.
abbrev pub Reports : Muart → Exchange → (signal : ℕ) → Type 0
Reports m line signal =
    (reply : List ℕ) × (s : List ℕ) × (i : ℕ) × (c : ℕ) × (d : ℕ) × Answered m (codes "AT+CSQ\r")
      (codes "+CSQ") line reply
    × (text reply ≡ some s)
    × (strstr s (codes ",") ≡ some i)
    × (2 ≤ i)
    × (get_elem? reply (i - 1) ≡ some c)
    × (get_elem? reply (i - 2) ≡ some d)
    × (signal ≡ value c + value d * 10)

value_lt : (c : ℕ) → value c ≤ 9
unfolding value
value_lt c = ground arith

-- A check of the signal leaves a level between 7 and 98 that has been reported, or fails.
abbrev pub Checked : Muart → Exchange → Msim → ℤ × Msim → Type 0
Checked m line before (ret, ms) =
    (is_negative ret ≡ true)
    ⊎ ((is_negative ret ≡ false)
        × (7 ≤ ms.signal)
        × (ms.signal ≤ 98)
        × (ms.operator ≡ before.operator)
        × Reports m line ms.signal)

level-Checked :
    (m : Muart) (line : Exchange) (ms : Msim) (n : ℕ)
    → n ≤ 99
    → Reports m line n
    → Checked m line ms (level ms n)
unfolding level is_negative
level-Checked m line ms n h r = elim (Bool-cases (ltb n 7 || (n == 99))) [
  | inl y ↦ rw y (inl refl)
  | inr z ↦ rw z (inr (refl, ground arith, ground arith, refl, r))
]

zero-Checked : (m : Muart) (line : Exchange) (ms : Msim) → Checked m line ms (level ms 0)
unfolding level is_negative
zero-Checked m line ms = inl refl

signal_at-Checked :
    (m : Muart) (line : Exchange) (ms : Msim) (reply s : List ℕ) (i : ℕ)
    → Answered m (codes "AT+CSQ\r") (codes "+CSQ") line reply
    → text reply ≡ some s
    → strstr s (codes ",") ≡ some i
    → Holds (Checked m line ms) (signal_at reply i >>= λ signal. some (level ms signal))
unfolding signal_at
signal_at-Checked m line ms reply s i a t comma = elim (Bool-cases (ltb i 2)) [
  | inl y ↦ rw y tt
  | inr z ↦ rw z (elim (Option-cases (get_elem? reply (i - 1))) [
    | inl e ↦ rw e tt
    | inr (c, e) ↦ elim (Option-cases (get_elem? reply (i - 2))) [
      | inl f ↦ rw (e, f) tt
      | inr (d, f) ↦
          rw (e, f)
            (level-Checked m line ms (value c + value d * 10)
              (omega (arith, value_lt c, value_lt d))
              (reply, s, i, c, d, a, t, comma, ground (arith, z), e, f, refl))
    ]
  ])
]

read_signal-Checked :
    (m : Muart) (line : Exchange) (ms : Msim) (r : ℤ × List ℕ)
    → Unless r.0 (Answered m (codes "AT+CSQ\r") (codes "+CSQ") line r.1)
    → Holds (Checked m line ms) (read_signal ms r)
unfolding read_signal is_negative
read_signal-Checked m line ms (negsuc n, reply) h = inl refl
read_signal-Checked m line ms (pos n, reply) (inl bad) = absurd (ground arith)
read_signal-Checked m line ms (pos n, reply) (inr a) = elim (Option-cases (text reply)) [
  | inl e ↦ rw (read_signal, e) tt
  | inr (s, e) ↦ elim (Option-cases (strstr s (codes ","))) [
    | inl f ↦ rw (read_signal, e, f) (zero-Checked m line ms)
    | inr (i, f) ↦ rw (read_signal, e, f) (signal_at-Checked m line ms reply s i a e f)
  ]
]

pub check_sim_signal-Checked :
    (m : Muart) (line : Exchange) (ms : Msim)
    → Holds (Checked m line ms) (check_sim_signal m ms line)
unfolding check_sim_signal
check_sim_signal-Checked m line ms =
    replied (Checked m line ms) m (codes "AT+CSQ\r") (codes "+CSQ") line (read_signal ms)
      (read_signal-Checked m line ms)
