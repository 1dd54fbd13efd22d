-- ===== src/Modem/Answers.antt =====
-- What the modem has answered when a check of LTE/at/mat.c succeeds.
use cfunction.Prelude.{
  ℤ-cases, ap, sym, ◌∙◌, Holds, Holds-bind, text, ℕ, zero, suc, ◌≡◌, refl, ◌⊎◌, inl, inr, true,
  false, ◌||◌, Option, none, some, List, if◌then◌else◌, ◌>>=◌, ℤ, pos, negsuc, codes, Bool-cases,
  Option-cases, arith,
}
use cfunction.Serial.Line.{Muart, strncpy, muart_write, muart_read_nbytes}
use cfunction.Modem.{
  at_max_len, Exchange, Msim, Lines, found, filled, send_at_cmd, check_at_ok, check_sim_ready,
  check_sim_register, check_sim_operator, is_negative, check_sim_start,
}

-- The command has been written, bytes have come, and the string in them holds what is expected.
abbrev pub Answered : Muart → (at_cmd expect : List ℕ) → Exchange → (reply : List ℕ) → Type 0
Answered m at_cmd expect line reply =
    (sent : ℕ) × (out : List ℕ) × (n : ℕ) × (bytes : List ℕ) × (s : List ℕ) × (muart_write line.0 m
        at_cmd
      ≡ some (pos sent, out))
    × (muart_read_nbytes line.1 at_max_len ≡ some (pos (suc n), bytes))
    × (text (filled bytes) ≡ some s)
    × (found s expect ≡ true)
    × (reply ≡ strncpy at_max_len s)

abbrev pub Answers : Muart → (at_cmd expect : List ℕ) → Exchange → Type 0
Answers m at_cmd expect line = (reply : List ℕ) × Answered m at_cmd expect line reply

-- A negative result, or one with this behind it
abbrev pub Unless : ℤ → Type 0 → Type 0
Unless ret P = (is_negative ret ≡ true) ⊎ P

send_at_cmd-Answered :
    (m : Muart) (at_cmd expect : List ℕ) (line : Exchange)
    → Holds
        (λ r. Unless r.0 (Answered m at_cmd expect line r.1))
        (send_at_cmd m (some at_cmd) (some expect) line)
unfolding send_at_cmd is_negative
send_at_cmd-Answered m at_cmd expect line = elim (Option-cases (muart_write line.0 m at_cmd)) [
  | inl e ↦ rw (send_at_cmd, e) tt
  | inr ((negsuc k, out), e) ↦ rw (send_at_cmd, e) (inl refl)
  | inr ((pos k, out), e) ↦ elim (Option-cases (muart_read_nbytes line.1 at_max_len)) [
    | inl f ↦ rw (send_at_cmd, e, f) tt
    | inr ((negsuc n, bytes), f) ↦ rw (send_at_cmd, e, f) (inl refl)
    | inr ((pos zero, bytes), f) ↦ rw (send_at_cmd, e, f) (inl refl)
    | inr ((pos (suc n), bytes), f) ↦ elim (Option-cases (text (filled bytes))) [
      | inl g ↦ rw (send_at_cmd, e, f, g) tt
      | inr (s, g) ↦ elim (Bool-cases (found s expect)) [
        | inl y ↦ rw (send_at_cmd, e, f, g, y) (inr (k, out, n, bytes, s, refl, refl, g, y, refl))
        | inr z ↦ rw (send_at_cmd, e, f, g, z) (inl refl)
      ]
    ]
  ]
]

-- What is done with a reply
module _ {B : Type 0} (Q : B → Type 0) (m : Muart) (at_cmd expect : List ℕ) (line : Exchange) where
  pub replied :
      (f : ℤ × List ℕ → Option B)
      → ((r : ℤ × List ℕ) → Unless r.0 (Answered m at_cmd expect line r.1) → Holds Q (f r))
      → Holds Q (send_at_cmd m (some at_cmd) (some expect) line >>= f)
  replied f step =
      Holds-bind (λ r. Unless r.0 (Answered m at_cmd expect line r.1)) Q
        (send_at_cmd m (some at_cmd) (some expect) line) f
        (send_at_cmd-Answered m at_cmd expect line) step

check_at_ok-Answers :
    (m : Muart) (line : Exchange)
    → Holds (λ ret. Unless ret (Answers m (codes "AT\r") (codes "OK") line)) (check_at_ok m line)
unfolding check_at_ok
check_at_ok-Answers m line =
    replied (λ ret. Unless ret (Answers m (codes "AT\r") (codes "OK") line)) m (codes "AT\r")
      (codes "OK") line _ (λ r h. elim h [ inl y ↦ inl y | inr a ↦ inr (r.1, a) ])

check_sim_ready-Answers :
    (m : Muart) (line : Exchange)
    → Holds
        (λ ret. Unless ret (Answers m (codes "AT+CPIN?\r") (codes "READY") line))
        (check_sim_ready m line)
unfolding check_sim_ready
check_sim_ready-Answers m line =
    replied (λ ret. Unless ret (Answers m (codes "AT+CPIN?\r") (codes "READY") line)) m
      (codes "AT+CPIN?\r") (codes "READY") line _
      (λ r h. elim h [ inl y ↦ inl y | inr a ↦ inr (r.1, a) ])

-- The reply to AT+CREG? says registered, at home or roaming.
abbrev pub Registers : Muart → Exchange → Type 0
Registers m line =
    (reply : List ℕ) × (s : List ℕ) × Answered m (codes "AT+CREG?\r") (codes "OK") line reply
    × (text reply ≡ some s)
    × ((found s (codes "0,1") ≡ true) ⊎ (found s (codes "0,5") ≡ true))

read_register :
    (m : Muart) (line : Exchange) (reply : List ℕ)
    → Answered m (codes "AT+CREG?\r") (codes "OK") line reply
    → Holds
        (λ ret. Unless ret (Registers m line))
        (text reply >>= λ s.
          if found s (codes "0,1") || found s (codes "0,5") then some (pos 0) else some (negsuc 1))
unfolding is_negative
read_register m line reply a = elim (Option-cases (text reply)) [
  | inl e ↦ rw e tt
  | inr (s, e) ↦ rw e (elim (Bool-cases (found s (codes "0,1") || found s (codes "0,5"))) [
    | inl y ↦ rw y (inr (reply, s, a, e, ground (arith, y)))
    | inr n ↦ rw n (inl refl)
  ])
]

check_sim_register-Registers :
    (m : Muart) (line : Exchange)
    → Holds (λ ret. Unless ret (Registers m line)) (check_sim_register m line)
unfolding check_sim_register is_negative
check_sim_register-Registers m line =
    replied (λ ret. Unless ret (Registers m line)) m (codes "AT+CREG?\r") (codes "OK") line _
      (λ r h. elim (ℤ-cases r.0) [
        | inr (n, e) ↦ rw e (inl refl)
        | inl (n, e) ↦ rw e (elim h [
          | inl y ↦ let bad : false ≡ true = ap is_negative (sym e) ∙ y in absurd (ground arith)
          | inr a ↦ read_register m line r.1 a
        ])
      ])

-- What the four checks of a card that is not known to be ready have found: the modem, the card, its
-- registration, and the operator, whose name is in `ms`.
abbrev pub IsRegistered : Muart → Lines → (before ms : Msim) → Type 0
IsRegistered m lines before ms =
    Answers m (codes "AT\r") (codes "OK") lines.at
    × Answers m (codes "AT+CPIN?\r") (codes "READY") lines.pin
    × Registers m lines.register
    × ((k : ℕ) × (check_sim_operator m before lines.operator ≡ some (pos k, ms)))

-- The result of a check decides whether the next is made.
guarded :
    (P : Type 0) (Q : ℤ × Msim → Type 0) (o : Option ℤ) (ms : Msim) (next : Option (ℤ × Msim))
    → Holds (λ ret. Unless ret P) o
    → ((ret : ℤ) → is_negative ret ≡ true → Q (ret, ms))
    → (P → Holds Q next)
    → Holds Q (o >>= λ ret. if is_negative ret then some (ret, ms) else next)
guarded P Q none ms next h stop go = tt
guarded P Q (some ret) ms next h stop go = elim (Bool-cases (is_negative ret)) [
  | inl y ↦ rw y (stop ret y)
  | inr n ↦ rw n (elim h [
    | inl y ↦ let bad : false ≡ true = sym n ∙ y in absurd (ground arith)
    | inr p ↦ go p
  ])
]

operator_read :
    (m : Muart) (lines : Lines) (ms : Msim)
    → Answers m (codes "AT\r") (codes "OK") lines.at
    → Answers m (codes "AT+CPIN?\r") (codes "READY") lines.pin
    → Registers m lines.register
    → Holds (λ r. Unless r.0 (IsRegistered m lines ms r.1)) (check_sim_operator m ms lines.operator)
unfolding is_negative
operator_read m lines ms at pin register =
    elim (Option-cases (check_sim_operator m ms lines.operator)) [
      | inl e ↦ rw e tt
      | inr ((negsuc k, ms'), e) ↦ rw e (inl refl)
      | inr ((pos k, ms'), e) ↦ rw e (inr (at, pin, register, (k, refl)))
    ]

pub check_sim_start-IsRegistered :
    (m : Muart) (lines : Lines) (ms : Msim)
    → Holds (λ r. Unless r.0 (IsRegistered m lines ms r.1)) (check_sim_start m lines ms)
unfolding check_sim_start
check_sim_start-IsRegistered m lines ms =
    let Q : ℤ × Msim → Type 0 = λ r. Unless r.0 (IsRegistered m lines ms r.1) in
    let stop : (ret : ℤ) → is_negative ret ≡ true → Q (ret, ms) = λ ret y. inl y in
    guarded _ Q _ ms _ (check_at_ok-Answers m lines.at) stop (λ at.
      guarded _ Q _ ms _ (check_sim_ready-Answers m lines.pin) stop (λ pin.
        guarded _ Q _ ms _ (check_sim_register-Registers m lines.register) stop
          (λ register. operator_read m lines ms at pin register)))

-- A check has failed.
abbrev pub Fails : Option ℤ → Type 0
Fails o = (k : ℕ) × (o ≡ some (negsuc k))

-- One of the four checks has failed.
abbrev pub IsRefused : Muart → Lines → Msim → Type 0
IsRefused m lines before =
    Fails (check_at_ok m lines.at)
    ⊎ (Fails (check_sim_ready m lines.pin)
        ⊎ (Fails (check_sim_register m lines.register)
            ⊎ ((k : ℕ) × (ms : Msim) × (check_sim_operator m before lines.operator
                  ≡ some (negsuc k, ms)))))

-- Not negative, or for a reason
abbrev pub Because : Type 0 → ℤ × Msim → Type 0
Because F r = (is_negative r.0 ≡ false) ⊎ F

guarded-Because :
    (F : Type 0) (o : Option ℤ) (ms : Msim) (next : Option (ℤ × Msim))
    → (Fails o → F)
    → Holds (Because F) next
    → Holds (Because F) (o >>= λ ret. if is_negative ret then some (ret, ms) else next)
unfolding is_negative
guarded-Because F none ms next why go = tt
guarded-Because F (some (pos k)) ms next why go = go
guarded-Because F (some (negsuc k)) ms next why go = inr (why (k, refl))

operator-Because :
    (F : Type 0) (o : Option (ℤ × Msim))
    → ((k : ℕ) × (ms : Msim) × (o ≡ some (negsuc k, ms)) → F)
    → Holds (Because F) o
unfolding is_negative
operator-Because F none why = tt
operator-Because F (some (pos k, ms)) why = inl refl
operator-Because F (some (negsuc k, ms)) why = inr (why (k, ms, refl))

pub check_sim_start-IsRefused :
    (m : Muart) (lines : Lines) (ms : Msim)
    → Holds (Because (IsRefused m lines ms)) (check_sim_start m lines ms)
unfolding check_sim_start
check_sim_start-IsRefused m lines ms =
    let F = IsRefused m lines ms in
    guarded-Because F _ ms _ (λ a. inl a)
      (guarded-Because F _ ms _ (λ b. inr (inl b))
        (guarded-Because F _ ms _ (λ c. inr (inr (inl c)))
          (operator-Because F _ (λ d. inr (inr (inr d))))))
