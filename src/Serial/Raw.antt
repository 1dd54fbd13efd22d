-- ===== src/Serial/Raw.antt =====
-- `tty_raw` of LTE/at/muart.c and of uart/read_gps.c.
use cfunction.Prelude.{
  ℕ, Bool, true, false, not, ◌&&◌, ◌||◌, Option, none, some, ◌==◌, if◌then◌else◌, ℤ, pos, negsuc,
  ◌≡◌, refl, arith, Bool-cases, Option-cases, ◌⊎◌, inl, inr,
}
use cfunction.Serial.{Conf, Driver}

-- The settings asked for
unfoldable pub raw : Conf → Conf
raw c = record c {
  echo = false;
  icanon = false;
  iexten = false;
  isig = false;
  brkint = false;
  icrnl = false;
  inpck = false;
  istrip = false;
  ixon = false;
  size = 8;
  parenb = false;
  opost = false;
  vmin = 1;
  vtime = 0;
}

-- The test of what the port has
unfoldable pub is_raw : Conf → Bool
is_raw c = not (
    (c.echo || c.icanon || c.iexten || c.isig)
    || (c.brkint || c.icrnl || c.inpck || c.istrip || c.ixon)
    || (not (c.size == 8) || c.parenb)
    || c.opost
    || not (c.vmin == 1)
    || not (c.vtime == 0))

-- `tcsetattr` whose result is not looked at
unfoldable pub restore : Driver → Conf → Conf → Conf
restore driver port saved = elim (driver port saved) [ none ↦ port | some new ↦ new ]

-- What a call returns, the settings of the port, and what it has saved.
pub record Tty : Type 0 where
  pub ret : ℤ
  pub port : Conf
  pub saved : Conf

-- `first` and `second` say whether the two calls of `tcgetattr` succeed.
unfoldable pub tty_raw : Driver → (first second : Bool) → (port saved : Conf) → Tty
unfolding raw is_raw restore
tty_raw driver first second port saved =
    if first
    then elim (driver port (raw port)) [
      | none ↦ record { ret = negsuc 0; port = port; saved = port }
      | some new ↦
          if second && is_raw new
          then record { ret = pos 0; port = new; saved = port }
          else record { ret = negsuc 0; port = restore driver new port; saved = port }
    ]
    else record { ret = negsuc 0; port = port; saved = saved }

-- The variant of uart/read_gps.c keeps a global state, none for `RESET` and the descriptor in raw mode.
unfoldable pub once :
    Driver
    → (first second : Bool) → (fd : ℕ) → (state : Option ℕ) → (port saved : Conf) → Tty × Option ℕ
unfolding tty_raw
once driver first second fd (some other) port saved =
    (record { ret = negsuc 0; port = port; saved = saved }, some other)
once driver first second fd none port saved =
    let tty = tty_raw driver first second port saved in
    (tty, elim tty.ret [ pos _ ↦ some fd | negsuc _ ↦ none ])

-- Raw mode, setting by setting
pub IsRaw : Conf → Type 0
IsRaw c =
    (c.echo ≡ false)
    × (c.icanon ≡ false)
    × (c.iexten ≡ false)
    × (c.isig ≡ false)
    × (c.brkint ≡ false)
    × (c.icrnl ≡ false)
    × (c.inpck ≡ false)
    × (c.istrip ≡ false)
    × (c.ixon ≡ false)
    × (c.size ≡ 8)
    × (c.parenb ≡ false)
    × (c.opost ≡ false)
    × (c.vmin ≡ 1)
    × (c.vtime ≡ 0)

is_raw-IsRaw : (c : Conf) → is_raw c ≡ true → IsRaw c
unfolding is_raw IsRaw
is_raw-IsRaw c h = ground arith

-- tty_raw returns 0 only when the port has every setting of raw mode, whatever part of the request
-- the driver has carried out; the settings from before are then saved. Otherwise it returns -1.
pub tty_raw-IsRaw :
    (driver : Driver) (first second : Bool) (port saved : Conf)
    → let tty = tty_raw driver first second port saved in
      ((tty.ret ≡ pos 0) × IsRaw tty.port × (tty.saved ≡ port)) ⊎ (tty.ret ≡ negsuc 0)
unfolding tty_raw
tty_raw-IsRaw driver false second port saved = inr refl
tty_raw-IsRaw driver true second port saved = elim (Option-cases (driver port (raw port))) [
  | inl e ↦ rw e (inr refl)
  | inr (new, e) ↦ rw e (elim (Bool-cases (second && is_raw new)) [
    | inl y ↦ rw y (inl (refl, is_raw-IsRaw new (ground arith), refl))
    | inr n ↦ rw n (inr refl)
  ])
]
