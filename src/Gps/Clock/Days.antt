-- ===== src/Gps/Clock/Days.antt =====
-- The calendar that `utc2btc` of uart/read_gps.c is held against, and its table of days.
use cfunction.Prelude.{
  ℕ, zero, suc, ◌+◌, ◌*◌, ◌%◌, ◌≤◌, ◌<◌, ◌≡◌, refl, inl, inr, Bool, true, false, ◌&&◌, Option, none,
  some, List, ltb, ◌==◌, if◌then◌else◌, get_elem?, set, Bool-cases, ◌⊎◌, holds_below, holds_at,
  arith,
}
use cfunction.Gps.Clock.{Tm, date_mday, is_leap, next_month}

-- The leap years of the Gregorian calendar: of the years that end a century every fourth, of the
-- others every fourth.
pub gregorian : ℕ → Bool
gregorian year = if year % 100 == 0 then year % 400 == 0 else year % 4 == 0

pub is_leap-gregorian : (year : ℕ) → is_leap year ≡ gregorian year
unfolding is_leap gregorian
is_leap-gregorian year = ground arith

-- The Gregorian calendar: the days of a month, before a month and before a year since 1900, month 0
-- being January.
unfoldable pub month_days : Bool → ℕ → ℕ
month_days leap zero = 31
month_days leap (suc zero) = if leap then 29 else 28
month_days leap (suc (suc zero)) = 31
month_days leap (suc (suc (suc zero))) = 30
month_days leap (suc (suc (suc (suc zero)))) = 31
month_days leap (suc (suc (suc (suc (suc zero))))) = 30
month_days leap (suc (suc (suc (suc (suc (suc zero)))))) = 31
month_days leap (suc (suc (suc (suc (suc (suc (suc zero))))))) = 31
month_days leap (suc (suc (suc (suc (suc (suc (suc (suc zero)))))))) = 30
month_days leap (suc (suc (suc (suc (suc (suc (suc (suc (suc zero))))))))) = 31
month_days leap (suc (suc (suc (suc (suc (suc (suc (suc (suc (suc zero)))))))))) = 30
month_days leap (suc (suc (suc (suc (suc (suc (suc (suc (suc (suc (suc _))))))))))) = 31

pub before_month : Bool → ℕ → ℕ
before_month leap zero = 0
before_month leap (suc m) = before_month leap m + month_days leap m

pub before_year : ℕ → ℕ
unfolding before_month
before_year zero = 0
before_year (suc y) = before_year y + before_month (gregorian (y + 1900)) 12

-- The hours since 1900
unfoldable pub hours_at : (year mon mday hour : ℕ) → ℕ
hours_at year mon mday hour =
    (before_year year + before_month (gregorian (year + 1900)) mon + mday) * 24 + hour

unfoldable pub hours : Tm → ℕ
unfolding hours_at
hours t = hours_at t.year t.mon t.mday t.hour

unfoldable pub IsDate : Tm → Type 0
IsDate t =
    (t.mon < 12)
    × (1 ≤ t.mday)
    × (t.mday ≤ month_days (gregorian (t.year + 1900)) t.mon)
    × (t.hour < 24)

-- The table of days is fit for a year when it gives February 28 days, or 29 in a leap year.
unfoldable pub Fits : List ℕ → ℕ → Type 0
Fits days year =
    (f : ℕ) × (days ≡ set date_mday 1 f)
    × ((f ≡ 28) ⊎ ((f ≡ 29) × (gregorian (year + 1900) ≡ true)))

-- What `utc2btc` finds in the table.
unfoldable pub table_for : Bool → ℕ → ℕ → List ℕ
table_for leap f m = if (m == 1) && leap then set (set date_mday 1 f) 1 29 else set date_mday 1 f

finds : Bool → ℕ → ℕ → Bool
unfolding table_for month_days
finds leap f m = elim (get_elem? (table_for leap f m) m) [
  | none ↦ false
  | some d ↦ d == month_days leap m
]

found : (o : Option ℕ) (d : ℕ) → (elim o [ none ↦ false | some e ↦ e == d ]) ≡ true → o ≡ some d
found o d h = ground arith

checked :
    (leap : Bool) (f : ℕ)
    → (f ≡ 28) ⊎ ((f ≡ 29) × (leap ≡ true))
    → holds_below (finds leap f) 12 ≡ true
unfolding finds holds_below
checked true f (inl e) = refl
checked false f (inl e) = rw e refl
checked true f (inr e) = refl
checked false f (inr (_, h)) = absurd (ground arith)

pub days_lem :
    (leap : Bool) (f m : ℕ)
    → m < 12
    → (f ≡ 28) ⊎ ((f ≡ 29) × (leap ≡ true))
    → get_elem? (table_for leap f m) m ≡ some (month_days leap m)
unfolding finds
days_lem leap f m h g =
    found (get_elem? (table_for leap f m) m) (month_days leap m)
      (holds_at (finds leap f) 12 m h (checked leap f g))

-- The first of a month is the day behind the last of the month before.
month_start :
    (y m h : ℕ) → hours_at y (m + 1) 1 h ≡ hours_at y m (month_days (gregorian (y + 1900)) m + 1) h
unfolding hours_at before_month
month_start y m h = let e : m + 1 ≡ suc m = omega arith in rw e (omega arith)

year_start :
    (y h : ℕ) → hours_at (y + 1) 0 1 h ≡ hours_at y 11 (month_days (gregorian (y + 1900)) 11 + 1) h
unfolding hours_at before_year before_month
year_start y h = let e : y + 1 ≡ suc y = omega arith in rw e (omega arith)

pub next_month-min : (t : Tm) → (next_month t).min ≡ t.min
unfolding next_month
next_month-min t = elim (Bool-cases (ltb 11 (t.mon + 1))) [ inl y ↦ rw y refl | inr n ↦ rw n refl ]

pub next_month-sec : (t : Tm) → (next_month t).sec ≡ t.sec
unfolding next_month
next_month-sec t = elim (Bool-cases (ltb 11 (t.mon + 1))) [ inl y ↦ rw y refl | inr n ↦ rw n refl ]

pub next_month-hours :
    (t : Tm)
    → t.mon < 12
    → t.mday ≡ month_days (gregorian (t.year + 1900)) t.mon + 1
    → hours (next_month t) ≡ hours t
unfolding next_month hours
next_month-hours t h e = elim (Bool-cases (ltb 11 (t.mon + 1))) [
  | inl y ↦ let m : t.mon ≡ 11 = ground arith in rw (y, e, m) (year_start t.year t.hour)
  | inr n ↦ rw (n, e) (month_start t.year t.mon t.hour)
]
