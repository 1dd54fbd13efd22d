-- ===== src/Gps/Clock/Calendar.antt =====
-- `utc2btc` of uart/read_gps.c against a calendar.
use cfunction.Prelude.{
  ℕ, ◌+◌, ◌-◌, ◌≤◌, ◌<◌, ◌≡◌, refl, ap, ◌∙◌, inl, inr, Bool, true, false, ◌&&◌, some, List, ltb,
  ltb→lt, leb, ◌==◌, if◌then◌else◌, get_elem?, set, Bool-cases, ◌⊎◌, holds_below, holds_at, arith,
}
use cfunction.Gps.Clock.{Tm, date_mday, next_month, utc2btc}
use cfunction.Gps.Clock.Days.{
  gregorian, is_leap-gregorian, month_days, hours_at, hours, IsDate, Fits, table_for, days_lem,
  next_month-min, next_month-sec, next_month-hours,
}

-- The table behind a call is fit for the year still.
table_for-Fits :
    (f m y : ℕ)
    → (f ≡ 28) ⊎ ((f ≡ 29) × (gregorian (y + 1900) ≡ true))
    → Fits (table_for (gregorian (y + 1900)) f m) y
unfolding Fits table_for
table_for-Fits f m y g = elim (Bool-cases ((m == 1) && gregorian (y + 1900))) [
  | inl h ↦ (29, rw h refl, inr (refl, ground arith))
  | inr h ↦ (f, rw h refl, g)
]

-- The date at which the clock is eight hours ahead
pub Ahead : Tm → Tm → Type 0
Ahead t t' = IsDate t' × (hours t' ≡ hours t + 8) × (t'.min ≡ t.min) × (t'.sec ≡ t.sec)

same_day : (t : Tm) → IsDate t → t.hour + 8 < 24 → Ahead t (record t { hour = t.hour + 8 })
unfolding Ahead IsDate hours hours_at
same_day t (hm, h1, hd, hh) h = ((hm, h1, hd, h), omega arith, refl, refl)

next_day :
    (t : Tm)
    → IsDate t
    → 24 ≤ t.hour + 8
    → t.mday < month_days (gregorian (t.year + 1900)) t.mon
    → Ahead t (record t { hour = t.hour + 8 - 24; mday = t.mday + 1 })
unfolding Ahead IsDate hours hours_at
next_day t (hm, h1, hd, hh) h l =
    ((hm, omega arith, omega arith, omega arith), omega arith, refl, refl)

positive : Bool → ℕ → Bool
unfolding month_days
positive leap m = ltb 0 (month_days leap m)

every_positive : (leap : Bool) → holds_below (positive leap) 12 ≡ true
unfolding positive holds_below
every_positive true = refl
every_positive false = refl

month_days-positive : (leap : Bool) (m : ℕ) → m < 12 → 1 ≤ month_days leap m
unfolding positive
month_days-positive leap m h =
    ltb→lt 0 (month_days leap m) (holds_at (positive leap) 12 m h (every_positive leap))

first_IsDate : (t : Tm) → t.mon < 12 → t.hour < 24 → IsDate (next_month t)
unfolding IsDate next_month
first_IsDate t h l = elim (Bool-cases (ltb 11 (t.mon + 1))) [
  | inl y ↦ rw y (
    omega arith,
    omega arith,
    month_days-positive (gregorian (t.year + 1 + 1900)) 0 (omega arith),
    l,
  )
  | inr n ↦
      let m : t.mon + 1 < 12 = ground arith in
      rw n (m, omega arith, month_days-positive (gregorian (t.year + 1900)) (t.mon + 1) m, l)
]

month_over :
    (t : Tm)
    → IsDate t
    → 24 ≤ t.hour + 8
    → t.mday ≡ month_days (gregorian (t.year + 1900)) t.mon
    → Ahead t (next_month (record t { hour = t.hour + 8 - 24; mday = t.mday + 1 }))
unfolding Ahead IsDate hours hours_at
month_over t (hm, h1, hd, hh) g e =
    let t' = record t { hour = t.hour + 8 - 24; mday = t.mday + 1 } in
    (
      first_IsDate t' hm (omega arith),
      next_month-hours t' hm (omega arith) ∙ omega arith,
      next_month-min t',
      next_month-sec t',
    )

-- The branches of `utc2btc`
stays :
    (days : List ℕ) (t : Tm)
    → t.hour + 8 < 24
    → utc2btc days t ≡ some (days, record t { hour = t.hour + 8 })
unfolding utc2btc
stays days t h = let n : leb 24 (t.hour + 8) ≡ false = ground arith in rw n refl

rolls :
    (f last : ℕ) (t : Tm)
    → 24 ≤ t.hour + 8
    → get_elem? (table_for (gregorian (t.year + 1900)) f t.mon) t.mon ≡ some last
    → utc2btc (set date_mday 1 f) t
      ≡ some (
        table_for (gregorian (t.year + 1900)) f t.mon,
        (if ltb last (t.mday + 1)
            then next_month (record t { hour = t.hour + 8 - 24; mday = t.mday + 1 })
            else record t { hour = t.hour + 8 - 24; mday = t.mday + 1 }),
      )
unfolding utc2btc table_for
rolls f last t h e =
    let y : leb 24 (t.hour + 8) ≡ true = ground arith in
    rw (is_leap-gregorian (t.year + 1900), y, e) refl

rolled-Ahead :
    (t : Tm)
    → IsDate t
    → 24 ≤ t.hour + 8
    → Ahead t (
        if ltb (month_days (gregorian (t.year + 1900)) t.mon) (t.mday + 1)
        then next_month (record t { hour = t.hour + 8 - 24; mday = t.mday + 1 })
        else record t { hour = t.hour + 8 - 24; mday = t.mday + 1 })
unfolding IsDate
rolled-Ahead t (hm, h1, hd, hh) g =
    elim (Bool-cases (ltb (month_days (gregorian (t.year + 1900)) t.mon) (t.mday + 1))) [
      | inl y ↦ rw y (month_over t (hm, h1, hd, hh) g (ground arith))
      | inr n ↦ rw n (next_day t (hm, h1, hd, hh) g (ground arith))
    ]

-- utc2btc on a valid date, while the table of days is fit for its year: it returns a valid date,
-- eight hours later by the Gregorian calendar, with the same minute and second; the table stays
-- fit.
pub utc2btc-Ahead :
    (days : List ℕ) (t : Tm)
    → Fits days t.year
    → IsDate t
    → (days' : List ℕ) × (t' : Tm) × (utc2btc days t ≡ some (days', t'))
      × Ahead t t'
      × Fits days' t.year
unfolding Fits IsDate
utc2btc-Ahead days t (f, e, g) (hm, h1, hd, hh) = elim (Bool-cases (leb 24 (t.hour + 8))) [
  | inl y ↦
      let roll : 24 ≤ t.hour + 8 = ground arith in
      (
        _,
        _,
        ap (λ d. utc2btc d t) e
            ∙ rolls f (month_days (gregorian (t.year + 1900)) t.mon) t roll
                (days_lem (gregorian (t.year + 1900)) f t.mon hm g),
        rolled-Ahead t (hm, h1, hd, hh) roll,
        table_for-Fits f t.mon t.year g,
      )
  | inr n ↦
      let stay : t.hour + 8 < 24 = ground arith in
      (
        days,
        record t { hour = t.hour + 8 },
        stays days t stay,
        same_day t (hm, h1, hd, hh) stay,
        (f, e, g),
      )
]

-- Once a February of a leap year has set the table to 29 days it is never set back: on February 28
-- of any other year, from 16 o'clock on, utc2btc returns February 29.
pub utc2btc_stale :
    (t : Tm)
    → t.mon ≡ 1
    → t.mday ≡ 28
    → 16 ≤ t.hour
    → t.hour < 24
    → gregorian (t.year + 1900) ≡ false
    → utc2btc (set date_mday 1 29) t
      ≡ some (set date_mday 1 29, record t { hour = t.hour - 16; mon = 1; mday = 29 })
unfolding table_for
utc2btc_stale t hm hd h16 h24 leap =
    let found_29 : get_elem? (table_for (gregorian (t.year + 1900)) 29 t.mon) t.mon ≡ some 29 =
      rw (hm, leap) refl in
    let hour : t.hour + 8 - 24 ≡ t.hour - 16 = omega arith in
    rw (rolls 29 29 t (omega arith) found_29, hm, hd, leap, hour) refl
