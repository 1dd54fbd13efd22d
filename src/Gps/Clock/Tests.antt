-- ===== src/Gps/Clock/Tests.antt =====
-- Runs of `utc2btc`.
use cfunction.Prelude.{ℕ, ◌≡◌, refl, inl, some, List, arith}
use cfunction.Gps.Clock.{Tm, date_mday, utc2btc}
use cfunction.Gps.Clock.Days.{Fits, IsDate, month_days}
use cfunction.Gps.Clock.Calendar.{Ahead, utc2btc-Ahead}

-- 2019-12-31 20:30:00 and 2021-02-28 16:00:00
abbrev new_year_eve : Tm
new_year_eve = record { sec = 0; min = 30; hour = 20; mday = 31; mon = 11; year = 119 }

abbrev february : Tm
february = record { sec = 0; min = 0; hour = 16; mday = 28; mon = 1; year = 121 }

new_year_eve-Fits : Fits date_mday 119
unfolding Fits
new_year_eve-Fits = (28, refl, inl refl)

new_year_eve-IsDate : IsDate new_year_eve
unfolding IsDate month_days
new_year_eve-IsDate = (omega arith, omega arith, omega arith, omega arith)

utc2btc-Ahead_example :
    (days' : List ℕ) × (t' : Tm) × (utc2btc date_mday new_year_eve ≡ some (days', t'))
    × Ahead new_year_eve t'
    × Fits days' 119
utc2btc-Ahead_example = utc2btc-Ahead date_mday new_year_eve new_year_eve-Fits new_year_eve-IsDate
