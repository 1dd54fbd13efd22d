-- ===== src/Gps/Clock.antt =====
-- `utc2btc` of uart/read_gps.c: from universal time to the time of Beijing, eight hours ahead.
mod Days
mod Calendar
mod Tests
use cfunction.Prelude.{
  ℕ, zero, suc, ◌+◌, ◌-◌, ◌*◌, ◌/◌, ◌%◌, Bool, true, false, ◌&&◌, ◌||◌, not, Option, none, some,
  List, [], ◌∷◌, ◌>>=◌, ltb, leb, ◌==◌, if◌then◌else◌, get_elem?, set,
}

-- The fields of `struct tm` that are used; the caller makes them of decimal digits.
pub record Tm : Type 0 where
  pub sec : ℕ
  pub min : ℕ
  pub hour : ℕ
  pub mday : ℕ
  pub mon : ℕ
  pub year : ℕ

-- The global `date_mday` as it is when the program starts
abbrev pub date_mday : List ℕ
date_mday = 31 ∷ 28 ∷ 31 ∷ 30 ∷ 31 ∷ 30 ∷ 31 ∷ 31 ∷ 30 ∷ 31 ∷ 30 ∷ 31 ∷ []

pub is_leap : ℕ → Bool
is_leap year = (year % 400 == 0) || ((year % 4 == 0) && not (year % 100 == 0))

-- `tm_mday` behind the last day of its month
pub next_month : Tm → Tm
next_month t =
    let mon = t.mon + 1 in
    if ltb 11 mon
    then record t { mday = 1; mon = 0; year = t.year + 1 }
    else record t { mday = 1; mon = mon }

-- The global table is a state of the function; a fault past its end.
pub utc2btc : List ℕ → Tm → Option (List ℕ × Tm)
unfolding is_leap next_month
utc2btc days t =
    let hour = t.hour + 8 in
    if leb 24 hour
    then (do
      let t = record t { hour = hour - 24; mday = t.mday + 1 }
      let days = if (t.mon == 1) && is_leap (t.year + 1900) then set days 1 29 else days
      last ← get_elem? days t.mon
      some (days, (if ltb last t.mday then next_month t else t)))
    else some (days, record t { hour = hour })
