-- ===== src/Gps/Fields.antt =====
-- `parse_gnrmc`, `parse_gngga` and `set_interval_timer` of uart/read_gps.c. What `atof` returns and
-- the product by 1.85 are parameters: the fields of floating point numbers are only passed on.
mod Split
mod Rmc
mod Gga
mod Tests
use cfunction.Prelude.{
  ltb, leb, ◌==◌, if◌then◌else◌, ltb→lt, lt→ltb, ==_iff, ==_refl, ==_ne, Bool-cases, Option-cases,
  codes, length, get_elem?, get_or, set, take, drop, replicate, length-append, length-replicate,
  length-set, get_elem?-append, drop-append, take-append, set-append, get_elem?-eq-get_or,
  get_or-set_self, get_or-set_ne, All, All-append, same, holds_below, holds_at, ℤ, pos, negsuc,
  pos_part, to_size, int_max, eq_int, sub_ℕ, ◌>>=◌, Holds, Holds-bind, Holds-if, Holds-then, always,
  text, begins, strstr, ℕ, zero, suc, ◌+◌, ◌-◌, ◌*◌, ◌/◌, ◌%◌, ◌^◌, ◌≤◌, ◌<◌, ◌≡◌, refl, sym, ap,
  ap₂, ◌∙◌, ◌≢◌, ◌↔◌, ◌⊎◌, inl, inr, Bool, true, false, not, ◌&&◌, ◌||◌, Option, none, some, List,
  [], ◌∷◌, ◌++◌, map, append_assoc, append-nil, arith,
}
use cfunction.Serial.Line.{strncpy}

-- `gps_info_t`, without the fields that fix_gps_info computes
pub record GpsInfo (F : Type 0) : Type 0 where
  pub latitude : F
  pub longitude : F
  pub speed : F
  pub direction : F
  pub height : F
  pub satellite : ℤ
  pub position_sn : ℕ
  pub position_ew : ℕ
  pub date_day : List ℕ
  pub date_year : List ℕ

-- The size of `date_day` and of `date_year`
abbrev pub date_size : ℕ
date_size = 16

-- `buf[i]`, for the part of the string from i on: the byte 0 ends it.
abbrev pub here : List ℕ → ℕ
here [] = 0
here (c ∷ s) = c

-- `while (buf[i++] != ',')`: it would go on behind the string.
unfoldable pub skip : List ℕ → Option (List ℕ)
skip [] = none
skip (c ∷ s) = let rest = skip s in if c == b',' then some s else rest

abbrev pub has_field : List ℕ → Bool
has_field s = not (here s == b',')

-- `memset(to, 0, 16); strncpy(to, s, n)` for n characters that are all in s: a fault when n, as a
-- size, is beyond the 16 bytes.
unfoldable pub date_field : List ℕ → ℤ → Option (List ℕ)
date_field s n =
    if ltb date_size (to_size n)
    then none
    else some (strncpy (to_size n) s ++ replicate (date_size - to_size n) 0)

-- A decimal number: `atoi` behind the sign
unfoldable pub digits_from : ℕ → List ℕ → ℕ
digits_from n [] = n
digits_from n (c ∷ s) =
    let rest = digits_from (n * 10 + (c - b'0')) s in if leb b'0' c && leb c b'9' then rest else n

abbrev pub negate : ℕ → ℤ
negate zero = pos 0
negate (suc n) = negsuc n

-- `atoi`, for a number that fits an int
unfoldable pub atoi : List ℕ → ℤ
atoi [] = pos 0
atoi (c ∷ s) =
    let rest = atoi s in
    if (c == b' ') || (leb 9 c && leb c 13)
    then rest
    else if c == b'-'
    then negate (digits_from 0 s)
    else if c == b'+'
    then pos (digits_from 0 s)
    else pos (digits_from 0 (c ∷ s))

module _ {F : Type 0} (atof : List ℕ → F) (by_1_85 : F → F) where
  -- Item <1>, on the whole string: `strx - buf` is k.
  unfoldable pub read_time : GpsInfo F → List ℕ → ℕ → Option (GpsInfo F)
  read_time gps buf k =
      if has_field buf
      then (date_field buf (sub_ℕ k 1) >>= λ day. some (record gps { date_day = day }))
      else some gps

  unfoldable pub read_latitude : GpsInfo F → List ℕ → GpsInfo F
  read_latitude gps s = if has_field s then record gps { latitude = atof s } else gps

  unfoldable pub read_sn : GpsInfo F → List ℕ → GpsInfo F
  read_sn gps s = if has_field s then record gps { position_sn = here s } else gps

  unfoldable pub read_longitude : GpsInfo F → List ℕ → GpsInfo F
  read_longitude gps s = if has_field s then record gps { longitude = atof s } else gps

  unfoldable pub read_ew : GpsInfo F → List ℕ → GpsInfo F
  read_ew gps s = if has_field s then record gps { position_ew = here s } else gps

  unfoldable pub read_speed : GpsInfo F → List ℕ → GpsInfo F
  read_speed gps s = if has_field s then record gps { speed = by_1_85 (atof s) } else gps

  unfoldable pub read_direction : GpsInfo F → List ℕ → GpsInfo F
  read_direction gps s = if has_field s then record gps { direction = atof s } else gps

  unfoldable pub read_date : GpsInfo F → List ℕ → Option (GpsInfo F)
  read_date gps s =
      if has_field s
      then (date_field s (pos 6) >>= λ year. some (record gps { date_year = year }))
      else some gps

  -- Items <3> to <9>
  unfoldable pub read_position : GpsInfo F → List ℕ → Option (GpsInfo F)
  read_position gps lat = do
    sn ← skip lat
    lon ← skip sn
    ew ← skip lon
    speed ← skip ew
    direction ← skip speed
    date ← skip direction
    read_date
        (read_direction
          (read_speed (read_ew (read_longitude (read_sn (read_latitude gps lat) sn) lon) ew) speed)
          direction)
        date

  -- `parse_gnrmc`
  unfoldable pub parse_gnrmc : GpsInfo F → List ℕ → Option (GpsInfo F)
  parse_gnrmc gps buf = elim (strstr buf (codes "A,")) [
    | none ↦ some gps
    | some k ↦ do timed ← read_time gps buf k; read_position timed (drop (k + 2) buf)
  ]

  -- `parse_gngga`
  unfoldable pub parse_gngga : GpsInfo F → List ℕ → Option (GpsInfo F)
  parse_gngga gps buf = do
    b ← skip buf
    c ← skip b
    d ← skip c
    e ← skip d
    f ← skip e
    if here f == b'0' then some gps else (do
      g ← skip f
      h ← skip g
      i ← skip h
      let counted = if has_field g then record gps { satellite = atoi g } else gps
      some (if has_field i then record counted { height = atof i } else counted))

-- `set_interval_timer`: it_interval and it_value, in seconds, for what `time` returns; undefined for
-- a division by 0.
unfoldable pub set_interval_timer : (now seconds near_seconds : ℕ) → Option (ℕ × ℕ)
set_interval_timer now seconds zero = none
set_interval_timer now seconds (suc near) =
    let diff = (now + suc near) % suc near in some (seconds, suc near - diff)
