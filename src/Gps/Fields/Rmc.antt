-- ===== src/Gps/Fields/Rmc.antt =====
-- The sentences of a receiver that has a position.
use mathlib.Core.Path.{subst}
use native.Mathlib.Nat.{mod-lt, div-add-mod, mul-mod_right}
use cfunction.Prelude.{
  sub_ℕ, drop-append, length, drop, replicate, length-append, drop-append, All, pos, sub_ℕ, ℕ, zero,
  suc, ◌+◌, ◌-◌, ◌*◌, ◌/◌, ◌%◌, ◌≤◌, ◌<◌, ◌≡◌, refl, sym, ◌≢◌, some, List, [], ◌∷◌, ◌++◌,
  append_assoc, arith,
}
use cfunction.Gps.Fields.{
  read_time, read_latitude, read_sn, read_longitude, read_ew, read_speed, read_direction, read_date,
  read_position, parse_gnrmc, GpsInfo, date_size, here, date_field, read_time, read_latitude,
  read_sn, read_longitude, read_ew, read_speed, read_direction, read_date, read_position,
  parse_gnrmc, set_interval_timer,
}
use cfunction.Gps.Fields.Split.{
  field, IsField, skip-field, has_field-append, here-append, strstr-field, date_field-append,
}

-- The items of a recommended minimum sentence, behind its name, from <1> to <9>.
pub record Rmc : Type 0 where
  pub time : List ℕ
  pub lat : List ℕ
  pub sn : List ℕ
  pub lon : List ℕ
  pub ew : List ℕ
  pub knots : List ℕ
  pub course : List ℕ
  pub date : List ℕ
  pub rest : List ℕ

abbrev pub IsRmc : Rmc → Type 0
IsRmc r =
    (IsField r.time × All (λ c. c ≢ b'A') r.time × (length r.time ≤ date_size))
    × (IsField r.lat
        × IsField r.sn
        × IsField r.lon
        × IsField r.ew
        × IsField r.knots
        × IsField r.course)
    × (IsField r.date × (length r.date ≡ 6))

-- The sentence: item <2> is the A of valid data.
abbrev pub position_of : Rmc → List ℕ
position_of r =
    field r.lat
      (field r.sn (field r.lon (field r.ew (field r.knots (field r.course (r.date ++ r.rest))))))

abbrev pub sentence_of : Rmc → List ℕ
sentence_of r = field r.time (b'A' ∷ b',' ∷ position_of r)

-- What the items from <3> on set.
abbrev with_position :
    {F : Type 0} (atof : List ℕ → F) (by_1_85 : F → F) → GpsInfo F → Rmc → GpsInfo F
with_position atof by_1_85 gps r = record gps {
  latitude = atof r.lat;
  longitude = atof r.lon;
  speed = by_1_85 (atof r.knots);
  direction = atof r.course;
  position_sn = here r.sn;
  position_ew = here r.ew;
  date_year = r.date ++ replicate 10 0;
}

module _ {F : Type 0} (atof : List ℕ → F) (by_1_85 : F → F)
    (stops : (f s : List ℕ) → IsField f → atof (field f s) ≡ atof f) where
  read_latitude-field :
      (gps : GpsInfo F) (f s : List ℕ)
      → IsField f
      → read_latitude atof by_1_85 gps (field f s) ≡ record gps { latitude = atof f }
  unfolding read_latitude
  read_latitude-field gps f s h = rw (has_field-append f (b',' ∷ s) h, stops f s h) refl

  read_longitude-field :
      (gps : GpsInfo F) (f s : List ℕ)
      → IsField f
      → read_longitude atof by_1_85 gps (field f s) ≡ record gps { longitude = atof f }
  unfolding read_longitude
  read_longitude-field gps f s h = rw (has_field-append f (b',' ∷ s) h, stops f s h) refl

  read_speed-field :
      (gps : GpsInfo F) (f s : List ℕ)
      → IsField f
      → read_speed atof by_1_85 gps (field f s) ≡ record gps { speed = by_1_85 (atof f) }
  unfolding read_speed
  read_speed-field gps f s h = rw (has_field-append f (b',' ∷ s) h, stops f s h) refl

  read_direction-field :
      (gps : GpsInfo F) (f s : List ℕ)
      → IsField f
      → read_direction atof by_1_85 gps (field f s) ≡ record gps { direction = atof f }
  unfolding read_direction
  read_direction-field gps f s h = rw (has_field-append f (b',' ∷ s) h, stops f s h) refl

  read_sn-field :
      (gps : GpsInfo F) (f s : List ℕ)
      → IsField f
      → read_sn atof by_1_85 gps (field f s) ≡ record gps { position_sn = here f }
  unfolding read_sn
  read_sn-field gps f s h = rw (has_field-append f (b',' ∷ s) h, here-append f (b',' ∷ s) h) refl

  read_ew-field :
      (gps : GpsInfo F) (f s : List ℕ)
      → IsField f
      → read_ew atof by_1_85 gps (field f s) ≡ record gps { position_ew = here f }
  unfolding read_ew
  read_ew-field gps f s h = rw (has_field-append f (b',' ∷ s) h, here-append f (b',' ∷ s) h) refl

  read_date-field :
      (gps : GpsInfo F) (f s : List ℕ)
      → IsField f
      → length f ≡ 6
      → read_date atof by_1_85 gps (f ++ s) ≡ some (record gps { date_year = f ++ replicate 10 0 })
  unfolding read_date
  read_date-field gps f s h six =
      let year : date_field (f ++ s) (pos 6) ≡ some (f ++ replicate 10 0) =
        subst (λ n. date_field (f ++ s) (pos n) ≡ some (f ++ replicate (date_size - n) 0)) six
          (date_field-append f s (omega (arith, six))) in
      rw (has_field-append f s h, year) refl

  read_position-items :
      (gps : GpsInfo F) (r : Rmc)
      → IsRmc r
      → read_position atof by_1_85 gps (position_of r) ≡ some (with_position atof by_1_85 gps r)
  unfolding read_position
  read_position-items gps r (time, (la, sn, lo, ew, kn, co), (da, six)) =
      let s5 = r.date ++ r.rest in
      let s4 = field r.course s5 in
      let s3 = field r.knots s4 in
      let s2 = field r.ew s3 in
      let s1 = field r.lon s2 in
      let s0 = field r.sn s1 in
      let g0 = record gps { latitude = atof r.lat } in
      let g1 = record g0 { position_sn = here r.sn } in
      let g2 = record g1 { longitude = atof r.lon } in
      let g3 = record g2 { position_ew = here r.ew } in
      let g4 = record g3 { speed = by_1_85 (atof r.knots) } in
      let g5 = record g4 { direction = atof r.course } in
      rw
        (
          skip-field r.lat s0 la,
          skip-field r.sn s1 sn,
          skip-field r.lon s2 lo,
          skip-field r.ew s3 ew,
          skip-field r.knots s4 kn,
          skip-field r.course s5 co,
          read_latitude-field gps r.lat s0 la,
          read_sn-field g0 r.sn s1 sn,
          read_longitude-field g1 r.lon s2 lo,
          read_ew-field g2 r.ew s3 ew,
          read_speed-field g3 r.knots s4 kn,
          read_direction-field g4 r.course s5 co,
        )
        (read_date-field g5 r.date r.rest da six)

  drop-time : (time p : List ℕ) → drop (length time + 1 + 2) (field time (b'A' ∷ b',' ∷ p)) ≡ p
  drop-time time p =
      let front = time ++ (b',' ∷ b'A' ∷ b',' ∷ []) in
      let n : length time + 1 + 2 ≡ length front =
        omega (arith, length-append time (b',' ∷ b'A' ∷ b',' ∷ [])) in
      let whole : field time (b'A' ∷ b',' ∷ p) ≡ front ++ p =
        sym (append_assoc time (b',' ∷ b'A' ∷ b',' ∷ []) p) in
      rw (n, whole) (drop-append front p)

  -- For an `atof` that stops at a comma: parse_gnrmc on a sentence with valid data, in which no item
  -- is empty, the time has at most 16 bytes and no letter A, and the date has six bytes, sets the
  -- eight fields from their items, with the speed multiplied, and leaves the others alone.
  pub parse_gnrmc_lem :
      (gps : GpsInfo F) (r : Rmc)
      → IsRmc r
      → parse_gnrmc atof by_1_85 gps (sentence_of r)
        ≡ some (record gps {
          latitude = atof r.lat;
          longitude = atof r.lon;
          speed = by_1_85 (atof r.knots);
          direction = atof r.course;
          position_sn = here r.sn;
          position_ew = here r.ew;
          date_day = r.time ++ replicate (date_size - length r.time) 0;
          date_year = r.date ++ replicate 10 0;
        })
  unfolding parse_gnrmc read_time
  parse_gnrmc_lem gps r h =
      let t = h.0 in
      let p = position_of r in
      let after = b',' ∷ b'A' ∷ b',' ∷ p in
      let n : sub_ℕ (length r.time + 1) 1 ≡ pos (length r.time) = ground arith in
      let day = date_field-append r.time after t.2 in
      rw
        (
          parse_gnrmc,
          strstr-field r.time p t.1,
          has_field-append r.time after t.0,
          n,
          day,
          drop-time r.time p,
        )
        (read_position-items
          (record gps { date_day = r.time ++ replicate (date_size - length r.time) 0 }) r h)

-- The timer fires first at the next multiple of near_seconds, at least one second from now, and then
-- every `seconds`.
pub set_interval_timer_lem :
    (now seconds near : ℕ)
    → 0 < near
    → (left : ℕ) × (set_interval_timer now seconds near ≡ some (seconds, left))
      × ((now + left) % near ≡ 0)
      × (0 < left)
      × (left ≤ near)
unfolding set_interval_timer
set_interval_timer_lem now seconds zero h = absurd (omega arith)
set_interval_timer_lem now seconds (suc near) h =
    let m = suc near in
    let small : (now + m) % m < m = mod-lt (now + m) (omega arith) in
    let divided : m * ((now + m) / m) + (now + m) % m ≡ now + m = div-add-mod (now + m) m in
    let next : now + (m - (now + m) % m) ≡ m * ((now + m) / m) = omega (arith, small, divided) in
    (_, refl, rw next (mul-mod_right m ((now + m) / m)), omega (arith, small), omega arith)
