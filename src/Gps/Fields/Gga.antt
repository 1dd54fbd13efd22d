-- ===== src/Gps/Fields/Gga.antt =====
-- The sentences with the number of satellites and the height.
use cfunction.Prelude.{
  leb, ◌==◌, if◌then◌else◌, Bool-cases, All, ℕ, ◌+◌, ◌-◌, ◌*◌, ◌≡◌, refl, ap, ◌≢◌, inl, inr, ◌&&◌,
  some, List, [], ◌∷◌,
}
use cfunction.Gps.Fields.{GpsInfo, here, digits_from, atoi, parse_gngga}
use cfunction.Gps.Fields.Split.{
  IsField, field, skip-comma, skip-field, has_field-append, here-append,
}

abbrev pub IsPlain : List ℕ → Type 0
IsPlain = All (λ c. c ≢ b',')

-- The items of the sentence behind its name: the five before the quality, which may be empty, the
-- quality, the satellites, the dilution and the height.
pub record Gga : Type 0 where
  pub first : List ℕ
  pub second : List ℕ
  pub third : List ℕ
  pub fourth : List ℕ
  pub fifth : List ℕ
  pub quality : List ℕ
  pub satellites : List ℕ
  pub dilution : List ℕ
  pub altitude : List ℕ
  pub rest : List ℕ

abbrev pub IsGga : Gga → Type 0
IsGga r =
    (IsPlain r.first × IsPlain r.second × IsPlain r.third × IsPlain r.fourth × IsPlain r.fifth)
    × (IsField r.quality × IsField r.satellites × IsPlain r.dilution × IsField r.altitude)

abbrev pub fixed_of : Gga → List ℕ
fixed_of r = field r.quality (field r.satellites (field r.dilution (field r.altitude r.rest)))

abbrev pub sentence_of : Gga → List ℕ
sentence_of r =
    field r.first (field r.second (field r.third (field r.fourth (field r.fifth (fixed_of r)))))

digits_from-field : (n : ℕ) (f s : List ℕ) → digits_from n (field f s) ≡ digits_from n f
unfolding digits_from
digits_from-field n [] s = refl
digits_from-field n (c ∷ f) s =
    ap (λ rest. if leb b'0' c && leb c b'9' then rest else n)
      (digits_from-field (n * 10 + (c - b'0')) f s)

atoi-field : (f s : List ℕ) → atoi (field f s) ≡ atoi f
unfolding atoi digits_from
atoi-field [] s = refl
atoi-field (c ∷ f) s =
    rw (atoi-field f s, digits_from-field 0 f s, digits_from-field 0 (c ∷ f) s) refl

module _ {F : Type 0} (atof : List ℕ → F) (by_1_85 : F → F)
    (stops : (f s : List ℕ) → IsField f → atof (field f s) ≡ atof f) where
  -- For an `atof` that stops at a comma: parse_gngga on a sentence with the items up to the height,
  -- of which the first five and the eighth may be empty, changes nothing when the quality begins
  -- with 0, and else sets the number of satellites and the height from their items.
  pub parse_gngga_lem :
      (gps : GpsInfo F) (r : Gga)
      → IsGga r
      → parse_gngga atof by_1_85 gps (sentence_of r)
        ≡ some (
            if here r.quality == b'0'
            then gps
            else record gps { satellite = atoi r.satellites; height = atof r.altitude })
  unfolding parse_gngga
  parse_gngga_lem gps r ((a, b, c, d, e), (q, n, dil, h)) =
      let s8 = field r.altitude r.rest in
      let s7 = field r.dilution s8 in
      let s6 = field r.satellites s7 in
      let s5 = field r.quality s6 in
      let s4 = field r.fifth s5 in
      let s3 = field r.fourth s4 in
      let s2 = field r.third s3 in
      let s1 = field r.second s2 in
      rw
        (
          skip-comma r.first s1 a,
          skip-comma r.second s2 b,
          skip-comma r.third s3 c,
          skip-comma r.fourth s4 d,
          skip-comma r.fifth s5 e,
          here-append r.quality (b',' ∷ s6) q,
        )
        (elim (Bool-cases (here r.quality == b'0')) [
          | inl y ↦ rw y refl
          | inr z ↦
              rw
                (
                  z,
                  skip-field r.quality s6 q,
                  skip-field r.satellites s7 n,
                  skip-comma r.dilution s8 dil,
                  has_field-append r.satellites (b',' ∷ s7) n,
                  atoi-field r.satellites s7,
                  has_field-append r.altitude (b',' ∷ r.rest) h,
                  stops r.altitude r.rest h,
                )
                refl
        ])
