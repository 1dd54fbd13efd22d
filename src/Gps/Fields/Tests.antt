-- ===== src/Gps/Fields/Tests.antt =====
-- The fields of concrete sentences. The text up to the comma stands for the number that atof reads.
use cfunction.Prelude.{
  ◌==◌, if◌then◌else◌, codes, replicate, pos, ℕ, ◌≡◌, refl, ap, some, List, [], ◌∷◌, ◌++◌, arith,
}
use cfunction.Gps.Fields.{GpsInfo, parse_gnrmc}
use cfunction.Gps.Fields.Split.{IsField, field}
use cfunction.Gps.Fields.Rmc.{Rmc, IsRmc, parse_gnrmc_lem}
use cfunction.Gps.Fields.Gga.{Gga, IsGga}

until_comma : List ℕ → List ℕ
until_comma [] = []
until_comma (c ∷ s) = let rest = until_comma s in if c == b',' then [] else c ∷ rest

until_comma-field : (f s : List ℕ) → IsField f → until_comma (field f s) ≡ until_comma f
unfolding until_comma
until_comma-field [] s h = refl
until_comma-field (c ∷ []) s h = refl
until_comma-field (c ∷ d ∷ f) s h =
    ap (λ rest. if c == b',' then [] else c ∷ rest)
      (until_comma-field (d ∷ f) s (omega arith, h.1.1))

twice : List ℕ → List ℕ
twice s = s ++ s

abbrev blank : GpsInfo (List ℕ)
blank = record {
  latitude = [];
  longitude = [];
  speed = [];
  direction = [];
  height = [];
  satellite = pos 0;
  position_sn = 0;
  position_ew = 0;
  date_day = [];
  date_year = [];
}

-- The sentences of the comment in main
abbrev rmc : Rmc
rmc = record {
  time = codes "092927.000";
  lat = codes "2235.9058";
  sn = codes "N";
  lon = codes "11400.0518";
  ew = codes "E";
  knots = codes "0.000";
  course = codes "74.11";
  date = codes "151216";
  rest = codes ",,D";
}

abbrev gga : Gga
gga = record {
  first = codes "092927.000";
  second = codes "2235.9058";
  third = codes "N";
  fourth = codes "11400.0518";
  fifth = [];
  quality = codes "2";
  satellites = codes "9";
  dilution = codes "1.03";
  altitude = codes "53.1";
  rest = codes "M,-2.4,M,0.0,0";
}

rmc-IsRmc : IsRmc rmc
rmc-IsRmc = ground arith

gga-IsGga : IsGga gga
gga-IsGga = ground arith

parse_gnrmc_lem_example :
    parse_gnrmc until_comma twice blank
      (codes "092927.000,A,2235.9058,N,11400.0518,E,0.000,74.11,151216,,D")
    ≡ some (record blank {
      latitude = until_comma (codes "2235.9058");
      longitude = until_comma (codes "11400.0518");
      speed = twice (until_comma (codes "0.000"));
      direction = until_comma (codes "74.11");
      position_sn = b'N';
      position_ew = b'E';
      date_day = codes "092927.000" ++ replicate 6 0;
      date_year = codes "151216" ++ replicate 10 0;
    })
parse_gnrmc_lem_example = parse_gnrmc_lem until_comma twice until_comma-field blank rmc rmc-IsRmc
