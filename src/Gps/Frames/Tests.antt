-- ===== src/Gps/Frames/Tests.antt =====
-- Runs of `parse_buf`.
use cfunction.Prelude.{ℕ, ◌≡◌, refl, some, List, [], ◌∷◌, ◌++◌, codes}
use cfunction.Gps.Packet.{gngga}
use cfunction.Gps.Frames.{parse_buf}

abbrev text : List ℕ
text = codes "GNGGA,1"

two_sentences :
    parse_buf (codes "x$GNGGA,1*55\r\n$GNGGA,1*55\r\n$G" ++ (0 ∷ [])) 0 29
    ≡ some (
      27,
      codes "x$GNGGA,1"
          ++ (0 ∷ [])
          ++ codes "55"
          ++ (0 ∷ [])
          ++ codes "\n$GNGGA,1"
          ++ (0 ∷ [])
          ++ codes "55"
          ++ (0 ∷ [])
          ++ codes "\n$G"
          ++ (0 ∷ []),
      gngga (codes "1") ∷ gngga (codes "1") ∷ [],
    )
unfolding parse_buf
two_sentences = refl
