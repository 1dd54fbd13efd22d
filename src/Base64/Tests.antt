-- ===== src/Base64/Tests.antt =====
-- Runs of the encoder and the decoder.
use cfunction.Prelude.{ℕ, ◌≡◌, ◌<◌, refl, some, List, [], ◌∷◌, ◌++◌, pos, codes, length, All, arith}
use cfunction.Base64.{encode, decode}
use cfunction.Base64.RoundTrip.{decode-encode}

-- The example of `main`
hello : encode (codes "Hello wor") ≡ codes "SGVsbG8gd29y"
unfolding encode
hello = refl

hello_back :
    decode (codes "SGVsbG8=" ++ (0 ∷ []))
    ≡ some (pos 5, codes "Hello" ++ (0 ∷ []) ++ codes "8=" ++ (0 ∷ []))
unfolding decode
hello_back = refl

bytes : All (λ x. x < 256) (codes "Hello")
bytes = (omega arith, (omega arith, (omega arith, (omega arith, (omega arith, tt)))))

decode-encode_example :
    (rest : List ℕ) × (decode (encode (codes "Hello") ++ (0 ∷ 7 ∷ []))
      ≡ some (pos (length (codes "Hello")), codes "Hello" ++ rest))
decode-encode_example = decode-encode (codes "Hello") (7 ∷ []) bytes
