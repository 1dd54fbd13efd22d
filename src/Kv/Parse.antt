-- ===== src/Kv/Parse.antt =====
-- `kv_parse_kv_to_kv` on a line with a key and a value.
use cfunction.Prelude.{
  ==_ne, length, take, replicate, length-append, take-append, All, pos, ℕ, suc, ◌+◌, ◌-◌, ◌≡◌, refl,
  ◌≢◌, some, List, [], ◌∷◌, ◌++◌, append_assoc, arith,
}
use cfunction.Kv.{get_value, del_blank, parse_kv_to_kv}
use cfunction.Kv.Blank.{IsCore, IsBlank, del_blank_lem}
use cfunction.Kv.Lookup.{copy-replicate}

abbrev pub IsUnsigned : List ℕ → Type 0
IsUnsigned = All (λ c. c ≢ b'=')

-- A key, blanks, the sign, a value and blanks.
abbrev pub pair : (key ws value end : List ℕ) → List ℕ
pair key ws value end = (key ++ ws) ++ (b'=' ∷ (value ++ end))

get_value-pair :
    (front rest : List ℕ) → IsUnsigned front → get_value (front ++ (b'=' ∷ rest)) ≡ some rest
unfolding get_value
get_value-pair [] rest h = refl
get_value-pair (c ∷ front) rest h = rw (==_ne c b'=' h.0) (get_value-pair front rest h.1)

trimmed :
    (core ws : List ℕ) (more : ℕ)
    → IsCore core
    → IsBlank ws
    → del_blank (some ((core ++ ws) ++ (0 ∷ replicate more 0)))
      ≡ some (some (core ++ (replicate (length ws) 0 ++ (0 ∷ replicate more 0))))
trimmed core ws more h blank =
    rw (append_assoc core ws (0 ∷ replicate more 0))
      (del_blank_lem core ws (replicate more 0) h blank)

-- On a key and a value that neither begin nor end with a blank, with the sign `=` between them,
-- blanks before the sign and behind the value, and no sign `=` in the key or in the blanks, for two
-- zeroed buffers with at least one byte more than the parts: kv_parse_kv_to_kv returns 0 with the
-- key and the value in the buffers, without the blanks, and zeros behind them.
pub parse_kv_to_kv-pair :
    (key ws value end : List ℕ) (more_key more_value : ℕ)
    → IsCore key
    → IsBlank ws
    → IsUnsigned (key ++ ws)
    → IsCore value
    → IsBlank end
    → parse_kv_to_kv
        (pair key ws value end)
        (replicate (length (key ++ ws) + suc more_key) 0)
        (replicate (length (value ++ end) + suc more_value) 0)
      ≡ some (
        pos 0,
        key ++ (replicate (length ws) 0 ++ (0 ∷ replicate more_key 0)),
        value ++ (replicate (length end) 0 ++ (0 ∷ replicate more_value 0)),
      )
unfolding parse_kv_to_kv
parse_kv_to_kv-pair key ws value end more_key more_value k blank unsigned v blank_end =
    let front = key ++ ws in
    let res = value ++ end in
    let len : length (front ++ (b'=' ∷ res)) - suc (length res) ≡ length front =
      omega (arith, length-append front (b'=' ∷ res)) in
    let cut_key : take (length (front ++ (b'=' ∷ res)) - suc (length res)) (front ++ (b'=' ∷ res))
        ≡ front =
      rw len (take-append front (b'=' ∷ res)) in
    rw
      (
        parse_kv_to_kv,
        get_value-pair front res unsigned,
        cut_key,
        copy-replicate front (suc more_key),
        trimmed key ws more_key k blank,
        copy-replicate res (suc more_value),
        trimmed value end more_value v blank_end,
      )
      refl
