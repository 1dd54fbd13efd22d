-- ===== src/Prelude/Strings.antt =====
-- C strings in buffers.
use mathlib.Core.Bool.{Bool, true, false, ◌&&◌}
use mathlib.Core.Option.{Option, none, some}
use mathlib.Core.List.{List, [], ◌∷◌, ◌++◌}
use mathlib.Core.Path.{◌≡◌, refl}
use mathlib.Core.Logic.{◌≢◌}
use Prim.Native.Nat.{ℕ, ◌+◌}
use cfunction.Prelude.Tests.{◌==◌, if◌then◌else◌, ==_ne}
use cfunction.Prelude.Lists.{All}
use cfunction.Prelude.Effect.{◌>>=◌}

-- The string in a buffer: undefined if it is not ended.
unfoldable pub text : List ℕ → Option (List ℕ)
text [] = none
text (c ∷ buf) = let rest = (do s ← text buf; some (c ∷ s)) in if c == 0 then some [] else rest

pub text-append : (s rest : List ℕ) → All (λ c. c ≢ 0) s → text (s ++ (0 ∷ rest)) ≡ some s
unfolding text
text-append [] rest h = refl
text-append (c ∷ s) rest h = rw (==_ne c 0 h.0, text-append s rest h.1) refl

-- The string begins with the pattern.
unfoldable pub begins : (pattern s : List ℕ) → Bool
begins [] s = true
begins (c ∷ pattern) [] = false
begins (c ∷ pattern) (d ∷ s) = (c == d) && begins pattern s

-- `strstr`: the index of the first occurrence
unfoldable pub strstr : (s pattern : List ℕ) → Option ℕ
unfolding begins
strstr [] pattern = if begins pattern [] then some 0 else none
strstr (c ∷ s) pattern =
    let rest = (do i ← strstr s pattern; some (i + 1)) in
    if begins pattern (c ∷ s) then some 0 else rest
