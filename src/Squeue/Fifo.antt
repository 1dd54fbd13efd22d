-- ===== src/Squeue/Fifo.antt =====
-- The contract of the circular array: a first-in first-out queue of at most `cap` items.
use cfunction.Prelude.{
  ℕ, none, some, List, [], ◌∷◌, ◌++◌, pos, negsuc, length, ltb, ◌==◌, if◌then◌else◌,
}
use cfunction.Squeue.{Item, Op, put, get, ask_full, ask_empty, Reply, code, taken, flag}

unfoldable pub pop : List Item → Reply × List Item
pop [] = (taken (negsuc 0) none, [])
pop (x ∷ xs) = (taken (pos 0) (some x), xs)

module _ (cap : ℕ) where
  unfoldable pub step : List Item → Op → Reply × List Item
  unfolding pop
  step xs (put d) =
      if ltb (length xs) cap then (code (pos 0), xs ++ (d ∷ [])) else (code (negsuc 0), xs)
  step xs get = pop xs
  step xs ask_full = (flag (length xs == cap), xs)
  step xs ask_empty = (flag (length xs == 0), xs)

  unfoldable pub run : List Item → List Op → List Reply × List Item
  run xs [] = ([], xs)
  run xs (o ∷ os) = let (r, xs') = step xs o in let (rs, xs'') = run xs' os in (r ∷ rs, xs'')
