-- ===== src/Ppp/Invariant.antt =====
-- What pppd_status and the counters can be, wherever the loop stands.
use cfunction.Prelude.{ℕ, ◌≤◌, ◌<◌, ◌≡◌, Bool, true, false, not, ◌&&◌, ◌||◌, List, [], ◌∷◌, arith}
use cfunction.Ppp.{
  Flags, only_stop, Pc, testing_stop, stopping, restarting, testing_start, cleared, setting,
  set_ready, testing_online, pinging, dropping, resting, Ppp, main_start, Event, succeeds, fails,
  child, loop_step, step, run,
}

-- One flag, or the child has ended while the link was up.
abbrev is_settled : Flags → Bool
is_settled f = (f.stop || (f.start || f.online)) && not (f.start && (f.stop || f.online))

-- Starting, or a child has ended since.
abbrev is_starting : Flags → Bool
is_starting f = not f.online && ((f.stop && not f.start) || (not f.stop && f.start))

-- Not yet online, or a child has ended since.
abbrev is_bare : Flags → Bool
is_bare f = not f.start && not f.online

abbrev is_up : Flags → Bool
is_up f = not f.start && (f.stop || f.online)

abbrev pub allowed : Pc → Flags → Bool
allowed testing_stop f = is_settled f
allowed stopping f = f.stop && not f.start
allowed restarting f = f.stop && not f.start
allowed testing_start f = is_settled f
allowed testing_online f = is_up f
allowed pinging f = is_up f
allowed dropping f = is_up f
allowed resting f = is_up f
allowed (cleared loaded) f = is_starting loaded && is_starting f
allowed setting f = is_bare f
allowed (set_ready loaded) f = is_bare loaded && is_bare f
allowed _ f = is_starting f

-- The errors that the loop has counted when it is not about to give up.
abbrev pub error_limit : Pc → ℕ
error_limit dropping = 6
error_limit _ = 5

abbrev pub IsSound : Ppp → Type 0
IsSound s = (allowed s.pc s.status ≡ true) × (s.error_num ≤ error_limit s.pc) × (s.link_num < 10000)

abbrev ppp : (a b c : Bool) (link errors : ℕ) → Pc → Ppp
ppp a b c link errors pc = record {
  status = record { stop = a; start = b; online = c };
  link_num = link;
  error_num = errors;
  pc = pc;
}

loop_step-IsSound :
    (a b c : Bool) (link errors : ℕ) (pc : Pc) (ok : Bool)
    → IsSound (ppp a b c link errors pc)
    → IsSound (loop_step (ppp a b c link errors pc) pc ok)
loop_step-IsSound a b c link errors pc ok inv = ground arith

child-allowed : (pc : Pc) (f : Flags) → allowed pc f ≡ true → allowed pc only_stop ≡ true
child-allowed pc f h = ground arith

step-IsSound : (s : Ppp) (event : Event) → IsSound s → IsSound (step s event)
step-IsSound s succeeds inv = loop_step-IsSound _ _ _ _ _ _ true inv
step-IsSound s fails inv = loop_step-IsSound _ _ _ _ _ _ false inv
step-IsSound s child inv = (child-allowed s.pc s.status inv.0, inv.1, inv.2)

-- In every state that the program can reach, with the handler running between any two steps: the
-- flags are ones that the place in the loop allows, which are never none at the tests of the loop
-- and never START together with another flag there; at most five errors are counted outside
-- `dropping`; and the number of links stays below 10000, so that it fits its buffer.
pub run-IsSound : (s : Ppp) (events : List Event) → IsSound s → IsSound (run s events)
run-IsSound s [] inv = inv
run-IsSound s (event ∷ events) inv = run-IsSound (step s event) events (step-IsSound s event inv)

pub start-IsSound : IsSound main_start
start-IsSound = ground arith
