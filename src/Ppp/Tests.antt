-- ===== src/Ppp/Tests.antt =====
-- Runs of ppp_call.c, and the theorems at them.
use cfunction.Prelude.{replicate, ◌≡◌, refl, List, [], ◌∷◌, ◌++◌, arith}
use cfunction.Ppp.{
  only_stop, start_timeout, forking, testing_online, resting, Ppp, main_start, Event, succeeds,
  fails, child, step, run,
}
use cfunction.Ppp.Invariant.{IsSound, run-IsSound, start-IsSound}
use cfunction.Ppp.Watch.{
  online, lost_rounds, absent, starting, run-pings_fail, run-pppd_start, run-lost_stop,
}

-- The link comes up at once.
abbrev first_link : List Event
first_link = replicate 9 succeeds

first_link_online : run main_start first_link ≡ online 1 0
first_link_online = refl

run-IsSound_example : IsSound (run main_start (first_link ++ (child ∷ succeeds ∷ fails ∷ [])))
run-IsSound_example =
    run-IsSound main_start (first_link ++ (child ∷ succeeds ∷ fails ∷ [])) start-IsSound

run-pings_fail_example :
    (run (online 1 2) (lost_rounds 3) ≡ online 1 5)
    × (run (online 1 2) (lost_rounds 3 ++ (succeeds ∷ fails ∷ succeeds ∷ []))
        ≡ record { status = only_stop; link_num = 1; error_num = 0; pc = resting })
run-pings_fail_example = run-pings_fail 1 2 3 refl

run-pppd_start_example :
    (run (starting 9999 0 forking) (
        succeeds
        ∷ (absent 3 ++ (succeeds ∷ succeeds ∷ succeeds ∷ succeeds ∷ succeeds ∷ succeeds ∷ [])))
      ≡ online 0 0)
    × (run (starting 9999 0 forking) (succeeds ∷ (absent start_timeout ++ (fails ∷ succeeds ∷ [])))
        ≡ record { status = only_stop; link_num = 9999; error_num = 0; pc = testing_online })
run-pppd_start_example = run-pppd_start 9999 0 3 (omega arith) (omega arith)

abbrev interrupted : Ppp
interrupted = run main_start (replicate 6 succeeds)

run-lost_stop_example :
    ((step interrupted child).status ≡ only_stop)
    × (run interrupted (child ∷ succeeds ∷ succeeds ∷ succeeds ∷ []) ≡ online 1 0)
run-lost_stop_example = run-lost_stop interrupted refl
