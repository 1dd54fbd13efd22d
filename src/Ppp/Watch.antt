-- ===== src/Ppp/Watch.antt =====
-- How the loop notices that the link is down.
use mathlib.Core.Path.{subst}
use cfunction.Prelude.{
  ltb, leb, if◌then◌else◌, ℕ, zero, suc, ◌+◌, ◌-◌, ◌%◌, ◌≤◌, ◌<◌, ◌≡◌, refl, sym, ◌∙◌, false, List,
  [], ◌∷◌, ◌++◌, arith,
}
use cfunction.Ppp.{
  only_stop, only_start, only_online, start_timeout, ping_count, Pc, forking, waiting, cleared,
  testing_online, resting, Ppp, Event, succeeds, fails, child, step, run,
}

run-append : (s : Ppp) (xs ys : List Event) → run s (xs ++ ys) ≡ run (run s xs) ys
run-append s [] ys = refl
run-append s (x ∷ xs) ys = run-append (step s x) xs ys

-- A round of the loop whose ping fails, from the test for ONLINE to that test.
abbrev lost_round : List Event
lost_round = succeeds ∷ fails ∷ succeeds ∷ succeeds ∷ succeeds ∷ []

abbrev pub lost_rounds : ℕ → List Event
lost_rounds zero = []
lost_rounds (suc n) = lost_round ++ lost_rounds n

abbrev pub online : (link errors : ℕ) → Ppp
online link errors = record {
  status = only_online;
  link_num = link;
  error_num = errors;
  pc = testing_online;
}

run-lost_round :
    (link errors : ℕ) → errors < 5 → run (online link errors) lost_round ≡ online link (errors + 1)
run-lost_round link errors h =
    let e : ltb ping_count (errors + 1) ≡ false = ground arith in rw e refl

run-lost_rounds :
    (link errors n : ℕ)
    → errors + n ≤ 5
    → run (online link errors) (lost_rounds n) ≡ online link (errors + n)
run-lost_rounds link errors zero h = let e : errors + 0 ≡ errors = omega arith in rw e refl
run-lost_rounds link errors (suc n) h =
    let next : errors + suc n ≡ errors + 1 + n = omega arith in
    run-append (online link errors) lost_round (lost_rounds n)
    ∙ rw (run-lost_round link errors (omega arith), next)
        (run-lost_rounds link (errors + 1) n (omega arith))

-- While the loop is online and no child ends: whatever number of errors up to five it has counted,
-- it stays online through as many rounds with a failed ping as leave the count at five at most, and
-- the ping that fails after these sets STOP and clears the count.
pub run-pings_fail :
    (link errors n : ℕ)
    → errors + n ≡ 5
    → (run (online link errors) (lost_rounds n) ≡ online link 5)
      × (run (online link errors) (lost_rounds n ++ (succeeds ∷ fails ∷ succeeds ∷ []))
          ≡ record { status = only_stop; link_num = link; error_num = 0; pc = resting })
run-pings_fail link errors n h =
    let held : run (online link errors) (lost_rounds n) ≡ online link 5 =
      run-lost_rounds link errors n (omega arith) ∙ rw h refl in
    (
      held,
      run-append (online link errors) (lost_rounds n) (succeeds ∷ fails ∷ succeeds ∷ [])
          ∙ rw held refl,
    )

-- Seconds without a link file
abbrev pub absent : ℕ → List Event
absent zero = []
absent (suc n) = fails ∷ succeeds ∷ absent n

abbrev pub starting : (link errors : ℕ) → Pc → Ppp
starting link errors pc = record {
  status = only_start;
  link_num = link;
  error_num = errors;
  pc = pc;
}

run-absent :
    (link errors n t : ℕ)
    → run (starting link errors (waiting (n + t))) (absent n) ≡ starting link errors (waiting t)
run-absent link errors zero t = let e : 0 + t ≡ t = omega arith in rw e refl
run-absent link errors (suc n) t =
    let e : suc n + t ≡ suc (n + t) = omega arith in rw e (run-absent link errors n t)

link_number :
    (link : ℕ) → link < 10000 → (if leb 10000 (link + 1) then 0 else link + 1) ≡ (link + 1) % 10000
link_number link h = ground arith

-- After the fork, while no child ends: when the link file appears after n seconds, fewer than
-- PPP_START_TIMEOUT, the loop goes online, with the number of the link counted on, and back to 0 from
-- 9999; when it has not appeared after PPP_START_TIMEOUT seconds, STOP is set.
pub run-pppd_start :
    (link errors n : ℕ)
    → n < start_timeout
    → link < 10000
    → (run (starting link errors forking) (
          succeeds
          ∷ (absent n ++ (succeeds ∷ succeeds ∷ succeeds ∷ succeeds ∷ succeeds ∷ succeeds ∷ [])))
        ≡ online ((link + 1) % 10000) errors)
      × (run
            (starting link errors forking)
            (succeeds ∷ (absent start_timeout ++ (fails ∷ succeeds ∷ [])))
          ≡ record { status = only_stop; link_num = link; error_num = errors; pc = testing_online })
run-pppd_start link errors n h low =
    let m = 119 - n in
    let split : start_timeout ≡ n + suc m = omega (arith, h) in
    let rest = succeeds ∷ succeeds ∷ succeeds ∷ succeeds ∷ succeeds ∷ succeeds ∷ [] in
    let waited : run (starting link errors (waiting start_timeout)) (absent n)
        ≡ starting link errors (waiting (suc m)) =
      subst
        (λ t.
          run (starting link errors (waiting t)) (absent n)
          ≡ starting link errors (waiting (suc m)))
        (sym split) (run-absent link errors n (suc m)) in
    (
      run-append (starting link errors (waiting start_timeout)) (absent n) rest
          ∙ rw (waited, link_number link low) refl,
      refl,
    )

-- pppd_status is loaded and stored in two accesses. When the child ends between them, while the loop
-- clears START, its STOP is overwritten: the loop goes online although pppd is not there.
pub run-lost_stop :
    (s : Ppp)
    → s.pc ≡ cleared only_start
    → (step s child).status ≡ only_stop
      × (run s (child ∷ succeeds ∷ succeeds ∷ succeeds ∷ []) ≡ online s.link_num s.error_num)
run-lost_stop s h = (refl, rw h refl)
