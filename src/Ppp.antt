-- ===== src/Ppp.antt =====
-- LTE/ppp_call1/ppp_call.c: the main loop that keeps pppd running, interrupted by the handler of
-- SIGCHLD. A step is one call, one access of the volatile pppd_status, or the handler, which may run
-- between any two. What the system does is the event of the step.
mod Invariant
mod Watch
mod Tests
use cfunction.Prelude.{
  ltb, leb, ◌==◌, if◌then◌else◌, ltb→lt, lt→ltb, ==_iff, ==_refl, ==_ne, Bool-cases, Option-cases,
  codes, length, get_elem?, get_or, set, take, drop, replicate, length-append, length-replicate,
  length-set, get_elem?-append, drop-append, take-append, set-append, get_elem?-eq-get_or,
  get_or-set_self, get_or-set_ne, All, All-append, same, holds_below, holds_at, ℤ, pos, negsuc,
  pos_part, to_size, int_max, eq_int, sub_ℕ, ◌>>=◌, Holds, Holds-bind, Holds-if, Holds-then, always,
  text, begins, strstr, ℕ, zero, suc, ◌+◌, ◌-◌, ◌*◌, ◌/◌, ◌%◌, ◌^◌, ◌≤◌, ◌<◌, ◌≡◌, refl, sym, ap,
  ap₂, ◌∙◌, ◌≢◌, ◌↔◌, ◌⊎◌, inl, inr, Bool, true, false, not, ◌&&◌, ◌||◌, Option, none, some, List,
  [], ◌∷◌, ◌++◌, map, append_assoc, append-nil, arith,
}

-- `pppd_status`, as its three bits
pub record Flags : Type 0 where
  pub stop : Bool
  pub start : Bool
  pub online : Bool

abbrev pub only_stop : Flags
only_stop = record { stop = true; start = false; online = false }

abbrev pub only_start : Flags
only_start = record { stop = false; start = true; online = false }

abbrev pub only_online : Flags
only_online = record { stop = false; start = false; online = true }

-- `PPP_START_TIMEOUT`
abbrev pub start_timeout : ℕ
start_timeout = 120

-- `PING_COUNT`
abbrev pub ping_count : ℕ
ping_count = 5

-- Where the main loop stands.
pub data Pc : Type 0 where
  testing_stop : Pc
  stopping : Pc  -- pppd_stop
  restarting : Pc  -- pppd_status = PPPD_STATUS_START
  resetting : Pc  -- sleep and reset_module
  testing_start : Pc
  forking : Pc  -- pppd_start, up to pppd_exec
  waiting : (timeout : ℕ) → Pc  -- the head of its loop
  sleeping : (timeout : ℕ) → Pc  -- its sleep, before the test of pppd_status
  linked : Pc  -- behind its loop, with a link file
  failed : Pc  -- it has returned -1: before pppd_status = PPPD_STATUS_STOP
  clearing : Pc  -- it has returned 0: before the load of pppd_status &= ~PPPD_STATUS_START
  cleared : (loaded : Flags) → Pc  -- before the store
  setting : Pc  -- before the load of pppd_status |= PPPD_STATUS_ONLINE
  set_ready : (loaded : Flags) → Pc  -- before the store
  testing_online : Pc
  pinging : Pc
  dropping : Pc  -- more than PING_COUNT errors
  resting : Pc  -- sleep(2)

pub record Ppp : Type 0 where
  pub status : Flags
  pub link_num : ℕ
  pub error_num : ℕ
  pub pc : Pc

-- `main`, in front of its loop
abbrev pub main_start : Ppp
main_start = record { status = only_start; link_num = 0; error_num = 0; pc = testing_stop }

-- What happens: the next step of the loop, with its call succeeding or failing where it has one, or
-- the handler, once it has found a child that ended.
pub data Event : Type 0 where
  succeeds : Event
  fails : Event
  child : Event

abbrev test_stop : Ppp → Ppp
test_stop s = if s.status.stop then record s { pc = stopping } else record s { pc = testing_start }

abbrev test_start : Ppp → Ppp
test_start s =
    if s.status.start then record s { pc = forking } else record s { pc = testing_online }

-- `while (timeout > 0)`: the file is there, or is waited for.
abbrev wait_link : Ppp → ℕ → Bool → Ppp
wait_link s zero found = record s { pc = failed }
wait_link s (suc timeout) true = record s { pc = linked }
wait_link s (suc timeout) false = record s { pc = sleeping timeout }

abbrev after_sleep : Ppp → ℕ → Ppp
after_sleep s timeout =
    if s.status.stop then record s { pc = failed } else record s { pc = waiting timeout }

-- `++pppd_link_num`, and whether the file can be opened
abbrev count_link : Ppp → Bool → Ppp
count_link s opened =
    let link_num = if leb 10000 (s.link_num + 1) then 0 else s.link_num + 1 in
    let next = if opened then clearing else failed in record s { link_num = link_num; pc = next }

abbrev test_online : Ppp → Ppp
test_online s =
    if not s.status.stop && (not s.status.start && s.status.online)
    then record s { pc = pinging }
    else record s { pc = resting }

abbrev after_ping : Ppp → Bool → Ppp
after_ping s true = record s { error_num = 0; pc = resting }
after_ping s false =
    let next = if ltb ping_count (s.error_num + 1) then dropping else resting in
    record s { error_num = s.error_num + 1; pc = next }

-- One step of the loop, where `ok` is the outcome of the call that it makes, if any.
abbrev pub loop_step : Ppp → Pc → Bool → Ppp
loop_step s testing_stop ok = test_stop s
loop_step s stopping ok = record s { pc = restarting }
loop_step s restarting ok = record s { status = only_start; pc = resetting }
loop_step s resetting ok = record s { pc = testing_start }
loop_step s testing_start ok = test_start s
loop_step s forking ok = record s { pc = if ok then waiting start_timeout else failed }
loop_step s (waiting timeout) ok = wait_link s timeout ok
loop_step s (sleeping timeout) ok = after_sleep s timeout
loop_step s linked ok = count_link s ok
loop_step s failed ok = record s { status = only_stop; pc = testing_online }
loop_step s clearing ok = record s { pc = cleared s.status }
loop_step s (cleared loaded) ok = record s {
  status = record loaded { start = false };
  pc = setting;
}
loop_step s setting ok = record s { pc = set_ready s.status }
loop_step s (set_ready loaded) ok = record s {
  status = record loaded { online = true };
  pc = testing_online;
}
loop_step s testing_online ok = test_online s
loop_step s pinging ok = after_ping s ok
loop_step s dropping ok = record s { status = only_stop; error_num = 0; pc = resting }
loop_step s resting ok = record s { pc = testing_stop }

-- A step of the program.
abbrev pub step : Ppp → Event → Ppp
step s succeeds = loop_step s s.pc true
step s fails = loop_step s s.pc false
step s child = record s { status = only_stop }

-- A run of the program.
abbrev pub run : Ppp → List Event → Ppp
run s [] = s
run s (event ∷ events) = run (step s event) events
