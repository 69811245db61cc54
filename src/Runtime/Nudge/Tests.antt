-- ===== src/Runtime/Nudge/Tests.antt =====
-- Runs of the nudge at concrete panes.
use littleorgans.Base.{
  ℕ, ◌≡◌, refl, Bool, true, false, Option, none, some, List, [], ◌∷◌, arith, leb,
}
use littleorgans.Base.Exec.{ok}
use littleorgans.Base.Action.{◌>>=◌}
use littleorgans.Runtime.Nudge.{
  Pane, NudgeState, Keys, execute_nudge, wait_for_idle, wait_timing, wait_timing_default, wait,
  immediate, delivered, agent_busy_timeout, payload, submit, cancel,
}
use littleorgans.Runtime.Nudge.Delivery.{Report, execute_nudge-Report}
use littleorgans.Runtime.Nudge.Idle.{Waited, wait_for_idle-Waited}
use littleorgans.Runtime.Nudge.Timing.{Spaced, wait_timing-Spaced}

-- A captured pane is one number, which is the count of the calls before.
abbrev counted : ℕ → Option (List ℕ)
counted n = some (n ∷ [])

abbrev responsive : Pane
responsive = record {
  alive = λ n. some true;
  in_mode = λ n. some true;
  captured = counted;
  accepts = λ n. true;
  takes_ns = λ n. 10;
}

abbrev initial : NudgeState
initial = record { clock = 0; now_ns = 0; sent = [] }

-- Idle until the first resend, and busy after it.
abbrev busy_from : ℕ → List ℕ → Bool
busy_from n [] = false
busy_from n (m ∷ _) = leb n m

abbrev resend : List Keys
resend = submit ∷ payload ∷ cancel ∷ cancel ∷ []

nudge_resends : (execute_nudge (busy_from 12) responsive immediate none initial).0 ≡ ok delivered
unfolding execute_nudge ◌>>=◌
nudge_resends = refl

nudge_sent : (execute_nudge (busy_from 12) responsive immediate none initial).1.sent ≡ resend
unfolding execute_nudge ◌>>=◌
nudge_sent = refl

nudge_times_out :
    (execute_nudge (busy_from 0) responsive wait (some 3_000) initial).0 ≡ ok agent_busy_timeout
unfolding execute_nudge ◌>>=◌ wait_timing
nudge_times_out = refl

execute_nudge-Report_example :
    Report 0 0
      (execute_nudge (busy_from 12) responsive immediate none initial).0
      (execute_nudge (busy_from 12) responsive immediate none initial).1
execute_nudge-Report_example = execute_nudge-Report (busy_from 12) responsive immediate none initial

wait_for_idle-Waited_example :
    Waited 120_000_000_000
      (wait_for_idle (busy_from 0) responsive wait_timing_default initial).0
      (wait_for_idle (busy_from 0) responsive wait_timing_default initial).1
wait_for_idle-Waited_example =
    wait_for_idle-Waited (busy_from 0) responsive wait_timing_default (omega arith) initial

wait_timing-Spaced_example : Spaced (wait_timing (some 1))
wait_timing-Spaced_example = wait_timing-Spaced (some 1)
