-- ===== src/Runtime/Kill/Tests.antt =====
-- Instances of the theorems on the kill loop.
use littleorgans.Base.{◌≢◌, suc, ◌+◌, ◌*◌, true, false, some, []}
use littleorgans.Base.Exec.{ok}
use littleorgans.Runtime.Kill.{World, KillState, delivered, out_of_fuel, run_kill_loop, wait, term}
use littleorgans.Runtime.Kill.Signals.{Sent, run_kill_loop-Sent, wait_ends}

-- A process that ignores the signal.
abbrev stubborn : World
stubborn = record {
  deliver = λ n. delivered;
  alive = λ n. some true;
  terminal = λ n. false;
  takes_ms = λ n. 600;
}

abbrev start : KillState
start = record { clock = 0; now_ms = 0; sent = [] }

run_kill_loop-Sent_example : Sent term 1 start (run_kill_loop stubborn term 1 start).1
run_kill_loop-Sent_example = run_kill_loop-Sent stubborn term 1 start

wait_ends_example : (wait stubborn (suc (1 * 1_000)) (0 + 1 * 1_000) start).0 ≢ ok out_of_fuel
wait_ends_example = wait_ends stubborn 1 start
