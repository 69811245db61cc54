-- ===== src/Runtime/Lifecycle/Tests.antt =====
-- Instances of the lifecycle theorems.
use littleorgans.Base.{◌+◌, ◌≤◌, ◌≡◌, List, [], ◌∷◌, none, some}
use littleorgans.Base.Int.{pos}
use littleorgans.Runtime.Lifecycle.{
  Lifecycle, ShimReady, claude, new_forking, pid_not_alive, shim_died_before_report, mark_lost,
}
use littleorgans.Runtime.Lifecycle.History.{
  Mark, mark_run, mark_exit, mark_loss, run, ends_left, starts_left, run_reports,
}

abbrev ready : ShimReady
ready = record {
  session_id = 7;
  shim_pid = 41;
  runtime_pid = 42;
  start_time = 1_000;
  tmux_pane = none;
}

abbrev life : List Mark
life =
    mark_run ready
    ∷ mark_run ready
    ∷ mark_exit (record { code = some (pos 0); signal = none })
    ∷ mark_loss pid_not_alive
    ∷ []

abbrev gone : Lifecycle
gone = (mark_lost (new_forking 7 claude) shim_died_before_report).0

run_reports_example :
    ((run (new_forking 7 claude) life).1 + ends_left (run (new_forking 7 claude) life).0.state
      ≡ ends_left (new_forking 7 claude).state)
    × ((run (new_forking 7 claude) life).2 + starts_left (run (new_forking 7 claude) life).0.state
        ≤ starts_left (new_forking 7 claude).state)
run_reports_example = run_reports (new_forking 7 claude) life
