-- ===== src/Runtime/Kill/Host.antt =====
-- `kill_runtime_with_probe` of runtime_kill.rs: the guard of a host process, which compares its start
-- time with the stored one, and the loop of signals.
pub mod Guarded
use littleorgans.Base.{ℕ, Bool, true, false, Option, none, some}
use littleorgans.Base.Exec.{Result, ok, err}
use littleorgans.Base.Action.{pure, raise, ◌>>=◌, ◌>>◌}
use littleorgans.Runtime.Lifecycle.{IsolationPolicy, LostEvidence, pid_reuse_detected}
use littleorgans.Runtime.Failure.{Failure, session_not_found}
use littleorgans.Runtime.Server.{Env, ServerState, Handler, store_get}
use littleorgans.Runtime.Server.Termination.{get_or_fail, record_lost}
use littleorgans.Runtime.Server.Reconcile.{host_process_lost_evidence}
use littleorgans.Runtime.Kill.{
  World, KillState, RuntimeSignal, KillOutcome, already_exited, run_kill_loop,
}

module _ (env : Env) (i : ℕ) where
  abbrev pub pid_or_not_found : Option ℕ → Handler ℕ
  pid_or_not_found none = raise (session_not_found i)
  pid_or_not_found (some pid) = pure pid

  -- Whether the target is to be signalled.
  unfoldable pub unless_reused : Option LostEvidence → Handler Bool
  unless_reused (some pid_reuse_detected) = do record_lost env i pid_reuse_detected; pure false
  unless_reused _ = pure true

  abbrev pub guard_in : IsolationPolicy → Option ℕ → Option ℕ → Handler Bool
  guard_in IsolationPolicy.host pid start_time = do
    runtime_pid ← pid_or_not_found pid
    evidence ← host_process_lost_evidence env runtime_pid start_time
    unless_reused evidence
  guard_in (IsolationPolicy.docker _) pid start_time = pure true

  unfoldable pub kill_guard : Handler Bool
  unfolding unless_reused
  kill_guard = do
    found ← store_get env i
    l ← get_or_fail i found
    guard_in l.isolation l.runtime_pid l.start_time

-- The guard runs on the daemon's state, the loop on the target.
abbrev pub run_if :
    World
    → RuntimeSignal
    → ℕ
    → KillState
    → Result Failure Bool × ServerState
    → Result Failure KillOutcome × ServerState × KillState
run_if world which grace_secs k (ok true, s) =
    let (answer, k') = run_kill_loop world which grace_secs k in (answer, s, k')
run_if world which grace_secs k (ok false, s) = (ok already_exited, s, k)
run_if world which grace_secs k (err e, s) = (err e, s, k)

unfoldable pub kill_runtime :
    Env
    → World
    → ℕ
    → RuntimeSignal
    → ℕ
    → ServerState
    → KillState
    → Result Failure KillOutcome × ServerState × KillState
unfolding kill_guard
kill_runtime env world i which grace_secs s k = run_if world which grace_secs k (kill_guard env i s)
