-- ===== src/Runtime/Server/Reconcile.antt =====
-- reconcile.rs and the pid check of runtime_kill.rs: how the daemon finds out that a runtime is
-- gone.
pub mod Deadline
use littleorgans.Base.{
  ℕ, suc, zero, ◌+◌, ◌-◌, ◌≤◌, ◌<◌, Bool, true, false, not, Option, none, some, List, [], ◌∷◌, ◌++◌,
  ◌==◌, if◌then◌else◌, ltb, leb,
}
use littleorgans.Base.Exec.{Result, ok, err}
use littleorgans.Base.Action.{pure, raise, lift, gets, modify, unless, ◌>>=◌, ◌>>◌}
use littleorgans.Runtime.Lifecycle.{
  Lifecycle, LifecycleState, RuntimeEvent, IsolationPolicy, LostEvidence, pid_not_alive,
  pid_reuse_detected,
}
use littleorgans.Runtime.Failure.{Failure, session_not_found, missing_pid, probe}
use littleorgans.Runtime.Server.{
  Env, ServerState, Handler, StartTime, known, gone, unsupported, probe_failed, ask, store_running,
  record_probe_sweep, start_exit_watcher,
}
use littleorgans.Runtime.Server.Termination.{record_lost}

abbrev pub evidence_if : Bool → LostEvidence → Option LostEvidence
evidence_if true e = some e
evidence_if false e = none

module _ (env : Env) where
  -- Where the start time cannot be read, the pid is probed once more.
  abbrev pub judge : ℕ → ℕ → StartTime → Handler (Option LostEvidence)
  judge pid stored (known current) =
      pure (if current == stored then none else some pid_reuse_detected)
  judge pid stored gone = pure (some pid_not_alive)
  judge pid stored unsupported = do
    alive ← ask (λ n. env.pid_alive n pid)
    pure (evidence_if (not alive) pid_not_alive)
  judge pid stored probe_failed = do
    alive ← ask (λ n. env.pid_alive n pid)
    if alive then raise probe else pure (some pid_not_alive)

  abbrev pub judge_stored : ℕ → Option ℕ → Handler (Option LostEvidence)
  judge_stored pid none = pure none
  judge_stored pid (some stored) = do
    current ← ask (λ n. env.start_time_for_pid n pid)
    judge pid stored current

  unfoldable pub host_process_lost_evidence : ℕ → Option ℕ → Handler (Option LostEvidence)
  host_process_lost_evidence pid stored = do
    alive ← ask (λ n. env.pid_alive n pid)
    if alive then judge_stored pid stored else pure (some pid_not_alive)

  abbrev pub pid_or_fail : Option ℕ → Handler ℕ
  pid_or_fail none = raise missing_pid
  pid_or_fail (some pid) = pure pid

  abbrev pub docker_judge : Option Bool → Handler (Option LostEvidence)
  docker_judge none = raise probe
  docker_judge (some running) = pure (evidence_if (not running) pid_not_alive)

  abbrev pub evidence_in : Lifecycle → IsolationPolicy → Handler (Option LostEvidence)
  evidence_in l IsolationPolicy.host = do
    pid ← pid_or_fail l.runtime_pid
    host_process_lost_evidence pid l.start_time
  evidence_in l (IsolationPolicy.docker _) = do
    running ← ask (λ n. env.docker_running n l.session_id)
    docker_judge running

  unfoldable pub lost_evidence : Lifecycle → Handler (Option LostEvidence)
  lost_evidence l = evidence_in l l.isolation

  abbrev pub cons_some : Option RuntimeEvent → List RuntimeEvent → List RuntimeEvent
  cons_some none es = es
  cons_some (some e) es = e ∷ es

  -- One round of the loop: what it adds to the events.
  unfoldable pub reconcile_row : Lifecycle → Option LostEvidence → Handler (Option RuntimeEvent)
  reconcile_row l (some evidence) = record_lost env l.session_id evidence
  reconcile_row l none = do
    pid ← pid_or_fail l.runtime_pid
    start_exit_watcher env l.session_id
    pure none

  unfoldable pub reconcile_rows : List Lifecycle → Handler (List RuntimeEvent)
  reconcile_rows [] = pure []
  reconcile_rows (l ∷ ls) = do
    evidence ← lost_evidence l
    event ← reconcile_row l evidence
    rest ← reconcile_rows ls
    pure (cons_some event rest)

  unfoldable pub reconcile_once : Handler (List RuntimeEvent)
  reconcile_once = do
    rows ← store_running env
    events ← reconcile_rows rows
    record_probe_sweep env
    pure events

-- The next sweep of `run_periodic`: the deadline moves on by whole intervals, past `now`. The fuel
-- is the distance to `now`, which suffices where the interval is positive.
advance_loop : ℕ → ℕ → ℕ → ℕ → ℕ
advance_loop zero deadline interval now = deadline
advance_loop (suc fuel) deadline interval now =
    let next = advance_loop fuel (deadline + interval) interval now in
    if leb deadline now then next else deadline

unfoldable pub advance_deadline : ℕ → ℕ → ℕ → ℕ
unfolding advance_loop
advance_deadline deadline interval now =
    advance_loop (suc now - (deadline + interval)) (deadline + interval) interval now
