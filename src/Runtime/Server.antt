-- ===== src/Runtime/Server.antt =====
-- internal/runtime/daemon/src/server/: the state of the runtime daemon and the operations that its
-- handlers share, over the table of lifecycles (internal/runtime/store/src/postgres/lifecycle.rs).
-- An operation runs without interleaving. What the environment answers to the n-th question that
-- the daemon asks (a database call, a probe, a clock) is a function of n in `Env`; `clock` counts
-- the questions.
pub mod Termination
pub mod Spawn
pub mod Reconcile
pub mod Ops
pub mod Rows
pub mod Once
pub mod Stable
pub mod Conflict
mod Tests
use littleorgans.Base.{
  ℕ, ◌+◌, ◌≡◌, Bool, true, false, not, ◌&&◌, Option, none, some, List, [], ◌∷◌, ◌++◌, ◌==◌,
  if◌then◌else◌, contains, insert, erase, lookup, keep,
}
use littleorgans.Base.Exec.{Result, ok, err}
use littleorgans.Base.Action.{Action, pure, raise, lift, gets, modify, unless, ◌>>=◌, ◌>>◌}
use littleorgans.Runtime.Lifecycle.{
  Lifecycle, LifecycleState, RuntimeEvent, TmuxAddress, TerminationEvidence, LostEvidence,
  LogAvailability, is_forking, shim_exit, process_exit, headless, tmux_pane_snapshot, unavailable,
  pane_unavailable,
}
use littleorgans.Runtime.Failure.{Failure, store, missing_pid, missing_start_time, probe, clock}
use littleorgans.Runtime.EventLog.{EventLog, EventLogEntry, AppendIo, append}

-- `ProcessStartTime`, or the error of the probe.
pub data StartTime : Type 0 where
  known : ℕ → StartTime
  gone unsupported probe_failed : StartTime

pub record Env : Type 0 where
  pub db_ok : ℕ → Bool
  pub append_io : ℕ → AppendIo
  pub timestamp_ms : ℕ → Option ℕ
  pub pid_alive : ℕ → ℕ → Bool
  pub start_time_for_pid : ℕ → ℕ → StartTime
  -- `none`: the probe failed.
  pub tmux_alive : ℕ → TmuxAddress → Option Bool
  pub docker_running : ℕ → ℕ → Option Bool
  pub watch_ok : ℕ → Bool
  pub receiver_waits : ℕ → Bool
  pub log_paths : ℕ → LogAvailability
  pub encode : EventLogEntry → List ℕ

-- A launch spec is an opaque number.
pub record ServerState : Type 0 where
  pub lifecycles : List Lifecycle
  pub log : EventLog
  pub terminated_events : List ℕ
  pub exit_watchers : List ℕ
  pub pending_launches : List (ℕ × ℕ)
  pub pending_ready : List ℕ
  pub shim_pids : List (ℕ × ℕ)
  pub last_probe_sweep : Option ℕ
  pub clock : ℕ

abbrev pub Handler : Type 0 → Type 0
Handler A = Action Failure ServerState A

unfoldable pub ask : {A : Type 0} → (ℕ → A) → Handler A
ask f s = (ok (f s.clock), record s { clock = s.clock + 1 })

-- The table of lifecycles, one row for a session id, in the order of the inserts.
unfoldable pub find_row : ℕ → List Lifecycle → Option Lifecycle
find_row i [] = none
find_row i (l ∷ ls) = if l.session_id == i then some l else find_row i ls

-- `log_availability` is not a column.
abbrev pub row_of : Lifecycle → Lifecycle
row_of l = record l { log_availability = none }

unfoldable pub set_row : Lifecycle → List Lifecycle → List Lifecycle
set_row l [] = []
set_row l (m ∷ ms) =
    if m.session_id == l.session_id then row_of l ∷ set_row l ms else m ∷ set_row l ms

unfoldable pub drop_row : ℕ → List Lifecycle → List Lifecycle
drop_row i [] = []
drop_row i (m ∷ ms) = if m.session_id == i then drop_row i ms else m ∷ drop_row i ms

abbrev pub is_running : LifecycleState → Bool
is_running LifecycleState.running = true
is_running _ = false

abbrev pub has_row : Option Lifecycle → Bool
has_row none = false
has_row (some _) = true

module _ (env : Env) where
  -- One call of the database.
  unfoldable pub query : Handler (Unit {0})
  query s = ((if env.db_ok s.clock then ok tt else err store), record s { clock = s.clock + 1 })

  unfoldable pub store_get : ℕ → Handler (Option Lifecycle)
  store_get i = do query; gets (λ s. find_row i s.lifecycles)

  -- An insert violates the primary key where the row is there.
  unfoldable pub store_insert_forking : Lifecycle → Handler (Unit {0})
  store_insert_forking l = do
    unless (is_forking l.state) store
    query
    rows ← gets (λ s. s.lifecycles)
    unless (not (has_row (find_row l.session_id rows))) store
    modify (λ s. record s { lifecycles = s.lifecycles ++ row_of l ∷ [] })

  -- An update of no row is an error.
  unfoldable pub store_update_lifecycle : Lifecycle → Handler (Unit {0})
  store_update_lifecycle l = do
    query
    rows ← gets (λ s. s.lifecycles)
    unless (has_row (find_row l.session_id rows)) store
    modify (λ s. record s { lifecycles = set_row l s.lifecycles })

  unfoldable pub store_delete : ℕ → Handler (Unit {0})
  store_delete i = do query; modify (λ s. record s { lifecycles = drop_row i s.lifecycles })

  unfoldable pub store_running : Handler (List Lifecycle)
  store_running = do query; gets (λ s. keep (λ l. is_running l.state) s.lifecycles)

  unfoldable pub record_probe_sweep : Handler (Unit {0})
  record_probe_sweep = do query; modify (λ s. record s { last_probe_sweep = some s.clock })

  -- `append_event`: an append to the event log, with the log's own failures.
  unfoldable pub append_event : RuntimeEvent → Handler RuntimeEvent
  append_event event s =
      let (r, log) =
        append env.encode (env.append_io s.clock) (env.timestamp_ms s.clock) event s.log in
      (r, record s { log = log; clock = s.clock + 1 })

  -- `start_exit_watcher`: at most one watcher for a session.
  unfoldable pub start_exit_watcher : ℕ → Handler (Unit {0})
  start_exit_watcher i s =
      if contains i s.exit_watchers
      then (ok tt, s)
      else if env.watch_ok s.clock
      then (ok tt, record s { exit_watchers = i ∷ s.exit_watchers; clock = s.clock + 1 })
      else (err probe, record s { clock = s.clock + 1 })

  abbrev available : Option Bool → LogAvailability
  available (some true) = tmux_pane_snapshot
  available (some false) = unavailable pane_unavailable
  available none = unavailable pane_unavailable

  -- `populate_log_availability`.
  abbrev pub availability : Option TmuxAddress → ℕ → ℕ → LogAvailability
  availability none i n = env.log_paths i
  availability (some address) i n = available (env.tmux_alive n address)

without : ℕ → List ℕ → List ℕ
without i [] = []
without i (j ∷ js) = if j == i then without i js else j ∷ without i js

unfoldable pub remove_watcher : ℕ → Handler (Unit {0})
unfolding without
remove_watcher i = modify (λ s. record s { exit_watchers = without i s.exit_watchers })

unfoldable pub take_ready : ℕ → Handler Bool
unfolding without
take_ready i s =
    (ok (contains i s.pending_ready), record s { pending_ready = without i s.pending_ready })

unfoldable pub track_shim : ℕ → ℕ → Handler (Unit {0})
track_shim i pid = modify (λ s. record s { shim_pids = insert i pid s.shim_pids })

unfoldable pub forget_shim : ℕ → ServerState → ServerState
forget_shim i s = record s { shim_pids = erase i s.shim_pids }

-- event_channel.rs
unfoldable pub running_event : Lifecycle → Result Failure RuntimeEvent
running_event l = elim l.runtime_pid [
  | none ↦ err missing_pid
  | some pid ↦ elim l.start_time [
    | none ↦ err missing_start_time
    | some t ↦ ok (RuntimeEvent.running l.session_id pid t)
  ]
]

unfoldable pub terminated_event : Lifecycle → TerminationEvidence → RuntimeEvent
terminated_event l evidence = elim l.state [
  | LifecycleState.exited exit ↦ RuntimeEvent.terminated l.session_id exit.code exit.signal evidence
  | _ ↦ RuntimeEvent.terminated l.session_id none none evidence
]

unfoldable pub lost_event : Lifecycle → LostEvidence → RuntimeEvent
lost_event l evidence = RuntimeEvent.lost l.session_id evidence
