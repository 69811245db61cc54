-- ===== src/Runtime/Server/Tests.antt =====
-- Instances of the daemon's theorems.
use littleorgans.Base.{ℕ, ◌≡◌, refl, true, false, none, some, List, [], ◌∷◌, arith}
use littleorgans.Base.Int.{pos}
use littleorgans.Base.Exec.{err}
use littleorgans.Runtime.Failure.{protocol_mismatch}
use littleorgans.Runtime.Lifecycle.{
  Lifecycle, LifecycleState, RuntimeKind, IsolationPolicy, pid_not_alive, headless,
}
use littleorgans.Runtime.EventLog.{EventLog, AppendIo}
use littleorgans.Runtime.Server.{Env, ServerState, gone, known, find_row}
use littleorgans.Runtime.Server.Ops.{
  Op, begin, cancel, shim_exited, watched_exit, lost, reconcile, serve,
}
use littleorgans.Runtime.Server.Spawn.{SpawnRequest, begin_spawn}
use littleorgans.Runtime.Server.Conflict.{IsCancelled, begin_spawn-IsCancelled}
use littleorgans.Runtime.Server.Reconcile.{advance_deadline}
use littleorgans.Runtime.Server.Reconcile.Deadline.{IsNext, advance_deadline-IsNext}
use littleorgans.Runtime.EventLog.Counts.{count}
use littleorgans.Runtime.Kill.{World, KillState, delivered, term}
use littleorgans.Runtime.Kill.Host.{kill_runtime}
use littleorgans.Runtime.Kill.Host.Guarded.{Guarded, kill_runtime-Guarded}
use littleorgans.Runtime.Server.Once.{AtMostOnce}
use littleorgans.Runtime.Server.Once.Serve.{serve-AtMostOnce}
use littleorgans.Runtime.Server.Stable.{HasRow}
use littleorgans.Runtime.Server.Stable.Serve.{serve-HasRow}

abbrev io : AppendIo
io = record {
  record_cut = none;
  newline_ok = true;
  sync_elapsed_ms = 0;
  sync_ok = true;
  synced_at = 0;
  now_ms = some 5;
  create_ok = true;
  copy_ok = true;
  rename_ok = true;
  reopen_ok = true;
  compacted_at = 0;
}

-- The database answers and no process is alive.
abbrev env : Env
env = record {
  db_ok = λ n. true;
  append_io = λ n. io;
  timestamp_ms = λ n. some 5;
  pid_alive = λ n pid. false;
  start_time_for_pid = λ n pid. gone;
  tmux_alive = λ n address. some false;
  docker_running = λ n i. some false;
  watch_ok = λ n. true;
  receiver_waits = λ n. true;
  log_paths = λ i. headless "out" "err";
  encode = λ entry. entry.seq ∷ [];
}

abbrev row : ℕ → LifecycleState → Lifecycle
row i state = record {
  session_id = i;
  runtime = RuntimeKind.claude;
  isolation = IsolationPolicy.host;
  state = state;
  shim_pid = some 40;
  runtime_pid = some 41;
  start_time = some 1_000;
  tmux_pane = none;
  log_availability = none;
}

abbrev ended : Lifecycle
ended = row 7 (LifecycleState.lost pid_not_alive)

abbrev log : EventLog
log = record {
  disk = [];
  linked = true;
  events = [];
  seen_event_keys = [];
  next_seq = 1;
  events_since_sync = 0;
  last_sync = 0;
}

abbrev state : List Lifecycle → List ℕ → ServerState
state rows ready = record {
  lifecycles = rows;
  log = log;
  terminated_events = [];
  exit_watchers = [];
  pending_launches = [];
  pending_ready = ready;
  shim_pids = [];
  last_probe_sweep = none;
  clock = 0;
}

abbrev request : ℕ → SpawnRequest
request i = record {
  session_id = i;
  runtime = RuntimeKind.claude;
  isolation = IsolationPolicy.host;
  target = none;
}

-- Session 7 has ended and session 8 runs.
abbrev two_rows : ServerState
two_rows = state (ended ∷ row 8 LifecycleState.running ∷ []) []

abbrev ops : List Op
ops =
    begin (request 7) 1
    ∷ shim_exited 7 (record { code = some (pos 0); signal = none })
    ∷ cancel 8
    ∷ reconcile
    ∷ watched_exit 7
    ∷ []

serve-HasRow_example : HasRow 7 ended (serve env ops two_rows)
unfolding HasRow find_row
serve-HasRow_example =
    serve-HasRow env 7 ended ops two_rows refl (tt, (tt, (ground arith, (tt, (tt, tt))))) refl

advance_deadline-IsNext_example : IsNext 20 10 45 (advance_deadline 10 10 45)
advance_deadline-IsNext_example = advance_deadline-IsNext 10 10 45 (ground arith)

-- Session 9 waits for its shim.
abbrev waiting : ServerState
waiting = state (row 9 LifecycleState.forking ∷ []) (9 ∷ [])

begin_spawn-IsCancelled_example :
    ((begin_spawn env (request 9) 2 waiting).0 ≡ err (protocol_mismatch 9))
    × IsCancelled 9 (begin_spawn env (request 9) 2 waiting).1
unfolding find_row
begin_spawn-IsCancelled_example =
    begin_spawn-IsCancelled env (request 9) 2 (row 9 LifecycleState.forking) waiting refl refl refl
      refl refl refl

-- Session 8 exits, is reported lost, is swept and its watcher fires.
abbrev ends : List Op
ends =
    shim_exited 8 (record { code = some (pos 0); signal = none })
    ∷ lost 8 pid_not_alive
    ∷ reconcile
    ∷ watched_exit 8
    ∷ []

serve-AtMostOnce_example : AtMostOnce 8 (serve env ends two_rows)
unfolding AtMostOnce count
serve-AtMostOnce_example = serve-AtMostOnce env 8 ends two_rows (ground arith)

-- Session 8 runs by its row, and its pid belongs to a process of another start time.
abbrev reusing : Env
reusing = record env { pid_alive = λ n pid. true; start_time_for_pid = λ n pid. known 2_000 }

abbrev target : World
target = record {
  deliver = λ n. delivered;
  alive = λ n. some true;
  terminal = λ n. false;
  takes_ms = λ n. 1;
}

abbrev before : KillState
before = record { clock = 0; now_ms = 0; sent = [] }

kill_runtime-Guarded_example :
    Guarded reusing target 8 term 1 two_rows before
      (kill_runtime reusing target 8 term 1 two_rows before).0
      (kill_runtime reusing target 8 term 1 two_rows before).2
kill_runtime-Guarded_example = kill_runtime-Guarded reusing target 8 term 1 two_rows before
