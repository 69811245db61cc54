-- ===== src/Session/Store/Events/Tests.antt =====
-- Runs of the writes of runtime events.
use littleorgans.Base.{ℕ, ◌≡◌, refl, none, some, [], ◌∷◌, ◌==◌, if◌then◌else◌}
use littleorgans.Base.Int.{pos}
use littleorgans.Base.Exec.{ok, err}
use littleorgans.Base.Action.{◌>>=◌}
use littleorgans.Runtime.Lifecycle.{RuntimeEvent, TerminationEvidence}
use littleorgans.Session.Store.{
  SessionRow, Database, Connection, StoreState, done, unheard, database,
}
use littleorgans.Session.Store.Events.{apply_runtime_events_and_cursor}
use littleorgans.Session.Store.Events.Rows.{replayed, replayed-ended}
use littleorgans.Session.Store.Events.Once.{Persisted, apply_runtime_events_and_cursor-Persisted}

abbrev pub spawning_session : ℕ → SessionRow
spawning_session id = record {
  id = id;
  runtime = "claude";
  role = "general";
  workspace = "main";
  namespace = "default";
  dir = "/work";
  state = "SPAWNING";
  lost_evidence = none;
  runtime_pid = 0;
  runtime_session = none;
  transcript_path = none;
  tmux_pane = none;
  agent_config = none;
  created_at = 1;
  started_at = 1;
  terminated_at = none;
  exit_code = none;
  updated_at = 1;
}

abbrev pub initial_db : Database
initial_db = record {
  sessions = spawning_session 7 ∷ spawning_session 8 ∷ [];
  messages = [];
  deliveries = [];
  cursor = none;
  labels = [];
  namespaces = "default" ∷ [];
  intents = [];
  lifecycles = [];
}

abbrev pub initial_store : StoreState
initial_store = record { db = initial_db; clock = 0 }

abbrev pub reliable : Connection
reliable = record { answer = λ n. done; utc_now = λ n. 100 }

-- The commit is made, but its answer does not arrive.
abbrev lossy : Connection
lossy = record { answer = λ n. if n == 4 then unheard else done; utc_now = λ n. 100 }

abbrev pub started : RuntimeEvent
started = RuntimeEvent.running 7 4_242 90

abbrev pub exited : RuntimeEvent
exited = RuntimeEvent.terminated 7 (some (pos 3)) none TerminationEvidence.process_exit

abbrev ended_session : SessionRow
ended_session = record (spawning_session 7) { state = "TERMINATED"; exit_code = some (pos 0) }

applies :
    (apply_runtime_events_and_cursor reliable (started ∷ exited ∷ []) 2 initial_store).0 ≡ ok tt
unfolding apply_runtime_events_and_cursor ◌>>=◌
applies = refl

lost_answer :
    (apply_runtime_events_and_cursor lossy (started ∷ exited ∷ []) 2 initial_store).0 ≡ err database
unfolding apply_runtime_events_and_cursor ◌>>=◌
lost_answer = refl

apply_runtime_events_and_cursor-Persisted_example :
    Persisted
      (λ n. 100)
      (started ∷ exited ∷ [])
      2
      initial_db
      (apply_runtime_events_and_cursor reliable (started ∷ exited ∷ []) 2 initial_store).0
      (apply_runtime_events_and_cursor reliable (started ∷ exited ∷ []) 2 initial_store).1.db
apply_runtime_events_and_cursor-Persisted_example =
    apply_runtime_events_and_cursor-Persisted reliable (started ∷ exited ∷ []) 2 initial_store

replayed-ended_example : replayed (λ n. 100) 1 (started ∷ exited ∷ []) ended_session ≡ ended_session
replayed-ended_example = replayed-ended (λ n. 100) 1 (started ∷ exited ∷ []) ended_session refl
