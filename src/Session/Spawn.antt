-- ===== src/Session/Spawn.antt =====
-- internal/session/daemon/src/handler/spawn.rs: a spawn in two transactions around the call of the
-- runtime daemon, and the recovery of the spawns that a stopped daemon left pending. The session of
-- a request is a draft here. A statement and a call of the runtime take a number each; what the
-- runtime daemon does meanwhile to the tables, which it shares, is a function on the database.
pub mod Rules
pub mod Coherent
pub mod Drafts
pub mod Steps
pub mod Spawns
pub mod Recovers
pub mod Left
pub mod Faithful
pub mod Aborts
pub mod Completes
pub mod Recovery
pub mod Reached
pub mod Written
pub mod Confirmed
mod Tests
use Prim.Native.String.{String}
use littleorgans.Base.{
  ℕ, ◌+◌, Bool, true, false, ◌==◌, Option, none, some, List, [], ◌∷◌, if◌then◌else◌,
}
use littleorgans.Base.Exec.{Result, ok, err}
use littleorgans.Base.Action.{Action, pure, raise, lift, gets, ◌>>=◌, ◌>>◌}
use littleorgans.Base.Action.Calls.{map_err, attempted}
use littleorgans.Runtime.Lifecycle.{
  Lifecycle, LifecycleState, RuntimeEvent, TmuxAddress, new_forking,
}
use littleorgans.Runtime.Server.{find_row}
use littleorgans.Runtime.Server.Spawn.{SpawnRequest}
use littleorgans.Session.Store.{
  SessionRow, SessionDraft, IntentRow, Database, Connection, Store, StoreState, StoreError, execute,
  execute_checked, fetch, committing,
}
use littleorgans.Session.Store.Intents.{
  PendingSpawnIntent, new_pending, pending_of, SpawnIntentError, running_session, value_or,
  insert_pending_spawn_intent_in, resolve_spawn_intent_in, abort_spawn_intent_in,
  list_pending_spawn_intents, insert_session_labels_in, insert_session_in, namespace_exists,
  insert_forking_in, update_lifecycle_in, delete_in,
}

pub record SpawnedProcess : Type 0 where
  pub lifecycle : Lifecycle
  pub stdout_path : Option String

-- A failed call of the runtime comes with its text. `status` is asked for one session.
pub record Env : Type 0 where
  pub conn : Connection
  pub authorized : ℕ → Bool
  pub spawned : ℕ → Result String SpawnedProcess
  pub status : ℕ → ℕ → Database → Result String (List Lifecycle)
  pub appended : ℕ → RuntimeEvent → Bool
  pub effect : ℕ → Database → Database
  pub in_range : ℕ → Bool
  pub address_text : TmuxAddress → String

pub data SpawnError : Type 0 where
  store_error : StoreError → SpawnError
  intent_error : SpawnIntentError → SpawnError
  unauthorized namespace_deleted event_not_running event_without_pid append_failed : SpawnError
  runtime_spawn_failed : String → SpawnError

pub data OnCommitFailure : Type 0 where
  abort_running leave_pending : OnCommitFailure

abbrev pub Handler : Type 0 → Type 0
Handler A = Action SpawnError StoreState A

abbrev pub stored : {A : Type 0} → Store A → Handler A
stored m = map_err store_error m

abbrev pub in_context : {A : Type 0} → Result SpawnIntentError A → Result SpawnError A
in_context (ok a) = ok a
in_context (err e) = err (intent_error e)

abbrev pub event_with_pid : Lifecycle → Option ℕ → ℕ → Result SpawnError RuntimeEvent
event_with_pid l none now = err event_without_pid
event_with_pid l (some pid) now =
    ok (RuntimeEvent.running l.session_id pid (value_or l.start_time now))

abbrev pub event_of_state : Lifecycle → LifecycleState → ℕ → Result SpawnError RuntimeEvent
event_of_state l LifecycleState.running now = event_with_pid l l.runtime_pid now
event_of_state l _ now = err event_not_running

abbrev pub running_event_from_lifecycle : Lifecycle → ℕ → Result SpawnError RuntimeEvent
running_event_from_lifecycle l now = event_of_state l l.state now

module _ (env : Env) where
  -- A call of the runtime, with what the runtime does to the tables.
  unfoldable pub call : {A : Type 0} → (ℕ → Database → A) → Handler A
  call f s = (ok (f s.clock s.db), record { db = env.effect s.clock s.db; clock = s.clock + 1 })

  abbrev pub utc_now : Handler ℕ
  utc_now = gets (λ s. env.conn.utc_now s.clock)

  unfoldable pub begin_spawn_tx : Handler (Unit {0})
  unfolding execute map_err
  begin_spawn_tx = stored (execute env.conn (λ now d. d))

  -- The body of a transaction that has begun, and `commit_or_rollback`.
  unfoldable pub finish_spawn_tx : Store (Unit {0}) → Handler (Unit {0})
  unfolding committing map_err
  finish_spawn_tx body = stored (committing env.conn body)

  abbrev pub forking_of : PendingSpawnIntent → Lifecycle
  forking_of intent = record (new_forking intent.session_id intent.spawn_request.runtime) {
    isolation = intent.spawn_request.isolation;
  }

  abbrev pub begin_body : PendingSpawnIntent → Store (Unit {0})
  begin_body intent = do
    insert_pending_spawn_intent_in env.conn intent
    insert_forking_in env.conn (forking_of intent)

  -- The row of the audit is written, also where the caller is refused.
  abbrev pub authorized_body : PendingSpawnIntent → Bool → Handler (Unit {0})
  authorized_body intent true = finish_spawn_tx (begin_body intent)
  authorized_body intent false = finish_spawn_tx (pure tt) >> raise unauthorized

  unfoldable pub begin_spawn_intent : PendingSpawnIntent → Handler (Unit {0})
  unfolding begin_spawn_tx finish_spawn_tx execute_checked new_forking
  begin_spawn_intent intent = do
    begin_spawn_tx
    allowed ← gets (λ s. env.authorized s.clock)
    authorized_body intent allowed

  abbrev pub abort_body : ℕ → String → Store (Unit {0})
  abort_body session_id reason = do
    abort_spawn_intent_in env.conn session_id reason
    delete_in env.conn session_id

  unfoldable pub abort_spawn_intent : ℕ → String → Handler (Unit {0})
  unfolding begin_spawn_tx finish_spawn_tx execute
  abort_spawn_intent session_id reason = do
    begin_spawn_tx
    finish_spawn_tx (abort_body session_id reason)

  -- What the runtime answers to the call is only logged.
  unfoldable pub abort_running_spawn : ℕ → String → Handler (Unit {0})
  unfolding call abort_spawn_intent
  abort_running_spawn session_id reason = do
    call (λ n d. tt {0})
    abort_spawn_intent session_id reason

  abbrev pub complete_body : PendingSpawnIntent → Lifecycle → SessionRow → Store (Unit {0})
  complete_body intent lifecycle session = do
    insert_session_in env.conn session intent.session_draft.labels
    update_lifecycle_in env.conn lifecycle
    resolve_spawn_intent_in env.conn intent.session_id

  -- A failure to abort is only logged.
  abbrev pub after_commit_failure : OnCommitFailure → ℕ → Handler (Unit {0})
  after_commit_failure leave_pending session_id = pure tt
  after_commit_failure abort_running session_id = do
    result ← attempted {F = SpawnError} (abort_running_spawn session_id "session commit failed")
    pure tt

  abbrev pub append_event : RuntimeEvent → Handler (Unit {0})
  append_event event = do
    done ← call (λ n d. env.appended n event)
    if done then pure tt else raise append_failed

  abbrev pub after_commit :
      OnCommitFailure
      → PendingSpawnIntent
      → RuntimeEvent
      → SessionRow
      → Result SpawnError (Unit {0})
      → Handler SessionRow
  after_commit failure intent event session (ok _) = do append_event event; pure session
  after_commit failure intent event session (err e) = do
    after_commit_failure failure intent.session_id
    raise e

  abbrev pub commit_session :
      OnCommitFailure
      → PendingSpawnIntent
      → Lifecycle
      → RuntimeEvent
      → SessionRow
      → Bool
      → Handler SessionRow
  commit_session failure intent lifecycle event session false = do
    abort_running_spawn intent.session_id "namespace deleted before session commit"
    raise namespace_deleted
  commit_session failure intent lifecycle event session true = do
    begin_spawn_tx
    committed ← attempted (finish_spawn_tx (complete_body intent lifecycle session))
    after_commit failure intent event session committed

  unfoldable pub complete_spawn_intent :
      PendingSpawnIntent
      → Lifecycle
      → RuntimeEvent
      → Option String
      → OnCommitFailure
      → Handler SessionRow
  unfolding begin_spawn_tx finish_spawn_tx call abort_running_spawn attempted execute
      execute_checked fetch map_err insert_session_labels_in
  complete_spawn_intent intent lifecycle event stdout_path failure = do
    updated_at ← utc_now
    session ← lift (
        in_context (
          running_session env.address_text env.in_range intent.session_draft lifecycle
            lifecycle.state stdout_path updated_at))
    exists ← stored (namespace_exists env.conn session.namespace)
    commit_session failure intent lifecycle event session exists

  abbrev pub after_spawn : PendingSpawnIntent → Result String SpawnedProcess → Handler SessionRow
  after_spawn intent (err failure) = do
    abort_spawn_intent intent.session_id failure
    raise (runtime_spawn_failed failure)
  after_spawn intent (ok spawned) = do
    now ← utc_now
    event ← lift (running_event_from_lifecycle spawned.lifecycle now)
    complete_spawn_intent intent spawned.lifecycle event spawned.stdout_path abort_running

  abbrev pub spawn_intent : PendingSpawnIntent → Handler SessionRow
  spawn_intent intent = do
    begin_spawn_intent intent
    spawned ← call (λ n d. env.spawned n)
    after_spawn intent spawned

  unfoldable pub spawn : ℕ → SpawnRequest → SessionDraft → Handler SessionRow
  unfolding begin_spawn_intent complete_spawn_intent abort_spawn_intent call
  spawn operation_id request draft = do
    now ← utc_now
    spawn_intent (new_pending operation_id request draft now)

  -- The recovery.

  abbrev pub complete_pending : IntentRow → Lifecycle → LifecycleState → Handler (Unit {0})
  complete_pending intent lifecycle LifecycleState.running = do
    now ← utc_now
    event ← lift (running_event_from_lifecycle lifecycle now)
    session ← complete_spawn_intent (pending_of intent) lifecycle event none leave_pending
    pure tt
  complete_pending intent lifecycle _ =
      abort_spawn_intent intent.session_id "runtime lifecycle not running"

  abbrev pub with_lifecycle_of : IntentRow → Option Lifecycle → Handler (Unit {0})
  with_lifecycle_of intent none = abort_spawn_intent intent.session_id "runtime lifecycle missing"
  with_lifecycle_of intent (some lifecycle) = complete_pending intent lifecycle lifecycle.state

  abbrev pub with_status_of : IntentRow → Result String (List Lifecycle) → Handler (Unit {0})
  with_status_of intent (err failure) = abort_spawn_intent intent.session_id failure
  with_status_of intent (ok lifecycles) =
      with_lifecycle_of intent (find_row intent.session_id lifecycles)

  unfoldable pub reconcile_pending_spawn_intent : IntentRow → Handler (Unit {0})
  unfolding complete_spawn_intent abort_spawn_intent call
  reconcile_pending_spawn_intent intent = do
    lifecycles ← call (λ n d. env.status n intent.session_id d)
    with_status_of intent lifecycles

  -- A failure is only logged.
  unfoldable pub reconcile_all : List IntentRow → Handler (Unit {0})
  unfolding reconcile_pending_spawn_intent attempted
  reconcile_all [] = pure tt
  reconcile_all (i ∷ is) = do
    result ← attempted {F = SpawnError} (reconcile_pending_spawn_intent i)
    reconcile_all is

  unfoldable pub reconcile_pending_spawn_intents : Handler (Unit {0})
  unfolding reconcile_all fetch map_err
  reconcile_pending_spawn_intents = do
    pending ← stored (list_pending_spawn_intents env.conn)
    reconcile_all pending
