-- ===== src/Session/Store/Intents.antt =====
-- internal/session/store/src/postgres/spawn_intents.rs: the intents of spawns, with the statements of
-- the same transactions on the other tables: `insert_session_in` of sessions.rs and labels.rs, and
-- `insert_forking_in`, `update_lifecycle_in` and `delete_in` of internal/runtime/store/src/postgres/
-- lifecycle.rs. A time in milliseconds that is out of range, and the text of a tmux address, are
-- parameters.
use Prim.Native.String.{String}
use text.Mathlib.Text.{◌==◌ as str_eq}
use littleorgans.Base.{
  ℕ, Bool, true, false, ◌&&◌, ◌||◌, ◌==◌, Option, none, some, List, [], ◌∷◌, if◌then◌else◌, keep,
  leb,
}
use littleorgans.Base.Exec.{Result, ok, err}
use littleorgans.Base.Action.{pure, ◌>>◌}
use littleorgans.Runtime.Lifecycle.{Lifecycle, LifecycleState, TmuxAddress}
use littleorgans.Runtime.Server.{find_row, set_row, drop_row, row_of, has_row}
use littleorgans.Runtime.Server.Spawn.{SpawnRequest}
use littleorgans.Session.Store.{
  SessionRow, LabelRow, SpawnIntentStatus, pending, SessionDraft, IntentRow, Database, Connection,
  Store, StoreError, database, update, execute, execute_checked, fetch,
}
use littleorgans.Session.Feed.{lifecycle_transcript_path}

pub record PendingSpawnIntent : Type 0 where
  pub session_id : ℕ
  pub operation_id : ℕ
  pub spawn_request : SpawnRequest
  pub session_draft : SessionDraft
  pub created_at : ℕ

abbrev pub new_pending : ℕ → SpawnRequest → SessionDraft → ℕ → PendingSpawnIntent
new_pending operation_id request draft now = record {
  session_id = draft.id;
  operation_id = operation_id;
  spawn_request = request;
  session_draft = draft;
  created_at = now;
}

-- The intent that a row of the recovery is completed with.
abbrev pub pending_of : IntentRow → PendingSpawnIntent
pending_of i = record {
  session_id = i.session_id;
  operation_id = i.operation_id;
  spawn_request = i.spawn_request;
  session_draft = i.session_draft;
  created_at = i.created_at;
}

pub data SpawnIntentError : Type 0 where
  missing_runtime_pid not_running timestamp_out_of_range : SpawnIntentError

abbrev pub transcript_or : Option String → Lifecycle → Option String
transcript_or (some path) lifecycle = some path
transcript_or none lifecycle = lifecycle_transcript_path lifecycle.log_availability

abbrev pub value_or : {A : Type 0} → Option A → A → A
value_or none default = default
value_or (some a) default = a

abbrev pub mapped : {A B : Type 0} → (A → B) → Option A → Option B
mapped f none = none
mapped f (some a) = some (f a)

module _ (address_text : TmuxAddress → String) (in_range : ℕ → Bool) where
  abbrev pub row_of_draft : SessionDraft → Lifecycle → ℕ → Option String → ℕ → SessionRow
  row_of_draft draft lifecycle runtime_pid stdout_path updated_at = record {
    id = draft.id;
    runtime = draft.runtime;
    role = draft.role;
    workspace = draft.workspace;
    namespace = draft.namespace;
    dir = draft.dir;
    state = "RUNNING";
    lost_evidence = none;
    runtime_pid = runtime_pid;
    runtime_session = none;
    transcript_path = transcript_or stdout_path lifecycle;
    tmux_pane = mapped address_text lifecycle.tmux_pane;
    agent_config = draft.agent_config;
    created_at = draft.created_at_ms;
    started_at = value_or lifecycle.start_time updated_at;
    terminated_at = none;
    exit_code = none;
    updated_at = updated_at;
  }

  abbrev pub with_pid :
      SessionDraft → Lifecycle → Option ℕ → Option String → ℕ → Result SpawnIntentError SessionRow
  with_pid draft lifecycle none stdout_path updated_at = err missing_runtime_pid
  with_pid draft lifecycle (some pid) stdout_path updated_at =
      if in_range draft.created_at_ms
      then ok (row_of_draft draft lifecycle pid stdout_path updated_at)
      else err timestamp_out_of_range

  -- The session of a draft; its labels are the draft's.
  abbrev pub running_session :
      SessionDraft
      → Lifecycle
      → LifecycleState
      → Option String
      → ℕ
      → Result SpawnIntentError SessionRow
  running_session draft lifecycle LifecycleState.running stdout_path updated_at =
      with_pid draft lifecycle lifecycle.runtime_pid stdout_path updated_at
  running_session draft lifecycle _ stdout_path updated_at = err not_running

pub data StatusUpdate : Type 0 where
  resolved : StatusUpdate
  aborted : String → StatusUpdate

abbrev pub update_status : StatusUpdate → SpawnIntentStatus
update_status StatusUpdate.resolved = SpawnIntentStatus.resolved
update_status (StatusUpdate.aborted reason) = SpawnIntentStatus.aborted

abbrev pub update_resolved_at : StatusUpdate → ℕ → Option ℕ
update_resolved_at StatusUpdate.resolved now = some now
update_resolved_at (StatusUpdate.aborted reason) now = none

abbrev pub update_reason : StatusUpdate → Option String
update_reason StatusUpdate.resolved = none
update_reason (StatusUpdate.aborted reason) = some reason

abbrev pub is_intent_of : ℕ → IntentRow → Bool
is_intent_of session_id i = i.session_id == session_id

abbrev pub updated_row : StatusUpdate → ℕ → IntentRow → IntentRow
updated_row u now i = record i {
  status = update_status u;
  updated_at = now;
  resolved_at = update_resolved_at u now;
  aborted_reason = update_reason u;
}

abbrev pub with_status_update : ℕ → StatusUpdate → ℕ → Database → Database
with_status_update session_id u now d = record d {
  intents = update (is_intent_of session_id) (updated_row u now) d.intents;
}

abbrev pub has_intent : ℕ → List IntentRow → Bool
has_intent id [] = false
has_intent id (i ∷ is) = i.session_id == id || has_intent id is

abbrev pub has_session : ℕ → List SessionRow → Bool
has_session id [] = false
has_session id (row ∷ rows) = row.id == id || has_session id rows

abbrev pub intent_row : PendingSpawnIntent → IntentRow
intent_row intent = record {
  session_id = intent.session_id;
  operation_id = intent.operation_id;
  status = pending;
  spawn_request = intent.spawn_request;
  session_draft = intent.session_draft;
  created_at = intent.created_at;
  updated_at = intent.created_at;
  resolved_at = none;
  aborted_reason = none;
}

-- The primary keys of the tables.
abbrev pub with_pending_intent : PendingSpawnIntent → Database → Result StoreError Database
with_pending_intent intent d =
    if has_intent intent.session_id d.intents
    then err database
    else ok (record d { intents = intent_row intent ∷ d.intents })

abbrev pub with_session : SessionRow → Database → Result StoreError Database
with_session row d =
    if has_session row.id d.sessions
    then err database
    else ok (record d { sessions = row ∷ d.sessions })

abbrev pub with_lifecycle : Lifecycle → Database → Result StoreError Database
with_lifecycle l d =
    if has_row (find_row l.session_id d.lifecycles)
    then err database
    else ok (record d { lifecycles = row_of l ∷ d.lifecycles })

-- An update of no row is an error.
abbrev pub with_updated_lifecycle : Lifecycle → Database → Result StoreError Database
with_updated_lifecycle l d =
    if has_row (find_row l.session_id d.lifecycles)
    then ok (record d { lifecycles = set_row l d.lifecycles })
    else err database

abbrev pub without_lifecycle : ℕ → Database → Database
without_lifecycle id d = record d { lifecycles = drop_row id d.lifecycles }

-- `ON CONFLICT(session_id, key) DO UPDATE`
abbrev pub upsert_row : LabelRow → List LabelRow → List LabelRow
upsert_row l [] = l ∷ []
upsert_row l (k ∷ ks) =
    if k.session_id == l.session_id && str_eq k.key l.key then l ∷ ks else k ∷ upsert_row l ks

abbrev pub label_row : ℕ → String → String → LabelRow
label_row id key value = record { session_id = id; key = key; value = value }

abbrev pub with_label : LabelRow → Database → Database
with_label l d = record d { labels = upsert_row l d.labels }

abbrev pub has_namespace : String → List String → Bool
has_namespace slug [] = false
has_namespace slug (n ∷ ns) = str_eq n slug || has_namespace slug ns

abbrev pub is_pending : SpawnIntentStatus → Bool
is_pending pending = true
is_pending _ = false

-- `ORDER BY created_at`
abbrev pub insert_intent : IntentRow → List IntentRow → List IntentRow
insert_intent i [] = i ∷ []
insert_intent i (j ∷ js) =
    if leb i.created_at j.created_at then i ∷ (j ∷ js) else j ∷ insert_intent i js

abbrev pub by_created_at : List IntentRow → List IntentRow
by_created_at [] = []
by_created_at (i ∷ is) = insert_intent i (by_created_at is)

abbrev pub pending_rows : Database → List IntentRow
pending_rows d = by_created_at (keep (λ i. is_pending i.status) d.intents)

module _ (conn : Connection) where
  abbrev pub insert_pending_spawn_intent_in : PendingSpawnIntent → Store (Unit {0})
  insert_pending_spawn_intent_in intent = execute_checked conn (with_pending_intent intent)

  abbrev pub resolve_spawn_intent_in : ℕ → Store (Unit {0})
  resolve_spawn_intent_in id = execute conn (λ now. with_status_update id StatusUpdate.resolved now)

  abbrev pub abort_spawn_intent_in : ℕ → String → Store (Unit {0})
  abort_spawn_intent_in id reason =
      execute conn (λ now. with_status_update id (StatusUpdate.aborted reason) now)

  abbrev pub list_pending_spawn_intents : Store (List IntentRow)
  list_pending_spawn_intents = fetch conn pending_rows

  unfoldable pub insert_session_labels_in : ℕ → List (String × String) → Store (Unit {0})
  unfolding execute
  insert_session_labels_in id [] = pure tt
  insert_session_labels_in id ((key, value) ∷ labels) = do
    execute conn (λ now. with_label (label_row id key value))
    insert_session_labels_in id labels

  abbrev pub insert_session_in : SessionRow → List (String × String) → Store (Unit {0})
  insert_session_in row labels = do
    execute_checked conn (with_session row)
    insert_session_labels_in row.id labels

  abbrev pub namespace_exists : String → Store Bool
  namespace_exists slug = fetch conn (λ d. has_namespace slug d.namespaces)

  abbrev pub insert_forking_in : Lifecycle → Store (Unit {0})
  insert_forking_in l = execute_checked conn (with_lifecycle l)

  abbrev pub update_lifecycle_in : Lifecycle → Store (Unit {0})
  update_lifecycle_in l = execute_checked conn (with_updated_lifecycle l)

  abbrev pub delete_in : ℕ → Store (Unit {0})
  delete_in id = execute conn (λ now. without_lifecycle id)
