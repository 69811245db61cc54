-- ===== src/Session/Store.antt =====
-- internal/session/store/src/postgres/: the tables of the session store and their statements. A row
-- is a record with the columns of its table. The sender of a message is not told apart from its JSON
-- text. Ids and times are numbers, and a path is its text.
pub mod Rules
pub mod Transactions
pub mod Events
pub mod Sessions
pub mod Mail
pub mod Intents
pub mod Sure
use Prim.Native.String.{String}
use littleorgans.Base.{ℕ, ◌+◌, Bool, Option, List, [], ◌∷◌, if◌then◌else◌}
use littleorgans.Base.Int.{ℤ}
use littleorgans.Base.Exec.{Result, ok, err}
use littleorgans.Base.Action.{Action}
use littleorgans.Runtime.Lifecycle.{Lifecycle}
use littleorgans.Runtime.Server.Spawn.{SpawnRequest}

-- `core` is an error of the decoding of a state, `runtime_call` a failed call of the runtime daemon.
pub data StoreError : Type 0 where
  database idempotency_index idempotency_conflict column_decode core runtime_call : StoreError

pub record SessionRow : Type 0 where
  pub id : ℕ
  pub runtime : String
  pub role : String
  pub workspace : String
  pub namespace : String
  pub dir : String
  pub state : String
  pub lost_evidence : Option String
  pub runtime_pid : ℕ
  pub runtime_session : Option String
  pub transcript_path : Option String
  pub tmux_pane : Option String
  pub agent_config : Option String
  pub created_at : ℕ
  pub started_at : ℕ
  pub terminated_at : Option ℕ
  pub exit_code : Option ℤ
  pub updated_at : ℕ

pub data SenderRef : Type 0 where
  session : ℕ → SenderRef
  operator : String → SenderRef
  system : SenderRef

pub record MessageRow : Type 0 where
  pub message_id : ℕ
  pub sender_ref : SenderRef
  pub context_id : String
  pub intent : String
  pub idempotency_key : Option String
  pub content : String
  pub sent_at : ℕ

pub record DeliveryRow : Type 0 where
  pub message_id : ℕ
  pub recipient_session_id : ℕ
  pub status : String
  pub read_at : Option ℕ

pub record LabelRow : Type 0 where
  pub session_id : ℕ
  pub key : String
  pub value : String

pub data SpawnIntentStatus : Type 0 where
  pending resolved aborted : SpawnIntentStatus

pub record SessionDraft : Type 0 where
  pub id : ℕ
  pub runtime : String
  pub role : String
  pub workspace : String
  pub namespace : String
  pub dir : String
  pub labels : List (String × String)
  pub agent_config : Option String
  pub created_at_ms : ℕ

-- A row of `session_spawn_intents`, with its two JSON texts read. The column of the status has a
-- `CHECK` for the texts of the three values.
pub record IntentRow : Type 0 where
  pub session_id : ℕ
  pub operation_id : ℕ
  pub status : SpawnIntentStatus
  pub spawn_request : SpawnRequest
  pub session_draft : SessionDraft
  pub created_at : ℕ
  pub updated_at : ℕ
  pub resolved_at : Option ℕ
  pub aborted_reason : Option String

-- `cursor` is the one row of `session_event_cursor`, without its time.
pub record Database : Type 0 where
  pub sessions : List SessionRow
  pub messages : List MessageRow
  pub deliveries : List DeliveryRow
  pub cursor : Option (List ℕ)
  pub labels : List LabelRow
  pub namespaces : List String
  pub intents : List IntentRow
  pub lifecycles : List Lifecycle

-- What comes of a statement: it is done, or refused, or done with an answer that does not arrive.
pub data Answer : Type 0 where
  done refused unheard : Answer

-- The n-th statement is answered by `answer n`, and `utc_now n` is the time that it binds.
pub record Connection : Type 0 where
  pub answer : ℕ → Answer
  pub utc_now : ℕ → ℕ

pub record StoreState : Type 0 where
  pub db : Database
  pub clock : ℕ

abbrev pub Store : Type 0 → Type 0
Store A = Action StoreError StoreState A

abbrev pub update {ℓ} : {A : Type ℓ} → (A → Bool) → (A → A) → List A → List A
update p f [] = []
update p f (x ∷ xs) = (if p x then f x else x) ∷ update p f xs

abbrev pub answered_with :
    {A : Type 0} → Answer → StoreState → A × Database → Result StoreError A × StoreState
answered_with done s (a, d) = (ok a, record { db = d; clock = s.clock + 1 })
answered_with refused s (a, d) = (err database, record s { clock = s.clock + 1 })
answered_with unheard s (a, d) = (err database, record { db = d; clock = s.clock + 1 })

-- The end of a transaction that began in the given database.
abbrev pub settled :
    {A : Type 0}
    → Answer
    → Database
    → Result StoreError A × StoreState
    → Result StoreError A × StoreState
settled answer before (ok a, s) = answered_with answer (record s { db = before }) (a, s.db)
settled answer before (err e, s) = (err e, record { db = before; clock = s.clock + 1 })

abbrev pub checked :
    Answer → StoreState → Result StoreError Database → Result StoreError (Unit {0}) × StoreState
checked answer s (ok d) = answered_with answer s (tt, d)
checked answer s (err e) = (err e, record s { clock = s.clock + 1 })

module _ (conn : Connection) where
  unfoldable pub execute : (ℕ → Database → Database) → Store (Unit {0})
  execute f s = answered_with (conn.answer s.clock) s (tt, f (conn.utc_now s.clock) s.db)

  unfoldable pub fetch : {A : Type 0} → (Database → A) → Store A
  fetch f s = answered_with (conn.answer s.clock) s (f s.db, s.db)

  -- A statement that the constraints of a table may refuse.
  unfoldable pub execute_checked : (Database → Result StoreError Database) → Store (Unit {0})
  execute_checked f s = checked (conn.answer s.clock) s (f s.db)

  abbrev pub commit_or_rollback :
      {A : Type 0} → Database → Result StoreError A × StoreState → Result StoreError A × StoreState
  commit_or_rollback before (r, s) = settled (conn.answer s.clock) before (r, s)

  abbrev pub begun : {A : Type 0} → Answer → Store A → Store A
  begun done body s = commit_or_rollback s.db (body (record s { clock = s.clock + 1 }))
  begun _ body s = (err database, record s { clock = s.clock + 1 })

  -- The rest of a transaction that has written nothing yet.
  unfoldable pub committing : {A : Type 0} → Store A → Store A
  committing body s = commit_or_rollback s.db (body s)

  -- `pool.begin`, a body, and `commit_or_rollback` or `commit`: a transaction that is dropped rolls
  -- back.
  unfoldable pub transaction : {A : Type 0} → Store A → Store A
  transaction body s = begun (conn.answer s.clock) body s
