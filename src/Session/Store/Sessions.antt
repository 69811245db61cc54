-- ===== src/Session/Store/Sessions.antt =====
-- internal/session/store/src/postgres/sessions.rs: what the session daemon writes of a session
-- outside the event feed, with `mark_unread_undeliverable` of mail.rs, and the state of a session of
-- internal/session/core/src/session.rs with its columns. Of the columns that a row is read back
-- from, those of the state are decoded.
pub mod States
mod Tests
use Prim.Native.String.{String}
use text.Mathlib.Text.{◌==◌ as str_eq}
use littleorgans.Base.{
  ℕ, Bool, true, false, not, ◌&&◌, ◌==◌, Option, none, some, List, [], ◌∷◌, if◌then◌else◌,
}
use littleorgans.Base.Int.{ℤ}
use littleorgans.Base.Exec.{Result, ok, err}
use littleorgans.Base.Action.{pure, lift, ◌>>=◌, ◌>>◌}
use littleorgans.Runtime.Lifecycle.{LostEvidence}
use littleorgans.Runtime.Lifecycle.Evidence.{as_str, from_text}
use littleorgans.Session.Store.{
  SessionRow, DeliveryRow, Database, Connection, Store, StoreError, core, update, execute, fetch,
  transaction,
}

pub data SessionState : Type 0 where
  spawning running terminated : SessionState
  lost : LostEvidence → SessionState

abbrev pub is_active : SessionState → Bool
is_active spawning = true
is_active running = true
is_active _ = false

unfoldable pub sql_name : SessionState → String
sql_name spawning = "SPAWNING"
sql_name running = "RUNNING"
sql_name terminated = "TERMINATED"
sql_name (lost _) = "LOST"

abbrev lost_with : Option LostEvidence → Result StoreError SessionState
lost_with none = err core
lost_with (some evidence) = ok (lost evidence)

unfoldable pub from_sql : String → Option LostEvidence → Result StoreError SessionState
from_sql value lost_evidence =
    if str_eq value "SPAWNING"
    then ok spawning
    else if str_eq value "RUNNING"
    then ok running
    else if str_eq value "TERMINATED"
    then ok terminated
    else if str_eq value "LOST"
    then lost_with lost_evidence
    else err core

unfoldable pub session_lost_evidence : SessionState → Option String
unfolding as_str
session_lost_evidence (lost evidence) = some (as_str evidence)
session_lost_evidence _ = none

abbrev evidence_of : Option String → Option LostEvidence
evidence_of none = none
evidence_of (some text) = some (from_text text)

unfoldable pub session_state_from_row : SessionRow → Result StoreError SessionState
unfolding from_sql from_text
session_state_from_row row = from_sql row.state (evidence_of row.lost_evidence)

abbrev pub find_session : ℕ → List SessionRow → Option SessionRow
find_session id [] = none
find_session id (row ∷ rows) = if row.id == id then some row else find_session id rows

abbrev with_state :
    SessionRow
    → Result StoreError SessionState
    → Result StoreError (Option (SessionRow × SessionState))
with_state row (ok state) = ok (some (row, state))
with_state row (err e) = err e

abbrev decoded : Option SessionRow → Result StoreError (Option (SessionRow × SessionState))
decoded none = ok none
decoded (some row) = with_state row (session_state_from_row row)

-- The statements.

abbrev pub is_unread_of : ℕ → DeliveryRow → Bool
is_unread_of recipient_id row =
    row.recipient_session_id == recipient_id && str_eq row.status "unread"

abbrev pub undeliverable_row : DeliveryRow → DeliveryRow
undeliverable_row row = record row { status = "undeliverable" }

abbrev pub with_undeliverable : ℕ → Database → Database
with_undeliverable recipient_id d = record d {
  deliveries = update (is_unread_of recipient_id) undeliverable_row d.deliveries;
}

abbrev pub has_id : ℕ → SessionRow → Bool
has_id id row = row.id == id

abbrev pub terminated_write : Option ℤ → ℕ → SessionRow → SessionRow
terminated_write exit_code terminated_at row = record row {
  state = "TERMINATED";
  exit_code = exit_code;
  terminated_at = some terminated_at;
  updated_at = terminated_at;
}

abbrev pub lost_write : LostEvidence → ℕ → SessionRow → SessionRow
lost_write evidence updated_at row = record row {
  state = "LOST";
  lost_evidence = some (as_str evidence);
  updated_at = updated_at;
}

abbrev pub with_sessions : ℕ → (SessionRow → SessionRow) → Database → Database
with_sessions id f d = record d { sessions = update (has_id id) f d.sessions }

-- `transcript_path IS NULL OR transcript_path != $4`
abbrev pub other_path : Option String → String → Bool
other_path none path = true
other_path (some stored) path = not (str_eq stored path)

abbrev pub transcript_write : String → ℕ → SessionRow → SessionRow
transcript_write path updated_at row =
    if other_path row.transcript_path path
    then record row { transcript_path = some path; updated_at = updated_at }
    else row

module _ (conn : Connection) where
  unfoldable pub get_session : ℕ → Store (Option (SessionRow × SessionState))
  unfolding fetch session_state_from_row
  get_session id = fetch conn (λ d. find_session id d.sessions) >>= λ row. lift (decoded row)

  unfoldable pub mark_unread_undeliverable : ℕ → Store (Unit {0})
  unfolding execute
  mark_unread_undeliverable recipient_id = execute conn (λ now. with_undeliverable recipient_id)

  -- The transaction of `mark_session_terminated` and `mark_session_lost`.
  unfoldable pub end_session : ℕ → (SessionRow → SessionRow) → Store (Unit {0})
  unfolding mark_unread_undeliverable transaction
  end_session id write =
      transaction conn
        (do execute conn (λ now. with_sessions id write); mark_unread_undeliverable id)

  unfoldable pub mark_session_terminated :
      ℕ → Option ℤ → ℕ → Store (Option (SessionRow × SessionState))
  unfolding end_session get_session
  mark_session_terminated id exit_code terminated_at = do
    end_session id (terminated_write exit_code terminated_at)
    get_session id

  unfoldable pub mark_session_lost :
      ℕ → LostEvidence → ℕ → Store (Option (SessionRow × SessionState))
  unfolding end_session get_session
  mark_session_lost id evidence updated_at = do
    end_session id (lost_write evidence updated_at)
    get_session id

  unfoldable pub record_transcript_path :
      ℕ → String → ℕ → Store (Option (SessionRow × SessionState))
  unfolding execute get_session
  record_transcript_path id path updated_at = do
    execute conn (λ now. with_sessions id (transcript_write path updated_at))
    get_session id
