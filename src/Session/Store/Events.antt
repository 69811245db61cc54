-- ===== src/Session/Store/Events.antt =====
-- internal/session/store/src/postgres/events.rs: the runtime's events are written to the sessions
-- together with the cursor that they lead to.
pub mod Rows
pub mod Replay
pub mod Cursor
pub mod Once
pub mod Tests
use Prim.Native.String.{String}
use text.Mathlib.Text.{◌==◌ as str_eq}
use littleorgans.Base.{
  ℕ, zero, suc, ◌+◌, ◌*◌, ◌/◌, ◌%◌, Bool, not, ◌&&◌, ◌||◌, ◌==◌, Option, none, some, List, [], ◌∷◌,
  if◌then◌else◌, length, map,
}
use littleorgans.Base.Int.{ℤ}
use littleorgans.Base.Exec.{Result, ok, err}
use littleorgans.Base.Action.{pure, lift, ◌>>=◌, ◌>>◌}
use littleorgans.Runtime.Lifecycle.{RuntimeEvent, TerminationEvidence, LostEvidence}
use littleorgans.Runtime.Lifecycle.Evidence.{as_str}
use littleorgans.Session.Store.{
  SessionRow, Database, Connection, Store, StoreError, column_decode, update, execute, fetch,
  transaction,
}

-- `state IN ('SPAWNING', 'RUNNING')`
abbrev pub is_active_row : SessionRow → Bool
is_active_row row = str_eq row.state "SPAWNING" || str_eq row.state "RUNNING"

abbrev pub is_running_update : ℕ → ℕ → SessionRow → Bool
is_running_update session_id runtime_pid row =
    row.id == session_id
    && (is_active_row row && (str_eq row.state "SPAWNING" || not (row.runtime_pid == runtime_pid)))

abbrev pub is_active_session : ℕ → SessionRow → Bool
is_active_session session_id row = row.id == session_id && is_active_row row

abbrev pub running_row : ℕ → ℕ → ℕ → SessionRow → SessionRow
running_row runtime_pid start_time now row = record row {
  state = "RUNNING";
  runtime_pid = runtime_pid;
  started_at = start_time;
  updated_at = now;
}

abbrev pub terminated_row : Option ℤ → ℕ → SessionRow → SessionRow
terminated_row exit_code now row = record row {
  state = "TERMINATED";
  lost_evidence = none;
  exit_code = exit_code;
  terminated_at = some now;
  updated_at = now;
}

abbrev pub lost_row : LostEvidence → ℕ → SessionRow → SessionRow
lost_row evidence now row = record row {
  state = "LOST";
  lost_evidence = some (as_str evidence);
  updated_at = now;
}

abbrev mark_row_lost : ℕ → LostEvidence → ℕ → SessionRow → SessionRow
mark_row_lost session_id evidence now row =
    if is_active_session session_id row then lost_row evidence now row else row

abbrev mark_terminated : ℕ → Option ℤ → TerminationEvidence → ℕ → SessionRow → SessionRow
mark_terminated session_id exit_code (TerminationEvidence.lost evidence) now row =
    mark_row_lost session_id evidence now row
mark_terminated session_id exit_code _ now row =
    if is_active_session session_id row then terminated_row exit_code now row else row

-- What the statement of an event does to each row.
unfoldable pub event_row : RuntimeEvent → ℕ → SessionRow → SessionRow
unfolding as_str
event_row (RuntimeEvent.running session_id runtime_pid start_time) now row =
    if is_running_update session_id runtime_pid row
    then running_row runtime_pid start_time now row
    else row
event_row (RuntimeEvent.terminated session_id exit_code signal evidence) now row =
    mark_terminated session_id exit_code evidence now row
event_row (RuntimeEvent.lost session_id evidence) now row =
    mark_row_lost session_id evidence now row

-- A u64 in big-endian order.
abbrev bytes_from : ℕ → ℕ → List ℕ → List ℕ
bytes_from zero n low = low
bytes_from (suc k) n low = bytes_from k (n / 256) ((n % 256) ∷ low)

unfoldable pub to_be_bytes : ℕ → List ℕ
to_be_bytes cursor = bytes_from 8 cursor []

abbrev from_be_bytes : ℕ → List ℕ → ℕ
from_be_bytes high [] = high
from_be_bytes high (b ∷ bs) = from_be_bytes (high * 256 + b) bs

unfoldable pub decode_cursor : List ℕ → Result StoreError ℕ
decode_cursor value = if length value == 8 then ok (from_be_bytes 0 value) else err column_decode

abbrev pub decode_stored : Option (List ℕ) → Result StoreError (Option ℕ)
decode_stored none = ok none
decode_stored (some value) = elim (decode_cursor value) [
  | ok cursor ↦ ok (some cursor)
  | err e ↦ err e
]

abbrev pub with_event : RuntimeEvent → ℕ → Database → Database
with_event event now d = record d { sessions = map (event_row event now) d.sessions }

abbrev pub with_cursor : ℕ → Database → Database
with_cursor cursor d = record d { cursor = some (to_be_bytes cursor) }

module _ (conn : Connection) where
  unfoldable pub apply_runtime_event : RuntimeEvent → Store (Unit {0})
  unfolding execute event_row
  apply_runtime_event event = execute conn (with_event event)

  unfoldable pub write_cursor : ℕ → Store (Unit {0})
  unfolding execute to_be_bytes
  write_cursor cursor = execute conn (λ now. with_cursor cursor)

  -- The loop over the events.
  unfoldable pub apply_events : List RuntimeEvent → Store (Unit {0})
  unfolding apply_runtime_event
  apply_events [] = pure tt
  apply_events (event ∷ events) = do apply_runtime_event event; apply_events events

  unfoldable pub apply_runtime_events_and_cursor : List RuntimeEvent → ℕ → Store (Unit {0})
  unfolding apply_events write_cursor transaction
  apply_runtime_events_and_cursor events next_cursor =
      transaction conn (do apply_events events; write_cursor next_cursor)

  unfoldable pub apply_cursor : ℕ → Store (Unit {0})
  unfolding write_cursor transaction
  apply_cursor cursor = transaction conn (write_cursor cursor)

  unfoldable pub event_cursor : Store (Option ℕ)
  unfolding fetch decode_cursor
  event_cursor = fetch conn (λ d. d.cursor) >>= λ value. lift (decode_stored value)
