-- ===== src/Session/Feed.antt =====
-- internal/session/daemon/src/events.rs and reconcile.rs: the session daemon follows the events of
-- the runtime daemon. The runtime answers a poll and a status query by a
-- function of the number of the round, or of the statements before.
-- The cursor of the loop is passed on, and comes back with the outcome of a batch.
pub mod Follows
pub mod Log
pub mod Decodes
mod Tests
use Prim.Native.String.{String}
use littleorgans.Base.{ℕ, zero, suc, ◌+◌, Option, none, some, List, [], ◌∷◌, ◌++◌}
use littleorgans.Base.Exec.{Result, ok, err}
use littleorgans.Base.Action.{pure, raise, gets, ◌>>=◌, ◌>>◌}
use littleorgans.Runtime.Lifecycle.{
  RuntimeEvent, Lifecycle, LifecycleState, LostEvidence, LogAvailability,
}
use littleorgans.Session.Store.{Connection, Store, StoreState, StoreError, runtime_call}
use littleorgans.Session.Store.Events.{apply_runtime_events_and_cursor, apply_cursor, event_cursor}
use littleorgans.Session.Store.Sessions.{
  mark_session_terminated, mark_session_lost, record_transcript_path,
}

pub data EventBatch : Type 0 where
  events : List RuntimeEvent → ℕ → EventBatch
  cursor_expired : ℕ → EventBatch

pub data BatchOutcome : Type 0 where
  advanced reconciled : BatchOutcome

pub record ReconcileFinding : Type 0 where
  pub session_id : ℕ
  pub evidence : LostEvidence

-- `none`: the call of the runtime failed.
pub record Runtime : Type 0 where
  pub poll_events : ℕ → Option ℕ → Option EventBatch
  pub status : ℕ → Option (List Lifecycle)

abbrev pub lifecycle_transcript_path : Option LogAvailability → Option String
lifecycle_transcript_path (some (LogAvailability.headless stdout_path _)) = some stdout_path
lifecycle_transcript_path _ = none

module _ (conn : Connection) (runtime : Runtime) where
  abbrev utc_now : Store ℕ
  utc_now = gets (λ s. conn.utc_now s.clock)

  abbrev pub record_path : ℕ → Option String → Store (Unit {0})
  record_path session_id none = pure tt
  record_path session_id (some path) = do
    now ← utc_now
    row ← record_transcript_path conn session_id path now
    pure tt

  abbrev pub reconcile_state : ℕ → LifecycleState → Store (List ReconcileFinding)
  reconcile_state session_id (LifecycleState.exited exit) = do
    now ← utc_now
    row ← mark_session_terminated conn session_id exit.code now
    pure []
  reconcile_state session_id (LifecycleState.lost evidence) = do
    now ← utc_now
    row ← mark_session_lost conn session_id evidence now
    pure (record { session_id = session_id; evidence = evidence } ∷ [])
  reconcile_state session_id _ = pure []

  unfoldable pub reconcile_lifecycles : List Lifecycle → Store (List ReconcileFinding)
  unfolding record_transcript_path mark_session_terminated mark_session_lost
  reconcile_lifecycles [] = pure []
  reconcile_lifecycles (lifecycle ∷ lifecycles) = do
    record_path lifecycle.session_id (lifecycle_transcript_path lifecycle.log_availability)
    found ← reconcile_state lifecycle.session_id lifecycle.state
    rest ← reconcile_lifecycles lifecycles
    pure (found ++ rest)

  abbrev pub loaded : Option (List Lifecycle) → Store (List Lifecycle)
  loaded none = raise runtime_call
  loaded (some lifecycles) = pure lifecycles

  abbrev pub status : Store (List Lifecycle)
  status = do answer ← gets (λ s. runtime.status s.clock); loaded answer

  unfoldable pub reconcile_once : Store (List ReconcileFinding)
  unfolding reconcile_lifecycles
  reconcile_once = status >>= reconcile_lifecycles

  unfoldable pub handle_batch : EventBatch → Store (BatchOutcome × ℕ)
  unfolding apply_runtime_events_and_cursor apply_cursor reconcile_lifecycles
  handle_batch (events es next) = do
    apply_runtime_events_and_cursor conn es next
    pure (advanced, next)
  handle_batch (cursor_expired oldest) = do
    lifecycles ← status
    findings ← reconcile_lifecycles lifecycles
    apply_cursor conn oldest
    pure (reconciled, oldest)

  -- The cursor after a batch: an error leaves it.
  abbrev pub cursor_after :
      Option ℕ → Result StoreError (BatchOutcome × ℕ) × StoreState → Option ℕ × StoreState
  cursor_after cursor (ok (outcome, next), s) = (some next, s)
  cursor_after cursor (err e, s) = (cursor, s)

  abbrev pub after_poll : Option ℕ → StoreState → Option EventBatch → Option ℕ × StoreState
  after_poll cursor s none = (cursor, s)
  after_poll cursor s (some batch) = cursor_after cursor (handle_batch batch s)

  -- The first rounds of the loop of `run_event_loop`, which has no end of its own.
  unfoldable pub event_rounds : ℕ → ℕ → Option ℕ → StoreState → Option ℕ × StoreState
  unfolding handle_batch
  event_rounds zero round cursor s = (cursor, s)
  event_rounds (suc rounds) round cursor s =
      let next = after_poll cursor s (runtime.poll_events round cursor) in
      event_rounds rounds (round + 1) next.0 next.1

  abbrev pub looped :
      ℕ → Result StoreError (Option ℕ) × StoreState → Result StoreError (Option ℕ) × StoreState
  looped rounds (ok cursor, s) = let end = event_rounds rounds 0 cursor s in (ok end.0, end.1)
  looped rounds (err e, s) = (err e, s)

  unfoldable pub run_event_loop : ℕ → Store (Option ℕ)
  unfolding event_cursor event_rounds
  run_event_loop rounds s = looped rounds (event_cursor conn s)
