-- ===== src/Session/Feed/Decodes.antt =====
-- The state of every session stays readable, whatever the session daemon writes.
use littleorgans.Base.{
  ℕ, zero, suc, ◌+◌, ◌≡◌, refl, Bool, Option, none, some, List, [], ◌∷◌, map, if◌then◌else◌, All,
  true, false,
}
use Prim.Native.String.{String}
use littleorgans.Base.Int.{ℤ}
use littleorgans.Base.Exec.{Result, ok, err}
use littleorgans.Base.Action.Keeps.{
  Keeps, Keeps-pure, Keeps-raise, Keeps-lift, Keeps-bind, keeps_rules,
}
use littleorgans.Runtime.Lifecycle.{
  RuntimeEvent, TerminationEvidence, Lifecycle, LifecycleState, LostEvidence,
  shim_died_before_report, pid_not_alive, pid_reuse_detected, unknown,
}
use littleorgans.Runtime.Lifecycle.Evidence.{as_str}
use littleorgans.Session.Store.{SessionRow, Database, Connection, StoreState, StoreError, update}
use littleorgans.Session.Store.Rules.{Holds, Keeps-execute, Keeps-fetch, Keeps-transaction}
use littleorgans.Session.Store.Events.{
  event_row, with_event, with_cursor, apply_runtime_event, apply_events, write_cursor,
  apply_runtime_events_and_cursor, apply_cursor, event_cursor,
}
use littleorgans.Session.Store.Events.Rows.{written, event_row-cases}
use littleorgans.Session.Store.Sessions.{
  SessionState, session_state_from_row, has_id, with_sessions, with_undeliverable, terminated_write,
  lost_write, transcript_write, other_path, get_session, end_session, mark_unread_undeliverable,
  mark_session_terminated, mark_session_lost, record_transcript_path,
}
use littleorgans.Session.Feed.{
  EventBatch, events, cursor_expired, Runtime, BatchOutcome, looped, record_path, reconcile_state,
  reconcile_lifecycles, loaded, handle_batch, cursor_after, after_poll, event_rounds,
  run_event_loop,
}

abbrev pub Decodes : SessionRow → Type 0
Decodes row = (state : SessionState) × (session_state_from_row row ≡ ok state)

abbrev pub AllDecode : Database → Type 0
AllDecode d = All Decodes d.sessions

lost_write-Decodes :
    (evidence : LostEvidence) (t : ℕ) (row : SessionRow) → Decodes (lost_write evidence t row)
unfolding session_state_from_row as_str
lost_write-Decodes shim_died_before_report t row = (SessionState.lost shim_died_before_report, refl)
lost_write-Decodes pid_not_alive t row = (SessionState.lost pid_not_alive, refl)
lost_write-Decodes pid_reuse_detected t row = (SessionState.lost pid_reuse_detected, refl)
lost_write-Decodes unknown t row = (SessionState.lost unknown, refl)

terminated_write-Decodes :
    (code : Option ℤ) (t : ℕ) (row : SessionRow) → Decodes (terminated_write code t row)
unfolding session_state_from_row
terminated_write-Decodes code t row = (SessionState.terminated, refl)

written-Decodes : (e : RuntimeEvent) (t : ℕ) (row : SessionRow) → Decodes (written e t row)
unfolding written session_state_from_row
written-Decodes (RuntimeEvent.running i p s) t row = (SessionState.running, refl)
written-Decodes (RuntimeEvent.terminated i c s (TerminationEvidence.lost e)) t row =
    lost_write-Decodes e t row
written-Decodes (RuntimeEvent.terminated i c s TerminationEvidence.shim_exit) t row =
    (SessionState.terminated, refl)
written-Decodes (RuntimeEvent.terminated i c s TerminationEvidence.process_exit) t row =
    (SessionState.terminated, refl)
written-Decodes (RuntimeEvent.lost i e) t row = lost_write-Decodes e t row

with_event-AllDecode :
    (e : RuntimeEvent) (t : ℕ) (rows : List SessionRow)
    → All Decodes rows
    → All Decodes (map (event_row e t) rows)
with_event-AllDecode e t [] h = tt
with_event-AllDecode e t (row ∷ rows) h = (
  event_row-cases Decodes e t row (λ _. written-Decodes e t row) (λ _. h.0),
  with_event-AllDecode e t rows h.1,
)

if-Decodes : (b : Bool) (x y : SessionRow) → Decodes x → Decodes y → Decodes (if b then x else y)
if-Decodes true x y hx hy = hx
if-Decodes false x y hx hy = hy

with_sessions-AllDecode :
    (id : ℕ) (f : SessionRow → SessionRow) (rows : List SessionRow)
    → ((row : SessionRow) → Decodes row → Decodes (f row))
    → All Decodes rows
    → All Decodes (update (has_id id) f rows)
with_sessions-AllDecode id f [] k h = tt
with_sessions-AllDecode id f (row ∷ rows) k h = (
  if-Decodes (has_id id row) (f row) row (k row h.0) h.0,
  with_sessions-AllDecode id f rows k h.1,
)

transcript_write-Decodes :
    (path : String) (t : ℕ) (row : SessionRow) → Decodes row → Decodes (transcript_write path t row)
unfolding session_state_from_row
transcript_write-Decodes path t row h = if-Decodes (other_path row.transcript_path path) _ row h h

module _ (conn : Connection) where
  Keeps-get : (id : ℕ) → Keeps (Holds AllDecode) (get_session conn id)
  unfolding get_session
  Keeps-get id = Keeps-bind _ _ (Keeps-fetch AllDecode conn _) (λ row. Keeps-lift _)

  Keeps-events : (es : List RuntimeEvent) → Keeps (Holds AllDecode) (apply_events conn es)
  unfolding apply_events apply_runtime_event
  Keeps-events [] = Keeps-pure _
  Keeps-events (e ∷ es) =
      Keeps-bind _ _
        (Keeps-execute AllDecode conn (with_event e)
          (λ t d h. with_event-AllDecode e t d.sessions h))
        (λ _. Keeps-events es)

  Keeps-write_cursor : (next : ℕ) → Keeps (Holds AllDecode) (write_cursor conn next)
  unfolding write_cursor
  Keeps-write_cursor next = Keeps-execute AllDecode conn (λ t. with_cursor next) (λ t d h. h)

  Keeps-apply :
      (es : List RuntimeEvent) (next : ℕ)
      → Keeps (Holds AllDecode) (apply_runtime_events_and_cursor conn es next)
  unfolding apply_runtime_events_and_cursor
  Keeps-apply es next =
      Keeps-transaction AllDecode conn _
        (Keeps-bind _ _ (Keeps-events es) (λ _. Keeps-write_cursor next))

  Keeps-apply_cursor : (next : ℕ) → Keeps (Holds AllDecode) (apply_cursor conn next)
  unfolding apply_cursor
  Keeps-apply_cursor next = Keeps-transaction AllDecode conn _ (Keeps-write_cursor next)

  Keeps-end :
      (id : ℕ) (write : SessionRow → SessionRow)
      → ((row : SessionRow) → Decodes row → Decodes (write row))
      → Keeps (Holds AllDecode) (end_session conn id write)
  unfolding end_session mark_unread_undeliverable
  Keeps-end id write k = Keeps-transaction AllDecode conn _ (
      Keeps-bind _ _
        (Keeps-execute AllDecode conn (λ t. with_sessions id write)
          (λ t d h. with_sessions-AllDecode id write d.sessions k h))
        (λ _. Keeps-execute AllDecode conn (λ t. with_undeliverable id) (λ t d h. h)))

  Keeps-terminated :
      (id : ℕ) (code : Option ℤ) (t : ℕ)
      → Keeps (Holds AllDecode) (mark_session_terminated conn id code t)
  unfolding mark_session_terminated
  Keeps-terminated id code t =
      Keeps-bind _ _
        (Keeps-end id (terminated_write code t) (λ row h. terminated_write-Decodes code t row))
        (λ _. Keeps-get id)

  Keeps-lost :
      (id : ℕ) (evidence : LostEvidence) (t : ℕ)
      → Keeps (Holds AllDecode) (mark_session_lost conn id evidence t)
  unfolding mark_session_lost
  Keeps-lost id evidence t =
      Keeps-bind _ _
        (Keeps-end id (lost_write evidence t) (λ row h. lost_write-Decodes evidence t row))
        (λ _. Keeps-get id)

  Keeps-transcript :
      (id : ℕ) (path : String) (t : ℕ)
      → Keeps (Holds AllDecode) (record_transcript_path conn id path t)
  unfolding record_transcript_path
  Keeps-transcript id path t =
      Keeps-bind _ _
        (Keeps-execute AllDecode conn (λ n. with_sessions id (transcript_write path t))
          (λ n d h.
            with_sessions-AllDecode id (transcript_write path t) d.sessions
              (transcript_write-Decodes path t) h))
        (λ _. Keeps-get id)

  module _ (runtime : Runtime) where
    Keeps-record_path :
        (id : ℕ) (path : Option String) → Keeps (Holds AllDecode) (record_path conn runtime id path)
    Keeps-record_path id none = Keeps-pure _
    Keeps-record_path id (some path) = search (keeps_rules, Keeps-transcript)

    Keeps-reconcile_state :
        (id : ℕ) (state : LifecycleState)
        → Keeps (Holds AllDecode) (reconcile_state conn runtime id state)
    Keeps-reconcile_state id LifecycleState.forking = Keeps-pure _
    Keeps-reconcile_state id LifecycleState.running = Keeps-pure _
    Keeps-reconcile_state id (LifecycleState.exited exit) = search (keeps_rules, Keeps-terminated)
    Keeps-reconcile_state id (LifecycleState.lost evidence) = search (keeps_rules, Keeps-lost)

    Keeps-reconcile :
        (ls : List Lifecycle) → Keeps (Holds AllDecode) (reconcile_lifecycles conn runtime ls)
    unfolding reconcile_lifecycles
    Keeps-reconcile [] = Keeps-pure _
    Keeps-reconcile (l ∷ ls) = Keeps-bind _ _ (Keeps-record_path l.session_id _) (λ _.
        Keeps-bind _ _ (Keeps-reconcile_state l.session_id l.state)
          (λ found. Keeps-bind _ _ (Keeps-reconcile ls) (λ rest. Keeps-pure _)))

    Keeps-loaded :
        (answer : Option (List Lifecycle)) → Keeps (Holds AllDecode) (loaded conn runtime answer)
    Keeps-loaded none = Keeps-raise _
    Keeps-loaded (some ls) = Keeps-pure _

    Keeps-handle_batch :
        (batch : EventBatch) → Keeps (Holds AllDecode) (handle_batch conn runtime batch)
    unfolding handle_batch
    Keeps-handle_batch (events es next) = search (keeps_rules, Keeps-apply)
    Keeps-handle_batch (cursor_expired oldest) =
        search (keeps_rules, Keeps-loaded, Keeps-reconcile, Keeps-apply_cursor)

    after_poll-AllDecode :
        (cursor : Option ℕ) (s : StoreState) (answer : Option EventBatch)
        → AllDecode s.db
        → AllDecode (after_poll conn runtime cursor s answer).1.db
    after_poll-AllDecode cursor s none h = h
    after_poll-AllDecode cursor s (some batch) h =
        let r = handle_batch conn runtime batch s in
        cursor_after-AllDecode r.0 r.1 ((Keeps-handle_batch batch).at s h)
      where
        cursor_after-AllDecode :
            (r : Result StoreError (BatchOutcome × ℕ)) (t : StoreState)
            → AllDecode t.db
            → AllDecode (cursor_after conn runtime cursor (r, t)).1.db
        cursor_after-AllDecode (ok (outcome, next)) t k = k
        cursor_after-AllDecode (err e) t k = k

    event_rounds-AllDecode :
        (rounds round : ℕ) (cursor : Option ℕ) (s : StoreState)
        → AllDecode s.db
        → AllDecode (event_rounds conn runtime rounds round cursor s).1.db
    unfolding event_rounds
    event_rounds-AllDecode zero round cursor s h = h
    event_rounds-AllDecode (suc rounds) round cursor s h =
        let next = after_poll conn runtime cursor s (runtime.poll_events round cursor) in
        event_rounds-AllDecode rounds (round + 1) next.0 next.1
          (after_poll-AllDecode cursor s (runtime.poll_events round cursor) h)

    looped-AllDecode :
        (rounds : ℕ) (r : Result StoreError (Option ℕ)) (s : StoreState)
        → AllDecode s.db
        → AllDecode (looped conn runtime rounds (r, s)).1.db
    looped-AllDecode rounds (ok cursor) s h = event_rounds-AllDecode rounds 0 cursor s h
    looped-AllDecode rounds (err e) s h = h

    Keeps-event_cursor : Keeps (Holds AllDecode) (event_cursor conn)
    unfolding event_cursor
    Keeps-event_cursor = Keeps-bind _ _ (Keeps-fetch AllDecode conn _) (λ value. Keeps-lift _)

-- If the state columns of every session can be read, they still can after any number of rounds of
-- the event loop: after events, after reconciliations, and after a failure of any statement.
pub run_event_loop-AllDecode :
    (conn : Connection) (runtime : Runtime) (rounds : ℕ) (s : StoreState)
    → AllDecode s.db
    → AllDecode (run_event_loop conn runtime rounds s).1.db
unfolding run_event_loop
run_event_loop-AllDecode conn runtime rounds s h =
    let r = event_cursor conn s in
    looped-AllDecode conn runtime rounds r.0 r.1 ((Keeps-event_cursor conn runtime).at s h)
