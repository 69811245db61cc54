-- ===== src/Session/Feed/Follows.antt =====
-- The sessions follow the log of the runtime daemon, whatever fails on the way.
use littleorgans.Base.{
  ℕ, false, zero, suc, ◌+◌, ◌≤◌, ◌≡◌, refl, inl, inr, Option, none, some, List, ◌++◌, arith,
  All-split, Bool-cases, leb, leb→le,
}
use littleorgans.Base.Exec.{Result, ok, err}
use littleorgans.Base.Action.{continue, ◌>>=◌, pure}
use littleorgans.Runtime.Lifecycle.{RuntimeEvent}
use littleorgans.Session.Store.{SessionRow, Database, Connection, StoreState, StoreError}
use littleorgans.Session.Store.Events.{apply_runtime_events_and_cursor}
use littleorgans.Session.Store.Events.Rows.{DistinctEvents}
use littleorgans.Session.Store.Events.Replay.{
  Replay, Idle, IdleAt, Replay-append, Replay-split, Replay-Idle, Replay-nothing, Replay-replayed,
}
use littleorgans.Session.Store.Events.Once.{
  applied, Persisted, apply_runtime_events_and_cursor-Persisted,
}
use littleorgans.Session.Feed.{
  EventBatch, events, cursor_expired, Runtime, advanced, handle_batch, cursor_after, after_poll,
  event_rounds,
}
use littleorgans.Runtime.EventLog.{unwrap_or_default}

-- The events of a log by their sequence numbers: those after `a` up to `b`.
pub record EventSource : Type 0 where
  pub span : ℕ → ℕ → List RuntimeEvent
  pub span-append : (a b c : ℕ) → a ≤ b → b ≤ c → span a c ≡ span a b ++ span b c
  pub distinct : (n : ℕ) → DistinctEvents (span 0 n)

le_of_leb : (a b : ℕ) → leb a b ≡ false → b ≤ a
le_of_leb a b h = ground arith

first_are_quiet :
    (xs ys : List RuntimeEvent) (rows : List SessionRow) → Idle (xs ++ ys) rows → Idle xs rows
first_are_quiet xs ys rows h = (All-split (λ e. IdleAt e rows) xs ys h).0

rest_are_quiet :
    (xs ys : List RuntimeEvent) (rows : List SessionRow) → Idle (xs ++ ys) rows → Idle ys rows
rest_are_quiet xs ys rows h = (All-split (λ e. IdleAt e rows) xs ys h).1

module _ (source : EventSource) where
  -- A page of the log after a cursor. No page of an expired cursor is one.
  abbrev pub IsPage : ℕ → EventBatch → Type 0
  IsPage c (events es next) = (c ≤ next) × (es ≡ source.span c next)
  IsPage c (cursor_expired oldest) = ⊥

  -- The sessions are those that the events up to some number lead to, one that is not below `c`.
  abbrev pub Follows : List SessionRow → ℕ → List SessionRow → Type 0
  Follows initial c rows = (m : ℕ) × (c ≤ m) × Replay (source.span 0 m) initial rows

  -- The events after `c` that the sessions follow have nothing more to write.
  quiet_after :
      (initial rows : List SessionRow) (c m : ℕ)
      → c ≤ m
      → Replay (source.span 0 m) initial rows
      → Idle (source.span c m) rows
  quiet_after initial rows c m le h =
      let idle = Replay-Idle (source.span 0 m) initial rows h (source.distinct m) in
      rest_are_quiet (source.span 0 c) (source.span c m) rows
        (rw (← source.span-append 0 c m (omega arith) le) idle)

  -- A page whose first events the sessions already follow.
  module _ (initial rows rows' : List SessionRow) (c m next : ℕ)
      (h : Replay (source.span 0 m) initial rows) (r : Replay (source.span c next) rows rows') where
    page_below : c ≤ next → next ≤ m → rows' ≡ rows
    page_below up below = Replay-nothing (source.span c next) rows rows' r (
        first_are_quiet (source.span c next) (source.span next m) rows (
          rw (← source.span-append c next m up below)
            (quiet_after initial rows c m (omega arith) h)))

    page_above : c ≤ m → m ≤ next → Replay (source.span 0 next) initial rows'
    page_above le above =
        let (b, old, new) =
          Replay-split (source.span c m) (source.span m next) rows rows'
            (rw (source.span-append c m next le above) at r) in
        let same =
          Replay-nothing (source.span c m) rows b old (quiet_after initial rows c m le h) in
        rw (source.span-append 0 m next (omega arith) above) (
          Replay-append (source.span 0 m) (source.span m next) initial rows rows' h
            (rw same at new))

  page-Follows :
      (initial rows rows' : List SessionRow) (c next : ℕ)
      → Follows initial c rows
      → c ≤ next
      → Replay (source.span c next) rows rows'
      → Follows initial next rows'
  page-Follows initial rows rows' c next (m, le, h) up r = elim (Bool-cases (leb next m)) [
    | inl below ↦ (
      m,
      leb→le next m below,
      rw (page_below initial rows rows' c m next h r up (leb→le next m below)) h,
    )
    | inr above ↦
        (next, omega arith, page_above initial rows rows' c m next h r le (le_of_leb next m above))
  ]

  Follows-weaken :
      (initial rows : List SessionRow) (c next : ℕ)
      → c ≤ next
      → Follows initial next rows
      → Follows initial c rows
  Follows-weaken initial rows c next up (m, le, h) = (m, omega arith, h)

  module _ (conn : Connection) (runtime : Runtime) (initial : List SessionRow) where
    abbrev Ready : Option ℕ × StoreState → Type 0
    Ready (cursor, s) = Follows initial (unwrap_or_default cursor) s.db.sessions

    applied-Follows :
        (c next n : ℕ) (es : List RuntimeEvent) (before d : Database)
        → Follows initial c before.sessions
        → IsPage c (events es next)
        → d ≡ applied conn.utc_now n es next before
        → Follows initial next d.sessions
    unfolding applied
    applied-Follows c next n es before d h (up, same) e =
        page-Follows initial before.sessions d.sessions c next h up
          (rw (← same, e) (Replay-replayed conn.utc_now n es before.sessions))

    -- A page is applied once at most, and the cursor moves only if it was.
    Persisted-Ready :
        (cursor : Option ℕ) (es : List RuntimeEvent) (next : ℕ) (s t : StoreState)
        (r : Result StoreError (Unit {0}))
        → Ready (cursor, s)
        → IsPage (unwrap_or_default cursor) (events es next)
        → Persisted conn.utc_now es next s.db r t.db
        → Ready (cursor_after conn runtime cursor (continue r (λ _. pure (advanced, next)) t))
    unfolding ◌>>=◌
    Persisted-Ready cursor es next s t (ok _) ready page (n, e) =
        applied-Follows (unwrap_or_default cursor) next n es s.db t.db ready page e
    Persisted-Ready cursor es next s t (err x) ready page (inl e) = rw e ready
    Persisted-Ready cursor es next s t (err x) ready page (inr (n, e)) =
        Follows-weaken initial t.db.sessions (unwrap_or_default cursor) next page.0
          (applied-Follows (unwrap_or_default cursor) next n es s.db t.db ready page e)

    handle_batch-Ready :
        (cursor : Option ℕ) (batch : EventBatch) (s : StoreState)
        → Ready (cursor, s)
        → IsPage (unwrap_or_default cursor) batch
        → Ready (cursor_after conn runtime cursor (handle_batch conn runtime batch s))
    unfolding handle_batch ◌>>=◌
    handle_batch-Ready cursor (events es next) s ready page =
        let r = apply_runtime_events_and_cursor conn es next s in
        Persisted-Ready cursor es next s r.1 r.0 ready page
          (apply_runtime_events_and_cursor-Persisted conn es next s)
    handle_batch-Ready cursor (cursor_expired oldest) s ready page = elim page [ ]

    -- The runtime answers with pages of the log, or fails.
    abbrev pub ServesPages : Type 0
    ServesPages =
        (round : ℕ) (cursor : Option ℕ) (batch : EventBatch)
        → runtime.poll_events round cursor ≡ some batch
        → IsPage (unwrap_or_default cursor) batch

    module _ (pages : ServesPages) where
      after_poll-Ready :
          (round : ℕ) (cursor : Option ℕ) (s : StoreState) (answer : Option EventBatch)
          → runtime.poll_events round cursor ≡ answer
          → Ready (cursor, s)
          → Ready (after_poll conn runtime cursor s answer)
      after_poll-Ready round cursor s none e ready = ready
      after_poll-Ready round cursor s (some batch) e ready =
          handle_batch-Ready cursor batch s ready (pages round cursor batch e)

      event_rounds-Ready :
          (rounds round : ℕ) (cursor : Option ℕ) (s : StoreState)
          → Ready (cursor, s)
          → Ready (event_rounds conn runtime rounds round cursor s)
      unfolding event_rounds
      event_rounds-Ready zero round cursor s ready = ready
      event_rounds-Ready (suc rounds) round cursor s ready =
          let next = after_poll conn runtime cursor s (runtime.poll_events round cursor) in
          event_rounds-Ready rounds (round + 1) next.0 next.1
            (after_poll-Ready round cursor s (runtime.poll_events round cursor) refl ready)

-- The event loop refines a replay of the runtime's log. If every answer to a poll is a page of the
-- log and the sessions begin as the events up to the cursor or further lead to, then after any
-- number of rounds, with any failures of polls, statements and commits, they are as a prefix of the
-- log leads to from the same start, each event counted once, a prefix that reaches the loop's cursor.
pub event_rounds-Follows :
    (source : EventSource) (conn : Connection) (runtime : Runtime) (initial : List SessionRow)
    → ServesPages source conn runtime initial
    → (rounds round : ℕ) (cursor : Option ℕ) (s : StoreState)
    → Follows source initial (unwrap_or_default cursor) s.db.sessions
    → let end = event_rounds conn runtime rounds round cursor s in
      Follows source initial (unwrap_or_default end.0) end.1.db.sessions
event_rounds-Follows source conn runtime initial pages rounds round cursor s ready =
    event_rounds-Ready source conn runtime initial pages rounds round cursor s ready
