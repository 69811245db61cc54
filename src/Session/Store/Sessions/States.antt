-- ===== src/Session/Store/Sessions/States.antt =====
-- The columns of a session's state, and what the end of a session does to its mail.
use littleorgans.Base.{
  ℕ, suc, ◌+◌, ◌≡◌, refl, ap, ◌⊎◌, inl, inr, Bool-cases, false, List, [], ◌∷◌, if◌then◌else◌, arith,
}
use littleorgans.Base.Exec.{Result, ok, err}
use littleorgans.Base.Action.{◌>>◌}
use littleorgans.Base.Action.Ends.{Ends, Ends-bind}
use littleorgans.Runtime.Lifecycle.{
  shim_died_before_report, pid_not_alive, pid_reuse_detected, unknown,
}
use littleorgans.Session.Store.{
  SessionRow, DeliveryRow, Database, Connection, StoreState, StoreError, execute, update,
}
use littleorgans.Session.Store.Rules.{Ends-execute, transaction-cases}
use littleorgans.Session.Store.Events.{is_active_row}
use littleorgans.Session.Store.Sessions.{
  SessionState, is_active, spawning, running, terminated, lost, sql_name, session_lost_evidence,
  session_state_from_row, is_unread_of, undeliverable_row, with_undeliverable, with_sessions,
  end_session, mark_unread_undeliverable,
}

abbrev pub state_row : SessionRow → SessionState → SessionRow
state_row row state = record row {
  state = sql_name state;
  lost_evidence = session_lost_evidence state;
}

-- The columns that `insert_session` writes for a state read back as that state.
pub session_state_from_row-sql_name :
    (row : SessionRow) (state : SessionState)
    → session_state_from_row (state_row row state) ≡ ok state
unfolding session_state_from_row sql_name session_lost_evidence
session_state_from_row-sql_name row spawning = refl
session_state_from_row-sql_name row running = refl
session_state_from_row-sql_name row terminated = refl
session_state_from_row-sql_name row (lost shim_died_before_report) = refl
session_state_from_row-sql_name row (lost pid_not_alive) = refl
session_state_from_row-sql_name row (lost pid_reuse_detected) = refl
session_state_from_row-sql_name row (lost unknown) = refl

-- The rows that a runtime event may write are those whose state is active: for every state, the test
-- `state IN ('SPAWNING', 'RUNNING')` on its column is `is_active`.
pub is_active_row-sql_name :
    (row : SessionRow) (state : SessionState)
    → is_active_row (state_row row state) ≡ is_active state
unfolding sql_name
is_active_row-sql_name row spawning = refl
is_active_row-sql_name row running = refl
is_active_row-sql_name row terminated = refl
is_active_row-sql_name row (lost evidence) = refl

-- `SELECT COUNT(*)` of the unread deliveries of a session.
abbrev pub unread : ℕ → List DeliveryRow → ℕ
unread id [] = 0
unread id (row ∷ rows) = if is_unread_of id row then suc (unread id rows) else unread id rows

module _ (id : ℕ) where
  is_unread-undeliverable :
      (row : DeliveryRow)
      → is_unread_of id (if is_unread_of id row then undeliverable_row row else row) ≡ false
  is_unread-undeliverable row = elim (Bool-cases (is_unread_of id row)) [
    | inl h ↦ rw h (ground arith)
    | inr h ↦ rw h h
  ]

  unread-update :
      (rows : List DeliveryRow) → unread id (update (is_unread_of id) undeliverable_row rows) ≡ 0
  unread-update [] = refl
  unread-update (row ∷ rows) = rw (is_unread-undeliverable row, unread-update rows) refl

  abbrev pub ended : (SessionRow → SessionRow) → Database → Database
  ended write d = with_undeliverable id (with_sessions id write d)

  -- What the end of a session leaves, by its result.
  abbrev pub Ended :
      (SessionRow → SessionRow) → Database → Result StoreError (Unit {0}) → Database → Type 0
  Ended write before (ok _) d = (d ≡ ended write before) × (unread id d.deliveries ≡ 0)
  Ended write before (err e) d =
      (d ≡ before) ⊎ ((d ≡ ended write before) × (unread id d.deliveries ≡ 0))

  module _ (conn : Connection) (write : SessionRow → SessionRow) where
    abbrev Leaves : Database → Result StoreError (Unit {0}) → StoreState → Type 0
    Leaves d (ok _) s = s.db ≡ d
    Leaves d (err e) s = Unit

    Ends-end_body :
        (d : Database)
        → Ends
            (λ s. s.db ≡ d)
            (execute conn (λ now. with_sessions id write) >> mark_unread_undeliverable conn id)
            (Leaves (ended write d))
    unfolding mark_unread_undeliverable
    Ends-end_body d =
        Ends-bind _ _ (Leaves (with_sessions id write d)) _
          (Ends-execute conn (λ now. with_sessions id write) _
            (λ s h. ap (with_sessions id write) h) (λ e t. tt))
          (λ _.
            Ends-execute conn (λ now. with_undeliverable id) _ (λ s h. ap (with_undeliverable id) h)
              (λ e t. tt))
          (λ e t h. tt)

    no_mail_after_end :
        (before d : Database)
        → d ≡ ended write before
        → (d ≡ ended write before) × (unread id d.deliveries ≡ 0)
    no_mail_after_end before d h = (h, rw h (unread-update before.deliveries))

    -- The end of a session and the end of its unread mail are written together: after a success the
    -- session is written and has no unread mail, and after a failure nothing is, or both where only
    -- the answer to the commit was lost.
    pub end_session-Ended :
        (s : StoreState)
        → Ended write s.db (end_session conn id write s).0 (end_session conn id write s).1.db
    unfolding end_session
    end_session-Ended s =
        transaction-cases conn (Ended write s.db) _ s (Leaves (ended write s.db))
          ((Ends-end_body s.db).at (record s { clock = s.clock + 1 }) refl)
          (λ a t h. no_mail_after_end s.db t.db h) (λ a t h e. inr (no_mail_after_end s.db t.db h))
          (λ e. inl refl)
