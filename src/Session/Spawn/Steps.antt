-- ===== src/Session/Spawn/Steps.antt =====
-- The end of a spawn keeps the intents coherent: the transaction that aborts it, and the one that
-- completes it, whatever statements, calls and commits fail.
use Prim.Native.String.{String}
use littleorgans.Base.{ℕ, ◌≡◌, refl, ◌∙◌, Bool, true, false, List, [], ◌∷◌, Option}
use littleorgans.Base.Exec.{Result, ok, err}
use littleorgans.Base.Action.Keeps.{
  Keeps, Keeps-pure, Keeps-raise, Keeps-gets, Keeps-lifted, Keeps-bind, Keeps-if,
}
use littleorgans.Base.Action.Calls.{Keeps-map_err, Keeps-attempted}
use littleorgans.Base.Action.Ends.{Ends, Done, bind-Done, Keeps-Done}
use littleorgans.Runtime.Lifecycle.{Lifecycle, RuntimeEvent}
use littleorgans.Runtime.Server.{find_row, set_row, has_row}
use littleorgans.Session.Store.{SessionRow, Database, StoreState, database}
use littleorgans.Session.Store.Rules.{
  Holds, Keeps-execute, Keeps-fetch, Keeps-execute_checked, unless_ok, if_ok,
}
use littleorgans.Session.Store.Transactions.{execute_checked-Done, execute-Done}
use littleorgans.Session.Store.Intents.{
  PendingSpawnIntent, StatusUpdate, has_session, with_status_update, without_lifecycle, with_label,
  label_row, with_session, with_updated_lifecycle, insert_session_labels_in,
}
use littleorgans.Session.Spawn.{
  Env, SpawnError, store_error, OnCommitFailure, abort_running, leave_pending, abort_body,
  abort_spawn_intent, abort_running_spawn, complete_body, after_commit_failure, after_commit,
  commit_session, complete_spawn_intent,
}
use littleorgans.Session.Spawn.Rules.{Keeps-call, Keeps-begin_spawn_tx, Keeps-finish_spawn_tx}
use littleorgans.Session.Spawn.Coherent.{
  Coherent, Completing, abort-Coherent, grown-Completing, resolve-Coherent,
}
use littleorgans.Session.Spawn.Drafts.{IdOf-id, running_session-IdOf}

module _ (env : Env) (q : ℕ → Type 0)
    (fair : (n : ℕ) (d : Database) → Coherent q d → Coherent q (env.effect n d)) where
  abbrev C : StoreState → Type 0
  C = Holds (Coherent q)

  pub Keeps-abort_spawn_intent :
      (id : ℕ) (reason : String) → Keeps C (abort_spawn_intent env id reason)
  unfolding abort_spawn_intent
  Keeps-abort_spawn_intent id reason = Keeps-bind _ _ (Keeps-begin_spawn_tx env (Coherent q)) (λ _.
      Keeps-finish_spawn_tx env (Coherent q) (abort_body env id reason) (
        Keeps-Done C _ (
          Keeps-bind _ _
            (Keeps-execute (Coherent q) env.conn
              (λ now. with_status_update id (StatusUpdate.aborted reason) now)
              (λ n d h. abort-Coherent q id reason n d.sessions d.intents h))
            (λ _. Keeps-execute (Coherent q) env.conn (λ now. without_lifecycle id) (λ n d h. h)))))

  pub Keeps-abort_running_spawn :
      (id : ℕ) (reason : String) → Keeps C (abort_running_spawn env id reason)
  unfolding abort_running_spawn
  Keeps-abort_running_spawn id reason =
      Keeps-bind _ _ (Keeps-call env (Coherent q) _ fair) (λ _. Keeps-abort_spawn_intent id reason)

  -- The transaction that completes a spawn.

  Keeps-labels :
      (id intent_id : ℕ) (labels : List (String × String))
      → Keeps (Holds (Completing q intent_id)) (insert_session_labels_in env.conn id labels)
  unfolding insert_session_labels_in
  Keeps-labels id intent_id [] = Keeps-pure _
  Keeps-labels id intent_id ((key, value) ∷ labels) =
      Keeps-bind _ _
        (Keeps-execute (Completing q intent_id) env.conn
          (λ now. with_label (label_row id key value)) (λ n d h. h))
        (λ _. Keeps-labels id intent_id labels)

  with_session-Completing :
      (row : SessionRow) (d d' : Database)
      → Coherent q d
      → with_session row d ≡ ok d'
      → Completing q row.id d'
  with_session-Completing row d d' h e =
      rw
        (← (unless_ok (has_session row.id d.sessions) database
          (record d { sessions = row ∷ d.sessions }) d' e).1)
        (grown-Completing q row row.id d refl h)

  with_updated_lifecycle-Completing :
      (id : ℕ) (l : Lifecycle) (d d' : Database)
      → Completing q id d
      → with_updated_lifecycle l d ≡ ok d'
      → Completing q id d'
  with_updated_lifecycle-Completing id l d d' h e =
      rw
        (← (if_ok (has_row (find_row l.session_id d.lifecycles)) database
          (record d { lifecycles = set_row l d.lifecycles }) d' e).1)
        h

  complete_body-Done :
      (intent : PendingSpawnIntent) (l : Lifecycle) (row : SessionRow)
      → row.id ≡ intent.session_id
      → Ends C (complete_body env intent l row) (Done C)
  complete_body-Done intent l row same =
      bind-Done _ _ (Holds (Completing q intent.session_id)) _
        (bind-Done _ _ (Holds (Completing q intent.session_id)) _
          (execute_checked-Done env.conn (Coherent q) (Completing q intent.session_id)
            (with_session row) (λ d d' h e. rw (← same) (with_session-Completing row d d' h e)))
          (λ _.
            Keeps-Done (Holds (Completing q intent.session_id)) _
              (Keeps-labels row.id intent.session_id intent.session_draft.labels)))
        (λ _.
          bind-Done _ _ (Holds (Completing q intent.session_id)) _
            (Keeps-Done (Holds (Completing q intent.session_id)) _ (
              Keeps-execute_checked (Completing q intent.session_id) env.conn
                (with_updated_lifecycle l) (with_updated_lifecycle-Completing intent.session_id l)))
            (λ _.
              execute-Done env.conn (Completing q intent.session_id) (Coherent q)
                (λ now. with_status_update intent.session_id StatusUpdate.resolved now)
                (λ n d h. resolve-Coherent q intent.session_id n d.sessions d.intents h.0 h.1)))

  Keeps-after_commit_failure :
      (failure : OnCommitFailure) (id : ℕ) → Keeps C (after_commit_failure env failure id)
  Keeps-after_commit_failure leave_pending id = Keeps-pure _
  Keeps-after_commit_failure abort_running id =
      Keeps-bind _ _ (Keeps-attempted C _ (Keeps-abort_running_spawn id _)) (λ r. Keeps-pure _)

  Keeps-after_commit :
      (failure : OnCommitFailure) (intent : PendingSpawnIntent) (event : RuntimeEvent)
      (row : SessionRow) (committed : Result SpawnError (Unit {0}))
      → Keeps C (after_commit env failure intent event row committed)
  Keeps-after_commit failure intent event row (ok _) =
      Keeps-bind _ _
        (Keeps-bind _ _ (Keeps-call env (Coherent q) _ fair)
          (λ b. Keeps-if b _ _ (Keeps-pure _) (Keeps-raise _)))
        (λ _. Keeps-pure _)
  Keeps-after_commit failure intent event row (err e) =
      Keeps-bind _ _ (Keeps-after_commit_failure failure intent.session_id) (λ _. Keeps-raise _)

  Keeps-commit_session :
      (failure : OnCommitFailure) (intent : PendingSpawnIntent) (l : Lifecycle)
      (event : RuntimeEvent) (row : SessionRow)
      → row.id ≡ intent.session_id
      → (exists : Bool) → Keeps C (commit_session env failure intent l event row exists)
  Keeps-commit_session failure intent l event row same false =
      Keeps-bind _ _ (Keeps-abort_running_spawn intent.session_id _) (λ _. Keeps-raise _)
  Keeps-commit_session failure intent l event row same true =
      Keeps-bind _ _ (Keeps-begin_spawn_tx env (Coherent q)) (λ _.
        Keeps-bind _ _
          (Keeps-attempted C _ (
            Keeps-finish_spawn_tx env (Coherent q) (complete_body env intent l row)
              (complete_body-Done intent l row same)))
          (Keeps-after_commit failure intent event row))

  pub Keeps-complete_spawn_intent :
      (intent : PendingSpawnIntent) (l : Lifecycle) (event : RuntimeEvent) (path : Option String)
      (failure : OnCommitFailure)
      → intent.session_draft.id ≡ intent.session_id
      → Keeps C (complete_spawn_intent env intent l event path failure)
  unfolding complete_spawn_intent
  Keeps-complete_spawn_intent intent l event path failure same =
      Keeps-bind _ _ (Keeps-gets _) (λ now. Keeps-lifted _ _ (λ row e.
        Keeps-bind _ _ (Keeps-map_err store_error _ _ (Keeps-fetch (Coherent q) env.conn _)) (
          Keeps-commit_session failure intent l event row (
            IdOf-id intent.session_draft.id _ row e (
              running_session-IdOf env.address_text env.in_range intent.session_draft l path now
                l.state)
            ∙ same))))
