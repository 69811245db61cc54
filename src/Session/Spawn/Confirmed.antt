-- ===== src/Session/Spawn/Confirmed.antt =====
-- A spawn that returns its session has written it and resolved its intent.
use Prim.Native.String.{String}
use littleorgans.Base.{ℕ, ◌≡◌, refl, ◌∙◌, Bool, true, false, List, [], ◌∷◌, arith, Option}
use littleorgans.Base.Exec.{Result, ok, err}
use littleorgans.Base.Action.Keeps.{
  Keeps, Keeps-pure, Keeps-raise, Keeps-gets, Keeps-lift, Keeps-bind, Keeps-if,
}
use littleorgans.Base.Action.Calls.{map_err-Done, attempted-Returns, Keeps-map_err}
use littleorgans.Base.Action.Ends.{
  Ends, Ends-raise, Ends-returned, Done, bind-Done, Keeps-Done, lifted-Done,
}
use littleorgans.Runtime.Lifecycle.{Lifecycle, RuntimeEvent}
use littleorgans.Runtime.Server.Spawn.{SpawnRequest}
use littleorgans.Session.Store.{SessionRow, SessionDraft, Database, Store, StoreState, database}
use littleorgans.Session.Store.Rules.{
  Holds, Keeps-execute, Keeps-execute_checked, unless_ok, if_ok, Keeps-fetch,
}
use littleorgans.Session.Store.Transactions.{execute_checked-Done, execute-Done, committing-Done}
use littleorgans.Session.Store.Intents.{
  PendingSpawnIntent, new_pending, StatusUpdate, has_session, has_intent, with_pending_intent,
  intent_row, with_status_update, with_label, label_row, with_session, with_lifecycle,
  with_updated_lifecycle, insert_session_labels_in,
}
use littleorgans.Runtime.Server.{find_row, set_row, row_of, has_row}
use littleorgans.Session.Spawn.{
  Env, SpawnedProcess, SpawnError, store_error, abort_running, finish_spawn_tx, begin_body,
  forking_of, authorized_body, begin_spawn_intent, complete_body, after_commit, commit_session,
  complete_spawn_intent, after_spawn, spawn_intent, spawn,
}
use littleorgans.Session.Spawn.Written.{Begun, Written, Confirmed, resolve-Confirmed}
use littleorgans.Session.Spawn.Rules.{Keeps-call, Keeps-begin_spawn_tx}
use littleorgans.Session.Spawn.Faithful.{Faithful}
use littleorgans.Session.Spawn.Drafts.{IdOf-id, running_session-IdOf}

err_not_ok : (e : SpawnError) (a : SessionRow) → ¬ (err e ≡ ok a)
err_not_ok e a h = cc

succeeded :
    (r : Result SpawnError SessionRow) (t : StoreState) (a : SessionRow) (Q : StoreState → Type 0)
    → r ≡ ok a
    → Done Q r t
    → Q t
succeeded (ok b) t a Q e h = h
succeeded (err f) t a Q e h = absurd (err_not_ok f a e)

module _ (id : ℕ) (env : Env) (faithful : Faithful env) where
  finish-Done :
      (D D' : Database → Type 0) (body : Store (Unit {0}))
      → Ends (Holds D) body (Done (Holds D'))
      → Ends (Holds D) (finish_spawn_tx env body) (Done (Holds D'))
  unfolding finish_spawn_tx
  finish-Done D D' body k = map_err-Done store_error _ _ _ (committing-Done env.conn D D' body k)

  Begun-effect : (n : ℕ) (d : Database) → Begun id d → (Begun id) (env.effect n d)
  Begun-effect n d h = rw (faithful.same_intents n d) h

  Confirmed-effect : (n : ℕ) (d : Database) → Confirmed id d → (Confirmed id) (env.effect n d)
  Confirmed-effect n d h = rw (faithful.same_intents n d, faithful.same_sessions n d id) h

  anything : {A : Type 0} (r : Result SpawnError A) (t : StoreState) → Done (λ s. Unit {0}) r t
  anything (ok a) t = tt
  anything (err e) t = tt

  -- The first transaction.

  with_pending_intent-Begun :
      (intent : PendingSpawnIntent) (d d' : Database)
      → intent.session_id ≡ id
      → with_pending_intent intent d ≡ ok d'
      → Begun id d'
  with_pending_intent-Begun intent d d' same e =
      rw
        (← (unless_ok (has_intent intent.session_id d.intents) database
          (record d { intents = intent_row intent ∷ d.intents }) d' e).1)
        (rw same (ground arith))

  with_lifecycle-Begun :
      (l : Lifecycle) (d d' : Database) → Begun id d → with_lifecycle l d ≡ ok d' → Begun id d'
  with_lifecycle-Begun l d d' h e =
      rw
        (← (unless_ok (has_row (find_row l.session_id d.lifecycles)) database
          (record d { lifecycles = row_of l ∷ d.lifecycles }) d' e).1)
        h

  authorized_body-Done :
      (intent : PendingSpawnIntent)
      → intent.session_id ≡ id
      → (b : Bool) → Ends (λ s. Unit {0}) (authorized_body env intent b) (Done (Holds (Begun id)))
  authorized_body-Done intent same true =
      finish-Done (λ d. Unit) (Begun id) (begin_body env intent)
        (bind-Done _ _ (Holds (Begun id)) _
          (execute_checked-Done env.conn (λ d. Unit) (Begun id) (with_pending_intent intent)
            (λ d d' h e. with_pending_intent-Begun intent d d' same e))
          (λ _. Keeps-Done (Holds (Begun id)) _ (
            Keeps-execute_checked (Begun id) env.conn (with_lifecycle (forking_of env intent))
              (with_lifecycle-Begun (forking_of env intent)))))
  authorized_body-Done intent same false =
      bind-Done _ _ (λ s. Unit) _ (record { at = λ s h. anything _ _ })
        (λ _. Ends-raise _ _ (λ s h. tt))

  begin-Done :
      (intent : PendingSpawnIntent)
      → intent.session_id ≡ id
      → Ends (λ s. Unit {0}) (begin_spawn_intent env intent) (Done (Holds (Begun id)))
  unfolding begin_spawn_intent
  begin-Done intent same =
      bind-Done _ _ (λ s. Unit) _ (record { at = λ s h. anything _ _ })
        (λ _.
          bind-Done _ _ (λ s. Unit) _ (record { at = λ s h. anything _ _ })
            (authorized_body-Done intent same))

  -- The second transaction.

  Keeps-labels :
      (session_id : ℕ) (labels : List (String × String))
      → Keeps (Holds (Written id)) (insert_session_labels_in env.conn session_id labels)
  unfolding insert_session_labels_in
  Keeps-labels session_id [] = Keeps-pure _
  Keeps-labels session_id ((key, value) ∷ labels) =
      Keeps-bind _ _
        (Keeps-execute (Written id) env.conn (λ now. with_label (label_row session_id key value))
          (λ n d h. h))
        (λ _. Keeps-labels session_id labels)

  with_session-Written :
      (row : SessionRow) (d d' : Database)
      → row.id ≡ id
      → Begun id d
      → with_session row d ≡ ok d'
      → Written id d'
  with_session-Written row d d' same h e =
      rw
        (← (unless_ok (has_session row.id d.sessions) database
          (record d { sessions = row ∷ d.sessions }) d' e).1)
        (h, rw same (ground arith))

  with_updated_lifecycle-Written :
      (l : Lifecycle) (d d' : Database)
      → Written id d
      → with_updated_lifecycle l d ≡ ok d'
      → Written id d'
  with_updated_lifecycle-Written l d d' h e =
      rw
        (← (if_ok (has_row (find_row l.session_id d.lifecycles)) database
          (record d { lifecycles = set_row l d.lifecycles }) d' e).1)
        h

  complete_body-Done :
      (intent : PendingSpawnIntent) (l : Lifecycle) (row : SessionRow)
      → row.id ≡ id
      → intent.session_id ≡ id
      → Ends (Holds (Begun id)) (complete_body env intent l row) (Done (Holds (Confirmed id)))
  complete_body-Done intent l row same same' =
      bind-Done _ _ (Holds (Written id)) _
        (bind-Done _ _ (Holds (Written id)) _
          (execute_checked-Done env.conn (Begun id) (Written id) (with_session row)
            (λ d d'. with_session-Written row d d' same))
          (λ _.
            Keeps-Done (Holds (Written id)) _ (Keeps-labels row.id intent.session_draft.labels)))
        (λ _.
          bind-Done _ _ (Holds (Written id)) _
            (Keeps-Done (Holds (Written id)) _ (
              Keeps-execute_checked (Written id) env.conn (with_updated_lifecycle l)
                (with_updated_lifecycle-Written l)))
            (λ _.
              execute-Done env.conn (Written id) (Confirmed id)
                (λ now. with_status_update intent.session_id StatusUpdate.resolved now)
                (λ n d h. rw same' (resolve-Confirmed id n d h))))

  after_commit-Done :
      (intent : PendingSpawnIntent) (event : RuntimeEvent) (row : SessionRow)
      (committed : Result SpawnError (Unit {0}))
      → Ends
          (Done (Holds (Confirmed id)) committed)
          (after_commit env abort_running intent event row committed)
          (Done (Holds (Confirmed id)))
  after_commit-Done intent event row (ok _) = Keeps-Done (Holds (Confirmed id)) _ (
      Keeps-bind _ _
        (Keeps-bind _ _ (Keeps-call env (Confirmed id) _ Confirmed-effect)
          (λ b. Keeps-if b _ _ (Keeps-pure _) (Keeps-raise _)))
        (λ _. Keeps-pure _))
  after_commit-Done intent event row (err e) =
      bind-Done _ _ (λ s. Unit) _ (record { at = λ s h. anything _ _ })
        (λ _. Ends-raise _ _ (λ s h. tt))

  commit_session-Done :
      (intent : PendingSpawnIntent) (l : Lifecycle) (event : RuntimeEvent) (row : SessionRow)
      → row.id ≡ id
      → intent.session_id ≡ id
      → (exists : Bool)
      → Ends
          (Holds (Begun id))
          (commit_session env abort_running intent l event row exists)
          (Done (Holds (Confirmed id)))
  commit_session-Done intent l event row same same' false =
      bind-Done _ _ (λ s. Unit) _ (record { at = λ s h. anything _ _ })
        (λ _. Ends-raise _ _ (λ s h. tt))
  commit_session-Done intent l event row same same' true =
      bind-Done _ _ (Holds (Begun id)) _
        (Keeps-Done (Holds (Begun id)) _ (Keeps-begin_spawn_tx env (Begun id)))
        (λ _.
          Ends-returned _ _ _ _
            (attempted-Returns _ _ _ (
              finish-Done (Begun id) (Confirmed id) _ (complete_body-Done intent l row same same')))
            (after_commit-Done intent event row))

  complete-Done :
      (intent : PendingSpawnIntent) (l : Lifecycle) (event : RuntimeEvent) (path : Option String)
      → intent.session_draft.id ≡ id
      → intent.session_id ≡ id
      → Ends
          (Holds (Begun id))
          (complete_spawn_intent env intent l event path abort_running)
          (Done (Holds (Confirmed id)))
  unfolding complete_spawn_intent
  complete-Done intent l event path same same' =
      bind-Done _ _ (Holds (Begun id)) _ (Keeps-Done (Holds (Begun id)) _ (Keeps-gets _)) (λ now.
        lifted-Done _ _ _ (λ row e.
          bind-Done _ _ (Holds (Begun id)) _
            (Keeps-Done (Holds (Begun id)) _
              (Keeps-map_err store_error _ _ (Keeps-fetch (Begun id) env.conn _)))
            (commit_session-Done intent l event row
              (IdOf-id intent.session_draft.id _ row e (
                  running_session-IdOf env.address_text env.in_range intent.session_draft l path now
                    l.state)
                ∙ same)
              same')))

  after_spawn-Done :
      (intent : PendingSpawnIntent) (spawned : Result String SpawnedProcess)
      → intent.session_draft.id ≡ id
      → intent.session_id ≡ id
      → Ends (Holds (Begun id)) (after_spawn env intent spawned) (Done (Holds (Confirmed id)))
  after_spawn-Done intent (err failure) same same' =
      bind-Done _ _ (λ s. Unit) _ (record { at = λ s h. anything _ _ })
        (λ _. Ends-raise _ _ (λ s h. tt))
  after_spawn-Done intent (ok spawned) same same' =
      bind-Done _ _ (Holds (Begun id)) _ (Keeps-Done (Holds (Begun id)) _ (Keeps-gets _)) (λ now.
        bind-Done _ _ (Holds (Begun id)) _ (Keeps-Done (Holds (Begun id)) _ (Keeps-lift _))
          (λ event. complete-Done intent spawned.lifecycle event spawned.stdout_path same same'))

  spawn_intent-Done :
      (intent : PendingSpawnIntent)
      → intent.session_draft.id ≡ id
      → intent.session_id ≡ id
      → Ends (λ s. Unit {0}) (spawn_intent env intent) (Done (Holds (Confirmed id)))
  spawn_intent-Done intent same same' =
      bind-Done _ _ (Holds (Begun id)) _ (begin-Done intent same') (λ _.
        bind-Done _ _ (Holds (Begun id)) _
          (Keeps-Done (Holds (Begun id)) _ (Keeps-call env (Begun id) _ Begun-effect))
          (λ spawned. after_spawn-Done intent spawned same same'))

-- A spawn that returns its session has that session's row in the table, and its intent is there and
-- is resolved, whatever else fails or is not heard.
pub spawn-Confirmed :
    (env : Env) (operation_id : ℕ) (request : SpawnRequest) (draft : SessionDraft) (s : StoreState)
    (session : SessionRow)
    → Faithful env
    → (spawn env operation_id request draft s).0 ≡ ok session
    → Confirmed draft.id (spawn env operation_id request draft s).1.db
unfolding spawn
spawn-Confirmed env operation_id request draft s session faithful e =
    let r = spawn env operation_id request draft s in
    succeeded r.0 r.1 session (Holds (Confirmed draft.id)) e (
      (bind-Done {P = λ s. Unit {0}} _ _ (λ s. Unit {0}) _
          (record { at = λ s h. anything draft.id env faithful _ _ })
          (λ now.
            spawn_intent-Done draft.id env faithful (new_pending operation_id request draft now)
              refl refl)).at
        s (tt {0}))
