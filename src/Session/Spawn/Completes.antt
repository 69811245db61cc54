-- ===== src/Session/Spawn/Completes.antt =====
-- An intent whose process is running is completed if the database and the runtime answer.
use Prim.Native.String.{String}
use littleorgans.Base.{ℕ, ◌≡◌, refl, Bool, true, false, List, [], ◌∷◌, Option, none, some}
use littleorgans.Base.Exec.{Result, ok, err}
use littleorgans.Base.Action.Keeps.{Keeps-pure, Keeps-raise, Keeps-bind, Keeps-if}
use littleorgans.Base.Action.Calls.{map_err-Returns, attempted-Returns}
use littleorgans.Base.Action.Ends.{
  Ends, Ends-kept, Ends-bind, Ends-returned, Ends-pure, Ends-raise, Ends-gets,
}
use littleorgans.Runtime.Lifecycle.{Lifecycle, LifecycleState, RuntimeEvent}
use littleorgans.Runtime.Server.{find_row, set_row, has_row}
use littleorgans.Session.Store.{SessionRow, IntentRow, Database, StoreState}
use littleorgans.Session.Store.Rules.{Holds}
use littleorgans.Session.Store.Sure.{
  Sure, execute-Sure, execute_checked-Sure, fetch-Returns, lifted-Ends,
}
use littleorgans.Session.Store.Intents.{
  pending_of, StatusUpdate, running_session, row_of_draft, with_status_update, with_label,
  label_row, with_session, with_updated_lifecycle, insert_session_labels_in, value_or,
}
use littleorgans.Session.Spawn.{
  Env, SpawnError, store_error, leave_pending, in_context, complete_body, after_commit,
  commit_session, complete_spawn_intent, complete_pending, running_event_from_lifecycle,
}
use littleorgans.Session.Spawn.Coherent.{Completing, grown-Completing, resolve-Coherent}
use littleorgans.Session.Spawn.Rules.{Keeps-call}
use littleorgans.Session.Spawn.Left.{Of, done-Coherent}
use littleorgans.Session.Spawn.Faithful.{Faithful, Answering, Faithful-Coherent}
use littleorgans.Session.Spawn.Aborts.{Todo, Rest, begin-Sure, finish-Sure, abort_running-Sure}

module _ (env : Env) (faithful : Faithful env) (answering : Answering env) (i : IntentRow)
    (is : List IntentRow) (same : i.session_draft.id ≡ i.session_id) where
  module _ (l : Lifecycle) where
    -- The lifecycle has its row.
    abbrev pub Ready : Database → Type 0
    Ready d = (Todo i is) d × (has_row (find_row l.session_id d.lifecycles) ≡ true)

    abbrev Inserted : Database → Type 0
    Inserted d =
        Completing (Of (i ∷ is)) i.session_id d
        × (has_row (find_row l.session_id d.lifecycles) ≡ true)

    abbrev Half : Database → Type 0
    Half = Completing (Of (i ∷ is)) i.session_id

    labels-Sure :
        (id : ℕ) (labels : List (String × String))
        → Ends (Holds Inserted) (insert_session_labels_in env.conn id labels) (Sure Inserted)
    unfolding insert_session_labels_in
    labels-Sure id [] = Ends-pure _ _ (λ s h. h)
    labels-Sure id ((key, value) ∷ labels) =
        Ends-returned _ _ _ _
          (execute-Sure env.conn answering.answers Inserted Inserted
            (λ now. with_label (label_row id key value)) (λ n d h. h))
          (λ _. labels-Sure id labels)

    insert-ok :
        (row : SessionRow) (d : Database)
        → row.id ≡ i.session_id
        → Ready d
        → (d' : Database) × (with_session row d ≡ ok d') × Inserted d'
    insert-ok row d e h = (
      record d { sessions = row ∷ d.sessions },
      rw (e, h.0.1) refl,
      (grown-Completing (Of (i ∷ is)) row i.session_id d e h.0.0, h.1),
    )

    update-ok :
        (d : Database)
        → Inserted d
        → (d' : Database) × (with_updated_lifecycle l d ≡ ok d') × Half d'
    update-ok d h = (record d { lifecycles = set_row l d.lifecycles }, rw h.1 refl, h.0)

    resolve-Rest :
        (n : ℕ) (d : Database)
        → Half d
        → (Rest is) (with_status_update i.session_id StatusUpdate.resolved n d)
    resolve-Rest n d h =
        done-Coherent i is d.sessions _ h.0
          (resolve-Coherent (Of (i ∷ is)) i.session_id n d.sessions d.intents h.0 h.1)

    complete_body-Sure :
        (row : SessionRow)
        → row.id ≡ i.session_id
        → Ends (Holds Ready) (complete_body env (pending_of i) l row) (Sure (Rest is))
    complete_body-Sure row e =
        Ends-returned _ _ (λ a. Holds Inserted) _
          (Ends-returned _ _ (λ a. Holds Inserted) _
            (execute_checked-Sure env.conn answering.answers Ready Inserted (with_session row)
              (λ d. insert-ok row d e))
            (λ _. labels-Sure row.id i.session_draft.labels))
          (λ _.
            Ends-returned _ _ (λ a. Holds Half) _
              (execute_checked-Sure env.conn answering.answers Inserted Half
                (with_updated_lifecycle l) update-ok)
              (λ _.
                execute-Sure env.conn answering.answers Half (Rest is)
                  (λ now. with_status_update i.session_id StatusUpdate.resolved now) resolve-Rest))

    module _ (event : RuntimeEvent) (row : SessionRow) (e : row.id ≡ i.session_id) where
      abbrev Ended : {A : Type 0} → Result SpawnError A → StoreState → Type 0
      Ended r t = (Rest is) t.db

      Ends-after_commit :
          (committed : Result SpawnError (Unit {0}))
          → Ends
              (Sure {E = SpawnError} (Rest is) committed)
              (after_commit env leave_pending (pending_of i) event row committed)
              Ended
      Ends-after_commit (err failure) = record { at = λ s h. elim h [ ] }
      Ends-after_commit (ok _) = Ends-kept _ (
          Keeps-bind _ _
            (Keeps-bind _ _ (Keeps-call env (Rest is) _ (Faithful-Coherent env (Of is) faithful))
              (λ b. Keeps-if b _ _ (Keeps-pure _) (Keeps-raise _)))
            (λ _. Keeps-pure _))

      Ends-commit_session :
          (exists : Bool)
          → Ends
              (Holds Ready)
              (commit_session env leave_pending (pending_of i) l event row exists)
              Ended
      Ends-commit_session false =
          Ends-returned _ _ (λ a. Holds (Rest is)) _
            (record {
              at = λ s h.
                  (abort_running-Sure env faithful answering i is same
                      "namespace deleted before session commit").at
                    s h.0;
            })
            (λ _. Ends-raise _ _ (λ s h. h))
      Ends-commit_session true =
          Ends-returned _ _ _ _ (begin-Sure env faithful answering Ready) (λ _.
            Ends-returned _ _ _ _
              (attempted-Returns _ _ _
                (finish-Sure env faithful answering Ready (Rest is) _ (complete_body-Sure row e)))
              Ends-after_commit)

    module _ (running : l.state ≡ LifecycleState.running) (pid : ℕ)
        (has_pid : l.runtime_pid ≡ some pid) where
      session-ok :
          (path : Option String) (now : ℕ)
          → in_context
              (running_session env.address_text env.in_range i.session_draft l l.state path now)
            ≡ ok (row_of_draft env.address_text env.in_range i.session_draft l pid path now)
      session-ok path now =
          simp (running, has_pid, answering.in_range i.session_draft.created_at_ms) refl

      event-ok :
          (now : ℕ)
          → running_event_from_lifecycle l now
            ≡ ok (RuntimeEvent.running l.session_id pid (value_or l.start_time now))
      event-ok now = simp (running, has_pid) refl

      Ends-complete :
          (event : RuntimeEvent)
          → Ends
              (Holds Ready)
              (complete_spawn_intent env (pending_of i) l event none leave_pending)
              (λ r t. (Rest is) t.db)
      unfolding complete_spawn_intent
      Ends-complete event =
          Ends-returned _ _ (λ a. Holds Ready) _ (Ends-gets _ _ (λ s h. h))
            (λ now. lifted-Ends _ _ _ _ (session-ok none now) (
              Ends-returned _ _ _ _
                (map_err-Returns store_error _ _ _
                  (fetch-Returns env.conn answering.answers Ready _))
                (λ exists. record {
                  at = λ s h.
                      (Ends-commit_session event
                          (row_of_draft env.address_text env.in_range i.session_draft l pid none
                            now)
                          same exists).at
                        s h.0;
                })))

      pub Ends-running :
          Ends
            (Holds Ready)
            (complete_pending env i l LifecycleState.running)
            (λ r t. (Rest is) t.db)
      Ends-running =
          Ends-returned _ _ (λ a. Holds Ready) _ (Ends-gets _ _ (λ s h. h))
            (λ now. lifted-Ends _ _ _ _ (event-ok now) (
              Ends-bind _ _ (λ r t. (Rest is) t.db) _ (Ends-complete _)
                (λ row. Ends-pure _ _ (λ s h. h)) (λ e t h. h)))
