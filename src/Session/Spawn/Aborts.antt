-- ===== src/Session/Spawn/Aborts.antt =====
-- An intent is aborted if the database and the runtime answer.
use Prim.Native.String.{String}
use littleorgans.Base.{ℕ, ◌≡◌, ◌∙◌, false, List, ◌∷◌}
use littleorgans.Base.Action.Calls.{map_err-Returns}
use littleorgans.Base.Action.Ends.{Ends, Ends-returned}
use littleorgans.Session.Store.{IntentRow, Database, Store}
use littleorgans.Session.Store.Rules.{Holds}
use littleorgans.Session.Store.Sure.{Sure, execute-Sure, committing-Sure}
use littleorgans.Session.Store.Intents.{
  StatusUpdate, has_session, with_status_update, without_lifecycle,
}
use littleorgans.Session.Spawn.{
  Env, store_error, begin_spawn_tx, finish_spawn_tx, abort_body, abort_spawn_intent,
  abort_running_spawn,
}
use littleorgans.Session.Spawn.Coherent.{Coherent}
use littleorgans.Session.Spawn.Rules.{call-Returns}
use littleorgans.Session.Spawn.Left.{Of, aborted-Coherent}
use littleorgans.Session.Spawn.Faithful.{Faithful, Answering, Faithful-Coherent}

-- Before: the intent is left to do, and has no session.
abbrev pub Todo : IntentRow → List IntentRow → Database → Type 0
Todo i is d = Coherent (Of (i ∷ is)) d × (has_session i.session_id d.sessions ≡ false)

-- After: it is done.
abbrev pub Rest : List IntentRow → Database → Type 0
Rest is = Coherent (Of is)

module _ (env : Env) (faithful : Faithful env) (answering : Answering env) where
  pub begin-Sure : (D : Database → Type 0) → Ends (Holds D) (begin_spawn_tx env) (Sure D)
  unfolding begin_spawn_tx
  begin-Sure D =
      map_err-Returns store_error _ _ _
        (execute-Sure env.conn answering.answers D D (λ now d. d) (λ n d h. h))

  pub finish-Sure :
      (D D' : Database → Type 0) (body : Store (Unit {0}))
      → Ends (Holds D) body (Sure D')
      → Ends (Holds D) (finish_spawn_tx env body) (Sure D')
  unfolding finish_spawn_tx
  finish-Sure D D' body k =
      map_err-Returns store_error _ _ _ (committing-Sure env.conn answering.answers D D' body k)

module _ (env : Env) (faithful : Faithful env) (answering : Answering env) (i : IntentRow)
    (is : List IntentRow) (same : i.session_draft.id ≡ i.session_id) where
  pub Todo-effect : (n : ℕ) (d : Database) → (Todo i is) d → (Todo i is) (env.effect n d)
  Todo-effect n d h = (
    Faithful-Coherent env (Of (i ∷ is)) faithful n d h.0,
    faithful.same_sessions n d i.session_id ∙ h.1,
  )

  pub abort-Sure :
      (reason : String)
      → Ends (Holds (Todo i is)) (abort_spawn_intent env i.session_id reason) (Sure (Rest is))
  unfolding abort_spawn_intent
  abort-Sure reason = Ends-returned _ _ _ _ (begin-Sure env faithful answering (Todo i is)) (λ _.
      finish-Sure env faithful answering (Todo i is) (Rest is) (abort_body env i.session_id reason)
        (Ends-returned _ _ _ _
          (execute-Sure env.conn answering.answers (Todo i is) (Rest is)
            (λ now. with_status_update i.session_id (StatusUpdate.aborted reason) now)
            (λ n d h. aborted-Coherent i is d.sessions reason n d.intents h.0))
          (λ _.
            execute-Sure env.conn answering.answers (Rest is) (Rest is)
              (λ now. without_lifecycle i.session_id) (λ n d h. h))))

  pub abort_running-Sure :
      (reason : String)
      → Ends (Holds (Todo i is)) (abort_running_spawn env i.session_id reason) (Sure (Rest is))
  unfolding abort_running_spawn
  abort_running-Sure reason =
      Ends-returned _ _ _ _ (call-Returns env (Todo i is) _ (λ a d. (Todo i is) d) Todo-effect)
        (λ _. abort-Sure reason)
