-- ===== src/Session/Spawn/Spawns.antt =====
-- A whole spawn of a fresh id keeps the intents coherent.
use Prim.Native.String.{String}
use littleorgans.Base.{ℕ, ◌≡◌, refl, Bool, true, false, ◌∷◌}
use littleorgans.Base.Exec.{Result, ok, err}
use littleorgans.Base.Action.{gets}
use littleorgans.Base.Action.Keeps.{
  Keeps, Keeps-pure, Keeps-raise, Keeps-gets, Keeps-lift, Keeps-bind,
}
use littleorgans.Base.Action.Ends.{Ends, Ends-after, Keeps-Done}
use littleorgans.Runtime.Lifecycle.{Lifecycle}
use littleorgans.Runtime.Server.{find_row, row_of, has_row}
use littleorgans.Runtime.Server.Spawn.{SpawnRequest}
use littleorgans.Session.Store.{SessionDraft, Database, StoreState, database}
use littleorgans.Session.Store.Rules.{Holds, Keeps-execute_checked, unless_ok}
use littleorgans.Session.Store.Intents.{
  PendingSpawnIntent, new_pending, has_session, has_intent, with_pending_intent, with_lifecycle,
  intent_row,
}
use littleorgans.Session.Spawn.{
  Env, SpawnedProcess, abort_running, begin_body, authorized_body, begin_spawn_intent, after_spawn,
  spawn_intent, spawn, forking_of,
}
use littleorgans.Session.Spawn.Rules.{Keeps-call, Keeps-begin_spawn_tx, Keeps-finish_spawn_tx}
use littleorgans.Session.Spawn.Coherent.{Coherent}
use littleorgans.Session.Spawn.Steps.{Keeps-abort_spawn_intent, Keeps-complete_spawn_intent}

module _ (env : Env) (q : ℕ → Type 0)
    (fair : (n : ℕ) (d : Database) → Coherent q d → Coherent q (env.effect n d)) where
  abbrev C : StoreState → Type 0
  C = Holds (Coherent q)

  Keeps-after_spawn :
      (intent : PendingSpawnIntent) (spawned : Result String SpawnedProcess)
      → intent.session_draft.id ≡ intent.session_id
      → Keeps C (after_spawn env intent spawned)
  Keeps-after_spawn intent (err failure) same =
      Keeps-bind _ _ (Keeps-abort_spawn_intent env q fair intent.session_id failure)
        (λ _. Keeps-raise _)
  Keeps-after_spawn intent (ok spawned) same = Keeps-bind _ _ (Keeps-gets _) (λ now.
      Keeps-bind _ _ (Keeps-lift _) (λ event.
        Keeps-complete_spawn_intent env q fair intent spawned.lifecycle event spawned.stdout_path
          abort_running same))

  -- The first transaction, for an id that has no session.
  module _ (intent : PendingSpawnIntent) (same : intent.session_draft.id ≡ intent.session_id)
      (allowed : q intent.session_id) where
    abbrev Fresh : Database → Type 0
    Fresh d = Coherent q d × (has_session intent.session_id d.sessions ≡ false)

    with_pending_intent-Fresh :
        (d d' : Database) → Fresh d → with_pending_intent intent d ≡ ok d' → Fresh d'
    with_pending_intent-Fresh d d' h e =
        rw
          (← (unless_ok (has_intent intent.session_id d.intents) database
            (record d { intents = intent_row intent ∷ d.intents }) d' e).1)
          (((h.1, same, allowed), h.0), h.1)

    with_lifecycle-Fresh :
        (l : Lifecycle) (d d' : Database) → Fresh d → with_lifecycle l d ≡ ok d' → Fresh d'
    with_lifecycle-Fresh l d d' h e =
        rw
          (← (unless_ok (has_row (find_row l.session_id d.lifecycles)) database
            (record d { lifecycles = row_of l ∷ d.lifecycles }) d' e).1)
          h

    Keeps-authorized : (b : Bool) → Keeps (Holds Fresh) (authorized_body env intent b)
    Keeps-authorized true = Keeps-finish_spawn_tx env Fresh (begin_body env intent) (
        Keeps-Done (Holds Fresh) _ (
          Keeps-bind _ _
            (Keeps-execute_checked Fresh env.conn (with_pending_intent intent)
              with_pending_intent-Fresh)
            (λ _.
              Keeps-execute_checked Fresh env.conn (with_lifecycle (forking_of env intent))
                (with_lifecycle-Fresh (forking_of env intent)))))
    Keeps-authorized false =
        Keeps-bind _ _
          (Keeps-finish_spawn_tx env Fresh _ (Keeps-Done (Holds Fresh) _ (Keeps-pure _)))
          (λ _. Keeps-raise _)

    Keeps-begin_spawn_intent : Keeps (Holds Fresh) (begin_spawn_intent env intent)
    unfolding begin_spawn_intent
    Keeps-begin_spawn_intent =
        Keeps-bind _ _ (Keeps-begin_spawn_tx env Fresh)
          (λ _. Keeps-bind _ _ (Keeps-gets _) Keeps-authorized)

    Ends-spawn_intent : Ends (Holds Fresh) (spawn_intent env intent) (λ r t. C t)
    Ends-spawn_intent =
        Ends-after _ _ _ Keeps-begin_spawn_intent
          (λ _. record {
            at = λ s h.
                (Keeps-bind _ _ (Keeps-call env (Coherent q) _ fair)
                    (λ spawned. Keeps-after_spawn intent spawned same)).at
                  s h.0;
          })
          (λ e t h. h.0)

  pub spawn-Coherent :
      (operation_id : ℕ) (request : SpawnRequest) (draft : SessionDraft) (s : StoreState)
      → q draft.id
      → has_session draft.id s.db.sessions ≡ false
      → Coherent q s.db
      → Coherent q (spawn env operation_id request draft s).1.db
  unfolding spawn
  spawn-Coherent operation_id request draft s allowed fresh h =
      (Ends-after (gets (λ s. env.conn.utc_now s.clock)) _ (λ r t. C t) (Keeps-gets _)
          (λ now. Ends-spawn_intent (new_pending operation_id request draft now) refl allowed)
          (λ e t k. k.0)).at
        s (h, fresh)
