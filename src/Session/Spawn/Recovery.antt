-- ===== src/Session/Spawn/Recovery.antt =====
-- A recovery that the database and the runtime answer leaves nothing pending.
use Prim.Native.String.{String}
use littleorgans.Base.{
  ℕ, ◌≡◌, refl, Bool-cases, inl, inr, true, List, [], ◌∷◌, All, Option, none, some,
}
use littleorgans.Base.Exec.{Result, ok, err}
use littleorgans.Base.Action.Calls.{attempted-Returns}
use littleorgans.Base.Action.Ends.{Ends, Ends-returned, Ends-pure}
use littleorgans.Runtime.Lifecycle.{Lifecycle, LifecycleState}
use littleorgans.Runtime.Server.{find_row, has_row}
use littleorgans.Runtime.Server.Rows.{find_row-id}
use littleorgans.Session.Store.{IntentRow, Database, StoreState}
use littleorgans.Session.Store.Rules.{Holds}
use littleorgans.Session.Store.Sure.{Sure}
use littleorgans.Session.Store.Intents.{has_session}
use littleorgans.Session.Spawn.{
  Env, SpawnError, abort_spawn_intent, complete_pending, with_lifecycle_of, with_status_of,
  reconcile_pending_spawn_intent, reconcile_all,
}
use littleorgans.Session.Spawn.Coherent.{Coherent}
use littleorgans.Session.Spawn.Recovers.{Keeps-reconcile_pending_spawn_intent}
use littleorgans.Session.Spawn.Rules.{call-Returns}
use littleorgans.Session.Spawn.Left.{Of, done-Coherent}
use littleorgans.Session.Spawn.Faithful.{Faithful, Answering, Faithful-Coherent}
use littleorgans.Session.Spawn.Aborts.{Todo, Rest, abort-Sure, Todo-effect}
use littleorgans.Session.Spawn.Completes.{Ends-running}

-- The drafts of the intents have their ids.
abbrev pub Drafted : List IntentRow → Type 0
Drafted = All (λ i. i.session_draft.id ≡ i.session_id)

module _ (env : Env) (faithful : Faithful env) (answering : Answering env) (i : IntentRow)
    (is : List IntentRow) (same : i.session_draft.id ≡ i.session_id) where
  ended :
      (r : Result SpawnError (Unit {0})) (t : StoreState)
      → Sure {E = SpawnError} (Rest is) r t
      → (Rest is) t.db
  ended (ok _) t h = h
  ended (err e) t h = elim h [ ]

  -- What the runtime answers: a lifecycle that is running has its row and its process id.
  abbrev Told : Result String (List Lifecycle) → Database → Type 0
  Told r d =
      (Todo i is) d
      × ((ls : List Lifecycle) (l : Lifecycle)
          → r ≡ ok ls
          → find_row i.session_id ls ≡ some l
          → l.state ≡ LifecycleState.running
          → (has_row (find_row l.session_id d.lifecycles) ≡ true)
            × (pid : ℕ) × (l.runtime_pid ≡ some pid))

  status-Told :
      (n : ℕ) (d : Database) → (Todo i is) d → Told (env.status n i.session_id d) (env.effect n d)
  status-Told n d h = (
    Todo-effect env faithful answering i is same n d h,
    λ ls l e f running.
        let (row, pid, has_pid) = answering.running_rows n i.session_id d ls l e f running in
        (
          rw (find_row-id i.session_id ls l f) (answering.same_rows n d i.session_id row),
          pid,
          has_pid,
        ),
  )

  Ends-aborted :
      (r : Result String (List Lifecycle)) (reason : String)
      → Ends (Holds (Told r)) (abort_spawn_intent env i.session_id reason) (λ r t. (Rest is) t.db)
  Ends-aborted r reason = record {
    at = λ s h.
        ended (abort_spawn_intent env i.session_id reason s).0 _
          ((abort-Sure env faithful answering i is same reason).at s h.0);
  }

  Ends-state :
      (l : Lifecycle) (ls : List Lifecycle)
      → find_row i.session_id ls ≡ some l
      → (state : LifecycleState) → l.state ≡ state
      → Ends (Holds (Told (ok ls))) (complete_pending env i l state) (λ r t. (Rest is) t.db)
  Ends-state l ls f LifecycleState.running e = record {
    at = λ s h.
        let (row, pid, has_pid) = h.1 ls l refl f e in
        (Ends-running env faithful answering i is same l e pid has_pid).at s (h.0, row);
  }
  Ends-state l ls f LifecycleState.forking e = Ends-aborted (ok ls) "runtime lifecycle not running"
  Ends-state l ls f (LifecycleState.exited exit) e =
      Ends-aborted (ok ls) "runtime lifecycle not running"
  Ends-state l ls f (LifecycleState.lost evidence) e =
      Ends-aborted (ok ls) "runtime lifecycle not running"

  Ends-found :
      (ls : List Lifecycle) (found : Option Lifecycle)
      → find_row i.session_id ls ≡ found
      → Ends (Holds (Told (ok ls))) (with_lifecycle_of env i found) (λ r t. (Rest is) t.db)
  Ends-found ls none f = Ends-aborted (ok ls) "runtime lifecycle missing"
  Ends-found ls (some l) f = Ends-state l ls f l.state refl

  Ends-status :
      (r : Result String (List Lifecycle))
      → Ends (Holds (Told r)) (with_status_of env i r) (λ r t. (Rest is) t.db)
  Ends-status (err failure) = Ends-aborted (err failure) failure
  Ends-status (ok ls) = Ends-found ls (find_row i.session_id ls) refl

  Ends-left :
      Ends (Holds (Todo i is)) (reconcile_pending_spawn_intent env i) (λ r t. (Rest is) t.db)
  unfolding reconcile_pending_spawn_intent
  Ends-left = Ends-returned _ _ _ _ (call-Returns env (Todo i is) _ Told status-Told) Ends-status

  -- An intent that has its session needs nothing, and keeps what it has.
  Ends-reconcile :
      Ends
        (Holds (Coherent (Of (i ∷ is))))
        (reconcile_pending_spawn_intent env i)
        (λ r t. (Rest is) t.db)
  Ends-reconcile = record {
    at = λ s h. elim (Bool-cases (has_session i.session_id s.db.sessions)) [
      | inl e ↦
          (Keeps-reconcile_pending_spawn_intent env (Of is) (Faithful-Coherent env (Of is) faithful)
              i same).at
            s (done-Coherent i is s.db.sessions s.db.intents e h)
      | inr e ↦ Ends-left.at s (h, e)
    ];
  }

module _ (env : Env) (faithful : Faithful env) (answering : Answering env) where
  pub Ends-reconcile_all :
      (is : List IntentRow)
      → Drafted is
      → Ends (Holds (Coherent (Of is))) (reconcile_all env is) (λ r t. Coherent (Of []) t.db)
  unfolding reconcile_all
  Ends-reconcile_all [] h = Ends-pure _ _ (λ s k. k)
  Ends-reconcile_all (i ∷ is) h =
      Ends-returned _ _ _ _
        (attempted-Returns _ _ _ (Ends-reconcile env faithful answering i is h.0))
        (λ r. Ends-reconcile_all is h.1)
