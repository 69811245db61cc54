-- ===== src/Session/Spawn/Recovers.antt =====
-- The recovery of an intent keeps the intents coherent.
use Prim.Native.String.{String}
use littleorgans.Base.{ℕ, ◌≡◌, List, Option, none, some}
use littleorgans.Base.Exec.{Result, ok, err}
use littleorgans.Base.Action.Keeps.{Keeps, Keeps-pure, Keeps-gets, Keeps-lift, Keeps-bind}
use littleorgans.Runtime.Lifecycle.{Lifecycle, LifecycleState}
use littleorgans.Runtime.Server.{find_row}
use littleorgans.Session.Store.{IntentRow, Database, StoreState}
use littleorgans.Session.Store.Rules.{Holds}
use littleorgans.Session.Store.Intents.{pending_of}
use littleorgans.Session.Spawn.{
  Env, leave_pending, complete_pending, with_lifecycle_of, with_status_of,
  reconcile_pending_spawn_intent,
}
use littleorgans.Session.Spawn.Rules.{Keeps-call}
use littleorgans.Session.Spawn.Coherent.{Coherent}
use littleorgans.Session.Spawn.Steps.{Keeps-abort_spawn_intent, Keeps-complete_spawn_intent}

module _ (env : Env) (q : ℕ → Type 0)
    (fair : (n : ℕ) (d : Database) → Coherent q d → Coherent q (env.effect n d)) where
  abbrev C : StoreState → Type 0
  C = Holds (Coherent q)

  Keeps-complete_pending :
      (i : IntentRow) (l : Lifecycle) (state : LifecycleState)
      → i.session_draft.id ≡ i.session_id
      → Keeps C (complete_pending env i l state)
  Keeps-complete_pending i l LifecycleState.running same = Keeps-bind _ _ (Keeps-gets _) (λ now.
      Keeps-bind _ _ (Keeps-lift _) (λ event.
        Keeps-bind _ _
          (Keeps-complete_spawn_intent env q fair (pending_of i) l event none leave_pending same)
          (λ row. Keeps-pure _)))
  Keeps-complete_pending i l LifecycleState.forking same =
      Keeps-abort_spawn_intent env q fair i.session_id _
  Keeps-complete_pending i l (LifecycleState.exited exit) same =
      Keeps-abort_spawn_intent env q fair i.session_id _
  Keeps-complete_pending i l (LifecycleState.lost evidence) same =
      Keeps-abort_spawn_intent env q fair i.session_id _

  Keeps-with_lifecycle_of :
      (i : IntentRow) (found : Option Lifecycle)
      → i.session_draft.id ≡ i.session_id
      → Keeps C (with_lifecycle_of env i found)
  Keeps-with_lifecycle_of i none same = Keeps-abort_spawn_intent env q fair i.session_id _
  Keeps-with_lifecycle_of i (some l) same = Keeps-complete_pending i l l.state same

  Keeps-with_status_of :
      (i : IntentRow) (r : Result String (List Lifecycle))
      → i.session_draft.id ≡ i.session_id
      → Keeps C (with_status_of env i r)
  Keeps-with_status_of i (err failure) same =
      Keeps-abort_spawn_intent env q fair i.session_id failure
  Keeps-with_status_of i (ok ls) same = Keeps-with_lifecycle_of i (find_row i.session_id ls) same

  pub Keeps-reconcile_pending_spawn_intent :
      (i : IntentRow)
      → i.session_draft.id ≡ i.session_id
      → Keeps C (reconcile_pending_spawn_intent env i)
  unfolding reconcile_pending_spawn_intent
  Keeps-reconcile_pending_spawn_intent i same =
      Keeps-bind _ _ (Keeps-call env (Coherent q) _ fair) (λ r. Keeps-with_status_of i r same)
