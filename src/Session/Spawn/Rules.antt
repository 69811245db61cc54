-- ===== src/Session/Spawn/Rules.antt =====
-- What the steps of a spawn keep of the database.
use littleorgans.Base.{ℕ}
use littleorgans.Base.Action.Keeps.{Keeps}
use littleorgans.Base.Action.Calls.{Keeps-map_err}
use littleorgans.Base.Action.Ends.{Ends, Done, Returns}
use littleorgans.Session.Store.{Database, Store}
use littleorgans.Session.Store.Rules.{Holds, Keeps-execute}
use littleorgans.Session.Store.Transactions.{Keeps-restored}
use littleorgans.Session.Spawn.{Env, store_error, call, begin_spawn_tx, finish_spawn_tx}

module _ (env : Env) (D : Database → Type 0) where
  pub Keeps-call :
      {A : Type 0} (f : ℕ → Database → A)
      → ((n : ℕ) (d : Database) → D d → D (env.effect n d))
      → Keeps (Holds D) (call env f)
  unfolding call
  Keeps-call f k = record { at = λ s h. k s.clock s.db h }

  pub Keeps-begin_spawn_tx : Keeps (Holds D) (begin_spawn_tx env)
  unfolding begin_spawn_tx
  Keeps-begin_spawn_tx =
      Keeps-map_err store_error _ _ (Keeps-execute D env.conn (λ now d. d) (λ n d h. h))

  pub Keeps-finish_spawn_tx :
      (body : Store (Unit {0}))
      → Ends (Holds D) body (Done (Holds D))
      → Keeps (Holds D) (finish_spawn_tx env body)
  unfolding finish_spawn_tx
  Keeps-finish_spawn_tx body k = Keeps-map_err store_error _ _ (Keeps-restored env.conn D body k)

  pub call-Returns :
      {A : Type 0} (f : ℕ → Database → A) (Q : A → Database → Type 0)
      → ((n : ℕ) (d : Database) → D d → Q (f n d) (env.effect n d))
      → Ends (Holds D) (call env f) (Returns (λ a t. Q a t.db))
  unfolding call
  call-Returns f Q k = record { at = λ s h. k s.clock s.db h }
