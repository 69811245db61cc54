-- ===== src/Session/Spawn/Faithful.antt =====
-- What the handlers rely on of the runtime daemon.
use littleorgans.Base.{ℕ, ◌≡◌, ◌∙◌, List, [], ◌∷◌, some, true, All}
use littleorgans.Base.Exec.{ok}
use littleorgans.Runtime.Lifecycle.{Lifecycle, LifecycleState}
use littleorgans.Runtime.Server.{find_row, has_row}
use littleorgans.Session.Store.{
  SessionRow, Database, IntentRow, SpawnIntentStatus, pending, resolved, aborted, done,
}
use littleorgans.Session.Store.Intents.{has_session}
use littleorgans.Session.Spawn.{Env}
use littleorgans.Session.Spawn.Coherent.{SoundAt, Coherent}

-- It neither writes the intents nor inserts or deletes sessions.
pub record Faithful (env : Env) : Type 0 where
  pub same_intents : (n : ℕ) (d : Database) → (env.effect n d).intents ≡ d.intents
  pub same_sessions :
      (n : ℕ) (d : Database) (id : ℕ)
      → has_session id (env.effect n d).sessions ≡ has_session id d.sessions

-- The database answers; the runtime deletes no lifecycle, and answers with a lifecycle that is
-- running only where the table has its row, and with its process id.
pub record Answering (env : Env) : Type 0 where
  pub answers : (n : ℕ) → env.conn.answer n ≡ done
  pub in_range : (time : ℕ) → env.in_range time ≡ true
  pub same_rows :
      (n : ℕ) (d : Database) (id : ℕ)
      → has_row (find_row id d.lifecycles) ≡ true
      → has_row (find_row id (env.effect n d).lifecycles) ≡ true
  pub running_rows :
      (n id : ℕ) (d : Database) (ls : List Lifecycle) (l : Lifecycle)
      → env.status n id d ≡ ok ls
      → find_row id ls ≡ some l
      → l.state ≡ LifecycleState.running
      → (has_row (find_row id d.lifecycles) ≡ true) × (pid : ℕ) × (l.runtime_pid ≡ some pid)

module _ (q : ℕ → Type 0) (a b : List SessionRow)
    (same : (id : ℕ) → has_session id b ≡ has_session id a) where
  sound_row :
      (i : IntentRow) (status : SpawnIntentStatus) → SoundAt q a i status → SoundAt q b i status
  sound_row i pending h = (same i.session_id ∙ h.0, h.1, h.2)
  sound_row i resolved h = same i.session_id ∙ h
  sound_row i aborted h = tt

  sound_rows :
      (rows : List IntentRow)
      → All (λ i. SoundAt q a i i.status) rows
      → All (λ i. SoundAt q b i i.status) rows
  sound_rows [] h = tt
  sound_rows (i ∷ is) h = (sound_row i i.status h.0, sound_rows is h.1)

pub Faithful-Coherent :
    (env : Env) (q : ℕ → Type 0)
    → Faithful env
    → (n : ℕ) (d : Database) → Coherent q d
    → Coherent q (env.effect n d)
Faithful-Coherent env q f n d h =
    rw (f.same_intents n d)
      (sound_rows q d.sessions (env.effect n d).sessions (f.same_sessions n d) d.intents h)
