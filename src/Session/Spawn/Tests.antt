-- ===== src/Session/Spawn/Tests.antt =====
-- Spawns that succeed, are interrupted, and are not heard, and a recovery.
use Prim.Native.String.{String}
use littleorgans.Base.{
  ℕ, ◌≡◌, refl, sym, ◌∙◌, ap, ◌==◌, ltb, if◌then◌else◌, Bool, true, false, Option, none, some, List,
  [], ◌∷◌, map, arith,
}
use littleorgans.Base.Exec.{Result, ok}
use littleorgans.Base.Action.{◌>>=◌}
use littleorgans.Runtime.Lifecycle.{Lifecycle, LifecycleState, RuntimeKind, IsolationPolicy}
use littleorgans.Runtime.Server.{find_row, has_row}
use littleorgans.Runtime.Server.Spawn.{SpawnRequest}
use littleorgans.Session.Store.{
  SessionDraft, SpawnIntentStatus, Connection, StoreState, done, refused, unheard,
}
use littleorgans.Session.Store.Events.Tests.{initial_store, reliable}
use littleorgans.Session.Store.Intents.{has_session}
use littleorgans.Session.Spawn.{Env, spawn, reconcile_pending_spawn_intents}
use littleorgans.Session.Spawn.Faithful.{Faithful, Answering}
use littleorgans.Session.Spawn.Reached.{
  Any, Reached, start, next, spawned, reached-Coherent, Decided, recovery-Decided,
}
use littleorgans.Session.Spawn.Coherent.{Coherent}
use littleorgans.Session.Spawn.Written.{Confirmed}
use littleorgans.Session.Spawn.Confirmed.{spawn-Confirmed}

abbrev running_lifecycle : ℕ → Lifecycle
running_lifecycle id = record {
  session_id = id;
  runtime = RuntimeKind.claude;
  isolation = IsolationPolicy.host;
  state = LifecycleState.running;
  shim_pid = some 41;
  runtime_pid = some 42;
  start_time = some 90;
  tmux_pane = none;
  log_availability = none;
}

-- The runtime knows the sessions whose lifecycles have rows, and they are running.
abbrev env_with : Connection → Env
env_with conn = record {
  conn = conn;
  authorized = λ n. true;
  spawned = λ n. ok (record { lifecycle = running_lifecycle 9; stdout_path = none });
  status =
      λ n id d. ok (if has_row (find_row id d.lifecycles) then running_lifecycle id ∷ [] else []);
  appended = λ n event. true;
  effect = λ n d. d;
  in_range = λ time. true;
  address_text = λ address. "%1";
}

abbrev good : Env
good = env_with reliable

-- The daemon stops after its call of the runtime.
abbrev interrupted : Env
interrupted =
    env_with (record { answer = λ n. if ltb n 6 then done else refused; utc_now = λ n. 100 })

-- The answer to the second commit does not arrive.
abbrev not_heard : Env
not_heard =
    env_with (record { answer = λ n. if n == 10 then unheard else done; utc_now = λ n. 100 })

abbrev nine : SessionDraft
nine = record {
  id = 9;
  runtime = "claude";
  role = "general";
  workspace = "main";
  namespace = "default";
  dir = "/work";
  labels = [];
  agent_config = none;
  created_at_ms = 80;
}

abbrev nine_request : SpawnRequest
nine_request = record {
  session_id = 9;
  runtime = RuntimeKind.claude;
  isolation = IsolationPolicy.host;
  target = none;
}

abbrev stopped_in : Env → StoreState
stopped_in env = (spawn env 1 nine_request nine initial_store).1

abbrev statuses : StoreState → List SpawnIntentStatus
statuses s = map (λ i. i.status) s.db.intents

resolves : statuses (stopped_in good) ≡ SpawnIntentStatus.resolved ∷ []
unfolding spawn ◌>>=◌ find_row
resolves = refl

leaves_pending : statuses (stopped_in interrupted) ≡ SpawnIntentStatus.pending ∷ []
unfolding spawn ◌>>=◌ find_row
leaves_pending = refl

recovers :
    statuses (reconcile_pending_spawn_intents good (stopped_in interrupted)).1
    ≡ SpawnIntentStatus.resolved ∷ []
unfolding spawn reconcile_pending_spawn_intents ◌>>=◌ find_row
recovers = refl

-- The session of an aborted intent stays.
aborts : statuses (stopped_in not_heard) ≡ SpawnIntentStatus.aborted ∷ []
unfolding spawn ◌>>=◌ find_row
aborts = refl

keeps_session : has_session 9 (stopped_in not_heard).db.sessions ≡ true
unfolding spawn ◌>>=◌ find_row
keeps_session = refl

env_with-Faithful : (conn : Connection) → Faithful (env_with conn)
env_with-Faithful conn = record { same_intents = λ n d. refl; same_sessions = λ n d id. refl }

lifecycles_inj :
    (r : Result String (List Lifecycle)) (xs ys : List Lifecycle) → r ≡ ok xs → r ≡ ok ys → ys ≡ xs
lifecycles_inj r xs ys h k = cc

some_inj : (o : Option Lifecycle) (l m : Lifecycle) → o ≡ some l → o ≡ some m → m ≡ l
some_inj o l m h k = cc

none_not_some : (l : Lifecycle) → ¬ (none ≡ some l)
none_not_some l h = cc

found_running : (id : ℕ) → find_row id (running_lifecycle id ∷ []) ≡ some (running_lifecycle id)
unfolding find_row
found_running id = ground arith

found_none : (id : ℕ) → find_row id [] ≡ none
unfolding find_row
found_none id = refl

-- What the runtime of the tests tells is in the table.
told_rows :
    (id : ℕ) (b : Bool) (r : Result String (List Lifecycle)) (ls : List Lifecycle) (l : Lifecycle)
    → r ≡ ok (if b then running_lifecycle id ∷ [] else [])
    → r ≡ ok ls
    → find_row id ls ≡ some l
    → (b ≡ true) × (pid : ℕ) × (l.runtime_pid ≡ some pid)
told_rows id true r ls l h e f = (
  refl,
  42,
  ap (λ m. m.runtime_pid)
      (some_inj (find_row id (running_lifecycle id ∷ [])) (running_lifecycle id) l
        (found_running id) (rw (← lifecycles_inj r (running_lifecycle id ∷ []) ls h e) f)),
)
told_rows id false r ls l h e f =
    absurd (none_not_some l (sym (found_none id) ∙ rw (← lifecycles_inj r [] ls h e) f))

good-Answering : Answering good
good-Answering = record {
  answers = λ n. refl;
  in_range = λ time. refl;
  same_rows = λ n d id h. h;
  running_rows = λ n id d ls l e f running.
      told_rows id (has_row (find_row id d.lifecycles)) (good.status n id d) ls l refl e f;
}

interrupted-Reached : Reached (stopped_in interrupted)
unfolding spawn
interrupted-Reached =
    next {s = initial_store} (start refl)
      (spawned interrupted (env_with-Faithful interrupted.conn) 1 nine_request nine refl refl)

reached-Coherent_example : Coherent Any (stopped_in interrupted).db
reached-Coherent_example = reached-Coherent (stopped_in interrupted) interrupted-Reached

recovery-Decided_example :
    Decided (reconcile_pending_spawn_intents good (stopped_in interrupted)).1.db
recovery-Decided_example =
    recovery-Decided (stopped_in interrupted) good interrupted-Reached (env_with-Faithful good.conn)
      good-Answering

spawn-Confirmed_example : Confirmed 9 (stopped_in good).db
unfolding spawn ◌>>=◌ find_row
spawn-Confirmed_example =
    spawn-Confirmed good 1 nine_request nine initial_store _ (env_with-Faithful good.conn) refl
