-- ===== src/Runtime/Server/Spawn.antt =====
-- server/spawn.rs: how a runtime is begun, reported ready and recorded as running. The sender of a
-- oneshot channel is the id in `pending_ready`; `receiver_waits` says whether its receiver is
-- still there when it is used.
use text.Mathlib.Text.{◌==◌ as str_eq}
use Prim.Native.String.{String}
use littleorgans.Base.{
  ℕ, Bool, true, false, ◌&&◌, Option, none, some, ◌∷◌, if◌then◌else◌, contains, insert, erase,
  lookup,
}
use littleorgans.Base.Exec.{Result, ok, err}
use littleorgans.Base.Action.{pure, raise, lift, gets, modify, unless, ◌>>=◌, ◌>>◌}
use littleorgans.Runtime.Lifecycle.{
  Lifecycle, LifecycleState, RuntimeEvent, RuntimeKind, IsolationPolicy, TmuxAddress, ShimReady,
  new_forking, mark_running, is_forking,
}
use littleorgans.Runtime.Failure.{
  Failure, session_already_exists, protocol_mismatch, tmux_pane_dead, tmux, already_terminal,
}
use littleorgans.Runtime.Server.{
  Env, ServerState, Handler, ask, store_get, store_insert_forking, store_update_lifecycle,
  store_delete, append_event, start_exit_watcher, availability, take_ready, track_shim,
  running_event,
}
use littleorgans.Runtime.Server.Termination.{get_or_fail}

pub record SpawnRequest : Type 0 where
  pub session_id : ℕ
  pub runtime : RuntimeKind
  pub isolation : IsolationPolicy
  -- The tmux address of the target, if it has one.
  pub target : Option TmuxAddress

abbrev pub same_runtime : RuntimeKind → RuntimeKind → Bool
same_runtime RuntimeKind.claude RuntimeKind.claude = true
same_runtime RuntimeKind.codex RuntimeKind.codex = true
same_runtime (RuntimeKind.other a) (RuntimeKind.other b) = str_eq a b
same_runtime _ _ = false

abbrev same_name : Option String → Option String → Bool
same_name none none = true
same_name (some a) (some b) = str_eq a b
same_name _ _ = false

abbrev pub same_isolation : IsolationPolicy → IsolationPolicy → Bool
same_isolation IsolationPolicy.host IsolationPolicy.host = true
same_isolation (IsolationPolicy.docker a) (IsolationPolicy.docker b) = same_name a b
same_isolation _ _ = false

module _ (env : Env) where
  abbrev pub pane_alive : TmuxAddress → Option Bool → Handler (Unit {0})
  pane_alive address none = raise tmux
  pane_alive address (some true) = pure tt
  pane_alive address (some false) = raise (tmux_pane_dead address)

  unfoldable pub validate_spawn_target : Option TmuxAddress → Handler (Unit {0})
  validate_spawn_target none = pure tt
  validate_spawn_target (some address) = do
    alive ← ask (λ n. env.tmux_alive n address)
    pane_alive address alive

  -- Whether the session layer made the row; an error where another spawn is in the way.
  abbrev pub session_backed : SpawnRequest → Option Lifecycle → Handler Bool
  session_backed request none = pure false
  session_backed request (some l) =
      if is_forking l.state
        && same_runtime l.runtime request.runtime
        && same_isolation l.isolation request.isolation
      then pure true
      else raise (session_already_exists request.session_id)

  abbrev pub insert_unless : Bool → SpawnRequest → Handler (Unit {0})
  insert_unless true request = pure tt
  insert_unless false request =
      store_insert_forking env
        (record (new_forking request.session_id request.runtime) { isolation = request.isolation })

  unfoldable pub put_launch : ℕ → ℕ → Handler (Unit {0})
  put_launch i launch =
      modify (λ s. record s { pending_launches = insert i launch s.pending_launches })

  -- The new sender replaces one that is there, and that is an error.
  unfoldable pub begin_ready_wait : ℕ → Handler (Unit {0})
  begin_ready_wait i s =
      if contains i s.pending_ready
      then (err (protocol_mismatch i), s)
      else (ok tt, record s { pending_ready = i ∷ s.pending_ready })

  abbrev pub drop_launch : ℕ → Handler (Unit {0})
  drop_launch i = modify (λ s. record s { pending_launches = erase i s.pending_launches })

  -- A failed delete is only logged.
  abbrev ignoring :
      Result Failure (Unit {0}) × ServerState → Result Failure (Unit {0}) × ServerState
  ignoring (r, s) = (ok tt, s)

  unfoldable pub ignoring_errors : Handler (Unit {0}) → Handler (Unit {0})
  ignoring_errors m s = ignoring (m s)

  unfoldable pub cancel_spawn : ℕ → Handler (Unit {0})
  cancel_spawn i = do drop_launch i; take_ready i; ignoring_errors (store_delete env i)

  abbrev pub or_cancel :
      ℕ → Bool → Result Failure (Unit {0}) × ServerState → Result Failure Bool × ServerState
  or_cancel i backed (ok _, s) = (ok backed, s)
  or_cancel i backed (err e, s) = (err e, (cancel_spawn i s).1)

  unfoldable pub wait_or_cancel : ℕ → Bool → Handler Bool
  wait_or_cancel i backed s = or_cancel i backed (begin_ready_wait i s)

  -- `BeginSpawn` carries the receiver and whether the session layer made the row.
  unfoldable pub begin_spawn : SpawnRequest → ℕ → Handler Bool
  begin_spawn request launch = do
    found ← store_get env request.session_id
    backed ← session_backed request found
    validate_spawn_target request.target
    insert_unless backed request
    put_launch request.session_id launch
    wait_or_cancel request.session_id backed

  abbrev pub launch_or_fail : ℕ → Option ℕ → Handler ℕ
  launch_or_fail i none = raise (protocol_mismatch i)
  launch_or_fail i (some launch) = pure launch

  unfoldable pub take_launch_spec : ℕ → Handler ℕ
  take_launch_spec i = do
    found ← gets (λ s. lookup i s.pending_launches)
    drop_launch i
    launch_or_fail i found

  abbrev pub append_if : Bool → RuntimeEvent → Handler RuntimeEvent
  append_if true event = append_event env event
  append_if false event = pure event

  -- `SpawnCoordinator::record_running` in three parts: the update of the row and the event, the
  -- mark with the log availability before it, and the read of the row before that.
  unfoldable pub finish_running : Bool → Lifecycle → Handler (Lifecycle × RuntimeEvent)
  finish_running append full = do
    store_update_lifecycle env full
    event ← lift (running_event full)
    start_exit_watcher env full.session_id
    logged ← append_if append event
    pure (full, logged)

  unfoldable pub settle_running :
      SpawnRequest → Bool → Lifecycle × Bool → Handler (Lifecycle × RuntimeEvent)
  unfolding finish_running
  settle_running request append (l, false) = raise (protocol_mismatch request.session_id)
  settle_running request append (l, true) = do
    available ← ask (λ n. availability env request.target l.session_id n)
    finish_running append
        (record l { tmux_pane = request.target; log_availability = some available })

  unfoldable pub spawn_record_running :
      SpawnRequest → ShimReady → Bool → Handler (Lifecycle × RuntimeEvent)
  unfolding settle_running
  spawn_record_running request ready append = do
    found ← store_get env request.session_id
    l ← get_or_fail request.session_id found
    unless (same_runtime l.runtime request.runtime) (protocol_mismatch request.session_id)
    settle_running request append (mark_running l ready)

  -- `ServerState::record_running` tracks the shim of a success.
  unfoldable pub record_running :
      SpawnRequest → ShimReady → Bool → Handler (Lifecycle × RuntimeEvent)
  record_running request ready append = do
    result ← spawn_record_running request ready append
    track_shim ready.session_id ready.shim_pid
    pure result

  abbrev pub reconnect_forking : ShimReady → Lifecycle → Handler (Option RuntimeEvent)
  reconnect_forking ready l = do
    store_update_lifecycle env l
    event ← lift (running_event l)
    start_exit_watcher env l.session_id
    logged ← append_event env event
    pure (some logged)

  abbrev pub reconnect_running : Lifecycle → Handler (Option RuntimeEvent)
  reconnect_running l = do start_exit_watcher env l.session_id; pure none

  abbrev pub reconnect : ShimReady → Lifecycle → LifecycleState → Handler (Option RuntimeEvent)
  reconnect ready l LifecycleState.forking = reconnect_forking ready (mark_running l ready).0
  reconnect ready l LifecycleState.running = reconnect_running l
  reconnect ready l (LifecycleState.exited _) = raise already_terminal
  reconnect ready l (LifecycleState.lost _) = raise already_terminal

  unfoldable pub record_reconnected_ready : ShimReady → Handler (Option RuntimeEvent)
  record_reconnected_ready ready = do
    found ← store_get env ready.session_id
    l ← get_or_fail ready.session_id found
    reconnect ready l l.state

  abbrev pub send_or_fail : ℕ → Bool → Handler (Unit {0})
  send_or_fail i true = pure tt
  send_or_fail i false = raise (protocol_mismatch i)

  abbrev pub deliver_ready : ShimReady → Bool → Handler (Unit {0})
  deliver_ready ready true = do waits ← ask env.receiver_waits; send_or_fail ready.session_id waits
  deliver_ready ready false = do record_reconnected_ready ready; pure tt

  unfoldable pub complete_shim_ready : ShimReady → Handler (Unit {0})
  complete_shim_ready ready = do waiting ← take_ready ready.session_id; deliver_ready ready waiting
