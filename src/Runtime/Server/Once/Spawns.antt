-- ===== src/Runtime/Server/Once/Spawns.antt =====
-- A spawn and a report of a shim log no end of a session: server/spawn.rs.
use littleorgans.Base.{ℕ, ◌≡◌, Bool, true, false, Option, none, some}
use littleorgans.Base.Exec.{Result, ok, err}
use littleorgans.Base.Action.Keeps.{
  Keeps, Keeps-pure, Keeps-raise, Keeps-bind, Keeps-lifted, keeps_rules,
}
use littleorgans.Runtime.Lifecycle.{Lifecycle, LifecycleState, RuntimeEvent, ShimReady}
use littleorgans.Runtime.Failure.{Failure}
use littleorgans.Runtime.Server.{Env, ServerState, store_delete, running_event}
use littleorgans.Runtime.Server.Spawn.{
  SpawnRequest, begin_spawn, cancel_spawn, take_launch_spec, spawn_record_running, record_running,
  record_reconnected_ready, complete_shim_ready, session_backed, insert_unless, wait_or_cancel,
  launch_or_fail, or_cancel, begin_ready_wait, ignoring_errors, launch_or_fail, finish_running,
  settle_running, reconnect, send_or_fail, append_if, reconnect_forking, deliver_ready,
}
use littleorgans.Runtime.Server.Rows.{
  Keeps-store_get, Keeps-ask, Keeps-start_exit_watcher, Keeps-validate, Keeps-put_launch,
  Keeps-drop_launch, Keeps-take_ready, Keeps-track_shim, Keeps-begin_ready_wait,
}
use littleorgans.Runtime.Server.Termination.{get_or_fail}
use littleorgans.Runtime.Server.Once.{
  AtMostOnce, is_end_of, reads, update-AtMostOnce, append_event-AtMostOnce, store_insert-AtMostOnce,
  store_delete-AtMostOnce, running_event_end,
}

module _ (env : Env) (i : ℕ) where
  ignored-AtMostOnce : (j : ℕ) → Keeps (AtMostOnce i) (ignoring_errors env (store_delete env j))
  unfolding ignoring_errors
  ignored-AtMostOnce j = record { at = (store_delete-AtMostOnce env i j).at }

  pub cancel_spawn-AtMostOnce : (j : ℕ) → Keeps (AtMostOnce i) (cancel_spawn env j)
  unfolding cancel_spawn
  cancel_spawn-AtMostOnce j =
      search (keeps_rules, reads, Keeps-drop_launch, Keeps-take_ready, ignored-AtMostOnce)

  insert_unless-AtMostOnce :
      (b : Bool) (request : SpawnRequest) → Keeps (AtMostOnce i) (insert_unless env b request)
  insert_unless-AtMostOnce true request = Keeps-pure _
  insert_unless-AtMostOnce false request = store_insert-AtMostOnce env i _

  session_backed-AtMostOnce :
      (request : SpawnRequest) (o : Option Lifecycle)
      → Keeps (AtMostOnce i) (session_backed env request o)
  session_backed-AtMostOnce request none = Keeps-pure _
  session_backed-AtMostOnce request (some l) = search keeps_rules

  or_cancel-AtMostOnce :
      (j : ℕ) (b : Bool)
      → (p : Result Failure (Unit {0}) × ServerState) → AtMostOnce i p.1
      → AtMostOnce i (or_cancel env j b p).1
  or_cancel-AtMostOnce j b (ok _, s) h = h
  or_cancel-AtMostOnce j b (err e, s) h = (cancel_spawn-AtMostOnce j).at s h

  wait_or_cancel-AtMostOnce : (j : ℕ) (b : Bool) → Keeps (AtMostOnce i) (wait_or_cancel env j b)
  unfolding wait_or_cancel
  wait_or_cancel-AtMostOnce j b = record {
    at = λ s h.
        or_cancel-AtMostOnce j b (begin_ready_wait env j s)
          ((Keeps-begin_ready_wait env (reads env i) j).at s h);
  }

  pub begin_spawn-AtMostOnce :
      (request : SpawnRequest) (launch : ℕ) → Keeps (AtMostOnce i) (begin_spawn env request launch)
  unfolding begin_spawn
  begin_spawn-AtMostOnce request launch =
      search
        (
          keeps_rules, reads, Keeps-store_get, session_backed-AtMostOnce, Keeps-validate,
          insert_unless-AtMostOnce, Keeps-put_launch, wait_or_cancel-AtMostOnce,
        )
        depth 10

  -- A shim that reports.
  append_if-AtMostOnce :
      (b : Bool) (event : RuntimeEvent)
      → is_end_of i event ≡ false
      → Keeps (AtMostOnce i) (append_if env b event)
  append_if-AtMostOnce true event other = append_event-AtMostOnce env i event other
  append_if-AtMostOnce false event other = Keeps-pure event

  finish_running-AtMostOnce :
      (append : Bool) (full : Lifecycle) → Keeps (AtMostOnce i) (finish_running env append full)
  unfolding finish_running
  finish_running-AtMostOnce append full = Keeps-bind _ _ (update-AtMostOnce env i full) (λ _.
      Keeps-lifted (running_event full) _ (λ event is.
        let other = running_event_end i full event is in
        search (keeps_rules, reads, Keeps-start_exit_watcher, append_if-AtMostOnce, other)))

  settle_running-AtMostOnce :
      (request : SpawnRequest) (append : Bool) (p : Lifecycle × Bool)
      → Keeps (AtMostOnce i) (settle_running env request append p)
  unfolding settle_running
  settle_running-AtMostOnce request append (l, false) = Keeps-raise _
  settle_running-AtMostOnce request append (l, true) =
      search (keeps_rules, reads, Keeps-ask, finish_running-AtMostOnce)

  get_or_fail-AtMostOnce : (j : ℕ) (o : Option Lifecycle) → Keeps (AtMostOnce i) (get_or_fail j o)
  get_or_fail-AtMostOnce j none = Keeps-raise _
  get_or_fail-AtMostOnce j (some l) = Keeps-pure l

  record_running-AtMostOnce :
      (request : SpawnRequest) (ready : ShimReady) (append : Bool)
      → Keeps (AtMostOnce i) (spawn_record_running env request ready append)
  unfolding spawn_record_running
  record_running-AtMostOnce request ready append =
      search
        (keeps_rules, reads, Keeps-store_get, get_or_fail-AtMostOnce, settle_running-AtMostOnce)
        depth 8

  pub tracked_running-AtMostOnce :
      (request : SpawnRequest) (ready : ShimReady) (append : Bool)
      → Keeps (AtMostOnce i) (record_running env request ready append)
  unfolding record_running
  tracked_running-AtMostOnce request ready append =
      search (keeps_rules, reads, record_running-AtMostOnce, Keeps-track_shim)

  reconnect_forking-AtMostOnce :
      (ready : ShimReady) (l : Lifecycle) → Keeps (AtMostOnce i) (reconnect_forking env ready l)
  reconnect_forking-AtMostOnce ready l = Keeps-bind _ _ (update-AtMostOnce env i l) (λ _.
      Keeps-lifted (running_event l) _ (λ event is.
        let other = running_event_end i l event is in
        search (keeps_rules, reads, Keeps-start_exit_watcher, append_event-AtMostOnce, other)))

  reconnect-AtMostOnce :
      (ready : ShimReady) (l : Lifecycle) (x : LifecycleState)
      → Keeps (AtMostOnce i) (reconnect env ready l x)
  reconnect-AtMostOnce ready l LifecycleState.forking = reconnect_forking-AtMostOnce ready _
  reconnect-AtMostOnce ready l LifecycleState.running =
      search (keeps_rules, reads, Keeps-start_exit_watcher)
  reconnect-AtMostOnce ready l (LifecycleState.exited _) = Keeps-raise _
  reconnect-AtMostOnce ready l (LifecycleState.lost _) = Keeps-raise _

  record_reconnected_ready-AtMostOnce :
      (ready : ShimReady) → Keeps (AtMostOnce i) (record_reconnected_ready env ready)
  unfolding record_reconnected_ready
  record_reconnected_ready-AtMostOnce ready =
      search (keeps_rules, reads, Keeps-store_get, get_or_fail-AtMostOnce, reconnect-AtMostOnce)

  send_or_fail-AtMostOnce : (j : ℕ) (b : Bool) → Keeps (AtMostOnce i) (send_or_fail env j b)
  send_or_fail-AtMostOnce j true = Keeps-pure _
  send_or_fail-AtMostOnce j false = Keeps-raise _

  deliver_ready-AtMostOnce :
      (ready : ShimReady) (b : Bool) → Keeps (AtMostOnce i) (deliver_ready env ready b)
  deliver_ready-AtMostOnce ready true =
      search (keeps_rules, reads, Keeps-ask, send_or_fail-AtMostOnce)
  deliver_ready-AtMostOnce ready false = search (keeps_rules, record_reconnected_ready-AtMostOnce)

  pub complete_shim_ready-AtMostOnce :
      (ready : ShimReady) → Keeps (AtMostOnce i) (complete_shim_ready env ready)
  unfolding complete_shim_ready
  complete_shim_ready-AtMostOnce ready =
      search (keeps_rules, reads, Keeps-take_ready, deliver_ready-AtMostOnce)

  launch_or_fail-AtMostOnce : (j : ℕ) (o : Option ℕ) → Keeps (AtMostOnce i) (launch_or_fail env j o)
  launch_or_fail-AtMostOnce j none = Keeps-raise _
  launch_or_fail-AtMostOnce j (some launch) = Keeps-pure _

  pub take_launch_spec-AtMostOnce : (j : ℕ) → Keeps (AtMostOnce i) (take_launch_spec env j)
  unfolding take_launch_spec
  take_launch_spec-AtMostOnce j =
      search (keeps_rules, reads, Keeps-drop_launch, launch_or_fail-AtMostOnce)
