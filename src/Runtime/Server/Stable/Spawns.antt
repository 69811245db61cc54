-- ===== src/Runtime/Server/Stable/Spawns.antt =====
-- A spawn and a report of a shim keep the row of a session that has ended: server/spawn.rs.
use littleorgans.Base.{ℕ, ◌≡◌, ◌≢◌, refl, ◌∙◌, Bool, true, false, Option, none, some, [], ◌∷◌, ◌++◌}
use littleorgans.Base.Exec.{Result, ok, err}
use littleorgans.Base.Action.{modify, ◌>>=◌}
use littleorgans.Base.Action.Keeps.{
  Keeps, Keeps-pure, Keeps-raise, Keeps-modify, Keeps-unless, Keeps-bind, keeps_rules,
}
use littleorgans.Runtime.Lifecycle.{
  Lifecycle, LifecycleState, RuntimeEvent, ShimReady, is_ended, mark_running,
}
use littleorgans.Runtime.Lifecycle.Ended.{ended-mark_running, ended-is_forking, mark_running-id}
use littleorgans.Runtime.Failure.{Failure}
use littleorgans.Runtime.Server.{
  Env, ServerState, Handler, drop_row, store_insert_forking, store_delete, row_of,
}
use littleorgans.Runtime.Server.Spawn.{
  SpawnRequest, begin_spawn, cancel_spawn, take_launch_spec, spawn_record_running, record_running,
  record_reconnected_ready, complete_shim_ready, session_backed, insert_unless, wait_or_cancel,
  launch_or_fail, or_cancel, begin_ready_wait, ignoring_errors, launch_or_fail, finish_running,
  settle_running, reconnect, send_or_fail, append_if, reconnect_forking, deliver_ready,
}
use littleorgans.Runtime.Server.Rows.{
  Keeps-ask, Keeps-query, Keeps-start_exit_watcher, Keeps-validate, Keeps-put_launch,
  Keeps-drop_launch, Keeps-take_ready, Keeps-track_shim, Keeps-begin_ready_wait, find_row-append,
  find_row-drop_row,
}
use littleorgans.Runtime.Server.Stable.{
  HasRow, reads, update-HasRow, append_event-HasRow, looked-HasRow,
}
use littleorgans.Runtime.Server.Stable.Ends.{get-HasRow}

module _ (env : Env) (i : ℕ) (l₀ : Lifecycle) (ended : is_ended l₀.state ≡ true) where
  delete_row-HasRow :
      (j : ℕ)
      → j ≢ i
      → Keeps
          (HasRow i l₀)
          (modify {E = Failure} (λ s. record s { lifecycles = drop_row j s.lifecycles }))
  unfolding HasRow
  delete_row-HasRow j apart = Keeps-modify _ (λ s h. find_row-drop_row i j s.lifecycles apart ∙ h)

  store_delete-HasRow : (j : ℕ) → j ≢ i → Keeps (HasRow i l₀) (store_delete env j)
  unfolding store_delete
  store_delete-HasRow j apart = search (keeps_rules, reads, Keeps-query, delete_row-HasRow)

  ignored-HasRow : (j : ℕ) → j ≢ i → Keeps (HasRow i l₀) (ignoring_errors env (store_delete env j))
  unfolding ignoring_errors
  ignored-HasRow j apart = record { at = (store_delete-HasRow j apart).at }

  pub cancel_spawn-HasRow : (j : ℕ) → j ≢ i → Keeps (HasRow i l₀) (cancel_spawn env j)
  unfolding cancel_spawn
  cancel_spawn-HasRow j apart =
      search (keeps_rules, reads, Keeps-drop_launch, Keeps-take_ready, ignored-HasRow)

  insert_row-HasRow :
      (l : Lifecycle)
      → Keeps
          (HasRow i l₀)
          (modify {E = Failure} (λ s. record s { lifecycles = s.lifecycles ++ row_of l ∷ [] }))
  unfolding HasRow
  insert_row-HasRow l = Keeps-modify _ (λ s h. find_row-append i s.lifecycles (row_of l ∷ []) l₀ h)

  store_insert-HasRow : (l : Lifecycle) → Keeps (HasRow i l₀) (store_insert_forking env l)
  unfolding store_insert_forking
  store_insert-HasRow l = search (keeps_rules, reads, Keeps-query, insert_row-HasRow)

  insert_unless-HasRow :
      (b : Bool) (request : SpawnRequest) → Keeps (HasRow i l₀) (insert_unless env b request)
  insert_unless-HasRow true request = Keeps-pure _
  insert_unless-HasRow false request = store_insert-HasRow _

  session_backed-HasRow :
      (request : SpawnRequest) (o : Option Lifecycle)
      → Keeps (HasRow i l₀) (session_backed env request o)
  session_backed-HasRow request none = Keeps-pure _
  session_backed-HasRow request (some l) = search keeps_rules

  or_cancel-HasRow :
      (j : ℕ) (b : Bool)
      → j ≢ i
      → (p : Result Failure (Unit {0}) × ServerState) → HasRow i l₀ p.1
      → HasRow i l₀ (or_cancel env j b p).1
  or_cancel-HasRow j b apart (ok _, s) h = h
  or_cancel-HasRow j b apart (err e, s) h = (cancel_spawn-HasRow j apart).at s h

  wait_or_cancel-HasRow : (j : ℕ) (b : Bool) → j ≢ i → Keeps (HasRow i l₀) (wait_or_cancel env j b)
  unfolding wait_or_cancel
  wait_or_cancel-HasRow j b apart = record {
    at = λ s h.
        or_cancel-HasRow j b apart (begin_ready_wait env j s)
          ((Keeps-begin_ready_wait env (reads env i l₀) j).at s h);
  }

  refused-HasRow :
      {B : Type 0} (request : SpawnRequest) (f : Bool → Handler B)
      → Keeps (HasRow i l₀) (session_backed env request (some l₀) >>= f)
  unfolding ◌>>=◌
  refused-HasRow request f = record { at = λ s h. rw (ended-is_forking l₀.state ended) h }

  pub begin_spawn-HasRow :
      (request : SpawnRequest) (launch : ℕ) → Keeps (HasRow i l₀) (begin_spawn env request launch)
  unfolding begin_spawn
  begin_spawn-HasRow request launch =
      looked-HasRow env i l₀ request.session_id _ (λ e. refused-HasRow request _)
        (λ o apart far.
          search
            (
              keeps_rules, reads, apart, session_backed-HasRow, Keeps-validate,
              insert_unless-HasRow, Keeps-put_launch, wait_or_cancel-HasRow,
            )
            depth 9)

  -- A shim that reports.
  append_if-HasRow : (b : Bool) (event : RuntimeEvent) → Keeps (HasRow i l₀) (append_if env b event)
  append_if-HasRow true event = append_event-HasRow env i l₀ event
  append_if-HasRow false event = Keeps-pure event

  finish_running-HasRow :
      (append : Bool) (full : Lifecycle)
      → full.session_id ≢ i
      → Keeps (HasRow i l₀) (finish_running env append full)
  unfolding finish_running
  finish_running-HasRow append full far =
      search (keeps_rules, far, reads, update-HasRow, Keeps-start_exit_watcher, append_if-HasRow)
        depth 9

  settle_running-HasRow :
      (request : SpawnRequest) (append : Bool) (p : Lifecycle × Bool)
      → (p.1 ≡ true → p.0.session_id ≢ i)
      → Keeps (HasRow i l₀) (settle_running env request append p)
  unfolding settle_running
  settle_running-HasRow request append (l, false) other = Keeps-raise _
  settle_running-HasRow request append (l, true) other =
      let far : l.session_id ≢ i = other refl in
      search (keeps_rules, reads, Keeps-ask, finish_running-HasRow)

  record_running-HasRow :
      (request : SpawnRequest) (ready : ShimReady) (append : Bool)
      → Keeps (HasRow i l₀) (spawn_record_running env request ready append)
  unfolding spawn_record_running
  record_running-HasRow request ready append =
      get-HasRow env i l₀ ended request.session_id _
        (let stays = ended-mark_running l₀ ready ended in
          let idle = settle_running-HasRow request append (mark_running l₀ ready) (λ e. cc) in
          Keeps-bind _ _ (Keeps-unless _ _) (λ _. idle))
        (λ l far.
          let moved =
            settle_running-HasRow request append (mark_running l ready)
              (λ _. rw (mark_running-id l ready) far) in
          Keeps-bind _ _ (Keeps-unless _ _) (λ _. moved))

  pub tracked_running-HasRow :
      (request : SpawnRequest) (ready : ShimReady) (append : Bool)
      → Keeps (HasRow i l₀) (record_running env request ready append)
  unfolding record_running
  tracked_running-HasRow request ready append =
      search (keeps_rules, reads, record_running-HasRow, Keeps-track_shim)

  reconnect_forking-HasRow :
      (ready : ShimReady) (l : Lifecycle)
      → l.session_id ≢ i
      → Keeps (HasRow i l₀) (reconnect_forking env ready l)
  reconnect_forking-HasRow ready l far =
      search (keeps_rules, far, reads, update-HasRow, Keeps-start_exit_watcher, append_event-HasRow)
        depth 9

  reconnect-HasRow :
      (ready : ShimReady) (l : Lifecycle) (x : LifecycleState)
      → (is_ended x ≡ false → l.session_id ≢ i)
      → Keeps (HasRow i l₀) (reconnect env ready l x)
  reconnect-HasRow ready l LifecycleState.forking other =
      reconnect_forking-HasRow ready (mark_running l ready).0
        (rw (mark_running-id l ready) (other refl))
  reconnect-HasRow ready l LifecycleState.running other =
      search (keeps_rules, reads, Keeps-start_exit_watcher)
  reconnect-HasRow ready l (LifecycleState.exited _) other = Keeps-raise _
  reconnect-HasRow ready l (LifecycleState.lost _) other = Keeps-raise _

  record_reconnected_ready-HasRow :
      (ready : ShimReady) → Keeps (HasRow i l₀) (record_reconnected_ready env ready)
  unfolding record_reconnected_ready
  record_reconnected_ready-HasRow ready =
      get-HasRow env i l₀ ended ready.session_id _ (reconnect-HasRow ready l₀ l₀.state (λ e. cc))
        (λ l far. reconnect-HasRow ready l l.state (λ _. far))

  send_or_fail-HasRow : (j : ℕ) (b : Bool) → Keeps (HasRow i l₀) (send_or_fail env j b)
  send_or_fail-HasRow j true = Keeps-pure _
  send_or_fail-HasRow j false = Keeps-raise _

  deliver_ready-HasRow :
      (ready : ShimReady) (b : Bool) → Keeps (HasRow i l₀) (deliver_ready env ready b)
  deliver_ready-HasRow ready true = search (keeps_rules, reads, Keeps-ask, send_or_fail-HasRow)
  deliver_ready-HasRow ready false = search (keeps_rules, record_reconnected_ready-HasRow)

  pub complete_shim_ready-HasRow :
      (ready : ShimReady) → Keeps (HasRow i l₀) (complete_shim_ready env ready)
  unfolding complete_shim_ready
  complete_shim_ready-HasRow ready =
      search (keeps_rules, reads, Keeps-take_ready, deliver_ready-HasRow)

  launch_or_fail-HasRow : (j : ℕ) (o : Option ℕ) → Keeps (HasRow i l₀) (launch_or_fail env j o)
  launch_or_fail-HasRow j none = Keeps-raise _
  launch_or_fail-HasRow j (some launch) = Keeps-pure _

  pub take_launch_spec-HasRow : (j : ℕ) → Keeps (HasRow i l₀) (take_launch_spec env j)
  unfolding take_launch_spec
  take_launch_spec-HasRow j = search (keeps_rules, reads, Keeps-drop_launch, launch_or_fail-HasRow)
