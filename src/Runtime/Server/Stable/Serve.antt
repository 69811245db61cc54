-- ===== src/Runtime/Server/Stable/Serve.antt =====
-- The operations of the daemon keep the row of a session that has ended.
use littleorgans.Base.{ℕ, ◌≡◌, ◌≢◌, true, List, [], ◌∷◌}
use littleorgans.Runtime.Lifecycle.{Lifecycle, is_ended, shim_exit}
use littleorgans.Runtime.Server.{Env, ServerState}
use littleorgans.Runtime.Server.Ops.{
  Op, begin, cancel, launch, shim_ready, running, shim_exited, watched_exit, lost, reconcile, step,
  serve,
}
use littleorgans.Runtime.Server.Termination.{record_shim_exit}
use littleorgans.Runtime.Server.Stable.{HasRow}
use littleorgans.Runtime.Server.Stable.Ends.{
  record_exited-HasRow, record_lost-HasRow, record_watcher_exit-HasRow, reconcile_once-HasRow,
}
use littleorgans.Runtime.Server.Stable.Spawns.{
  begin_spawn-HasRow, cancel_spawn-HasRow, tracked_running-HasRow, complete_shim_ready-HasRow,
  take_launch_spec-HasRow,
}

-- `op` is not the cancellation of the spawn of `i`, which deletes the row.
abbrev pub Spares : ℕ → Op → Type 0
Spares i (cancel j) = j ≢ i
Spares i _ = Unit {0}

abbrev pub AllSpare : ℕ → List Op → Type 0
AllSpare i [] = Unit {0}
AllSpare i (op ∷ ops) = Spares i op × AllSpare i ops

module _ (env : Env) (i : ℕ) (l₀ : Lifecycle) (ended : is_ended l₀.state ≡ true) where
  step-HasRow :
      (op : Op) (s : ServerState) → Spares i op → HasRow i l₀ s → HasRow i l₀ (step env op s)
  unfolding record_shim_exit
  step-HasRow (begin request spec) s spare h =
      (begin_spawn-HasRow env i l₀ ended request spec).at s h
  step-HasRow (cancel j) s spare h = (cancel_spawn-HasRow env i l₀ ended j spare).at s h
  step-HasRow (launch j) s spare h = (take_launch_spec-HasRow env i l₀ ended j).at s h
  step-HasRow (shim_ready ready) s spare h =
      (complete_shim_ready-HasRow env i l₀ ended ready).at s h
  step-HasRow (running request ready append) s spare h =
      (tracked_running-HasRow env i l₀ ended request ready append).at s h
  step-HasRow (shim_exited j exit) s spare h =
      (record_exited-HasRow env i l₀ ended j exit shim_exit).at s h
  step-HasRow (watched_exit j) s spare h = (record_watcher_exit-HasRow env i l₀ ended j).at s h
  step-HasRow (lost j evidence) s spare h = (record_lost-HasRow env i l₀ ended j evidence).at s h
  step-HasRow reconcile s spare h = (reconcile_once-HasRow env i l₀ ended).at s h

-- Whatever operations the daemon runs and whatever the environment answers, the row of a session
-- that has exited or was lost stays as it is, as long as no spawn of that session is cancelled.
pub serve-HasRow :
    (env : Env) (i : ℕ) (l : Lifecycle) (ops : List Op) (s : ServerState)
    → is_ended l.state ≡ true
    → AllSpare i ops
    → HasRow i l s
    → HasRow i l (serve env ops s)
unfolding serve
serve-HasRow env i l [] s ended spares h = h
serve-HasRow env i l (op ∷ ops) s ended spares h =
    serve-HasRow env i l ops (step env op s) ended spares.1
      (step-HasRow env i l ended op s spares.0 h)
