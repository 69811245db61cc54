-- ===== src/Runtime/Server/Ops.antt =====
-- The operations that handlers and background tasks of the daemon run, in any order.
use littleorgans.Base.{ℕ, Bool, List, [], ◌∷◌}
use littleorgans.Runtime.Lifecycle.{RuntimeExit, LostEvidence, ShimReady}
use littleorgans.Runtime.Server.{Env, ServerState}
use littleorgans.Runtime.Server.Termination.{record_shim_exit, record_lost, record_watcher_exit}
use littleorgans.Runtime.Server.Spawn.{
  SpawnRequest, begin_spawn, cancel_spawn, take_launch_spec, record_running, complete_shim_ready,
}
use littleorgans.Runtime.Server.Reconcile.{reconcile_once}

pub data Op : Type 0 where
  begin : SpawnRequest → ℕ → Op
  cancel : ℕ → Op
  launch : ℕ → Op
  shim_ready : ShimReady → Op
  running : SpawnRequest → ShimReady → Bool → Op
  shim_exited : ℕ → RuntimeExit → Op
  watched_exit : ℕ → Op
  lost : ℕ → LostEvidence → Op
  reconcile : Op

abbrev pub step : Env → Op → ServerState → ServerState
step env (begin request spec) s = (begin_spawn env request spec s).1
step env (cancel i) s = (cancel_spawn env i s).1
step env (launch i) s = (take_launch_spec env i s).1
step env (shim_ready ready) s = (complete_shim_ready env ready s).1
step env (running request ready append) s = (record_running env request ready append s).1
step env (shim_exited i exit) s = (record_shim_exit env i exit s).1
step env (watched_exit i) s = (record_watcher_exit env i s).1
step env (lost i evidence) s = (record_lost env i evidence s).1
step env reconcile s = (reconcile_once env s).1

unfoldable pub serve : Env → List Op → ServerState → ServerState
serve env [] s = s
serve env (op ∷ ops) s = serve env ops (step env op s)
