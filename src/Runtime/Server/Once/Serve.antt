-- ===== src/Runtime/Server/Once/Serve.antt =====
-- Over any operations of the daemon the log holds at most one end of each session.
use littleorgans.Base.{ℕ, List, [], ◌∷◌}
use littleorgans.Runtime.Lifecycle.{shim_exit}
use littleorgans.Runtime.Server.{Env, ServerState}
use littleorgans.Runtime.Server.Ops.{
  Op, begin, cancel, launch, shim_ready, running, shim_exited, watched_exit, lost, reconcile, step,
  serve,
}
use littleorgans.Runtime.Server.Termination.{record_shim_exit}
use littleorgans.Runtime.Server.Once.{AtMostOnce}
use littleorgans.Runtime.Server.Once.Ends.{
  record_exited-AtMostOnce, record_lost-AtMostOnce, record_watcher_exit-AtMostOnce,
  reconcile_once-AtMostOnce,
}
use littleorgans.Runtime.Server.Once.Spawns.{
  begin_spawn-AtMostOnce, cancel_spawn-AtMostOnce, tracked_running-AtMostOnce,
  complete_shim_ready-AtMostOnce, take_launch_spec-AtMostOnce,
}

step-AtMostOnce :
    (env : Env) (i : ℕ) (op : Op) (s : ServerState) → AtMostOnce i s → AtMostOnce i (step env op s)
unfolding record_shim_exit
step-AtMostOnce env i (begin request spec) s h = (begin_spawn-AtMostOnce env i request spec).at s h
step-AtMostOnce env i (cancel j) s h = (cancel_spawn-AtMostOnce env i j).at s h
step-AtMostOnce env i (launch j) s h = (take_launch_spec-AtMostOnce env i j).at s h
step-AtMostOnce env i (shim_ready ready) s h = (complete_shim_ready-AtMostOnce env i ready).at s h
step-AtMostOnce env i (running request ready append) s h =
    (tracked_running-AtMostOnce env i request ready append).at s h
step-AtMostOnce env i (shim_exited j exit) s h =
    (record_exited-AtMostOnce env i j exit shim_exit).at s h
step-AtMostOnce env i (watched_exit j) s h = (record_watcher_exit-AtMostOnce env i j).at s h
step-AtMostOnce env i (lost j evidence) s h = (record_lost-AtMostOnce env i j evidence).at s h
step-AtMostOnce env i reconcile s h = (reconcile_once-AtMostOnce env i).at s h

-- Whatever operations the daemon runs and whatever the environment answers, if the log holds no end
-- of a session that is not in the set of ended sessions, and at most one of a session that is, then
-- it still does at the end of the run.
pub serve-AtMostOnce :
    (env : Env) (i : ℕ) (ops : List Op) (s : ServerState)
    → AtMostOnce i s
    → AtMostOnce i (serve env ops s)
unfolding serve
serve-AtMostOnce env i [] s h = h
serve-AtMostOnce env i (op ∷ ops) s h =
    serve-AtMostOnce env i ops (step env op s) (step-AtMostOnce env i op s h)
