-- ===== src/Runtime/Server/Rows.antt =====
-- Properties that handlers keep, and the handlers that touch neither the rows nor the log nor the
-- set of ended sessions.
use littleorgans.Base.{
  ℕ, ◌≡◌, ◌≢◌, refl, Bool, true, false, Option, none, some, List, [], ◌∷◌, ◌++◌, arith,
}
use littleorgans.Base.Action.{modify}
use littleorgans.Base.Action.Keeps.{Keeps, Keeps-modify, keeps_rules}
use littleorgans.Runtime.Lifecycle.{Lifecycle, TmuxAddress, IsolationPolicy}
use littleorgans.Runtime.Failure.{Failure}
use littleorgans.Runtime.Server.{
  Env, ServerState, ask, StartTime, known, gone, unsupported, probe_failed, query, find_row,
  set_row, drop_row, store_get, store_running, record_probe_sweep, start_exit_watcher,
  remove_watcher, take_ready, track_shim,
}
use littleorgans.Runtime.Server.Reconcile.{
  judge, judge_stored, host_process_lost_evidence, pid_or_fail, docker_judge, evidence_in,
  lost_evidence,
}
use littleorgans.Runtime.Server.Spawn.{
  pane_alive, drop_launch, put_launch, begin_ready_wait, validate_spawn_target,
}

-- `P` looks at the rows, the log and the set of ended sessions alone.
pub record Reads (P : ServerState → Type 0) : Type 0 where
  pub move :
      (s t : ServerState)
      → t.lifecycles ≡ s.lifecycles
      → t.log ≡ s.log
      → t.terminated_events ≡ s.terminated_events
      → P s
      → P t

module _ (env : Env) {P : ServerState → Type 0} (reads : Reads P) where
  pub Keeps-ask : {A : Type 0} (f : ℕ → A) → Keeps P (ask f)
  unfolding ask
  Keeps-ask f = record { at = λ s h. reads.move s _ refl refl refl h }

  pub Keeps-query : Keeps P (query env)
  unfolding query
  Keeps-query = record { at = λ s h. reads.move s _ refl refl refl h }

  pub Keeps-store_get : (i : ℕ) → Keeps P (store_get env i)
  unfolding store_get
  Keeps-store_get i = search (keeps_rules, Keeps-query)

  pub Keeps-store_running : Keeps P (store_running env)
  unfolding store_running
  Keeps-store_running = search (keeps_rules, Keeps-query)

  Keeps-write_sweep :
      Keeps P (modify {E = Failure} (λ s. record s { last_probe_sweep = some s.clock }))
  Keeps-write_sweep = Keeps-modify _ (λ s h. reads.move s _ refl refl refl h)

  pub Keeps-record_probe_sweep : Keeps P (record_probe_sweep env)
  unfolding record_probe_sweep
  Keeps-record_probe_sweep = search (keeps_rules, Keeps-query, Keeps-write_sweep)

  pub Keeps-start_exit_watcher : (i : ℕ) → Keeps P (start_exit_watcher env i)
  unfolding start_exit_watcher
  Keeps-start_exit_watcher i = record {
    at = λ s h. reads.move s _ (ground arith) (ground arith) (ground arith) h;
  }

  pub Keeps-remove_watcher : (i : ℕ) → Keeps P (remove_watcher i)
  unfolding remove_watcher
  Keeps-remove_watcher i = Keeps-modify _ (λ s h. reads.move s _ refl refl refl h)

  pub Keeps-take_ready : (i : ℕ) → Keeps P (take_ready i)
  unfolding take_ready
  Keeps-take_ready i = record { at = λ s h. reads.move s _ refl refl refl h }

  pub Keeps-track_shim : (i pid : ℕ) → Keeps P (track_shim i pid)
  unfolding track_shim
  Keeps-track_shim i pid = Keeps-modify _ (λ s h. reads.move s _ refl refl refl h)

  pub Keeps-put_launch : (i launch : ℕ) → Keeps P (put_launch env i launch)
  unfolding put_launch
  Keeps-put_launch i launch = Keeps-modify _ (λ s h. reads.move s _ refl refl refl h)

  pub Keeps-drop_launch : (i : ℕ) → Keeps P (drop_launch env i)
  Keeps-drop_launch i = Keeps-modify _ (λ s h. reads.move s _ refl refl refl h)

  pub Keeps-begin_ready_wait : (i : ℕ) → Keeps P (begin_ready_wait env i)
  unfolding begin_ready_wait
  Keeps-begin_ready_wait i = record {
    at = λ s h. reads.move s _ (ground arith) (ground arith) (ground arith) h;
  }

  pub Keeps-pane_alive :
      (address : TmuxAddress) (o : Option Bool) → Keeps P (pane_alive env address o)
  Keeps-pane_alive address none = search keeps_rules
  Keeps-pane_alive address (some true) = search keeps_rules
  Keeps-pane_alive address (some false) = search keeps_rules

  pub Keeps-validate : (target : Option TmuxAddress) → Keeps P (validate_spawn_target env target)
  unfolding validate_spawn_target
  Keeps-validate none = search keeps_rules
  Keeps-validate (some address) = search (keeps_rules, Keeps-ask, Keeps-pane_alive)

  -- The evidence of a sweep.
  pub Keeps-judge : (pid stored : ℕ) (found : StartTime) → Keeps P (judge env pid stored found)
  Keeps-judge pid stored (known t) = search keeps_rules
  Keeps-judge pid stored gone = search keeps_rules
  Keeps-judge pid stored unsupported = search (keeps_rules, Keeps-ask)
  Keeps-judge pid stored probe_failed = search (keeps_rules, Keeps-ask)

  Keeps-judge_stored : (pid : ℕ) (o : Option ℕ) → Keeps P (judge_stored env pid o)
  Keeps-judge_stored pid none = search keeps_rules
  Keeps-judge_stored pid (some stored) = search (keeps_rules, Keeps-ask, Keeps-judge)

  pub Keeps-host_evidence :
      (pid : ℕ) (stored : Option ℕ) → Keeps P (host_process_lost_evidence env pid stored)
  unfolding host_process_lost_evidence
  Keeps-host_evidence pid stored = search (keeps_rules, Keeps-ask, Keeps-judge_stored)

  Keeps-pid_or_fail : (o : Option ℕ) → Keeps P (pid_or_fail env o)
  Keeps-pid_or_fail none = search keeps_rules
  Keeps-pid_or_fail (some pid) = search keeps_rules

  Keeps-docker_judge : (o : Option Bool) → Keeps P (docker_judge env o)
  Keeps-docker_judge none = search keeps_rules
  Keeps-docker_judge (some b) = search keeps_rules

  Keeps-evidence_in : (l : Lifecycle) (x : IsolationPolicy) → Keeps P (evidence_in env l x)
  Keeps-evidence_in l IsolationPolicy.host =
      search (keeps_rules, Keeps-pid_or_fail, Keeps-host_evidence)
  Keeps-evidence_in l (IsolationPolicy.docker _) =
      search (keeps_rules, Keeps-ask, Keeps-docker_judge)

  pub Keeps-lost_evidence : (l : Lifecycle) → Keeps P (lost_evidence env l)
  unfolding lost_evidence
  Keeps-lost_evidence l = Keeps-evidence_in l l.isolation

-- Rows.

pub find_row-id :
    (i : ℕ) (rows : List Lifecycle) (l : Lifecycle) → find_row i rows ≡ some l → l.session_id ≡ i
unfolding find_row
find_row-id i [] l h = cc
find_row-id i (m ∷ ms) l h = ground (arith, find_row-id i ms l)

pub find_row-set_row :
    (i : ℕ) (l : Lifecycle) (rows : List Lifecycle)
    → l.session_id ≢ i
    → find_row i (set_row l rows) ≡ find_row i rows
unfolding find_row set_row
find_row-set_row i l [] h = refl
find_row-set_row i l (m ∷ ms) h = ground (arith, find_row-set_row i l ms h)

pub find_row-drop_row :
    (i j : ℕ) (rows : List Lifecycle) → j ≢ i → find_row i (drop_row j rows) ≡ find_row i rows
unfolding find_row drop_row
find_row-drop_row i j [] h = refl
find_row-drop_row i j (m ∷ ms) h = ground (arith, find_row-drop_row i j ms h)

pub find_row-append :
    (i : ℕ) (rows more : List Lifecycle) (l : Lifecycle)
    → find_row i rows ≡ some l
    → find_row i (rows ++ more) ≡ some l
unfolding find_row
find_row-append i [] more l h = cc
find_row-append i (m ∷ ms) more l h = ground (arith, find_row-append i ms more l)
