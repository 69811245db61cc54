-- ===== src/Runtime/Server/Once/Ends.antt =====
-- What ends a runtime logs at most one end of each session: server/termination.rs,
-- server/watcher.rs and reconcile.rs.
use littleorgans.Base.{
  ℕ, ◌+◌, ◌≡◌, sym, Bool, true, false, Option, none, some, List, [], ◌∷◌, Bool-cases, Option-cases,
  inl, inr,
}
use littleorgans.Base.Exec.{Result, ok, err}
use littleorgans.Base.Action.{◌>>=◌}
use littleorgans.Base.Action.Keeps.{Keeps, Keeps-pure, Keeps-raise, Keeps-bind, keeps_rules}
use littleorgans.Runtime.Lifecycle.{
  Lifecycle, RuntimeExit, LostEvidence, TerminationEvidence, mark_exited, mark_lost, process_exit,
  shim_exit,
}
use littleorgans.Runtime.Lifecycle.Ended.{mark_exited-id, mark_lost-id}
use littleorgans.Runtime.Failure.{Failure}
use littleorgans.Runtime.Server.{Env, ServerState, Handler, query, find_row, store_get, forget_shim}
use littleorgans.Runtime.Server.Termination.{
  finish_terminal, settle_terminal, record_terminal, record_exited, record_lost,
  record_watcher_exit, is_terminal, watcher_evidence, exit_by, exit_unless, shim_pid_of, ended_read,
}
use littleorgans.Runtime.Server.Reconcile.{
  pid_or_fail, lost_evidence, reconcile_row, reconcile_rows, reconcile_once,
}
use littleorgans.Runtime.Server.Rows.{
  Keeps-store_get, Keeps-ask, Keeps-start_exit_watcher, Keeps-store_running,
  Keeps-record_probe_sweep, Keeps-lost_evidence, find_row-id,
}
use littleorgans.Runtime.Server.Once.{
  AtMostOnce, reads, update-AtMostOnce, finish_terminal-AtMostOnce,
}

module _ (env : Env) (i : ℕ) where
  looked-AtMostOnce :
      {B : Type 0} (j : ℕ) (f : Option Lifecycle → Handler B)
      → Keeps (AtMostOnce i) (f none)
      → ((l : Lifecycle) → l.session_id ≡ j → Keeps (AtMostOnce i) (f (some l)))
      → Keeps (AtMostOnce i) (store_get env j >>= f)
  unfolding store_get query ◌>>=◌ AtMostOnce
  looked-AtMostOnce j f absent present = record {
    at = λ s h. elim (Bool-cases (env.db_ok s.clock)) [
      | inr down ↦ rw down h
      | inl up ↦ elim (Option-cases (find_row j s.lifecycles)) [
        | inl none_there ↦ rw (up, none_there) (absent.at (record s { clock = s.clock + 1 }) h)
        | inr (l, found) ↦
            rw (up, found)
              ((present l (find_row-id j s.lifecycles l found)).at
                (record s { clock = s.clock + 1 }) h)
      ]
    ];
  }

  finish_at :
      (j : ℕ) (l : Lifecycle) (evidence : TerminationEvidence)
      → l.session_id ≡ j
      → Keeps (AtMostOnce i) (finish_terminal env j l evidence)
  finish_at j l evidence id = rw (sym id) (finish_terminal-AtMostOnce env i l evidence)

  settle_terminal-AtMostOnce :
      (j : ℕ) (evidence : TerminationEvidence) (p : Lifecycle × Bool)
      → p.0.session_id ≡ j
      → Keeps (AtMostOnce i) (settle_terminal env j evidence p)
  unfolding settle_terminal
  settle_terminal-AtMostOnce j evidence (l, false) id = Keeps-pure _
  settle_terminal-AtMostOnce j evidence (l, true) id =
      let finished = finish_at j l evidence id in
      search (keeps_rules, update-AtMostOnce, finish_at, id)

  record_terminal-AtMostOnce :
      (j : ℕ) (evidence : TerminationEvidence) (mark : Lifecycle → Lifecycle × Bool)
      → ((l : Lifecycle) → (mark l).0.session_id ≡ l.session_id)
      → Keeps (AtMostOnce i) (record_terminal env j evidence mark)
  unfolding record_terminal ◌>>=◌
  record_terminal-AtMostOnce j evidence mark keeps_id =
      looked-AtMostOnce j _ (record { at = λ s h. h })
        (λ l id. settle_terminal-AtMostOnce j evidence (mark l) (rw (keeps_id l) id))

  pub record_exited-AtMostOnce :
      (j : ℕ) (exit : RuntimeExit) (evidence : TerminationEvidence)
      → Keeps (AtMostOnce i) (record_exited env j exit evidence)
  unfolding record_exited forget_shim AtMostOnce
  record_exited-AtMostOnce j exit evidence =
      let k =
        record_terminal-AtMostOnce j evidence (λ l. mark_exited l exit)
          (λ l. mark_exited-id l exit) in
      record { at = k.at }

  pub record_lost-AtMostOnce :
      (j : ℕ) (evidence : LostEvidence) → Keeps (AtMostOnce i) (record_lost env j evidence)
  unfolding record_lost forget_shim AtMostOnce
  record_lost-AtMostOnce j evidence =
      let k =
        record_terminal-AtMostOnce j (TerminationEvidence.lost evidence) (λ l. mark_lost l evidence)
          (λ l. mark_lost-id l evidence) in
      record { at = k.at }

  -- The watcher of a process.
  ended_read-AtMostOnce :
      (p : Result Failure (Option Lifecycle) × ServerState)
      → AtMostOnce i p.1
      → AtMostOnce i (ended_read env p).1
  ended_read-AtMostOnce (ok found, s) h = h
  ended_read-AtMostOnce (err e, s) h = h

  is_terminal-AtMostOnce : (j : ℕ) → Keeps (AtMostOnce i) (is_terminal env j)
  unfolding is_terminal
  is_terminal-AtMostOnce j = record {
    at = λ s h.
        ended_read-AtMostOnce (store_get env j s) ((Keeps-store_get env (reads env i) j).at s h);
  }

  shim_pid_of-AtMostOnce : (o : Option Lifecycle) → Keeps (AtMostOnce i) (shim_pid_of env o)
  shim_pid_of-AtMostOnce none = Keeps-raise _
  shim_pid_of-AtMostOnce (some l) = elim (Option-cases l.shim_pid) [
    | inl e ↦ rw e (Keeps-raise _)
    | inr (pid, e) ↦ rw e (Keeps-pure _)
  ]

  watcher_evidence-AtMostOnce : (j : ℕ) → Keeps (AtMostOnce i) (watcher_evidence env j)
  unfolding watcher_evidence
  watcher_evidence-AtMostOnce j =
      search (keeps_rules, reads, Keeps-store_get, shim_pid_of-AtMostOnce, Keeps-ask)

  exit_by-AtMostOnce :
      (j : ℕ) (evidence : TerminationEvidence) → Keeps (AtMostOnce i) (exit_by env j evidence)
  exit_by-AtMostOnce j (TerminationEvidence.lost evidence) = record_lost-AtMostOnce j evidence
  exit_by-AtMostOnce j process_exit = record_exited-AtMostOnce j _ process_exit
  exit_by-AtMostOnce j shim_exit = Keeps-pure _

  exit_unless-AtMostOnce : (j : ℕ) (b : Bool) → Keeps (AtMostOnce i) (exit_unless env j b)
  exit_unless-AtMostOnce j true = Keeps-pure _
  exit_unless-AtMostOnce j false =
      search (keeps_rules, watcher_evidence-AtMostOnce, exit_by-AtMostOnce)

  pub record_watcher_exit-AtMostOnce : (j : ℕ) → Keeps (AtMostOnce i) (record_watcher_exit env j)
  unfolding record_watcher_exit
  record_watcher_exit-AtMostOnce j =
      search (keeps_rules, is_terminal-AtMostOnce, exit_unless-AtMostOnce)

  -- A sweep.
  pid_or_fail-AtMostOnce : (o : Option ℕ) → Keeps (AtMostOnce i) (pid_or_fail env o)
  pid_or_fail-AtMostOnce none = Keeps-raise _
  pid_or_fail-AtMostOnce (some pid) = Keeps-pure _

  lost_evidence-AtMostOnce : (l : Lifecycle) → Keeps (AtMostOnce i) (lost_evidence env l)
  lost_evidence-AtMostOnce l = Keeps-lost_evidence env (reads env i) l

  reconcile_row-AtMostOnce :
      (l : Lifecycle) (o : Option LostEvidence) → Keeps (AtMostOnce i) (reconcile_row env l o)
  unfolding reconcile_row
  reconcile_row-AtMostOnce l (some evidence) = record_lost-AtMostOnce l.session_id evidence
  reconcile_row-AtMostOnce l none =
      search (keeps_rules, reads, pid_or_fail-AtMostOnce, Keeps-start_exit_watcher)

  reconcile_rows-AtMostOnce : (ls : List Lifecycle) → Keeps (AtMostOnce i) (reconcile_rows env ls)
  unfolding reconcile_rows
  reconcile_rows-AtMostOnce [] = Keeps-pure _
  reconcile_rows-AtMostOnce (l ∷ ls) =
      Keeps-bind (lost_evidence env l) _ (lost_evidence-AtMostOnce l) (λ evidence.
        Keeps-bind (reconcile_row env l evidence) _ (reconcile_row-AtMostOnce l evidence)
          (λ event. Keeps-bind _ _ (reconcile_rows-AtMostOnce ls) (λ rest. Keeps-pure _)))

  pub reconcile_once-AtMostOnce : Keeps (AtMostOnce i) (reconcile_once env)
  unfolding reconcile_once
  reconcile_once-AtMostOnce =
      search (
        keeps_rules, reads, Keeps-store_running, reconcile_rows-AtMostOnce,
        Keeps-record_probe_sweep,
      )
