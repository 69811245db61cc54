-- ===== src/Runtime/Server/Stable/Ends.antt =====
-- What ends a runtime keeps the row of a session that has ended: server/termination.rs,
-- server/watcher.rs and reconcile.rs.
use littleorgans.Base.{
  ℕ, ◌≡◌, ◌≢◌, refl, Bool, true, false, Option, none, some, List, [], ◌∷◌, Option-cases, inl, inr,
}
use littleorgans.Base.Exec.{Result, ok, err}
use littleorgans.Base.Action.{◌>>=◌}
use littleorgans.Base.Action.Keeps.{Keeps, Keeps-pure, Keeps-raise, Keeps-bind, keeps_rules}
use littleorgans.Runtime.Lifecycle.{
  Lifecycle, RuntimeExit, LostEvidence, TerminationEvidence, is_ended, mark_exited, mark_lost,
  process_exit, shim_exit,
}
use littleorgans.Runtime.Lifecycle.Ended.{
  ended-mark_exited, ended-mark_lost, mark_exited-id, mark_lost-id,
}
use littleorgans.Runtime.Failure.{Failure}
use littleorgans.Runtime.Server.{Env, ServerState, Handler, store_get, forget_shim}
use littleorgans.Runtime.Server.Termination.{
  settle_terminal, record_terminal, get_or_fail, record_exited, record_lost, record_watcher_exit,
  is_terminal, watcher_evidence, exit_by, exit_unless, shim_pid_of, ended_read,
}
use littleorgans.Runtime.Server.Reconcile.{
  pid_or_fail, lost_evidence, reconcile_row, reconcile_rows, reconcile_once,
}
use littleorgans.Runtime.Server.Rows.{
  Keeps-store_running, Keeps-record_probe_sweep, Keeps-lost_evidence, Keeps-ask, Keeps-store_get,
  Keeps-start_exit_watcher,
}
use littleorgans.Runtime.Server.Stable.{HasRow, reads, settle_terminal-HasRow, looked-HasRow}

module _ (env : Env) (i : ℕ) (l₀ : Lifecycle) (ended : is_ended l₀.state ≡ true) where
  found-HasRow :
      {B : Type 0} (j : ℕ) (f : Lifecycle → Handler B)
      → ((l : Lifecycle) → l.session_id ≢ i → Keeps (HasRow i l₀) (f l))
      → (o : Option Lifecycle) → ((l : Lifecycle) → o ≡ some l → l.session_id ≢ i)
      → Keeps (HasRow i l₀) (get_or_fail j o >>= f)
  unfolding ◌>>=◌
  found-HasRow j f other none far = record { at = λ s h. h }
  found-HasRow j f other (some l) far = other l (far l refl)

  pub get-HasRow :
      {B : Type 0} (j : ℕ) (f : Lifecycle → Handler B)
      → Keeps (HasRow i l₀) (f l₀)
      → ((l : Lifecycle) → l.session_id ≢ i → Keeps (HasRow i l₀) (f l))
      → Keeps (HasRow i l₀) (store_get env j >>= λ found. get_or_fail j found >>= f)
  unfolding ◌>>=◌
  get-HasRow j f same other =
      looked-HasRow env i l₀ j (λ found. get_or_fail j found >>= f) (λ e. same)
        (λ o apart far. found-HasRow j f other o far)

  record_terminal-HasRow :
      (j : ℕ) (evidence : TerminationEvidence) (mark : Lifecycle → Lifecycle × Bool)
      → (mark l₀).1 ≡ false
      → ((l : Lifecycle) → (mark l).0.session_id ≡ l.session_id)
      → Keeps (HasRow i l₀) (record_terminal env j evidence mark)
  unfolding record_terminal
  record_terminal-HasRow j evidence mark stays id =
      get-HasRow j (λ l. settle_terminal env j evidence (mark l))
        (settle_terminal-HasRow env i l₀ j evidence (mark l₀) (λ marked. cc))
        (λ l far. settle_terminal-HasRow env i l₀ j evidence (mark l) (λ _. rw (id l) far))

  pub record_exited-HasRow :
      (j : ℕ) (exit : RuntimeExit) (evidence : TerminationEvidence)
      → Keeps (HasRow i l₀) (record_exited env j exit evidence)
  unfolding record_exited forget_shim HasRow
  record_exited-HasRow j exit evidence =
      let k =
        record_terminal-HasRow j evidence (λ l. mark_exited l exit)
          (ended-mark_exited l₀ exit ended) (λ l. mark_exited-id l exit) in
      record { at = k.at }

  pub record_lost-HasRow :
      (j : ℕ) (evidence : LostEvidence) → Keeps (HasRow i l₀) (record_lost env j evidence)
  unfolding record_lost forget_shim HasRow
  record_lost-HasRow j evidence =
      let k =
        record_terminal-HasRow j (TerminationEvidence.lost evidence) (λ l. mark_lost l evidence)
          (ended-mark_lost l₀ evidence ended) (λ l. mark_lost-id l evidence) in
      record { at = k.at }

  -- The watcher of a process.
  ended_read-HasRow :
      (p : Result Failure (Option Lifecycle) × ServerState)
      → HasRow i l₀ p.1
      → HasRow i l₀ (ended_read env p).1
  ended_read-HasRow (ok found, s) h = h
  ended_read-HasRow (err e, s) h = h

  is_terminal-HasRow : (j : ℕ) → Keeps (HasRow i l₀) (is_terminal env j)
  unfolding is_terminal
  is_terminal-HasRow j = record {
    at = λ s h.
        ended_read-HasRow (store_get env j s) ((Keeps-store_get env (reads env i l₀) j).at s h);
  }

  shim_pid_of-HasRow : (o : Option Lifecycle) → Keeps (HasRow i l₀) (shim_pid_of env o)
  shim_pid_of-HasRow none = Keeps-raise _
  shim_pid_of-HasRow (some l) = elim (Option-cases l.shim_pid) [
    | inl e ↦ rw e (Keeps-raise _)
    | inr (pid, e) ↦ rw e (Keeps-pure _)
  ]

  watcher_evidence-HasRow : (j : ℕ) → Keeps (HasRow i l₀) (watcher_evidence env j)
  unfolding watcher_evidence
  watcher_evidence-HasRow j =
      search (keeps_rules, reads, Keeps-store_get, shim_pid_of-HasRow, Keeps-ask)

  exit_by-HasRow :
      (j : ℕ) (evidence : TerminationEvidence) → Keeps (HasRow i l₀) (exit_by env j evidence)
  exit_by-HasRow j (TerminationEvidence.lost evidence) = record_lost-HasRow j evidence
  exit_by-HasRow j process_exit = record_exited-HasRow j _ process_exit
  exit_by-HasRow j shim_exit = Keeps-pure _

  exit_unless-HasRow : (j : ℕ) (b : Bool) → Keeps (HasRow i l₀) (exit_unless env j b)
  exit_unless-HasRow j true = Keeps-pure _
  exit_unless-HasRow j false = search (keeps_rules, watcher_evidence-HasRow, exit_by-HasRow)

  pub record_watcher_exit-HasRow : (j : ℕ) → Keeps (HasRow i l₀) (record_watcher_exit env j)
  unfolding record_watcher_exit
  record_watcher_exit-HasRow j = search (keeps_rules, is_terminal-HasRow, exit_unless-HasRow)

  -- A sweep.
  pid_or_fail-HasRow : (o : Option ℕ) → Keeps (HasRow i l₀) (pid_or_fail env o)
  pid_or_fail-HasRow none = Keeps-raise _
  pid_or_fail-HasRow (some pid) = Keeps-pure _

  lost_evidence-HasRow : (l : Lifecycle) → Keeps (HasRow i l₀) (lost_evidence env l)
  lost_evidence-HasRow l = Keeps-lost_evidence env (reads env i l₀) l

  reconcile_row-HasRow :
      (l : Lifecycle) (o : Option LostEvidence) → Keeps (HasRow i l₀) (reconcile_row env l o)
  unfolding reconcile_row
  reconcile_row-HasRow l (some evidence) = record_lost-HasRow l.session_id evidence
  reconcile_row-HasRow l none =
      search (keeps_rules, reads, pid_or_fail-HasRow, Keeps-start_exit_watcher)

  reconcile_rows-HasRow : (ls : List Lifecycle) → Keeps (HasRow i l₀) (reconcile_rows env ls)
  unfolding reconcile_rows
  reconcile_rows-HasRow [] = Keeps-pure _
  reconcile_rows-HasRow (l ∷ ls) =
      Keeps-bind (lost_evidence env l) _ (lost_evidence-HasRow l) (λ evidence.
        Keeps-bind (reconcile_row env l evidence) _ (reconcile_row-HasRow l evidence)
          (λ event. Keeps-bind _ _ (reconcile_rows-HasRow ls) (λ rest. Keeps-pure _)))

  pub reconcile_once-HasRow : Keeps (HasRow i l₀) (reconcile_once env)
  unfolding reconcile_once
  reconcile_once-HasRow =
      search
        (keeps_rules, reads, Keeps-store_running, reconcile_rows-HasRow, Keeps-record_probe_sweep)
