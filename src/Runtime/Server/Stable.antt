-- ===== src/Runtime/Server/Stable.antt =====
-- The row of an ended session never changes, but for a cancelled spawn of that session.
pub mod Ends
pub mod Spawns
pub mod Serve
use littleorgans.Base.{
  ℕ, ◌+◌, ◌≡◌, ◌≢◌, refl, sym, ◌∙◌, ap, Bool, true, false, not, Option, none, some, List, [], ◌∷◌,
  ◌++◌, ◌==◌, if◌then◌else◌, arith, Bool-cases, Option-cases, inl, inr,
}
use littleorgans.Base.Exec.{Result, ok, err}
use littleorgans.Base.Action.{pure, raise, lift, gets, modify, unless, ◌>>=◌, ◌>>◌}
use littleorgans.Base.Action.Keeps.{
  Keeps, Keeps-pure, Keeps-modify, Keeps-unless, Keeps-gets, Keeps-bind, keeps_rules,
}
use littleorgans.Runtime.Lifecycle.{
  Lifecycle, LifecycleState, RuntimeEvent, RuntimeExit, LostEvidence, ShimReady,
  TerminationEvidence, is_ended, is_forking, mark_exited, mark_lost, mark_running, process_exit,
  shim_exit,
}
use littleorgans.Runtime.Failure.{Failure, store}
use littleorgans.Runtime.Server.{
  Env, ServerState, Handler, ask, query, find_row, set_row, store_get, has_row,
  store_update_lifecycle, store_insert_forking, store_delete, append_event, forget_shim,
  running_event, remove_watcher, start_exit_watcher, row_of,
}
use littleorgans.Runtime.Server.Termination.{
  first_end, log_end, finish_terminal, settle_terminal, record_terminal, get_or_fail, record_exited,
  record_lost, record_shim_exit, record_watcher_exit, event_for, is_terminal, watcher_evidence,
  exit_by, exit_unless, shim_pid_of,
}
use littleorgans.Runtime.Server.Rows.{
  Reads, Keeps-ask, Keeps-query, Keeps-store_get, Keeps-remove_watcher, find_row-id,
  find_row-set_row, find_row-append, find_row-drop_row,
}

-- The row of session `i` is `l`.
unfoldable pub HasRow : ℕ → Lifecycle → ServerState → Type 0
HasRow i l s = find_row i s.lifecycles ≡ some l

module _ (env : Env) (i : ℕ) (l₀ : Lifecycle) where
  pub reads : Reads (HasRow i l₀)
  unfolding HasRow
  reads = record { move = λ s t p q r h. rw p h }

  pub write_row-HasRow :
      (l : Lifecycle)
      → l.session_id ≢ i
      → Keeps
          (HasRow i l₀)
          (modify {E = Failure} (λ s. record s { lifecycles = set_row l s.lifecycles }))
  unfolding HasRow
  write_row-HasRow l other = Keeps-modify _ (λ s h. find_row-set_row i l s.lifecycles other ∙ h)

  pub update-HasRow :
      (l : Lifecycle) → l.session_id ≢ i → Keeps (HasRow i l₀) (store_update_lifecycle env l)
  unfolding store_update_lifecycle
  update-HasRow l other = search (keeps_rules, reads, Keeps-query, write_row-HasRow)

  pub append_event-HasRow : (event : RuntimeEvent) → Keeps (HasRow i l₀) (append_event env event)
  unfolding append_event HasRow
  append_event-HasRow event = record { at = λ s h. h }

  pub first_end-HasRow : (j : ℕ) → Keeps (HasRow i l₀) (first_end env j)
  unfolding first_end HasRow
  first_end-HasRow j = record { at = λ s h. ground arith }

  pub log_end-HasRow :
      (l : Lifecycle) (evidence : TerminationEvidence) (b : Bool)
      → Keeps (HasRow i l₀) (log_end env l evidence b)
  unfolding log_end
  log_end-HasRow l evidence false = Keeps-pure _
  log_end-HasRow l evidence true = search (keeps_rules, append_event-HasRow)

  pub settle_terminal-HasRow :
      (j : ℕ) (evidence : TerminationEvidence) (p : Lifecycle × Bool)
      → (p.1 ≡ true → p.0.session_id ≢ i)
      → Keeps (HasRow i l₀) (settle_terminal env j evidence p)
  unfolding settle_terminal finish_terminal
  settle_terminal-HasRow j evidence (l, false) other = Keeps-pure _
  settle_terminal-HasRow j evidence (l, true) other = search (
    keeps_rules,
    update-HasRow,
    other refl,
    reads,
    Keeps-remove_watcher,
    first_end-HasRow,
    log_end-HasRow,
  )

  -- What is done with a row that was read: the row is `l₀` or another session's.
  pub looked-HasRow :
      {B : Type 0} (j : ℕ) (f : Option Lifecycle → Handler B)
      → (j ≡ i → Keeps (HasRow i l₀) (f (some l₀)))
      → ((o : Option Lifecycle)
          → j ≢ i
          → ((l : Lifecycle) → o ≡ some l → l.session_id ≢ i)
          → Keeps (HasRow i l₀) (f o))
      → Keeps (HasRow i l₀) (store_get env j >>= f)
  unfolding store_get query ◌>>=◌ HasRow
  looked-HasRow j f same other = record {
    at = λ s h. elim (Bool-cases (env.db_ok s.clock)) [
      | inr down ↦ rw down h
      | inl up ↦ elim (Bool-cases (j == i)) [
        | inr k ↦
            let apart : j ≢ i = λ e. ground arith in
            let far : (l : Lifecycle) → find_row j s.lifecycles ≡ some l → l.session_id ≢ i =
              λ l found e. apart (sym (find_row-id j s.lifecycles l found) ∙ e) in
            rw up
              ((other (find_row j s.lifecycles) apart far).at (record s { clock = s.clock + 1 }) h)
        | inl k ↦
            let e : j ≡ i = ground arith in
            let found : find_row j s.lifecycles ≡ some l₀ = rw e h in
            rw (up, found) ((same e).at (record s { clock = s.clock + 1 }) h)
      ]
    ];
  }
