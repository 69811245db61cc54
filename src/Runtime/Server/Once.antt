-- ===== src/Runtime/Server/Once.antt =====
-- How often the log holds the end of a session: server/termination.rs. The set of ended sessions is
-- empty when the daemon starts and the log that it opens need not be, so what is asked of the start
-- fits one run of a daemon whose log is new.
pub mod Ends
pub mod Spawns
pub mod Serve
use littleorgans.Base.{
  ℕ, ◌+◌, ◌≤◌, ◌≡◌, refl, sym, ◌∙◌, Bool, true, false, Option, none, some, List, [], ◌∷◌, ◌++◌,
  ◌==◌, if◌then◌else◌, arith, Bool-cases, Option-cases, inl, inr, contains,
}
use littleorgans.Base.Exec.{Result, ok, err}
use littleorgans.Base.Action.{modify, lift, ◌>>=◌, ◌>>◌}
use littleorgans.Base.Action.Keeps.{Keeps, Keeps-pure, Keeps-modify, keeps_rules, bind_pure}
use littleorgans.Runtime.Lifecycle.{
  Lifecycle, LifecycleState, RuntimeEvent, TerminationEvidence, process_exit, shim_exit,
}
use littleorgans.Runtime.Failure.{Failure}
use littleorgans.Runtime.EventLog.{append}
use littleorgans.Runtime.EventLog.Counts.{count, append-count}
use littleorgans.Runtime.Server.{
  Env, ServerState, Handler, set_row, drop_row, row_of, store_update_lifecycle,
  store_insert_forking, store_delete, append_event, running_event, terminated_event, lost_event,
  query,
}
use littleorgans.Runtime.Server.Termination.{first_end, log_end, event_for, finish_terminal}
use littleorgans.Runtime.Server.Rows.{Reads, Keeps-query, Keeps-remove_watcher}

-- The event says that session `i` has ended.
abbrev pub is_end_of : ℕ → RuntimeEvent → Bool
is_end_of i (RuntimeEvent.running j pid t) = false
is_end_of i (RuntimeEvent.terminated j code signal evidence) = j == i
is_end_of i (RuntimeEvent.lost j evidence) = j == i

-- The log holds at most one end of session `i`, and none before the session counts as ended.
unfoldable pub AtMostOnce : ℕ → ServerState → Type 0
AtMostOnce i s =
    count (is_end_of i) s.log.events ≤ (if contains i s.terminated_events then 1 else 0)

terminated_event_end :
    (i : ℕ) (l : Lifecycle) (evidence : TerminationEvidence) (x : LifecycleState)
    → l.state ≡ x
    → is_end_of i (terminated_event l evidence) ≡ (l.session_id == i)
unfolding terminated_event
terminated_event_end i l evidence LifecycleState.forking e = rw e refl
terminated_event_end i l evidence LifecycleState.running e = rw e refl
terminated_event_end i l evidence (LifecycleState.exited exit) e = rw e refl
terminated_event_end i l evidence (LifecycleState.lost loss) e = rw e refl

event_for_end :
    (i : ℕ) (l : Lifecycle) (evidence : TerminationEvidence)
    → is_end_of i (event_for l evidence) ≡ (l.session_id == i)
unfolding lost_event
event_for_end i l (TerminationEvidence.lost evidence) = refl
event_for_end i l process_exit = terminated_event_end i l process_exit l.state refl
event_for_end i l shim_exit = terminated_event_end i l shim_exit l.state refl

pub running_event_end :
    (i : ℕ) (l : Lifecycle) (event : RuntimeEvent)
    → running_event l ≡ ok event
    → is_end_of i event ≡ false
unfolding running_event
running_event_end i l event e = ground arith

one_more :
    (j i : ℕ) (ended : List ℕ) (m n : ℕ)
    → contains j ended ≡ false
    → m ≤ n + (if j == i then 1 else 0)
    → n ≤ (if contains i ended then 1 else 0)
    → m ≤ (if contains i (j ∷ ended) then 1 else 0)
one_more j i ended m n new more h = elim (Bool-cases (j == i)) [
  | inl same ↦
      let e : j ≡ i = ground arith in
      let unseen : contains i ended ≡ false = rw e at new in ground (arith, unseen)
  | inr other ↦ ground arith
]

module _ (env : Env) (i : ℕ) where
  pub reads : Reads (AtMostOnce i)
  unfolding AtMostOnce
  reads = record { move = λ s t p q r h. rw (q, r) h }

  write_row-AtMostOnce :
      (l : Lifecycle)
      → Keeps
          (AtMostOnce i)
          (modify {E = Failure} (λ s. record s { lifecycles = set_row l s.lifecycles }))
  unfolding AtMostOnce
  write_row-AtMostOnce l = Keeps-modify _ (λ s h. h)

  pub update-AtMostOnce : (l : Lifecycle) → Keeps (AtMostOnce i) (store_update_lifecycle env l)
  unfolding store_update_lifecycle
  update-AtMostOnce l = search (keeps_rules, reads, Keeps-query, write_row-AtMostOnce)

  insert_row-AtMostOnce :
      (l : Lifecycle)
      → Keeps
          (AtMostOnce i)
          (modify {E = Failure} (λ s. record s { lifecycles = s.lifecycles ++ row_of l ∷ [] }))
  unfolding AtMostOnce
  insert_row-AtMostOnce l = Keeps-modify _ (λ s h. h)

  pub store_insert-AtMostOnce : (l : Lifecycle) → Keeps (AtMostOnce i) (store_insert_forking env l)
  unfolding store_insert_forking
  store_insert-AtMostOnce l = search (keeps_rules, reads, Keeps-query, insert_row-AtMostOnce)

  delete_row-AtMostOnce :
      (j : ℕ)
      → Keeps
          (AtMostOnce i)
          (modify {E = Failure} (λ s. record s { lifecycles = drop_row j s.lifecycles }))
  unfolding AtMostOnce
  delete_row-AtMostOnce j = Keeps-modify _ (λ s h. h)

  pub store_delete-AtMostOnce : (j : ℕ) → Keeps (AtMostOnce i) (store_delete env j)
  unfolding store_delete
  store_delete-AtMostOnce j = search (keeps_rules, reads, Keeps-query, delete_row-AtMostOnce)

  pub append_event-AtMostOnce :
      (event : RuntimeEvent)
      → is_end_of i event ≡ false
      → Keeps (AtMostOnce i) (append_event env event)
  unfolding append_event AtMostOnce
  append_event-AtMostOnce event other = record {
    at = λ s h.
        let more =
          append-count (is_end_of i) env.encode (env.append_io s.clock) (env.timestamp_ms s.clock)
            event s.log in
        ground (arith, more, other);
  }

  -- The end of a session that was not ended.
  new_end-AtMostOnce :
      (l : Lifecycle) (evidence : TerminationEvidence) (s : ServerState)
      → contains l.session_id s.terminated_events ≡ false
      → AtMostOnce i s
      → AtMostOnce i
          (log_end env l evidence true
            (record s { terminated_events = l.session_id ∷ s.terminated_events })).1
  unfolding log_end append_event AtMostOnce
  new_end-AtMostOnce l evidence s new h =
      let ended = record s { terminated_events = l.session_id ∷ s.terminated_events } in
      let more =
        append-count (is_end_of i) env.encode (env.append_io s.clock) (env.timestamp_ms s.clock)
          (event_for l evidence) s.log in
      let is = event_for_end i l evidence in
      rw (bind_pure (append_event env (event_for l evidence)) (λ event. some event) ended)
        (one_more l.session_id i s.terminated_events _ _ new (rw is at more) h)

  logged_end-AtMostOnce :
      (l : Lifecycle) (evidence : TerminationEvidence)
      → Keeps (AtMostOnce i) (first_end env l.session_id >>= λ first. log_end env l evidence first)
  unfolding ◌>>=◌ first_end log_end
  logged_end-AtMostOnce l evidence = record {
    at = λ s h. elim (Bool-cases (contains l.session_id s.terminated_events)) [
      | inl old ↦ rw old h
      | inr new ↦ rw new (new_end-AtMostOnce l evidence s new h)
    ];
  }

  pub finish_terminal-AtMostOnce :
      (l : Lifecycle) (evidence : TerminationEvidence)
      → Keeps (AtMostOnce i) (finish_terminal env l.session_id l evidence)
  unfolding finish_terminal
  finish_terminal-AtMostOnce l evidence =
      search (keeps_rules, reads, Keeps-remove_watcher, logged_end-AtMostOnce)
