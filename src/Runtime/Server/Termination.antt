-- ===== src/Runtime/Server/Termination.antt =====
-- server/termination.rs, and `record_watcher_exit` of server/watcher.rs: how the end of a runtime
-- is recorded.
use littleorgans.Base.{ℕ, Bool, true, false, Option, none, some, ◌∷◌, if◌then◌else◌, contains}
use littleorgans.Base.Exec.{Result, ok, err}
use littleorgans.Base.Action.{pure, raise, ◌>>=◌, ◌>>◌}
use littleorgans.Runtime.Lifecycle.{
  Lifecycle, RuntimeEvent, RuntimeExit, TerminationEvidence, LostEvidence, is_ended, mark_exited,
  mark_lost, shim_exit, process_exit, shim_died_before_report,
}
use littleorgans.Runtime.Failure.{Failure, session_not_found, missing_pid}
use littleorgans.Runtime.Server.{
  Env, ServerState, Handler, ask, store_get, store_update_lifecycle, append_event, remove_watcher,
  forget_shim, terminated_event, lost_event,
}

abbrev pub event_for : Lifecycle → TerminationEvidence → RuntimeEvent
event_for l (TerminationEvidence.lost evidence) = lost_event l evidence
event_for l evidence = terminated_event l evidence

abbrev pub get_or_fail : ℕ → Option Lifecycle → Handler Lifecycle
get_or_fail i none = raise (session_not_found i)
get_or_fail i (some l) = pure l

module _ (env : Env) where
  -- `HashSet::insert` says whether the id was new.
  unfoldable pub first_end : ℕ → Handler Bool
  first_end i s =
      if contains i s.terminated_events
      then (ok false, s)
      else (ok true, record s { terminated_events = i ∷ s.terminated_events })

  unfoldable pub log_end : Lifecycle → TerminationEvidence → Bool → Handler (Option RuntimeEvent)
  log_end l evidence false = pure none
  log_end l evidence true = do event ← append_event env (event_for l evidence); pure (some event)

  unfoldable pub finish_terminal :
      ℕ → Lifecycle → TerminationEvidence → Handler (Option RuntimeEvent)
  unfolding first_end log_end
  finish_terminal i l evidence = do remove_watcher i; first ← first_end i; log_end l evidence first

  unfoldable pub settle_terminal :
      ℕ → TerminationEvidence → Lifecycle × Bool → Handler (Option RuntimeEvent)
  unfolding finish_terminal
  settle_terminal i evidence (l, false) = pure none
  settle_terminal i evidence (l, true) = do
    store_update_lifecycle env l
    finish_terminal i l evidence

  unfoldable pub record_terminal :
      ℕ → TerminationEvidence → (Lifecycle → Lifecycle × Bool) → Handler (Option RuntimeEvent)
  unfolding settle_terminal
  record_terminal i evidence mark = do
    found ← store_get env i
    l ← get_or_fail i found
    settle_terminal i evidence (mark l)

  abbrev pub forgetting :
      ℕ
      → Result Failure (Option RuntimeEvent) × ServerState
      → Result Failure (Option RuntimeEvent) × ServerState
  forgetting i (r, s) = (r, forget_shim i s)

  -- The shim is forgotten on failure too.
  unfoldable pub record_exited :
      ℕ → RuntimeExit → TerminationEvidence → Handler (Option RuntimeEvent)
  record_exited i exit evidence s =
      forgetting i (record_terminal i evidence (λ l. mark_exited l exit) s)

  unfoldable pub record_lost : ℕ → LostEvidence → Handler (Option RuntimeEvent)
  record_lost i evidence s =
      forgetting i
        (record_terminal i (TerminationEvidence.lost evidence) (λ l. mark_lost l evidence) s)

  unfoldable pub record_shim_exit : ℕ → RuntimeExit → Handler (Option RuntimeEvent)
  record_shim_exit i exit = record_exited i exit shim_exit

  -- A failed read counts as not terminal.
  abbrev pub ended_row : Option Lifecycle → Bool
  ended_row none = false
  ended_row (some l) = is_ended l.state

  abbrev pub ended_read :
      Result Failure (Option Lifecycle) × ServerState → Result Failure Bool × ServerState
  ended_read (ok found, s) = (ok (ended_row found), s)
  ended_read (err e, s) = (ok false, s)

  unfoldable pub is_terminal : ℕ → Handler Bool
  is_terminal i s = ended_read (store_get env i s)

  abbrev pub shim_pid_of : Option Lifecycle → Handler ℕ
  shim_pid_of none = raise missing_pid
  shim_pid_of (some l) = elim l.shim_pid [ none ↦ raise missing_pid | some pid ↦ pure pid ]

  unfoldable pub watcher_evidence : ℕ → Handler TerminationEvidence
  watcher_evidence i = do
    found ← store_get env i
    pid ← shim_pid_of found
    alive ← ask (λ n. env.pid_alive n pid)
    pure (if alive then process_exit else TerminationEvidence.lost shim_died_before_report)

  abbrev pub exit_by : ℕ → TerminationEvidence → Handler (Option RuntimeEvent)
  exit_by i (TerminationEvidence.lost evidence) = record_lost i evidence
  exit_by i process_exit = record_exited i (record { code = none; signal = none }) process_exit
  exit_by i shim_exit = pure none

  abbrev pub exit_unless : ℕ → Bool → Handler (Option RuntimeEvent)
  exit_unless i true = pure none
  exit_unless i false = do evidence ← watcher_evidence i; exit_by i evidence

  -- What a watcher does when its process has ended.
  unfoldable pub record_watcher_exit : ℕ → Handler (Option RuntimeEvent)
  record_watcher_exit i = do ended ← is_terminal i; exit_unless i ended
