-- ===== src/Runtime/Lifecycle.antt =====
-- crates/lilo-rm-core/src/types/lifecycle.rs: the lifecycle record of a session's runtime, its
-- three transitions, the evidence of a loss and the events. A session id is an opaque number, and
-- so is a time. The methods on `&mut self` return the new record and their Boolean.
pub mod Ended
pub mod History
pub mod Evidence
mod Tests
use Prim.Native.String.{String}
use littleorgans.Base.{
  ℕ, Option, none, some, Bool, true, false, ◌==◌, if◌then◌else◌, ◌≡◌, List, [], ◌∷◌,
}
use littleorgans.Base.Int.{ℤ}

pub data RuntimeKind : Type 0 where
  claude codex : RuntimeKind
  other : String → RuntimeKind

-- A Docker policy carries the optional name of its profile.
pub data IsolationPolicy : Type 0 where
  host : IsolationPolicy
  docker : Option String → IsolationPolicy

pub record TmuxAddress : Type 0 where
  pub session : String
  pub window : ℕ
  pub pane : ℕ

pub record RuntimeExit : Type 0 where
  pub code : Option ℤ
  pub signal : Option ℤ

pub data LostEvidence : Type 0 where
  shim_died_before_report pid_not_alive pid_reuse_detected unknown : LostEvidence

pub data LifecycleState : Type 0 where
  forking running : LifecycleState
  exited : RuntimeExit → LifecycleState
  lost : LostEvidence → LifecycleState

pub data TerminationEvidence : Type 0 where
  shim_exit process_exit : TerminationEvidence
  lost : LostEvidence → TerminationEvidence

pub data RuntimeEvent : Type 0 where
  running : ℕ → ℕ → ℕ → RuntimeEvent
  terminated : ℕ → Option ℤ → Option ℤ → TerminationEvidence → RuntimeEvent
  lost : ℕ → LostEvidence → RuntimeEvent

pub record ShimReady : Type 0 where
  pub session_id : ℕ
  pub shim_pid : ℕ
  pub runtime_pid : ℕ
  pub start_time : ℕ
  pub tmux_pane : Option TmuxAddress

pub data LogsUnavailableReason : Type 0 where
  tmux_target pane_unavailable : LogsUnavailableReason

pub data LogAvailability : Type 0 where
  headless : String → String → LogAvailability
  tmux_pane_snapshot : LogAvailability
  unavailable : LogsUnavailableReason → LogAvailability

pub record Lifecycle : Type 0 where
  pub session_id : ℕ
  pub runtime : RuntimeKind
  pub isolation : IsolationPolicy
  pub state : LifecycleState
  pub shim_pid : Option ℕ
  pub runtime_pid : Option ℕ
  pub start_time : Option ℕ
  pub tmux_pane : Option TmuxAddress
  pub log_availability : Option LogAvailability

unfoldable pub new_forking : ℕ → RuntimeKind → Lifecycle
new_forking session_id runtime = record {
  session_id = session_id;
  runtime = runtime;
  isolation = IsolationPolicy.host;
  state = LifecycleState.forking;
  shim_pid = none;
  runtime_pid = none;
  start_time = none;
  tmux_pane = none;
  log_availability = none;
}

abbrev pub is_forking : LifecycleState → Bool
is_forking LifecycleState.forking = true
is_forking _ = false

-- The states that `matches!(state, Exited(_) | Lost(_))` names.
abbrev pub is_ended : LifecycleState → Bool
is_ended (LifecycleState.exited _) = true
is_ended (LifecycleState.lost _) = true
is_ended _ = false

unfoldable pub mark_running : Lifecycle → ShimReady → Lifecycle × Bool
mark_running l ready =
    if is_forking l.state
    then (
      record l {
        state = LifecycleState.running;
        shim_pid = some ready.shim_pid;
        runtime_pid = some ready.runtime_pid;
        start_time = some ready.start_time;
        tmux_pane = ready.tmux_pane;
      },
      true,
    )
    else (l, false)

-- The write of an exit that differs from the stored one changes nothing where they are equal.
exited_from : LifecycleState → RuntimeExit → LifecycleState × Bool
exited_from LifecycleState.forking exit = (LifecycleState.exited exit, true)
exited_from LifecycleState.running exit = (LifecycleState.exited exit, true)
exited_from (LifecycleState.exited existing) exit = (LifecycleState.exited exit, false)
exited_from (LifecycleState.lost evidence) exit = (LifecycleState.lost evidence, false)

unfoldable pub mark_exited : Lifecycle → RuntimeExit → Lifecycle × Bool
unfolding exited_from
mark_exited l exit =
    (record l { state = (exited_from l.state exit).0 }, (exited_from l.state exit).1)

lost_from : LifecycleState → LostEvidence → LifecycleState × Bool
lost_from LifecycleState.forking evidence = (LifecycleState.lost evidence, true)
lost_from LifecycleState.running evidence = (LifecycleState.lost evidence, true)
lost_from (LifecycleState.exited existing) evidence = (LifecycleState.exited existing, false)
lost_from (LifecycleState.lost existing) evidence = (LifecycleState.lost existing, false)

unfoldable pub mark_lost : Lifecycle → LostEvidence → Lifecycle × Bool
unfolding lost_from
mark_lost l evidence =
    (record l { state = (lost_from l.state evidence).0 }, (lost_from l.state evidence).1)
