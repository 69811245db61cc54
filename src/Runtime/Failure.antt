-- ===== src/Runtime/Failure.antt =====
-- The errors that the runtime daemon's operations return: the kinds of `RuntimeFailure`
-- (internal/runtime/daemon/src/error.rs), and the untyped errors by where they come from. The
-- texts of the messages are left out.
use littleorgans.Base.{ℕ}
use littleorgans.Runtime.Lifecycle.{TmuxAddress}

pub data Failure : Type 0 where
  session_not_found session_already_exists : ℕ → Failure
  protocol_mismatch : ℕ → Failure
  tmux_pane_dead : TmuxAddress → Failure
  io clock store decode missing_pid missing_start_time already_terminal probe tmux signal : Failure
