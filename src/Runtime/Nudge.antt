-- ===== src/Runtime/Nudge.antt =====
-- internal/runtime/daemon/src/tmux_nudge.rs: how a text is typed into the tmux pane of an agent. The
-- pane (`NudgeOps`) answers the n-th question by a function of n, and a question takes as long as
-- `Pane` says. Times are in nanoseconds. `busy` is `agent_is_busy` for the runtime of the pane.
pub mod Timing
pub mod Idle
pub mod Quiet
pub mod Delivery
mod Tests
use littleorgans.Base.{
  ℕ, zero, suc, ◌+◌, ◌-◌, ◌*◌, ◌/◌, min, max, Bool, true, false, Option, none, some, List, ◌∷◌,
  if◌then◌else◌, leb, ltb,
}
use littleorgans.Base.Exec.{Result, ok, err}
use littleorgans.Base.Action.{Action, pure, raise, gets, ◌>>=◌, ◌>>◌}
use littleorgans.Runtime.Failure.{Failure, tmux}

pub data NudgeSendOutcome : Type 0 where
  delivered pane_dead agent_busy_timeout : NudgeSendOutcome

pub data NudgeMode : Type 0 where
  immediate wait steer : NudgeMode

pub record NudgeTiming : Type 0 where
  pub poll_interval : ℕ
  pub timeout : ℕ
  pub idle_probes_required : ℕ

abbrev pub milliseconds : ℕ → ℕ
milliseconds n = n * 1_000_000

abbrev pub wait_timing_default : NudgeTiming
wait_timing_default = record {
  poll_interval = milliseconds 1_000;
  timeout = milliseconds 120_000;
  idle_probes_required = 2;
}

abbrev pub steer_timing : NudgeTiming
steer_timing = record {
  poll_interval = milliseconds 250;
  timeout = milliseconds 5_000;
  idle_probes_required = 2;
}

abbrev pub submit_confirm_probes : ℕ
submit_confirm_probes = 3

abbrev pub submit_confirm_poll : ℕ
submit_confirm_poll = milliseconds 250

abbrev pub max_submit_resends : ℕ
max_submit_resends = 2

-- `out_of_fuel` never happens.
pub data PolicyOutcome : Type 0 where
  ready busy_timeout out_of_fuel : PolicyOutcome

-- What is sent to the pane.
pub data Keys : Type 0 where
  payload submit interrupt cancel : Keys

-- `none`: the call of tmux failed.
pub record Pane : Type 0 where
  pub alive : ℕ → Option Bool
  pub in_mode : ℕ → Option Bool
  pub captured : ℕ → Option (List ℕ)
  pub accepts : ℕ → Bool
  pub takes_ns : ℕ → ℕ

-- What was sent comes last first, the failed calls included: they may have typed a part.
pub record NudgeState : Type 0 where
  pub clock : ℕ
  pub now_ns : ℕ
  pub sent : List Keys

abbrev pub Nudge : Type 0 → Type 0
Nudge A = Action Failure NudgeState A

unfoldable pub wait_timing : Option ℕ → NudgeTiming
wait_timing none = wait_timing_default
wait_timing (some timeout_ms) =
    let timeout = milliseconds timeout_ms in
    record {
      poll_interval = min (milliseconds 1_000) (max (timeout / 3) 1);
      timeout = timeout;
      idle_probes_required = 2;
    }

abbrev pub answer_or_fail {ℓ} : {A : Type ℓ} → Option A → Result Failure A
answer_or_fail none = err tmux
answer_or_fail (some a) = ok a

abbrev pub taken : Bool → Result Failure (Unit {0})
taken true = ok tt
taken false = err tmux

module _ (busy : List ℕ → Bool) (pane : Pane) where
  unfoldable pub ask_pane : {A : Type 0} → (ℕ → Option A) → Nudge A
  ask_pane f s = (
    answer_or_fail (f s.clock),
    record s { clock = s.clock + 1; now_ns = s.now_ns + pane.takes_ns s.clock },
  )

  unfoldable pub send_to_pane : Keys → Nudge (Unit {0})
  send_to_pane keys s = (
    taken (pane.accepts s.clock),
    record s {
      clock = s.clock + 1;
      now_ns = s.now_ns + pane.takes_ns s.clock;
      sent = keys ∷ s.sent;
    },
  )

  -- A sleep takes the duration at least.
  unfoldable pub sleep_for : ℕ → Nudge (Unit {0})
  sleep_for duration s = (
    ok tt,
    record s { clock = s.clock + 1; now_ns = s.now_ns + duration + pane.takes_ns s.clock },
  )

  abbrev discarding :
      Result Failure (Unit {0}) × NudgeState → Result Failure (Unit {0}) × NudgeState
  discarding (r, s) = (ok tt, s)

  -- `let _ = ops.cancel_copy_mode().await`
  unfoldable pub cancel_copy_mode : Nudge (Unit {0})
  unfolding send_to_pane
  cancel_copy_mode s = discarding (send_to_pane cancel s)

  abbrev pub cancel_if : Bool → Nudge (Unit {0})
  cancel_if true = cancel_copy_mode
  cancel_if false = pure tt

  unfoldable pub leave_copy_mode : Nudge (Unit {0})
  unfolding ask_pane cancel_copy_mode
  leave_copy_mode = ask_pane pane.in_mode >>= cancel_if

  -- `probe_agent_busy`
  abbrev pub judged : Result Failure (List ℕ) → Option Bool
  judged (ok content) = some (busy content)
  judged (err e) = none

  abbrev judging : Result Failure (List ℕ) × NudgeState → Result Failure (Option Bool) × NudgeState
  judging (r, s) = (ok (judged r), s)

  unfoldable pub probe_agent_busy : Nudge (Option Bool)
  unfolding ask_pane
  probe_agent_busy s = judging (ask_pane pane.captured s)

  -- The end of a round of `wait_for_idle`, and what goes on with the count of idle probes.
  abbrev pub sleep_before : NudgeTiming → ℕ → Nudge PolicyOutcome → Bool → Nudge PolicyOutcome
  sleep_before timing deadline rest true = pure busy_timeout
  sleep_before timing deadline rest false = do
    now ← gets (λ s. s.now_ns)
    sleep_for (min timing.poll_interval (deadline - now))
    rest

  unfoldable pub next_round : NudgeTiming → ℕ → Nudge PolicyOutcome → Nudge PolicyOutcome
  unfolding sleep_for
  next_round timing deadline rest = do
    now ← gets (λ s. s.now_ns)
    sleep_before timing deadline rest (leb deadline now)

  abbrev pub after_probe :
      NudgeTiming → ℕ → ℕ → (ℕ → Nudge PolicyOutcome) → Option Bool → Nudge PolicyOutcome
  after_probe timing deadline idle rest none = pure ready
  after_probe timing deadline idle rest (some true) = next_round timing deadline (rest 0)
  after_probe timing deadline idle rest (some false) =
      if leb timing.idle_probes_required (idle + 1)
      then pure ready
      else next_round timing deadline (rest (idle + 1))

  -- The loop of `wait_for_idle`, on fuel.
  unfoldable pub idle_loop : NudgeTiming → ℕ → ℕ → ℕ → Nudge PolicyOutcome
  unfolding probe_agent_busy next_round
  idle_loop timing deadline zero idle = pure out_of_fuel
  idle_loop timing deadline (suc fuel) idle =
      let rest = idle_loop timing deadline fuel in
      probe_agent_busy >>= after_probe timing deadline idle rest

  unfoldable pub wait_for_idle : NudgeTiming → Nudge PolicyOutcome
  unfolding idle_loop
  wait_for_idle timing = do
    now ← gets (λ s. s.now_ns)
    idle_loop timing (now + timing.timeout) (suc (suc timing.timeout)) 0

  abbrev pub steer_after : NudgeTiming → Option Bool → Nudge PolicyOutcome
  steer_after timing (some true) = do send_to_pane interrupt; wait_for_idle timing
  steer_after timing _ = pure ready

  unfoldable pub steer_if_busy : NudgeTiming → Nudge PolicyOutcome
  unfolding wait_for_idle
  steer_if_busy timing = probe_agent_busy >>= steer_after timing

  -- `ops.is_alive().await.unwrap_or(false)` after a failed send.
  abbrev pub dead_or_error :
      Failure
      → Result Failure Bool × NudgeState
      → Result Failure (Option NudgeSendOutcome) × NudgeState
  dead_or_error e (ok true, s) = (err e, s)
  dead_or_error e (ok false, s) = (ok (some pane_dead), s)
  dead_or_error e (err _, s) = (ok (some pane_dead), s)

  abbrev pub after_send :
      Result Failure (Unit {0}) × NudgeState → Result Failure (Option NudgeSendOutcome) × NudgeState
  after_send (ok _, s) = (ok none, s)
  after_send (err e, s) = dead_or_error e (ask_pane pane.alive s)

  unfoldable pub send_or_pane_dead : Keys → Nudge (Option NudgeSendOutcome)
  unfolding ask_pane send_to_pane
  send_or_pane_dead keys s = after_send (send_to_pane keys s)

  -- The probes of `submission_confirmed`, by the number that is left.
  abbrev pub confirmed_or : Nudge Bool → Option Bool → Nudge Bool
  confirmed_or rest (some false) = rest
  confirmed_or rest _ = pure true

  abbrev pub sleep_unless_last : ℕ → Nudge Bool → Nudge Bool
  sleep_unless_last zero rest = pure false
  sleep_unless_last (suc _) rest = do sleep_for submit_confirm_poll; rest

  unfoldable pub confirm_probes : ℕ → Nudge Bool
  unfolding probe_agent_busy sleep_for
  confirm_probes zero = pure false
  confirm_probes (suc left) =
      let rest = confirm_probes left in
      probe_agent_busy >>= confirmed_or (sleep_unless_last left rest)

  unfoldable pub submission_confirmed : Nudge Bool
  unfolding confirm_probes
  submission_confirmed = confirm_probes submit_confirm_probes

  abbrev pub outcome_or : Nudge NudgeSendOutcome → Option NudgeSendOutcome → Nudge NudgeSendOutcome
  outcome_or rest none = rest
  outcome_or rest (some outcome) = pure outcome

  abbrev pub resend_unless : Nudge NudgeSendOutcome → Bool → Nudge NudgeSendOutcome
  resend_unless rest true = pure delivered
  resend_unless rest false = rest

  -- The loop of `send_nudge_payload`, by the number of resends that is left.
  unfoldable pub confirm_loop : ℕ → Nudge NudgeSendOutcome
  unfolding submission_confirmed send_or_pane_dead
  confirm_loop zero = submission_confirmed >>= resend_unless (pure delivered)
  confirm_loop (suc left) =
      let rest = confirm_loop left in
      submission_confirmed >>= resend_unless (send_or_pane_dead submit >>= outcome_or rest)

  unfoldable pub send_nudge_payload : Nudge NudgeSendOutcome
  unfolding leave_copy_mode confirm_loop
  send_nudge_payload = do
    leave_copy_mode
    sent ← send_or_pane_dead payload
    outcome_or (confirm_loop max_submit_resends) sent

  abbrev pub policy : NudgeMode → Option ℕ → Nudge PolicyOutcome
  policy immediate timeout_ms = pure ready
  policy wait timeout_ms = wait_for_idle (wait_timing timeout_ms)
  policy steer timeout_ms = steer_if_busy steer_timing

  abbrev pub after_policy : PolicyOutcome → Nudge NudgeSendOutcome
  after_policy ready = send_nudge_payload
  after_policy _ = pure agent_busy_timeout

  abbrev pub if_alive : NudgeMode → Option ℕ → Bool → Nudge NudgeSendOutcome
  if_alive mode timeout_ms false = pure pane_dead
  if_alive mode timeout_ms true = do
    leave_copy_mode
    outcome ← policy mode timeout_ms
    after_policy outcome

  unfoldable pub execute_nudge : NudgeMode → Option ℕ → Nudge NudgeSendOutcome
  unfolding send_nudge_payload steer_if_busy
  execute_nudge mode timeout_ms = ask_pane pane.alive >>= if_alive mode timeout_ms
