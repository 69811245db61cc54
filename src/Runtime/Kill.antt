-- ===== src/Runtime/Kill.antt =====
-- internal/runtime/daemon/src/runtime_kill.rs, signal.rs and `kill_pid` of server/termination.rs: a
-- signal, a grace period in which the target may go, and a last SIGKILL. The target (`KillTarget`)
-- and the test for a recorded end (`TerminalCheck`) answer the n-th question by a function of n,
-- and a question takes as long as `World` says.
pub mod Signals
pub mod Host
mod Tests
use littleorgans.Base.{
  ℕ, zero, suc, ◌+◌, ◌*◌, Bool, true, false, not, ◌&&◌, Option, none, some, List, [], ◌∷◌,
  if◌then◌else◌, ltb,
}
use littleorgans.Base.Exec.{Result, ok, err}
use littleorgans.Base.Action.{Action, pure, raise, lift, gets, ◌>>=◌, ◌>>◌}
use littleorgans.Runtime.Failure.{Failure, signal, probe}

pub data RuntimeSignal : Type 0 where
  hup int term kill : RuntimeSignal

pub data KillOutcome : Type 0 where
  signalled already_exited : KillOutcome

-- `SignalOutcome`, or the error of the call.
pub data Delivery : Type 0 where
  delivered process_gone failed : Delivery

pub record World : Type 0 where
  pub deliver : ℕ → Delivery
  -- `none`: the probe failed.
  pub alive : ℕ → Option Bool
  pub terminal : ℕ → Bool
  pub takes_ms : ℕ → ℕ

-- The signals sent so far come last first.
pub record KillState : Type 0 where
  pub clock : ℕ
  pub now_ms : ℕ
  pub sent : List RuntimeSignal

abbrev pub Kill : Type 0 → Type 0
Kill A = Action Failure KillState A

abbrev pub poll_interval_ms : ℕ
poll_interval_ms = 25

abbrev pub is_kill : RuntimeSignal → Bool
is_kill kill = true
is_kill _ = false

-- `send_raw_signal_for_kill`
abbrev pub outcome_for_kill : Delivery → Result Failure KillOutcome
outcome_for_kill delivered = ok signalled
outcome_for_kill process_gone = ok already_exited
outcome_for_kill failed = err signal

-- `send_raw_signal`: a process that is gone is an error.
abbrev pub delivered_or_fail : Delivery → Result Failure (Unit {0})
delivered_or_fail delivered = ok tt
delivered_or_fail _ = err signal

-- How a wait ended; `out_of_fuel` never happens.
pub data Grace : Type 0 where
  gone over out_of_fuel : Grace

module _ (world : World) where
  unfoldable pub ask : {A : Type 0} → (ℕ → A) → Kill A
  ask f s =
      (ok (f s.clock), record s { clock = s.clock + 1; now_ms = s.now_ms + world.takes_ms s.clock })

  unfoldable pub send : RuntimeSignal → Kill Delivery
  send which s = (
    ok (world.deliver s.clock),
    record s {
      clock = s.clock + 1;
      now_ms = s.now_ms + world.takes_ms s.clock;
      sent = which ∷ s.sent;
    },
  )

  -- A sleep takes the interval at least.
  unfoldable pub sleep : Kill (Unit {0})
  sleep s = (
    ok tt,
    record s { clock = s.clock + 1; now_ms = s.now_ms + poll_interval_ms + world.takes_ms s.clock },
  )

  abbrev pub alive_or_fail : Option Bool → Kill Bool
  alive_or_fail none = raise probe
  alive_or_fail (some b) = pure b

  unfoldable pub is_alive : Kill Bool
  unfolding ask
  is_alive = do answer ← ask world.alive; alive_or_fail answer

  abbrev pub gone_unless : Bool → Kill Bool
  gone_unless true = pure true
  gone_unless false = do alive ← is_alive; pure (not alive)

  -- The condition of the wait: `terminal || !alive`, the second asked only if the first fails.
  unfoldable pub is_gone : Kill Bool
  unfolding ask is_alive
  is_gone = do terminal ← ask world.terminal; gone_unless terminal

  abbrev pub again : Kill Grace → Bool → Kill Grace
  again rest true = pure gone
  again rest false = do sleep; rest

  unfoldable pub wait : ℕ → ℕ → Kill Grace
  unfolding is_gone sleep
  wait zero deadline = pure out_of_fuel
  wait (suc fuel) deadline =
      let rest = wait fuel deadline in
      do now ← gets (λ s. s.now_ms); if ltb now deadline then is_gone >>= again rest else pure over

  abbrev pub strike : Bool → Kill (Unit {0})
  strike false = pure tt
  strike true = do answer ← send kill; lift (delivered_or_fail answer)

  abbrev pub finish : RuntimeSignal → KillOutcome → Grace → Kill KillOutcome
  finish which outcome over = do
    alive ← is_alive
    strike (alive && not (is_kill which))
    pure outcome
  finish which outcome _ = pure outcome

  -- The fuel is one more than the milliseconds of the grace period, and each round takes some.
  abbrev pub after_signal : RuntimeSignal → ℕ → KillOutcome → Kill KillOutcome
  after_signal which grace_secs already_exited = pure already_exited
  after_signal which grace_secs signalled = do
    now ← gets (λ s. s.now_ms)
    grace ← wait (suc (grace_secs * 1_000)) (now + grace_secs * 1_000)
    finish which signalled grace

  unfoldable pub run_kill_loop : RuntimeSignal → ℕ → Kill KillOutcome
  unfolding send wait is_alive
  run_kill_loop which grace_secs = do
    answer ← send which
    outcome ← lift (outcome_for_kill answer)
    after_signal which grace_secs outcome
