-- ===== src/Runtime/Nudge/Idle.antt =====
-- The wait for an idle agent ends, on the fuel that it is given.
use littleorgans.Base.{
  ℕ, zero, suc, ◌+◌, ◌≤◌, ◌<◌, ◌≡◌, refl, sym, Bool, true, false, Option, none, some, List, leb,
  leb→le, arith, min, ◌-◌,
}
use littleorgans.Base.Exec.{Result, ok, err}
use littleorgans.Base.Action.{◌>>=◌}
use littleorgans.Base.Action.Ends.{Ends, Ends-pure, Ends-if, Ends-gets, Returns, Ends-returned}
use littleorgans.Runtime.Failure.{Failure}
use littleorgans.Runtime.Nudge.{
  Pane, Nudge, NudgeState, NudgeTiming, PolicyOutcome, ready, busy_timeout, out_of_fuel, sleep_for,
  probe_agent_busy, ask_pane, sleep_before, next_round, after_probe, idle_loop, wait_for_idle,
}

-- How a wait with this deadline ends: it does not fail, and gives up at the deadline at the earliest.
abbrev pub Waited : ℕ → Result Failure PolicyOutcome → NudgeState → Type 0
Waited deadline (ok ready) s = Unit
Waited deadline (ok busy_timeout) s = deadline ≤ s.now_ns
Waited deadline (ok out_of_fuel) s = ⊥
Waited deadline (err e) s = ⊥

-- The fuel lasts for the rounds up to the deadline, which each take a nanosecond at least.
unfoldable Enough : ℕ → ℕ → NudgeState → Type 0
Enough deadline fuel s = (1 ≤ fuel) × (suc deadline ≤ s.now_ns + fuel)

empty_fuel : (deadline : ℕ) (s : NudgeState) → ¬ Enough deadline 0 s
unfolding Enough
empty_fuel deadline s h = absurd (omega arith)

lt_of_leb : (a b : ℕ) → leb a b ≡ false → b < a
lt_of_leb a b h = ground arith

module _ (busy : List ℕ → Bool) (pane : Pane) (timing : NudgeTiming)
    (pos : 1 ≤ timing.poll_interval) where
  module _ (deadline : ℕ) where
    Ends-probe :
        (fuel : ℕ)
        → Ends
            (Enough deadline fuel)
            (probe_agent_busy busy pane)
            (Returns (λ _. Enough deadline fuel))
    unfolding probe_agent_busy ask_pane Enough
    Ends-probe fuel = record { at = λ s h. (h.0, omega arith) }

    abbrev Early : ℕ → ℕ → NudgeState → Type 0
    Early fuel now s = Enough deadline (suc fuel) s × (now ≡ s.now_ns) × (now < deadline)

    -- A round that goes on finds the clock before the deadline, and leaves it a nanosecond later.
    Ends-sleep :
        (fuel now : ℕ)
        → Ends
            (Early fuel now)
            (sleep_for busy pane (min timing.poll_interval (deadline - now)))
            (Returns (λ _. Enough deadline fuel))
    unfolding sleep_for Enough
    Ends-sleep fuel now = record { at = λ s h. (omega arith, omega arith) }

    module _ (fuel : ℕ) (rest : Nudge PolicyOutcome)
        (k : Ends (Enough deadline fuel) rest (Waited deadline)) where
      Ends-sleep_before :
          (now : ℕ) (b : Bool)
          → leb deadline now ≡ b
          → Ends
              (λ s. Enough deadline (suc fuel) s × (now ≡ s.now_ns))
              (sleep_before busy pane timing deadline rest b)
              (Waited deadline)
      Ends-sleep_before now true e =
          Ends-pure busy_timeout _ (λ s h. rw (sym h.1) (leb→le deadline now e))
      Ends-sleep_before now false e =
          Ends-returned _ _ _ _
            (Ends-gets (λ s. s.now_ns) (Returns (Early fuel))
              (λ s h. (h.0, refl, rw (sym h.1) (lt_of_leb deadline now e))))
            (λ n. Ends-returned _ _ _ _ (Ends-sleep fuel n) (λ _. k))

      Ends-next_round :
          Ends
            (Enough deadline (suc fuel))
            (next_round busy pane timing deadline rest)
            (Waited deadline)
      unfolding next_round
      Ends-next_round =
          Ends-returned _ _ _ _
            (Ends-gets (λ s. s.now_ns)
              (Returns (λ n s. Enough deadline (suc fuel) s × (n ≡ s.now_ns))) (λ s h. (h, refl)))
            (λ now. Ends-sleep_before now (leb deadline now) refl)

    Ends-after_probe :
        (fuel idle : ℕ) (rest : ℕ → Nudge PolicyOutcome) (b : Option Bool)
        → ((n : ℕ) → Ends (Enough deadline fuel) (rest n) (Waited deadline))
        → Ends
            (Enough deadline (suc fuel))
            (after_probe busy pane timing deadline idle rest b)
            (Waited deadline)
    Ends-after_probe fuel idle rest none k = Ends-pure ready _ (λ s h. tt)
    Ends-after_probe fuel idle rest (some true) k = Ends-next_round fuel (rest 0) (k 0)
    Ends-after_probe fuel idle rest (some false) k =
        Ends-if (leb timing.idle_probes_required (idle + 1)) _ _ _ (Ends-pure ready _ (λ s h. tt))
          (Ends-next_round fuel (rest (idle + 1)) (k (idle + 1)))

    Ends-idle_loop :
        (fuel idle : ℕ)
        → Ends
            (Enough deadline fuel)
            (idle_loop busy pane timing deadline fuel idle)
            (Waited deadline)
    unfolding idle_loop
    Ends-idle_loop zero idle = Ends-pure out_of_fuel _ (λ s h. empty_fuel deadline s h)
    Ends-idle_loop (suc fuel) idle =
        Ends-returned _ _ _ _ (Ends-probe (suc fuel))
          (λ b. Ends-after_probe fuel idle _ b (Ends-idle_loop fuel))

-- A wait for an idle agent that polls every nanosecond at the most ends: it never fails or runs out
-- of the fuel of the model, and it gives up no earlier than its timeout after its start.
pub wait_for_idle-Waited :
    (busy : List ℕ → Bool) (pane : Pane) (timing : NudgeTiming)
    → 1 ≤ timing.poll_interval
    → (s : NudgeState)
    → Waited
        (s.now_ns + timing.timeout)
        (wait_for_idle busy pane timing s).0
        (wait_for_idle busy pane timing s).1
unfolding wait_for_idle ◌>>=◌ Enough
wait_for_idle-Waited busy pane timing pos s =
    (Ends-idle_loop busy pane timing pos (s.now_ns + timing.timeout) (suc (suc timing.timeout))
        0).at
      s (omega arith, omega arith)
