-- ===== src/Runtime/Nudge/Timing.antt =====
-- How `wait_timing` spaces the probes of a pane.
use littleorgans.Base.{ℕ, suc, ◌*◌, ◌/◌, ◌≤◌, Option, none, some, min, max, arith}
use littleorgans.Runtime.Nudge.{NudgeTiming, wait_timing, milliseconds}

module _ (timing : NudgeTiming) where
  -- A poll waits a nanosecond at least and a second at most, and a timeout of three nanoseconds or
  -- more has room for one more poll than the idle probes that are needed.
  abbrev pub Spaced : Type 0
  Spaced =
      (1 ≤ timing.poll_interval)
      × (timing.poll_interval ≤ milliseconds 1_000)
      × (timing.poll_interval * suc timing.idle_probes_required ≤ max timing.timeout 3)

spaced :
    (n : ℕ)
    → (1 ≤ min (milliseconds 1_000) (max (n / 3) 1))
      × (min (milliseconds 1_000) (max (n / 3) 1) ≤ milliseconds 1_000)
      × (min (milliseconds 1_000) (max (n / 3) 1) * 3 ≤ max n 3)
spaced n = (ground arith, ground arith, ground arith)

-- The timing of a wait for an idle agent, for every timeout: a poll takes between a nanosecond and
-- a second, and three polls fit in the timeout, or in three nanoseconds where it is shorter.
pub wait_timing-Spaced : (timeout_ms : Option ℕ) → Spaced (wait_timing timeout_ms)
unfolding wait_timing
wait_timing-Spaced none = (omega arith, omega arith, omega arith)
wait_timing-Spaced (some timeout_ms) = spaced (milliseconds timeout_ms)
