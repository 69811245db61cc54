-- ===== src/Runtime/Server/Reconcile/Deadline.antt =====
-- `advance_deadline` of reconcile.rs: the time of the next sweep.
use littleorgans.Base.{
  ℕ, zero, suc, ◌+◌, ◌-◌, ◌*◌, ◌≤◌, ◌<◌, ◌≡◌, ◌⊎◌, inl, inr, refl, arith, leb, Bool-cases,
}
use littleorgans.Runtime.Server.Reconcile.{advance_loop, advance_deadline}

-- `r` is past `now`, whole intervals after `d`, and at most one interval past `now` unless it is `d`.
abbrev pub IsNext : ℕ → ℕ → ℕ → ℕ → Type 0
IsNext d interval now r =
    (now < r) × ((r ≡ d) ⊎ (r ≤ now + interval)) × ((k : ℕ) × (r ≡ d + k * interval))

later :
    (d interval now r : ℕ)
    → d ≤ now
    → IsNext (d + interval) interval now r
    → IsNext d interval now r
later d interval now r behind (past, near, (k, e)) =
    (past, inr (ground arith), (suc k, grind arith))

advance_loop_lem :
    (fuel d interval now : ℕ)
    → 1 ≤ interval
    → suc now - d ≤ fuel
    → IsNext d interval now (advance_loop fuel d interval now)
unfolding advance_loop
advance_loop_lem zero d interval now pos enough = (ground arith, inl refl, (0, ground arith))
advance_loop_lem (suc fuel) d interval now pos enough = elim (Bool-cases (leb d now)) [
  | inl behind ↦ rw behind (
      later d interval now _ (ground arith)
        (advance_loop_lem fuel (d + interval) interval now pos (ground arith)))
  | inr ahead ↦ rw ahead (ground arith, inl refl, (0, ground arith))
]

-- Where the interval is positive, the next sweep is past `now` and whole intervals after the
-- deadline; it is one interval after the deadline or at most one interval past `now`.
pub advance_deadline-IsNext :
    (deadline interval now : ℕ)
    → 1 ≤ interval
    → IsNext (deadline + interval) interval now (advance_deadline deadline interval now)
unfolding advance_deadline
advance_deadline-IsNext deadline interval now pos =
    advance_loop_lem (suc now - (deadline + interval)) (deadline + interval) interval now pos
      (ground arith)
