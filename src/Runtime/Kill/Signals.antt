-- ===== src/Runtime/Kill/Signals.antt =====
-- What the kill loop sends, and that its wait ends.
use littleorgans.Base.{
  ℕ, zero, suc, ◌+◌, ◌-◌, ◌*◌, ◌≤◌, ◌<◌, ◌≡◌, ◌≢◌, ◌∙◌, ◌⊎◌, inl, inr, refl, ap, true, false, ◌∷◌,
  ltb, arith, Bool-cases, Option-cases,
}
use littleorgans.Base.Exec.{Result, ok, err}
use littleorgans.Base.Action.{continue, ◌>>=◌}
use littleorgans.Base.Action.Keeps.{continue-pure}
use littleorgans.Runtime.Failure.{Failure}
use littleorgans.Runtime.Kill.{
  World, KillState, RuntimeSignal, KillOutcome, Grace, gone, over, out_of_fuel, kill, wait, is_gone,
  is_alive, ask, outcome_for_kill, after_signal, already_exited, sleep, finish, delivered_or_fail,
  signalled, poll_interval_ms, run_kill_loop, send, is_kill,
}

-- The end `r` of a wait from `s` in state `t`: nothing was sent, a wait that is over has reached its
-- deadline, and the fuel was enough.
record Waited (deadline : ℕ) (s : KillState) (r : Result Failure Grace) (t : KillState)
    : Type 0 where
  sent : t.sent ≡ s.sent
  reached : r ≡ ok over → deadline ≤ t.now_ms
  ends : r ≢ ok out_of_fuel

moved :
    (deadline : ℕ) (s t : KillState) (r : Result Failure Grace) (u : KillState)
    → t.sent ≡ s.sent
    → Waited deadline t r u
    → Waited deadline s r u
moved deadline s t r u same w = record { sent = w.sent ∙ same; reached = w.reached; ends = w.ends }

-- What the loop may have sent, the last first: the signal alone, or SIGKILL after another signal
-- and after the whole grace period.
abbrev pub Sent : RuntimeSignal → ℕ → KillState → KillState → Type 0
Sent which grace_secs s t =
    (t.sent ≡ which ∷ s.sent)
    ⊎ ((t.sent ≡ kill ∷ which ∷ s.sent)
        × (is_kill which ≡ false)
        × (s.now_ms + grace_secs * 1_000 ≤ t.now_ms))

module _ (world : World) where
  wait_lem :
      (fuel deadline : ℕ) (s : KillState)
      → deadline - s.now_ms < fuel
      → Waited deadline s (wait world fuel deadline s).0 (wait world fuel deadline s).1
  unfolding wait ◌>>=◌ is_gone ask is_alive sleep
  wait_lem zero deadline s enough = record {
    sent = ground arith;
    reached = ground arith;
    ends = ground arith;
  }
  wait_lem (suc fuel) deadline s enough = elim (Bool-cases (ltb s.now_ms deadline)) [
    | inr late ↦ rw late (record { sent = refl; reached = λ e. ground arith; ends = λ e. cc })
    | inl early ↦ elim (Bool-cases (world.terminal s.clock)) [
      | inl ended ↦ rw (early, ended) (record { sent = refl; reached = λ e. cc; ends = λ e. cc })
      | inr unended ↦ elim (Option-cases (world.alive (s.clock + 1))) [
        | inl broken ↦
            rw (early, unended, broken) (record { sent = refl; reached = λ e. cc; ends = λ e. cc })
        | inr (true, up) ↦
            let t = record s {
              clock = s.clock + 1 + 1 + 1;
              now_ms =
                  s.now_ms
                  + world.takes_ms s.clock
                  + world.takes_ms (s.clock + 1)
                  + poll_interval_ms
                  + world.takes_ms (s.clock + 1 + 1);
            } in
            rw (early, unended, up)
              (moved deadline s t _ _ refl (wait_lem fuel deadline t (ground arith)))
        | inr (false, down) ↦
            rw (early, unended, down) (record { sent = refl; reached = λ e. cc; ends = λ e. cc })
      ]
    ]
  ]

  -- The wait of the kill loop ends: its fuel is enough for any answers.
  pub wait_ends :
      (grace_secs : ℕ) (s : KillState)
      → (wait world (suc (grace_secs * 1_000)) (s.now_ms + grace_secs * 1_000) s).0 ≢ ok out_of_fuel
  wait_ends grace_secs s =
      (wait_lem (suc (grace_secs * 1_000)) (s.now_ms + grace_secs * 1_000) s (ground arith)).ends

  finish-Sent :
      (which : RuntimeSignal) (grace_secs deadline : ℕ) (s t : KillState) (r : Result Failure Grace)
      (u : KillState)
      → t.sent ≡ which ∷ s.sent
      → s.now_ms + grace_secs * 1_000 ≤ deadline
      → Waited deadline t r u
      → Sent which grace_secs s (continue r (finish world which signalled) u).1
  unfolding is_alive ask send ◌>>=◌
  finish-Sent which grace_secs deadline s t (err e) u one late w = inl (w.sent ∙ one)
  finish-Sent which grace_secs deadline s t (ok gone) u one late w = inl (w.sent ∙ one)
  finish-Sent which grace_secs deadline s t (ok out_of_fuel) u one late w = inl (w.sent ∙ one)
  finish-Sent which grace_secs deadline s t (ok over) u one late w =
      let past = w.reached refl in
      elim (Option-cases (world.alive u.clock)) [
        | inl broken ↦ rw broken (inl (w.sent ∙ one))
        | inr (false, down) ↦ rw down (inl (w.sent ∙ one))
        | inr (true, up) ↦ elim (Bool-cases (is_kill which)) [
          | inl hard ↦ rw (up, hard) (inl (w.sent ∙ one))
          | inr soft ↦
              let struck = record u {
                clock = u.clock + 1 + 1;
                now_ms = u.now_ms + world.takes_ms u.clock + world.takes_ms (u.clock + 1);
                sent = kill ∷ u.sent;
              } in
              let kept =
                continue-pure (delivered_or_fail (world.deliver (u.clock + 1))) (λ _. signalled)
                  struck in
              rw (up, soft, kept) (inr (ap (λ x. kill ∷ x) (w.sent ∙ one), refl, omega arith))
        ]
      ]

  answered :
      (which : RuntimeSignal) (grace_secs : ℕ) (s t : KillState) (r : Result Failure KillOutcome)
      → t.sent ≡ which ∷ s.sent
      → s.now_ms ≤ t.now_ms
      → Sent which grace_secs s (continue r (after_signal world which grace_secs) t).1
  unfolding ◌>>=◌
  answered which grace_secs s t (err e) one later = inl one
  answered which grace_secs s t (ok already_exited) one later = inl one
  answered which grace_secs s t (ok signalled) one later =
      let deadline = t.now_ms + grace_secs * 1_000 in
      let waited = wait world (suc (grace_secs * 1_000)) deadline t in
      finish-Sent which grace_secs deadline s t waited.0 waited.1 one (omega arith)
        (wait_lem (suc (grace_secs * 1_000)) deadline t (ground arith))

  -- Whatever the target answers and however long the questions take, the kill loop sends the signal
  -- that was asked for once, and after it nothing but one SIGKILL, which is sent only if the signal
  -- was another one and the grace period is over.
  pub run_kill_loop-Sent :
      (which : RuntimeSignal) (grace_secs : ℕ) (s : KillState)
      → Sent which grace_secs s (run_kill_loop world which grace_secs s).1
  unfolding run_kill_loop ◌>>=◌ send
  run_kill_loop-Sent which grace_secs s =
      let t = record s {
        clock = s.clock + 1;
        now_ms = s.now_ms + world.takes_ms s.clock;
        sent = which ∷ s.sent;
      } in
      answered which grace_secs s t (outcome_for_kill (world.deliver s.clock)) refl (omega arith)
