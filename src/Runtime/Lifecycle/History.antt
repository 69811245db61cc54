-- ===== src/Runtime/Lifecycle/History.antt =====
-- What holds of a lifecycle over every sequence of transitions.
use littleorgans.Base.{
  ℕ, suc, ◌+◌, ◌≤◌, ◌≡◌, refl, Bool, true, false, List, [], ◌∷◌, arith, if◌then◌else◌, Option, none,
  some,
}
use littleorgans.Runtime.Lifecycle.{
  Lifecycle, LifecycleState, RuntimeExit, LostEvidence, ShimReady, is_ended, is_forking,
  mark_running, mark_exited, mark_lost,
}

-- One call of a transition.
pub data Mark : Type 0 where
  mark_run : ShimReady → Mark
  mark_exit : RuntimeExit → Mark
  mark_loss : LostEvidence → Mark

pub mark : Lifecycle → Mark → Lifecycle × Bool
unfolding mark_running mark_exited mark_lost
mark l (mark_run ready) = mark_running l ready
mark l (mark_exit exit) = mark_exited l exit
mark l (mark_loss evidence) = mark_lost l evidence

abbrev is_terminal_mark : Mark → Bool
is_terminal_mark (mark_run _) = false
is_terminal_mark _ = true

-- A sequence of calls: the last record, how many calls that end a lifecycle returned true, and
-- how many that start one did.
pub run : Lifecycle → List Mark → Lifecycle × ℕ × ℕ
run l [] = (l, 0, 0)
run l (m ∷ ms) =
    let (l', done) = mark l m in
    let (last, ends, starts) = run l' ms in
    (
      last,
      if done then (if is_terminal_mark m then suc ends else ends) else ends,
      if done then (if is_terminal_mark m then starts else suc starts) else starts,
    )

-- How often a lifecycle in this state may still report an end, and a start.
abbrev pub ends_left : LifecycleState → ℕ
ends_left s = if is_ended s then 0 else 1

abbrev pub starts_left : LifecycleState → ℕ
starts_left s = if is_forking s then 1 else 0

-- Over any sequence of transitions the calls that report an end are counted exactly by the states:
-- one if the lifecycle went from not ended to ended, none otherwise, so an end is reported once at
-- most; and a start is reported at most once, from `forking` alone.
pub run_reports :
    (l : Lifecycle) (ms : List Mark)
    → ((run l ms).1 + ends_left (run l ms).0.state ≡ ends_left l.state)
      × ((run l ms).2 + starts_left (run l ms).0.state ≤ starts_left l.state)
unfolding run mark
run_reports l [] = (omega arith, omega arith)
run_reports l (m ∷ ms) = ground (arith, run_reports (mark l m).0 ms)

-- The end of a lifecycle, with its evidence where it was lost.
abbrev pub end_of : LifecycleState → Option (Option LostEvidence)
end_of (LifecycleState.exited _) = some none
end_of (LifecycleState.lost evidence) = some (some evidence)
end_of _ = none

-- No sequence of transitions changes an ended lifecycle but in the exit of an exited one: a lost one
-- stays lost with its evidence, an exited one stays exited, and every other field is as it was.
pub run_absorbs :
    (l : Lifecycle) (ms : List Mark)
    → is_ended l.state ≡ true
    → (end_of (run l ms).0.state ≡ end_of l.state)
      × ((run l ms).0 ≡ record l { state = (run l ms).0.state })
unfolding run mark
run_absorbs l [] h = (refl, refl)
run_absorbs l (m ∷ ms) h = ground (arith, run_absorbs (mark l m).0 ms)
