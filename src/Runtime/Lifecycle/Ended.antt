-- ===== src/Runtime/Lifecycle/Ended.antt =====
-- What the marks of types/lifecycle.rs do to a lifecycle that has ended, and what they leave alone.
use littleorgans.Base.{◌≡◌, refl, true, false, arith}
use littleorgans.Runtime.Lifecycle.{
  Lifecycle, LifecycleState, RuntimeExit, LostEvidence, ShimReady, is_ended, is_forking,
  mark_exited, mark_lost, mark_running, exited_from, lost_from,
}

ended_from :
    (x : LifecycleState) (exit : RuntimeExit) → is_ended x ≡ true → (exited_from x exit).1 ≡ false
unfolding exited_from
ended_from LifecycleState.forking exit h = cc
ended_from LifecycleState.running exit h = cc
ended_from (LifecycleState.exited _) exit h = refl
ended_from (LifecycleState.lost _) exit h = refl

pub ended-mark_exited :
    (l : Lifecycle) (exit : RuntimeExit) → is_ended l.state ≡ true → (mark_exited l exit).1 ≡ false
unfolding mark_exited
ended-mark_exited l exit h = ended_from l.state exit h

ended_lost :
    (x : LifecycleState) (evidence : LostEvidence)
    → is_ended x ≡ true
    → (lost_from x evidence).1 ≡ false
unfolding lost_from
ended_lost LifecycleState.forking evidence h = cc
ended_lost LifecycleState.running evidence h = cc
ended_lost (LifecycleState.exited _) evidence h = refl
ended_lost (LifecycleState.lost _) evidence h = refl

pub ended-mark_lost :
    (l : Lifecycle) (evidence : LostEvidence)
    → is_ended l.state ≡ true
    → (mark_lost l evidence).1 ≡ false
unfolding mark_lost
ended-mark_lost l evidence h = ended_lost l.state evidence h

pub ended-is_forking : (x : LifecycleState) → is_ended x ≡ true → is_forking x ≡ false
ended-is_forking LifecycleState.forking h = cc
ended-is_forking LifecycleState.running h = refl
ended-is_forking (LifecycleState.exited _) h = refl
ended-is_forking (LifecycleState.lost _) h = refl

pub ended-mark_running :
    (l : Lifecycle) (ready : ShimReady) → is_ended l.state ≡ true → (mark_running l ready).1 ≡ false
unfolding mark_running
ended-mark_running l ready h = rw (ended-is_forking l.state h) refl

pub mark_exited-id :
    (l : Lifecycle) (exit : RuntimeExit) → (mark_exited l exit).0.session_id ≡ l.session_id
unfolding mark_exited
mark_exited-id l exit = refl

pub mark_lost-id :
    (l : Lifecycle) (evidence : LostEvidence) → (mark_lost l evidence).0.session_id ≡ l.session_id
unfolding mark_lost
mark_lost-id l evidence = refl

pub mark_running-id :
    (l : Lifecycle) (ready : ShimReady) → (mark_running l ready).0.session_id ≡ l.session_id
unfolding mark_running
mark_running-id l ready = ground arith
