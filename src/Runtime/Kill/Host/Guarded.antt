-- ===== src/Runtime/Kill/Host/Guarded.antt =====
-- Which process `kill_runtime_with_probe` of runtime_kill.rs signals.
use littleorgans.Base.{
  Bool-cases, ==_iff, ◌⊎◌, inl, inr, ℕ, ◌+◌, ◌≡◌, ◌≢◌, refl, Bool, true, false, Option, none, some,
  ◌==◌,
}
use littleorgans.Base.Exec.{Result, ok, err}
use littleorgans.Base.Action.{pure, continue, ◌>>=◌}
use littleorgans.Runtime.Lifecycle.{Lifecycle, RuntimeEvent, IsolationPolicy, pid_reuse_detected}
use littleorgans.Runtime.Failure.{Failure}
use littleorgans.Runtime.Server.{
  Env, ServerState, StartTime, gone, unsupported, probe_failed, known, find_row, store_get, query,
  ask,
}
use littleorgans.Runtime.Server.Termination.{get_or_fail, record_lost}
use littleorgans.Runtime.Server.Reconcile.{judge, host_process_lost_evidence}
use littleorgans.Runtime.Kill.{
  World, KillState, RuntimeSignal, KillOutcome, already_exited, run_kill_loop,
}
use littleorgans.Runtime.Kill.Host.{unless_reused, guard_in, kill_guard, run_if, kill_runtime}

-- The process with the pid is the one whose start time was stored, as far as it can be read.
abbrev pub SameProcess : ℕ → StartTime → Type 0
SameProcess stored (known current) = current ≡ stored
SameProcess stored _ = Unit {0}

abbrev pub OtherProcess : ℕ → StartTime → Type 0
OtherProcess stored (known current) = current ≢ stored
OtherProcess stored _ = ⊥

-- What must be of a host process: it has a pid, and if its start time is stored, the pid is not alive
-- or its process is the same. `n` is the number of the first probe.
abbrev pub IsTarget : Env → ℕ → IsolationPolicy → Option ℕ → Option ℕ → Type 0
IsTarget env n (IsolationPolicy.docker _) pid start_time = Unit {0}
IsTarget env n IsolationPolicy.host none start_time = ⊥
IsTarget env n IsolationPolicy.host (some pid) none = Unit {0}
IsTarget env n IsolationPolicy.host (some pid) (some stored) =
    (env.pid_alive n pid ≡ false) ⊎ SameProcess stored (env.start_time_for_pid (n + 1) pid)

-- The pid of a host process is alive, and of a process with another start time.
abbrev pub IsReused : Env → ℕ → IsolationPolicy → Option ℕ → Option ℕ → Type 0
IsReused env n IsolationPolicy.host (some pid) (some stored) =
    (env.pid_alive n pid ≡ true) × OtherProcess stored (env.start_time_for_pid (n + 1) pid)
IsReused env n _ pid start_time = ⊥

-- Why a guard may fail for a process whose pid is alive: it is another process, and the loss cannot be
-- recorded, or its start time cannot be read and the pid is alive in the third probe too.
abbrev pub Hinders : Env → ℕ → ℕ → ℕ → StartTime → Type 0
Hinders env n pid stored (known current) = current ≢ stored
Hinders env n pid stored probe_failed = env.pid_alive n pid ≡ true
Hinders env n pid stored _ = ⊥

-- Why a guard may fail for a row: a host process has no pid, or is alive and hinders it.
abbrev pub IsHindered : Env → ℕ → IsolationPolicy → Option ℕ → Option ℕ → Type 0
IsHindered env n IsolationPolicy.host none start_time = Unit {0}
IsHindered env n IsolationPolicy.host (some pid) (some stored) =
    (env.pid_alive n pid ≡ true)
    × Hinders env (n + 1 + 1) pid stored (env.start_time_for_pid (n + 1) pid)
IsHindered env n _ pid start_time = ⊥

abbrev Judged : Type 0 → Type 0 → Type 0 → Result Failure Bool → Type 0
Judged P Q R (ok true) = P
Judged P Q R (ok false) = Q
Judged P Q R (err e) = R

Judged-map :
    {P Q R P' Q' R' : Type 0}
    → (r : Result Failure Bool) → (P → P')
    → (Q → Q')
    → (R → R')
    → Judged P Q R r
    → Judged P' Q' R' r
Judged-map (ok true) p q r h = p h
Judged-map (ok false) p q r h = q h
Judged-map (err e) p q r h = r h

not_both : {b : Bool} → b ≡ false → b ≡ true → ⊥
not_both h k = absurd cc

module _ (env : Env) (i : ℕ) where
  spared :
      (P Q R : Type 0) (r : Result Failure (Option RuntimeEvent)) (s : ServerState)
      → Q
      → R
      → Judged P Q R (continue r (λ _. pure false) s).0
  unfolding ◌>>=◌
  spared P Q R (ok event) s q r = q
  spared P Q R (err e) s q r = r

  judged :
      (pid stored : ℕ) (t : StartTime) (s : ServerState)
      → Judged
          (SameProcess stored t)
          (OtherProcess stored t)
          (Hinders env s.clock pid stored t)
          ((judge env pid stored t >>= unless_reused env i) s).0
  unfolding unless_reused ◌>>=◌ ask
  judged pid stored (known current) s = elim (Bool-cases (current == stored)) [
    | inl same ↦ rw same ((==_iff current stored).0 same)
    | inr other ↦
        let lost = record_lost env i pid_reuse_detected s in
        let differs : current ≢ stored = λ e. not_both other ((==_iff current stored).1 e) in
        rw other (spared _ _ _ lost.0 lost.1 differs differs)
  ]
  judged pid stored gone s = tt
  judged pid stored unsupported s = elim (Bool-cases (env.pid_alive s.clock pid)) [
    | inl e ↦ rw e tt
    | inr e ↦ rw e tt
  ]
  judged pid stored probe_failed s = elim (Bool-cases (env.pid_alive s.clock pid)) [
    | inl e ↦ rw e refl
    | inr e ↦ rw e tt
  ]

  guard_in-Judged :
      (policy : IsolationPolicy) (pid start_time : Option ℕ) (s : ServerState)
      → Judged
          (IsTarget env s.clock policy pid start_time)
          (IsReused env s.clock policy pid start_time)
          (IsHindered env s.clock policy pid start_time)
          (guard_in env i policy pid start_time s).0
  unfolding ◌>>=◌ ask host_process_lost_evidence unless_reused
  guard_in-Judged (IsolationPolicy.docker _) pid start_time s = tt
  guard_in-Judged IsolationPolicy.host none start_time s = tt
  guard_in-Judged IsolationPolicy.host (some pid) none s =
      elim (Bool-cases (env.pid_alive s.clock pid)) [ inl e ↦ rw e tt | inr e ↦ rw e tt ]
  guard_in-Judged IsolationPolicy.host (some pid) (some stored) s =
      elim (Bool-cases (env.pid_alive s.clock pid)) [
        | inr e ↦ rw e (inl refl)
        | inl e ↦
            let t = env.start_time_for_pid (s.clock + 1) pid in
            let s2 = record s { clock = s.clock + 1 + 1 } in
            rw e (
              Judged-map ((judge env pid stored t >>= unless_reused env i) s2).0 inr
                (λ o. (refl, o)) (λ h. (refl, h)) (judged pid stored t s2))
      ]

  -- The database gave the row of the session, and of its process it is known what is needed.
  abbrev pub Row : (Lifecycle → Type 0) → ServerState → Type 0
  Row P s = (l : Lifecycle) × (find_row i s.lifecycles ≡ some l) × P l

  abbrev pub Target : ServerState → Lifecycle → Type 0
  Target s l = IsTarget env (s.clock + 1) l.isolation l.runtime_pid l.start_time

  abbrev pub Reused : ServerState → Lifecycle → Type 0
  Reused s l = IsReused env (s.clock + 1) l.isolation l.runtime_pid l.start_time

  abbrev pub Unfit : ServerState → Type 0
  Unfit s =
      (find_row i s.lifecycles ≡ none)
      ⊎ Row (λ l. IsHindered env (s.clock + 1) l.isolation l.runtime_pid l.start_time) s

  -- Why a guard may fail: the database does not answer, or has no row, or the row is hindered.
  abbrev pub Blocked : ServerState → Type 0
  Blocked s = (env.db_ok s.clock ≡ false) ⊎ Unfit s

  get_or_fail-Judged :
      (row : Option Lifecycle) (s s1 : ServerState)
      → find_row i s.lifecycles ≡ row
      → s1.clock ≡ s.clock + 1
      → Judged
          (Row (Target s) s)
          (Row (Reused s) s)
          (Unfit s)
          (continue
            (get_or_fail i row s1).0
            (λ l. guard_in env i l.isolation l.runtime_pid l.start_time)
            (get_or_fail i row s1).1).0
  unfolding ◌>>=◌
  get_or_fail-Judged none s s1 e c = inl e
  get_or_fail-Judged (some l) s s1 e c =
      Judged-map (guard_in env i l.isolation l.runtime_pid l.start_time s1).0
        (λ h. (l, e, rw (← c) h)) (λ h. (l, e, rw (← c) h)) (λ h. inr (l, e, rw (← c) h))
        (guard_in-Judged l.isolation l.runtime_pid l.start_time s1)

  kill_guard-Judged :
      (s : ServerState)
      → Judged (Row (Target s) s) (Row (Reused s) s) (Blocked s) (kill_guard env i s).0
  unfolding kill_guard ◌>>=◌ store_get query
  kill_guard-Judged s = elim (Bool-cases (env.db_ok s.clock)) [
    | inl e ↦
        let s1 = record s { clock = s.clock + 1 } in
        let row = find_row i s.lifecycles in
        rw e (
          Judged-map
            (continue (get_or_fail i row s1).0
              (λ l. guard_in env i l.isolation l.runtime_pid l.start_time)
              (get_or_fail i row s1).1).0
            (λ h. h) (λ h. h) inr (get_or_fail-Judged row s s1 refl refl))
    | inr e ↦ rw e (inl refl)
  ]

abbrev pub Failed : {A : Type 0} → Result Failure A → Type 0
Failed (ok a) = ⊥
Failed (err e) = Unit {0}

-- The answer and the signals of a kill: the loop ran on a process that is a target, or the pid was
-- reused and nothing was sent, or the kill was blocked and failed with nothing sent.
abbrev pub Guarded :
    Env
    → World
    → ℕ
    → RuntimeSignal
    → ℕ
    → ServerState
    → KillState
    → Result Failure KillOutcome
    → KillState
    → Type 0
Guarded env world i which grace_secs s k answer k' =
    (Row env i (Target env i s) s × ((answer, k') ≡ run_kill_loop world which grace_secs k))
    ⊎ ((Row env i (Reused env i s) s × (answer ≡ ok already_exited) × (k' ≡ k))
        ⊎ (Blocked env i s × Failed answer × (k' ≡ k)))

run_if-Guarded :
    (env : Env) (world : World) (i : ℕ) (which : RuntimeSignal) (grace_secs : ℕ) (s : ServerState)
    (k : KillState) (guard : Result Failure Bool × ServerState)
    → Judged (Row env i (Target env i s) s) (Row env i (Reused env i s) s) (Blocked env i s) guard.0
    → Guarded env world i which grace_secs s k
        (run_if world which grace_secs k guard).0
        (run_if world which grace_secs k guard).2
run_if-Guarded env world i which grace_secs s k (ok true, s') h = inl (h, refl)
run_if-Guarded env world i which grace_secs s k (ok false, s') h = inr (inl (h, refl, refl))
run_if-Guarded env world i which grace_secs s k (err e, s') h = inr (inr (h, tt, refl))

-- For any answers of the environment, a kill gives what the loop of signals gives and the row of the
-- session is of a container, or has a pid and no start time, or a pid that is not alive or whose
-- start time cannot be read or is the stored one; or the pid is alive with another start time,
-- nothing is sent and the answer is already_exited; or nothing is sent and the kill fails, and the
-- database does not answer, or has no row, or the row is of a host process without a pid, or its
-- pid is alive with another start time, or with one whose probe failed.
pub kill_runtime-Guarded :
    (env : Env) (world : World) (i : ℕ) (which : RuntimeSignal) (grace_secs : ℕ) (s : ServerState)
    (k : KillState)
    → Guarded env world i which grace_secs s k
        (kill_runtime env world i which grace_secs s k).0
        (kill_runtime env world i which grace_secs s k).2
unfolding kill_runtime
kill_runtime-Guarded env world i which grace_secs s k =
    run_if-Guarded env world i which grace_secs s k (kill_guard env i s) (kill_guard-Judged env i s)
