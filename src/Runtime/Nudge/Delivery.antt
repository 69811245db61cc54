-- ===== src/Runtime/Nudge/Delivery.antt =====
-- What a nudge has sent when it ends: the payload once at most, and two lone submits at most.
use littleorgans.Base.{
  ℕ, zero, suc, ◌+◌, ◌≤◌, ◌≡◌, ◌⊎◌, inl, inr, refl, ap, Bool, true, false, Option, none, some, List,
  arith,
}
use littleorgans.Base.Exec.{Result, ok, err}
use littleorgans.Base.Action.{◌>>=◌}
use littleorgans.Base.Action.Keeps.{Keeps}
use littleorgans.Base.Action.Ends.{Ends, Ends-pure, Ends-weaken, Ends-bind, Ends-after}
use littleorgans.Runtime.Failure.{Failure}
use littleorgans.Runtime.Nudge.{
  Pane, Nudge, NudgeState, NudgeSendOutcome, NudgeMode, Keys, PolicyOutcome, delivered, pane_dead,
  agent_busy_timeout, payload, submit, ready, busy_timeout, out_of_fuel, ask_pane, send_to_pane,
  send_or_pane_dead, outcome_or, resend_unless, confirm_loop, dead_or_error, after_send,
  send_nudge_payload, after_policy, if_alive, execute_nudge,
}
use littleorgans.Runtime.Nudge.Quiet.{
  Sent, payloads, submits, Keeps-ask, Keeps-leave_copy_mode, Keeps-policy,
  Keeps-submission_confirmed,
}

-- What a nudge from counts `p` and `r` has sent, by its result.
abbrev pub Report : ℕ → ℕ → Result Failure NudgeSendOutcome → NudgeState → Type 0
Report p r (ok agent_busy_timeout) s = Sent p r s
Report p r (ok delivered) s = (payloads s.sent ≡ suc p) × (submits s.sent ≤ r + 2)
Report p r _ s = Sent p r s ⊎ ((payloads s.sent ≡ suc p) × (submits s.sent ≤ r + 2))

-- A result of `send_or_pane_dead` in a state with `Q`.
abbrev Tried :
    (NudgeState → Type 0) → Result Failure (Option NudgeSendOutcome) → NudgeState → Type 0
Tried Q (ok (some delivered)) s = ⊥
Tried Q (ok (some agent_busy_timeout)) s = ⊥
Tried Q _ s = Q s

-- A result of the loop over the resends, of which `left` were left.
abbrev Looped : ℕ → ℕ → ℕ → Result Failure NudgeSendOutcome → NudgeState → Type 0
Looped p r left (ok agent_busy_timeout) s = ⊥
Looped p r left _ s = (payloads s.sent ≡ p) × (submits s.sent ≤ r + left)

Looped-suc :
    (p r left : ℕ) (x : Result Failure NudgeSendOutcome) (s : NudgeState)
    → Looped p (suc r) left x s
    → Looped p r (suc left) x s
Looped-suc p r left (ok delivered) s h = (h.0, omega arith)
Looped-suc p r left (ok pane_dead) s h = (h.0, omega arith)
Looped-suc p r left (ok agent_busy_timeout) s h = h
Looped-suc p r left (err e) s h = (h.0, omega arith)

Looped-Report :
    (p r : ℕ) (x : Result Failure NudgeSendOutcome) (s : NudgeState)
    → Looped (suc p) r 2 x s
    → Report p r x s
Looped-Report p r (ok delivered) s h = h
Looped-Report p r (ok pane_dead) s h = inr h
Looped-Report p r (ok agent_busy_timeout) s h = elim h [ ]
Looped-Report p r (err e) s h = inr h

module _ (busy : List ℕ → Bool) (pane : Pane) where
  module _ (Q : NudgeState → Type 0) (k : Keeps Q (ask_pane busy pane pane.alive)) where
    Tried-dead_or_error :
        (e : Failure) (x : Result Failure Bool) (s : NudgeState)
        → Q s
        → Tried Q (dead_or_error busy pane e (x, s)).0 (dead_or_error busy pane e (x, s)).1
    Tried-dead_or_error e (ok true) s h = h
    Tried-dead_or_error e (ok false) s h = h
    Tried-dead_or_error e (err _) s h = h

    Tried-after_send :
        (x : Result Failure (Unit {0})) (s : NudgeState)
        → Q s
        → Tried Q (after_send busy pane (x, s)).0 (after_send busy pane (x, s)).1
    Tried-after_send (ok _) s h = h
    Tried-after_send (err e) s h =
        Tried-dead_or_error e (ask_pane busy pane pane.alive s).0
          (ask_pane busy pane pane.alive s).1 (k.at s h)

    Ends-send_or_pane_dead :
        (P : NudgeState → Type 0) (keys : Keys)
        → ((s : NudgeState) → P s → Q (send_to_pane busy pane keys s).1)
        → Ends P (send_or_pane_dead busy pane keys) (Tried Q)
    unfolding send_or_pane_dead
    Ends-send_or_pane_dead P keys w = record {
      at = λ s h.
          Tried-after_send (send_to_pane busy pane keys s).0 (send_to_pane busy pane keys s).1
            (w s h);
    }

  Ends-payload :
      (p r : ℕ) → Ends (Sent p r) (send_or_pane_dead busy pane payload) (Tried (Sent (suc p) r))
  unfolding send_to_pane
  Ends-payload p r =
      Ends-send_or_pane_dead (Sent (suc p) r) (Keeps-ask busy pane (suc p) r pane.alive) (Sent p r)
        payload (λ s h. (ap suc h.0, h.1))

  Ends-submit :
      (p r : ℕ) → Ends (Sent p r) (send_or_pane_dead busy pane submit) (Tried (Sent p (suc r)))
  unfolding send_to_pane
  Ends-submit p r =
      Ends-send_or_pane_dead (Sent p (suc r)) (Keeps-ask busy pane p (suc r) pane.alive) (Sent p r)
        submit (λ s h. (h.0, ap suc h.1))

  Ends-resend_unless :
      (p r left : ℕ) (rest : Nudge NudgeSendOutcome) (confirmed : Bool)
      → Ends (Sent p r) rest (Looped p r left)
      → Ends (Sent p r) (resend_unless busy pane rest confirmed) (Looped p r left)
  Ends-resend_unless p r left rest true k = Ends-pure delivered _ (λ s h. (h.0, omega arith))
  Ends-resend_unless p r left rest false k = k

  Ends-outcome_or :
      (p r left : ℕ) (rest : Nudge NudgeSendOutcome) (outcome : Option NudgeSendOutcome)
      → Ends (Sent p r) rest (Looped p r left)
      → Ends (Tried (Sent p r) (ok outcome)) (outcome_or busy pane rest outcome) (Looped p r left)
  Ends-outcome_or p r left rest none k = k
  Ends-outcome_or p r left rest (some delivered) k = Ends-pure delivered _ (λ s h. elim h [ ])
  Ends-outcome_or p r left rest (some pane_dead) k =
      Ends-pure pane_dead _ (λ s h. (h.0, omega arith))
  Ends-outcome_or p r left rest (some agent_busy_timeout) k =
      Ends-pure agent_busy_timeout _ (λ s h. h)

  Ends-resubmit :
      (p r left : ℕ)
      → Ends (Sent p (suc r)) (confirm_loop busy pane left) (Looped p (suc r) left)
      → Ends
          (Sent p r)
          (send_or_pane_dead busy pane submit
            >>= outcome_or busy pane (confirm_loop busy pane left))
          (Looped p r (suc left))
  Ends-resubmit p r left k =
      Ends-bind _ _ _ _ (Ends-submit p r)
        (λ outcome.
          Ends-weaken _ (Looped p (suc r) left) _ (Ends-outcome_or p (suc r) left _ outcome k)
            (Looped-suc p r left))
        (λ e s h. (h.0, omega arith))

  Ends-confirm_loop :
      (p r left : ℕ) → Ends (Sent p r) (confirm_loop busy pane left) (Looped p r left)
  unfolding confirm_loop
  Ends-confirm_loop p r zero =
      Ends-after _ _ _ (Keeps-submission_confirmed busy pane p r)
        (λ confirmed.
          Ends-resend_unless p r 0 _ confirmed (Ends-pure delivered _ (λ s h. (h.0, omega arith))))
        (λ e s h. (h.0, omega arith))
  Ends-confirm_loop p r (suc left) =
      Ends-after _ _ _ (Keeps-submission_confirmed busy pane p r)
        (λ confirmed.
          Ends-resend_unless p r (suc left) _ confirmed
            (Ends-resubmit p r left (Ends-confirm_loop p (suc r) left)))
        (λ e s h. (h.0, omega arith))

  Ends-send_nudge_payload : (p r : ℕ) → Ends (Sent p r) (send_nudge_payload busy pane) (Report p r)
  unfolding send_nudge_payload
  Ends-send_nudge_payload p r =
      Ends-after _ _ _ (Keeps-leave_copy_mode busy pane p r)
        (λ _.
          Ends-bind _ _ _ _ (Ends-payload p r)
            (λ outcome.
              Ends-weaken _ (Looped (suc p) r 2) _
                (Ends-outcome_or (suc p) r 2 _ outcome (Ends-confirm_loop (suc p) r 2))
                (Looped-Report p r))
            (λ e s h. inr (h.0, omega arith)))
        (λ e s h. inl h)

  Ends-after_policy :
      (p r : ℕ) (outcome : PolicyOutcome)
      → Ends (Sent p r) (after_policy busy pane outcome) (Report p r)
  Ends-after_policy p r ready = Ends-send_nudge_payload p r
  Ends-after_policy p r busy_timeout = Ends-pure agent_busy_timeout _ (λ s h. h)
  Ends-after_policy p r out_of_fuel = Ends-pure agent_busy_timeout _ (λ s h. h)

  Ends-if_alive :
      (p r : ℕ) (mode : NudgeMode) (timeout_ms : Option ℕ) (alive : Bool)
      → Ends (Sent p r) (if_alive busy pane mode timeout_ms alive) (Report p r)
  Ends-if_alive p r mode timeout_ms false = Ends-pure pane_dead _ (λ s h. inl h)
  Ends-if_alive p r mode timeout_ms true =
      Ends-after _ _ _ (Keeps-leave_copy_mode busy pane p r)
        (λ _.
          Ends-after _ _ _ (Keeps-policy busy pane p r mode timeout_ms) (Ends-after_policy p r)
            (λ e s h. inl h))
        (λ e s h. inl h)

  Ends-execute_nudge :
      (p r : ℕ) (mode : NudgeMode) (timeout_ms : Option ℕ)
      → Ends (Sent p r) (execute_nudge busy pane mode timeout_ms) (Report p r)
  unfolding execute_nudge
  Ends-execute_nudge p r mode timeout_ms =
      Ends-after _ _ _ (Keeps-ask busy pane p r pane.alive) (Ends-if_alive p r mode timeout_ms)
        (λ e s h. inl h)

-- A nudge sends its payload at most once and the lone submit at most twice: on `delivered` the
-- payload was sent exactly once, on a busy timeout nothing of both was sent, and when the pane is
-- found dead or a call fails, either nothing was or the payload was once.
pub execute_nudge-Report :
    (busy : List ℕ → Bool) (pane : Pane) (mode : NudgeMode) (timeout_ms : Option ℕ) (s : NudgeState)
    → Report
        (payloads s.sent)
        (submits s.sent)
        (execute_nudge busy pane mode timeout_ms s).0
        (execute_nudge busy pane mode timeout_ms s).1
execute_nudge-Report busy pane mode timeout_ms s =
    (Ends-execute_nudge busy pane (payloads s.sent) (submits s.sent) mode timeout_ms).at s
      (refl, refl)
