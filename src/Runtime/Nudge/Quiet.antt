-- ===== src/Runtime/Nudge/Quiet.antt =====
-- The counts of what a nudge sends, and the steps that leave them.
use littleorgans.Base.{ℕ, zero, suc, ◌+◌, ◌≡◌, Bool, true, false, Option, none, some, List, [], ◌∷◌}
use littleorgans.Base.Action.Keeps.{
  Keeps, Keeps-pure, Keeps-bind, Keeps-gets, Keeps-if, keeps_rules,
}
use littleorgans.Runtime.Nudge.{
  Pane, Nudge, NudgeState, NudgeMode, NudgeTiming, Keys, PolicyOutcome, payload, submit, interrupt,
  immediate, wait, steer, ask_pane, send_to_pane, sleep_for, cancel_copy_mode, cancel_if,
  leave_copy_mode, probe_agent_busy, sleep_before, next_round, after_probe, idle_loop,
  wait_for_idle, steer_after, steer_if_busy, confirmed_or, sleep_unless_last, confirm_probes,
  submission_confirmed, policy,
}

abbrev pub payloads : List Keys → ℕ
payloads [] = 0
payloads (payload ∷ keys) = suc (payloads keys)
payloads (_ ∷ keys) = payloads keys

abbrev pub submits : List Keys → ℕ
submits [] = 0
submits (submit ∷ keys) = suc (submits keys)
submits (_ ∷ keys) = submits keys

-- The payload was sent `p` times and a lone submit `r` times.
abbrev pub Sent : ℕ → ℕ → NudgeState → Type 0
Sent p r s = (payloads s.sent ≡ p) × (submits s.sent ≡ r)

module _ (busy : List ℕ → Bool) (pane : Pane) where
  module _ (p r : ℕ) where
    pub Keeps-ask : {A : Type 0} (f : ℕ → Option A) → Keeps (Sent p r) (ask_pane busy pane f)
    unfolding ask_pane
    Keeps-ask f = record { at = λ s h. h }

    Keeps-cancel : Keeps (Sent p r) (cancel_copy_mode busy pane)
    unfolding cancel_copy_mode send_to_pane
    Keeps-cancel = record { at = λ s h. h }

    Keeps-interrupt : Keeps (Sent p r) (send_to_pane busy pane interrupt)
    unfolding send_to_pane
    Keeps-interrupt = record { at = λ s h. h }

    Keeps-sleep : (d : ℕ) → Keeps (Sent p r) (sleep_for busy pane d)
    unfolding sleep_for
    Keeps-sleep d = record { at = λ s h. h }

    Keeps-probe : Keeps (Sent p r) (probe_agent_busy busy pane)
    unfolding probe_agent_busy ask_pane
    Keeps-probe = record { at = λ s h. h }

    Keeps-cancel_if : (b : Bool) → Keeps (Sent p r) (cancel_if busy pane b)
    Keeps-cancel_if true = Keeps-cancel
    Keeps-cancel_if false = Keeps-pure _

    pub Keeps-leave_copy_mode : Keeps (Sent p r) (leave_copy_mode busy pane)
    unfolding leave_copy_mode
    Keeps-leave_copy_mode = search (keeps_rules, Keeps-ask, Keeps-cancel_if)

    Keeps-sleep_before :
        (timing : NudgeTiming) (deadline : ℕ) (rest : Nudge PolicyOutcome) (b : Bool)
        → Keeps (Sent p r) rest
        → Keeps (Sent p r) (sleep_before busy pane timing deadline rest b)
    Keeps-sleep_before timing deadline rest true k = Keeps-pure _
    Keeps-sleep_before timing deadline rest false k =
        Keeps-bind _ _ (Keeps-gets _) (λ now. Keeps-bind _ _ (Keeps-sleep _) (λ _. k))

    Keeps-next_round :
        (timing : NudgeTiming) (deadline : ℕ) (rest : Nudge PolicyOutcome)
        → Keeps (Sent p r) rest
        → Keeps (Sent p r) (next_round busy pane timing deadline rest)
    unfolding next_round
    Keeps-next_round timing deadline rest k =
        Keeps-bind _ _ (Keeps-gets _) (λ now. Keeps-sleep_before timing deadline rest _ k)

    Keeps-after_probe :
        (timing : NudgeTiming) (deadline idle : ℕ) (rest : ℕ → Nudge PolicyOutcome)
        (b : Option Bool)
        → ((n : ℕ) → Keeps (Sent p r) (rest n))
        → Keeps (Sent p r) (after_probe busy pane timing deadline idle rest b)
    Keeps-after_probe timing deadline idle rest none k = Keeps-pure _
    Keeps-after_probe timing deadline idle rest (some true) k = Keeps-next_round _ _ _ (k 0)
    Keeps-after_probe timing deadline idle rest (some false) k =
        Keeps-if _ _ _ (Keeps-pure _) (Keeps-next_round _ _ _ (k (idle + 1)))

    Keeps-idle_loop :
        (timing : NudgeTiming) (deadline fuel idle : ℕ)
        → Keeps (Sent p r) (idle_loop busy pane timing deadline fuel idle)
    unfolding idle_loop
    Keeps-idle_loop timing deadline zero idle = Keeps-pure _
    Keeps-idle_loop timing deadline (suc fuel) idle =
        Keeps-bind _ _ Keeps-probe
          (λ b. Keeps-after_probe timing deadline idle _ b (Keeps-idle_loop timing deadline fuel))

    Keeps-wait_for_idle : (timing : NudgeTiming) → Keeps (Sent p r) (wait_for_idle busy pane timing)
    unfolding wait_for_idle
    Keeps-wait_for_idle timing = search (keeps_rules, Keeps-idle_loop)

    Keeps-steer_after :
        (timing : NudgeTiming) (b : Option Bool) → Keeps (Sent p r) (steer_after busy pane timing b)
    Keeps-steer_after timing none = Keeps-pure _
    Keeps-steer_after timing (some true) =
        search (keeps_rules, Keeps-interrupt, Keeps-wait_for_idle)
    Keeps-steer_after timing (some false) = Keeps-pure _

    pub Keeps-policy :
        (mode : NudgeMode) (timeout_ms : Option ℕ)
        → Keeps (Sent p r) (policy busy pane mode timeout_ms)
    unfolding steer_if_busy
    Keeps-policy immediate timeout_ms = Keeps-pure _
    Keeps-policy wait timeout_ms = Keeps-wait_for_idle _
    Keeps-policy steer timeout_ms = search (keeps_rules, Keeps-probe, Keeps-steer_after)

    Keeps-confirmed_or :
        (rest : Nudge Bool) (b : Option Bool)
        → Keeps (Sent p r) rest
        → Keeps (Sent p r) (confirmed_or busy pane rest b)
    Keeps-confirmed_or rest none k = Keeps-pure _
    Keeps-confirmed_or rest (some true) k = Keeps-pure _
    Keeps-confirmed_or rest (some false) k = k

    Keeps-sleep_unless_last :
        (left : ℕ) (rest : Nudge Bool)
        → Keeps (Sent p r) rest
        → Keeps (Sent p r) (sleep_unless_last busy pane left rest)
    Keeps-sleep_unless_last zero rest k = Keeps-pure _
    Keeps-sleep_unless_last (suc _) rest k = Keeps-bind _ _ (Keeps-sleep _) (λ _. k)

    Keeps-confirm_probes : (left : ℕ) → Keeps (Sent p r) (confirm_probes busy pane left)
    unfolding confirm_probes
    Keeps-confirm_probes zero = Keeps-pure _
    Keeps-confirm_probes (suc left) =
        Keeps-bind _ _ Keeps-probe
          (λ b. Keeps-confirmed_or _ b (Keeps-sleep_unless_last left _ (Keeps-confirm_probes left)))

    pub Keeps-submission_confirmed : Keeps (Sent p r) (submission_confirmed busy pane)
    unfolding submission_confirmed
    Keeps-submission_confirmed = Keeps-confirm_probes 3
