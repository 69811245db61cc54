-- ===== src/Session/Mail/Timeout.antt =====
-- The timeout of a notified send.
use littleorgans.Base.{
  ℕ, ◌≤◌, ◌≡◌, ◌≢◌, ◌⊎◌, inl, inr, refl, ap, Option, none, some, arith, ◌==◌, Bool, true, false,
  not, if◌then◌else◌,
}
use littleorgans.Base.Exec.{Result, ok, err}
use littleorgans.Session.Mail.{
  SmError, MailNotifyMode, wait, steer, timeout_zero, timeout_without_wait, is_wait,
  validate_mail_notify_timeout,
}

-- A result of the validation, with the reason for it.
abbrev pub Validates : Option MailNotifyMode → Option ℕ → Result SmError (Unit {0}) → Type 0
Validates notify timeout_ms (ok _) =
    (timeout_ms ≡ none) ⊎ ((n : ℕ) × (timeout_ms ≡ some n) × (1 ≤ n) × (notify ≡ some wait))
Validates notify timeout_ms (err timeout_zero) = timeout_ms ≡ some 0
Validates notify timeout_ms (err timeout_without_wait) = notify ≢ some wait
Validates notify timeout_ms (err e) = ⊥

none_not_some : ¬ (none ≡ some wait)
none_not_some h = cc

steer_not_wait : ¬ (some steer ≡ some wait)
steer_not_wait h = cc

validated :
    (notify : Option MailNotifyMode) (n : ℕ) (zero' : Bool)
    → (n == 0) ≡ zero'
    → Validates notify (some n) (
        if zero'
        then err timeout_zero
        else if not (is_wait notify)
        then err timeout_without_wait
        else ok tt)
validated notify n true e = ap some (ground arith)
validated none n false e = λ h. absurd (none_not_some h)
validated (some wait) n false e = inr (n, refl, ground arith, refl)
validated (some steer) n false e = λ h. absurd (steer_not_wait h)

-- A timeout is accepted exactly where there is none, or a positive one with the mode `wait`; a
-- timeout of zero and one without that mode are told apart.
pub validate_mail_notify_timeout-Validates :
    (notify : Option MailNotifyMode) (timeout_ms : Option ℕ)
    → Validates notify timeout_ms (validate_mail_notify_timeout notify timeout_ms)
unfolding validate_mail_notify_timeout
validate_mail_notify_timeout-Validates notify none = inl refl
validate_mail_notify_timeout-Validates notify (some n) = validated notify n (n == 0) refl
