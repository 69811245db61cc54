-- ===== src/Session/Mail.antt =====
-- internal/session/core/src/mail.rs: the words of the mail protocol and the timeout of a notified
-- send. A text of an error is left out, and an id is a number.
pub mod Words
pub mod Timeout
mod Tests
use Prim.Native.String.{String}
use text.Mathlib.Text.{◌==◌ as str_eq}
use littleorgans.Base.{
  ℕ, ◌*◌, ◌^◌, Option, none, some, Bool, true, false, not, ltb, ◌==◌, if◌then◌else◌,
}
use littleorgans.Base.Exec.{Result, ok, err}
use littleorgans.Runtime.Nudge.{NudgeMode}

pub data SmError : Type 0 where
  unsupported_status unsupported_intent unsupported_notify reserved_intent : SmError
  timeout_zero timeout_without_wait timeout_too_large : SmError

pub data MailStatus : Type 0 where
  unread read undeliverable : MailStatus

pub data MailIntent : Type 0 where
  request result inform receipt : MailIntent

pub data MailNotifyMode : Type 0 where
  wait steer : MailNotifyMode

unfoldable pub status_text : MailStatus → String
status_text unread = "unread"
status_text read = "read"
status_text undeliverable = "undeliverable"

unfoldable pub status_from_str : String → Result SmError MailStatus
status_from_str value =
    if str_eq value "unread"
    then ok unread
    else if str_eq value "read"
    then ok read
    else if str_eq value "undeliverable"
    then ok undeliverable
    else err unsupported_status

unfoldable pub intent_text : MailIntent → String
intent_text request = "request"
intent_text result = "result"
intent_text inform = "inform"
intent_text receipt = "receipt"

unfoldable pub intent_from_str : String → Result SmError MailIntent
intent_from_str value =
    if str_eq value "request"
    then ok request
    else if str_eq value "result"
    then ok result
    else if str_eq value "inform"
    then ok inform
    else if str_eq value "receipt"
    then ok receipt
    else err unsupported_intent

abbrev pub ensure_client_send_allowed : MailIntent → Result SmError MailIntent
ensure_client_send_allowed receipt = err reserved_intent
ensure_client_send_allowed intent = ok intent

abbrev pub allowed : Result SmError MailIntent → Result SmError MailIntent
allowed (ok intent) = ensure_client_send_allowed intent
allowed (err e) = err e

unfoldable pub from_client_send_str : String → Result SmError MailIntent
unfolding intent_from_str
from_client_send_str value = allowed (intent_from_str value)

unfoldable pub notify_from_str : String → Result SmError MailNotifyMode
notify_from_str value =
    if str_eq value "wait"
    then ok wait
    else if str_eq value "steer"
    then ok steer
    else err unsupported_notify

abbrev pub nudge_mode : MailNotifyMode → NudgeMode
nudge_mode wait = NudgeMode.wait
nudge_mode steer = NudgeMode.steer

abbrev pub is_wait : Option MailNotifyMode → Bool
is_wait (some wait) = true
is_wait _ = false

unfoldable pub validate_mail_notify_timeout :
    Option MailNotifyMode → Option ℕ → Result SmError (Unit {0})
validate_mail_notify_timeout notify none = ok tt
validate_mail_notify_timeout notify (some timeout_ms) =
    if timeout_ms == 0
    then err timeout_zero
    else if not (is_wait notify)
    then err timeout_without_wait
    else ok tt

-- `checked_mul` on u64.
unfoldable pub mail_timeout_seconds_to_ms : ℕ → Result SmError ℕ
mail_timeout_seconds_to_ms seconds =
    if ltb (seconds * 1_000) (2 ^ 64) then ok (seconds * 1_000) else err timeout_too_large
