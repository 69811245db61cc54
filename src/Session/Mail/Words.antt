-- ===== src/Session/Mail/Words.antt =====
-- The words of the mail protocol are read exactly as they are written.
use Prim.Native.String.{String}
use text.Mathlib.TextEquality.{eq_iff}
use littleorgans.Base.{◌≡◌, refl, sym, ap, ◌∙◌, arith, Bool, true, false, if◌then◌else◌}
use littleorgans.Base.Exec.{Result, ok, err}
use littleorgans.Session.Mail.{
  SmError, reserved_intent, MailStatus, MailIntent, unread, read, undeliverable, request, result,
  inform, receipt, status_text, status_from_str, intent_text, intent_from_str, from_client_send_str,
  allowed,
}

-- A result of reading a text: a value that is written as that text, or an error.
abbrev pub Reads : {A : Type 0} → (A → String) → String → Result SmError A → Type 0
Reads write text (ok a) = write a ≡ text
Reads write text (err e) = Unit

status_from_str-Reads : (text : String) → Reads status_text text (status_from_str text)
unfolding status_from_str status_text
status_from_str-Reads text =
    ground (arith, eq_iff text "unread", eq_iff text "read", eq_iff text "undeliverable")

-- Every status is read back from its text, and a text that is read is the text of what it gives.
pub status_from_str_exact :
    (status : MailStatus) (text : String)
    → (status_from_str (status_text status) ≡ ok status)
      × Reads status_text text (status_from_str text)
unfolding status_from_str status_text
status_from_str_exact unread text = (refl, status_from_str-Reads text)
status_from_str_exact read text = (refl, status_from_str-Reads text)
status_from_str_exact undeliverable text = (refl, status_from_str-Reads text)

intent_from_str-Reads : (text : String) → Reads intent_text text (intent_from_str text)
unfolding intent_from_str intent_text
intent_from_str-Reads text = ground (
  arith,
  eq_iff text "request",
  eq_iff text "result",
  eq_iff text "inform",
  eq_iff text "receipt",
)

-- Every intent is read back from its text, and a text that is read is the text of what it gives.
pub intent_from_str_exact :
    (intent : MailIntent) (text : String)
    → (intent_from_str (intent_text intent) ≡ ok intent)
      × Reads intent_text text (intent_from_str text)
unfolding intent_from_str intent_text
intent_from_str_exact request text = (refl, intent_from_str-Reads text)
intent_from_str_exact result text = (refl, intent_from_str-Reads text)
intent_from_str_exact inform text = (refl, intent_from_str-Reads text)
intent_from_str_exact receipt text = (refl, intent_from_str-Reads text)

abbrev pub is_receipt : MailIntent → Bool
is_receipt receipt = true
is_receipt _ = false

-- A result of reading the intent that a client sends: the one that the text is of, which is not
-- `receipt`; or an error, and the text is of no intent but `receipt`.
abbrev pub ReadsForClient : String → Result SmError MailIntent → Type 0
ReadsForClient text (ok intent) = (intent_text intent ≡ text) × (is_receipt intent ≡ false)
ReadsForClient text (err e) =
    (intent : MailIntent) → intent_text intent ≡ text → is_receipt intent ≡ true

sent :
    (intent : MailIntent)
    → from_client_send_str (intent_text intent)
      ≡ (if is_receipt intent then err reserved_intent else ok intent)
unfolding from_client_send_str intent_text
sent request = refl
sent result = refl
sent inform = refl
sent receipt = refl

error_not_ok : (e : SmError) (intent : MailIntent) → ¬ (err e ≡ ok intent)
error_not_ok e intent h = cc

receipt_only :
    (e : SmError) (intent : MailIntent) (b : Bool)
    → err e ≡ (if b then err reserved_intent else ok intent)
    → b ≡ true
receipt_only e intent true h = refl
receipt_only e intent false h = absurd (error_not_ok e intent h)

allowed-ReadsForClient :
    (text : String) (r : Result SmError MailIntent)
    → from_client_send_str text ≡ allowed r
    → Reads intent_text text r
    → ReadsForClient text (allowed r)
allowed-ReadsForClient text (ok request) q h = (h, refl)
allowed-ReadsForClient text (ok result) q h = (h, refl)
allowed-ReadsForClient text (ok inform) q h = (h, refl)
allowed-ReadsForClient text (ok receipt) q h = λ intent e.
    receipt_only reserved_intent intent (is_receipt intent)
      (sym q ∙ ap from_client_send_str (sym e) ∙ sent intent)
allowed-ReadsForClient text (err e) q h = λ intent e'.
    receipt_only e intent (is_receipt intent)
      (sym q ∙ ap from_client_send_str (sym e') ∙ sent intent)

from_client_send_str-ReadsForClient :
    (text : String) → ReadsForClient text (from_client_send_str text)
unfolding from_client_send_str
from_client_send_str-ReadsForClient text =
    allowed-ReadsForClient text (intent_from_str text) refl (intent_from_str-Reads text)

-- The text of every intent but `receipt` is read as that intent, and that of `receipt` is refused as
-- reserved. For any text, what is read is not `receipt` and has the text, and an error is returned
-- only if the text is that of no intent but `receipt`.
pub from_client_send_str_exact :
    (intent : MailIntent) (text : String)
    → (from_client_send_str (intent_text intent)
        ≡ (if is_receipt intent then err reserved_intent else ok intent))
      × ReadsForClient text (from_client_send_str text)
from_client_send_str_exact intent text = (sent intent, from_client_send_str-ReadsForClient text)
