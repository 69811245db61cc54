-- ===== src/Session/Mail/Tests.antt =====
-- The mail protocol at concrete texts.
use littleorgans.Base.{◌≡◌, refl}
use littleorgans.Base.Exec.{err}
use littleorgans.Session.Mail.{receipt, reserved_intent, intent_text, from_client_send_str}
use littleorgans.Session.Mail.Words.{ReadsForClient, from_client_send_str_exact}

from_client_send_str_exact_example :
    (from_client_send_str (intent_text receipt) ≡ err reserved_intent)
    × ReadsForClient "inform" (from_client_send_str "inform")
from_client_send_str_exact_example = from_client_send_str_exact receipt "inform"

refuses_receipt : from_client_send_str "receipt" ≡ err reserved_intent
unfolding from_client_send_str
refuses_receipt = refl
