-- ===== src/Session/Messaging/Tests.antt =====
-- Sends of mail under limits.
use littleorgans.Base.{◌≡◌, refl, arith, Option, none, some, [], ◌∷◌, true, Bool}
use littleorgans.Base.Int.{negsuc}
use littleorgans.Base.Exec.{Result, ok, err}
use littleorgans.Base.Action.{◌>>=◌}
use littleorgans.Session.Mail.{inform, intent_text}
use littleorgans.Session.Store.{StoreState, StoreError}
use littleorgans.Session.Store.Events.Tests.{initial_store, reliable}
use littleorgans.Session.Store.Mail.{Mail, MailWriteOutcome, find_message}
use littleorgans.Session.Store.Mail.Tests.{hello, alone, sent_db}
use littleorgans.Session.Messaging.{
  MailSafetyConfig, MailSafetySection, SendError, depth_reached, window_not_positive,
  default_config, into_config, send_mail,
}
use littleorgans.Session.Messaging.Room.{Within}
use littleorgans.Session.Messaging.Limits.{send_mail-Within}

abbrev one_message : MailSafetyConfig
one_message = record default_config { conversation_depth_limit = 1 }

-- Another mail of the same conversation.
abbrev again : Mail
again = record hello { id = 2; intent = inform; idempotency_key = some "k2" }

abbrev sent_store : StoreState
sent_store = record { db = sent_db; clock = 0 }

abbrev error_of : {A : Type 0} → Result SendError A → Option SendError
error_of (ok a) = none
error_of (err e) = some e

trips :
    error_of (send_mail reliable alone alone one_message again (8 ∷ []) sent_store).0
    ≡ some (depth_reached 1 1)
unfolding send_mail ◌>>=◌ intent_text find_message
trips = refl

abbrev is_inserted : Result SendError (Result StoreError MailWriteOutcome) → Option Bool
is_inserted (ok (ok outcome)) = some outcome.inserted
is_inserted _ = none

passes :
    is_inserted (send_mail reliable alone alone default_config again (8 ∷ []) sent_store).0
    ≡ some true
unfolding send_mail ◌>>=◌ intent_text find_message
passes = refl

send_mail-Within_example :
    Within "talk" 1 (send_mail reliable alone alone one_message hello (8 ∷ []) initial_store).1.db
send_mail-Within_example =
    send_mail-Within reliable alone alone one_message hello (8 ∷ []) "talk" initial_store
      (λ d. omega arith) (λ d. omega arith) (omega arith)

abbrev backwards : MailSafetySection
backwards = record {
  conversation_depth_limit = some 5;
  sender_rate_limit = none;
  sender_rate_window_secs = some (negsuc 3);
}

refuses : into_config backwards ≡ err window_not_positive
unfolding into_config
refuses = refl
