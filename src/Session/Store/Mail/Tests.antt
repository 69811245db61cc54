-- ===== src/Session/Store/Mail/Tests.antt =====
-- Runs of sending and reading mail.
use littleorgans.Base.{ℕ, ◌≡◌, refl, Option, none, some, List, [], ◌∷◌, true, false, Bool, map}
use littleorgans.Base.Exec.{Result, ok, err}
use littleorgans.Base.Action.{◌>>=◌}
use littleorgans.Session.Mail.{unread, request, status_text, intent_text}
use littleorgans.Session.Store.{session, Database}
use littleorgans.Session.Store.Events.Tests.{initial_db, initial_store, reliable}
use littleorgans.Session.Store.Mail.{
  Mail, MailWriteOutcome, message_row, delivery_row, find_message,
}
use littleorgans.Session.Store.Mail.Write.{insert_mail_for_recipients_with_outcome}
use littleorgans.Session.Store.Mail.Read.{read_unread_mail, count_unread_mail}
use littleorgans.Session.Store.Mail.Replay.{insert_mail-stored}

abbrev pub hello : Mail
hello = record {
  id = 1;
  sender = session 7;
  recipient_id = 8;
  content = "hello";
  sent_at = 50;
  read_at = none;
  status = unread;
  context_id = "talk";
  intent = request;
  idempotency_key = some "k1";
}

abbrev pub alone : Database → Database
alone d = d

-- Another sender of the same message wins the race.
abbrev overtaken : Database → Database
overtaken d = record d {
  messages = message_row hello ∷ d.messages;
  deliveries = delivery_row hello 8 ∷ d.deliveries;
}

abbrev pub sent_db : Database
sent_db = overtaken initial_db

abbrev is_inserted : {E : Type 0} → Result E MailWriteOutcome → Option Bool
is_inserted (ok outcome) = some outcome.inserted
is_inserted (err e) = none

inserts :
    is_inserted
      (insert_mail_for_recipients_with_outcome reliable alone alone hello (8 ∷ []) initial_store).0
    ≡ some true
unfolding insert_mail_for_recipients_with_outcome ◌>>=◌
inserts = refl

loses_race :
    is_inserted
      (insert_mail_for_recipients_with_outcome reliable overtaken alone hello
        (8 ∷ [])
        initial_store).0
    ≡ some false
unfolding insert_mail_for_recipients_with_outcome ◌>>=◌
loses_race = refl

insert_mail-stored_example :
    (insert_mail_for_recipients_with_outcome reliable alone alone hello
      (8 ∷ [])
      (record { db = sent_db; clock = 0 })).1.db
    ≡ sent_db
unfolding find_message
insert_mail-stored_example =
    insert_mail-stored reliable alone alone hello (8 ∷ []) (message_row hello)
      (record { db = sent_db; clock = 0 }) refl

abbrev statuses : {E : Type 0} → Result E (List Mail) → List (Option ℕ)
statuses (ok mails) = map (λ mail. mail.read_at) mails
statuses (err e) = []

reads :
    statuses (read_unread_mail reliable 8 60 false (record { db = sent_db; clock = 0 })).0
    ≡ some 60 ∷ []
unfolding read_unread_mail ◌>>=◌ status_text intent_text
reads = refl

counts : (count_unread_mail reliable 8 (record { db = sent_db; clock = 0 })).0 ≡ ok 1
unfolding count_unread_mail status_text
counts = refl
