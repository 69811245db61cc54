-- ===== src/Session/Store/Mail/Write.antt =====
-- mail.rs: the insertion of a message for its recipients, and its replay.
use Prim.Native.String.{String}
use littleorgans.Base.{ℕ, true, false, Option, none, some, List, [], ◌∷◌}
use littleorgans.Base.Exec.{Result, ok, err}
use littleorgans.Base.Action.{pure, lift, modify, unless, ◌>>=◌, ◌>>◌}
use littleorgans.Session.Mail.{intent_from_str}
use littleorgans.Session.Store.{
  MessageRow, Database, Connection, Store, StoreState, StoreError, idempotency_index,
  idempotency_conflict, execute, execute_checked, fetch, committing,
}
use littleorgans.Session.Store.Mail.{
  Mail, MailWriteOutcome, has_idempotency, find_message, with_message, with_delivery, from_core,
  recipients_of, same_set, matches_message, mail_for_recipients, find_delivery, mail_of_delivery,
  mail_from_row,
}

module _ (conn : Connection) where
  unfoldable pub load_message_deliveries : MessageRow → List ℕ → Store (List Mail)
  unfolding fetch mail_from_row
  load_message_deliveries existing [] = pure []
  load_message_deliveries existing (id ∷ ids) = do
    row ← fetch conn (λ d. find_delivery existing.message_id id d.deliveries)
    mail ← lift (mail_of_delivery existing row)
    rest ← load_message_deliveries existing ids
    pure (mail ∷ rest)

  unfoldable pub validate_idempotent_replay : MessageRow → Mail → List ℕ → Store (Unit {0})
  unfolding fetch
  validate_idempotent_replay existing mail ids = do
    unless (matches_message existing mail) idempotency_conflict
    recipients ← fetch conn (λ d. recipients_of existing.message_id d.deliveries)
    unless (same_set recipients ids) idempotency_conflict

  -- The row of the message is read with its intent.
  abbrev pub replay_of : Mail → List ℕ → Option MessageRow → Store (Option (List Mail))
  replay_of mail ids none = pure none
  replay_of mail ids (some existing) = do
    intent ← lift (from_core (intent_from_str existing.intent))
    validate_idempotent_replay existing mail ids
    mails ← load_message_deliveries existing ids
    pure (some mails)

  abbrev pub replay_by : Option String → Mail → List ℕ → Store (Option (List Mail))
  replay_by none mail ids = pure none
  replay_by (some key) mail ids = do
    found ← fetch conn (λ d. find_message (has_idempotency mail.sender (some key)) d.messages)
    replay_of mail ids found

  unfoldable pub load_idempotent_replay : Mail → List ℕ → Store (Option (List Mail))
  unfolding fetch validate_idempotent_replay load_message_deliveries find_message intent_from_str
  load_idempotent_replay mail ids = replay_by mail.idempotency_key mail ids

  unfoldable pub insert_message : Mail → Store (Unit {0})
  unfolding execute_checked with_message
  insert_message mail = execute_checked conn (with_message mail)

  unfoldable pub insert_deliveries : Mail → List ℕ → Store (Unit {0})
  unfolding execute_checked with_delivery
  insert_deliveries mail [] = pure tt
  insert_deliveries mail (id ∷ ids) = do
    execute_checked conn (with_delivery mail id)
    insert_deliveries mail ids

  unfoldable pub write_mail : Mail → List ℕ → Store MailWriteOutcome
  unfolding insert_message insert_deliveries
  write_mail mail ids = do
    insert_message mail
    insert_deliveries mail ids
    pure (record { mail = mail_for_recipients mail ids; inserted = true })

  -- What others commit after the `SELECT` that found no message.
  abbrev pub raced : (Database → Database) → Store (Unit {0})
  raced race = modify (λ s. record s { db = race s.db })

  abbrev pub after_select :
      (Database → Database) → Mail → List ℕ → Option (List Mail) → Store MailWriteOutcome
  after_select race mail ids (some mails) =
      committing conn (pure (record { mail = mails; inserted = false }))
  after_select race mail ids none = do raced race; committing conn (write_mail mail ids)

  -- An error of the `SELECT` ends a transaction that has written nothing.
  unfoldable pub try_insert_mail_for_recipients :
      (Database → Database) → Mail → List ℕ → Store MailWriteOutcome
  unfolding load_idempotent_replay write_mail committing execute
  try_insert_mail_for_recipients race mail ids = do
    execute conn (λ now d. d)
    replay ← load_idempotent_replay mail ids
    after_select race mail ids replay

  -- A lost race is tried once more.
  abbrev pub retried :
      Store MailWriteOutcome
      → Result StoreError MailWriteOutcome × StoreState
      → Result StoreError MailWriteOutcome × StoreState
  retried again (err idempotency_index, s) = again s
  retried again (r, s) = (r, s)

  unfoldable pub insert_mail_for_recipients_with_outcome :
      (Database → Database) → (Database → Database) → Mail → List ℕ → Store MailWriteOutcome
  unfolding try_insert_mail_for_recipients
  insert_mail_for_recipients_with_outcome race race' mail [] s =
      (ok (record { mail = []; inserted = false }), s)
  insert_mail_for_recipients_with_outcome race race' mail (id ∷ ids) s =
      retried (try_insert_mail_for_recipients race' mail (id ∷ ids))
        (try_insert_mail_for_recipients race mail (id ∷ ids) s)
