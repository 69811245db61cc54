-- ===== src/Session/Store/Mail.antt =====
-- internal/session/store/src/postgres/mail.rs: messages and their deliveries. In a transaction that
-- inserts a message, other senders may commit between its `SELECT` and its first `INSERT`; what they
-- commit there is a function on the database, one for each attempt.
pub mod Write
pub mod Read
pub mod Quiet
pub mod Grows
pub mod Replay
pub mod Tests
use Prim.Native.String.{String}
use text.Mathlib.Text.{◌==◌ as str_eq}
use littleorgans.Base.{
  ℕ, zero, suc, ◌+◌, Bool, true, false, not, ◌&&◌, ◌||◌, ◌==◌, Option, none, some, List, [], ◌∷◌,
  ◌++◌, map, if◌then◌else◌, contains, ltb,
}
use littleorgans.Base.Exec.{Result, ok, err}
use littleorgans.Base.Action.{pure, raise, lift, gets, modify, ◌>>=◌, ◌>>◌}
use littleorgans.Session.Mail.{
  MailStatus, MailIntent, SmError, status_text, status_from_str, intent_text, intent_from_str,
}
use littleorgans.Session.Store.{
  SenderRef, session, operator, system, MessageRow, DeliveryRow, Database, Connection, Store,
  StoreState, StoreError, idempotency_index, idempotency_conflict, database, core, update, execute,
  execute_checked, fetch, transaction, committing,
}
use littleorgans.Session.Store.Sessions.{is_unread_of}

pub record Mail : Type 0 where
  pub id : ℕ
  pub sender : SenderRef
  pub recipient_id : ℕ
  pub content : String
  pub sent_at : ℕ
  pub read_at : Option ℕ
  pub status : MailStatus
  pub context_id : String
  pub intent : MailIntent
  pub idempotency_key : Option String

pub record MailWriteOutcome : Type 0 where
  pub mail : List Mail
  pub inserted : Bool

abbrev pub same_sender : SenderRef → SenderRef → Bool
same_sender (session a) (session b) = a == b
same_sender (operator p) (operator q) = str_eq p q
same_sender system system = true
same_sender _ _ = false

-- The index has no row without a key.
abbrev pub same_idempotency_key : Option String → Option String → Bool
same_idempotency_key (some a) (some b) = str_eq a b
same_idempotency_key _ _ = false

abbrev pub has_idempotency : SenderRef → Option String → MessageRow → Bool
has_idempotency sender key row =
    same_sender row.sender_ref sender && same_idempotency_key row.idempotency_key key

unfoldable pub find_message : (MessageRow → Bool) → List MessageRow → Option MessageRow
find_message p [] = none
find_message p (row ∷ rows) = if p row then some row else find_message p rows

abbrev pub has_message : (MessageRow → Bool) → List MessageRow → Bool
has_message p [] = false
has_message p (row ∷ rows) = p row || has_message p rows

abbrev pub is_delivery : ℕ → ℕ → DeliveryRow → Bool
is_delivery message_id recipient_id row =
    row.message_id == message_id && row.recipient_session_id == recipient_id

abbrev pub has_delivery : ℕ → ℕ → List DeliveryRow → Bool
has_delivery message_id recipient_id [] = false
has_delivery message_id recipient_id (row ∷ rows) =
    is_delivery message_id recipient_id row || has_delivery message_id recipient_id rows

abbrev pub message_row : Mail → MessageRow
message_row mail = record {
  message_id = mail.id;
  sender_ref = mail.sender;
  context_id = mail.context_id;
  intent = intent_text mail.intent;
  idempotency_key = mail.idempotency_key;
  content = mail.content;
  sent_at = mail.sent_at;
}

abbrev pub delivery_row : Mail → ℕ → DeliveryRow
delivery_row mail recipient_id = record {
  message_id = mail.id;
  recipient_session_id = recipient_id;
  status = status_text mail.status;
  read_at = mail.read_at;
}

-- The primary key and the unique index of `messages`.
unfoldable pub with_message : Mail → Database → Result StoreError Database
unfolding intent_text
with_message mail d =
    if has_message (has_idempotency mail.sender mail.idempotency_key) d.messages
    then err idempotency_index
    else if has_message (λ row. row.message_id == mail.id) d.messages
    then err database
    else ok (record d { messages = message_row mail ∷ d.messages })

-- The primary key of `message_deliveries`.
unfoldable pub with_delivery : Mail → ℕ → Database → Result StoreError Database
unfolding status_text
with_delivery mail recipient_id d =
    if has_delivery mail.id recipient_id d.deliveries
    then err database
    else ok (record d { deliveries = delivery_row mail recipient_id ∷ d.deliveries })

abbrev pub from_core : {A : Type 0} → Result SmError A → Result StoreError A
from_core (ok a) = ok a
from_core (err e) = err core

-- `mail_from_row` on a joined row.
abbrev pub mail_of : MessageRow → DeliveryRow → MailStatus → MailIntent → Mail
mail_of m d status intent = record {
  id = m.message_id;
  sender = m.sender_ref;
  recipient_id = d.recipient_session_id;
  content = m.content;
  sent_at = m.sent_at;
  read_at = d.read_at;
  status = status;
  context_id = m.context_id;
  intent = intent;
  idempotency_key = m.idempotency_key;
}

abbrev pub with_intent :
    MessageRow → DeliveryRow → MailStatus → Result SmError MailIntent → Result StoreError Mail
with_intent m d status (ok intent) = ok (mail_of m d status intent)
with_intent m d status (err e) = err core

abbrev pub with_status :
    MessageRow → DeliveryRow → Result SmError MailStatus → Result StoreError Mail
with_status m d (ok status) = with_intent m d status (intent_from_str m.intent)
with_status m d (err e) = err core

unfoldable pub mail_from_row : MessageRow × DeliveryRow → Result StoreError Mail
unfolding status_from_str intent_from_str
mail_from_row (m, d) = with_status m d (status_from_str d.status)

abbrev pub consed :
    {A : Type 0} → Result StoreError A → Result StoreError (List A) → Result StoreError (List A)
consed (ok a) (ok as') = ok (a ∷ as')
consed (ok a) (err e) = err e
consed (err e) _ = err e

abbrev pub mails_from_rows : List (MessageRow × DeliveryRow) → Result StoreError (List Mail)
mails_from_rows [] = ok []
mails_from_rows (row ∷ rows) = consed (mail_from_row row) (mails_from_rows rows)

-- `existing_recipients == recipient_set(recipient_ids)`
abbrev pub recipients_of : ℕ → List DeliveryRow → List ℕ
recipients_of message_id [] = []
recipients_of message_id (row ∷ rows) =
    if row.message_id == message_id
    then row.recipient_session_id ∷ recipients_of message_id rows
    else recipients_of message_id rows

abbrev pub is_subset : List ℕ → List ℕ → Bool
is_subset [] ys = true
is_subset (x ∷ xs) ys = contains x ys && is_subset xs ys

abbrev pub same_set : List ℕ → List ℕ → Bool
same_set xs ys = is_subset xs ys && is_subset ys xs

abbrev pub matches_message : MessageRow → Mail → Bool
matches_message existing mail =
    same_sender existing.sender_ref mail.sender
    && (str_eq existing.content mail.content
        && (str_eq existing.context_id mail.context_id
            && (str_eq existing.intent (intent_text mail.intent)
                && same_idempotency_key existing.idempotency_key mail.idempotency_key)))

abbrev pub mail_for_recipients : Mail → List ℕ → List Mail
mail_for_recipients mail ids = map (λ id. record mail { recipient_id = id }) ids

abbrev pub find_delivery : ℕ → ℕ → List DeliveryRow → Option DeliveryRow
find_delivery message_id recipient_id [] = none
find_delivery message_id recipient_id (row ∷ rows) =
    if is_delivery message_id recipient_id row
    then some row
    else find_delivery message_id recipient_id rows

-- `fetch_one` fails where there is no row.
abbrev pub mail_of_delivery : MessageRow → Option DeliveryRow → Result StoreError Mail
mail_of_delivery existing none = err database
mail_of_delivery existing (some row) = mail_from_row (existing, row)
