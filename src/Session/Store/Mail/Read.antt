-- ===== src/Session/Store/Mail/Read.antt =====
-- mail.rs: the mail that a session has not read, and the counts that limit its senders.
use Prim.Native.String.{String}
use text.Mathlib.Text.{◌==◌ as str_eq}
use littleorgans.Base.{
  ℕ, Bool, true, false, not, ◌&&◌, ◌||◌, ◌==◌, Option, none, some, List, [], ◌∷◌, map,
  if◌then◌else◌, ltb, leb, keep, length,
}
use littleorgans.Base.Action.{pure, lift, ◌>>=◌, ◌>>◌}
use littleorgans.Session.Store.{
  SenderRef, MessageRow, DeliveryRow, Database, Connection, Store, update, execute, fetch,
  transaction,
}
use littleorgans.Session.Store.Sessions.{is_unread_of}
use littleorgans.Session.Store.Mail.{
  Mail, same_sender, find_message, mails_from_rows, mail_from_row,
}

-- `ORDER BY m.sent_at, m.message_id`
abbrev is_ordered : MessageRow × DeliveryRow → MessageRow × DeliveryRow → Bool
is_ordered (m, _) (n, _) =
    ltb m.sent_at n.sent_at || (m.sent_at == n.sent_at && leb m.message_id n.message_id)

abbrev insert_row :
    MessageRow × DeliveryRow → List (MessageRow × DeliveryRow) → List (MessageRow × DeliveryRow)
insert_row row [] = row ∷ []
insert_row row (x ∷ xs) = if is_ordered row x then row ∷ (x ∷ xs) else x ∷ insert_row row xs

abbrev sort_rows : List (MessageRow × DeliveryRow) → List (MessageRow × DeliveryRow)
sort_rows [] = []
sort_rows (x ∷ xs) = insert_row x (sort_rows xs)

abbrev joined_with :
    DeliveryRow
    → Option MessageRow
    → List (MessageRow × DeliveryRow)
    → List (MessageRow × DeliveryRow)
joined_with d none rows = rows
joined_with d (some m) rows = (m, d) ∷ rows

abbrev join_messages : List MessageRow → List DeliveryRow → List (MessageRow × DeliveryRow)
join_messages messages [] = []
join_messages messages (d ∷ ds) =
    joined_with d (find_message (λ m. m.message_id == d.message_id) messages)
      (join_messages messages ds)

-- UNREAD_MAIL_SQL
unfoldable pub unread_rows : ℕ → Database → List (MessageRow × DeliveryRow)
unfolding find_message
unread_rows id d = sort_rows (join_messages d.messages (keep (is_unread_of id) d.deliveries))

abbrev pub is_unread_delivery : ℕ → ℕ → DeliveryRow → Bool
is_unread_delivery message_id id row = row.message_id == message_id && is_unread_of id row

abbrev pub read_row : ℕ → DeliveryRow → DeliveryRow
read_row read_at row = record row { status = "read"; read_at = some read_at }

abbrev pub with_read : ℕ → ℕ → ℕ → Database → Database
with_read message_id id read_at d = record d {
  deliveries = update (is_unread_delivery message_id id) (read_row read_at) d.deliveries;
}

abbrev pub is_of_context : String → MessageRow → Bool
is_of_context context_id m = str_eq m.context_id context_id && not (str_eq m.intent "receipt")

abbrev is_sent_since : SenderRef → ℕ → MessageRow → Bool
is_sent_since sender since m =
    same_sender m.sender_ref sender && (not (str_eq m.intent "receipt") && leb since m.sent_at)

-- The status of the mail stays as it was read.
abbrev pub with_read_at : ℕ → Mail → Mail
with_read_at read_at mail = record mail { read_at = some read_at }

module _ (conn : Connection) where
  unfoldable pub fetch_unread : ℕ → Store (List Mail)
  unfolding fetch unread_rows mail_from_row
  fetch_unread id = fetch conn (unread_rows id) >>= λ rows. lift (mails_from_rows rows)

  -- The loop over the mail that was read.
  unfoldable pub mark_read : ℕ → ℕ → List Mail → Store (Unit {0})
  unfolding execute
  mark_read id read_at [] = pure tt
  mark_read id read_at (mail ∷ mails) = do
    execute conn (λ now. with_read mail.id id read_at)
    mark_read id read_at mails

  unfoldable pub read_unread_mail : ℕ → ℕ → Bool → Store (List Mail)
  unfolding fetch_unread mark_read transaction
  read_unread_mail id read_at true = fetch_unread id
  read_unread_mail id read_at false = do
    mails ← transaction conn (do mails ← fetch_unread id; mark_read id read_at mails; pure mails)
    pure (map (with_read_at read_at) mails)

  unfoldable pub count_unread_mail : ℕ → Store ℕ
  unfolding fetch
  count_unread_mail id = fetch conn (λ d. length (keep (is_unread_of id) d.deliveries))

  unfoldable pub count_conversation_depth : String → Store ℕ
  unfolding fetch
  count_conversation_depth context_id =
      fetch conn (λ d. length (keep (is_of_context context_id) d.messages))

  unfoldable pub count_sender_rate_since : SenderRef → ℕ → Store ℕ
  unfolding fetch
  count_sender_rate_since sender since =
      fetch conn (λ d. length (keep (is_sent_since sender since) d.messages))
