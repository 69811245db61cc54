-- ===== src/Session/Messaging/Room.antt =====
-- An insertion of a mail into a conversation that has room for it.
use Prim.Native.String.{String}
use littleorgans.Base.{
  ℕ, ◌+◌, ◌≤◌, ◌≡◌, refl, Bool, true, false, Option, none, some, List, [], ◌∷◌, if◌then◌else◌, keep,
  length, arith,
}
use littleorgans.Base.Exec.{Result, ok, err}
use littleorgans.Base.Action.Keeps.{Keeps, Keeps-pure, Keeps-bind, Keeps-modify}
use littleorgans.Base.Action.Ends.{Ends, Ends-pure, Ends-bind, Ends-after, Ends-kept}
use littleorgans.Session.Store.{
  MessageRow, Database, Connection, Store, StoreState, StoreError, database, idempotency_index,
}
use littleorgans.Session.Store.Rules.{
  Holds, Keeps-execute, Keeps-execute_checked, Ends-execute_checked, Moved, committing-Moved,
}
use littleorgans.Session.Store.Mail.{
  Mail, MailWriteOutcome, with_message, with_delivery, message_row,
}
use littleorgans.Session.Store.Mail.Grows.{with_message-grows, with_delivery-keeps}
use littleorgans.Session.Store.Mail.Quiet.{Keeps-replay_by}
use littleorgans.Session.Store.Mail.Write.{
  load_idempotent_replay, insert_message, insert_deliveries, write_mail, after_select,
  try_insert_mail_for_recipients, retried, insert_mail_for_recipients_with_outcome,
}
use littleorgans.Session.Store.Mail.Read.{is_of_context}
use littleorgans.Base.Action.Calls.{attempted}
use littleorgans.Session.Messaging.{SendError}

abbrev pub depth_of : String → Database → ℕ
depth_of c d = length (keep (is_of_context c) d.messages)

-- The messages of a conversation, receipts not counted, are within a limit.
abbrev pub Within : String → ℕ → Database → Type 0
Within c limit d = depth_of c d ≤ limit

abbrev pub one_if : Bool → ℕ
one_if true = 1
one_if false = 0

module _ (c : String) (limit : ℕ) where
  -- There is room for the mail too.
  abbrev pub Room : Mail → Database → Type 0
  Room mail d = one_if (is_of_context c (message_row mail)) + depth_of c d ≤ limit

  pub Room-Within : (mail : Mail) (d : Database) → Room mail d → Within c limit d
  Room-Within mail d h = ground arith

  length-if :
      (b : Bool) (row : MessageRow) (rows : List MessageRow)
      → length (if b then row ∷ rows else rows) ≡ one_if b + length rows
  length-if true row rows = ground arith
  length-if false row rows = ground arith

  with_message-Within :
      (mail : Mail) (d d' : Database)
      → Room mail d
      → with_message mail d ≡ ok d'
      → Within c limit d'
  with_message-Within mail d d' h e =
      rw
        (
          with_message-grows mail d d' e,
          length-if (is_of_context c (message_row mail)) (message_row mail)
              (keep (is_of_context c) d.messages),
        )
        h

  with_delivery-Within :
      (mail : Mail) (id : ℕ) (d d' : Database)
      → Within c limit d
      → with_delivery mail id d ≡ ok d'
      → Within c limit d'
  with_delivery-Within mail id d d' h e = rw (with_delivery-keeps mail id d d' e) h

  module _ (conn : Connection) where
    Keeps-insert_deliveries :
        (mail : Mail) (ids : List ℕ)
        → Keeps (Holds (Within c limit)) (insert_deliveries conn mail ids)
    unfolding insert_deliveries
    Keeps-insert_deliveries mail [] = Keeps-pure _
    Keeps-insert_deliveries mail (id ∷ ids) =
        Keeps-bind _ _
          (Keeps-execute_checked (Within c limit) conn (with_delivery mail id)
            (with_delivery-Within mail id))
          (λ _. Keeps-insert_deliveries mail ids)

    Ends-write_mail :
        (mail : Mail) (ids : List ℕ)
        → Ends (Holds (Room mail)) (write_mail conn mail ids) (λ r t. Within c limit t.db)
    unfolding write_mail insert_message
    Ends-write_mail mail ids =
        Ends-bind _ _ (λ r t. Within c limit t.db) _
          (Ends-execute_checked (Room mail) (Within c limit) conn (Room-Within mail)
            (with_message mail) (with_message-Within mail))
          (λ _. Ends-kept _ (Keeps-bind _ _ (Keeps-insert_deliveries mail ids) (λ _. Keeps-pure _)))
          (λ e t h. h)

    not_index : ¬ (database ≡ idempotency_index)
    not_index h = cc

    module _ (mail : Mail) (ids : List ℕ) where
      -- After an attempt: within the limit, and with room where it lost a race.
      abbrev Attempted : Result StoreError MailWriteOutcome → StoreState → Type 0
      Attempted r t =
          Moved (Room mail) (Within c limit) conn (Room-Within mail) idempotency_index r t.db

      kept-Attempted :
          (r : Result StoreError MailWriteOutcome) (t : StoreState) → Room mail t.db → Attempted r t
      kept-Attempted r t h = ((λ e. h), Room-Within mail t.db h)

      module _ (race : Database → Database)
          (fair : (d : Database) → depth_of c (race d) ≤ depth_of c d) where
        raced-Room : (d : Database) → Room mail d → Room mail (race d)
        raced-Room d h = let f = fair d in omega arith

        Ends-after_select :
            (replay : Option (List Mail))
            → Ends (Holds (Room mail)) (after_select conn race mail ids replay) Attempted
        Ends-after_select (some mails) =
            committing-Moved (Room mail) (Within c limit) conn (Room-Within mail) idempotency_index
              _ not_index (Ends-pure _ _ (λ s h. Room-Within mail s.db h))
        Ends-after_select none =
            Ends-after _ _ _
              (Keeps-modify (λ s. record s { db = race s.db }) (λ s h. raced-Room s.db h))
              (λ _.
                committing-Moved (Room mail) (Within c limit) conn (Room-Within mail)
                  idempotency_index _ not_index (Ends-write_mail mail ids))
              (λ e t h. kept-Attempted (err e) t h)

        Ends-try :
            Ends (Holds (Room mail)) (try_insert_mail_for_recipients conn race mail ids) Attempted
        unfolding try_insert_mail_for_recipients load_idempotent_replay
        Ends-try =
            Ends-after _ _ _ (Keeps-execute (Room mail) conn (λ now d. d) (λ n d h. h))
              (λ _.
                Ends-after _ _ _ (Keeps-replay_by (Room mail) conn mail.idempotency_key mail ids)
                  Ends-after_select (λ e t h. kept-Attempted (err e) t h))
              (λ e t h. kept-Attempted (err e) t h)

      retried-Within :
          (again : Store MailWriteOutcome) (r : Result StoreError MailWriteOutcome) (s : StoreState)
          → Ends (Holds (Room mail)) again Attempted
          → Attempted r s
          → Within c limit (retried conn again (r, s)).1.db
      retried-Within again (ok outcome) s k h = h.1
      retried-Within again (err e) s k h =
          elim e
              as (λ e. Attempted (err e) s → Within c limit (retried conn again (err e, s)).1.db) [
                | idempotency_index ↦ λ h. (k.at s (h.0 refl)).1
                | _ ↦ λ h. h.1
              ]
            h

    module _ (race race' : Database → Database)
        (fair : (d : Database) → depth_of c (race d) ≤ depth_of c d)
        (fair' : (d : Database) → depth_of c (race' d) ≤ depth_of c d) where
      insert_mail-Within :
          (mail : Mail) (ids : List ℕ) (s : StoreState)
          → Room mail s.db
          → Within c limit (insert_mail_for_recipients_with_outcome conn race race' mail ids s).1.db
      unfolding insert_mail_for_recipients_with_outcome
      insert_mail-Within mail [] s h = Room-Within mail s.db h
      insert_mail-Within mail (id ∷ ids) s h =
          let r = try_insert_mail_for_recipients conn race mail (id ∷ ids) s in
          retried-Within mail (id ∷ ids) (try_insert_mail_for_recipients conn race' mail (id ∷ ids))
            r.0 r.1 (Ends-try mail (id ∷ ids) race' fair')
            ((Ends-try mail (id ∷ ids) race fair).at s h)

      pub Ends-attempted :
          (mail : Mail) (ids : List ℕ)
          → Ends {E = SendError}
              (Holds (Room mail))
              (attempted (insert_mail_for_recipients_with_outcome conn race race' mail ids))
              (λ r t. Within c limit t.db)
      unfolding attempted
      Ends-attempted mail ids = record { at = insert_mail-Within mail ids }
