-- ===== src/Session/Store/Mail/Replay.antt =====
-- A message that is stored already is not written again.
use Prim.Native.String.{String}
use littleorgans.Base.{ℕ, ◌≡◌, refl, ◌∙◌, Option, none, some, List, [], ◌∷◌, arith}
use littleorgans.Base.Exec.{Result, ok, err}
use littleorgans.Base.Action.Keeps.{Keeps-pure, Keeps-lift}
use littleorgans.Base.Action.Ends.{Ends, Ends-pure, Ends-kept, Ends-bind, Ends-after}
use littleorgans.Session.Store.{
  MessageRow, SenderRef, Database, Connection, Store, StoreState, StoreError, idempotency_index,
}
use littleorgans.Session.Store.Rules.{Holds, Ends-Fetched, Keeps-execute, Keeps-committing}
use littleorgans.Session.Store.Mail.{Mail, MailWriteOutcome, has_idempotency, find_message}
use littleorgans.Session.Store.Mail.Quiet.{Keeps-validate, Keeps-deliveries}
use littleorgans.Session.Store.Mail.Write.{
  replay_of, replay_by, load_idempotent_replay, after_select, try_insert_mail_for_recipients,
  retried, insert_mail_for_recipients_with_outcome,
}

-- No row has the key of a mail without one.
find_message-none :
    (sender : SenderRef) (rows : List MessageRow)
    → find_message (has_idempotency sender none) rows ≡ none
unfolding find_message
find_message-none sender [] = refl
find_message-none sender (row ∷ rows) = ground (arith, find_message-none sender rows)

not_both_ways : {A : Type 0} (o : Option A) (a : A) → o ≡ none → ¬ (o ≡ some a)
not_both_ways o a h k = cc

module _ (conn : Connection) (d : Database) where
  abbrev Same : StoreState → Type 0
  Same = Holds (λ e. e ≡ d)

  -- A replay that is one, or an error.
  abbrev Replayed : Result StoreError (Option (List Mail)) → StoreState → Type 0
  Replayed (ok none) t = ⊥
  Replayed (ok (some mails)) t = Same t
  Replayed (err e) t = Same t

  Ends-replay_of :
      (mail : Mail) (ids : List ℕ) (existing : MessageRow)
      → Ends Same (replay_of conn mail ids (some existing)) Replayed
  Ends-replay_of mail ids existing =
      Ends-after _ _ _ (Keeps-lift _)
        (λ intent.
          Ends-after _ _ _ (Keeps-validate (λ e. e ≡ d) conn existing mail ids)
            (λ _.
              Ends-after _ _ _ (Keeps-deliveries (λ e. e ≡ d) conn existing ids)
                (λ mails. Ends-pure (some mails) _ (λ s h. h)) (λ e s h. h))
            (λ e s h. h))
        (λ e s h. h)

  module _ (mail : Mail) (ids : List ℕ) (existing : MessageRow) where
    Ends-found :
        (found : Option MessageRow)
        → found ≡ some existing
        → Ends Same (replay_of conn mail ids found) Replayed
    Ends-found found e = rw e (Ends-replay_of mail ids existing)

    Ends-replay_by :
        (key : Option String)
        → find_message (has_idempotency mail.sender key) d.messages ≡ some existing
        → Ends Same (replay_by conn key mail ids) Replayed
    Ends-replay_by none h =
        absurd (not_both_ways _ existing (find_message-none mail.sender d.messages) h)
    Ends-replay_by (some key) h =
        Ends-bind _ _ _ _
          (Ends-Fetched (λ e. e ≡ d) conn
            (λ e. find_message (has_idempotency mail.sender (some key)) e.messages))
          (λ found. record { at = λ s k. (Ends-found found (k.1 ∙ rw k.0 h)).at s k.0 })
          (λ e s k. k)

    Ends-try :
        (race : Database → Database)
        → find_message (has_idempotency mail.sender mail.idempotency_key) d.messages ≡ some existing
        → Ends Same (try_insert_mail_for_recipients conn race mail ids) (λ r t. Same t)
    unfolding try_insert_mail_for_recipients load_idempotent_replay
    Ends-try race h =
        Ends-after _ _ _ (Keeps-execute (λ e. e ≡ d) conn (λ now e. e) (λ n e k. k))
          (λ _.
            Ends-bind _ _ _ _ (Ends-replay_by mail.idempotency_key h) (Ends-after_select race)
              (λ e s k. k))
          (λ e s k. k)
      where
        Ends-after_select :
            (race : Database → Database) (replay : Option (List Mail))
            → Ends (Replayed (ok replay)) (after_select conn race mail ids replay) (λ r t. Same t)
        Ends-after_select race none = record { at = λ s k. elim k [ ] }
        Ends-after_select race (some mails) =
            Ends-kept _ (Keeps-committing (λ e. e ≡ d) conn _ (Keeps-pure _))

  retried-Same :
      (again : Store MailWriteOutcome) (r : Result StoreError MailWriteOutcome) (s : StoreState)
      → Ends Same again (λ r t. Same t)
      → Same s
      → Same (retried conn again (r, s)).1
  retried-Same again (ok outcome) s k h = h
  retried-Same again (err e) s k h = elim e as (λ e. Same (retried conn again (err e, s)).1) [
    | idempotency_index ↦ k.at s h
    | _ ↦ h
  ]

-- If a message of the mail's sender has its idempotency key, an insertion of the mail writes nothing,
-- whatever it returns and whatever else fails: a second send of a message is no second message.
pub insert_mail-stored :
    (conn : Connection) (race race' : Database → Database) (mail : Mail) (ids : List ℕ)
    (existing : MessageRow) (s : StoreState)
    → find_message (has_idempotency mail.sender mail.idempotency_key) s.db.messages ≡ some existing
    → (insert_mail_for_recipients_with_outcome conn race race' mail ids s).1.db ≡ s.db
unfolding insert_mail_for_recipients_with_outcome
insert_mail-stored conn race race' mail [] existing s h = refl
insert_mail-stored conn race race' mail (id ∷ ids) existing s h =
    let r = try_insert_mail_for_recipients conn race mail (id ∷ ids) s in
    retried-Same conn s.db (try_insert_mail_for_recipients conn race' mail (id ∷ ids)) r.0 r.1
      (Ends-try conn s.db mail (id ∷ ids) existing race' h)
      ((Ends-try conn s.db mail (id ∷ ids) existing race h).at s refl)
