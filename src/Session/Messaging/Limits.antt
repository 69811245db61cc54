-- ===== src/Session/Messaging/Limits.antt =====
-- A send keeps every conversation within its limit.
use Prim.Native.String.{String}
use text.Mathlib.Text.{◌==◌ as str_eq}
use text.Mathlib.TextEquality.{eq_iff}
use littleorgans.Base.{
  both_true, ℕ, ◌≤◌, ◌≡◌, refl, ap, ◌∙◌, Bool, Bool-cases, inl, inr, true, false, not, Option, none,
  some, List, [], ◌∷◌, ltb, arith,
}
use littleorgans.Base.Exec.{Result, ok, err}
use littleorgans.Base.Action.{gets, ◌>>=◌}
use littleorgans.Base.Action.Keeps.{
  Keeps, Keeps-pure, Keeps-bind, Keeps-gets, Keeps-unless, Keeps-if,
}
use littleorgans.Base.Action.Ends.{
  Ends, Ends-pure, Ends-bind, Ends-after, Ends-kept, Ends-weaken, unless-Passed,
}
use littleorgans.Session.Mail.{MailIntent, request, result, inform, receipt, intent_text}
use littleorgans.Session.Store.{Database, Connection, StoreState}
use littleorgans.Session.Store.Rules.{Holds, Keeps-execute, Keeps-fetch, Ends-Fetched}
use littleorgans.Session.Store.Mail.{Mail, message_row}
use littleorgans.Session.Store.Mail.Quiet.{Keeps-replay_by}
use littleorgans.Session.Store.Mail.Write.{load_idempotent_replay}
use littleorgans.Session.Store.Mail.Read.{
  is_of_context, count_conversation_depth, count_sender_rate_since,
}
use littleorgans.Session.Messaging.{
  store_error, MailSafetyConfig, SendError, stored, is_receipt, checked_mail, rate_check,
  enforce_mail_safety, replay_keyed, idempotent_mail_for_recipients, after_replay, send_mail,
}
use littleorgans.Session.Messaging.Room.{
  depth_of, Within, one_if, Room, Room-Within, Ends-attempted,
}
use littleorgans.Base.Action.Calls.{Mapped, map_err-Mapped, Keeps-map_err}

false_not_true : ¬ (false ≡ true)
false_not_true h = cc

receipt_text :
    (i : MailIntent) → not (str_eq (intent_text i) "receipt") ≡ true → is_receipt i ≡ false
unfolding intent_text
receipt_text request h = refl
receipt_text result h = refl
receipt_text inform h = refl
receipt_text receipt h = absurd (false_not_true h)

module _ (c : String) (limits : MailSafetyConfig) (conn : Connection) (mail : Mail) where
  abbrev Inside : StoreState → Type 0
  Inside = Holds (Within c limits.conversation_depth_limit)

  abbrev Roomy : StoreState → Type 0
  Roomy = Holds (Room c limits.conversation_depth_limit mail)

  abbrev Allowed : Result SendError (Unit {0}) → StoreState → Type 0
  Allowed (ok _) t = Roomy t
  Allowed (err e) t = Inside t

  Keeps-rate :
      (D : Database → Type 0) (since : ℕ)
      → Keeps (Holds D) (stored (count_sender_rate_since conn mail.sender since))
  unfolding count_sender_rate_since
  Keeps-rate D since = Keeps-map_err store_error _ _ (Keeps-fetch D conn _)

  Keeps-rest :
      (D : Database → Type 0)
      → Keeps
          (Holds D)
          (gets (λ s. conn.utc_now s.clock) >>= λ now. rate_check conn limits mail now)
  Keeps-rest D =
      Keeps-bind _ _ (Keeps-gets _)
        (λ now. Keeps-bind _ _ (Keeps-rate D _) (λ rate. Keeps-unless _ _))

  Ends-depth : Ends Inside (stored (count_conversation_depth conn mail.context_id)) (
      Mapped store_error Inside
        (count_conversation_depth conn mail.context_id)
        (λ n t. Inside t × (n ≡ depth_of mail.context_id t.db)))
  unfolding count_conversation_depth
  Ends-depth =
      map_err-Mapped store_error Inside _ _ _
        (Ends-Fetched (Within c limits.conversation_depth_limit) conn (depth_of mail.context_id))
        (λ n t h. h) (λ e t h. h)

  Room-Allowed : (r : Result SendError (Unit {0})) (t : StoreState) → Roomy t → Allowed r t
  Room-Allowed (ok _) t h = h
  Room-Allowed (err e) t h = Room-Within c limits.conversation_depth_limit mail t.db h

  one_if_le : (b : Bool) → one_if b ≤ 1
  one_if_le true = omega arith
  one_if_le false = omega arith

  -- A depth below the limit leaves room.
  below_limit :
      (n : ℕ) (d : Database)
      → mail.context_id ≡ c
      → n ≡ depth_of mail.context_id d
      → ltb n limits.conversation_depth_limit ≡ true
      → Room c limits.conversation_depth_limit mail d
  below_limit n d same is below =
      let le = one_if_le (is_of_context c (message_row mail)) in
      let same_depth = is ∙ ap (λ x. depth_of x d) same in ground arith

  Ends-counted : mail.context_id ≡ c → Ends Inside (checked_mail conn limits mail) Allowed
  Ends-counted same =
      Ends-bind _ _ _ _ Ends-depth
        (λ n.
          Ends-bind _ _ _ _
            (unless-Passed (λ t. Inside t × (n ≡ depth_of mail.context_id t.db))
              (ltb n limits.conversation_depth_limit) _)
            (λ _. record {
              at = λ s h.
                  (Ends-weaken _ _ _
                      (Ends-kept _ (Keeps-rest (Room c limits.conversation_depth_limit mail)))
                      Room-Allowed).at
                    s (below_limit n s.db same h.1.1 h.0);
            })
            (λ e t h. h.0))
        (λ e t h. h)

  Keeps-checked : (D : Database → Type 0) → Keeps (Holds D) (checked_mail conn limits mail)
  unfolding count_conversation_depth
  Keeps-checked D =
      Keeps-bind _ _ (Keeps-map_err store_error _ _ (Keeps-fetch D conn _))
        (λ n. Keeps-bind _ _ (Keeps-unless _ _) (λ _. Keeps-rest D))

  Keeps-enforce : (D : Database → Type 0) → Keeps (Holds D) (enforce_mail_safety conn limits mail)
  unfolding enforce_mail_safety
  Keeps-enforce D = Keeps-if (is_receipt mail.intent) _ _ (Keeps-pure tt) (Keeps-checked D)

  -- A mail that the conversation does not count needs no room.
  uncounted :
      is_of_context c (message_row mail) ≡ false
      → (r : Result SendError (Unit {0})) (t : StoreState) → Inside t
      → Allowed r t
  uncounted e (ok _) t h = rw e (ground arith)
  uncounted e (err f) t h = h

  Ends-enforce : Ends Inside (enforce_mail_safety conn limits mail) Allowed
  unfolding enforce_mail_safety
  Ends-enforce = elim (Bool-cases (is_of_context c (message_row mail))) [
    | inl e ↦
        let (same, other) =
          both_true (str_eq mail.context_id c) (not (str_eq (intent_text mail.intent) "receipt"))
            e in
        rw (receipt_text mail.intent other) (Ends-counted ((eq_iff mail.context_id c).0 same))
    | inr e ↦
        Ends-weaken _ _ _ (Ends-kept _ (Keeps-enforce (Within c limits.conversation_depth_limit)))
          (uncounted e)
  ]

  Keeps-keyed :
      (D : Database → Type 0) (key : Option String) (ids : List ℕ)
      → Keeps (Holds D) (replay_keyed conn key mail ids)
  unfolding load_idempotent_replay
  Keeps-keyed D none ids = Keeps-pure _
  Keeps-keyed D (some key) ids =
      Keeps-bind _ _ (Keeps-execute D conn (λ now d. d) (λ n d h. h))
        (λ _. Keeps-replay_by D conn mail.idempotency_key mail ids)

  Keeps-idempotent :
      (D : Database → Type 0) (ids : List ℕ)
      → Keeps (Holds D) (idempotent_mail_for_recipients conn mail ids)
  unfolding idempotent_mail_for_recipients
  Keeps-idempotent D [] = Keeps-pure _
  Keeps-idempotent D (id ∷ ids) = Keeps-keyed D mail.idempotency_key (id ∷ ids)

  module _ (race race' : Database → Database)
      (fair : (d : Database) → depth_of c (race d) ≤ depth_of c d)
      (fair' : (d : Database) → depth_of c (race' d) ≤ depth_of c d) where
    Ends-after_replay :
        (ids : List ℕ) (replay : Option (List Mail))
        → Ends Inside (after_replay conn race race' limits mail ids replay) (λ r t. Inside t)
    Ends-after_replay ids (some mails) = Ends-pure _ _ (λ s h. h)
    Ends-after_replay ids none =
        Ends-bind _ _ Allowed _ Ends-enforce
          (λ _.
            Ends-attempted c limits.conversation_depth_limit conn race race' fair fair' mail ids)
          (λ e t h. h)

    Ends-send :
        (ids : List ℕ) → Ends Inside (send_mail conn race race' limits mail ids) (λ r t. Inside t)
    unfolding send_mail
    Ends-send ids =
        Ends-after _ _ _
          (Keeps-map_err store_error _ _
            (Keeps-idempotent (Within c limits.conversation_depth_limit) ids))
          (Ends-after_replay ids) (λ e t h. h)

-- If a conversation is within its limit and other senders add nothing to it while a mail is inserted,
-- the conversation is within its limit after the mail was sent, whatever the mail's own conversation
-- and intent are, and whether it is replayed, refused, inserted, tried again or fails.
pub send_mail-Within :
    (conn : Connection) (race race' : Database → Database) (limits : MailSafetyConfig) (mail : Mail)
    (ids : List ℕ) (c : String) (s : StoreState)
    → ((d : Database) → depth_of c (race d) ≤ depth_of c d)
    → ((d : Database) → depth_of c (race' d) ≤ depth_of c d)
    → Within c limits.conversation_depth_limit s.db
    → Within c limits.conversation_depth_limit (send_mail conn race race' limits mail ids s).1.db
send_mail-Within conn race race' limits mail ids c s fair fair' h =
    (Ends-send c limits conn mail race race' fair fair' ids).at s h
