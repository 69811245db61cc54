-- ===== src/Session/Store/Mail/Grows.antt =====
-- What an accepted row adds to the messages.
use littleorgans.Base.{◌≡◌, refl, ap, sym, Bool, true, false, ℕ, ◌∷◌, if◌then◌else◌, ◌==◌}
use littleorgans.Base.Exec.{Result, ok, err}
use littleorgans.Session.Store.{Database, StoreError, database, idempotency_index}
use littleorgans.Session.Store.Mail.{
  Mail, with_message, with_delivery, message_row, delivery_row, has_message, has_delivery,
  has_idempotency,
}

refused_not_ok : (e : StoreError) (d : Database) → ¬ (err e ≡ ok d)
refused_not_ok e d h = cc

accepted : (r : Result StoreError Database) (x d : Database) → r ≡ ok x → r ≡ ok d → x ≡ d
accepted r x d h k = cc

-- A row that is refused by one of two tests.
refused_or :
    (a b : Bool) (e e' : StoreError) (x d : Database)
    → (if a then err e else if b then err e' else ok x) ≡ ok d
    → x ≡ d
refused_or true b e e' x d h = absurd (refused_not_ok e d h)
refused_or false true e e' x d h = absurd (refused_not_ok e' d h)
refused_or false false e e' x d h = accepted (ok x) x d refl h

pub with_message-grows :
    (mail : Mail) (d d' : Database)
    → with_message mail d ≡ ok d'
    → d'.messages ≡ message_row mail ∷ d.messages
unfolding with_message
with_message-grows mail d d' h = sym (
    ap (λ x. x.messages)
      (refused_or (has_message (has_idempotency mail.sender mail.idempotency_key) d.messages)
        (has_message (λ row. row.message_id == mail.id) d.messages) idempotency_index database
        (record d { messages = message_row mail ∷ d.messages }) d' h))

pub with_delivery-keeps :
    (mail : Mail) (id : ℕ) (d d' : Database)
    → with_delivery mail id d ≡ ok d'
    → d'.messages ≡ d.messages
unfolding with_delivery
with_delivery-keeps mail id d d' h = sym (
    ap (λ x. x.messages)
      (refused_or false (has_delivery mail.id id d.deliveries) database database
        (record d { deliveries = delivery_row mail id ∷ d.deliveries }) d' h))
