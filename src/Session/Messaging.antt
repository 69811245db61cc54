-- ===== src/Session/Messaging.antt =====
-- internal/session/daemon/src/handler/messaging.rs and mail_safety.rs: the limits on mail, and the
-- steps of `mail_send` from the mail on, which write it. The response of a send and its wake of the
-- recipients are left out. A time is in seconds here, and the text of an error is left out.
pub mod Room
pub mod Limits
pub mod Config
mod Tests
use Prim.Native.String.{String}
use littleorgans.Base.{
  ℕ, zero, suc, ◌-◌, Bool, true, false, Option, none, some, List, [], ◌∷◌, ltb, if◌then◌else◌,
}
use littleorgans.Base.Int.{ℤ, pos, negsuc}
use littleorgans.Base.Exec.{Result, ok, err}
use littleorgans.Base.Action.{Action, pure, raise, lift, gets, unless, ◌>>=◌, ◌>>◌}
use littleorgans.Base.Action.Calls.{map_err, attempted}
use littleorgans.Session.Mail.{MailIntent, receipt}
use littleorgans.Session.Store.{Database, Connection, Store, StoreState, StoreError, execute}
use littleorgans.Session.Store.Mail.{Mail, MailWriteOutcome}
use littleorgans.Session.Store.Mail.Write.{
  load_idempotent_replay, insert_mail_for_recipients_with_outcome,
}
use littleorgans.Session.Store.Mail.Read.{count_conversation_depth, count_sender_rate_since}

pub record MailSafetyConfig : Type 0 where
  pub conversation_depth_limit : ℕ
  pub sender_rate_limit : ℕ
  pub sender_rate_window : ℕ

abbrev pub default_config : MailSafetyConfig
default_config = record {
  conversation_depth_limit = 50;
  sender_rate_limit = 30;
  sender_rate_window = 60;
}

pub record MailSafetySection : Type 0 where
  pub conversation_depth_limit : Option ℕ
  pub sender_rate_limit : Option ℕ
  pub sender_rate_window_secs : Option ℤ

-- The fields that are no positive number.
pub data ConfigError : Type 0 where
  depth_limit_zero rate_limit_zero window_not_positive : ConfigError

abbrev pub nonzero_usize : Option ℕ → ℕ → ConfigError → Result ConfigError ℕ
nonzero_usize (some zero) default field = err field
nonzero_usize (some (suc n)) default field = ok (suc n)
nonzero_usize none default field = ok default

-- A value that is accepted is no negative one.
abbrev pub nonzero_i64 : Option ℤ → ℕ → ConfigError → Result ConfigError ℕ
nonzero_i64 (some (negsuc n)) default field = err field
nonzero_i64 (some (pos zero)) default field = err field
nonzero_i64 (some (pos (suc n))) default field = ok (suc n)
nonzero_i64 none default field = ok default

abbrev pub configured :
    Result ConfigError ℕ
    → Result ConfigError ℕ
    → Result ConfigError ℕ
    → Result ConfigError MailSafetyConfig
configured (ok depth) (ok rate) (ok window) = ok (record {
  conversation_depth_limit = depth;
  sender_rate_limit = rate;
  sender_rate_window = window;
})
configured (ok depth) (ok rate) (err e) = err e
configured (ok depth) (err e) _ = err e
configured (err e) _ _ = err e

unfoldable pub into_config : MailSafetySection → Result ConfigError MailSafetyConfig
into_config section =
    configured
      (nonzero_usize section.conversation_depth_limit default_config.conversation_depth_limit
        depth_limit_zero)
      (nonzero_usize section.sender_rate_limit default_config.sender_rate_limit rate_limit_zero)
      (nonzero_i64 section.sender_rate_window_secs default_config.sender_rate_window
        window_not_positive)

pub data SendError : Type 0 where
  store_error : StoreError → SendError
  depth_reached throttled : ℕ → ℕ → SendError

-- A handler, which calls the store.
abbrev pub Handler : Type 0 → Type 0
Handler A = Action SendError StoreState A

abbrev pub stored : {A : Type 0} → Store A → Handler A
stored m = map_err store_error m

abbrev is_receipt : MailIntent → Bool
is_receipt receipt = true
is_receipt _ = false

module _ (conn : Connection) where
  -- The connection is taken from the pool first.
  abbrev pub replay_keyed : Option String → Mail → List ℕ → Store (Option (List Mail))
  replay_keyed none mail ids = pure none
  replay_keyed (some key) mail ids =
      execute conn (λ now d. d) >> load_idempotent_replay conn mail ids

  unfoldable pub idempotent_mail_for_recipients : Mail → List ℕ → Store (Option (List Mail))
  unfolding load_idempotent_replay execute
  idempotent_mail_for_recipients mail [] = pure none
  idempotent_mail_for_recipients mail (id ∷ ids) = replay_keyed mail.idempotency_key mail (id ∷ ids)

  abbrev pub rate_check : MailSafetyConfig → Mail → ℕ → Handler (Unit {0})
  rate_check limits mail now = do
    rate ← stored (count_sender_rate_since conn mail.sender (now - limits.sender_rate_window))
    unless (ltb rate limits.sender_rate_limit) (throttled rate limits.sender_rate_limit)

  abbrev pub checked_mail : MailSafetyConfig → Mail → Handler (Unit {0})
  checked_mail limits mail = do
    depth ← stored (count_conversation_depth conn mail.context_id)
    unless (ltb depth limits.conversation_depth_limit)
        (depth_reached depth limits.conversation_depth_limit)
    now ← gets (λ s. conn.utc_now s.clock)
    rate_check limits mail now

  unfoldable pub enforce_mail_safety : MailSafetyConfig → Mail → Handler (Unit {0})
  unfolding count_conversation_depth count_sender_rate_since map_err
  enforce_mail_safety limits mail =
      if is_receipt mail.intent then pure tt else checked_mail limits mail

  -- What a send has come to: a replay, or an attempt to insert the mail.
  abbrev pub after_replay :
      (Database → Database)
      → (Database → Database)
      → MailSafetyConfig
      → Mail
      → List ℕ
      → Option (List Mail)
      → Handler (Result StoreError MailWriteOutcome)
  after_replay race race' limits mail ids (some mails) =
      pure (ok (record { mail = mails; inserted = false }))
  after_replay race race' limits mail ids none = do
    enforce_mail_safety limits mail
    attempted (insert_mail_for_recipients_with_outcome conn race race' mail ids)

  unfoldable pub send_mail :
      (Database → Database)
      → (Database → Database)
      → MailSafetyConfig
      → Mail
      → List ℕ
      → Handler (Result StoreError MailWriteOutcome)
  unfolding idempotent_mail_for_recipients enforce_mail_safety
      insert_mail_for_recipients_with_outcome map_err attempted
  send_mail race race' limits mail ids = do
    replay ← stored (idempotent_mail_for_recipients mail ids)
    after_replay race race' limits mail ids replay
