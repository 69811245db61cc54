-- ===== src/Session/Store/Mail/Quiet.antt =====
-- The replay of a stored message only reads.
use Prim.Native.String.{String}
use littleorgans.Base.{ℕ, Option, none, some, List, [], ◌∷◌}
use littleorgans.Base.Action.Keeps.{
  Keeps, Keeps-pure, Keeps-lift, Keeps-unless, Keeps-bind, keeps_rules,
}
use littleorgans.Session.Store.{MessageRow, Database, Connection}
use littleorgans.Session.Store.Rules.{Holds, Keeps-fetch}
use littleorgans.Session.Store.Mail.{Mail}
use littleorgans.Session.Store.Mail.Write.{
  load_message_deliveries, validate_idempotent_replay, replay_of, replay_by,
}

module _ (D : Database → Type 0) (conn : Connection) where
  pub Keeps-deliveries :
      (existing : MessageRow) (ids : List ℕ)
      → Keeps (Holds D) (load_message_deliveries conn existing ids)
  unfolding load_message_deliveries
  Keeps-deliveries existing [] = Keeps-pure _
  Keeps-deliveries existing (id ∷ ids) = Keeps-bind _ _ (Keeps-fetch D conn _) (λ row.
      Keeps-bind _ _ (Keeps-lift _)
        (λ mail. Keeps-bind _ _ (Keeps-deliveries existing ids) (λ rest. Keeps-pure _)))

  pub Keeps-validate :
      (existing : MessageRow) (mail : Mail) (ids : List ℕ)
      → Keeps (Holds D) (validate_idempotent_replay conn existing mail ids)
  unfolding validate_idempotent_replay
  Keeps-validate existing mail ids =
      Keeps-bind _ _ (Keeps-unless _ _)
        (λ _. Keeps-bind _ _ (Keeps-fetch D conn _) (λ found. Keeps-unless _ _))

  Keeps-replay_of :
      (mail : Mail) (ids : List ℕ) (found : Option MessageRow)
      → Keeps (Holds D) (replay_of conn mail ids found)
  Keeps-replay_of mail ids none = Keeps-pure _
  Keeps-replay_of mail ids (some existing) = search (keeps_rules, Keeps-validate, Keeps-deliveries)

  pub Keeps-replay_by :
      (key : Option String) (mail : Mail) (ids : List ℕ)
      → Keeps (Holds D) (replay_by conn key mail ids)
  Keeps-replay_by none mail ids = Keeps-pure _
  Keeps-replay_by (some key) mail ids =
      Keeps-bind _ _ (Keeps-fetch D conn _) (Keeps-replay_of mail ids)
