-- ===== src/Session/Spawn/Drafts.antt =====
-- The id of the session that is built from a draft.
use Prim.Native.String.{String}
use littleorgans.Base.{
  ℕ, ◌≡◌, refl, sym, ap, ◌∙◌, Bool, true, false, if◌then◌else◌, Option, none, some,
}
use littleorgans.Base.Exec.{Result, ok, err}
use littleorgans.Runtime.Lifecycle.{Lifecycle, LifecycleState, TmuxAddress}
use littleorgans.Session.Store.{SessionRow, SessionDraft}
use littleorgans.Session.Store.Intents.{SpawnIntentError, running_session, with_pid}
use littleorgans.Session.Spawn.{SpawnError, in_context}

-- The session of a draft has the draft's id.
abbrev pub IdOf : ℕ → Result SpawnError SessionRow → Type 0
IdOf id (ok session) = session.id ≡ id
IdOf id (err e) = Unit

row_inj : (r : Result SpawnError SessionRow) (s row : SessionRow) → r ≡ ok s → r ≡ ok row → s ≡ row
row_inj r s row h k = cc

ok_not_err : (row : SessionRow) (e : SpawnError) → ¬ (err e ≡ ok row)
ok_not_err row e h = cc

pub IdOf-id :
    (id : ℕ) (r : Result SpawnError SessionRow) (row : SessionRow)
    → r ≡ ok row
    → IdOf id r
    → row.id ≡ id
IdOf-id id (ok s) row e h = ap (λ x. x.id) (sym (row_inj (ok s) s row refl e)) ∙ h
IdOf-id id (err e') row e h = absurd (ok_not_err row e' e)

module _ (address_text : TmuxAddress → String) (in_range : ℕ → Bool) (draft : SessionDraft)
    (l : Lifecycle) (path : Option String) (now : ℕ) where
  ranged-IdOf :
      (b : Bool) (session : SessionRow) (e : SpawnIntentError)
      → session.id ≡ draft.id
      → IdOf draft.id (in_context (if b then ok session else err e))
  ranged-IdOf true session e h = h
  ranged-IdOf false session e h = tt

  with_pid-IdOf :
      (pid : Option ℕ)
      → IdOf draft.id (in_context (with_pid address_text in_range draft l pid path now))
  with_pid-IdOf none = tt
  with_pid-IdOf (some pid) = ranged-IdOf (in_range draft.created_at_ms) _ _ refl

  pub running_session-IdOf :
      (state : LifecycleState)
      → IdOf draft.id (in_context (running_session address_text in_range draft l state path now))
  running_session-IdOf LifecycleState.forking = tt
  running_session-IdOf LifecycleState.running = with_pid-IdOf l.runtime_pid
  running_session-IdOf (LifecycleState.exited exit) = tt
  running_session-IdOf (LifecycleState.lost evidence) = tt
