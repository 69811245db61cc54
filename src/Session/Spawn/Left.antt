-- ===== src/Session/Spawn/Left.antt =====
-- The intents that a recovery has left to do.
use littleorgans.Base.{
  clash, ℕ, ◌≡◌, refl, sym, Bool, true, false, ◌||◌, ◌==◌, ==_iff, List, [], ◌∷◌, if◌then◌else◌,
  All, arith,
}
use Prim.Native.String.{String}
use littleorgans.Session.Store.{
  SessionRow, SpawnIntentStatus, pending, resolved, aborted, IntentRow, update,
}
use littleorgans.Session.Store.Intents.{
  StatusUpdate, is_intent_of, updated_row, has_session, has_intent,
}
use littleorgans.Session.Spawn.Coherent.{SoundAt}

-- The ids of some intents.
abbrev pub Of : List IntentRow → ℕ → Type 0
Of is id = has_intent id is ≡ true

other_id : (a b : ℕ) (rest : Bool) → (a == b || rest) ≡ true → ¬ (a ≡ b) → rest ≡ true
other_id a b rest h other = ground arith

module _ (i : IntentRow) (is : List IntentRow) (sessions : List SessionRow) where
  -- An intent that has its session is done.
  with_session-done :
      (j : IntentRow) (status : SpawnIntentStatus)
      → has_session i.session_id sessions ≡ true
      → SoundAt (Of (i ∷ is)) sessions j status
      → SoundAt (Of is) sessions j status
  with_session-done j pending has h = (
    h.0,
    h.1,
    other_id i.session_id j.session_id _ h.2
        (λ e. clash (has_session j.session_id sessions) (rw (← e) has) h.0),
  )
  with_session-done j resolved has h = h
  with_session-done j aborted has h = tt

  pub done-Coherent :
      (rows : List IntentRow)
      → has_session i.session_id sessions ≡ true
      → All (λ j. SoundAt (Of (i ∷ is)) sessions j j.status) rows
      → All (λ j. SoundAt (Of is) sessions j j.status) rows
  done-Coherent [] has h = tt
  done-Coherent (j ∷ js) has h = (with_session-done j j.status has h.0, done-Coherent js has h.1)

  aborted_row :
      (reason : String) (now : ℕ) (j : IntentRow) (status : SpawnIntentStatus) (b : Bool)
      → j.status ≡ status
      → (j.session_id == i.session_id) ≡ b
      → SoundAt (Of (i ∷ is)) sessions j status
      → SoundAt
          (Of is)
          sessions
          (if b then updated_row (StatusUpdate.aborted reason) now j else j)
          (if b then updated_row (StatusUpdate.aborted reason) now j else j).status
  aborted_row reason now j status true k e h = tt
  aborted_row reason now j pending false k e h = rw k (
    h.0,
    h.1,
    other_id i.session_id j.session_id _ h.2 (λ same.
        clash (j.session_id == i.session_id) ((==_iff j.session_id i.session_id).1 (sym same)) e),
  )
  aborted_row reason now j resolved false k e h = rw k h
  aborted_row reason now j aborted false k e h = rw k tt

  -- An intent that is aborted is done.
  pub aborted-Coherent :
      (reason : String) (now : ℕ) (rows : List IntentRow)
      → All (λ j. SoundAt (Of (i ∷ is)) sessions j j.status) rows
      → All
          (λ j. SoundAt (Of is) sessions j j.status)
          (update (is_intent_of i.session_id) (updated_row (StatusUpdate.aborted reason) now) rows)
  aborted-Coherent reason now [] h = tt
  aborted-Coherent reason now (j ∷ js) h = (
    aborted_row reason now j j.status (j.session_id == i.session_id) refl refl h.0,
    aborted-Coherent reason now js h.1,
  )
