-- ===== src/Session/Spawn/Coherent.antt =====
-- The invariant of the intents, and the writes of a spawn.
use littleorgans.Base.{
  clash, ℕ, ◌≡◌, refl, sym, Bool, true, false, ◌==◌, ==_iff, ◌⊎◌, inl, inr, List, [], ◌∷◌,
  if◌then◌else◌, All, arith,
}
use Prim.Native.String.{String}
use littleorgans.Session.Store.{
  SessionRow, SpawnIntentStatus, pending, resolved, aborted, IntentRow, Database, update,
}
use littleorgans.Session.Store.Intents.{StatusUpdate, is_intent_of, updated_row, has_session}

module _ (q : ℕ → Type 0) where
  abbrev pub SoundAt : List SessionRow → IntentRow → SpawnIntentStatus → Type 0
  SoundAt sessions i pending =
      (has_session i.session_id sessions ≡ false)
      × (i.session_draft.id ≡ i.session_id)
      × q i.session_id
  SoundAt sessions i resolved = has_session i.session_id sessions ≡ true
  SoundAt sessions i aborted = Unit

  -- A pending intent has no session yet, and its id is one of `q`; a resolved one has its session.
  abbrev pub Coherent : Database → Type 0
  Coherent d = All (λ i. SoundAt d.sessions i i.status) d.intents

  aborted_row :
      (sessions : List SessionRow) (reason : String) (now : ℕ) (i : IntentRow) (b : Bool)
      → SoundAt sessions i i.status
      → SoundAt sessions
          (if b then updated_row (StatusUpdate.aborted reason) now i else i)
          (if b then updated_row (StatusUpdate.aborted reason) now i else i).status
  aborted_row sessions reason now i true h = tt
  aborted_row sessions reason now i false h = h

  pub abort-Coherent :
      (id : ℕ) (reason : String) (now : ℕ) (sessions : List SessionRow) (rows : List IntentRow)
      → All (λ i. SoundAt sessions i i.status) rows
      → All
          (λ i. SoundAt sessions i i.status)
          (update (is_intent_of id) (updated_row (StatusUpdate.aborted reason) now) rows)
  abort-Coherent id reason now sessions [] h = tt
  abort-Coherent id reason now sessions (i ∷ is) h = (
    aborted_row sessions reason now i (i.session_id == id) h.0,
    abort-Coherent id reason now sessions is h.1,
  )

  -- In the transaction that inserts the session of an id, before its intent is resolved.
  abbrev pub Completing : ℕ → Database → Type 0
  Completing id d =
      (has_session id d.sessions ≡ true)
      × All (λ i. (i.session_id ≡ id) ⊎ SoundAt d.sessions i i.status) d.intents

  with_row :
      (row : SessionRow) (sessions : List SessionRow) (i : IntentRow) (status : SpawnIntentStatus)
      (b : Bool)
      → (row.id == i.session_id) ≡ b
      → SoundAt sessions i status
      → (i.session_id ≡ row.id) ⊎ SoundAt (row ∷ sessions) i status
  with_row row sessions i status true e h = inl (sym ((==_iff row.id i.session_id).0 e))
  with_row row sessions i pending false e h = inr (rw e h.0, h.1, h.2)
  with_row row sessions i resolved false e h = inr (rw e h)
  with_row row sessions i aborted false e h = inr tt

  with_rows :
      (row : SessionRow) (sessions : List SessionRow) (rows : List IntentRow)
      → All (λ i. SoundAt sessions i i.status) rows
      → All (λ i. (i.session_id ≡ row.id) ⊎ SoundAt (row ∷ sessions) i i.status) rows
  with_rows row sessions [] h = tt
  with_rows row sessions (i ∷ is) h = (
    with_row row sessions i i.status (row.id == i.session_id) refl h.0,
    with_rows row sessions is h.1,
  )

  pub grown-Completing :
      (row : SessionRow) (id : ℕ) (d : Database)
      → row.id ≡ id
      → Coherent d
      → Completing id (record d { sessions = row ∷ d.sessions })
  grown-Completing row id d e h = rw (← e) (ground arith, with_rows row d.sessions d.intents h)

  resolved_row :
      (id now : ℕ) (sessions : List SessionRow) (i : IntentRow) (b : Bool)
      → (i.session_id == id) ≡ b
      → has_session id sessions ≡ true
      → (i.session_id ≡ id) ⊎ SoundAt sessions i i.status
      → SoundAt sessions
          (if b then updated_row StatusUpdate.resolved now i else i)
          (if b then updated_row StatusUpdate.resolved now i else i).status
  resolved_row id now sessions i true e has h = rw ((==_iff i.session_id id).0 e) has
  resolved_row id now sessions i false e has (inl same) =
      absurd (clash (i.session_id == id) ((==_iff i.session_id id).1 same) e)
  resolved_row id now sessions i false e has (inr h) = h

  pub resolve-Coherent :
      (id now : ℕ) (sessions : List SessionRow) (rows : List IntentRow)
      → has_session id sessions ≡ true
      → All (λ i. (i.session_id ≡ id) ⊎ SoundAt sessions i i.status) rows
      → All
          (λ i. SoundAt sessions i i.status)
          (update (is_intent_of id) (updated_row StatusUpdate.resolved now) rows)
  resolve-Coherent id now sessions [] has h = tt
  resolve-Coherent id now sessions (i ∷ is) has h = (
    resolved_row id now sessions i (i.session_id == id) refl has h.0,
    resolve-Coherent id now sessions is has h.1,
  )
