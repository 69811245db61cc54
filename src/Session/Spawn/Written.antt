-- ===== src/Session/Spawn/Written.antt =====
-- The session of an id is written and its intent resolved.
use littleorgans.Base.{
  clash, ℕ, ◌≡◌, refl, ◌∙◌, Bool, true, false, ◌==◌, ==_iff, List, [], ◌∷◌, if◌then◌else◌, All,
}
use littleorgans.Session.Store.{resolved, IntentRow, Database, update}
use littleorgans.Session.Store.Intents.{
  StatusUpdate, is_intent_of, updated_row, has_session, has_intent, with_status_update,
}

module _ (id : ℕ) where
  abbrev pub Begun : Database → Type 0
  Begun d = has_intent id d.intents ≡ true

  abbrev pub Written : Database → Type 0
  Written d = Begun d × (has_session id d.sessions ≡ true)

  -- The session of the id is there, and so is its intent, which is resolved.
  abbrev pub Confirmed : Database → Type 0
  Confirmed d =
      (has_intent id d.intents ≡ true)
      × (has_session id d.sessions ≡ true)
      × All (λ i. i.session_id ≡ id → i.status ≡ resolved) d.intents

  updated_id :
      (now : ℕ) (i : IntentRow) (b : Bool)
      → (if b then updated_row StatusUpdate.resolved now i else i).session_id ≡ i.session_id
  updated_id now i true = refl
  updated_id now i false = refl

  has_intent-update :
      (now : ℕ) (rows : List IntentRow)
      → has_intent id (update (is_intent_of id) (updated_row StatusUpdate.resolved now) rows)
        ≡ has_intent id rows
  has_intent-update now [] = refl
  has_intent-update now (i ∷ is) =
      rw (updated_id now i (i.session_id == id), has_intent-update now is) refl

  resolved_row :
      (now : ℕ) (i : IntentRow) (b : Bool)
      → (i.session_id == id) ≡ b
      → (if b then updated_row StatusUpdate.resolved now i else i).session_id ≡ id
      → (if b then updated_row StatusUpdate.resolved now i else i).status ≡ resolved
  resolved_row now i true e same = refl
  resolved_row now i false e same =
      absurd (clash (i.session_id == id) ((==_iff i.session_id id).1 same) e)

  resolved_rows :
      (now : ℕ) (rows : List IntentRow)
      → All
          (λ i. i.session_id ≡ id → i.status ≡ resolved)
          (update (is_intent_of id) (updated_row StatusUpdate.resolved now) rows)
  resolved_rows now [] = tt
  resolved_rows now (i ∷ is) = (resolved_row now i (i.session_id == id) refl, resolved_rows now is)

  pub resolve-Confirmed :
      (now : ℕ) (d : Database)
      → Written d
      → Confirmed (with_status_update id StatusUpdate.resolved now d)
  resolve-Confirmed now d h =
      (has_intent-update now d.intents ∙ h.0, h.1, resolved_rows now d.intents)
