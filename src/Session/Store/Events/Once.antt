-- ===== src/Session/Store/Events/Once.antt =====
-- A batch of events and its cursor are written together, and once however often they are delivered.
use mathlib.Core.List.{map-map, map-id}
use littleorgans.Base.{ℕ, ◌+◌, ◌≡◌, refl, sym, ◌∙◌, ap, ◌⊎◌, inl, inr, some, List, [], ◌∷◌, map}
use littleorgans.Base.Exec.{Result, ok, err}
use littleorgans.Base.Action.{◌>>◌}
use littleorgans.Runtime.Lifecycle.{RuntimeEvent}
use littleorgans.Session.Store.{Database, Connection, StoreState, StoreError}
use littleorgans.Session.Store.Rules.{Ends-execute, transaction-cases}
use littleorgans.Base.Action.Ends.{Ends, Ends-pure, Ends-bind}
use littleorgans.Session.Store.Events.{
  event_row, with_event, with_cursor, to_be_bytes, apply_runtime_event, apply_events, write_cursor,
  apply_runtime_events_and_cursor,
}
use littleorgans.Session.Store.Events.Rows.{replayed}

-- The database that a batch leads to, where its first statement is the n-th one.
unfoldable pub applied : (ℕ → ℕ) → ℕ → List RuntimeEvent → ℕ → Database → Database
applied now n events next d = record d {
  sessions = map (replayed now n events) d.sessions;
  cursor = some (to_be_bytes next);
}

replayed_db : (ℕ → ℕ) → ℕ → List RuntimeEvent → Database → Database
replayed_db now n [] d = d
replayed_db now n (e ∷ es) d = replayed_db now (n + 1) es (with_event e (now n) d)

replayed_rows :
    (now : ℕ → ℕ) (n : ℕ) (es : List RuntimeEvent) (d : Database)
    → (replayed_db now n es d).sessions ≡ map (replayed now n es) d.sessions
unfolding replayed_db replayed
replayed_rows now n [] d = sym (map-id d.sessions)
replayed_rows now n (e ∷ es) d =
    replayed_rows now (n + 1) es (with_event e (now n) d)
    ∙ map-map (replayed now (n + 1) es) (event_row e (now n)) d.sessions

replayed_rest :
    (now : ℕ → ℕ) (n : ℕ) (es : List RuntimeEvent) (d : Database)
    → replayed_db now n es d ≡ record d { sessions = (replayed_db now n es d).sessions }
unfolding replayed_db
replayed_rest now n [] d = refl
replayed_rest now n (e ∷ es) d = replayed_rest now (n + 1) es (with_event e (now n) d)

with_cursor-replayed_db :
    (now : ℕ → ℕ) (n : ℕ) (es : List RuntimeEvent) (next : ℕ) (d : Database)
    → with_cursor next (replayed_db now n es d) ≡ applied now n es next d
unfolding applied
with_cursor-replayed_db now n es next d =
    rw (replayed_rest now n es d, replayed_rows now n es d) refl

-- The database is as it was, or as after one application of the batch.
abbrev pub AtMostApplied : (ℕ → ℕ) → List RuntimeEvent → ℕ → Database → Database → Type 0
AtMostApplied now es next before d = (d ≡ before) ⊎ ((n : ℕ) × (d ≡ applied now n es next before))

-- What a call of `apply_runtime_events_and_cursor` leaves, by its result.
abbrev pub Persisted :
    (ℕ → ℕ) → List RuntimeEvent → ℕ → Database → Result StoreError (Unit {0}) → Database → Type 0
Persisted now es next before (ok _) d = (n : ℕ) × (d ≡ applied now n es next before)
Persisted now es next before (err e) d = AtMostApplied now es next before d

module _ (conn : Connection) where
  abbrev At : ℕ → Database → StoreState → Type 0
  At n d s = (s.clock ≡ n) × (s.db ≡ d)

  abbrev Done : Database → Result StoreError (Unit {0}) → StoreState → Type 0
  Done d (ok _) s = s.db ≡ d
  Done d (err e) s = Unit

  abbrev Stepped : ℕ → Database → Result StoreError (Unit {0}) → StoreState → Type 0
  Stepped n d (ok _) s = At n d s
  Stepped n d (err e) s = Unit

  Ends-apply_runtime_event :
      (n : ℕ) (d : Database) (e : RuntimeEvent)
      → Ends
          (At n d)
          (apply_runtime_event conn e)
          (Stepped (n + 1) (with_event e (conn.utc_now n) d))
  unfolding apply_runtime_event
  Ends-apply_runtime_event n d e =
      Ends-execute conn (with_event e) (Stepped (n + 1) (with_event e (conn.utc_now n) d))
        (λ s h. (ap (λ m. m + 1) h.0, rw (h.0, h.1) refl)) (λ e t. tt)

  Ends-apply_events :
      (n : ℕ) (d : Database) (es : List RuntimeEvent)
      → Ends (At n d) (apply_events conn es) (Done (replayed_db conn.utc_now n es d))
  unfolding apply_events replayed_db
  Ends-apply_events n d [] = Ends-pure tt _ (λ s h. h.1)
  Ends-apply_events n d (e ∷ es) =
      Ends-bind _ _ _ _ (Ends-apply_runtime_event n d e)
        (λ _. Ends-apply_events (n + 1) (with_event e (conn.utc_now n) d) es) (λ e t h. tt)

  Ends-body :
      (n : ℕ) (d : Database) (es : List RuntimeEvent) (next : ℕ)
      → Ends
          (At n d)
          (apply_events conn es >> write_cursor conn next)
          (Done (applied conn.utc_now n es next d))
  unfolding write_cursor
  Ends-body n d es next =
      Ends-bind _ _ _ _ (Ends-apply_events n d es)
        (λ _.
          Ends-execute conn (λ now. with_cursor next) (Done (applied conn.utc_now n es next d))
            (λ s h. ap (with_cursor next) h ∙ with_cursor-replayed_db conn.utc_now n es next d)
            (λ e t. tt))
        (λ e t h. tt)

  -- A batch and its cursor are written together: after a success both are, and after a failure
  -- neither, or both where only the answer to the commit was lost.
  pub apply_runtime_events_and_cursor-Persisted :
      (es : List RuntimeEvent) (next : ℕ) (s : StoreState)
      → Persisted conn.utc_now es next s.db
          (apply_runtime_events_and_cursor conn es next s).0
          (apply_runtime_events_and_cursor conn es next s).1.db
  unfolding apply_runtime_events_and_cursor
  apply_runtime_events_and_cursor-Persisted es next s =
      transaction-cases conn (Persisted conn.utc_now es next s.db)
        (apply_events conn es >> write_cursor conn next) s
        (Done (applied conn.utc_now (s.clock + 1) es next s.db))
        ((Ends-body (s.clock + 1) s.db es next).at (record s { clock = s.clock + 1 }) (refl, refl))
        (λ a t h. (s.clock + 1, h)) (λ a t h e. inr (s.clock + 1, h)) (λ e. inl refl)
