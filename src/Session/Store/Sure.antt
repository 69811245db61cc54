-- ===== src/Session/Store/Sure.antt =====
-- Statements and transactions on a connection that answers all of them: they succeed.
use littleorgans.Base.{ℕ, ◌≡◌, refl}
use littleorgans.Base.Exec.{Result, ok, err}
use littleorgans.Base.Action.{Action, lift, ◌>>=◌}
use littleorgans.Base.Action.Ends.{Ends, Returns}
use littleorgans.Session.Store.{
  Database, Connection, Store, StoreState, StoreError, done, settled, checked, execute,
  execute_checked, committing, fetch,
}
use littleorgans.Session.Store.Rules.{Holds}

-- A success with a property of the database.
abbrev pub Sure : {E A : Type 0} → (Database → Type 0) → Result E A → StoreState → Type 0
Sure D = Returns (λ a. Holds D)

module _ (conn : Connection) (answers : (n : ℕ) → conn.answer n ≡ done)
    (D D' : Database → Type 0) where
  pub execute-Sure :
      (f : ℕ → Database → Database)
      → ((n : ℕ) (d : Database) → D d → D' (f n d))
      → Ends (Holds D) (execute conn f) (Sure D')
  unfolding execute
  execute-Sure f k = record { at = λ s h. rw (answers s.clock) (k (conn.utc_now s.clock) s.db h) }

  checked-Sure :
      (s : StoreState) (r : Result StoreError Database) (d : Database)
      → r ≡ ok d
      → D' d
      → Sure D' (checked done s r).0 (checked done s r).1
  checked-Sure s r d e h = rw e h

  pub execute_checked-Sure :
      (f : Database → Result StoreError Database)
      → ((d : Database) → D d → (d' : Database) × (f d ≡ ok d') × D' d')
      → Ends (Holds D) (execute_checked conn f) (Sure D')
  unfolding execute_checked
  execute_checked-Sure f k = record {
    at =
        λ s h. let (d', e, h') = k s.db h in rw (answers s.clock) (checked-Sure s (f s.db) d' e h');
  }

  settled-Sure :
      {A : Type 0} (before : Database) (r : Result StoreError A) (t : StoreState)
      → Sure D' r t
      → Sure D' (settled done before (r, t)).0 (settled done before (r, t)).1
  settled-Sure before (ok a) t h = h
  settled-Sure before (err e) t h = h

  pub committing-Sure :
      {A : Type 0} (body : Store A)
      → Ends (Holds D) body (Sure D')
      → Ends (Holds D) (committing conn body) (Sure D')
  unfolding committing
  committing-Sure body k = record {
    at = λ s h. let r = body s in rw (answers r.1.clock) (settled-Sure s.db r.0 r.1 (k.at s h));
  }

module _ (conn : Connection) (answers : (n : ℕ) → conn.answer n ≡ done)
    (D : Database → Type 0) where
  pub fetch-Returns :
      {A : Type 0} (f : Database → A)
      → Ends (Holds D) (fetch conn f) (Returns (λ a t. D t.db × (a ≡ f t.db)))
  unfolding fetch
  fetch-Returns f = record { at = λ s h. rw (answers s.clock) (h, refl) }

module _ {E A B : Type 0} {P : StoreState → Type 0} where
  -- What is lifted is a success.
  pub lifted-Ends :
      (r : Result E A) (a : A) (f : A → Action E StoreState B)
      (R : Result E B → StoreState → Type 0)
      → r ≡ ok a
      → Ends P (f a) R
      → Ends P (lift r >>= f) R
  unfolding ◌>>=◌
  lifted-Ends r a f R e k = rw e (record { at = k.at })
