-- ===== src/Session/Store/Transactions.antt =====
-- What statements and transactions have achieved where they succeed.
use littleorgans.Base.{ℕ, ◌≡◌, refl}
use littleorgans.Base.Exec.{Result, ok, err}
use littleorgans.Base.Action.Keeps.{Keeps}
use littleorgans.Base.Action.Ends.{Ends, Done}
use littleorgans.Session.Store.{
  Database, Connection, Store, StoreState, StoreError, Answer, done, refused, unheard, settled,
  checked, execute, execute_checked, committing,
}
use littleorgans.Session.Store.Rules.{Holds, Ends-execute}

-- Statements that do what they are to do where they succeed.
module _ (conn : Connection) (D D' : Database → Type 0) where
  checked-Done :
      (answer : Answer) (s : StoreState) (r : Result StoreError Database)
      → ((d : Database) → r ≡ ok d → D' d)
      → Done (Holds D') (checked answer s r).0 (checked answer s r).1
  checked-Done done s (ok d) k = k d refl
  checked-Done refused s (ok d) k = tt
  checked-Done unheard s (ok d) k = tt
  checked-Done answer s (err e) k = tt

  pub execute_checked-Done :
      (f : Database → Result StoreError Database)
      → ((d d' : Database) → D d → f d ≡ ok d' → D' d')
      → Ends (Holds D) (execute_checked conn f) (Done (Holds D'))
  unfolding execute_checked
  execute_checked-Done f k = record {
    at = λ s h. checked-Done (conn.answer s.clock) s (f s.db) (λ d e. k s.db d h e);
  }

  pub execute-Done :
      (f : ℕ → Database → Database)
      → ((n : ℕ) (d : Database) → D d → D' (f n d))
      → Ends (Holds D) (execute conn f) (Done (Holds D'))
  execute-Done f k =
      Ends-execute conn f (Done (Holds D')) (λ s h. k (conn.utc_now s.clock) s.db h) (λ e t. tt)

  settled-Done :
      {A : Type 0} (answer : Answer) (before : Database) (r : Result StoreError A) (t : StoreState)
      → Done (Holds D') r t
      → Done (Holds D') (settled answer before (r, t)).0 (settled answer before (r, t)).1
  settled-Done done before (ok a) t h = h
  settled-Done refused before (ok a) t h = tt
  settled-Done unheard before (ok a) t h = tt
  settled-Done answer before (err e) t h = tt

  pub committing-Done :
      {A : Type 0} (body : Store A)
      → Ends (Holds D) body (Done (Holds D'))
      → Ends (Holds D) (committing conn body) (Done (Holds D'))
  unfolding committing
  committing-Done body k = record {
    at = λ s h. let r = body s in settled-Done (conn.answer r.1.clock) s.db r.0 r.1 (k.at s h);
  }

-- A transaction whose body may leave its property, but has it again where it succeeds.
module _ (conn : Connection) (D : Database → Type 0) where
  answered_with-restored :
      {A : Type 0} (answer : Answer) (before : Database) (r : Result StoreError A) (t : StoreState)
      → D before
      → Done (Holds D) r t
      → D (settled answer before (r, t)).1.db
  answered_with-restored done before (ok a) t old new = new
  answered_with-restored refused before (ok a) t old new = old
  answered_with-restored unheard before (ok a) t old new = new
  answered_with-restored answer before (err e) t old new = old

  pub Keeps-restored :
      {A : Type 0} (body : Store A)
      → Ends (Holds D) body (Done (Holds D))
      → Keeps (Holds D) (committing conn body)
  unfolding committing
  Keeps-restored body k = record {
    at = λ s h.
        let r = body s in answered_with-restored (conn.answer r.1.clock) s.db r.0 r.1 h (k.at s h);
  }
