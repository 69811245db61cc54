-- ===== src/Session/Store/Rules.antt =====
-- What statements and transactions of the store achieve, for each answer of the database.
use littleorgans.Base.{ℕ, ◌+◌, ◌≡◌, refl, sym, Bool, true, false, if◌then◌else◌}
use littleorgans.Base.Exec.{Result, ok, err}
use littleorgans.Base.Action.Keeps.{Keeps}
use littleorgans.Base.Action.Ends.{Ends}
use littleorgans.Session.Store.{
  Database, Connection, Store, StoreState, StoreError, Answer, done, refused, unheard, database,
  answered_with, settled, begun, checked, execute, execute_checked, committing, fetch, transaction,
}

module _ {A : Type 0} (Q : Result StoreError A → StoreState → Type 0) where
  answered_with-cases :
      (answer : Answer) (s : StoreState) (a : A) (d : Database)
      → Q (ok a) (record { db = d; clock = s.clock + 1 })
      → ((e : StoreError) (t : StoreState) → Q (err e) t)
      → Q (answered_with answer s (a, d)).0 (answered_with answer s (a, d)).1
  answered_with-cases done s a d h w = h
  answered_with-cases refused s a d h w = w database _
  answered_with-cases unheard s a d h w = w database _

module _ (conn : Connection) {P : StoreState → Type 0} where
  pub Ends-execute :
      (f : ℕ → Database → Database) (Q : Result StoreError (Unit {0}) → StoreState → Type 0)
      → ((s : StoreState)
          → P s
          → Q (ok tt) (record { db = f (conn.utc_now s.clock) s.db; clock = s.clock + 1 }))
      → ((e : StoreError) (t : StoreState) → Q (err e) t)
      → Ends P (execute conn f) Q
  unfolding execute
  Ends-execute f Q k w = record {
    at = λ s h.
        answered_with-cases Q (conn.answer s.clock) s tt (f (conn.utc_now s.clock) s.db) (k s h) w;
  }

  pub Ends-fetch :
      {A : Type 0} (f : Database → A) (Q : Result StoreError A → StoreState → Type 0)
      → ((s : StoreState) → P s → Q (ok (f s.db)) (record s { clock = s.clock + 1 }))
      → ((e : StoreError) (t : StoreState) → Q (err e) t)
      → Ends P (fetch conn f) Q
  unfolding fetch
  Ends-fetch f Q k w = record {
    at = λ s h. answered_with-cases Q (conn.answer s.clock) s (f s.db) s.db (k s h) w;
  }

-- A predicate on the result of a transaction and the database after it, where `before` is the one
-- before it.
module _ {A : Type 0} (R : Result StoreError A → Database → Type 0) (before : Database) where
  answered_with-commit :
      (answer : Answer) (n : ℕ) (a : A) (d : Database)
      → R (ok a) d
      → ((e : StoreError) → R (err e) d)
      → ((e : StoreError) → R (err e) before)
      → let r = answered_with answer (record { db = before; clock = n }) (a, d) in R r.0 r.1.db
  answered_with-commit done n a d h u w = h
  answered_with-commit refused n a d h u w = w database
  answered_with-commit unheard n a d h u w = u database

  settled-cases :
      (answer : Answer) (Q : Result StoreError A → StoreState → Type 0) (r : Result StoreError A)
      (t : StoreState)
      → Q r t
      → ((a : A) (t : StoreState) → Q (ok a) t → R (ok a) t.db)
      → ((a : A) (t : StoreState) → Q (ok a) t → (e : StoreError) → R (err e) t.db)
      → ((e : StoreError) → R (err e) before)
      → R (settled answer before (r, t)).0 (settled answer before (r, t)).1.db
  settled-cases answer Q (ok a) t h k u w =
      answered_with-commit answer t.clock a t.db (k a t h) (u a t h) w
  settled-cases answer Q (err e) t h k u w = w e

module _ (conn : Connection) {A : Type 0} (R : Result StoreError A → Database → Type 0) where
  -- A transaction that fails leaves the database as it was, unless its commit was made and only the
  -- answer was lost.
  pub transaction-cases :
      (body : Store A) (s : StoreState) (Q : Result StoreError A → StoreState → Type 0)
      → Q (body (record s { clock = s.clock + 1 })).0 (body (record s { clock = s.clock + 1 })).1
      → ((a : A) (t : StoreState) → Q (ok a) t → R (ok a) t.db)
      → ((a : A) (t : StoreState) → Q (ok a) t → (e : StoreError) → R (err e) t.db)
      → ((e : StoreError) → R (err e) s.db)
      → R (transaction conn body s).0 (transaction conn body s).1.db
  unfolding transaction
  transaction-cases body s Q h k u w = begin (conn.answer s.clock)
    where
      begin : (answer : Answer) → R (begun conn answer body s).0 (begun conn answer body s).1.db
      begin done =
          let r = body (record s { clock = s.clock + 1 }) in
          settled-cases R s.db (conn.answer r.1.clock) Q r.0 r.1 h k u w
      begin refused = w database
      begin unheard = w database

-- What every statement keeps of the database, a transaction keeps.
abbrev pub Holds : (Database → Type 0) → StoreState → Type 0
Holds D s = D s.db

module _ (D : Database → Type 0) where
  answered_with-Holds :
      {A : Type 0} (answer : Answer) (s : StoreState) (a : A) (d : Database)
      → Holds D s
      → D d
      → Holds D (answered_with answer s (a, d)).1
  answered_with-Holds done s a d old new = new
  answered_with-Holds refused s a d old new = old
  answered_with-Holds unheard s a d old new = new

  settled-Holds :
      {A : Type 0} (answer : Answer) (before : Database) (r : Result StoreError A) (t : StoreState)
      → D before
      → Holds D t
      → Holds D (settled answer before (r, t)).1
  settled-Holds answer before (ok a) t old new =
      answered_with-Holds answer (record t { db = before }) a t.db old new
  settled-Holds answer before (err e) t old new = old

  module _ (conn : Connection) where
    pub Keeps-execute :
        (f : ℕ → Database → Database)
        → ((n : ℕ) (d : Database) → D d → D (f n d))
        → Keeps (Holds D) (execute conn f)
    unfolding execute
    Keeps-execute f k = record {
      at = λ s h.
          answered_with-Holds (conn.answer s.clock) s tt _ h (k (conn.utc_now s.clock) s.db h);
    }

    checked-Holds :
        (answer : Answer) (s : StoreState) (r : Result StoreError Database)
        → Holds D s
        → ((d : Database) → r ≡ ok d → D d)
        → Holds D (checked answer s r).1
    checked-Holds answer s (ok d) old new = answered_with-Holds answer s tt d old (new d refl)
    checked-Holds answer s (err e) old new = old

    pub Keeps-execute_checked :
        (f : Database → Result StoreError Database)
        → ((d d' : Database) → D d → f d ≡ ok d' → D d')
        → Keeps (Holds D) (execute_checked conn f)
    unfolding execute_checked
    Keeps-execute_checked f k = record {
      at = λ s h. checked-Holds (conn.answer s.clock) s (f s.db) h (λ d e. k s.db d h e);
    }

    pub Keeps-committing :
        {A : Type 0} (body : Store A)
        → Keeps (Holds D) body
        → Keeps (Holds D) (committing conn body)
    unfolding committing
    Keeps-committing body k = record {
      at = λ s h. let r = body s in settled-Holds (conn.answer r.1.clock) s.db r.0 r.1 h (k.at s h);
    }

    pub Keeps-fetch : {A : Type 0} (f : Database → A) → Keeps (Holds D) (fetch conn f)
    unfolding fetch
    Keeps-fetch f = record {
      at = λ s h. answered_with-Holds (conn.answer s.clock) s (f s.db) s.db h h;
    }

    pub Keeps-transaction :
        {A : Type 0} (body : Store A)
        → Keeps (Holds D) body
        → Keeps (Holds D) (transaction conn body)
    unfolding transaction
    Keeps-transaction body k = record { at = λ s h. begin (conn.answer s.clock) s h }
      where
        begin :
            (answer : Answer) (s : StoreState) → Holds D s → Holds D (begun conn answer body s).1
        begin done s h =
            let r = body (record s { clock = s.clock + 1 }) in
            settled-Holds (conn.answer r.1.clock) s.db r.0 r.1 h
              (k.at (record s { clock = s.clock + 1 }) h)
        begin refused s h = h
        begin unheard s h = h

    -- What a query gives, and the database that it leaves.
    abbrev pub Fetched : {A : Type 0} → (Database → A) → Result StoreError A → StoreState → Type 0
    Fetched f (ok a) t = D t.db × (a ≡ f t.db)
    Fetched f (err e) t = D t.db

    pub Ends-Fetched : {A : Type 0} (f : Database → A) → Ends (Holds D) (fetch conn f) (Fetched f)
    unfolding fetch
    Ends-Fetched f = record { at = λ s h. asked (conn.answer s.clock) s h }
      where
        asked :
            (answer : Answer) (s : StoreState)
            → Holds D s
            → Fetched f
                (answered_with answer s (f s.db, s.db)).0
                (answered_with answer s (f s.db, s.db)).1
        asked done s h = (h, refl)
        asked refused s h = h
        asked unheard s h = h

ok_not_err : {A : Type 0} (a : A) (e : StoreError) → ¬ (ok a ≡ err e)
ok_not_err a e h = cc

err_inj :
    {A : Type 0} (r : Result StoreError A) (e e' : StoreError) → r ≡ err e → r ≡ err e' → e ≡ e'
err_inj r e e' h k = cc

-- A checked statement that takes one property of the database to a weaker one.
module _ (D D' : Database → Type 0) (conn : Connection) (weaken : (d : Database) → D d → D' d) where
  answered_with-moved :
      {A : Type 0} (answer : Answer) (s : StoreState) (a : A) (d : Database)
      → D s.db
      → D' d
      → D' (answered_with answer s (a, d)).1.db
  answered_with-moved done s a d old new = new
  answered_with-moved refused s a d old new = weaken s.db old
  answered_with-moved unheard s a d old new = new

  checked-moved :
      (answer : Answer) (s : StoreState) (r : Result StoreError Database)
      → D s.db
      → ((d : Database) → r ≡ ok d → D' d)
      → D' (checked answer s r).1.db
  checked-moved answer s (ok d) old new = answered_with-moved answer s tt d old (new d refl)
  checked-moved answer s (err e) old new = weaken s.db old

  pub Ends-execute_checked :
      (f : Database → Result StoreError Database)
      → ((d d' : Database) → D d → f d ≡ ok d' → D' d')
      → Ends (Holds D) (execute_checked conn f) (λ r t. D' t.db)
  unfolding execute_checked
  Ends-execute_checked f k = record {
    at = λ s h. checked-moved (conn.answer s.clock) s (f s.db) h (λ d e. k s.db d h e);
  }

  -- The error `only` leaves the database of the first property.
  abbrev pub Moved : {A : Type 0} → StoreError → Result StoreError A → Database → Type 0
  Moved only r d = (r ≡ err only → D d) × D' d

  settled-Moved :
      {A : Type 0} (only : StoreError) (answer : Answer) (before : Database)
      (r : Result StoreError A) (t : StoreState)
      → ¬ (database ≡ only)
      → D before
      → D' t.db
      → Moved only (settled answer before (r, t)).0 (settled answer before (r, t)).1.db
  settled-Moved only done before (ok a) t other old new = (λ e. absurd (ok_not_err a only e), new)
  settled-Moved only refused before (ok a) t other old new = (λ e. old, weaken before old)
  settled-Moved only unheard before (ok a) t other old new =
      (λ e. absurd (other (err_inj (err database) database only refl e)), new)
  settled-Moved only answer before (err e) t other old new = (λ k. old, weaken before old)

  pub committing-Moved :
      {A : Type 0} (only : StoreError) (body : Store A)
      → ¬ (database ≡ only)
      → Ends (Holds D) body (λ r t. D' t.db)
      → Ends (Holds D) (committing conn body) (λ r t. Moved only r t.db)
  unfolding committing
  committing-Moved only body other k = record {
    at = λ s h.
        let r = body s in
        settled-Moved only (conn.answer r.1.clock) s.db r.0 r.1 other h (k.at s h);
  }

ok_inj : (r : Result StoreError Database) (x d : Database) → r ≡ ok x → r ≡ ok d → x ≡ d
ok_inj r x d h k = cc

-- A check before a write, where the write is made.
pub if_ok :
    (b : Bool) (e : StoreError) (x d : Database)
    → (if b then ok x else err e) ≡ ok d
    → (b ≡ true) × (x ≡ d)
if_ok true e x d h = (refl, ok_inj (ok x) x d refl h)
if_ok false e x d h = absurd (ok_not_err d e (sym h))

pub unless_ok :
    (b : Bool) (e : StoreError) (x d : Database)
    → (if b then err e else ok x) ≡ ok d
    → (b ≡ false) × (x ≡ d)
unless_ok true e x d h = absurd (ok_not_err d e (sym h))
unless_ok false e x d h = (refl, ok_inj (ok x) x d refl h)
