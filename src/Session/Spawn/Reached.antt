-- ===== src/Session/Spawn/Reached.antt =====
-- Spawns and recoveries one after the other, each with its own failures.
use littleorgans.Base.{
  ℕ, ◌≡◌, refl, ◌∙◌, Bool, true, false, ◌||◌, ◌==◌, List, [], ◌∷◌, if◌then◌else◌, All, arith, keep,
  leb,
}
use littleorgans.Base.Action.Keeps.{Keeps, Keeps-pure, Keeps-bind}
use littleorgans.Base.Action.Calls.{map_err-Returns, Mapped, map_err-Mapped, Keeps-attempted}
use littleorgans.Base.Action.Ends.{Ends, Ends-bind, Ends-returned}
use littleorgans.Runtime.Server.Spawn.{SpawnRequest}
use littleorgans.Session.Store.{
  SessionRow, SessionDraft, SpawnIntentStatus, pending, resolved, aborted, IntentRow, Database,
  StoreState,
}
use littleorgans.Session.Store.Rules.{Holds, Ends-Fetched}
use littleorgans.Session.Store.Sure.{fetch-Returns}
use littleorgans.Session.Store.Intents.{
  has_session, has_intent, is_pending, insert_intent, by_created_at, pending_rows,
  list_pending_spawn_intents,
}
use littleorgans.Session.Spawn.{
  Env, store_error, stored, spawn, reconcile_all, reconcile_pending_spawn_intents,
}
use littleorgans.Session.Spawn.Coherent.{SoundAt, Coherent}
use littleorgans.Session.Spawn.Spawns.{spawn-Coherent}
use littleorgans.Session.Spawn.Recovers.{Keeps-reconcile_pending_spawn_intent}
use littleorgans.Session.Spawn.Left.{Of}
use littleorgans.Session.Spawn.Faithful.{Faithful, Answering, Faithful-Coherent}
use littleorgans.Session.Spawn.Recovery.{Drafted, Ends-reconcile_all}

abbrev pub Any : ℕ → Type 0
Any id = Unit

-- The rows that a recovery reads.

inserted-Of :
    (j : ℕ) (i : IntentRow) (rows : List IntentRow)
    → has_intent j (insert_intent i rows) ≡ (i.session_id == j || has_intent j rows)
inserted-Of j i [] = refl
inserted-Of j i (r ∷ rs) = ground (arith, inserted-Of j i rs)

sorted-Of : (j : ℕ) (rows : List IntentRow) → has_intent j (by_created_at rows) ≡ has_intent j rows
sorted-Of j [] = refl
sorted-Of j (r ∷ rs) = rw (inserted-Of j r (by_created_at rs), sorted-Of j rs) refl

module _ (P : IntentRow → Type 0) where
  inserted-All :
      (i : IntentRow) (rows : List IntentRow) → P i → All P rows → All P (insert_intent i rows)
  inserted-All i [] p h = (p, tt)
  inserted-All i (r ∷ rs) p h = placed (leb i.created_at r.created_at) (inserted-All i rs p h.1)
    where
      placed :
          (b : Bool)
          → All P (insert_intent i rs)
          → All P (if b then i ∷ (r ∷ rs) else r ∷ insert_intent i rs)
      placed true rest = (p, h)
      placed false rest = (h.0, rest)

  sorted-All : (rows : List IntentRow) → All P rows → All P (by_created_at rows)
  sorted-All [] h = tt
  sorted-All (r ∷ rs) h = inserted-All r (by_created_at rs) h.0 (sorted-All rs h.1)

abbrev kept : List IntentRow → List IntentRow
kept rows = keep (λ i. is_pending i.status) rows

same_ids :
    (sessions : List SessionRow) (i : IntentRow) (status : SpawnIntentStatus)
    (rows : List IntentRow)
    → SoundAt Any sessions i status
    → Drafted rows
    → Drafted (if is_pending status then i ∷ rows else rows)
same_ids sessions i pending rows h k = (h.1, k)
same_ids sessions i resolved rows h k = k
same_ids sessions i aborted rows h k = k

same_ids_rows :
    (sessions : List SessionRow) (rows : List IntentRow)
    → All (λ i. SoundAt Any sessions i i.status) rows
    → Drafted (kept rows)
same_ids_rows sessions [] h = tt
same_ids_rows sessions (i ∷ is) h =
    same_ids sessions i i.status (kept is) h.0 (same_ids_rows sessions is h.1)

pending_rows-Drafted : (d : Database) → Coherent Any d → Drafted (pending_rows d)
pending_rows-Drafted d h =
    sorted-All (λ i. i.session_draft.id ≡ i.session_id) (kept d.intents)
      (same_ids_rows d.sessions d.intents h)

-- Every pending intent is among them.
listed_row :
    (sessions : List SessionRow) (all : List IntentRow) (i : IntentRow) (status : SpawnIntentStatus)
    → (is_pending status ≡ true → has_intent i.session_id (by_created_at all) ≡ true)
    → SoundAt Any sessions i status
    → SoundAt (Of (by_created_at all)) sessions i status
listed_row sessions all i pending listed h = (h.0, h.1, listed refl)
listed_row sessions all i resolved listed h = h
listed_row sessions all i aborted listed h = tt

listed_rows :
    (sessions : List SessionRow) (all rows : List IntentRow)
    → ((j : ℕ) → has_intent j (kept rows) ≡ true → has_intent j all ≡ true)
    → All (λ i. SoundAt Any sessions i i.status) rows
    → All (λ i. SoundAt (Of (by_created_at all)) sessions i i.status) rows
listed_rows sessions all [] sub h = tt
listed_rows sessions all (i ∷ is) sub h = (
  listed_row sessions all i i.status (λ e. sorted-Of i.session_id all ∙ sub i.session_id (here e))
      h.0,
  listed_rows sessions all is (λ j e. sub j (there j i.status e)) h.1,
)
  where
    here : is_pending i.status ≡ true → has_intent i.session_id (kept (i ∷ is)) ≡ true
    here e = rw e (ground arith)

    there :
        (j : ℕ) (status : SpawnIntentStatus)
        → has_intent j (kept is) ≡ true
        → has_intent j (if is_pending status then i ∷ kept is else kept is) ≡ true
    there j pending e = ground (arith, e)
    there j resolved e = e
    there j aborted e = e

pending_rows-Coherent : (d : Database) → Coherent Any d → Coherent (Of (pending_rows d)) d
pending_rows-Coherent d h = listed_rows d.sessions (kept d.intents) d.intents (λ j e. e) h

module _ (env : Env) (faithful : Faithful env) where
  abbrev C : StoreState → Type 0
  C = Holds (Coherent Any)

  Ends-pending : Ends C (stored (list_pending_spawn_intents env.conn)) (
      Mapped store_error C
        (list_pending_spawn_intents env.conn)
        (λ rows t. C t × (rows ≡ pending_rows t.db)))
  Ends-pending =
      map_err-Mapped store_error C _ _ _ (Ends-Fetched (Coherent Any) env.conn pending_rows)
        (λ rows t h. h) (λ e t h. h)

  Keeps-reconcile_all : (is : List IntentRow) → Drafted is → Keeps C (reconcile_all env is)
  unfolding reconcile_all
  Keeps-reconcile_all [] h = Keeps-pure _
  Keeps-reconcile_all (i ∷ is) h =
      Keeps-bind _ _
        (Keeps-attempted C _
          (Keeps-reconcile_pending_spawn_intent env Any (Faithful-Coherent env Any faithful) i h.0))
        (λ r. Keeps-reconcile_all is h.1)

  Ends-recovery : Ends C (reconcile_pending_spawn_intents env) (λ r t. C t)
  unfolding reconcile_pending_spawn_intents
  Ends-recovery =
      Ends-bind _ _ _ _ Ends-pending
        (λ rows. record {
          at = λ s h. (Keeps-reconcile_all rows (rw h.1 (pending_rows-Drafted s.db h.0))).at s h.0;
        })
        (λ e t h. h)

  Ends-answered :
      Answering env → Ends C (reconcile_pending_spawn_intents env) (λ r t. Coherent (Of []) t.db)
  unfolding reconcile_pending_spawn_intents
  Ends-answered answering =
      Ends-returned _ _ (λ rows t. C t × (rows ≡ pending_rows t.db)) _
        (map_err-Returns store_error _ _ _
          (fetch-Returns env.conn answering.answers (Coherent Any) pending_rows))
        (λ rows. record {
          at = λ s h.
              (Ends-reconcile_all env faithful answering rows
                  (rw h.1 (pending_rows-Drafted s.db h.0))).at
                s (rw h.1 (pending_rows-Coherent s.db h.0));
        })

-- One spawn of a fresh id, or one recovery, each with its own environment.
pub data Step : StoreState → StoreState → Type 0 where
  spawned :
      {s t : StoreState} (env : Env)
      → Faithful env
      → (operation_id : ℕ) (request : SpawnRequest) (draft : SessionDraft)
      → has_session draft.id s.db.sessions ≡ false
      → t ≡ (spawn env operation_id request draft s).1
      → Step s t
  recovered :
      {s t : StoreState} (env : Env)
      → Faithful env
      → t ≡ (reconcile_pending_spawn_intents env s).1
      → Step s t

-- The states that steps lead to from one without intents.
pub data Reached : StoreState → Type 0 where
  start : {s : StoreState} → s.db.intents ≡ [] → Reached s
  next : {s t : StoreState} → Reached s → Step s t → Reached t

Step-Coherent : (s t : StoreState) → Step s t → Coherent Any s.db → Coherent Any t.db
Step-Coherent s t (spawned env faithful operation_id request draft fresh e) h = rw e (
    spawn-Coherent env Any (Faithful-Coherent env Any faithful) operation_id request draft s tt
      fresh h)
Step-Coherent s t (recovered env faithful e) h = rw e ((Ends-recovery env faithful).at s h)

-- After any spawns and recoveries, with any failures of statements, commits and calls: an intent that
-- is pending has no session, and an intent that is resolved has its session.
pub reached-Coherent : (s : StoreState) → Reached s → Coherent Any s.db
reached-Coherent s (start e) = rw e tt
reached-Coherent t (next {s} reached step) = Step-Coherent s t step (reached-Coherent s reached)

-- An intent that is resolved and has its session, or is aborted.
abbrev pub DecidedAt : List SessionRow → IntentRow → SpawnIntentStatus → Type 0
DecidedAt sessions i pending = ⊥
DecidedAt sessions i resolved = has_session i.session_id sessions ≡ true
DecidedAt sessions i aborted = Unit

abbrev pub Decided : Database → Type 0
Decided d = All (λ i. DecidedAt d.sessions i i.status) d.intents

none_left : ¬ (false ≡ true)
none_left h = cc

decided_row :
    (sessions : List SessionRow) (i : IntentRow) (status : SpawnIntentStatus)
    → SoundAt (Of []) sessions i status
    → DecidedAt sessions i status
decided_row sessions i pending h = none_left h.2
decided_row sessions i resolved h = h
decided_row sessions i aborted h = tt

decided_rows :
    (sessions : List SessionRow) (rows : List IntentRow)
    → All (λ i. SoundAt (Of []) sessions i i.status) rows
    → All (λ i. DecidedAt sessions i i.status) rows
decided_rows sessions [] h = tt
decided_rows sessions (i ∷ is) h =
    (decided_row sessions i i.status h.0, decided_rows sessions is h.1)

-- After any spawns and recoveries, with any failures, a recovery that the database answers decides
-- every intent: it is resolved and has its session, or it is aborted.
pub recovery-Decided :
    (s : StoreState) (env : Env)
    → Reached s
    → Faithful env
    → Answering env
    → Decided (reconcile_pending_spawn_intents env s).1.db
recovery-Decided s env reached faithful answering =
    let t = (reconcile_pending_spawn_intents env s).1 in
    decided_rows t.db.sessions t.db.intents
      ((Ends-answered env faithful answering).at s (reached-Coherent s reached))
