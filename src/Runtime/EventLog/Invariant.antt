-- ===== src/Runtime/EventLog/Invariant.antt =====
-- The invariant of an event log against the history of all that it ever recorded.
use littleorgans.Base.{
  ℕ, ◌+◌, ◌<◌, ◌≤◌, ◌≡◌, ◌⊎◌, inl, inr, true, false, List, [], ◌∷◌, ◌++◌, arith, length, All,
  All-append, All-map, Bool-cases,
}
use littleorgans.Runtime.EventLog.{
  EventLogEntry, EventLog, EventLogKey, from_event, same_key, contains_key, retention_min_events,
}

-- Sequence numbers rise strictly, from above `lo` to below `hi`.
abbrev pub Ascends : ℕ → List EventLogEntry → ℕ → Type 0
Ascends lo [] hi = lo < hi
Ascends lo (e ∷ es) hi = (lo < e.seq) × Ascends e.seq es hi

abbrev pub key_of : EventLogEntry → EventLogKey
key_of e = from_event e.event

-- No two entries have the same session and kind of event.
abbrev pub Distinct : List EventLogEntry → Type 0
Distinct [] = Unit
Distinct (e ∷ es) = All (λ f. same_key (key_of e) (key_of f) ≡ false) es × Distinct es

abbrev pub Seen : List EventLogKey → List EventLogEntry → Type 0
Seen seen es = All (λ e. contains_key (key_of e) seen ≡ true) es

-- `history` holds all entries ever recorded, oldest first, those that a compaction dropped too.
pub record IsLog (history : List EventLogEntry) (log : EventLog) : Type 0 where
  pub dropped : List EventLogEntry
  pub split : history ≡ dropped ++ log.events
  pub retained : (dropped ≡ []) ⊎ (retention_min_events ≤ length log.events)
  pub ascends : Ascends 0 history log.next_seq
  pub seen : Seen log.seen_event_keys history
  pub distinct : Distinct history

pub Ascends-weaken :
    (lo hi hi' : ℕ) (es : List EventLogEntry) → hi ≤ hi' → Ascends lo es hi → Ascends lo es hi'
Ascends-weaken lo hi hi' [] h a = omega arith
Ascends-weaken lo hi hi' (e ∷ es) h a = (a.0, Ascends-weaken e.seq hi hi' es h a.1)

pub Ascends-snoc :
    (lo hi : ℕ) (es : List EventLogEntry) (x : EventLogEntry)
    → Ascends lo es hi
    → x.seq ≡ hi
    → Ascends lo (es ++ x ∷ []) (hi + 1)
Ascends-snoc lo hi [] x a q = (omega arith, omega arith)
Ascends-snoc lo hi (e ∷ es) x a q = (a.0, Ascends-snoc e.seq hi es x a.1 q)

pub Distinct-snoc :
    (es : List EventLogEntry) (x : EventLogEntry)
    → Distinct es
    → All (λ e. same_key (key_of e) (key_of x) ≡ false) es
    → Distinct (es ++ x ∷ [])
Distinct-snoc [] x d f = (tt, tt)
Distinct-snoc (e ∷ es) x d f = (
  All-append (λ g. same_key (key_of e) (key_of g) ≡ false) es (x ∷ []) d.0 (f.0, tt),
  Distinct-snoc es x d.1 f.1,
)

same_key-eq : (a b : EventLogKey) → same_key a b ≡ true → a ≡ b
same_key-eq a b h = ground arith

pub same_key_refl : (a : EventLogKey) → same_key a a ≡ true
same_key_refl a = ground arith

-- An unseen key is none of those in the history.
pub fresh_of_unseen :
    (k : EventLogKey) (seen : List EventLogKey) (es : List EventLogEntry)
    → contains_key k seen ≡ false
    → Seen seen es
    → All (λ e. same_key (key_of e) k ≡ false) es
fresh_of_unseen k seen es h =
    All-map
      (λ e p. elim (Bool-cases (same_key (key_of e) k)) [
        | inl same ↦ cc (same_key-eq (key_of e) k same)
        | inr other ↦ other
      ])
      es

pub Seen-claim :
    (k : EventLogKey) (seen : List EventLogKey) (es : List EventLogEntry)
    → Seen seen es
    → Seen (k ∷ seen) es
unfolding contains_key
Seen-claim k seen es = All-map (λ e p. ground arith) es

pub contains_key-claim :
    (k : EventLogKey) (seen : List EventLogKey) → contains_key k (k ∷ seen) ≡ true
unfolding contains_key
contains_key-claim k seen = ground (arith, same_key_refl k)
