-- ===== src/Session/Feed/Log.antt =====
-- The runtime daemon's event log is a source of events, and its pages are pages of that source.
use mathlib.Core.List.{map-append}
use littleorgans.Base.{
  ℕ, ◌≤◌, ◌≡◌, refl, ◌∙◌, ap, Bool, Bool-cases, inl, inr, true, false, ◌&&◌, Option, List, [], ◌∷◌,
  ◌++◌, arith, All, leb, ltb, keep, if◌then◌else◌,
}
use littleorgans.Base.Exec.{ok}
use littleorgans.Runtime.EventLog.{
  EventLogEntry, EventLog, EventLogPage, unwrap_or_default, events_since, events_of, after,
  last_seq, from_event, same_key,
}
use littleorgans.Runtime.EventLog.Invariant.{Ascends, Distinct, IsLog, key_of}
use littleorgans.Runtime.EventLog.Pages.{events_since_exact, le-last_seq, last_seq-start}
use littleorgans.Session.Store.Events.Rows.{DistinctEvents}
use littleorgans.Session.Feed.{events}
use littleorgans.Session.Feed.Follows.{EventSource, IsPage}

abbrev pub is_between : ℕ → ℕ → EventLogEntry → Bool
is_between a b e = ltb a e.seq && leb e.seq b

abbrev pub between : ℕ → ℕ → List EventLogEntry → List EventLogEntry
between a b es = keep (is_between a b) es

between_none :
    (a b lo hi : ℕ) (es : List EventLogEntry) → Ascends lo es hi → b ≤ lo → between a b es ≡ []
between_none a b lo hi [] asc le = refl
between_none a b lo hi (e ∷ es) asc le =
    ground (arith, between_none a b e.seq hi es asc.1 (omega arith))

pub between-append :
    (a b c lo hi : ℕ) (es : List EventLogEntry)
    → Ascends lo es hi
    → a ≤ b
    → b ≤ c
    → between a c es ≡ between a b es ++ between b c es
between-append a b c lo hi [] asc ab bc = refl
between-append a b c lo hi (e ∷ es) asc ab bc = elim (Bool-cases (leb e.seq b)) [
  | inl low ↦ ground (arith, between-append a b c e.seq hi es asc.1 ab bc)
  | inr high ↦
      let rest = between-append a b c e.seq hi es asc.1 ab bc in
      let empty = between_none a b e.seq hi es asc.1 (ground arith) in ground arith
]

module _ {ℓ} (P : EventLogEntry → Type ℓ) (p : EventLogEntry → Bool) where
  All-keep : (es : List EventLogEntry) → All P es → All P (keep p es)
  All-keep [] h = tt
  All-keep (e ∷ es) h = elim (p e) as (λ b. All P (if b then e ∷ keep p es else keep p es)) [
    | true ↦ (h.0, All-keep es h.1)
    | false ↦ All-keep es h.1
  ]

All-events :
    (e : EventLogEntry) (es : List EventLogEntry)
    → All (λ f. same_key (key_of e) (key_of f) ≡ false) es
    → All (λ f. same_key (from_event e.event) (from_event f) ≡ false) (events_of es)
All-events e [] h = tt
All-events e (f ∷ es) h = (h.0, All-events e es h.1)

pub Distinct-keep :
    (p : EventLogEntry → Bool) (es : List EventLogEntry)
    → Distinct es
    → DistinctEvents (events_of (keep p es))
Distinct-keep p [] d = tt
Distinct-keep p (e ∷ es) d =
    elim (p e) as (λ b. DistinctEvents (events_of (if b then e ∷ keep p es else keep p es))) [
      | true ↦ (
        All-events e (keep p es) (All-keep (λ f. same_key (key_of e) (key_of f) ≡ false) p es d.0),
        Distinct-keep p es d.1,
      )
      | false ↦ Distinct-keep p es d.1
    ]

-- The log's whole history as a source.
unfoldable pub log_source :
    (history : List EventLogEntry) (hi : ℕ) → Ascends 0 history hi → Distinct history → EventSource
log_source history hi asc d = record {
  span = λ a b. events_of (between a b history);
  span-append =
      λ a b c ab bc. ap events_of (between-append a b c 0 hi history asc ab bc) ∙ map-append _ _ _;
  distinct = λ n. Distinct-keep (is_between 0 n) history d;
}

between-page :
    (c lo hi : ℕ) (xs ys : List EventLogEntry)
    → Ascends lo (xs ++ ys) hi
    → between c (last_seq lo xs) (xs ++ ys) ≡ after c xs
between-page c lo hi [] ys asc = between_none c lo lo hi ys asc (omega arith)
between-page c lo hi (x ∷ xs) ys asc =
    let rest = between-page c x.seq hi xs ys asc.1 in
    let low = le-last_seq x.seq hi xs ys asc.1 in ground arith

-- What `events_since` answers to a cursor that the log has reached is a page of the log's whole
-- history, with the entries that a compaction dropped and those that are recorded later.
pub events_since-IsPage :
    (history more : List EventLogEntry) (hi : ℕ) (asc : Ascends 0 (history ++ more) hi)
    (d : Distinct (history ++ more)) (log : EventLog) (since : Option ℕ) (page : EventLogPage)
    → IsLog history log
    → unwrap_or_default since ≤ last_seq 0 history
    → events_since log since ≡ ok page
    → IsPage
        (log_source (history ++ more) hi asc d)
        (unwrap_or_default since)
        (events page.events page.cursor)
unfolding log_source
events_since-IsPage history more hi asc d log since page h le e =
    let (same, cursor) = events_since_exact history log since page h e in
    let last = cursor ∙ last_seq-start (unwrap_or_default since) history le in
    (rw last le, rw (same, last, between-page (unwrap_or_default since) 0 hi history more asc) refl)
