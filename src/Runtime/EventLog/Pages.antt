-- ===== src/Runtime/EventLog/Pages.antt =====
-- What a client reads: a page that is not refused misses nothing that was ever recorded.
use mathlib.Core.List.{map-append}
use littleorgans.Base.{
  ℕ, ◌+◌, ◌<◌, ◌≤◌, ◌≡◌, refl, ap, ◌∙◌, ◌⊎◌, inl, inr, false, Option, some, List, [], ◌∷◌, ◌++◌,
  arith, length,
}
use littleorgans.Base.Exec.{ok}
use littleorgans.Runtime.EventLog.{
  retention_min_events, EventLogEntry, EventLog, EventLogPage, after, last_seq, events_of,
  events_since, unwrap_or_default, oldest_valid_cursor, is_before,
}
use littleorgans.Runtime.EventLog.Invariant.{IsLog, Ascends}

after-append : (c : ℕ) (xs ys : List EventLogEntry) → after c (xs ++ ys) ≡ after c xs ++ after c ys
after-append c [] ys = refl
after-append c (x ∷ xs) ys = ground (arith, after-append c xs ys)

last_seq-append :
    (c : ℕ) (xs ys : List EventLogEntry) → last_seq c (xs ++ ys) ≡ last_seq (last_seq c xs) ys
last_seq-append c [] ys = refl
last_seq-append c (x ∷ xs) ys = last_seq-append x.seq xs ys

last_seq-nonempty :
    (c d : ℕ) (xs : List EventLogEntry) → 0 < length xs → last_seq c xs ≡ last_seq d xs
last_seq-nonempty c d [] h = absurd (omega arith)
last_seq-nonempty c d (x ∷ xs) h = refl

-- The entries before one with a number are all passed by a cursor that reaches that number less one.
after-before :
    (c lo hi : ℕ) (xs ys : List EventLogEntry) (e : EventLogEntry)
    → Ascends lo (xs ++ e ∷ ys) hi
    → e.seq ≤ c + 1
    → (after c xs ≡ []) × (lo < e.seq)
after-before c lo hi [] ys e a h = (refl, a.0)
after-before c lo hi (x ∷ xs) ys e a h =
    let (rest, low) = after-before c x.seq hi xs ys e a.1 h in ground arith

pub le-last_seq :
    (lo hi : ℕ) (xs ys : List EventLogEntry) → Ascends lo (xs ++ ys) hi → lo ≤ last_seq lo xs
le-last_seq lo hi [] ys a = omega arith
le-last_seq lo hi (x ∷ xs) ys a = omega (arith, le-last_seq x.seq hi xs ys a.1)

-- Nothing comes after the last number.
after-last :
    (c lo hi : ℕ) (xs ys : List EventLogEntry)
    → Ascends lo (xs ++ ys) hi
    → last_seq lo xs ≤ c
    → after c xs ≡ []
after-last c lo hi [] ys a h = refl
after-last c lo hi (x ∷ xs) ys a h =
    let rest = after-last c x.seq hi xs ys a.1 h in
    let low = le-last_seq x.seq hi xs ys a.1 in ground arith

-- All comes after a number below the first.
after-all : (c lo hi : ℕ) (xs : List EventLogEntry) → Ascends lo xs hi → c ≤ lo → after c xs ≡ xs
after-all c lo hi [] a h = refl
after-all c lo hi (x ∷ xs) a h = ground (arith, after-all c x.seq hi xs a.1)

Ascends-rest :
    (lo hi : ℕ) (xs ys : List EventLogEntry)
    → Ascends lo (xs ++ ys) hi
    → Ascends (last_seq lo xs) ys hi
Ascends-rest lo hi [] ys a = a
Ascends-rest lo hi (x ∷ xs) ys a = Ascends-rest x.seq hi xs ys a.1

pub last_seq-start :
    (c : ℕ) (xs : List EventLogEntry) → c ≤ last_seq 0 xs → last_seq c xs ≡ last_seq 0 xs
last_seq-start c [] h = omega arith
last_seq-start c (x ∷ xs) h = refl

some_retained :
    (dropped es : List EventLogEntry)
    → (dropped ≡ []) ⊎ (retention_min_events ≤ length es)
    → (dropped ≡ []) ⊎ (0 < length es)
some_retained dropped es (inl none_dropped) = inl none_dropped
some_retained dropped es (inr enough) = inr (omega arith)

-- A cursor that is not refused has passed all that was dropped.
valid_cursor :
    (c hi : ℕ) (dropped es : List EventLogEntry)
    → (dropped ≡ []) ⊎ (0 < length es)
    → Ascends 0 (dropped ++ es) hi
    → is_before c (oldest_valid_cursor es) ≡ false
    → (after c es ≡ after c (dropped ++ es)) × (last_seq c es ≡ last_seq c (dropped ++ es))
unfolding oldest_valid_cursor
valid_cursor c hi dropped [] (inl none_dropped) a h = rw none_dropped (refl, refl)
valid_cursor c hi dropped [] (inr some_kept) a h = absurd (omega arith)
valid_cursor c hi dropped (e ∷ es) r a h =
    let (passed, low) = after-before c 0 hi dropped es e a (ground arith) in
    (
      rw (after-append c dropped (e ∷ es), passed) refl,
      rw (last_seq-append c dropped (e ∷ es)) refl,
    )

events_since_ok :
    (log : EventLog) (since : Option ℕ) (page : EventLogPage)
    → events_since log since ≡ ok page
    → (is_before (unwrap_or_default since) (oldest_valid_cursor log.events) ≡ false)
      × (page ≡ record {
        events = events_of (after (unwrap_or_default since) log.events);
        cursor = last_seq (unwrap_or_default since) log.events;
      })
unfolding events_since
events_since_ok log since page e = ground arith

-- A page that is not refused holds, in order, every event ever recorded after the cursor, those
-- before the last compaction included, and its cursor is the number of the last one ever recorded
-- (the given cursor where there is none): the test for an expired cursor hides no loss.
pub events_since_exact :
    (history : List EventLogEntry) (log : EventLog) (since : Option ℕ) (page : EventLogPage)
    → IsLog history log
    → events_since log since ≡ ok page
    → (page.events ≡ events_of (after (unwrap_or_default since) history))
      × (page.cursor ≡ last_seq (unwrap_or_default since) history)
events_since_exact history log since page h e =
    let c = unwrap_or_default since in
    let (valid, is) = events_since_ok log since page e in
    let (same, last) =
      valid_cursor c log.next_seq h.dropped log.events
        (some_retained h.dropped log.events h.retained) (rw h.split at h.ascends) valid in
    rw h.split (rw (← same, ← last) (ap (λ p. p.events) is, ap (λ p. p.cursor) is))

le-last : (lo hi : ℕ) (xs : List EventLogEntry) → Ascends lo xs hi → lo ≤ last_seq lo xs
le-last lo hi [] a = omega arith
le-last lo hi (x ∷ xs) a = omega (arith, le-last x.seq hi xs a.1)

le_of_history :
    (hi : ℕ) (history more : List EventLogEntry)
    → Ascends 0 (history ++ more) hi
    → last_seq 0 history ≤ last_seq 0 (history ++ more)
le_of_history hi history more a =
    rw (last_seq-append 0 history more)
      (le-last (last_seq 0 history) hi more (Ascends-rest 0 hi history more a))

after_resume :
    (c hi : ℕ) (history more : List EventLogEntry)
    → Ascends 0 (history ++ more) hi
    → c ≤ last_seq 0 history
    → (after (last_seq 0 history) (history ++ more) ≡ more)
      × (after c (history ++ more) ≡ after c history ++ more)
after_resume c hi history more a le =
    let rest = Ascends-rest 0 hi history more a in
    (
      rw
          (
            after-append (last_seq 0 history) history more,
            after-last (last_seq 0 history) 0 hi history more a (omega arith),
            after-all (last_seq 0 history) (last_seq 0 history) hi more rest (omega arith),
          )
          refl,
      rw (after-append c history more, after-all c (last_seq 0 history) hi more rest le) refl,
    )

-- Two polls, the second from the cursor of the first, together read every event recorded after the
-- first cursor once and in order, whatever was recorded and dropped between them, if neither poll
-- is refused and the first cursor is not beyond the history.
pub events_since_resume :
    (history more : List EventLogEntry) (log log' : EventLog) (c : ℕ) (page page' : EventLogPage)
    → IsLog history log
    → IsLog (history ++ more) log'
    → c ≤ last_seq 0 history
    → events_since log (some c) ≡ ok page
    → events_since log' (some page.cursor) ≡ ok page'
    → (page.events ++ page'.events ≡ events_of (after c (history ++ more)))
      × (page'.cursor ≡ last_seq 0 (history ++ more))
events_since_resume history more log log' c page page' h h' le e e' =
    let (p, q) = events_since_exact history log (some c) page h e in
    let (p', q') = events_since_exact (history ++ more) log' (some page.cursor) page' h' e' in
    let last : page.cursor ≡ last_seq 0 history = q ∙ last_seq-start c history le in
    let (first, second) = after_resume c log'.next_seq history more h'.ascends le in
    (
      rw (p, p', last, first, second, map-append) refl,
      q'
          ∙ rw last (
              last_seq-start (last_seq 0 history) (history ++ more)
                (le_of_history log'.next_seq history more h'.ascends)),
    )
