-- ===== src/Runtime/EventLog/Counts.antt =====
-- How many entries of a kind an append may add to the log, whatever the operating system answers.
use littleorgans.Base.{
  ℕ, zero, suc, ◌+◌, ◌≤◌, ◌≡◌, refl, Bool, true, false, Option, none, some, List, [], ◌∷◌, ◌++◌,
  if◌then◌else◌, arith, take, drop, Bool-cases, inl, inr,
}
use littleorgans.Base.Exec.{Result, ok, err, pure, ◌>>◌, bind_keeps, bind_ends}
use littleorgans.Runtime.Lifecycle.{RuntimeEvent}
use littleorgans.Runtime.Failure.{Failure}
use littleorgans.Runtime.EventLog.{
  EventLogEntry, EventLog, AppendIo, claim, write_all, put, push, sync_if_due, sync_after,
  compact_at, compact_by, compact_if_due, next_entry, settle, record_entry, append_recorded_event,
  append, newline, contains_key, from_event, retain_from_index,
}

module _ (p : RuntimeEvent → Bool) where
  -- The number of entries whose event passes the test.
  unfoldable pub count : List EventLogEntry → ℕ
  count [] = 0
  count (e ∷ es) = (if p e.event then 1 else 0) + count es

  pub count-append : (xs ys : List EventLogEntry) → count (xs ++ ys) ≡ count xs + count ys
  unfolding count
  count-append [] ys = ground arith
  count-append (x ∷ xs) ys = ground (arith, count-append xs ys)

  count-take : (n : ℕ) (xs : List EventLogEntry) → count (take n xs) ≤ count xs
  unfolding count
  count-take zero xs = ground arith
  count-take (suc n) [] = ground arith
  count-take (suc n) (x ∷ xs) = ground (arith, count-take n xs)

  count-drop : (n : ℕ) (xs : List EventLogEntry) → count (drop n xs) ≤ count xs
  unfolding count
  count-drop zero xs = ground arith
  count-drop (suc n) [] = ground arith
  count-drop (suc n) (x ∷ xs) = ground (arith, count-drop n xs)

  AtMost : ℕ → EventLog → Type 0
  AtMost n log = count log.events ≤ n

  module _ (encode : EventLogEntry → List ℕ) (os : AppendIo) (n : ℕ) where
    compact_at-AtMost :
        (k : ℕ) (log : EventLog) → AtMost n log → AtMost n (compact_at encode os k log).1
    unfolding compact_at AtMost
    compact_at-AtMost k log h = ground (arith, count-take k log.events, count-drop k log.events)

    compact_by-AtMost :
        (r : Result Failure (Option ℕ)) (log : EventLog)
        → AtMost n log
        → AtMost n (compact_by encode os r log).1
    unfolding compact_by
    compact_by-AtMost (err e) log h = h
    compact_by-AtMost (ok none) log h = h
    compact_by-AtMost (ok (some k)) log h = compact_at-AtMost k log h

    sync_after-AtMost :
        (b : Bool) (log : EventLog) → AtMost n log → AtMost n (sync_after b os log).1
    unfolding sync_after sync_if_due AtMost
    sync_after-AtMost true log h = ground arith
    sync_after-AtMost false log h = h

    settle-AtMost :
        (entry : EventLogEntry) (b : Bool) (log : EventLog)
        → AtMost n (push entry log).1
        → AtMost n (settle encode os entry b log).1
    unfolding settle compact_if_due
    settle-AtMost entry b log h =
        bind_keeps (AtMost n) (push entry)
          (λ _. sync_after b os >> (compact_if_due encode os >> pure entry.event)) log h
          (λ _ t k.
            bind_keeps (AtMost n) (sync_after b os)
              (λ _. compact_if_due encode os >> pure entry.event) t (sync_after-AtMost b t k)
              (λ _ u k'.
                bind_keeps (AtMost n) (compact_if_due encode os) (λ _. pure entry.event) u
                  (compact_by-AtMost (retain_from_index os.now_ms u.events) u k') (λ _ v k''. k'')))

  module _ (encode : EventLogEntry → List ℕ) (os : AppendIo) where
    -- Steps before the entry is pushed leave the entries as they are.
    Same : EventLog → EventLog → Type 0
    Same a b = b.events ≡ a.events

    write_all-Same :
        (bytes : List ℕ) (cut : Option ℕ) (a b : EventLog)
        → Same a b
        → Same a (write_all bytes cut b).1
    unfolding write_all put Same
    write_all-Same bytes none a b h = ground arith
    write_all-Same bytes (some k) a b h = ground arith

    pushed :
        (entry : EventLogEntry) (a b : EventLog)
        → Same a b
        → AtMost (count a.events + (if p entry.event then 1 else 0)) (push entry b).1
    unfolding push Same AtMost count
    pushed entry a b h = rw (h, count-append a.events (entry ∷ [])) (ground arith)

    Same-AtMost :
        (entry : EventLogEntry) (a b : EventLog)
        → Same a b
        → AtMost (count a.events + (if p entry.event then 1 else 0)) b
    unfolding Same AtMost
    Same-AtMost entry a b h = rw h (omega arith)

    record_entry-AtMost :
        (entry : EventLogEntry) (b : Bool) (log : EventLog)
        → AtMost
            (count log.events + (if p entry.event then 1 else 0))
            (record_entry encode os entry b log).1
    unfolding record_entry claim
    record_entry-AtMost entry b log =
        let n = count log.events + (if p entry.event then 1 else 0) in
        let newline_cut = if os.newline_ok then none else some 0 in
        let weaken : (t : EventLog) → Same log t → AtMost n t = λ t h. Same-AtMost entry log t h in
        bind_ends (Same log) (AtMost n) (write_all (encode entry) os.record_cut)
          (λ _. write_all (newline ∷ []) newline_cut >> settle encode os entry b)
          (claim (from_event entry.event) log).1
          (write_all-Same (encode entry) os.record_cut log _ (unfold Same in refl)) weaken
          (λ _ t h.
            bind_ends (Same log) (AtMost n) (write_all (newline ∷ []) newline_cut)
              (λ _. settle encode os entry b) t (write_all-Same (newline ∷ []) newline_cut log t h)
              weaken (λ _ u k. settle-AtMost encode os n entry b u (pushed entry log u k)))

    -- An append adds to the entries that pass a test at most the new one, and that one only if its
    -- event passes.
    pub append-count :
        (now : Option ℕ) (event : RuntimeEvent) (log : EventLog)
        → count (append encode os now event log).1.events
          ≤ count log.events + (if p event then 1 else 0)
    unfolding append append_recorded_event AtMost
    append-count none event log = ground arith
    append-count (some ts_ms) event log =
        elim (Bool-cases (contains_key (from_event event) log.seen_event_keys)) [
          | inl old ↦ rw old (ground arith)
          | inr new ↦ rw new (record_entry-AtMost (next_entry encode log event ts_ms) true log)
        ]
