-- ===== src/Runtime/EventLog/Append.antt =====
-- Every append keeps the invariant, whatever the operating system answers.
use mathlib.Core.List.{append_assoc, append-nil}
use littleorgans.Base.{
  ℕ, ◌+◌, ◌-◌, ◌<◌, ◌≤◌, ◌≡◌, refl, inl, inr, Bool, true, false, ◌&&◌, Option, none, some, List, [],
  ◌⊎◌, ◌∷◌, ◌++◌, arith, length, take, drop, length-drop, length-append, take-append-drop,
  if◌then◌else◌, All-append, Bool-cases,
}
use littleorgans.Base.Exec.{Result, ok, err, pure, ◌>>◌, bind_keeps}
use littleorgans.Runtime.Lifecycle.{RuntimeEvent}
use littleorgans.Runtime.Failure.{Failure}
use littleorgans.Runtime.EventLog.{
  EventLogEntry, EventLog, AppendIo, from_event, contains_key, retention_min_events, u64_max, claim,
  write_all, put, newline, push, sync_after, retain_from_index, compact_at, compact_by,
  compact_if_due, next_entry, settle, append_recorded_event,
}
use littleorgans.Runtime.EventLog.Invariant.{
  IsLog, Ascends-weaken, Ascends-snoc, Distinct-snoc, fresh_of_unseen, Seen-claim,
  contains_key-claim, key_of,
}

-- The replacement of the file goes through, where a compaction is made at all.
abbrev pub Compacts : AppendIo → Type 0
Compacts os = (os.create_ok && os.copy_ok && os.rename_ok && os.reopen_ok) ≡ true

-- Both writes of a record went through.
abbrev pub wrote : AppendIo → Bool
wrote os = elim os.record_cut [ none ↦ os.newline_ok | some _ ↦ false ]

-- The entries that an append adds to the history: one, unless the event was seen before or a
-- write failed.
unfoldable pub recorded : AppendIo → RuntimeEvent → ℕ → EventLog → List EventLogEntry
recorded os event ts_ms log =
    if contains_key (from_event event) log.seen_event_keys
    then []
    else if wrote os
    then record { seq = log.next_seq; ts_ms = ts_ms; event = event } ∷ []
    else []

retained_more :
    (dropped es : List EventLogEntry) (x : EventLogEntry)
    → (dropped ≡ []) ⊎ (retention_min_events ≤ length es)
    → (dropped ≡ []) ⊎ (retention_min_events ≤ length (es ++ x ∷ []))
retained_more dropped es x (inl none_dropped) = inl none_dropped
retained_more dropped es x (inr enough) = inr (rw (length-append es (x ∷ [])) (omega arith))

-- Steps that leave the entries, the keys and the counter as they are keep the invariant.
IsLog-same :
    (hist : List EventLogEntry) (a b : EventLog)
    → b.events ≡ a.events
    → b.seen_event_keys ≡ a.seen_event_keys
    → b.next_seq ≡ a.next_seq
    → IsLog hist a
    → IsLog hist b
IsLog-same hist a b p q r h = record {
  dropped = h.dropped;
  split = rw p h.split;
  retained = rw p h.retained;
  ascends = rw r h.ascends;
  seen = rw q h.seen;
  distinct = h.distinct;
}

pub retain_from_index_bounds :
    (now : Option ℕ) (es : List EventLogEntry) (n : ℕ)
    → retain_from_index now es ≡ ok (some n)
    → (n ≤ length es - retention_min_events) × (retention_min_events ≤ length es)
unfolding retain_from_index
retain_from_index_bounds now es n e = ground arith

module _ (encode : EventLogEntry → List ℕ) (os : AppendIo) where
  compact_at-IsLog :
      (hist : List EventLogEntry) (n : ℕ) (log : EventLog)
      → Compacts os
      → n ≤ length log.events - retention_min_events
      → retention_min_events ≤ length log.events
      → IsLog hist log
      → IsLog hist (compact_at encode os n log).1
  unfolding compact_at
  compact_at-IsLog hist n log good fits big h =
      let kept : IsLog hist (record log { events = drop n log.events }) = record {
        dropped = h.dropped ++ take n log.events;
        split = rw append_assoc (rw (take-append-drop n log.events) h.split);
        retained = inr (omega (arith, length-drop n log.events));
        ascends = h.ascends;
        seen = h.seen;
        distinct = h.distinct;
      } in
      IsLog-same hist (record log { events = drop n log.events }) _ (ground arith) (ground arith)
        (ground arith) kept

  compact_by-IsLog :
      (hist : List EventLogEntry) (r : Result Failure (Option ℕ)) (log : EventLog)
      → Compacts os
      → ((n : ℕ)
          → r ≡ ok (some n)
          → (n ≤ length log.events - retention_min_events)
            × (retention_min_events ≤ length log.events))
      → IsLog hist log
      → IsLog hist (compact_by encode os r log).1
  unfolding compact_by
  compact_by-IsLog hist (err e) log good fits h = h
  compact_by-IsLog hist (ok none) log good fits h = h
  compact_by-IsLog hist (ok (some n)) log good fits h =
      compact_at-IsLog hist n log good (fits n refl).0 (fits n refl).1 h

  compact_if_due-IsLog :
      (hist : List EventLogEntry) (log : EventLog)
      → Compacts os
      → IsLog hist log
      → IsLog hist (compact_if_due encode os log).1
  unfolding compact_if_due
  compact_if_due-IsLog hist log good h =
      compact_by-IsLog hist (retain_from_index os.now_ms log.events) log good
        (λ n e. retain_from_index_bounds os.now_ms log.events n e) h

  sync_after-IsLog :
      (hist : List EventLogEntry) (b : Bool) (log : EventLog)
      → IsLog hist log
      → IsLog hist (sync_after b os log).1
  unfolding sync_after
  sync_after-IsLog hist true log h =
      IsLog-same hist log _ (ground arith) (ground arith) (ground arith) h
  sync_after-IsLog hist false log h = h

  claim-IsLog :
      (hist : List EventLogEntry) (log : EventLog) (event : RuntimeEvent)
      → log.next_seq < u64_max
      → IsLog hist log
      → IsLog hist (claim (from_event event) log).1
  unfolding claim
  claim-IsLog hist log event room h = record {
    dropped = h.dropped;
    split = h.split;
    retained = h.retained;
    ascends = Ascends-weaken 0 log.next_seq _ hist (omega arith) h.ascends;
    seen = Seen-claim (from_event event) log.seen_event_keys hist h.seen;
    distinct = h.distinct;
  }

  -- The entry that was claimed is in place once both writes went through.
  push-IsLog :
      (hist : List EventLogEntry) (log : EventLog) (event : RuntimeEvent) (ts_ms : ℕ)
      → log.next_seq < u64_max
      → contains_key (from_event event) log.seen_event_keys ≡ false
      → IsLog hist log
      → (w : EventLog) → w.events ≡ log.events
      → w.seen_event_keys ≡ from_event event ∷ log.seen_event_keys
      → w.next_seq ≡ log.next_seq + 1
      → IsLog
          (hist ++ next_entry encode log event ts_ms ∷ [])
          (push (next_entry encode log event ts_ms) w).1
  unfolding push
  push-IsLog hist log event ts_ms room new h w p q r = record {
    dropped = h.dropped;
    split = rw (p, ← append_assoc, ← h.split) refl;
    retained =
        retained_more h.dropped w.events (next_entry encode log event ts_ms) (rw p h.retained);
    ascends =
        rw r (Ascends-snoc 0 log.next_seq hist (next_entry encode log event ts_ms) h.ascends refl);
    seen = rw q (
        All-append (λ e. contains_key (key_of e) (from_event event ∷ log.seen_event_keys) ≡ true)
          hist (next_entry encode log event ts_ms ∷ [])
          (Seen-claim (from_event event) log.seen_event_keys hist h.seen)
          (contains_key-claim (from_event event) log.seen_event_keys, tt));
    distinct =
        Distinct-snoc hist (next_entry encode log event ts_ms) h.distinct
          (fresh_of_unseen (from_event event) log.seen_event_keys hist new h.seen);
  }

  settle-IsLog :
      (hist : List EventLogEntry) (entry : EventLogEntry) (b : Bool) (w : EventLog)
      → Compacts os
      → IsLog hist (push entry w).1
      → IsLog hist (settle encode os entry b w).1
  unfolding settle
  settle-IsLog hist entry b w good h =
      bind_keeps (IsLog hist) (push entry)
        (λ _. sync_after b os >> (compact_if_due encode os >> pure entry.event)) w h
        (λ _ p hp.
          bind_keeps (IsLog hist) (sync_after b os)
            (λ _. compact_if_due encode os >> pure entry.event) p (sync_after-IsLog hist b p hp)
            (λ _ s hs.
              bind_keeps (IsLog hist) (compact_if_due encode os) (λ _. pure entry.event) s
                (compact_if_due-IsLog hist s good hs) (λ _ _ hc. hc)))

  writes-IsLog :
      (hist : List EventLogEntry) (log : EventLog) (event : RuntimeEvent) (ts_ms : ℕ) (b : Bool)
      (cut : Option ℕ) (nl : Bool)
      → Compacts os
      → log.next_seq < u64_max
      → contains_key (from_event event) log.seen_event_keys ≡ false
      → IsLog hist log
      → IsLog
          (hist
            ++ (if elim cut [ none ↦ nl | some _ ↦ false ]
                then next_entry encode log event ts_ms ∷ []
                else []))
          ((write_all (encode (next_entry encode log event ts_ms)) cut
              >> (write_all (newline ∷ []) (if nl then none else some 0)
                  >> settle encode os (next_entry encode log event ts_ms) b))
            (claim (from_event event) log).1).1
  unfolding write_all put
  writes-IsLog hist log event ts_ms b (some n) nl good room new h = rw append-nil (
      IsLog-same hist (claim (from_event event) log).1 _ (ground arith) (ground arith)
        (ground arith) (claim-IsLog hist log event room h))
  writes-IsLog hist log event ts_ms b none false good room new h = rw append-nil (
      IsLog-same hist (claim (from_event event) log).1 _ (ground arith) (ground arith)
        (ground arith) (claim-IsLog hist log event room h))
  writes-IsLog hist log event ts_ms b none true good room new h =
      settle-IsLog _ (next_entry encode log event ts_ms) b
        (put (newline ∷ [])
          (put (encode (next_entry encode log event ts_ms)) (claim (from_event event) log).1))
        good
        (push-IsLog hist log event ts_ms room new h
          (put (newline ∷ [])
            (put (encode (next_entry encode log event ts_ms)) (claim (from_event event) log).1))
          (unfold claim in ground arith) (unfold claim in ground arith)
          (unfold claim in ground arith))

  -- Below the last sequence number an append keeps the invariant, and the history grows by what it
  -- recorded, whatever the writes and the sync answer, but with a compaction that goes through: the
  -- log is a suffix of everything recorded, with increasing numbers, no key twice, and at least
  -- `retention_min_events` entries if any was ever dropped.
  pub append_recorded_event-IsLog :
      (hist : List EventLogEntry) (log : EventLog) (event : RuntimeEvent) (ts_ms : ℕ) (b : Bool)
      → Compacts os
      → log.next_seq < u64_max
      → IsLog hist log
      → IsLog
          (hist ++ recorded os event ts_ms log)
          (append_recorded_event encode os event ts_ms b log).1
  unfolding recorded append_recorded_event
  append_recorded_event-IsLog hist log event ts_ms b good room h =
      elim (Bool-cases (contains_key (from_event event) log.seen_event_keys)) [
        | inl old ↦ rw (old, append-nil) h
        | inr new ↦
            rw new (writes-IsLog hist log event ts_ms b os.record_cut os.newline_ok good room new h)
      ]
