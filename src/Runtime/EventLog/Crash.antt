-- ===== src/Runtime/EventLog/Crash.antt =====
-- What stands in the file at any end of an append, the failures included, and what `open` reads
-- back from it.
use mathlib.Core.List.{append_assoc, append-nil}
use littleorgans.Base.{
  ℕ, ◌-◌, ◌<◌, ◌≤◌, ◌≡◌, refl, ◌∙◌, Bool, true, false, ◌&&◌, Option, none, some, List, [], ◌∷◌,
  ◌++◌, arith, length, take, drop, if◌then◌else◌, All-take, Bool-cases, inl, inr,
}
use littleorgans.Base.Exec.{Result, ok, err, pure, ◌>>◌, bind_ends}
use littleorgans.Runtime.Lifecycle.{RuntimeEvent}
use littleorgans.Runtime.Failure.{Failure}
use littleorgans.Runtime.EventLog.{
  EventLogEntry, EventLog, AppendIo, from_event, contains_key, retention_min_events, newline, image,
  claim, write_all, put, push, sync_after, retain_from_index, compact_at, compact_by,
  compact_if_due, next_entry, settle, append_recorded_event,
}
use littleorgans.Runtime.EventLog.Append.{recorded, retain_from_index_bounds}
use littleorgans.Runtime.EventLog.Recovery.{open_log}
use littleorgans.Runtime.EventLog.Recovery.Bytes.{Printable}
use littleorgans.Runtime.EventLog.Recovery.Image.{IsCodec, reopened, open_log-image}

module _ (encode : EventLogEntry → List ℕ) where
  -- The file holds the entries in memory and nothing else.
  pub record IsClean (es : List EventLogEntry) (log : EventLog) : Type 0 where
    pub linked : log.linked ≡ true
    pub bytes : log.disk ≡ image encode es
    pub entries : log.events ≡ es

  -- The file holds the entries but for the `compacted` oldest, and a part of one more line.
  pub record Survives (es : List EventLogEntry) (log : EventLog) : Type 0 where
    pub compacted : ℕ
    pub torn : List ℕ
    pub bytes : log.disk ≡ image encode (drop compacted es) ++ torn
    pub torn_printable : Printable torn
    pub few : compacted ≤ length es - retention_min_events

  whole : (es : List EventLogEntry) (log : EventLog) → log.disk ≡ image encode es → Survives es log
  whole es log h = record {
    compacted = 0;
    torn = [];
    bytes = h ∙ rw append-nil refl;
    torn_printable = tt;
    few = omega arith;
  }

  image-append :
      (xs ys : List EventLogEntry) → image encode (xs ++ ys) ≡ image encode xs ++ image encode ys
  unfolding image
  image-append [] ys = refl
  image-append (x ∷ xs) ys = rw (image-append xs ys, append_assoc) refl

  module _ (os : AppendIo) where
    compact_at-Survives :
        (es : List EventLogEntry) (n : ℕ) (log : EventLog)
        → n ≤ length es - retention_min_events
        → IsClean es log
        → Survives es (compact_at encode os n log).1
    unfolding compact_at
    compact_at-Survives es n log fits h =
        elim (Bool-cases (os.create_ok && os.copy_ok && os.rename_ok)) [
          | inr failed ↦ rw failed (whole es (record log { events = take n log.events }) h.bytes)
          | inl placed ↦ rw placed (record {
            compacted = n;
            torn = [];
            bytes = rw append-nil (ground arith);
            torn_printable = tt;
            few = fits;
          })
        ]

    compact_by-Survives :
        (es : List EventLogEntry) (r : Result Failure (Option ℕ)) (log : EventLog)
        → ((n : ℕ) → r ≡ ok (some n) → n ≤ length es - retention_min_events)
        → IsClean es log
        → Survives es (compact_by encode os r log).1
    unfolding compact_by
    compact_by-Survives es (err e) log fits h = whole es log h.bytes
    compact_by-Survives es (ok none) log fits h = whole es log h.bytes
    compact_by-Survives es (ok (some n)) log fits h = compact_at-Survives es n log (fits n refl) h

    clean-Survives : (es : List EventLogEntry) (log : EventLog) → IsClean es log → Survives es log
    clean-Survives es log h = whole es log h.bytes

    sync_after-IsClean :
        (es : List EventLogEntry) (b : Bool) (log : EventLog)
        → IsClean es log
        → IsClean es (sync_after b os log).1
    unfolding sync_after
    sync_after-IsClean es true log h = record {
      linked = ground arith;
      bytes = ground arith;
      entries = ground arith;
    }
    sync_after-IsClean es false log h = h

    compact_if_due-Survives :
        (es : List EventLogEntry) (log : EventLog)
        → IsClean es log
        → Survives es (compact_if_due encode os log).1
    unfolding compact_if_due
    compact_if_due-Survives es log h =
        compact_by-Survives es (retain_from_index os.now_ms log.events) log
          (λ n e. rw h.entries at ((retain_from_index_bounds os.now_ms log.events n e).0)) h

    settle-Survives :
        (es : List EventLogEntry) (entry : EventLogEntry) (b : Bool) (w : EventLog)
        → IsClean es (push entry w).1
        → Survives es (settle encode os entry b w).1
    unfolding settle
    settle-Survives es entry b w h =
        bind_ends (IsClean es) (Survives es) (push entry)
          (λ _. sync_after b os >> (compact_if_due encode os >> pure entry.event)) w h
          (clean-Survives es)
          (λ _ p hp.
            bind_ends (IsClean es) (Survives es) (sync_after b os)
              (λ _. compact_if_due encode os >> pure entry.event) p (sync_after-IsClean es b p hp)
              (clean-Survives es)
              (λ _ s hs.
                bind_ends (Survives es) (Survives es) (compact_if_due encode os)
                  (λ _. pure entry.event) s (compact_if_due-Survives es s hs) (λ _ k. k)
                  (λ _ _ k. k)))

    module _ (printable : (e : EventLogEntry) → Printable (encode e)) where
      writes-Survives :
          (es : List EventLogEntry) (log : EventLog) (event : RuntimeEvent) (ts_ms : ℕ) (b : Bool)
          (cut : Option ℕ) (nl : Bool)
          → IsClean es log
          → Survives
              (es
                ++ (if elim cut [ none ↦ nl | some _ ↦ false ]
                    then next_entry encode log event ts_ms ∷ []
                    else []))
              ((write_all (encode (next_entry encode log event ts_ms)) cut
                  >> (write_all (newline ∷ []) (if nl then none else some 0)
                      >> settle encode os (next_entry encode log event ts_ms) b))
                (claim (from_event event) log).1).1
      unfolding write_all claim put
      writes-Survives es log event ts_ms b (some n) nl h =
          let line = encode (next_entry encode log event ts_ms) in
          rw append-nil (record {
            compacted = 0;
            torn = take n line;
            bytes = rw (h.linked, h.bytes) refl;
            torn_printable =
                All-take (λ c. 31 < c) n line (printable (next_entry encode log event ts_ms));
            few = omega arith;
          })
      writes-Survives es log event ts_ms b none false h = rw append-nil (record {
        compacted = 0;
        torn = encode (next_entry encode log event ts_ms);
        bytes = rw (h.linked, h.bytes) (rw append-nil refl);
        torn_printable = printable (next_entry encode log event ts_ms);
        few = omega arith;
      })
      writes-Survives es log event ts_ms b none true h =
          settle-Survives (es ++ next_entry encode log event ts_ms ∷ [])
            (next_entry encode log event ts_ms) b
            (put (newline ∷ [])
              (put (encode (next_entry encode log event ts_ms)) (claim (from_event event) log).1))
            (record {
              linked = unfold push in ground arith;
              bytes =
                  unfold push in
                  rw
                    (
                      h.linked,
                      h.bytes,
                      image-append es (next_entry encode log event ts_ms ∷ []),
                      append_assoc,
                    )
                    (unfold image in refl);
              entries = unfold push in rw (h.linked, h.entries) refl;
            })

      -- At the end of an append, whatever the operating system answered to each of its calls, the
      -- file holds the recorded entries, less a compacted prefix, and at most a torn line.
      pub append_recorded_event-Survives :
          (es : List EventLogEntry) (log : EventLog) (event : RuntimeEvent) (ts_ms : ℕ) (b : Bool)
          → IsClean es log
          → Survives
              (es ++ recorded os event ts_ms log)
              (append_recorded_event encode os event ts_ms b log).1
      unfolding append_recorded_event recorded
      append_recorded_event-Survives es log event ts_ms b h =
          elim (Bool-cases (contains_key (from_event event) log.seen_event_keys)) [
            | inl old ↦ rw (old, append-nil) (clean-Survives es log h)
            | inr new ↦ rw new (writes-Survives es log event ts_ms b os.record_cut os.newline_ok h)
          ]

-- A daemon that stops right after an append, whatever the operating system answered to each call
-- of that append, even in the middle of a line, opens its log again with exactly the entries
-- recorded so far, the new one included if both its writes went through, but for a prefix that a
-- compaction dropped, at most what exceeds the retained number of events.
pub open_log-append :
    (encode : EventLogEntry → List ℕ) (parse : List ℕ → Option EventLogEntry)
    → IsCodec encode parse
    → (os : AppendIo) (es : List EventLogEntry) (log : EventLog) (event : RuntimeEvent)
      (ts_ms now : ℕ) (b : Bool)
    → IsClean encode es log
    → (compacted : ℕ) × (open_log parse true now
          (append_recorded_event encode os event ts_ms b log).1.disk
        ≡ ok (reopened encode now (drop compacted (es ++ recorded os event ts_ms log))))
      × (compacted ≤ length (es ++ recorded os event ts_ms log) - retention_min_events)
open_log-append encode parse codec os es log event ts_ms now b h =
    let s =
      append_recorded_event-Survives encode os codec.encode_printable es log event ts_ms b h in
    (
      s.compacted,
      rw s.bytes (
          open_log-image encode parse codec (drop s.compacted (es ++ recorded os event ts_ms log))
            s.torn now s.torn_printable),
      s.few,
    )
