-- ===== src/Runtime/EventLog.antt =====
-- internal/runtime/daemon/src/event_log.rs: the durable log of runtime events, its deduplication,
-- its compaction and the cursors by which clients page through it. What serde_json writes for a
-- record is a parameter (`encode`). `disk` is what stands at the log's path, and `linked` says
-- whether the open handle still is that file. The outcomes of the calls to the operating system
-- and the readings of the clocks that one append makes are the fields of an `AppendIo`.
pub mod Recovery
pub mod Invariant
pub mod Append
pub mod Pages
pub mod Counts
pub mod Crash
pub mod Failures
mod Sample
mod Tests
use littleorgans.Base.{
  ℕ, ◌+◌, ◌-◌, ◌*◌, ◌^◌, min, Bool, true, false, not, ◌&&◌, ◌||◌, Option, none, some, List, [], ◌∷◌,
  ◌++◌, map, ltb, ◌==◌, if◌then◌else◌, length, take, drop, get_last?, head?, keep, span_length,
}
use littleorgans.Base.Exec.{Result, ok, err, Exec, pure, raise, ◌>>=◌, ◌>>◌}
use littleorgans.Runtime.Lifecycle.{RuntimeEvent}
use littleorgans.Runtime.Failure.{Failure, io, clock}

abbrev pub u64_max : ℕ
u64_max = 2 ^ 64 - 1

-- `saturating_add` on u64.
abbrev pub saturating_add : ℕ → ℕ → ℕ
saturating_add a b = min (a + b) u64_max

-- EVENT_LOG_RETENTION_MIN_EVENTS, and EVENT_LOG_RETENTION_MIN_AGE_SECS in milliseconds.
abbrev pub retention_min_events : ℕ
retention_min_events = 10_000

abbrev pub max_age_ms : ℕ
max_age_ms = 7 * 24 * 60 * 60 * 1_000

abbrev pub sync_batch : ℕ
sync_batch = 32

abbrev pub sync_interval_ms : ℕ
sync_interval_ms = 100

abbrev pub newline : ℕ
newline = 10

pub data EventLogKind : Type 0 where
  running terminated lost : EventLogKind

pub record EventLogKey : Type 0 where
  pub session_id : ℕ
  pub kind : EventLogKind

abbrev pub from_event : RuntimeEvent → EventLogKey
from_event (RuntimeEvent.running i _ _) = record { session_id = i; kind = running }
from_event (RuntimeEvent.terminated i _ _ _) = record { session_id = i; kind = terminated }
from_event (RuntimeEvent.lost i _) = record { session_id = i; kind = lost }

abbrev pub same_kind : EventLogKind → EventLogKind → Bool
same_kind running running = true
same_kind terminated terminated = true
same_kind lost lost = true
same_kind _ _ = false

abbrev pub same_key : EventLogKey → EventLogKey → Bool
same_key a b = a.session_id == b.session_id && same_kind a.kind b.kind

unfoldable pub contains_key : EventLogKey → List EventLogKey → Bool
contains_key k [] = false
contains_key k (j ∷ ks) = same_key k j || contains_key k ks

pub record EventLogEntry : Type 0 where
  pub seq : ℕ
  pub ts_ms : ℕ
  pub event : RuntimeEvent

pub record EventLog : Type 0 where
  pub disk : List ℕ
  pub linked : Bool
  pub events : List EventLogEntry
  pub seen_event_keys : List EventLogKey
  pub next_seq : ℕ
  pub events_since_sync : ℕ
  pub last_sync : ℕ

-- A failed write of a record leaves the first `n` bytes of it, `some n`.
pub record AppendIo : Type 0 where
  pub record_cut : Option ℕ
  pub newline_ok : Bool
  pub sync_elapsed_ms : ℕ
  pub sync_ok : Bool
  pub synced_at : ℕ
  pub now_ms : Option ℕ
  pub create_ok : Bool
  pub copy_ok : Bool
  pub rename_ok : Bool
  pub reopen_ok : Bool
  pub compacted_at : ℕ

put : List ℕ → EventLog → EventLog
put bytes log = if log.linked then record log { disk = log.disk ++ bytes } else log

write_all : List ℕ → Option ℕ → Exec Failure EventLog (Unit {0})
unfolding put
write_all bytes none log = (ok tt, put bytes log)
write_all bytes (some n) log = (err io, put (take n bytes) log)

claim : EventLogKey → Exec Failure EventLog (Unit {0})
claim key log = (
  ok tt,
  record log {
    seen_event_keys = key ∷ log.seen_event_keys;
    next_seq = saturating_add log.next_seq 1;
  },
)

push : EventLogEntry → Exec Failure EventLog (Unit {0})
push entry log = (ok tt, record log { events = log.events ++ entry ∷ [] })

-- `sync_data` leaves the contents as they are.
pub sync_if_due : AppendIo → Exec Failure EventLog (Unit {0})
sync_if_due os log =
    if ltb log.events_since_sync sync_batch && ltb os.sync_elapsed_ms sync_interval_ms
    then (ok tt, log)
    else if os.sync_ok
    then (ok tt, record log { events_since_sync = 0; last_sync = os.synced_at })
    else (err io, log)

sync_after : Bool → AppendIo → Exec Failure EventLog (Unit {0})
unfolding sync_if_due
sync_after true os log =
    sync_if_due os (record log { events_since_sync = log.events_since_sync + 1 })
sync_after false os log = (ok tt, log)

abbrev pub is_old : ℕ → EventLogEntry → Bool
is_old now_ms entry = ltb max_age_ms (now_ms - entry.ts_ms)

-- How many entries a compaction drops: those that are over the count and too old at once.
unfoldable pub compact_count : ℕ → List EventLogEntry → ℕ
compact_count now_ms events =
    min (length events - retention_min_events) (span_length (is_old now_ms) events)

unfoldable pub retain_from_index : Option ℕ → List EventLogEntry → Result Failure (Option ℕ)
unfolding compact_count
retain_from_index now events =
    if ltb (length events) retention_min_events then ok none else elim now [
      | none ↦ err clock
      | some now_ms ↦
          ok (
            if ltb 0 (compact_count now_ms events)
            then some (compact_count now_ms events)
            else none)
    ]

module _ (encode : EventLogEntry → List ℕ) where
  -- The bytes of a log: one line for each entry.
  pub image : List EventLogEntry → List ℕ
  image [] = []
  image (e ∷ es) = encode e ++ (newline ∷ image es)

  -- `split_off` leaves the dropped prefix in `events`; the retained entries come back only at the
  -- end, when the new file is in place.
  compact_at : AppendIo → ℕ → Exec Failure EventLog (Unit {0})
  compact_at os n log =
      let retained = drop n log.events in
      let split = record log { events = take n log.events } in
      if not (os.create_ok && os.copy_ok && os.rename_ok)
      then (err io, split)
      else if not os.reopen_ok
      then (err io, record split { disk = image retained; linked = false })
      else (
        ok tt,
        record split {
          disk = image retained;
          linked = true;
          events = retained;
          events_since_sync = 0;
          last_sync = os.compacted_at;
        },
      )

  compact_by : AppendIo → Result Failure (Option ℕ) → Exec Failure EventLog (Unit {0})
  unfolding compact_at
  compact_by os (err e) log = (err e, log)
  compact_by os (ok none) log = (ok tt, log)
  compact_by os (ok (some n)) log = compact_at os n log

  pub compact_if_due : AppendIo → Exec Failure EventLog (Unit {0})
  unfolding compact_by
  compact_if_due os log = compact_by os (retain_from_index os.now_ms log.events) log

  abbrev pub next_entry : EventLog → RuntimeEvent → ℕ → EventLogEntry
  next_entry log event ts_ms = record { seq = log.next_seq; ts_ms = ts_ms; event = event }

  -- What follows the two writes of a record.
  settle : AppendIo → EventLogEntry → Bool → Exec Failure EventLog RuntimeEvent
  settle os entry sync_after_append =
      push entry >> (sync_after sync_after_append os >> (compact_if_due os >> pure entry.event))

  -- What an append does with an event that it has not seen.
  pub record_entry : AppendIo → EventLogEntry → Bool → Exec Failure EventLog RuntimeEvent
  unfolding claim write_all
  record_entry os entry sync_after_append = do
    claim (from_event entry.event)
    write_all (encode entry) os.record_cut
    write_all (newline ∷ []) (if os.newline_ok then none else some 0)
    settle os entry sync_after_append

  unfoldable pub append_recorded_event :
      AppendIo → RuntimeEvent → ℕ → Bool → Exec Failure EventLog RuntimeEvent
  unfolding record_entry settle push sync_after compact_if_due
  append_recorded_event os event ts_ms sync_after_append log =
      if contains_key (from_event event) log.seen_event_keys
      then (ok event, log)
      else record_entry os (next_entry log event ts_ms) sync_after_append log

  -- `append` reads the clock first.
  unfoldable pub append : AppendIo → Option ℕ → RuntimeEvent → Exec Failure EventLog RuntimeEvent
  append os none event log = (err clock, log)
  append os (some ts_ms) event log = append_recorded_event os event ts_ms true log

-- Reading.

pub record EventLogPage : Type 0 where
  pub events : List RuntimeEvent
  pub cursor : ℕ

unfoldable pub oldest_valid_cursor : List EventLogEntry → Option ℕ
oldest_valid_cursor [] = none
oldest_valid_cursor (e ∷ es) = some (e.seq - 1)

abbrev pub after : ℕ → List EventLogEntry → List EventLogEntry
after cursor es = keep (λ e. ltb cursor e.seq) es

-- The sequence number of the last entry, or the cursor where there is none.
abbrev pub last_seq : ℕ → List EventLogEntry → ℕ
last_seq cursor [] = cursor
last_seq cursor (e ∷ es) = last_seq e.seq es

abbrev pub events_of : List EventLogEntry → List RuntimeEvent
events_of es = map (λ e. e.event) es

abbrev pub is_before : ℕ → Option ℕ → Bool
is_before cursor none = false
is_before cursor (some oldest) = ltb cursor oldest

abbrev pub expired_cursor : Option ℕ → ℕ
expired_cursor none = 0
expired_cursor (some oldest) = oldest

abbrev pub unwrap_or_default : Option ℕ → ℕ
unwrap_or_default none = 0
unwrap_or_default (some c) = c

-- The error is `CursorExpired`, with the oldest cursor that is still valid.
unfoldable pub events_since : EventLog → Option ℕ → Result ℕ EventLogPage
events_since log since =
    let cursor = unwrap_or_default since in
    let oldest = oldest_valid_cursor log.events in
    if is_before cursor oldest
    then err (expired_cursor oldest)
    else ok (record {
      events = events_of (after cursor log.events);
      cursor = last_seq cursor log.events;
    })
