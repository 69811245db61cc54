-- ===== src/Runtime/EventLog/Tests.antt =====
-- Instances of the event log's theorems on small logs.
use littleorgans.Base.{
  ℕ, ◌-◌, ◌≤◌, ◌≡◌, refl, true, none, some, [], ◌∷◌, ◌++◌, arith, length, drop, inl,
}
use littleorgans.Base.Exec.{ok, err}
use littleorgans.Runtime.Failure.{io}
use littleorgans.Runtime.Lifecycle.{RuntimeEvent, pid_not_alive}
use littleorgans.Runtime.EventLog.{
  EventLog, EventLogEntry, AppendIo, append_recorded_event, retention_min_events, image,
  events_since, events_of, after, last_seq, EventLogPage, contains_key, retain_from_index,
  oldest_valid_cursor,
}
use littleorgans.Runtime.EventLog.Invariant.{IsLog}
use littleorgans.Runtime.EventLog.Append.{recorded, append_recorded_event-IsLog}
use littleorgans.Runtime.EventLog.Pages.{events_since_resume}
use littleorgans.Runtime.EventLog.Recovery.{open_log}
use littleorgans.Runtime.EventLog.Recovery.Image.{reopened}
use littleorgans.Runtime.EventLog.Crash.{IsClean, open_log-append}
use littleorgans.Runtime.EventLog.Failures.{append_recorded_event_retry}
use littleorgans.Runtime.EventLog.Sample.{encode, parse, sample-IsCodec}

abbrev empty_log : EventLog
empty_log = record {
  disk = [];
  linked = true;
  events = [];
  seen_event_keys = [];
  next_seq = 1;
  events_since_sync = 0;
  last_sync = 0;
}

abbrev started : RuntimeEvent
started = RuntimeEvent.running 7 42 1_000

abbrev gone : RuntimeEvent
gone = RuntimeEvent.lost 7 pid_not_alive

-- Every call of the operating system goes through.
abbrev fine : AppendIo
fine = record {
  record_cut = none;
  newline_ok = true;
  sync_elapsed_ms = 0;
  sync_ok = true;
  synced_at = 0;
  now_ms = some 5;
  create_ok = true;
  copy_ok = true;
  rename_ok = true;
  reopen_ok = true;
  compacted_at = 0;
}

-- The line is cut after two bytes.
abbrev torn : AppendIo
torn = record fine { record_cut = some 2 }

abbrev entry : ℕ → RuntimeEvent → EventLogEntry
entry n e = record { seq = n; ts_ms = 5; event = e }

abbrev one : EventLog
one = (append_recorded_event encode fine started 5 true empty_log).1

abbrev two : EventLog
two = (append_recorded_event encode fine gone 5 true one).1

empty_log-IsLog : IsLog [] empty_log
empty_log-IsLog = record {
  dropped = [];
  split = refl;
  retained = inl refl;
  ascends = omega arith;
  seen = tt;
  distinct = tt;
}

one-IsLog : IsLog (entry 1 started ∷ []) one
unfolding append_recorded_event recorded contains_key retain_from_index
one-IsLog =
    append_recorded_event-IsLog encode fine [] empty_log started 5 true refl (omega arith)
      empty_log-IsLog

append_recorded_event-IsLog_example : IsLog (entry 1 started ∷ []) one
unfolding append_recorded_event recorded contains_key retain_from_index
append_recorded_event-IsLog_example =
    append_recorded_event-IsLog encode fine [] empty_log started 5 true refl (omega arith)
      empty_log-IsLog

two-IsLog : IsLog (entry 1 started ∷ entry 2 gone ∷ []) two
unfolding append_recorded_event recorded contains_key retain_from_index
two-IsLog =
    append_recorded_event-IsLog encode fine (entry 1 started ∷ []) one gone 5 true refl
      (omega arith) one-IsLog

abbrev first_page : EventLogPage
first_page = record { events = started ∷ []; cursor = 1 }

abbrev second_page : EventLogPage
second_page = record { events = gone ∷ []; cursor = 2 }

events_since_resume_example :
    (first_page.events ++ second_page.events
      ≡ events_of (after 0 (entry 1 started ∷ entry 2 gone ∷ [])))
    × (second_page.cursor ≡ last_seq 0 (entry 1 started ∷ entry 2 gone ∷ []))
unfolding events_since append_recorded_event contains_key oldest_valid_cursor retain_from_index
events_since_resume_example =
    events_since_resume (entry 1 started ∷ []) (entry 2 gone ∷ []) one two 0 first_page second_page
      one-IsLog two-IsLog (omega arith) refl refl

one-IsClean : IsClean encode (entry 1 started ∷ []) one
unfolding append_recorded_event contains_key image retain_from_index
one-IsClean = record { linked = refl; bytes = refl; entries = refl }

open_log-append_example :
    (compacted : ℕ) × (open_log parse true 0
        (append_recorded_event encode torn gone 5 true one).1.disk
      ≡ ok (reopened encode 0 (drop compacted (entry 1 started ∷ [] ++ recorded torn gone 5 one))))
    × (compacted ≤ length (entry 1 started ∷ [] ++ recorded torn gone 5 one) - retention_min_events)
open_log-append_example =
    open_log-append encode parse sample-IsCodec torn (entry 1 started ∷ []) one gone 5 0 true
      one-IsClean

append_recorded_event_retry_example :
    let failed = append_recorded_event encode torn started 5 true empty_log in
    let retried = append_recorded_event encode fine started 5 true failed.1 in
    (failed.0 ≡ err io) × (failed.1.events ≡ []) × (retried.0 ≡ ok started) × (retried.1 ≡ failed.1)
unfolding contains_key
append_recorded_event_retry_example =
    append_recorded_event_retry encode torn fine started 5 5 2 true true empty_log refl refl
