-- ===== src/Runtime/EventLog/Failures.antt =====
-- What failed calls to the operating system do to a log.
use littleorgans.Base.{ℕ, ◌≡◌, Bool, false, ◌&&◌, some, List, arith, take}
use littleorgans.Base.Exec.{ok, err}
use littleorgans.Runtime.Lifecycle.{RuntimeEvent}
use littleorgans.Runtime.Failure.{io}
use littleorgans.Runtime.EventLog.{
  EventLogEntry, EventLog, AppendIo, from_event, contains_key, append_recorded_event,
  compact_if_due, compact_by, compact_at, retain_from_index, put, claim, write_all,
}
use littleorgans.Runtime.EventLog.Invariant.{contains_key-claim}

module _ (encode : EventLogEntry → List ℕ) where
  -- An event whose line could not be written is reported as an error, and a second append of it is
  -- reported as a success although the event is in the log neither after the first nor after the
  -- second: the key is claimed before the write and is not given back.
  pub append_recorded_event_retry :
      (os os' : AppendIo) (event : RuntimeEvent) (ts_ms ts_ms' n : ℕ) (b b' : Bool) (log : EventLog)
      → contains_key (from_event event) log.seen_event_keys ≡ false
      → os.record_cut ≡ some n
      → let failed = append_recorded_event encode os event ts_ms b log in
        let retried = append_recorded_event encode os' event ts_ms' b' failed.1 in
        (failed.0 ≡ err io)
        × (failed.1.events ≡ log.events)
        × (retried.0 ≡ ok event)
        × (retried.1 ≡ failed.1)
  unfolding append_recorded_event claim write_all put
  append_recorded_event_retry os os' event ts_ms ts_ms' n b b' log new cut =
      let key = from_event event in ground (arith, contains_key-claim key log.seen_event_keys)

  -- A compaction that is due and whose new file cannot be put in place leaves in memory just the
  -- entries that it meant to drop, and takes the retained ones, the newest, out of the log.
  pub compact_if_due_failed :
      (os : AppendIo) (log : EventLog) (n : ℕ)
      → retain_from_index os.now_ms log.events ≡ ok (some n)
      → (os.create_ok && os.copy_ok && os.rename_ok) ≡ false
      → (compact_if_due encode os log).1.events ≡ take n log.events
  unfolding compact_if_due compact_by compact_at
  compact_if_due_failed os log n due failed = rw due (ground arith)
