-- ===== src/Session/Feed/Tests.antt =====
-- Runs of the event loop on a log with the start and the end of one session.
use mathlib.Core.Option.{some_inj}
use littleorgans.Base.{◌≡◌, refl, inl, true, none, some, List, [], ◌∷◌, arith}
use littleorgans.Base.Exec.{ok}
use littleorgans.Base.Action.{◌>>=◌}
use littleorgans.Runtime.EventLog.{
  EventLog, EventLogEntry, EventLogPage, events_since, oldest_valid_cursor, from_event,
  contains_key, unwrap_or_default,
}
use littleorgans.Runtime.EventLog.Invariant.{Ascends, Distinct, IsLog}
use littleorgans.Session.Store.Events.Tests.{started, exited, initial_db, initial_store, reliable}
use littleorgans.Session.Store.Events.Replay.{stop}
use littleorgans.Session.Store.Sessions.{SessionState, session_state_from_row}
use littleorgans.Session.Feed.{events, Runtime, event_rounds, run_event_loop}
use littleorgans.Session.Feed.Follows.{
  EventSource, ServesPages, IsPage, Follows, event_rounds-Follows,
}
use littleorgans.Session.Feed.Log.{log_source, events_since-IsPage}
use littleorgans.Session.Feed.Decodes.{AllDecode, run_event_loop-AllDecode}

abbrev history : List EventLogEntry
history =
    record { seq = 1; ts_ms = 5; event = started }
    ∷ record { seq = 2; ts_ms = 6; event = exited }
    ∷ []

ascends : Ascends 0 history 3
ascends = (omega arith, (omega arith, omega arith))

distinct : Distinct history
distinct = ((refl, tt), (tt, tt))

abbrev source : EventSource
source = log_source history 3 ascends distinct

-- The first poll gets the whole log, and the others fail.
abbrev runtime : Runtime
runtime = record {
  poll_events = λ round cursor. elim cursor [
    | none ↦ some (events (started ∷ exited ∷ []) 2)
    | some c ↦ none
  ];
  status = λ n. none;
}

first_page : IsPage source 0 (events (started ∷ exited ∷ []) 2)
unfolding log_source
first_page = (omega arith, refl)

pages : ServesPages source reliable runtime initial_db.sessions
pages round none batch e = rw (← some_inj.0 e) first_page
pages round (some c) batch e = cc

starts : Follows source initial_db.sessions 0 initial_db.sessions
unfolding log_source
starts = (0, omega arith, stop initial_db.sessions)

event_rounds-Follows_example :
    let end = event_rounds reliable runtime 2 0 none initial_store in
    Follows source initial_db.sessions (unwrap_or_default end.0) end.1.db.sessions
event_rounds-Follows_example =
    event_rounds-Follows source reliable runtime initial_db.sessions pages 2 0 none initial_store
      starts

cursor_moves : (event_rounds reliable runtime 2 0 none initial_store).0 ≡ some 2
unfolding event_rounds ◌>>=◌
cursor_moves = refl

all_decode : AllDecode initial_db
unfolding session_state_from_row
all_decode = ((SessionState.spawning, refl), ((SessionState.spawning, refl), tt))

run_event_loop-AllDecode_example : AllDecode (run_event_loop reliable runtime 2 initial_store).1.db
run_event_loop-AllDecode_example =
    run_event_loop-AllDecode reliable runtime 2 initial_store all_decode

abbrev log : EventLog
log = record {
  disk = [];
  linked = true;
  events = history;
  seen_event_keys = from_event exited ∷ from_event started ∷ [];
  next_seq = 3;
  events_since_sync = 0;
  last_sync = 0;
}

log-IsLog : IsLog history log
unfolding contains_key
log-IsLog = record {
  dropped = [];
  split = refl;
  retained = inl refl;
  ascends = ascends;
  seen = (refl, (refl, tt));
  distinct = distinct;
}

abbrev page : EventLogPage
page = record { events = exited ∷ []; cursor = 2 }

reads_page : events_since log (some 1) ≡ ok page
unfolding events_since oldest_valid_cursor
reads_page = refl

events_since-IsPage_example : IsPage source 1 (events (exited ∷ []) 2)
events_since-IsPage_example =
    events_since-IsPage history [] 3 ascends distinct log (some 1) page log-IsLog (omega arith)
      reads_page
