-- ===== src/Runtime/EventLog/Recovery.antt =====
-- `EventLog::open`: the torn tail is cut off, and the rest is read line by line. What serde_json
-- reads from a line is a parameter (`decode`).
pub mod Bytes
pub mod Image
use littleorgans.Base.{
  ℕ, suc, ◌+◌, Bool, true, false, not, ◌&&◌, ◌||◌, Option, none, some, List, [], ◌∷◌, ◌++◌, ltb,
  ◌==◌, if◌then◌else◌, get_last?, take, ◌≡◌,
}
use littleorgans.Base.Exec.{Result, ok, err}
use littleorgans.Base.Text.{is_empty}
use littleorgans.Runtime.Failure.{Failure, io, decode}
use littleorgans.Runtime.EventLog.{
  EventLogEntry, EventLogKey, EventLog, from_event, saturating_add, newline, image,
}

-- One more than the position of the last newline, or 0.
pub after_last_newline : List ℕ → ℕ
after_last_newline [] = 0
after_last_newline (b ∷ bs) =
    let rest = after_last_newline bs in
    if ltb 0 rest then suc rest else if b == newline then 1 else 0

abbrev pub ends_in_newline : Option ℕ → Bool
ends_in_newline none = true
ends_in_newline (some b) = b == newline

pub recover_partial_tail : List ℕ → List ℕ
unfolding after_last_newline
recover_partial_tail bytes =
    if ends_in_newline (get_last? bytes) then bytes else take (after_last_newline bytes) bytes

-- `BufRead::lines`: a line loses its newline and one carriage return before it.
abbrev carriage_return : ℕ
carriage_return = 13

pub strip_carriage_return : List ℕ → List ℕ
strip_carriage_return [] = []
strip_carriage_return (b ∷ []) = if b == carriage_return then [] else b ∷ []
strip_carriage_return (b ∷ (c ∷ bs)) = b ∷ strip_carriage_return (c ∷ bs)

-- `line` holds the bytes of the line so far.
pub lines_from : List ℕ → List ℕ → List (List ℕ)
unfolding strip_carriage_return
lines_from line [] = if is_empty line then [] else line ∷ []
lines_from line (b ∷ bs) = elim (b == newline) [
  | true ↦ strip_carriage_return line ∷ lines_from [] bs
  | false ↦ lines_from (line ++ b ∷ []) bs
]

abbrev pub next_after : List EventLogEntry → ℕ
next_after [] = 1
next_after (e ∷ []) = saturating_add e.seq 1
next_after (e ∷ (f ∷ es)) = next_after (f ∷ es)

abbrev pub keys_of : List EventLogEntry → List EventLogKey
keys_of [] = []
keys_of (e ∷ es) = from_event e.event ∷ keys_of es

-- The state that `open` builds: `now` is the reading of the monotonic clock.
abbrev pub opened : ℕ → List ℕ → Result Failure (List EventLogEntry) → Result Failure EventLog
opened now bytes (err e) = err e
opened now bytes (ok es) = ok (record {
  disk = bytes;
  linked = true;
  events = es;
  seen_event_keys = keys_of es;
  next_seq = next_after es;
  events_since_sync = 0;
  last_sync = now;
})

module _ (parse : List ℕ → Option EventLogEntry) where
  pub read_lines : List (List ℕ) → Result Failure (List EventLogEntry)
  read_lines [] = ok []
  read_lines (line ∷ rest) = elim (parse line) [
    | none ↦ err decode
    | some entry ↦ elim (read_lines rest) [ ok es ↦ ok (entry ∷ es) | err e ↦ err e ]
  ]

  pub read_entries : List ℕ → Result Failure (List EventLogEntry)
  unfolding lines_from read_lines
  read_entries bytes = read_lines (lines_from [] bytes)

  -- `file_ok` says that the calls to the operating system go through.
  pub open_log : Bool → ℕ → List ℕ → Result Failure EventLog
  unfolding recover_partial_tail read_entries
  open_log file_ok now bytes =
      if not file_ok
      then err io
      else opened now (recover_partial_tail bytes) (read_entries (recover_partial_tail bytes))
