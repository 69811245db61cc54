-- ===== src/Runtime/EventLog/Recovery/Image.antt =====
-- What `open` reads back from the image of a log and a torn line.
use mathlib.Core.List.{append-nil}
use littleorgans.Base.{
  ℕ, ◌≡◌, refl, ap, ◌∙◌, true, false, Option, some, List, [], ◌∷◌, ◌++◌, arith, length, take,
  get_last?, Bool-cases, ◌==◌, inl, inr,
}
use littleorgans.Runtime.EventLog.Recovery.Bytes.{
  Printable, take-append, after_last_newline-append, after_last_newline-line, get_last?-torn,
  strip_carriage_return-Printable, lines_from-line,
}
use littleorgans.Base.Exec.{ok}
use littleorgans.Runtime.EventLog.{EventLogEntry, EventLog, newline, image}
use littleorgans.Runtime.EventLog.Recovery.{
  after_last_newline, recover_partial_tail, ends_in_newline, lines_from, read_lines, read_entries,
  open_log, opened, next_after, keys_of,
}

-- serde_json writes a value on one line, with control characters escaped, and reads back what it
-- wrote.
pub record IsCodec (encode : EventLogEntry → List ℕ) (parse : List ℕ → Option EventLogEntry)
    : Type 0 where
  pub parse-encode : (e : EventLogEntry) → parse (encode e) ≡ some e
  pub encode_printable : (e : EventLogEntry) → Printable (encode e)

-- The state that `open` builds from a file that holds exactly these entries.
abbrev pub reopened : (EventLogEntry → List ℕ) → ℕ → List EventLogEntry → EventLog
reopened encode now es = record {
  disk = image encode es;
  linked = true;
  events = es;
  seen_event_keys = keys_of es;
  next_seq = next_after es;
  events_since_sync = 0;
  last_sync = now;
}

read_lines-cons :
    (parse : List ℕ → Option EventLogEntry) (line : List ℕ) (rest : List (List ℕ))
    (e : EventLogEntry) (es : List EventLogEntry)
    → parse line ≡ some e
    → read_lines parse rest ≡ ok es
    → read_lines parse (line ∷ rest) ≡ ok (e ∷ es)
unfolding read_lines
read_lines-cons parse line rest e es p q = ground arith

module _ (encode : EventLogEntry → List ℕ) (parse : List ℕ → Option EventLogEntry)
    (codec : IsCodec encode parse) where
  after_last_newline-image :
      (es : List EventLogEntry) → after_last_newline (image encode es) ≡ length (image encode es)
  unfolding image
  after_last_newline-image [] = unfold after_last_newline in refl
  after_last_newline-image (e ∷ es) =
      after_last_newline-line (encode e) (image encode es) (after_last_newline-image es)

  whole_image :
      (es : List EventLogEntry) (torn : List ℕ)
      → Printable torn
      → take (after_last_newline (image encode es ++ torn)) (image encode es ++ torn)
        ≡ image encode es
  whole_image es torn p =
      rw (after_last_newline-append (image encode es) torn p, after_last_newline-image es)
        (take-append (image encode es) torn)

  recover_partial_tail-image :
      (es : List EventLogEntry) (torn : List ℕ)
      → Printable torn
      → recover_partial_tail (image encode es ++ torn) ≡ image encode es
  unfolding recover_partial_tail
  recover_partial_tail-image es [] p =
      elim (Bool-cases (ends_in_newline (get_last? (image encode es ++ [])))) [
        | inl whole ↦ rw (whole, append-nil) refl
        | inr cut ↦ rw cut (whole_image es [] p)
      ]
  recover_partial_tail-image es (t ∷ ts) p =
      let (b, last, big) = get_last?-torn (image encode es) t ts p in
      let cut : (b == newline) ≡ false = ground arith in
      rw (last, ends_in_newline, cut) (whole_image es (t ∷ ts) p)

  lines_from-image :
      (e : EventLogEntry) (es : List EventLogEntry)
      → lines_from [] (image encode (e ∷ es)) ≡ encode e ∷ lines_from [] (image encode es)
  unfolding image
  lines_from-image e es =
      lines_from-line [] (encode e) (image encode es) (codec.encode_printable e)
      ∙ rw (strip_carriage_return-Printable (encode e) (codec.encode_printable e)) refl

  read_lines-image :
      (es : List EventLogEntry) → read_lines parse (lines_from [] (image encode es)) ≡ ok es
  read_lines-image [] = unfold image lines_from read_lines in refl
  read_lines-image (e ∷ es) = rw (lines_from-image e es) (
      read_lines-cons parse (encode e) (lines_from [] (image encode es)) e es (codec.parse-encode e)
        (read_lines-image es))

  -- Whatever part of a line a crash left at the end of the file, `open` cuts it off and gives back
  -- every entry before it.
  pub open_log-image :
      (es : List EventLogEntry) (torn : List ℕ) (now : ℕ)
      → Printable torn
      → open_log parse true now (image encode es ++ torn) ≡ ok (reopened encode now es)
  unfolding open_log read_entries
  open_log-image es torn now p =
      rw (recover_partial_tail-image es torn p)
        (ap (opened now (image encode es)) (read_lines-image es))
