-- ===== src/Session/Store/Events/Rows.antt =====
-- What events do to the row of a session.
use littleorgans.Base.{
  ℕ, ◌+◌, ◌≡◌, refl, Bool, true, false, List, [], ◌∷◌, arith, ◌==◌, ◌&&◌, not, if◌then◌else◌, All,
  Bool-cases, inl, inr, ==_refl, sym, ◌∙◌,
}
use littleorgans.Runtime.Lifecycle.{RuntimeEvent, TerminationEvidence}
use littleorgans.Runtime.EventLog.{from_event, same_key}
use littleorgans.Session.Store.{SessionRow}
use littleorgans.Session.Store.Events.{
  event_row, is_active_row, is_active_session, is_running_update, running_row, lost_row,
  terminated_row,
}

-- The row is one that the statement of the event writes.
unfoldable pub writes : RuntimeEvent → SessionRow → Bool
writes (RuntimeEvent.running session_id runtime_pid start_time) row =
    is_running_update session_id runtime_pid row
writes (RuntimeEvent.terminated session_id exit_code signal evidence) row =
    is_active_session session_id row
writes (RuntimeEvent.lost session_id evidence) row = is_active_session session_id row

again : (i p : ℕ) (row : SessionRow) → (row.id == i && not (p == p)) ≡ false
again i p row = ground (arith, ==_refl p)

no_session : (i : ℕ) (row : SessionRow) → (row.id == i && false) ≡ false
no_session i row = ground arith

not_both_ways : ¬ (true ≡ false)
not_both_ways h = cc

-- What it writes there.
unfoldable pub written : RuntimeEvent → ℕ → SessionRow → SessionRow
written (RuntimeEvent.running session_id runtime_pid start_time) t row =
    running_row runtime_pid start_time t row
written (RuntimeEvent.terminated session_id exit_code signal (TerminationEvidence.lost evidence)) t
      row =
    lost_row evidence t row
written (RuntimeEvent.terminated session_id exit_code signal _) t row =
    terminated_row exit_code t row
written (RuntimeEvent.lost session_id evidence) t row = lost_row evidence t row

abbrev is_running : RuntimeEvent → Bool
is_running (RuntimeEvent.running _ _ _) = true
is_running _ = false

event_row-written :
    (e : RuntimeEvent) (t : ℕ) (row : SessionRow)
    → event_row e t row ≡ (if writes e row then written e t row else row)
unfolding event_row writes written
event_row-written (RuntimeEvent.running i p s) t row = refl
event_row-written (RuntimeEvent.terminated i c s (TerminationEvidence.lost e)) t row = refl
event_row-written (RuntimeEvent.terminated i c s TerminationEvidence.shim_exit) t row = refl
event_row-written (RuntimeEvent.terminated i c s TerminationEvidence.process_exit) t row = refl
event_row-written (RuntimeEvent.lost i e) t row = refl

pub event_row-idle :
    (e : RuntimeEvent) (t : ℕ) (row : SessionRow) → writes e row ≡ false → event_row e t row ≡ row
event_row-idle e t row h = rw (event_row-written e t row, h) refl

-- What holds of the written row, and of the row as it was, holds of the row.
pub event_row-cases {ℓ} :
    (P : SessionRow → Type ℓ) (e : RuntimeEvent) (t : ℕ) (row : SessionRow)
    → (writes e row ≡ true → P (written e t row))
    → (writes e row ≡ false → P row)
    → P (event_row e t row)
event_row-cases P e t row new old = elim (Bool-cases (writes e row)) [
  | inl h ↦ rw (event_row-written e t row, h) (new h)
  | inr h ↦ rw (event_row-written e t row, h) (old h)
]

active_after_end :
    (f : RuntimeEvent) (t : ℕ) (row : SessionRow)
    → is_running f ≡ false
    → is_active_row (written f t row) ≡ false
unfolding written
active_after_end (RuntimeEvent.running j q s) t row h = cc
active_after_end (RuntimeEvent.terminated j c z (TerminationEvidence.lost x)) t row h = refl
active_after_end (RuntimeEvent.terminated j c z TerminationEvidence.shim_exit) t row h = refl
active_after_end (RuntimeEvent.terminated j c z TerminationEvidence.process_exit) t row h = refl
active_after_end (RuntimeEvent.lost j x) t row h = refl

-- No event writes a session that has ended.
pub writes-ended :
    (e : RuntimeEvent) (row : SessionRow) → is_active_row row ≡ false → writes e row ≡ false
unfolding writes
writes-ended (RuntimeEvent.running i p s) row h = rw h (no_session i row)
writes-ended (RuntimeEvent.terminated i c s e) row h = rw h (no_session i row)
writes-ended (RuntimeEvent.lost i e) row h = rw h (no_session i row)

-- A row that an event writes is that of an active session.
writes-active :
    (e : RuntimeEvent) (row : SessionRow) → writes e row ≡ true → is_active_row row ≡ true
writes-active e row h = elim (Bool-cases (is_active_row row)) [
  | inl active ↦ active
  | inr ended ↦ absurd (not_both_ways (sym h ∙ writes-ended e row ended))
]

writes-written : (e : RuntimeEvent) (t : ℕ) (row : SessionRow) → writes e (written e t row) ≡ false
unfolding writes written
writes-written (RuntimeEvent.running i p s) t row = again i p row
writes-written (RuntimeEvent.terminated i c s (TerminationEvidence.lost x)) t row = no_session i row
writes-written (RuntimeEvent.terminated i c s TerminationEvidence.shim_exit) t row =
    no_session i row
writes-written (RuntimeEvent.terminated i c s TerminationEvidence.process_exit) t row =
    no_session i row
writes-written (RuntimeEvent.lost i x) t row = no_session i row

-- A second delivery writes nothing.
pub writes-event_row :
    (e : RuntimeEvent) (t : ℕ) (row : SessionRow) → writes e (event_row e t row) ≡ false
writes-event_row e t row =
    event_row-cases (λ r. writes e r ≡ false) e t row (λ h. writes-written e t row) (λ h. h)

other_id :
    (a i j : ℕ) (b c : Bool)
    → (i == j && true) ≡ false
    → (a == j && b) ≡ true
    → (a == i && c) ≡ false
other_id a i j b c other h = ground arith

not_this_id :
    (a i j : ℕ) (b c : Bool)
    → (a == i && b) ≡ false
    → (a == j && (b && c)) ≡ true
    → (a == i && true) ≡ false
not_this_id a i j b c idle h = ground arith

-- A start of another session, or the start of a session whose end writes nothing.
writes-started :
    (e : RuntimeEvent) (j q s t : ℕ) (row : SessionRow)
    → writes e row ≡ false
    → same_key (from_event e) (from_event (RuntimeEvent.running j q s)) ≡ false
    → writes (RuntimeEvent.running j q s) row ≡ true
    → writes e (written (RuntimeEvent.running j q s) t row) ≡ false
unfolding writes written
writes-started (RuntimeEvent.running i p z) j q s t row idle other h =
    other_id row.id i j _ _ other h
writes-started (RuntimeEvent.terminated i c z e) j q s t row idle other h =
    not_this_id row.id i j _ _ idle h
writes-started (RuntimeEvent.lost i e) j q s t row idle other h = not_this_id row.id i j _ _ idle h

writes-after_end :
    (e f : RuntimeEvent) (t : ℕ) (row : SessionRow)
    → is_running f ≡ false
    → writes e row ≡ false
    → writes e (event_row f t row) ≡ false
writes-after_end e f t row end idle =
    event_row-cases (λ r. writes e r ≡ false) f t row
      (λ h. writes-ended e (written f t row) (active_after_end f t row end)) (λ h. idle)

-- The statement of an event leaves nothing to write for an event of another key.
pub writes-other :
    (e f : RuntimeEvent) (t : ℕ) (row : SessionRow)
    → writes e row ≡ false
    → same_key (from_event e) (from_event f) ≡ false
    → writes e (event_row f t row) ≡ false
writes-other e (RuntimeEvent.running j q s) t row idle other =
    event_row-cases (λ r. writes e r ≡ false) (RuntimeEvent.running j q s) t row
      (writes-started e j q s t row idle other) (λ h. idle)
writes-other e (RuntimeEvent.terminated j c z x) t row idle other =
    writes-after_end e (RuntimeEvent.terminated j c z x) t row refl idle
writes-other e (RuntimeEvent.lost j x) t row idle other =
    writes-after_end e (RuntimeEvent.lost j x) t row refl idle

-- The events one after the other, the n-th statement with the n-th time.
unfoldable pub replayed : (ℕ → ℕ) → ℕ → List RuntimeEvent → SessionRow → SessionRow
replayed now n [] row = row
replayed now n (e ∷ es) row = replayed now (n + 1) es (event_row e (now n) row)

-- No two events have the same session and kind.
abbrev pub DistinctEvents : List RuntimeEvent → Type 0
DistinctEvents [] = Unit
DistinctEvents (e ∷ es) =
    All (λ f. same_key (from_event e) (from_event f) ≡ false) es × DistinctEvents es

module _ (now : ℕ → ℕ) where
  replayed-keeps :
      (e : RuntimeEvent) (n : ℕ) (es : List RuntimeEvent) (row : SessionRow)
      → writes e row ≡ false
      → All (λ f. same_key (from_event e) (from_event f) ≡ false) es
      → writes e (replayed now n es row) ≡ false
  unfolding replayed
  replayed-keeps e n [] row idle other = idle
  replayed-keeps e n (f ∷ es) row idle other =
      replayed-keeps e (n + 1) es (event_row f (now n) row)
        (writes-other e f (now n) row idle other.0) other.1

  -- After the events, none of them has anything to write.
  replayed-idle :
      (n : ℕ) (es : List RuntimeEvent) (row : SessionRow)
      → DistinctEvents es
      → All (λ e. writes e (replayed now n es row) ≡ false) es
  unfolding replayed
  replayed-idle n [] row d = tt
  replayed-idle n (e ∷ es) row d = (
    replayed-keeps e (n + 1) es (event_row e (now n) row) (writes-event_row e (now n) row) d.0,
    replayed-idle (n + 1) es (event_row e (now n) row) d.1,
  )

pub replayed-nothing :
    (now : ℕ → ℕ) (n : ℕ) (es : List RuntimeEvent) (row : SessionRow)
    → All (λ e. writes e row ≡ false) es
    → replayed now n es row ≡ row
unfolding replayed
replayed-nothing now n [] row h = refl
replayed-nothing now n (e ∷ es) row h =
    rw (event_row-idle e (now n) row h.0) (replayed-nothing now (n + 1) es row h.1)

-- A second delivery of events of different keys changes no row.
pub replayed-twice :
    (now later : ℕ → ℕ) (n m : ℕ) (es : List RuntimeEvent) (row : SessionRow)
    → DistinctEvents es
    → replayed later m es (replayed now n es row) ≡ replayed now n es row
replayed-twice now later n m es row d =
    replayed-nothing later m es (replayed now n es row) (replayed-idle now n es row d)

-- Events change nothing of a session that has ended: the first end stays.
pub replayed-ended :
    (now : ℕ → ℕ) (n : ℕ) (es : List RuntimeEvent) (row : SessionRow)
    → is_active_row row ≡ false
    → replayed now n es row ≡ row
unfolding replayed
replayed-ended now n [] row h = refl
replayed-ended now n (e ∷ es) row h =
    rw (event_row-idle e (now n) row (writes-ended e row h)) (replayed-ended now (n + 1) es row h)
