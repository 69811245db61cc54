-- ===== src/Session/Store/Events/Replay.antt =====
-- The tables of sessions that a list of events leads to, whatever the times of the statements.
use mathlib.Core.List.{map-map, map-id}
use littleorgans.Base.{ℕ, ◌+◌, ◌≡◌, refl, sym, ◌∙◌, false, List, [], ◌∷◌, ◌++◌, map, All}
use littleorgans.Runtime.Lifecycle.{RuntimeEvent}
use littleorgans.Runtime.EventLog.{from_event, same_key}
use littleorgans.Session.Store.{SessionRow}
use littleorgans.Session.Store.Events.{event_row}
use littleorgans.Session.Store.Events.Rows.{
  writes, event_row-idle, writes-event_row, writes-other, replayed, DistinctEvents,
}

pub data Replay : List RuntimeEvent → List SessionRow → List SessionRow → Type 0 where
  stop : (rows : List SessionRow) → Replay [] rows rows
  step :
      (e : RuntimeEvent) (t : ℕ) (es : List RuntimeEvent) (rows end : List SessionRow)
      → Replay es (map (event_row e t) rows) end
      → Replay (e ∷ es) rows end

-- No row is written by the event.
abbrev pub IdleAt : RuntimeEvent → List SessionRow → Type 0
IdleAt e rows = All (λ row. writes e row ≡ false) rows

abbrev pub Idle : List RuntimeEvent → List SessionRow → Type 0
Idle es rows = All (λ e. IdleAt e rows) es

pub Replay-append :
    (xs ys : List RuntimeEvent) (a b c : List SessionRow)
    → Replay xs a b
    → Replay ys b c
    → Replay (xs ++ ys) a c
Replay-append xs ys a b c (stop rows) k = k
Replay-append xs ys a b c (step e t es rows end h) k =
    step e t (es ++ ys) rows c (Replay-append es ys (map (event_row e t) rows) b c h k)

pub Replay-split :
    (xs ys : List RuntimeEvent) (a c : List SessionRow)
    → Replay (xs ++ ys) a c
    → (b : List SessionRow) × Replay xs a b × Replay ys b c
Replay-split [] ys a c h = (a, stop a, h)
Replay-split (x ∷ xs) ys a c (step e t es rows end h) =
    let (b, first, second) = Replay-split xs ys (map (event_row x t) a) c h in
    (b, step x t xs a b first, second)

IdleAt-map :
    (e f : RuntimeEvent) (t : ℕ) (rows : List SessionRow)
    → ((row : SessionRow) → writes e row ≡ false → writes e (event_row f t row) ≡ false)
    → IdleAt e rows
    → IdleAt e (map (event_row f t) rows)
IdleAt-map e f t [] k h = tt
IdleAt-map e f t (row ∷ rows) k h = (k row h.0, IdleAt-map e f t rows k h.1)

IdleAt-twice :
    (e : RuntimeEvent) (t : ℕ) (rows : List SessionRow) → IdleAt e (map (event_row e t) rows)
IdleAt-twice e t [] = tt
IdleAt-twice e t (row ∷ rows) = (writes-event_row e t row, IdleAt-twice e t rows)

map-idle :
    (e : RuntimeEvent) (t : ℕ) (rows : List SessionRow)
    → IdleAt e rows
    → map (event_row e t) rows ≡ rows
map-idle e t [] h = refl
map-idle e t (row ∷ rows) h = rw (event_row-idle e t row h.0, map-idle e t rows h.1) refl

Replay-keeps :
    (e : RuntimeEvent) (es : List RuntimeEvent) (a b : List SessionRow)
    → Replay es a b
    → All (λ f. same_key (from_event e) (from_event f) ≡ false) es
    → IdleAt e a
    → IdleAt e b
Replay-keeps e es a b (stop rows) other h = h
Replay-keeps e es a b (step f t fs rows end r) other h =
    Replay-keeps e fs (map (event_row f t) rows) b r other.1
      (IdleAt-map e f t rows (λ row idle. writes-other e f t row idle other.0) h)

-- After a replay of events of different keys, none of them has anything to write.
pub Replay-Idle :
    (es : List RuntimeEvent) (a b : List SessionRow) → Replay es a b → DistinctEvents es → Idle es b
Replay-Idle es a b (stop rows) d = tt
Replay-Idle es a b (step e t fs rows end r) d = (
  Replay-keeps e fs (map (event_row e t) rows) b r d.0 (IdleAt-twice e t rows),
  Replay-Idle fs (map (event_row e t) rows) b r d.1,
)

-- A replay of events that have nothing to write leaves the table.
pub Replay-nothing :
    (es : List RuntimeEvent) (a b : List SessionRow) → Replay es a b → Idle es a → b ≡ a
Replay-nothing es a b (stop rows) h = refl
Replay-nothing es a b (step e t fs rows end r) h =
    let same = map-idle e t rows h.0 in
    Replay-nothing fs (map (event_row e t) rows) b r (rw same h.1) ∙ same

pub Replay-replayed :
    (now : ℕ → ℕ) (n : ℕ) (es : List RuntimeEvent) (rows : List SessionRow)
    → Replay es rows (map (replayed now n es) rows)
unfolding replayed
Replay-replayed now n [] rows = rw (map-id rows) (stop rows)
Replay-replayed now n (e ∷ es) rows = step e (now n) es rows _ (
    rw (sym (map-map (replayed now (n + 1) es) (event_row e (now n)) rows))
      (Replay-replayed now (n + 1) es (map (event_row e (now n)) rows)))
