-- ===== src/Runtime/EventLog/Sample.antt =====
-- A concrete line format that meets the laws of serde_json's: the fields of an entry as numbers in
-- unary, each closed by a comma. It serves the tests alone.
use littleorgans.Base.{
  ℕ, zero, suc, ◌+◌, ◌≡◌, refl, ap, ◌∙◌, Bool, Option, none, some, List, [], ◌∷◌, arith, ◌==◌,
}
use littleorgans.Base.Int.{ℤ, pos, negsuc}
use littleorgans.Runtime.Lifecycle.{
  RuntimeEvent, LostEvidence, TerminationEvidence, shim_exit, process_exit, shim_died_before_report,
  pid_not_alive, pid_reuse_detected, unknown,
}
use littleorgans.Runtime.EventLog.{EventLogEntry}
use littleorgans.Runtime.EventLog.Recovery.Bytes.{Printable}
use littleorgans.Runtime.EventLog.Recovery.Image.{IsCodec}

abbrev loss : LostEvidence → ℕ
loss shim_died_before_report = 0
loss pid_not_alive = 1
loss pid_reuse_detected = 2
loss unknown = 3

abbrev unloss : ℕ → LostEvidence
unloss zero = shim_died_before_report
unloss (suc zero) = pid_not_alive
unloss (suc (suc zero)) = pid_reuse_detected
unloss (suc (suc (suc n))) = unknown

abbrev end : TerminationEvidence → ℕ
end shim_exit = 0
end process_exit = 1
end (TerminationEvidence.lost e) = suc (suc (loss e))

abbrev unend : ℕ → TerminationEvidence
unend zero = shim_exit
unend (suc zero) = process_exit
unend (suc (suc n)) = TerminationEvidence.lost (unloss n)

abbrev sign : Option ℤ → ℕ
sign none = 0
sign (some (pos n)) = 1
sign (some (negsuc n)) = 2

abbrev size : Option ℤ → ℕ
size none = 0
size (some (pos n)) = n
size (some (negsuc n)) = n

abbrev unsign : ℕ → ℕ → Option ℤ
unsign zero n = none
unsign (suc zero) n = some (pos n)
unsign (suc (suc k)) n = some (negsuc n)

abbrev fields : RuntimeEvent → List ℕ
fields (RuntimeEvent.running i p t) = 0 ∷ i ∷ p ∷ t ∷ []
fields (RuntimeEvent.terminated i c s e) = 1 ∷ i ∷ sign c ∷ size c ∷ sign s ∷ size s ∷ end e ∷ []
fields (RuntimeEvent.lost i e) = 2 ∷ i ∷ loss e ∷ []

abbrev unfields : ℕ → ℕ → List ℕ → Option EventLogEntry
unfields q t (zero ∷ i ∷ p ∷ u ∷ []) =
    some (record { seq = q; ts_ms = t; event = RuntimeEvent.running i p u })
unfields q t (suc zero ∷ i ∷ a ∷ b ∷ c ∷ d ∷ e ∷ []) = some (record {
  seq = q;
  ts_ms = t;
  event = RuntimeEvent.terminated i (unsign a b) (unsign c d) (unend e);
})
unfields q t (suc (suc zero) ∷ i ∷ e ∷ []) =
    some (record { seq = q; ts_ms = t; event = RuntimeEvent.lost i (unloss e) })
unfields q t _ = none

abbrev entry_of : List ℕ → Option EventLogEntry
entry_of (q ∷ t ∷ ns) = unfields q t ns
entry_of _ = none

abbrev unary : ℕ → List ℕ → List ℕ
unary zero rest = 44 ∷ rest
unary (suc n) rest = 49 ∷ unary n rest

abbrev unaries : List ℕ → List ℕ
unaries [] = []
unaries (n ∷ ns) = unary n (unaries ns)

abbrev numbers_from : ℕ → List ℕ → List ℕ
numbers_from n [] = []
numbers_from n (b ∷ bs) = elim (b == 44) [
  | Bool.true ↦ n ∷ numbers_from 0 bs
  | Bool.false ↦ numbers_from (suc n) bs
]

abbrev pub encode : EventLogEntry → List ℕ
encode e = unaries (e.seq ∷ e.ts_ms ∷ fields e.event)

abbrev pub parse : List ℕ → Option EventLogEntry
parse bytes = entry_of (numbers_from 0 bytes)

numbers_from-unary :
    (m n : ℕ) (rest : List ℕ) → numbers_from m (unary n rest) ≡ (m + n) ∷ numbers_from 0 rest
numbers_from-unary m zero rest = ap (λ (k : ℕ). k ∷ numbers_from 0 rest) (omega arith)
numbers_from-unary m (suc n) rest =
    numbers_from-unary (suc m) n rest ∙ ap (λ (k : ℕ). k ∷ numbers_from 0 rest) (omega arith)

numbers_from-unaries : (ns : List ℕ) → numbers_from 0 (unaries ns) ≡ ns
numbers_from-unaries [] = refl
numbers_from-unaries (n ∷ ns) =
    numbers_from-unary 0 n (unaries ns)
    ∙ rw (numbers_from-unaries ns) (ap (λ (k : ℕ). k ∷ ns) (omega arith))

unsign-sign : (o : Option ℤ) → unsign (sign o) (size o) ≡ o
unsign-sign none = refl
unsign-sign (some (pos n)) = refl
unsign-sign (some (negsuc n)) = refl

unloss-loss : (e : LostEvidence) → unloss (loss e) ≡ e
unloss-loss shim_died_before_report = refl
unloss-loss pid_not_alive = refl
unloss-loss pid_reuse_detected = refl
unloss-loss unknown = refl

unend-end : (e : TerminationEvidence) → unend (end e) ≡ e
unend-end shim_exit = refl
unend-end process_exit = refl
unend-end (TerminationEvidence.lost e) = ap TerminationEvidence.lost (unloss-loss e)

unfields-fields :
    (q t : ℕ) (e : RuntimeEvent)
    → unfields q t (fields e) ≡ some (record { seq = q; ts_ms = t; event = e })
unfields-fields q t (RuntimeEvent.running i p u) = refl
unfields-fields q t (RuntimeEvent.terminated i c s e) =
    rw (unsign-sign c, unsign-sign s, unend-end e) refl
unfields-fields q t (RuntimeEvent.lost i e) = rw (unloss-loss e) refl

unary-Printable : (n : ℕ) (rest : List ℕ) → Printable rest → Printable (unary n rest)
unary-Printable zero rest h = (omega arith, h)
unary-Printable (suc n) rest h = (omega arith, unary-Printable n rest h)

unaries-Printable : (ns : List ℕ) → Printable (unaries ns)
unaries-Printable [] = tt
unaries-Printable (n ∷ ns) = unary-Printable n (unaries ns) (unaries-Printable ns)

pub sample-IsCodec : IsCodec encode parse
sample-IsCodec = record {
  parse-encode = λ e.
      ap entry_of (numbers_from-unaries (e.seq ∷ e.ts_ms ∷ fields e.event))
      ∙ unfields-fields e.seq e.ts_ms e.event;
  encode_printable = λ e. unaries-Printable (e.seq ∷ e.ts_ms ∷ fields e.event);
}
