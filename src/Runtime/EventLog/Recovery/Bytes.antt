-- ===== src/Runtime/EventLog/Recovery/Bytes.antt =====
-- Bytes of a log: the last newline, and the lines between newlines.
use mathlib.Core.List.{append_assoc, append-nil}
use littleorgans.Base.{
  ℕ, ◌<◌, ◌≡◌, refl, ◌∙◌, false, some, List, [], ◌∷◌, ◌++◌, arith, length, take, get_last?, All,
  ◌==◌, length-append,
}
use littleorgans.Runtime.EventLog.{newline}
use littleorgans.Runtime.EventLog.Recovery.{after_last_newline, strip_carriage_return, lines_from}

-- No control character, so no newline and no carriage return.
abbrev pub Printable : List ℕ → Type 0
Printable = All (λ b. 31 < b)

pub take-append : (xs ys : List ℕ) → take (length xs) (xs ++ ys) ≡ xs
take-append [] ys = refl
take-append (x ∷ xs) ys = rw (take-append xs ys)

after_last_newline-torn : (torn : List ℕ) → Printable torn → after_last_newline torn ≡ 0
unfolding after_last_newline
after_last_newline-torn [] p = refl
after_last_newline-torn (b ∷ bs) p = ground (arith, after_last_newline-torn bs p.1)

pub after_last_newline-append :
    (xs torn : List ℕ) → Printable torn → after_last_newline (xs ++ torn) ≡ after_last_newline xs
unfolding after_last_newline
after_last_newline-append [] torn p = after_last_newline-torn torn p
after_last_newline-append (x ∷ xs) torn p = rw (after_last_newline-append xs torn p)

-- A text whose rest is complete lines ends in a newline.
pub after_last_newline-line :
    (xs rest : List ℕ)
    → after_last_newline rest ≡ length rest
    → after_last_newline (xs ++ (newline ∷ rest)) ≡ length (xs ++ (newline ∷ rest))
unfolding after_last_newline
after_last_newline-line [] rest h = ground arith
after_last_newline-line (x ∷ xs) rest h =
    ground (arith, after_last_newline-line xs rest h, length-append xs (newline ∷ rest))

pub get_last?-torn :
    (xs : List ℕ) (t : ℕ) (ts : List ℕ)
    → Printable (t ∷ ts)
    → (b : ℕ) × (get_last? (xs ++ (t ∷ ts)) ≡ some b) × (31 < b)
get_last?-torn [] t [] p = (t, refl, p.0)
get_last?-torn [] t (u ∷ ts) p = get_last?-torn [] u ts p.1
get_last?-torn (x ∷ []) t ts p = get_last?-torn [] t ts p
get_last?-torn (x ∷ (y ∷ xs)) t ts p = get_last?-torn (y ∷ xs) t ts p

pub strip_carriage_return-Printable :
    (line : List ℕ) → Printable line → strip_carriage_return line ≡ line
unfolding strip_carriage_return
strip_carriage_return-Printable [] p = refl
strip_carriage_return-Printable (b ∷ []) p = ground arith
strip_carriage_return-Printable (b ∷ (c ∷ bs)) p = rw (strip_carriage_return-Printable (c ∷ bs) p.1)

pub lines_from-line :
    (line xs rest : List ℕ)
    → Printable xs
    → lines_from line (xs ++ (newline ∷ rest))
      ≡ strip_carriage_return (line ++ xs) ∷ lines_from [] rest
unfolding lines_from
lines_from-line line [] rest p = rw append-nil
lines_from-line line (x ∷ xs) rest p =
    let other : (x == newline) ≡ false = ground arith in
    let step = lines_from-line (line ++ x ∷ []) xs rest p.1 in
    rw (other, lines_from) (step ∙ rw append_assoc refl)
