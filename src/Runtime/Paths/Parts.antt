-- ===== src/Runtime/Paths/Parts.antt =====
-- The parts of a container path, and what normalization makes of a text.
use mathlib.Core.Option.{some_inj}
use mathlib.Core.List.{append_assoc, append-nil}
use littleorgans.Base.{
  ℕ, ◌≡◌, refl, sym, ap, ◌∙◌, Bool, Bool-cases, inl, inr, true, false, not, ◌&&◌, ◌||◌, ◌==◌, none,
  some, List, [], ◌∷◌, ◌++◌, if◌then◌else◌, arith, All, All-append, both_true,
}
use littleorgans.Base.Text.{starts_with, same_text, is_empty}
use littleorgans.Runtime.Paths.{
  slash, dot, dots, split_slash, to_first, join_slash, pop, with_part, with_parts, rooted,
  normalize_container_path,
}

abbrev pub no_slash : List ℕ → Bool
no_slash [] = true
no_slash (c ∷ cs) = not (c == 47) && no_slash cs

abbrev pub NoSlash : List ℕ → Type 0
NoSlash part = no_slash part ≡ true

-- A name of a directory or a file: it is not empty, has no slash, and is neither `.` nor `..`.
abbrev pub IsPart : List ℕ → Type 0
IsPart part =
    NoSlash part × ((is_empty part || same_text part dot) ≡ false) × (same_text part dots ≡ false)

-- The text of a list of parts.
abbrev pub IsNormal : List ℕ → Type 0
IsNormal path = (parts : List (List ℕ)) × All IsPart parts × (path ≡ rooted parts)

pub tail-NoSlash : (c : ℕ) (cs : List ℕ) → NoSlash (c ∷ cs) → NoSlash cs
tail-NoSlash c cs h = (both_true (not (c == 47)) (no_slash cs) h).1

split_part : (part : List ℕ) → NoSlash part → split_slash part ≡ part ∷ []
split_part [] h = refl
split_part (c ∷ cs) h = elim (Bool-cases (c == 47)) [
  | inl e ↦ ground arith
  | inr e ↦ rw (e, split_part cs (tail-NoSlash c cs h)) refl
]

split_at :
    (part rest : List ℕ) → NoSlash part → split_slash (part ++ 47 ∷ rest) ≡ part ∷ split_slash rest
split_at [] rest h = refl
split_at (c ∷ cs) rest h = elim (Bool-cases (c == 47)) [
  | inl e ↦ ground arith
  | inr e ↦ rw (e, split_at cs rest (tail-NoSlash c cs h)) refl
]

split-join :
    (part : List ℕ) (parts : List (List ℕ))
    → All IsPart (part ∷ parts)
    → split_slash (join_slash (part ∷ parts)) ≡ part ∷ parts
split-join part [] h = split_part part h.0.0
split-join part (q ∷ parts) h =
    split_at part (join_slash (q ∷ parts)) h.0.0 ∙ ap (λ ps. part ∷ ps) (split-join q parts h.1)

with_part-IsPart :
    (parts : List (List ℕ)) (part : List ℕ)
    → IsPart part
    → with_part parts part ≡ parts ++ part ∷ []
with_part-IsPart parts part h = rw (h.1, h.2) refl

with_parts-IsPart :
    (parts rest : List (List ℕ)) → All IsPart rest → with_parts parts rest ≡ parts ++ rest
with_parts-IsPart parts [] h = sym (append-nil parts)
with_parts-IsPart parts (part ∷ rest) h =
    ap (λ ps. with_parts ps rest) (with_part-IsPart parts part h.0)
    ∙ with_parts-IsPart (parts ++ part ∷ []) rest h.1
    ∙ append_assoc parts (part ∷ []) rest

-- The text of parts is left as it is.
pub normalize-rooted :
    (parts : List (List ℕ))
    → All IsPart parts
    → normalize_container_path (rooted parts) ≡ some (rooted parts)
unfolding normalize_container_path
normalize-rooted [] h = refl
normalize-rooted (part ∷ parts) h =
    rw (split-join part parts h, with_parts-IsPart [] (part ∷ parts) h) refl

All-to_first :
    (c : ℕ) (parts : List (List ℕ))
    → (c == 47) ≡ false
    → All NoSlash parts
    → All NoSlash (to_first c parts)
All-to_first c [] e h = (rw e refl, tt)
All-to_first c (part ∷ parts) e h = (rw e h.0, h.1)

pub split-NoSlash : (text : List ℕ) → All NoSlash (split_slash text)
split-NoSlash [] = (refl, tt)
split-NoSlash (c ∷ cs) = elim (Bool-cases (c == 47)) [
  | inl e ↦ rw e (refl, split-NoSlash cs)
  | inr e ↦ rw e (All-to_first c (split_slash cs) e (split-NoSlash cs))
]

All-pop : (parts : List (List ℕ)) → All IsPart parts → All IsPart (pop parts)
All-pop [] h = tt
All-pop (p ∷ []) h = tt
All-pop (p ∷ (q ∷ parts)) h = (h.0, All-pop (q ∷ parts) h.1)

with_part-All :
    (parts : List (List ℕ)) (part : List ℕ)
    → All IsPart parts
    → NoSlash part
    → All IsPart (with_part parts part)
with_part-All parts part h n = elim (Bool-cases (is_empty part || same_text part dot)) [
  | inl e ↦ rw e h
  | inr e ↦ elim (Bool-cases (same_text part dots)) [
    | inl d ↦ rw (e, d) (All-pop parts h)
    | inr d ↦ rw (e, d) (All-append IsPart parts (part ∷ []) h ((n, e, d), tt))
  ]
]

with_parts-All :
    (parts rest : List (List ℕ))
    → All IsPart parts
    → All NoSlash rest
    → All IsPart (with_parts parts rest)
with_parts-All parts [] h n = h
with_parts-All parts (part ∷ rest) h n =
    with_parts-All (with_part parts part) rest (with_part-All parts part h n.0) n.1

normalized :
    (value path : List ℕ)
    → starts_with value slash ≡ true
    → normalize_container_path value ≡ some path
    → some path ≡ some (rooted (with_parts [] (split_slash value)))
unfolding normalize_container_path
normalized value path e h =
    sym h ∙ ap (λ b. if b then some (rooted (with_parts [] (split_slash value))) else none) e

-- A normalized path is the text of a list of parts.
pub normalize-IsNormal :
    (value path : List ℕ) → normalize_container_path value ≡ some path → IsNormal path
unfolding normalize_container_path
normalize-IsNormal value path h = elim (Bool-cases (starts_with value slash)) [
  | inr e ↦ absurd (cc)
  | inl e ↦ (
    _,
    with_parts-All [] (split_slash value) tt (split-NoSlash value),
    some_inj.0 (normalized value path e h),
  )
]

again : (path : List ℕ) → IsNormal path → normalize_container_path path ≡ some path
again path (parts, all, e) = rw e (normalize-rooted parts all)

-- Normalization leaves a path that it has given as it is.
pub normalize-idempotent :
    (value path : List ℕ)
    → normalize_container_path value ≡ some path
    → normalize_container_path path ≡ some path
normalize-idempotent value path h = again path (normalize-IsNormal value path h)
