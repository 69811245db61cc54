-- ===== src/Runtime/Paths/Prefixes.antt =====
-- `container_path_covers` on texts against the prefixes of lists of parts.
use mathlib.Core.List.{append-nil}
use littleorgans.Base.{
  ℕ, ◌≡◌, refl, sym, ap, ◌∙◌, Bool, Bool-cases, inl, inr, true, false, ◌&&◌, ◌||◌, ◌==◌, Option,
  none, some, List, [], ◌∷◌, ◌++◌, arith, All,
}
use littleorgans.Base.Text.{starts_with, same_text, is_empty}
use littleorgans.Runtime.Paths.{slash, rooted, strip_text, is_rooted_tail, container_path_covers}
use littleorgans.Runtime.Paths.Parts.{NoSlash, IsPart, tail-NoSlash}

-- The first parts of `value` are those of `root`.
abbrev pub begins_with : List (List ℕ) → List (List ℕ) → Bool
begins_with value [] = true
begins_with [] (p ∷ ps) = false
begins_with (q ∷ qs) (p ∷ ps) = same_text q p && begins_with qs ps

-- Each part after a slash.
abbrev slashed : List (List ℕ) → List ℕ
slashed [] = []
slashed (p ∷ ps) = 47 ∷ (p ++ slashed ps)

rooted-slashed : (p : List ℕ) (ps : List (List ℕ)) → rooted (p ∷ ps) ≡ slashed (p ∷ ps)
rooted-slashed p [] = ap (λ t. 47 ∷ t) (sym (append-nil p))
rooted-slashed p (q ∷ ps) = ap (λ t. 47 ∷ (p ++ t)) (rooted-slashed q ps)

-- What is left after a prefix ends there or goes on with a slash.
abbrev ends_part : Option (List ℕ) → Bool
ends_part none = false
ends_part (some tail) = is_empty tail || starts_with tail slash

whole_part :
    (text base : List ℕ)
    → (same_text text base || is_rooted_tail (strip_text text base))
      ≡ ends_part (strip_text text base)
whole_part [] [] = refl
whole_part (c ∷ cs) [] = refl
whole_part [] (p ∷ ps) = refl
whole_part (c ∷ cs) (p ∷ ps) = elim (Bool-cases (c == p)) [
  | inl e ↦ rw e (whole_part cs ps)
  | inr e ↦ rw e refl
]

next_part :
    (q p : List ℕ) (qs ps : List (List ℕ))
    → NoSlash q
    → NoSlash p
    → ends_part (strip_text (q ++ slashed qs) (p ++ slashed ps))
      ≡ (same_text q p && ends_part (strip_text (slashed qs) (slashed ps)))
next_part [] [] qs ps n m = refl
next_part (c ∷ cs) [] qs [] n m = elim (Bool-cases (c == 47)) [
  | inl e ↦ ground arith
  | inr e ↦ rw e refl
]
next_part (c ∷ cs) [] qs (p ∷ ps) n m = elim (Bool-cases (c == 47)) [
  | inl e ↦ ground arith
  | inr e ↦ rw e refl
]
next_part [] (d ∷ ds) [] ps n m = refl
next_part [] (d ∷ ds) (q ∷ qs) ps n m = elim (Bool-cases (47 == d)) [
  | inl e ↦ ground arith
  | inr e ↦ rw e refl
]
next_part (c ∷ cs) (d ∷ ds) qs ps n m = elim (Bool-cases (c == d)) [
  | inl e ↦ rw e (next_part cs ds qs ps (tail-NoSlash c cs n) (tail-NoSlash d ds m))
  | inr e ↦ rw e refl
]

slashed_lem :
    (vs rs : List (List ℕ))
    → All IsPart vs
    → All IsPart rs
    → ends_part (strip_text (slashed vs) (slashed rs)) ≡ begins_with vs rs
slashed_lem [] [] h k = refl
slashed_lem (v ∷ vs) [] h k = refl
slashed_lem [] (r ∷ rs) h k = refl
slashed_lem (v ∷ vs) (r ∷ rs) h k =
    next_part v r vs rs h.0.0 k.0.0 ∙ ap (λ b. same_text v r && b) (slashed_lem vs rs h.1 k.1)

not_slash :
    (r : List ℕ) (rs : List (List ℕ)) → IsPart r → same_text (slashed (r ∷ rs)) slash ≡ false
not_slash [] rs h = ground arith
not_slash (c ∷ cs) rs h = refl

pub rooted-not_slash :
    (r : List ℕ) (rs : List (List ℕ)) → IsPart r → same_text (rooted (r ∷ rs)) slash ≡ false
rooted-not_slash r rs h = ap (λ t. same_text t slash) (rooted-slashed r rs) ∙ not_slash r rs h

nothing_left :
    (r : List ℕ) (rs : List (List ℕ))
    → IsPart r
    → ends_part (strip_text slash (slashed (r ∷ rs))) ≡ false
nothing_left [] rs h = ground arith
nothing_left (c ∷ cs) rs h = refl

root_covers : (value : List ℕ) → container_path_covers slash value ≡ true
unfolding container_path_covers
root_covers value = refl

covers-slashed :
    (r : List ℕ) (rs : List (List ℕ)) (value : List ℕ)
    → IsPart r
    → container_path_covers (slashed (r ∷ rs)) value
      ≡ ends_part (strip_text value (slashed (r ∷ rs)))
unfolding container_path_covers
covers-slashed r rs value h =
    ap
      (λ b.
        b
        || (same_text value (slashed (r ∷ rs))
            || is_rooted_tail (strip_text value (slashed (r ∷ rs)))))
      (not_slash r rs h)
    ∙ whole_part value (slashed (r ∷ rs))

-- For normalized paths the test on texts is the one on their parts.
pub container_path_covers-rooted :
    (rs vs : List (List ℕ))
    → All IsPart rs
    → All IsPart vs
    → container_path_covers (rooted rs) (rooted vs) ≡ begins_with vs rs
container_path_covers-rooted [] vs k h = root_covers (rooted vs)
container_path_covers-rooted (r ∷ rs) [] k h =
    ap (λ t. container_path_covers t slash) (rooted-slashed r rs)
    ∙ covers-slashed r rs slash k.0
    ∙ nothing_left r rs k.0
container_path_covers-rooted (r ∷ rs) (v ∷ vs) k h =
    ap (λ t. container_path_covers t (rooted (v ∷ vs))) (rooted-slashed r rs)
    ∙ ap (λ t. container_path_covers (slashed (r ∷ rs)) t) (rooted-slashed v vs)
    ∙ covers-slashed r rs (slashed (v ∷ vs)) k.0
    ∙ slashed_lem (v ∷ vs) (r ∷ rs) h k
