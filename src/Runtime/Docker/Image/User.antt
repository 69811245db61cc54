-- ===== src/Runtime/Docker/Image/User.antt =====
-- The name in the user of an image, `image_user_is_root` of spawn_preflight.rs: what stands before the
-- first colon, without the whitespace around it.
use littleorgans.Base.{
  ℕ, ◌≡◌, ◌≢◌, refl, ap, ◌∙◌, Bool, Bool-cases, ==_iff, ◌==◌, inl, inr, true, false, ◌||◌, Option,
  none, some, List, [], ◌∷◌, ◌++◌, ◌&&◌, if◌then◌else◌,
}
use mathlib.Core.Path.{subst}
use littleorgans.Base.Text.{is_empty, same_text, same_text_refl, codes}
use littleorgans.Runtime.Paths.{split_text}
use littleorgans.Runtime.Docker.Image.{
  is_whitespace, trim_start, trim_end, trim, first_part, image_user_is_root,
}

abbrev pub Blank : List ℕ → Type 0
Blank [] = Unit
Blank (c ∷ cs) = (is_whitespace c ≡ true) × Blank cs

abbrev pub NoColon : List ℕ → Type 0
NoColon [] = Unit
NoColon (c ∷ cs) = (c ≢ 58) × NoColon cs

-- A text begins, or ends, with a character that is not whitespace, if it has any.
abbrev pub StartsInk : List ℕ → Type 0
StartsInk [] = Unit
StartsInk (c ∷ cs) = is_whitespace c ≡ false

abbrev pub EndsInk : List ℕ → Type 0
EndsInk [] = Unit
EndsInk (c ∷ []) = is_whitespace c ≡ false
EndsInk (_ ∷ (d ∷ cs)) = EndsInk (d ∷ cs)

-- Nothing, or a colon and a group.
abbrev pub GroupText : List ℕ → Type 0
GroupText [] = Unit
GroupText (c ∷ cs) = c ≡ 58

-- `part` is what stands before the first colon.
abbrev pub IsPart : List ℕ → List ℕ → Type 0
IsPart part text = (group : List ℕ) × (text ≡ part ++ group) × NoColon part × GroupText group

-- `name` is the part of the text without the whitespace around it.
abbrev pub IsTrimmed : List ℕ → List ℕ → Type 0
IsTrimmed name text =
    (before : List ℕ) × (after : List ℕ) × (text ≡ before ++ (name ++ after))
    × Blank before
    × Blank after
    × StartsInk name
    × EndsInk name

abbrev pub NamesUser : List ℕ → List ℕ → Type 0
NamesUser name text = (part : List ℕ) × IsPart part text × IsTrimmed name part

-- The image has a user, with a name that is neither empty, 0 nor root.
abbrev pub NotRoot : Option (List ℕ) → Type 0
NotRoot none = ⊥
NotRoot (some text) =
    (name : List ℕ) × NamesUser name text × (name ≢ []) × (name ≢ codes "0") × (name ≢ codes "root")

not_both : {b : Bool} → b ≡ false → b ≡ true → ⊥
not_both h k = absurd cc

split_text-IsPart :
    (text : List ℕ)
    → (part : List ℕ) × (parts : List (List ℕ)) × (split_text 58 text ≡ part ∷ parts)
      × IsPart part text
split_text-IsPart [] = ([], [], refl, ([], refl, tt, tt))
split_text-IsPart (c ∷ cs) =
    let (part, parts, e, (group, joined, plain, ends)) = split_text-IsPart cs in
    elim (Bool-cases (c == 58)) [
      | inl colon ↦ ([], split_text 58 cs, rw colon refl, (c ∷ cs, refl, tt, (==_iff c 58).0 colon))
      | inr other ↦ (
        c ∷ part,
        parts,
        rw (other, e) refl,
        (group, ap (λ t. c ∷ t) joined, ((λ h. not_both other ((==_iff c 58).1 h)), plain), ends),
      )
    ]

trim_start-StartsInk :
    (text : List ℕ)
    → (before : List ℕ) × (text ≡ before ++ trim_start text)
      × Blank before
      × StartsInk (trim_start text)
trim_start-StartsInk [] = ([], refl, tt, tt)
trim_start-StartsInk (c ∷ cs) =
    let (before, joined, blank, ink) = trim_start-StartsInk cs in
    elim (Bool-cases (is_whitespace c)) [
      | inl white ↦ rw white (c ∷ before, ap (λ t. c ∷ t) joined, (white, blank), ink)
      | inr other ↦ rw other ([], refl, tt, other)
    ]

-- One character before a text that was trimmed at its end.
trim_end_step :
    (c : ℕ) (cs rest after : List ℕ) (b : Bool)
    → is_whitespace c ≡ b
    → cs ≡ rest ++ after
    → Blank after
    → EndsInk rest
    → (after' : List ℕ) × (c ∷ cs ≡ (if b && is_empty rest then [] else c ∷ rest) ++ after')
      × Blank after'
      × EndsInk (if b && is_empty rest then [] else c ∷ rest)
      × (StartsInk (c ∷ cs) → StartsInk (if b && is_empty rest then [] else c ∷ rest))
trim_end_step c cs [] after true e joined blank ink =
    (c ∷ after, ap (λ t. c ∷ t) joined, (e, blank), tt, λ h. tt)
trim_end_step c cs (d ∷ ds) after true e joined blank ink =
    (after, ap (λ t. c ∷ t) joined, blank, ink, λ h. h)
trim_end_step c cs [] after false e joined blank ink =
    (after, ap (λ t. c ∷ t) joined, blank, e, λ h. h)
trim_end_step c cs (d ∷ ds) after false e joined blank ink =
    (after, ap (λ t. c ∷ t) joined, blank, ink, λ h. h)

trim_end-EndsInk :
    (text : List ℕ)
    → (after : List ℕ) × (text ≡ trim_end text ++ after)
      × Blank after
      × EndsInk (trim_end text)
      × (StartsInk text → StartsInk (trim_end text))
trim_end-EndsInk [] = ([], refl, tt, tt, λ h. h)
trim_end-EndsInk (c ∷ cs) =
    let (after, joined, blank, ink, _) = trim_end-EndsInk cs in
    trim_end_step c cs (trim_end cs) after (is_whitespace c) refl joined blank ink

trim-IsTrimmed : (text : List ℕ) → IsTrimmed (trim text) text
trim-IsTrimmed text =
    let (before, joined, blank, ink) = trim_start-StartsInk text in
    let (after, joined', blank', ink', keeps) = trim_end-EndsInk (trim_start text) in
    (before, after, joined ∙ ap (λ t. before ++ t) joined', blank, blank', keeps ink, ink')

none_of : (a b c : Bool) → (a || (b || c)) ≡ false → (a ≡ false) × (b ≡ false) × (c ≡ false)
none_of true b c h = absurd cc
none_of false true c h = absurd cc
none_of false false c h = (refl, refl, h)

other_text : (text text' : List ℕ) → same_text text text' ≡ false → text ≢ text'
other_text text text' h k = not_both h (rw k (same_text_refl text'))

filled : (text : List ℕ) → is_empty text ≡ false → text ≢ []
filled text h k = not_both h (rw k refl)

-- A user that is not taken as root has a name that is neither empty, 0 nor root.
pub image_user_is_root-NotRoot :
    (user : Option (List ℕ)) → image_user_is_root user ≡ false → NotRoot user
unfolding image_user_is_root
image_user_is_root-NotRoot none h = absurd cc
image_user_is_root-NotRoot (some text) h =
    let (part, parts, e, is_part) = split_text-IsPart text in
    let name = trim part in
    let (full, not_0, not_root) =
      none_of (is_empty name) (same_text name (codes "0")) (same_text name (codes "root"))
        (subst (λ ps. is_root (trim (first_part ps text)) ≡ false) e h) in
    (
      name,
      (part, is_part, trim-IsTrimmed part),
      filled name full,
      other_text name (codes "0") not_0,
      other_text name (codes "root") not_root,
    )
  where
    is_root : List ℕ → Bool
    is_root name = is_empty name || (same_text name (codes "0") || same_text name (codes "root"))
