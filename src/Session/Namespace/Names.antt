-- ===== src/Session/Namespace/Names.antt =====
-- Which texts name a namespace.
use littleorgans.Base.{
  ℕ, ◌≤◌, ◌≡◌, refl, Bool, true, false, not, ◌⊎◌, ◌&&◌, List, [], ◌∷◌, ltb, leb, arith, length,
  Bool-cases, inl, inr,
}
use littleorgans.Base.Exec.{Result, ok, err}
use littleorgans.Base.Text.{starts_with, same_text}
use littleorgans.Session.Namespace.{
  NamespaceError, too_long, must_start_with_letter, reserved_namespace_prefix, default_namespace,
  byte_length, is_ascii_lowercase, is_slug, check_characters, validate_namespace_slug,
  unless_reserved, new, ensure_not_default, for_create,
}

-- Every character passes the test.
abbrev pub all_slug : List ℕ → Bool
all_slug [] = true
all_slug (c ∷ cs) = is_slug c && all_slug cs

abbrev pub first_is_lowercase : List ℕ → Bool
first_is_lowercase [] = false
first_is_lowercase (c ∷ cs) = is_ascii_lowercase c

-- A name has at most 63 characters, each a lower-case ASCII letter, a digit or a dash, the first one
-- a letter, and does not begin with the reserved prefix.
abbrev pub is_slug_text : List ℕ → Bool
is_slug_text text = leb (length text) 63 && first_is_lowercase text && all_slug text

abbrev pub is_name : List ℕ → Bool
is_name text = is_slug_text text && not (starts_with text reserved_namespace_prefix)

-- `answer` accepts the text as it is if the test passes, and is an error if not.
abbrev pub Decides : Bool → List ℕ → Result NamespaceError (List ℕ) → Type 0
Decides test text answer =
    ((test ≡ true) × (answer ≡ ok text))
    ⊎ ((test ≡ false) × ((e : NamespaceError) × (answer ≡ err e)))

ascii_length : (text : List ℕ) → all_slug text ≡ true → byte_length text ≡ length text
ascii_length [] h = refl
ascii_length (c ∷ cs) h = ground (arith, ascii_length cs)

length_le : (text : List ℕ) → length text ≤ byte_length text
length_le [] = ground arith
length_le (c ∷ cs) = ground (arith, length_le cs)

check_characters-cases :
    (cs : List ℕ)
    → ((all_slug cs ≡ true) × (check_characters cs ≡ ok tt))
      ⊎ ((all_slug cs ≡ false) × ((e : NamespaceError) × (check_characters cs ≡ err e)))
check_characters-cases [] = inl (refl, refl)
check_characters-cases (c ∷ cs) = elim (Bool-cases (is_slug c)) [
  | inl fits ↦ rw fits (check_characters-cases cs)
  | inr other ↦ rw other (inr (refl, (_, refl)))
]

lowercase_is_slug : (c : ℕ) → is_ascii_lowercase c ≡ true → is_slug c ≡ true
lowercase_is_slug c h = ground arith

refused_slug :
    (c : ℕ) (cs : List ℕ) → ltb 63 (byte_length (c ∷ cs)) ≡ true → is_slug_text (c ∷ cs) ≡ false
refused_slug c cs big = ground (arith, ascii_length cs)

slug-cases :
    (text : List ℕ)
    → ((is_slug_text text ≡ true) × (validate_namespace_slug text ≡ ok tt))
      ⊎ ((is_slug_text text ≡ false)
          × ((e : NamespaceError) × (validate_namespace_slug text ≡ err e)))
unfolding validate_namespace_slug
slug-cases [] = inr (refl, (_, refl))
slug-cases (c ∷ cs) = elim (Bool-cases (ltb 63 (byte_length (c ∷ cs)))) [
  | inl big ↦ inr (refused_slug c cs big, (too_long (byte_length (c ∷ cs)), rw big refl))
  | inr fits ↦ elim (Bool-cases (is_ascii_lowercase c)) [
    | inr other ↦ inr (ground arith, (must_start_with_letter, rw (fits, other) refl))
    | inl low ↦ elim (check_characters-cases cs) [
      | inl (good, passes) ↦ inl (ground (arith, length_le cs), rw (fits, low) passes)
      | inr (bad, (e, fails)) ↦ inr (ground arith, (e, rw (fits, low) fails))
    ]
  ]
]

refused :
    (text : List ℕ) (slug : Bool) (r : Result NamespaceError (Unit {0})) (e : NamespaceError)
    → slug ≡ false
    → r ≡ err e
    → Decides
        (slug && not (starts_with text reserved_namespace_prefix))
        text
        (unless_reserved text r)
refused text slug r e bad is = rw (is, bad) (inr (refl, (e, refl)))

accepted :
    (text : List ℕ) (slug : Bool) (r : Result NamespaceError (Unit {0}))
    → slug ≡ true
    → r ≡ ok tt
    → Decides
        (slug && not (starts_with text reserved_namespace_prefix))
        text
        (unless_reserved text r)
accepted text slug r good is = elim (Bool-cases (starts_with text reserved_namespace_prefix)) [
  | inl mine ↦ rw (is, good, mine) (inr (refl, (_, refl)))
  | inr free ↦ rw (is, good, free) (inl (refl, refl))
]

-- `Namespace::new` accepts a name and gives it back as it is, and refuses every other text with an
-- error.
pub new-Decides : (text : List ℕ) → Decides (is_name text) text (new text)
unfolding new
new-Decides text = elim (slug-cases text) [
  | inl (good, passes) ↦
      accepted text (is_slug_text text) (validate_namespace_slug text) good passes
  | inr (bad, (e, fails)) ↦
      refused text (is_slug_text text) (validate_namespace_slug text) e bad fails
]

renamed :
    (text : List ℕ) (test : Bool) (r : Result NamespaceError (List ℕ))
    → Decides test text r
    → Decides (test && not (same_text text default_namespace)) text (ensure_not_default r)
renamed text test r (inr (bad, (e, fails))) = rw (bad, fails) (inr (refl, (e, refl)))
renamed text test r (inl (good, passes)) = elim (Bool-cases (same_text text default_namespace)) [
  | inl mine ↦ rw (good, passes, mine) (inr (refl, (_, refl)))
  | inr free ↦ rw (good, passes, free) (inl (refl, refl))
]

-- `Namespace::for_create` accepts the names but for the default one, gives each back as it is, and
-- refuses every other text with an error.
pub for_create-Decides :
    (text : List ℕ)
    → Decides (is_name text && not (same_text text default_namespace)) text (for_create text)
unfolding for_create
for_create-Decides text = renamed text (is_name text) (new text) (new-Decides text)
