-- ===== src/Session/Selector/Scope.antt =====
-- What the restriction of a selector to a namespace selects.
use Prim.Native.String.{String}
use text.Mathlib.Text.{◌==◌ as str_eq}
use text.Mathlib.TextEquality.{eq_iff}
use littleorgans.Base.{
  both_true, ℕ, ◌≡◌, refl, sym, ap, ◌∙◌, Bool, false, not, ◌||◌, ◌⊎◌, inl, inr, Bool-cases, true,
  ◌&&◌, some, List, arith,
}
use littleorgans.Base.Exec.{Result, ok, err}
use littleorgans.Session.Selector.{
  Selector, Selectors, Session, NamespaceScope, NamespaceMatch, SelectorError, default, explicit,
  unmatched, matches, conflict, namespace_conflict, no_more, followed_by, id, prefix, label,
  namespace, dir, and, role, all, session_matches_selector, all_match, namespace_match, match_loop,
  step_match, within, scoped_by, scoped_to_namespace,
}

-- The selector, or one inside an `And` in it, is of another namespace than the target.
module _ (target : String) where
  unfoldable mutual
    pub names_other : Selector → Bool
    names_other (namespace n) = not (str_eq n target)
    names_other (and selectors) = any_names_other selectors
    names_other _ = false

    pub any_names_other : Selectors → Bool
    any_names_other no_more = false
    any_names_other (followed_by s ss) = names_other s || any_names_other ss

abbrev is_conflict : NamespaceMatch → Bool
is_conflict (conflict _) = true
is_conflict _ = false

is_conflict-step :
    (state m : NamespaceMatch)
    → is_conflict (step_match state m) ≡ (is_conflict state || is_conflict m)
is_conflict-step unmatched unmatched = refl
is_conflict-step unmatched matches = refl
is_conflict-step unmatched (conflict n) = refl
is_conflict-step matches unmatched = refl
is_conflict-step matches matches = refl
is_conflict-step matches (conflict n) = refl
is_conflict-step (conflict n) m = refl

or_assoc : (a b c : Bool) → ((a || b) || c) ≡ (a || (b || c))
or_assoc true b c = refl
or_assoc false b c = refl

or_false : (a : Bool) → a ≡ (a || false)
or_false true = refl
or_false false = refl

module _ (target : String) where
  mutual
    unfolding namespace_match names_other

    conflict_is : (s : Selector) → is_conflict (namespace_match target s) ≡ names_other target s
    conflict_is (namespace n) = elim (Bool-cases (str_eq n target)) [
      | inl e ↦ rw e refl
      | inr e ↦ rw e refl
    ]
    conflict_is (and ss) = loop_is unmatched ss
    conflict_is all = refl
    conflict_is (id i) = refl
    conflict_is (prefix p) = refl
    conflict_is (label key op) = refl
    conflict_is (dir d) = refl
    conflict_is (role r) = refl

    loop_is :
        (state : NamespaceMatch) (ss : Selectors)
        → is_conflict (match_loop target state ss)
          ≡ (is_conflict state || any_names_other target ss)
    loop_is state no_more = or_false (is_conflict state)
    loop_is state (followed_by s ss) =
        loop_is (step_match state (namespace_match target s)) ss
        ∙ ap (λ b. b || any_names_other target ss)
            (is_conflict-step state (namespace_match target s))
        ∙ ap (λ b. (is_conflict state || b) || any_names_other target ss) (conflict_is s)
        ∙ or_assoc (is_conflict state) (names_other target s) (any_names_other target ss)

not_matches : ¬ (unmatched ≡ matches)
not_matches h = cc

conflict_not : (n : String) → ¬ (conflict n ≡ matches)
conflict_not n h = cc

step_match_cases :
    (state m : NamespaceMatch) → step_match state m ≡ matches → (state ≡ matches) ⊎ (m ≡ matches)
step_match_cases unmatched unmatched h = inl h
step_match_cases unmatched matches h = inr refl
step_match_cases unmatched (conflict n) h = absurd (conflict_not n h)
step_match_cases matches m h = inl refl
step_match_cases (conflict n) m h = absurd (conflict_not n h)

module _ (id_text : ℕ → List ℕ) (x : Session) (target : String) where
  mutual
    unfolding namespace_match session_matches_selector

    -- A selector that names the namespace selects in it only.
    matches_within :
        (s : Selector)
        → namespace_match target s ≡ matches
        → session_matches_selector id_text x s ≡ true
        → x.row.namespace ≡ target
    matches_within (namespace n) h k = ground (arith, eq_iff n target, eq_iff x.row.namespace n)
    matches_within (and ss) h k = elim (loop_within unmatched ss h k) [
      | inl e ↦ absurd (not_matches e)
      | inr e ↦ e
    ]
    matches_within all h k = cc
    matches_within (id i) h k = cc
    matches_within (prefix p) h k = cc
    matches_within (label key op) h k = cc
    matches_within (dir d) h k = cc
    matches_within (role r) h k = cc

    -- The loop ends in a match only if it began in one or one of the selectors is one.
    loop_within :
        (state : NamespaceMatch) (ss : Selectors)
        → match_loop target state ss ≡ matches
        → all_match id_text x ss ≡ true
        → (state ≡ matches) ⊎ (x.row.namespace ≡ target)
    loop_within state no_more h k = inl h
    loop_within state (followed_by s ss) h k =
        let (first, rest) = both_true (session_matches_selector id_text x s) _ k in
        elim (loop_within (step_match state (namespace_match target s)) ss h rest) [
          | inl e ↦ elim (step_match_cases state (namespace_match target s) e) [
            | inl began ↦ inl began
            | inr named ↦ inr (matches_within s named first)
          ]
          | inr e ↦ inr e
        ]

  within_matches :
      (s : Selector)
      → session_matches_selector id_text x (within target s)
        ≡ (str_eq x.row.namespace target && session_matches_selector id_text x s)
  unfolding session_matches_selector
  within_matches (namespace n) = ground arith
  within_matches (and ss) = ground arith
  within_matches all = ground arith
  within_matches (id i) = ground arith
  within_matches (prefix p) = ground arith
  within_matches (label key op) = ground arith
  within_matches (dir d) = ground arith
  within_matches (role r) = ground arith

  matched_within :
      (s : Selector)
      → namespace_match target s ≡ matches
      → session_matches_selector id_text x s
        ≡ (str_eq x.row.namespace target && session_matches_selector id_text x s)
  matched_within s h = elim (Bool-cases (session_matches_selector id_text x s)) [
    | inl e ↦
        let same = (eq_iff x.row.namespace target).1 (matches_within s h e) in rw (same, e) refl
    | inr e ↦ rw e (ground arith)
  ]

  -- A result of the restriction: the selector names no other namespace, and the result selects what
  -- it selects in the target; or it names another one, and is taken as it is in the default scope or
  -- refused in the explicit one.
  abbrev pub Scoped : NamespaceScope → Selector → Result SelectorError Selector → Type 0
  Scoped scope s (ok s') =
      ((names_other target s ≡ false)
        × (session_matches_selector id_text x s'
            ≡ (str_eq x.row.namespace target && session_matches_selector id_text x s)))
      ⊎ ((names_other target s ≡ true) × (scope ≡ default) × (s' ≡ s))
  Scoped scope s (err (namespace_conflict n)) =
      (names_other target s ≡ true) × (scope ≡ explicit) × (namespace_match target s ≡ conflict n)

  named :
      (s : Selector) (m : NamespaceMatch)
      → namespace_match target s ≡ m
      → names_other target s ≡ is_conflict m
  named s m e = sym (conflict_is target s) ∙ ap is_conflict e

  scoped_by-Scoped :
      (scope : NamespaceScope) (s : Selector) (m : NamespaceMatch)
      → namespace_match target s ≡ m
      → Scoped scope s (scoped_by m s target scope)
  scoped_by-Scoped scope s unmatched e = inl (named s unmatched e, within_matches s)
  scoped_by-Scoped scope s matches e = inl (named s matches e, matched_within s e)
  scoped_by-Scoped default s (conflict n) e = inr (named s (conflict n) e, refl, refl)
  scoped_by-Scoped explicit s (conflict n) e = (named s (conflict n) e, refl, e)

-- The restriction of a selector to a namespace: for every session, the result selects it exactly if
-- it is in the namespace and the selector selects it, if no part of the selector names another
-- namespace; if one does, the selector is refused in the explicit scope and taken as it is in the
-- default one.
pub scoped_to_namespace-Scoped :
    (id_text : ℕ → List ℕ) (x : Session) (target : String) (scope : NamespaceScope) (s : Selector)
    → Scoped id_text x target scope s (scoped_to_namespace (some s) target scope)
unfolding scoped_to_namespace
scoped_to_namespace-Scoped id_text x target scope s =
    scoped_by-Scoped id_text x target scope s (namespace_match target s) refl
