-- ===== src/Session/Selector/Selects.antt =====
-- A selection is what the selector matches: the queries against the test on one session.
use littleorgans.Session.Selector.Kept.{
  keep-congr, keep-keep, and_assoc, and_true, and_absorb, keep_all, same_dir,
}
use text.Mathlib.Text.{◌==◌ as str_eq}
use littleorgans.Base.{
  ◌==◌, both_true, ℕ, ◌≡◌, refl, ap, ◌∙◌, Bool, ◌⊎◌, inl, inr, true, false, ◌&&◌, List, [], ◌∷◌,
  if◌then◌else◌, keep, All, All-append,
}
use littleorgans.Base.Exec.{Result, ok, err}
use littleorgans.Base.Text.{starts_with}
use littleorgans.Session.Selector.{
  Selector, Selectors, Session, eq, in_values, id, prefix, label, namespace, dir, and, role, all,
  no_more, followed_by, session_matches_selector, all_match, collect_prefix_selectors,
  collect_prefixes, is_one_of, any_label, is_label, is_label_in,
}
use littleorgans.Session.Selector.Query.{
  SelectError, has_prefix, prefixed, query_prefix_sessions, checking, check_rest, after_first,
  candidates, retain, retained, query_and_sessions, list_sessions_by_selector,
  validate_session_id_prefix,
}
use littleorgans.Session.Selector.Joins.{DistinctLabels, join-keep, label_key, keep_none}

module _ (id_text : ℕ → List ℕ) (sessions : List Session) where
  retain-keep :
      (ss : Selectors) (q : Session → Bool)
      → retain id_text sessions ss (keep q sessions)
        ≡ keep (λ x. q x && all_match id_text x ss) sessions
  unfolding session_matches_selector
  retain-keep no_more q = keep-congr q (λ x. q x && true) sessions (λ x. and_true (q x))
  retain-keep (followed_by s ss) q =
      rw (keep-keep (λ x. session_matches_selector id_text x s) q sessions) (
        retain-keep ss (λ x. q x && session_matches_selector id_text x s)
        ∙ keep-congr (λ x. (q x && session_matches_selector id_text x s) && all_match id_text x ss)
            (λ x. q x && (session_matches_selector id_text x s && all_match id_text x ss)) sessions
            (λ x. and_assoc (q x) (session_matches_selector id_text x s) (all_match id_text x ss)))

  -- A session that a selector matches has every prefix in it.
  abbrev HasPrefixes : Session → List (List ℕ) → Type 0
  HasPrefixes x ps = All (λ p. starts_with (id_text x.row.id) p ≡ true) ps

  mutual
    unfolding session_matches_selector collect_prefix_selectors

    prefixes_match :
        (x : Session) (s : Selector)
        → session_matches_selector id_text x s ≡ true
        → HasPrefixes x (collect_prefix_selectors s)
    prefixes_match x (prefix p) h = (h, tt)
    prefixes_match x (and ss) h = all_prefixes_match x ss h
    prefixes_match x all h = tt
    prefixes_match x (id i) h = tt
    prefixes_match x (label key op) h = tt
    prefixes_match x (namespace n) h = tt
    prefixes_match x (dir d) h = tt
    prefixes_match x (role r) h = tt

    all_prefixes_match :
        (x : Session) (ss : Selectors)
        → all_match id_text x ss ≡ true
        → HasPrefixes x (collect_prefixes ss)
    all_prefixes_match x no_more h = tt
    all_prefixes_match x (followed_by s ss) h =
        let (first, rest) =
          both_true (session_matches_selector id_text x s) (all_match id_text x ss) h in
        All-append (λ p. starts_with (id_text x.row.id) p ≡ true) (collect_prefix_selectors s)
          (collect_prefixes ss) (prefixes_match x s first) (all_prefixes_match x ss rest)

  abbrev Kept : (Session → Bool) → Result SelectError (List Session) → Type 0
  Kept test (ok xs) = xs ≡ keep test sessions
  Kept test (err e) = Unit

  -- One of the prefixes is refused with the error.
  abbrev pub Refused : List (List ℕ) → SelectError → Type 0
  Refused [] e = ⊥
  Refused (p ∷ ps) e = (query_prefix_sessions id_text sessions p ≡ err e) ⊎ Refused ps e

  -- The sessions that pass a test, or the error of a prefix.
  abbrev pub Passing : List (List ℕ) → (Session → Bool) → Result SelectError (List Session) → Type 0
  Passing ps test (ok xs) = xs ≡ keep test sessions
  Passing ps test (err e) = Refused ps e

  unique_or-Kept :
      (test : Session → Bool) (b : Bool) (e : SelectError)
      → Kept test (if b then ok (keep test sessions) else err e)
  unique_or-Kept test true e = refl
  unique_or-Kept test false e = tt

  prefixed-Kept :
      (p : List ℕ) (r : Result SelectError (Unit {0}))
      → Kept (has_prefix id_text sessions p) (prefixed id_text sessions p r)
  prefixed-Kept p (ok _) = unique_or-Kept (has_prefix id_text sessions p) _ _
  prefixed-Kept p (err e) = tt

  query_prefix_sessions-Kept :
      (p : List ℕ) → Kept (has_prefix id_text sessions p) (query_prefix_sessions id_text sessions p)
  unfolding query_prefix_sessions
  query_prefix_sessions-Kept p = prefixed-Kept p (validate_session_id_prefix p)

  Kept-Passing :
      (p : List ℕ) (ps : List (List ℕ)) (test : Session → Bool)
      (r : Result SelectError (List Session))
      → query_prefix_sessions id_text sessions p ≡ r
      → Kept test r
      → Passing (p ∷ ps) test r
  Kept-Passing p ps test (ok xs) q h = h
  Kept-Passing p ps test (err e) q h = inl q

  query_prefix_sessions-Passing :
      (p : List ℕ) (ps : List (List ℕ))
      → Passing (p ∷ ps) (has_prefix id_text sessions p) (query_prefix_sessions id_text sessions p)
  query_prefix_sessions-Passing p ps = Kept-Passing p ps _ _ refl (query_prefix_sessions-Kept p)

  more_prefixes :
      (p : List ℕ) (ps : List (List ℕ)) (test : Session → Bool)
      (r : Result SelectError (List Session))
      → Passing ps test r
      → Passing (p ∷ ps) test r
  more_prefixes p ps test (ok xs) h = h
  more_prefixes p ps test (err e) h = inr h

  checking-Passing :
      (p : List ℕ) (ps : List (List ℕ)) (test : Session → Bool)
      (r rest : Result SelectError (List Session))
      → query_prefix_sessions id_text sessions p ≡ r
      → Passing ps test rest
      → Passing (p ∷ ps) test (checking id_text sessions r rest)
  checking-Passing p ps test (ok xs) rest q h = more_prefixes p ps test rest h
  checking-Passing p ps test (err e) rest q h = inl q

  check_rest-Passing :
      (test : Session → Bool) (ps : List (List ℕ)) (xs : List Session)
      → xs ≡ keep test sessions
      → Passing ps test (check_rest id_text sessions ps xs)
  check_rest-Passing test [] xs h = h
  check_rest-Passing test (p ∷ ps) xs h =
      checking-Passing p ps test (query_prefix_sessions id_text sessions p) _ refl
        (check_rest-Passing test ps xs h)

  after_first-Passing :
      (p : List ℕ) (ps : List (List ℕ)) (test : Session → Bool)
      (r : Result SelectError (List Session))
      → Passing (p ∷ ps) test r
      → Passing (p ∷ ps) test (after_first id_text sessions ps r)
  after_first-Passing p ps test (ok xs) h =
      more_prefixes p ps test _ (check_rest-Passing test ps xs h)
  after_first-Passing p ps test (err e) h = h

  abbrev first_prefix : List (List ℕ) → Session → Bool
  first_prefix [] x = true
  first_prefix (p ∷ ps) x = has_prefix id_text sessions p x

  candidates-Passing :
      (ps : List (List ℕ)) → Passing ps (first_prefix ps) (candidates id_text sessions ps)
  candidates-Passing [] = keep_all sessions
  candidates-Passing (p ∷ ps) =
      after_first-Passing p ps (has_prefix id_text sessions p)
        (query_prefix_sessions id_text sessions p) (query_prefix_sessions-Passing p ps)

  first_prefix-HasPrefixes :
      (x : Session) (ps : List (List ℕ)) → HasPrefixes x ps → first_prefix ps x ≡ true
  first_prefix-HasPrefixes x [] h = refl
  first_prefix-HasPrefixes x (p ∷ ps) h = h.0

  retained-Passing :
      (ss : Selectors) (r : Result SelectError (List Session))
      → Passing (collect_prefixes ss) (first_prefix (collect_prefixes ss)) r
      → Passing (collect_prefixes ss) (λ x. all_match id_text x ss) (retained id_text sessions ss r)
  retained-Passing ss (ok xs) h =
      ap (retain id_text sessions ss) h
      ∙ (retain-keep ss (first_prefix (collect_prefixes ss))
          ∙ keep-congr (λ x. first_prefix (collect_prefixes ss) x && all_match id_text x ss)
              (λ x. all_match id_text x ss) sessions
              (λ x. and_absorb (first_prefix (collect_prefixes ss) x) (all_match id_text x ss) (λ m.
                first_prefix-HasPrefixes x (collect_prefixes ss) (all_prefixes_match x ss m))))
  retained-Passing ss (err e) h = h

  query_and_sessions-Passing :
      (ss : Selectors)
      → Passing
          (collect_prefixes ss)
          (λ x. all_match id_text x ss)
          (query_and_sessions id_text sessions ss)
  unfolding query_and_sessions
  query_and_sessions-Passing ss =
      retained-Passing ss (candidates id_text sessions (collect_prefixes ss))
        (candidates-Passing (collect_prefixes ss))

module _ (id_text : ℕ → List ℕ) (sessions : List Session) where
  tested :
      (ps : List (List ℕ)) (test : Session → Bool) (r : Result SelectError (List Session))
      → Passing id_text sessions ps test r
      → Passing id_text sessions ps (λ x. test x && true) r
  tested ps test (ok xs) h =
      h ∙ keep-congr test (λ x. test x && true) sessions (λ x. and_true (test x))
  tested ps test (err e) h = h

-- The test of the selector that a whole selection is for: a directory is compared as a text there.
abbrev pub text_test : Session → Selector → Bool
text_test x (dir path) = str_eq x.row.dir path
text_test x _ = true

abbrev pub alone : (ℕ → List ℕ) → Selector → Session → Bool
alone id_text s x = session_matches_selector id_text x s && text_test x s

-- Where no session has a key of a label twice, a selection gives the sessions that the selector
-- matches one by one, each once and in the order of the table, or the error with which one of the
-- selector's prefixes is refused; but a selector that is a directory gives, of the sessions that it
-- matches, those whose directory has its text.
pub list_sessions_by_selector-Passing :
    (id_text : ℕ → List ℕ) (sessions : List Session)
    → All (λ x. DistinctLabels x.labels) sessions
    → (s : Selector)
    → Passing id_text sessions
        (collect_prefix_selectors s)
        (alone id_text s)
        (list_sessions_by_selector id_text sessions s)
unfolding list_sessions_by_selector session_matches_selector collect_prefix_selectors
list_sessions_by_selector-Passing id_text sessions d all = keep_all sessions
list_sessions_by_selector-Passing id_text sessions d (id i) =
    keep-congr _ _ sessions (λ x. and_true (x.row.id == i))
list_sessions_by_selector-Passing id_text sessions d (prefix p) =
    tested id_text sessions (p ∷ []) (has_prefix id_text sessions p) _
      (query_prefix_sessions-Passing id_text sessions p [])
list_sessions_by_selector-Passing id_text sessions d (role r) =
    keep-congr _ _ sessions (λ x. and_true (str_eq x.row.role r))
list_sessions_by_selector-Passing id_text sessions d (namespace n) =
    keep-congr _ _ sessions (λ x. and_true (str_eq x.row.namespace n))
list_sessions_by_selector-Passing id_text sessions d (dir path) =
    keep-congr _ _ sessions (λ x. same_dir x.row.dir path)
list_sessions_by_selector-Passing id_text sessions d (and ss) =
    tested id_text sessions (collect_prefixes ss) (λ x. all_match id_text x ss) _
      (query_and_sessions-Passing id_text sessions ss)
list_sessions_by_selector-Passing id_text sessions d (label key (eq value)) =
    join-keep key (is_label key value) (λ l. label_key key (str_eq l.value value) l) sessions d
    ∙ keep-congr _ _ sessions (λ x. and_true (any_label (is_label key value) x.labels))
list_sessions_by_selector-Passing id_text sessions d (label key (in_values [])) =
    keep_none key sessions
    ∙ keep-congr _ _ sessions (λ x. and_true (any_label (is_label_in key []) x.labels))
list_sessions_by_selector-Passing id_text sessions d (label key (in_values (v ∷ vs))) =
    join-keep key (is_label_in key (v ∷ vs)) (λ l. label_key key (is_one_of l.value (v ∷ vs)) l)
      sessions d
    ∙ keep-congr _ _ sessions (λ x. and_true (any_label (is_label_in key (v ∷ vs)) x.labels))
