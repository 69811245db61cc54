-- ===== src/Session/Selector/Tests.antt =====
-- Selectors and their restriction at concrete sessions.
use littleorgans.Base.{ℕ, ◌+◌, ◌≡◌, refl, some, List, [], ◌∷◌, true}
use littleorgans.Base.Exec.{ok, err}
use littleorgans.Session.Store.Events.Tests.{spawning_session}
use littleorgans.Session.Selector.{
  Selector, Session, role, namespace, and, all, no_more, followed_by, explicit, namespace_conflict,
  prefix, dir, collect_prefix_selectors, session_matches_selector, scoped_to_namespace,
}
use littleorgans.Session.Selector.Query.{list_sessions_by_selector}
use littleorgans.Session.Selector.Selects.{Passing, alone, list_sessions_by_selector-Passing}
use littleorgans.Session.Selector.Scope.{Scoped, scoped_to_namespace-Scoped}

-- The text of an id is its last digits.
abbrev digits : ℕ → List ℕ
digits i = (48 + i) ∷ []

abbrev general : Session
general = record { row = spawning_session 7; labels = [] }

abbrev elsewhere : Selector
elsewhere = and (followed_by (role "general") (followed_by (namespace "other") no_more))

selects :
    session_matches_selector digits general
      (and (followed_by (role "general") (followed_by (prefix (55 ∷ [])) no_more)))
    ≡ true
unfolding session_matches_selector
selects = refl

refuses : scoped_to_namespace (some elsewhere) "default" explicit ≡ err (namespace_conflict "other")
unfolding scoped_to_namespace
refuses = refl

collects :
    collect_prefix_selectors (and (followed_by all (followed_by (prefix (55 ∷ [])) no_more)))
    ≡ (55 ∷ []) ∷ []
unfolding collect_prefix_selectors
collects = refl

scoped_to_namespace-Scoped_example :
    Scoped digits general "default" explicit
      (role "general")
      (scoped_to_namespace (some (role "general")) "default" explicit)
scoped_to_namespace-Scoped_example =
    scoped_to_namespace-Scoped digits general "default" explicit (role "general")

abbrev by_prefix : Selector
by_prefix =
    and (followed_by (role "general") (followed_by (prefix (55 ∷ 55 ∷ 55 ∷ 55 ∷ [])) no_more))

-- The text of an id is four times a digit.
abbrev four_digits : ℕ → List ℕ
four_digits i = (48 + i) ∷ (48 + i) ∷ (48 + i) ∷ (48 + i) ∷ []

selects_one : list_sessions_by_selector four_digits (general ∷ []) by_prefix ≡ ok (general ∷ [])
unfolding list_sessions_by_selector
selects_one = refl

list_sessions_by_selector-Passing_example :
    Passing four_digits
      (general ∷ [])
      (collect_prefix_selectors by_prefix)
      (alone four_digits by_prefix)
      (list_sessions_by_selector four_digits (general ∷ []) by_prefix)
list_sessions_by_selector-Passing_example =
    list_sessions_by_selector-Passing four_digits (general ∷ []) (tt, tt) by_prefix

-- A slash at the end: the directory alone selects nothing, and inside an `And` it selects.
abbrev slashed : Selector
slashed = dir "/work/"

abbrev in_work : Session
in_work = record general { row = record (spawning_session 7) { dir = "/work" } }

selects_no_text : list_sessions_by_selector digits (in_work ∷ []) slashed ≡ ok []
unfolding list_sessions_by_selector
selects_no_text = refl

selects_path :
    list_sessions_by_selector digits (in_work ∷ []) (and (followed_by slashed no_more))
    ≡ ok (in_work ∷ [])
unfolding list_sessions_by_selector
selects_path = refl
