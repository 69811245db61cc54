-- ===== src/Session/Selector/Query.antt =====
-- `list_sessions_by_selector` of internal/session/store/src/postgres/sessions.rs: the sessions that a
-- selector selects. The table is the list of the sessions in the order of `created_at`, each with its
-- labels, so an ordered `SELECT` keeps the rows of its condition; its rows decode.
use Prim.Native.String.{String}
use text.Mathlib.Text.{◌==◌ as str_eq}
use littleorgans.Base.{
  ℕ, Bool, true, not, ◌&&◌, ◌||◌, ◌==◌, List, [], ◌∷◌, ◌++◌, map, if◌then◌else◌, ltb, leb, keep,
  length,
}
use littleorgans.Base.Exec.{Result, ok, err}
use littleorgans.Base.Text.{starts_with}
use littleorgans.Session.Namespace.{byte_length, is_ascii_digit}
use littleorgans.Session.Selector.{
  Selector, Selectors, Label, Session, eq, in_values, id, prefix, label, namespace, dir, and, role,
  all, no_more, followed_by, session_matches_selector, collect_prefixes, is_label, is_label_in,
}

pub data SelectError : Type 0 where
  prefix_too_short : List ℕ → ℕ → SelectError
  invalid_prefix : List ℕ → SelectError
  ambiguous : List ℕ → List (List ℕ) → SelectError

abbrev pub min_selector_prefix_len : ℕ
min_selector_prefix_len = 4

-- `'0'..='9' | 'a'..='f' | '-'`
abbrev is_prefix_char : ℕ → Bool
is_prefix_char c = is_ascii_digit c || ((leb 97 c && leb c 102) || c == 45)

abbrev all_prefix_chars : List ℕ → Bool
all_prefix_chars [] = true
all_prefix_chars (c ∷ cs) = is_prefix_char c && all_prefix_chars cs

unfoldable pub validate_session_id_prefix : List ℕ → Result SelectError (Unit {0})
validate_session_id_prefix p =
    if ltb (byte_length p) min_selector_prefix_len
    then err (prefix_too_short p min_selector_prefix_len)
    else if not (all_prefix_chars p)
    then err (invalid_prefix p)
    else ok tt

-- A session comes back once for each of its labels that the join keeps.
abbrev pub copies : (Label → Bool) → List Label → Session → List Session
copies test [] x = []
copies test (l ∷ ls) x = if test l then x ∷ copies test ls x else copies test ls x

abbrev pub join : (Label → Bool) → List Session → List Session
join test [] = []
join test (x ∷ xs) = copies test x.labels x ++ join test xs

module _ (id_text : ℕ → List ℕ) (sessions : List Session) where
  abbrev pub has_prefix : List ℕ → Session → Bool
  has_prefix p x = starts_with (id_text x.row.id) p

  abbrev pub unique_or : List ℕ → List Session → Result SelectError (List Session)
  unique_or p xs =
      if leb (length xs) 1 then ok xs else err (ambiguous p (map (λ x. id_text x.row.id) xs))

  abbrev pub prefixed : List ℕ → Result SelectError (Unit {0}) → Result SelectError (List Session)
  prefixed p (ok _) = unique_or p (keep (has_prefix p) sessions)
  prefixed p (err e) = err e

  unfoldable pub query_prefix_sessions : List ℕ → Result SelectError (List Session)
  unfolding validate_session_id_prefix
  query_prefix_sessions p = prefixed p (validate_session_id_prefix p)

  -- The other prefixes are only checked.
  abbrev pub checking :
      Result SelectError (List Session)
      → Result SelectError (List Session)
      → Result SelectError (List Session)
  checking (ok _) rest = rest
  checking (err e) rest = err e

  abbrev pub check_rest : List (List ℕ) → List Session → Result SelectError (List Session)
  check_rest [] xs = ok xs
  check_rest (p ∷ ps) xs = checking (query_prefix_sessions p) (check_rest ps xs)

  abbrev pub after_first :
      List (List ℕ) → Result SelectError (List Session) → Result SelectError (List Session)
  after_first ps (ok xs) = check_rest ps xs
  after_first ps (err e) = err e

  abbrev pub candidates : List (List ℕ) → Result SelectError (List Session)
  candidates [] = ok sessions
  candidates (p ∷ ps) = after_first ps (query_prefix_sessions p)

  abbrev pub retain : Selectors → List Session → List Session
  retain no_more xs = xs
  retain (followed_by s ss) xs = retain ss (keep (λ x. session_matches_selector id_text x s) xs)

  abbrev pub retained :
      Selectors → Result SelectError (List Session) → Result SelectError (List Session)
  retained ss (ok xs) = ok (retain ss xs)
  retained ss (err e) = err e

  unfoldable pub query_and_sessions : Selectors → Result SelectError (List Session)
  unfolding query_prefix_sessions collect_prefixes session_matches_selector
  query_and_sessions ss = retained ss (candidates (collect_prefixes ss))

  abbrev pub query_label_in_sessions : String → List String → Result SelectError (List Session)
  query_label_in_sessions key [] = ok []
  query_label_in_sessions key (v ∷ vs) = ok (join (is_label_in key (v ∷ vs)) sessions)

  unfoldable pub list_sessions_by_selector : Selector → Result SelectError (List Session)
  unfolding query_and_sessions query_prefix_sessions
  list_sessions_by_selector all = ok sessions
  list_sessions_by_selector (id i) = ok (keep (λ x. x.row.id == i) sessions)
  list_sessions_by_selector (prefix p) = query_prefix_sessions p
  list_sessions_by_selector (role name) = ok (keep (λ x. str_eq x.row.role name) sessions)
  list_sessions_by_selector (namespace n) = ok (keep (λ x. str_eq x.row.namespace n) sessions)
  list_sessions_by_selector (dir path) = ok (keep (λ x. str_eq x.row.dir path) sessions)
  list_sessions_by_selector (and ss) = query_and_sessions ss
  list_sessions_by_selector (label key (eq value)) = ok (join (is_label key value) sessions)
  list_sessions_by_selector (label key (in_values values)) = query_label_in_sessions key values
