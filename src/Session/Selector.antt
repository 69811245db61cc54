-- ===== src/Session/Selector.antt =====
-- internal/session/core/src/selector/types.rs and scope.rs: the selectors of sessions, and the
-- restriction of a selector to a namespace; `session_matches_selector` and
-- `collect_prefix_selectors` of internal/session/store/src/postgres/sessions.rs. The text of a
-- session's id is a parameter, and a directory is its text, which `session_matches_selector` compares as
-- a path.
pub mod Scope
pub mod Query
pub mod Joins
pub mod Kept
pub mod Selects
mod Tests
use Prim.Native.String.{String}
use text.Mathlib.Text.{◌==◌ as str_eq}
use littleorgans.Base.{
  ℕ, Bool, true, false, ◌&&◌, ◌||◌, ◌==◌, Option, none, some, List, [], ◌∷◌, ◌++◌, if◌then◌else◌,
}
use littleorgans.Base.Exec.{Result, ok, err}
use littleorgans.Base.Text.{starts_with, codes}
use littleorgans.Runtime.Paths.{same_path}
use littleorgans.Session.Store.{SessionRow}

pub data LabelOp : Type 0 where
  eq : String → LabelOp
  in_values : List String → LabelOp

-- `Selectors` is the list of an `And`.
mutual
  pub data Selector : Type 0 where
    id : ℕ → Selector
    prefix : List ℕ → Selector
    label : String → LabelOp → Selector
    namespace : String → Selector
    dir : String → Selector
    and : Selectors → Selector
    role : String → Selector
    all : Selector

  pub data Selectors : Type 0 where
    no_more : Selectors
    followed_by : Selector → Selectors → Selectors

pub record Label : Type 0 where
  pub key : String
  pub value : String

pub record Session : Type 0 where
  pub row : SessionRow
  pub labels : List Label

pub data NamespaceScope : Type 0 where
  default explicit : NamespaceScope

pub data NamespaceMatch : Type 0 where
  unmatched matches : NamespaceMatch
  conflict : String → NamespaceMatch

pub data SelectorError : Type 0 where
  namespace_conflict : String → SelectorError

abbrev pub any_label : (Label → Bool) → List Label → Bool
any_label test [] = false
any_label test (l ∷ ls) = test l || any_label test ls

abbrev pub is_one_of : String → List String → Bool
is_one_of value [] = false
is_one_of value (v ∷ vs) = str_eq v value || is_one_of value vs

abbrev pub is_label : String → String → Label → Bool
is_label key value l = str_eq l.key key && str_eq l.value value

abbrev pub is_label_in : String → List String → Label → Bool
is_label_in key values l = str_eq l.key key && is_one_of l.value values

abbrev pub has_op : String → LabelOp → List Label → Bool
has_op key (eq value) labels = any_label (is_label key value) labels
has_op key (in_values values) labels = any_label (is_label_in key values) labels

module _ (id_text : ℕ → List ℕ) (session : Session) where
  unfoldable mutual
    pub session_matches_selector : Selector → Bool
    session_matches_selector all = true
    session_matches_selector (id i) = session.row.id == i
    session_matches_selector (prefix p) = starts_with (id_text session.row.id) p
    session_matches_selector (role name) = str_eq session.row.role name
    session_matches_selector (namespace n) = str_eq session.row.namespace n
    session_matches_selector (dir path) = same_path (codes session.row.dir) (codes path)
    session_matches_selector (and selectors) = all_match selectors
    session_matches_selector (label key op) = has_op key op session.labels

    pub all_match : Selectors → Bool
    all_match no_more = true
    all_match (followed_by s ss) = session_matches_selector s && all_match ss

unfoldable mutual
  pub collect_prefix_selectors : Selector → List (List ℕ)
  collect_prefix_selectors (prefix p) = p ∷ []
  collect_prefix_selectors (and selectors) = collect_prefixes selectors
  collect_prefix_selectors _ = []

  pub collect_prefixes : Selectors → List (List ℕ)
  collect_prefixes no_more = []
  collect_prefixes (followed_by s ss) = collect_prefix_selectors s ++ collect_prefixes ss

-- The state of the loop over an `And` after one selector of it; a conflict ends the loop.
abbrev pub step_match : NamespaceMatch → NamespaceMatch → NamespaceMatch
step_match (conflict found) _ = conflict found
step_match state (conflict found) = conflict found
step_match state matches = matches
step_match state unmatched = state

module _ (target : String) where
  unfoldable mutual
    pub namespace_match : Selector → NamespaceMatch
    namespace_match (namespace n) = if str_eq n target then matches else conflict n
    namespace_match (and selectors) = match_loop unmatched selectors
    namespace_match _ = unmatched

    pub match_loop : NamespaceMatch → Selectors → NamespaceMatch
    match_loop state no_more = state
    match_loop state (followed_by s ss) = match_loop (step_match state (namespace_match s)) ss

abbrev pub within : String → Selector → Selector
within ns all = namespace ns
within ns selector = and (followed_by (namespace ns) (followed_by selector no_more))

abbrev pub scoped_by :
    NamespaceMatch → Selector → String → NamespaceScope → Result SelectorError Selector
scoped_by unmatched selector ns scope = ok (within ns selector)
scoped_by matches selector ns scope = ok selector
scoped_by (conflict found) selector ns default = ok selector
scoped_by (conflict found) selector ns explicit = err (namespace_conflict found)

unfoldable pub scoped_to_namespace :
    Option Selector → String → NamespaceScope → Result SelectorError Selector
unfolding namespace_match
scoped_to_namespace none ns scope = ok (namespace ns)
scoped_to_namespace (some selector) ns scope =
    scoped_by (namespace_match ns selector) selector ns scope
