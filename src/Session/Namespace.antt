-- ===== src/Session/Namespace.antt =====
-- internal/session/core/src/namespace.rs: the names of namespaces. A text is the list of its code
-- points.
pub mod Names
mod Tests
use littleorgans.Base.{
  ℕ, ◌+◌, Bool, true, false, ◌&&◌, ◌||◌, List, [], ◌∷◌, ◌==◌, if◌then◌else◌, ltb, leb,
}
use littleorgans.Base.Text.{starts_with, same_text, is_empty}
use littleorgans.Base.Exec.{Result, ok, err}

pub data NamespaceError : Type 0 where
  empty must_start_with_letter reserved_name reserved_prefix : NamespaceError
  too_long : ℕ → NamespaceError
  invalid_character : ℕ → NamespaceError

abbrev pub namespace_max_len : ℕ
namespace_max_len = 63

-- `sm-`
abbrev pub reserved_namespace_prefix : List ℕ
reserved_namespace_prefix = 115 ∷ 109 ∷ 45 ∷ []

-- `default`
abbrev pub default_namespace : List ℕ
default_namespace = 100 ∷ 101 ∷ 102 ∷ 97 ∷ 117 ∷ 108 ∷ 116 ∷ []

-- The length of a code point in UTF-8; `str::len` counts octets.
abbrev pub octets : ℕ → ℕ
octets c = if ltb c 128 then 1 else if ltb c 2_048 then 2 else if ltb c 65_536 then 3 else 4

abbrev pub byte_length : List ℕ → ℕ
byte_length [] = 0
byte_length (c ∷ cs) = octets c + byte_length cs

abbrev pub is_ascii_lowercase : ℕ → Bool
is_ascii_lowercase c = leb 97 c && leb c 122

abbrev pub is_ascii_digit : ℕ → Bool
is_ascii_digit c = leb 48 c && leb c 57

abbrev pub is_slug : ℕ → Bool
is_slug c = is_ascii_lowercase c || is_ascii_digit c || c == 45

-- The loop over the characters after the first.
abbrev pub check_characters : List ℕ → Result NamespaceError (Unit {0})
check_characters [] = ok tt
check_characters (c ∷ cs) =
    let rest = check_characters cs in if is_slug c then rest else err (invalid_character c)

abbrev pub check_first : List ℕ → Result NamespaceError (Unit {0})
check_first [] = err empty
check_first (c ∷ cs) =
    if is_ascii_lowercase c then check_characters cs else err must_start_with_letter

unfoldable pub validate_namespace_slug : List ℕ → Result NamespaceError (Unit {0})
validate_namespace_slug value =
    if is_empty value
    then err empty
    else if ltb namespace_max_len (byte_length value)
    then err (too_long (byte_length value))
    else check_first value

abbrev pub unless_reserved :
    List ℕ → Result NamespaceError (Unit {0}) → Result NamespaceError (List ℕ)
unless_reserved value (err e) = err e
unless_reserved value (ok _) =
    if starts_with value reserved_namespace_prefix then err reserved_prefix else ok value

-- `Namespace::new`
unfoldable pub new : List ℕ → Result NamespaceError (List ℕ)
unfolding validate_namespace_slug
new value = unless_reserved value (validate_namespace_slug value)

abbrev pub ensure_not_default : Result NamespaceError (List ℕ) → Result NamespaceError (List ℕ)
ensure_not_default (err e) = err e
ensure_not_default (ok namespace) =
    if same_text namespace default_namespace then err reserved_name else ok namespace

-- `Namespace::for_create`
unfoldable pub for_create : List ℕ → Result NamespaceError (List ℕ)
unfolding new
for_create value = ensure_not_default (new value)
