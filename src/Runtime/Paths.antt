-- ===== src/Runtime/Paths.antt =====
-- The texts of paths that internal/runtime/daemon/src/docker_mount_plan.rs works with: its container
-- paths, and the paths of the host with the components that `std::path` gives them on Unix. A path is
-- a list of code points.
pub mod Parts
pub mod Prefixes
use littleorgans.Base.{
  ℕ, Bool, true, false, ◌&&◌, ◌||◌, ◌==◌, Option, none, some, List, [], ◌∷◌, ◌++◌, if◌then◌else◌,
}
use littleorgans.Base.Text.{starts_with, same_text, is_empty}

-- `/`, `.` and `..`
abbrev pub slash : List ℕ
slash = 47 ∷ []

abbrev pub dot : List ℕ
dot = 46 ∷ []

abbrev pub dots : List ℕ
dots = 46 ∷ 46 ∷ []

-- `str::split`
abbrev pub to_first : ℕ → List (List ℕ) → List (List ℕ)
to_first c [] = (c ∷ []) ∷ []
to_first c (p ∷ ps) = (c ∷ p) ∷ ps

abbrev pub split_text : ℕ → List ℕ → List (List ℕ)
split_text separator [] = [] ∷ []
split_text separator (c ∷ cs) =
    let rest = split_text separator cs in if c == separator then [] ∷ rest else to_first c rest

abbrev pub split_slash : List ℕ → List (List ℕ)
split_slash text = split_text 47 text

abbrev pub join_slash : List (List ℕ) → List ℕ
join_slash [] = []
join_slash (p ∷ []) = p
join_slash (p ∷ (q ∷ ps)) = p ++ 47 ∷ join_slash (q ∷ ps)

-- `Vec::pop`
abbrev pub pop : List (List ℕ) → List (List ℕ)
pop [] = []
pop (p ∷ []) = []
pop (p ∷ (q ∷ ps)) = p ∷ pop (q ∷ ps)

-- One round of the loop of `normalize_container_path`, and the loop.
abbrev pub with_part : List (List ℕ) → List ℕ → List (List ℕ)
with_part parts part =
    if is_empty part || same_text part dot
    then parts
    else if same_text part dots
    then pop parts
    else parts ++ part ∷ []

abbrev pub with_parts : List (List ℕ) → List (List ℕ) → List (List ℕ)
with_parts parts [] = parts
with_parts parts (part ∷ rest) = with_parts (with_part parts part) rest

abbrev pub rooted : List (List ℕ) → List ℕ
rooted parts = 47 ∷ join_slash parts

unfoldable pub normalize_container_path : List ℕ → Option (List ℕ)
normalize_container_path value =
    if starts_with value slash then some (rooted (with_parts [] (split_slash value))) else none

-- `str::strip_prefix`
abbrev pub strip_text : List ℕ → List ℕ → Option (List ℕ)
strip_text text [] = some text
strip_text [] (p ∷ ps) = none
strip_text (c ∷ cs) (p ∷ ps) = let rest = strip_text cs ps in if c == p then rest else none

abbrev pub is_rooted_tail : Option (List ℕ) → Bool
is_rooted_tail none = false
is_rooted_tail (some tail) = starts_with tail slash

unfoldable pub container_path_covers : List ℕ → List ℕ → Bool
container_path_covers root value =
    same_text root slash || (same_text value root || is_rooted_tail (strip_text value root))

unfoldable pub container_paths_overlap : List ℕ → List ℕ → Bool
unfolding container_path_covers
container_paths_overlap left right =
    container_path_covers left right || container_path_covers right left

-- `std::path::Component` and `Path::components`: repeated slashes and all but a first dot are
-- skipped.
pub data Component : Type 0 where
  root_dir cur_dir parent_dir : Component
  normal : List ℕ → Component

abbrev pub component_of : List ℕ → Component
component_of part = if same_text part dots then parent_dir else normal part

abbrev pub part_components : List (List ℕ) → List Component
part_components [] = []
part_components (part ∷ parts) =
    let rest = part_components parts in
    if is_empty part || same_text part dot then rest else component_of part ∷ rest

abbrev pub relative_components : List (List ℕ) → List Component
relative_components [] = []
relative_components (part ∷ parts) =
    let rest = part_components parts in
    if same_text part dot then cur_dir ∷ rest else part_components (part ∷ parts)

abbrev pub components : List ℕ → List Component
components text =
    if starts_with text slash
    then root_dir ∷ part_components (split_slash text)
    else relative_components (split_slash text)

abbrev pub same_component : Component → Component → Bool
same_component root_dir root_dir = true
same_component cur_dir cur_dir = true
same_component parent_dir parent_dir = true
same_component (normal a) (normal b) = same_text a b
same_component _ _ = false

abbrev pub same_components : List Component → List Component → Bool
same_components [] [] = true
same_components (a ∷ as') (b ∷ bs) = same_component a b && same_components as' bs
same_components _ _ = false

-- Two paths are equal if their components are.
abbrev pub same_path : List ℕ → List ℕ → Bool
same_path a b = same_components (components a) (components b)

-- `Path::strip_prefix`
abbrev pub strip_prefix : List Component → List Component → Option (List Component)
strip_prefix path [] = some path
strip_prefix [] (b ∷ base) = none
strip_prefix (c ∷ path) (b ∷ base) =
    let rest = strip_prefix path base in if same_component c b then rest else none

abbrev pub is_stripped : Option (List Component) → Bool
is_stripped none = false
is_stripped (some _) = true

unfoldable pub host_path_covers : List ℕ → List ℕ → Bool
host_path_covers root value =
    same_components (components root) (components value)
    || is_stripped (strip_prefix (components value) (components root))
