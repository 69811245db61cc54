-- ===== src/Runtime/Docker/Preflight.antt =====
-- The checks of a request's mounts in spawn_preflight.rs, and the catalog of environment variables
-- that hold paths (crates/lilo-rm-core/src/path_shaped_envs.rs). What `canonicalize` answers is a
-- parameter. A request that is refused is dropped, so its mounts are returned only if it is not.
pub mod Accepted
use Prim.Native.Char.{code}
use Prim.Native.String.{String, [], ◌∷◌}
use littleorgans.Base.{
  ℕ, ◌+◌, Bool, true, false, ◌||◌, ltb, ◌==◌, Option, none, some, List, [], ◌∷◌, ◌++◌,
  if◌then◌else◌, get_last?,
}
use littleorgans.Base.Exec.{Result, ok, err}
use littleorgans.Base.Text.{codes, starts_with, same_text, is_empty}
use littleorgans.Runtime.Docker.{
  MountError, cwd_not_canonical, source_not_canonical, declared_twice, env_not_absolute,
  env_not_covered, MountSpec, DockerMount, CwdMountPlan, and_then, ok_or_else, new_mount,
  validate_cwd_mount_plan,
}
use littleorgans.Runtime.Paths.{slash, normalize_container_path, container_path_covers, split_text}

pub record LaunchEnv : Type 0 where
  pub key : List ℕ
  pub value : List ℕ

pub data PathValueShape : Type 0 where
  single colon_list : PathValueShape

pub record PathShapedEnv : Type 0 where
  pub key : List ℕ
  pub value_shape : PathValueShape

abbrev path_env : PathValueShape → String → PathShapedEnv
path_env shape name = record { key = codes name; value_shape = shape }

abbrev pub claude_path_shaped_envs : List PathShapedEnv
claude_path_shaped_envs =
    path_env single "CLAUDE_BG_AUTH_SNAPSHOT_PATH"
    ∷ path_env single "CLAUDE_CODE_CLIENT_CERT"
    ∷ path_env single "CLAUDE_CODE_CLIENT_KEY"
    ∷ path_env single "CLAUDE_CODE_DEBUG_LOGS_DIR"
    ∷ path_env single "CLAUDE_CODE_GIT_BASH_PATH"
    ∷ path_env single "CLAUDE_CODE_PLUGIN_CACHE_DIR"
    ∷ path_env colon_list "CLAUDE_CODE_PLUGIN_SEED_DIR"
    ∷ path_env single "CLAUDE_CODE_SHELL_PREFIX"
    ∷ path_env single "CLAUDE_CODE_TMPDIR"
    ∷ path_env single "CLAUDE_CONFIG_DIR"
    ∷ path_env single "CLAUDE_ENV_FILE"
    ∷ path_env single "CLAUDE_PLUGIN_ROOT"
    ∷ path_env single "CLAUDE_PROJECT_DIR"
    ∷ path_env single "CLAUDE_SECURESTORAGE_CONFIG_DIR"
    ∷ path_env single "CLAUDE_SKILL_DIR"
    ∷ path_env single "CLAUDE_TMPDIR"
    ∷ []

abbrev find_env : List ℕ → List PathShapedEnv → Option PathShapedEnv
find_env name [] = none
find_env name (entry ∷ entries) =
    let rest = find_env name entries in if same_text entry.key name then some entry else rest

abbrev pub claude_path_shaped_env : List ℕ → Option PathShapedEnv
claude_path_shaped_env name = find_env name claude_path_shaped_envs

abbrev pub path_values : PathValueShape → List ℕ → List (List ℕ)
path_values single value = value ∷ []
path_values colon_list value = if is_empty value then value ∷ [] else split_text 58 value

-- What `check_docker_profile` reads and writes of a request.
pub record MountRequest : Type 0 where
  pub cwd : List ℕ
  pub mounts : List MountSpec
  pub env : List LaunchEnv

-- `Path::join` of a relative path
abbrev pub join_path : List ℕ → List ℕ → List ℕ
join_path base path = if ends_or_empty (get_last? base) then base ++ path else base ++ 47 ∷ path
  where
    ends_or_empty : Option ℕ → Bool
    ends_or_empty none = true
    ends_or_empty (some c) = c == 47

abbrev pub with_source : MountSpec → List ℕ → MountSpec
with_source mount source = record mount { source = source }

module _ (canonicalize : List ℕ → Option (List ℕ)) where
  abbrev pub canonicalize_cwd : List ℕ → Result MountError (List ℕ)
  canonicalize_cwd cwd = ok_or_else (cwd_not_canonical cwd) (canonicalize cwd)

  abbrev pub canonicalize_mount_source : List ℕ → List ℕ → Result MountError (List ℕ)
  canonicalize_mount_source cwd source =
      ok_or_else (source_not_canonical source cwd)
        (canonicalize (if starts_with source slash then source else join_path cwd source))

  -- The mounts with their new sources, and the mounts of the plan.
  abbrev pub canonicalize_request_mounts :
      List ℕ → List MountSpec → Result MountError (List MountSpec × List DockerMount)
  canonicalize_request_mounts cwd [] = ok ([], [])
  canonicalize_request_mounts cwd (mount ∷ mounts) =
      and_then (canonicalize_mount_source cwd mount.source) (λ source.
        and_then (new_mount source mount.target) (λ first.
          and_then (canonicalize_request_mounts cwd mounts)
            (λ rest. ok (with_source mount source ∷ rest.0, first ∷ rest.1))))

abbrev pub times : List ℕ → List DockerMount → ℕ
times target [] = 0
times target (mount ∷ mounts) =
    (if same_text mount.target target then 1 else 0) + times target mounts

-- The order of the keys of a `BTreeMap`, for which code points serve as octets do.
abbrev pub text_before : List ℕ → List ℕ → Bool
text_before [] [] = false
text_before [] (d ∷ ds) = true
text_before (c ∷ cs) [] = false
text_before (c ∷ cs) (d ∷ ds) =
    let rest = text_before cs ds in if ltb c d then true else if c == d then rest else false

abbrev pub earlier : List ℕ → Option (List ℕ) → Option (List ℕ)
earlier target none = some target
earlier target (some other) = if text_before other target then some other else some target

-- The first target in that order that is counted more than once.
abbrev pub first_repeated : List DockerMount → List DockerMount → Option (List ℕ)
first_repeated all [] = none
first_repeated all (mount ∷ mounts) =
    let rest = first_repeated all mounts in
    if ltb 1 (times mount.target all) then earlier mount.target rest else rest

abbrev pub unless_repeated : Option (List ℕ) → Result MountError (Unit {0})
unless_repeated none = ok tt
unless_repeated (some target) = err (declared_twice target)

abbrev pub reject_duplicate_mount_targets : List DockerMount → Result MountError (Unit {0})
reject_duplicate_mount_targets mounts = unless_repeated (first_repeated mounts mounts)

abbrev pub any_covers : List ℕ → List DockerMount → Bool
unfolding container_path_covers
any_covers path [] = false
any_covers path (mount ∷ mounts) = container_path_covers mount.target path || any_covers path mounts

module _ (env : LaunchEnv) (mounts : List DockerMount) where
  unfoldable pub check_path : List ℕ → Result MountError (Unit {0})
  unfolding normalize_container_path any_covers
  check_path path_value =
      and_then
        (ok_or_else (env_not_absolute env.key env.value) (normalize_container_path path_value))
        (λ normalized.
          if any_covers normalized mounts
          then ok tt
          else err (env_not_covered env.key env.value path_value))

  abbrev pub check_paths : List (List ℕ) → Result MountError (Unit {0})
  check_paths [] = ok tt
  check_paths (path ∷ paths) = and_then (check_path path) (λ _. check_paths paths)

abbrev pub path_shaped_env : LaunchEnv → Option PathShapedEnv
path_shaped_env env =
    if starts_with env.key (codes "CLAUDE_") then claude_path_shaped_env env.key else none

abbrev pub check_env :
    List DockerMount → LaunchEnv → Option PathShapedEnv → Result MountError (Unit {0})
check_env mounts env none = ok tt
check_env mounts env (some entry) = check_paths env mounts (path_values entry.value_shape env.value)

abbrev pub reject_uncovered_path_envs :
    List LaunchEnv → List DockerMount → Result MountError (Unit {0})
reject_uncovered_path_envs [] mounts = ok tt
reject_uncovered_path_envs (env ∷ envs) mounts =
    and_then (check_env mounts env (path_shaped_env env))
      (λ _. reject_uncovered_path_envs envs mounts)

unfoldable pub validate_docker_mounts :
    (List ℕ → Option (List ℕ)) → MountRequest → Result MountError MountRequest
unfolding validate_cwd_mount_plan
validate_docker_mounts canonicalize request =
    and_then (canonicalize_cwd canonicalize request.cwd) (λ cwd.
      and_then (canonicalize_request_mounts canonicalize cwd request.mounts) (λ mounts.
        and_then (reject_duplicate_mount_targets mounts.1) (λ _.
          and_then (validate_cwd_mount_plan cwd mounts.1) (λ _.
            and_then (reject_uncovered_path_envs request.env mounts.1)
              (λ _. ok (record request { cwd = cwd; mounts = mounts.0 }))))))
