-- ===== src/Runtime/Docker/Tests.antt =====
-- Runs of the mount plan and of the preflight, and the examples of the theorems about them.
use littleorgans.Base.{ℕ, ◌≡◌, refl, true, false, Option, none, some, List, [], ◌∷◌}
use littleorgans.Base.Exec.{ok, err}
use littleorgans.Runtime.Docker.{
  equal_precedence, source_overlaps, target_overlaps, declared_twice, env_not_covered, MountSpec,
  DockerMount, CwdMountPlan, select_cwd_cover, plan_cwd_mount, new_mount,
  reject_cwd_source_descendants, select_next, plan_by,
}
use littleorgans.Runtime.Paths.{
  normalize_container_path, container_path_covers, rooted, container_paths_overlap,
}
use littleorgans.Runtime.Paths.Prefixes.{begins_with, container_path_covers-rooted}
use littleorgans.Runtime.Docker.Cover.{Answers, select_cwd_cover-Answers}
use littleorgans.Runtime.Docker.Workdir.{PlansFor, plan_cwd_mount-Plans}
use littleorgans.Runtime.Docker.Preflight.{
  LaunchEnv, MountRequest, validate_docker_mounts, check_path,
}
use littleorgans.Base.Text.{codes}
use littleorgans.Runtime.Docker.Preflight.Accepted.{Accepted, validate_docker_mounts-Accepted}

abbrev cwd : List ℕ
cwd = codes "/work/app"

abbrev spec : List ℕ → List ℕ → MountSpec
spec source target = record { source = source; target = target; read_only = true }

abbrev mount : List ℕ → List ℕ → DockerMount
mount source target = record { source = source; target = target }

abbrev specs : List MountSpec
specs = spec (codes "/work") (codes "/t/x/..") ∷ spec (codes "/etc") (codes "/config") ∷ []

normalizes : normalize_container_path (codes "//a/./b/../c/") ≡ some (codes "/a/c")
unfolding normalize_container_path
normalizes = refl

above_root : normalize_container_path (codes "/../..") ≡ some (codes "/")
unfolding normalize_container_path
above_root = refl

not_absolute : normalize_container_path (codes "a/b") ≡ none
unfolding normalize_container_path
not_absolute = refl

whole_parts : container_path_covers (codes "/work") (codes "/workspace") ≡ false
unfolding container_path_covers
whole_parts = refl

abbrev remapped_plan : CwdMountPlan
remapped_plan = record { auto_mount_cwd = false; workdir = codes "/t/app" }

remaps : plan_cwd_mount cwd specs ≡ ok remapped_plan
unfolding container_paths_overlap plan_cwd_mount new_mount reject_cwd_source_descendants select_next
    plan_by
remaps = refl

abbrev mounted_plan : CwdMountPlan
mounted_plan = record { auto_mount_cwd = true; workdir = cwd }

mounts_itself : plan_cwd_mount cwd (spec (codes "/etc") (codes "/config") ∷ []) ≡ ok mounted_plan
unfolding container_paths_overlap plan_cwd_mount new_mount reject_cwd_source_descendants select_next
    plan_by
mounts_itself = refl

below_cwd :
    plan_cwd_mount cwd (spec (codes "/work/app/src") (codes "/src") ∷ [])
    ≡ err (source_overlaps (codes "/work/app/src") cwd)
unfolding container_paths_overlap plan_cwd_mount new_mount reject_cwd_source_descendants select_next
    plan_by
below_cwd = refl

over_cwd :
    plan_cwd_mount cwd (spec (codes "/etc") (codes "/work") ∷ [])
    ≡ err (target_overlaps (codes "/work") cwd)
unfolding container_paths_overlap plan_cwd_mount new_mount reject_cwd_source_descendants select_next
    plan_by
over_cwd = refl

-- Two sources that are the same are a tie before a longer one is read, and none after it.
tie_before_longer :
    select_cwd_cover cwd (
      mount (codes "/work") (codes "/a")
      ∷ (mount (codes "/work") (codes "/b") ∷ (mount cwd (codes "/c") ∷ [])))
    ≡ err (equal_precedence cwd (codes "/work") (codes "/work"))
unfolding select_cwd_cover select_next
tie_before_longer = refl

no_tie_after_longer :
    select_cwd_cover cwd (
      mount cwd (codes "/c")
      ∷ (mount (codes "/work") (codes "/a") ∷ (mount (codes "/work") (codes "/b") ∷ [])))
    ≡ ok (some (record { source = cwd; target = codes "/c" }))
unfolding select_cwd_cover select_next
no_tie_after_longer = refl

-- The file system has no links.
abbrev plain : List ℕ → Option (List ℕ)
plain path = some path

abbrev variable : List ℕ → LaunchEnv
variable value = record { key = codes "CLAUDE_CONFIG_DIR"; value = value }

abbrev request : List LaunchEnv → MountRequest
request env = record { cwd = cwd; mounts = specs; env = env }

accepted :
    validate_docker_mounts plain (request (variable (codes "/config/claude") ∷ []))
    ≡ ok (request (variable (codes "/config/claude") ∷ []))
unfolding validate_docker_mounts new_mount reject_cwd_source_descendants select_next plan_by
    check_path
accepted = refl

uncovered :
    validate_docker_mounts plain (request (variable (codes "/home") ∷ []))
    ≡ err (env_not_covered (codes "CLAUDE_CONFIG_DIR") (codes "/home") (codes "/home"))
unfolding validate_docker_mounts new_mount reject_cwd_source_descendants select_next plan_by
    check_path
uncovered = refl

abbrev twice : MountRequest
twice = record {
  cwd = cwd;
  mounts = spec (codes "/a") (codes "/t") ∷ (spec (codes "/b") (codes "/t/.") ∷ []);
  env = [];
}

repeated : validate_docker_mounts plain twice ≡ err (declared_twice (codes "/t"))
unfolding validate_docker_mounts new_mount reject_cwd_source_descendants select_next plan_by
    check_path
repeated = refl

validate_docker_mounts-Accepted_example :
    Accepted (request (variable (codes "/config/claude") ∷ []))
validate_docker_mounts-Accepted_example =
    validate_docker_mounts-Accepted plain (request (variable (codes "/config/claude") ∷ []))
      (request (variable (codes "/config/claude") ∷ [])) accepted

plan_cwd_mount-Plans_example : PlansFor cwd specs remapped_plan
plan_cwd_mount-Plans_example = plan_cwd_mount-Plans cwd specs remapped_plan remaps

abbrev nested : List DockerMount
nested = mount (codes "/work") (codes "/a") ∷ (mount cwd (codes "/c") ∷ [])

select_cwd_cover-Answers_example : Answers cwd nested (select_cwd_cover cwd nested)
select_cwd_cover-Answers_example = select_cwd_cover-Answers cwd nested

abbrev work : List (List ℕ)
work = codes "work" ∷ []

abbrev work_app : List (List ℕ)
work_app = codes "work" ∷ (codes "app" ∷ [])

container_path_covers-rooted_example :
    container_path_covers (rooted work) (rooted work_app) ≡ begins_with work_app work
container_path_covers-rooted_example =
    container_path_covers-rooted work work_app ((refl, refl, refl), tt)
      ((refl, refl, refl), ((refl, refl, refl), tt))
