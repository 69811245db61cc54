-- ===== src/Runtime/Docker.antt =====
-- internal/runtime/daemon/src/docker_mount_plan.rs: how the working directory of an agent gets into its
-- container. The texts of paths are in Runtime/Paths. A target and a source of a mount are texts that
-- are UTF-8.
pub mod Cover
pub mod Results
pub mod Remap
pub mod Planned
pub mod Workdir
pub mod Preflight
pub mod Image
pub mod Argv
mod Tests
use littleorgans.Base.{
  ℕ, Bool, true, false, not, ◌&&◌, ◌||◌, ltb, ◌==◌, Option, none, some, List, [], ◌∷◌, ◌++◌,
  if◌then◌else◌, length,
}
use littleorgans.Base.Exec.{Result, ok, err}
use littleorgans.Runtime.Paths.{
  slash, dot, dots, to_first, split_text, split_slash, join_slash, pop, with_part, with_parts,
  rooted, normalize_container_path, strip_text, is_rooted_tail, container_path_covers,
  container_paths_overlap, component_of, part_components, relative_components, components,
  same_component, same_components, strip_prefix, is_stripped, host_path_covers, Component, root_dir,
  cur_dir, parent_dir, normal,
}
use littleorgans.Base.Text.{starts_with, same_text, is_empty}

-- A refusal with the texts of its message; each is a protocol mismatch.
pub data MountError : Type 0 where
  target_not_absolute cwd_not_absolute : List ℕ → MountError
  equal_precedence : List ℕ → List ℕ → List ℕ → MountError
  source_overlaps target_overlaps not_covering : List ℕ → List ℕ → MountError
  cwd_not_canonical : List ℕ → MountError
  source_not_canonical : List ℕ → List ℕ → MountError
  declared_twice : List ℕ → MountError
  env_not_absolute : List ℕ → List ℕ → MountError
  env_not_covered : List ℕ → List ℕ → List ℕ → MountError

pub record MountSpec : Type 0 where
  pub source : List ℕ
  pub target : List ℕ
  pub read_only : Bool

pub record DockerMount : Type 0 where
  pub source : List ℕ
  pub target : List ℕ

pub record CwdCover : Type 0 where
  pub source : List ℕ
  pub target : List ℕ

pub record CwdMountPlan : Type 0 where
  pub auto_mount_cwd : Bool
  pub workdir : List ℕ

abbrev pub and_then : {E A B : Type 0} → Result E A → (A → Result E B) → Result E B
and_then (ok a) f = f a
and_then (err e) f = err e

-- The loop of `select_cwd_cover`; it holds the mount that is selected and the length of its source.
abbrev pub depth : DockerMount → ℕ
depth mount = length (components mount.source)

abbrev pub tie :
    List ℕ → DockerMount → Option DockerMount → Result MountError (Option DockerMount × ℕ)
tie cwd mount none = ok (some mount, depth mount)
tie cwd mount (some previous) = err (equal_precedence cwd previous.source mount.source)

abbrev pub select_next :
    List ℕ → DockerMount → Option DockerMount × ℕ → Result MountError (Option DockerMount × ℕ)
unfolding host_path_covers
select_next cwd mount (selected, selected_len) =
    if not (host_path_covers mount.source cwd)
    then ok (selected, selected_len)
    else if ltb selected_len (depth mount)
    then ok (some mount, depth mount)
    else if depth mount == selected_len
    then tie cwd mount selected
    else ok (selected, selected_len)

abbrev pub select_loop :
    List ℕ → List DockerMount → Option DockerMount × ℕ → Result MountError (Option DockerMount)
select_loop cwd [] state = ok state.0
select_loop cwd (mount ∷ mounts) state =
    and_then (select_next cwd mount state) (λ next. select_loop cwd mounts next)

abbrev pub cover_of : Option DockerMount → Option CwdCover
cover_of none = none
cover_of (some mount) = some (record { source = mount.source; target = mount.target })

unfoldable pub select_cwd_cover : List ℕ → List DockerMount → Result MountError (Option CwdCover)
select_cwd_cover cwd mounts =
    and_then (select_loop cwd mounts (none, 0)) (λ selected. ok (cover_of selected))

abbrev pub reject_cwd_source_descendants : List ℕ → List DockerMount → Result MountError (Unit {0})
unfolding host_path_covers
reject_cwd_source_descendants cwd [] = ok tt
reject_cwd_source_descendants cwd (mount ∷ mounts) =
    let rest = reject_cwd_source_descendants cwd mounts in
    if host_path_covers cwd mount.source
      && not (same_components (components mount.source) (components cwd))
    then err (source_overlaps mount.source cwd)
    else rest

abbrev pub reject_cwd_target_overlaps : List ℕ → List DockerMount → Result MountError (Unit {0})
reject_cwd_target_overlaps cwd_target [] = ok tt
reject_cwd_target_overlaps cwd_target (mount ∷ mounts) =
    let rest = reject_cwd_target_overlaps cwd_target mounts in
    if container_paths_overlap cwd_target mount.target
    then err (target_overlaps mount.target cwd_target)
    else rest

abbrev pub push_container_component : List ℕ → List ℕ → List ℕ
push_container_component path component =
    if same_text path slash then path ++ component else path ++ 47 ∷ component

abbrev pub push_normal : List ℕ → List Component → List ℕ
push_normal workdir [] = workdir
push_normal workdir (normal name ∷ rest) = push_normal (push_container_component workdir name) rest
push_normal workdir (_ ∷ rest) = push_normal workdir rest

abbrev pub remapped : CwdCover → List ℕ → Option (List Component) → Result MountError (List ℕ)
remapped cover cwd none = err (not_covering cover.source cwd)
remapped cover cwd (some relative) = ok (push_normal cover.target relative)

unfoldable pub remap_cwd_workdir : CwdCover → List ℕ → Result MountError (List ℕ)
remap_cwd_workdir cover cwd =
    remapped cover cwd (strip_prefix (components cwd) (components cover.source))

-- `Option::ok_or_else`
abbrev pub ok_or_else : MountError → Option (List ℕ) → Result MountError (List ℕ)
ok_or_else refusal none = err refusal
ok_or_else refusal (some path) = ok path

-- The end of `validate_cwd_mount_plan`.
abbrev pub plan_by :
    List ℕ → List DockerMount → List ℕ → Option CwdCover → Result MountError CwdMountPlan
unfolding remap_cwd_workdir
plan_by cwd mounts cwd_target (some cover) =
    and_then (remap_cwd_workdir cover cwd)
      (λ workdir. ok (record { auto_mount_cwd = false; workdir = workdir }))
plan_by cwd mounts cwd_target none =
    and_then (reject_cwd_target_overlaps cwd_target mounts)
      (λ _. ok (record { auto_mount_cwd = true; workdir = cwd_target }))

unfoldable pub validate_cwd_mount_plan : List ℕ → List DockerMount → Result MountError CwdMountPlan
unfolding normalize_container_path select_cwd_cover
validate_cwd_mount_plan cwd mounts = and_then (reject_cwd_source_descendants cwd mounts) (λ _.
    and_then (select_cwd_cover cwd mounts) (λ cover.
      and_then (ok_or_else (cwd_not_absolute cwd) (normalize_container_path cwd))
        (λ cwd_target. plan_by cwd mounts cwd_target cover)))

-- `DockerMount::new`
unfoldable pub new_mount : List ℕ → List ℕ → Result MountError DockerMount
unfolding normalize_container_path
new_mount source target =
    and_then (ok_or_else (target_not_absolute target) (normalize_container_path target))
      (λ normalized. ok (record { source = source; target = normalized }))

abbrev pub docker_mounts : List MountSpec → Result MountError (List DockerMount)
unfolding new_mount
docker_mounts [] = ok []
docker_mounts (mount ∷ mounts) =
    and_then (new_mount mount.source mount.target)
      (λ first. and_then (docker_mounts mounts) (λ rest. ok (first ∷ rest)))

unfoldable pub plan_cwd_mount : List ℕ → List MountSpec → Result MountError CwdMountPlan
unfolding validate_cwd_mount_plan
plan_cwd_mount cwd mounts =
    and_then (docker_mounts mounts) (λ checked. validate_cwd_mount_plan cwd checked)
