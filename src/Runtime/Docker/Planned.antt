-- ===== src/Runtime/Docker/Planned.antt =====
-- What a plan for the working directory that is accepted keeps apart.
use mathlib.Core.Path.{subst}
use littleorgans.Base.{
  ℕ, ◌≡◌, refl, Bool, ◌⊎◌, inl, inr, true, false, not, ◌&&◌, Option, none, some, List, [], ◌∷◌,
  if◌then◌else◌, arith, All,
}
use littleorgans.Base.Exec.{Result, ok, err}
use littleorgans.Runtime.Docker.Remap.{remap-below}
use littleorgans.Runtime.Docker.Results.{and_then-ok, same_answer, ok_or_else-ok}
use littleorgans.Runtime.Docker.{
  MountError, cwd_not_absolute, DockerMount, CwdCover, CwdMountPlan, reject_cwd_source_descendants,
  reject_cwd_target_overlaps, remap_cwd_workdir, ok_or_else, plan_by, validate_cwd_mount_plan,
  select_cwd_cover, cover_of,
}
use littleorgans.Runtime.Paths.{
  components, same_components, host_path_covers, container_path_covers, container_paths_overlap,
  normalize_container_path,
}
use littleorgans.Runtime.Docker.Cover.{
  Uncovered, Longest, Selects, Answers, select_cwd_cover-Answers,
}

abbrev pub covering : DockerMount → CwdCover
covering mount = record { source = mount.source; target = mount.target }

-- Neither source covers the other, and neither target is at or below the other.
abbrev pub Apart : List ℕ → List ℕ → DockerMount → Type 0
Apart cwd workdir mount =
    (host_path_covers mount.source cwd ≡ false)
    × (host_path_covers cwd mount.source ≡ false)
    × (container_paths_overlap workdir mount.target ≡ false)

-- A source that is the directory itself is not below it.
abbrev pub NotBelow : List ℕ → DockerMount → Type 0
NotBelow cwd mount =
    (host_path_covers cwd mount.source
      && not (same_components (components mount.source) (components cwd)))
    ≡ false

abbrev pub Mounted : List ℕ → List DockerMount → List ℕ → Type 0
Mounted cwd mounts workdir =
    (normalize_container_path cwd ≡ some workdir) × All (Apart cwd workdir) mounts

abbrev pub Remapped : List ℕ → List DockerMount → List ℕ → Type 0
Remapped cwd mounts workdir =
    (mount : DockerMount) × Longest cwd mount mounts
    × (remap_cwd_workdir (covering mount) cwd ≡ ok workdir)
    × (container_path_covers mount.target workdir ≡ true)
    × All (NotBelow cwd) mounts

abbrev pub Plans : List ℕ → List DockerMount → CwdMountPlan → Type 0
Plans cwd mounts plan =
    ((plan.auto_mount_cwd ≡ true) × Mounted cwd mounts plan.workdir)
    ⊎ ((plan.auto_mount_cwd ≡ false) × Remapped cwd mounts plan.workdir)

abbrev auto : List ℕ → CwdMountPlan
auto workdir = record { auto_mount_cwd = true; workdir = workdir }

abbrev given : List ℕ → CwdMountPlan
given workdir = record { auto_mount_cwd = false; workdir = workdir }

unless_err :
    (b : Bool) (e : MountError) (r : Result MountError (Unit {0}))
    → (if b then err e else r) ≡ ok tt
    → (b ≡ false) × (r ≡ ok tt)
unless_err true e r h = absurd cc
unless_err false e r h = (refl, h)

sources_checked :
    (cwd : List ℕ) (mounts : List DockerMount)
    → reject_cwd_source_descendants cwd mounts ≡ ok tt
    → All (NotBelow cwd) mounts
unfolding reject_cwd_source_descendants
sources_checked cwd [] h = tt
sources_checked cwd (mount ∷ mounts) h =
    let found = unless_err _ _ (reject_cwd_source_descendants cwd mounts) h in
    (found.0, sources_checked cwd mounts found.1)

targets_checked :
    (workdir : List ℕ) (mounts : List DockerMount)
    → reject_cwd_target_overlaps workdir mounts ≡ ok tt
    → All (λ mount. container_paths_overlap workdir mount.target ≡ false) mounts
unfolding reject_cwd_target_overlaps
targets_checked workdir [] h = tt
targets_checked workdir (mount ∷ mounts) h =
    let found = unless_err _ _ (reject_cwd_target_overlaps workdir mounts) h in
    (found.0, targets_checked workdir mounts found.1)

apart :
    (cwd workdir : List ℕ) (mount : DockerMount)
    → Uncovered cwd mount
    → NotBelow cwd mount
    → container_paths_overlap workdir mount.target ≡ false
    → Apart cwd workdir mount
unfolding host_path_covers
apart cwd workdir mount u n t = (u, ground arith, t)

each_side :
    (cwd workdir : List ℕ) (mounts : List DockerMount)
    → All (Uncovered cwd) mounts
    → All (NotBelow cwd) mounts
    → All (λ mount. container_paths_overlap workdir mount.target ≡ false) mounts
    → All (Apart cwd workdir) mounts
each_side cwd workdir [] u n t = tt
each_side cwd workdir (mount ∷ mounts) u n t =
    (apart cwd workdir mount u.0 n.0 t.0, each_side cwd workdir mounts u.1 n.1 t.1)

mounted :
    (cwd workdir : List ℕ) (mounts : List DockerMount) (plan : CwdMountPlan)
    → All (Uncovered cwd) mounts
    → All (NotBelow cwd) mounts
    → normalize_container_path cwd ≡ some workdir
    → plan_by cwd mounts workdir none ≡ ok plan
    → Plans cwd mounts plan
unfolding plan_by
mounted cwd workdir mounts plan u n path h =
    let (a, checked, e) = and_then-ok (reject_cwd_target_overlaps workdir mounts) _ plan h in
    rw (← same_answer (ok (auto workdir)) (auto workdir) plan refl e) (
      inl (refl, (path, each_side cwd workdir mounts u n (targets_checked workdir mounts checked))))

remapped_plan :
    (cwd cwd_target : List ℕ) (mounts : List DockerMount) (mount : DockerMount)
    (plan : CwdMountPlan)
    → Longest cwd mount mounts
    → All (NotBelow cwd) mounts
    → plan_by cwd mounts cwd_target (cover_of (some mount)) ≡ ok plan
    → Plans cwd mounts plan
unfolding plan_by
remapped_plan cwd cwd_target mounts mount plan long n h =
    let (workdir, below, e) = and_then-ok (remap_cwd_workdir (covering mount) cwd) _ plan h in
    rw (← same_answer (ok (given workdir)) (given workdir) plan refl e)
      (inr (refl, (mount, long, below, remap-below (covering mount) cwd workdir below, n)))

planned_by :
    (cwd cwd_target : List ℕ) (mounts : List DockerMount) (best : Option DockerMount)
    (plan : CwdMountPlan)
    → Selects cwd mounts (ok best)
    → All (NotBelow cwd) mounts
    → normalize_container_path cwd ≡ some cwd_target
    → plan_by cwd mounts cwd_target (cover_of best) ≡ ok plan
    → Plans cwd mounts plan
planned_by cwd cwd_target mounts none plan u n path h =
    mounted cwd cwd_target mounts plan u n path h
planned_by cwd cwd_target mounts (some mount) plan long n path h =
    remapped_plan cwd cwd_target mounts mount plan long n h

selected_by :
    (cwd : List ℕ) (mounts : List DockerMount) (cover : Option CwdCover)
    → Answers cwd mounts (ok cover)
    → (best : Option DockerMount) × Selects cwd mounts (ok best) × (cover ≡ cover_of best)
selected_by cwd mounts none h = (none, h, refl)
selected_by cwd mounts (some cover) (mount, long, e) = (some mount, long, e)

-- A plan that is accepted mounts the directory where no mount's source covers it or is below it
-- and no mount's target overlaps its path; or its workdir is at the target, or below it, of the
-- mount that covers the directory with the most components, and no source is below the directory.
pub validate_cwd_mount_plan-Plans :
    (cwd : List ℕ) (mounts : List DockerMount) (plan : CwdMountPlan)
    → validate_cwd_mount_plan cwd mounts ≡ ok plan
    → Plans cwd mounts plan
unfolding validate_cwd_mount_plan
validate_cwd_mount_plan-Plans cwd mounts plan h =
    let checked = and_then-ok (reject_cwd_source_descendants cwd mounts) _ plan h in
    let chosen = and_then-ok (select_cwd_cover cwd mounts) _ plan checked.2 in
    let path =
      and_then-ok (ok_or_else (cwd_not_absolute cwd) (normalize_container_path cwd)) _ plan
        chosen.2 in
    let best =
      selected_by cwd mounts chosen.0
        (subst (Answers cwd mounts) chosen.1 (select_cwd_cover-Answers cwd mounts)) in
    planned_by cwd path.0 mounts best.0 plan best.1 (sources_checked cwd mounts checked.1)
      (ok_or_else-ok (cwd_not_absolute cwd) (normalize_container_path cwd) path.0 path.1)
      (rw (← best.2) path.2)
