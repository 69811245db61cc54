-- ===== src/Runtime/Docker/Workdir.antt =====
-- The workdir of a plan is a normalized path, and the whole of `plan_cwd_mount`.
use mathlib.Core.List.{append_assoc}
use littleorgans.Base.{
  if◌then◌else◌, ℕ, ◌≡◌, refl, sym, ap, ◌∙◌, Bool, Bool-cases, inl, inr, true, false, ◌||◌, Option,
  none, some, List, [], ◌∷◌, ◌++◌, All, All-append, All-split,
}
use littleorgans.Base.Exec.{ok}
use littleorgans.Base.Text.{starts_with, same_text, is_empty}
use littleorgans.Runtime.Docker.Results.{and_then-ok, same_answer, ok_or_else-ok}
use littleorgans.Runtime.Docker.{
  MountSpec, DockerMount, CwdCover, CwdMountPlan, push_container_component, push_normal, remapped,
  remap_cwd_workdir, plan_cwd_mount, docker_mounts, new_mount, ok_or_else, target_not_absolute,
}
use littleorgans.Runtime.Paths.{
  slash, dot, dots, Component, normal, root_dir, cur_dir, parent_dir, components, part_components,
  relative_components, split_slash, rooted, strip_prefix, normalize_container_path, same_component,
}
use littleorgans.Runtime.Paths.Parts.{NoSlash, IsPart, IsNormal, split-NoSlash, normalize-IsNormal}
use littleorgans.Runtime.Paths.Prefixes.{rooted-not_slash}
use littleorgans.Runtime.Docker.Planned.{Plans, covering, validate_cwd_mount_plan-Plans}

join-last :
    (p : List ℕ) (ps : List (List ℕ)) (name : List ℕ)
    → rooted ((p ∷ ps) ++ name ∷ []) ≡ rooted (p ∷ ps) ++ 47 ∷ name
join-last p [] name = refl
join-last p (q ∷ ps) name =
    ap (λ t. 47 ∷ (p ++ t)) (join-last q ps name) ∙ ap (λ t. 47 ∷ t) (sym (append_assoc p _ _))

push-rooted :
    (parts : List (List ℕ)) (name : List ℕ)
    → All IsPart parts
    → push_container_component (rooted parts) name ≡ rooted (parts ++ name ∷ [])
push-rooted [] name h = refl
push-rooted (p ∷ ps) name h =
    ap (λ b. if b then rooted (p ∷ ps) ++ name else rooted (p ∷ ps) ++ 47 ∷ name)
      (rooted-not_slash p ps h.0)
    ∙ sym (join-last p ps name)

push-IsNormal :
    (path name : List ℕ)
    → IsNormal path
    → IsPart name
    → IsNormal (push_container_component path name)
push-IsNormal path name (parts, all, e) n = (
  parts ++ name ∷ [],
  All-append IsPart parts (name ∷ []) all (n, tt),
  ap (λ t. push_container_component t name) e ∙ push-rooted parts name all,
)

-- The name in a component is a part.
abbrev IsNamed : Component → Type 0
IsNamed (normal name) = IsPart name
IsNamed _ = Unit {0}

push_normal-IsNormal :
    (path : List ℕ) (cs : List Component)
    → IsNormal path
    → All IsNamed cs
    → IsNormal (push_normal path cs)
push_normal-IsNormal path [] h k = h
push_normal-IsNormal path (normal name ∷ cs) h k =
    push_normal-IsNormal (push_container_component path name) cs (push-IsNormal path name h k.0) k.1
push_normal-IsNormal path (root_dir ∷ cs) h k = push_normal-IsNormal path cs h k.1
push_normal-IsNormal path (cur_dir ∷ cs) h k = push_normal-IsNormal path cs h k.1
push_normal-IsNormal path (parent_dir ∷ cs) h k = push_normal-IsNormal path cs h k.1

part_components-IsNamed :
    (parts : List (List ℕ)) → All NoSlash parts → All IsNamed (part_components parts)
part_components-IsNamed [] h = tt
part_components-IsNamed (part ∷ parts) h = elim (Bool-cases (is_empty part || same_text part dot)) [
  | inl e ↦ rw e (part_components-IsNamed parts h.1)
  | inr e ↦ elim (Bool-cases (same_text part dots)) [
    | inl d ↦ rw (e, d) (tt, part_components-IsNamed parts h.1)
    | inr d ↦ rw (e, d) ((h.0, e, d), part_components-IsNamed parts h.1)
  ]
]

either_list :
    (b : Bool) (xs ys : List Component)
    → All IsNamed xs
    → All IsNamed ys
    → All IsNamed (if b then xs else ys)
either_list true xs ys h k = h
either_list false xs ys h k = k

relative-IsNamed :
    (parts : List (List ℕ)) → All NoSlash parts → All IsNamed (relative_components parts)
relative-IsNamed [] h = tt
relative-IsNamed (part ∷ parts) h =
    either_list (same_text part dot) (cur_dir ∷ part_components parts)
      (part_components (part ∷ parts)) (tt, part_components-IsNamed parts h.1)
      (part_components-IsNamed (part ∷ parts) h)

components-IsNamed : (text : List ℕ) → All IsNamed (components text)
components-IsNamed text =
    either_list (starts_with text slash) (root_dir ∷ part_components (split_slash text))
      (relative_components (split_slash text))
      (tt, part_components-IsNamed (split_slash text) (split-NoSlash text))
      (relative-IsNamed (split_slash text) (split-NoSlash text))

abbrev Rest : Option (List Component) → Type 0
Rest none = Unit {0}
Rest (some cs) = All IsNamed cs

strip-IsNamed : (path base : List Component) → All IsNamed path → Rest (strip_prefix path base)
strip-IsNamed path [] h = h
strip-IsNamed [] (b ∷ base) h = tt
strip-IsNamed (c ∷ path) (b ∷ base) h = elim (Bool-cases (same_component c b)) [
  | inl e ↦ rw e (strip-IsNamed path base h.1)
  | inr e ↦ rw e tt
]

remapped-IsNormal :
    (cover : CwdCover) (cwd workdir : List ℕ) (relative : Option (List Component))
    → IsNormal cover.target
    → Rest relative
    → remapped cover cwd relative ≡ ok workdir
    → IsNormal workdir
remapped-IsNormal cover cwd workdir none n r h = absurd cc
remapped-IsNormal cover cwd workdir (some relative) n r h =
    rw
      (← same_answer (ok (push_normal cover.target relative)) (push_normal cover.target relative)
        workdir refl h)
      (push_normal-IsNormal cover.target relative n r)

remap-IsNormal :
    (cover : CwdCover) (cwd workdir : List ℕ)
    → IsNormal cover.target
    → remap_cwd_workdir cover cwd ≡ ok workdir
    → IsNormal workdir
unfolding remap_cwd_workdir
remap-IsNormal cover cwd workdir n h =
    remapped-IsNormal cover cwd workdir (strip_prefix (components cwd) (components cover.source)) n
      (strip-IsNamed (components cwd) (components cover.source) (components-IsNamed cwd)) h

abbrev pub HasNormalTarget : DockerMount → Type 0
HasNormalTarget mount = IsNormal mount.target

abbrev with_target : List ℕ → List ℕ → DockerMount
with_target source target = record { source = source; target = target }

new_mount-HasNormalTarget :
    (source target : List ℕ) (mount : DockerMount)
    → new_mount source target ≡ ok mount
    → HasNormalTarget mount
unfolding new_mount
new_mount-HasNormalTarget source target mount h =
    let (path, found, e) =
      and_then-ok (ok_or_else (target_not_absolute target) (normalize_container_path target)) _
        mount h in
    rw (← same_answer (ok (with_target source path)) (with_target source path) mount refl e) (
      normalize-IsNormal target path
        (ok_or_else-ok (target_not_absolute target) (normalize_container_path target) path found))

docker_mounts-HasNormalTarget :
    (specs : List MountSpec) (mounts : List DockerMount)
    → docker_mounts specs ≡ ok mounts
    → All HasNormalTarget mounts
unfolding docker_mounts
docker_mounts-HasNormalTarget [] mounts h = rw (← same_answer (ok []) [] mounts refl h) tt
docker_mounts-HasNormalTarget (spec ∷ specs) mounts h =
    let (first, made, further) = and_then-ok (new_mount spec.source spec.target) _ mounts h in
    let (rest, others, e) = and_then-ok (docker_mounts specs) _ mounts further in
    rw (← same_answer (ok (first ∷ rest)) (first ∷ rest) mounts refl e) (
      new_mount-HasNormalTarget spec.source spec.target first made,
      docker_mounts-HasNormalTarget specs rest others,
    )

at_place :
    (before after : List DockerMount) (mount : DockerMount)
    → All HasNormalTarget (before ++ mount ∷ after)
    → HasNormalTarget mount
at_place before after mount h = (All-split HasNormalTarget before (mount ∷ after) h).1.0

Plans-IsNormal :
    (cwd : List ℕ) (mounts : List DockerMount) (plan : CwdMountPlan)
    → All HasNormalTarget mounts
    → Plans cwd mounts plan
    → IsNormal plan.workdir
Plans-IsNormal cwd mounts plan n (inl (auto, (path, apart))) =
    normalize-IsNormal cwd plan.workdir path
Plans-IsNormal cwd mounts plan n
      (inr (auto, (mount, (c, (before, after, e, longer, shorter)), remap, below, others))) =
    remap-IsNormal (covering mount) cwd plan.workdir (at_place before after mount (rw (← e) n))
      remap

-- What an accepted plan for the mounts of a request is, with the targets normalized.
abbrev pub PlansFor : List ℕ → List MountSpec → CwdMountPlan → Type 0
PlansFor cwd specs plan =
    (mounts : List DockerMount) × (docker_mounts specs ≡ ok mounts)
    × All HasNormalTarget mounts
    × IsNormal plan.workdir
    × Plans cwd mounts plan

-- A plan that is accepted has a normalized workdir, as are the mounts' targets. Either it mounts
-- the working directory at its own path, and then no mount's source covers the directory or is
-- below it and no target overlaps the workdir. Or the directory is covered, and then the workdir is
-- at the target, or below it, of the mount that covers it with the most components, and no source
-- is below the directory.
pub plan_cwd_mount-Plans :
    (cwd : List ℕ) (specs : List MountSpec) (plan : CwdMountPlan)
    → plan_cwd_mount cwd specs ≡ ok plan
    → PlansFor cwd specs plan
unfolding plan_cwd_mount
plan_cwd_mount-Plans cwd specs plan h =
    let (mounts, made, valid) = and_then-ok (docker_mounts specs) _ plan h in
    let normal_targets = docker_mounts-HasNormalTarget specs mounts made in
    let plans = validate_cwd_mount_plan-Plans cwd mounts plan valid in
    (mounts, made, normal_targets, Plans-IsNormal cwd mounts plan normal_targets plans, plans)
