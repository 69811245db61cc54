-- ===== src/Runtime/Docker/Preflight/Accepted.antt =====
-- A request that the preflight accepts is planned at the launch.
use littleorgans.Base.{
  ℕ, ◌≤◌, ◌≡◌, refl, sym, ap, ◌∙◌, Bool, Bool-cases, inl, inr, true, false, ltb, Option, none, some,
  List, [], ◌∷◌, if◌then◌else◌, arith, All,
}
use littleorgans.Base.Exec.{ok, err}
use littleorgans.Runtime.Docker.{
  MountError, MountSpec, DockerMount, CwdMountPlan, ok_or_else, new_mount, docker_mounts,
  env_not_absolute, validate_cwd_mount_plan, plan_cwd_mount,
}
use littleorgans.Runtime.Paths.{normalize_container_path}
use littleorgans.Runtime.Docker.Results.{and_then-ok, same_answer, ok_or_else-ok, and_then-eq}
use littleorgans.Runtime.Docker.Workdir.{PlansFor, plan_cwd_mount-Plans}
use littleorgans.Runtime.Docker.Preflight.{
  LaunchEnv, PathShapedEnv, MountRequest, path_values, path_shaped_env, canonicalize_cwd,
  canonicalize_mount_source, canonicalize_request_mounts, with_source, times, earlier, text_before,
  first_repeated, unless_repeated, reject_duplicate_mount_targets, any_covers, check_path,
  check_paths, check_env, reject_uncovered_path_envs, validate_docker_mounts,
}

-- A path value is absolute, and a mount's target covers what it is normalized to.
abbrev pub IsCovered : List DockerMount → List ℕ → Type 0
IsCovered mounts path =
    (normalized : List ℕ) × (normalize_container_path path ≡ some normalized)
    × (any_covers normalized mounts ≡ true)

abbrev pub AreCovered : List DockerMount → LaunchEnv → Option PathShapedEnv → Type 0
AreCovered mounts env none = Unit {0}
AreCovered mounts env (some entry) =
    All (IsCovered mounts) (path_values entry.value_shape env.value)

abbrev pub EnvIsCovered : List DockerMount → LaunchEnv → Type 0
EnvIsCovered mounts env = AreCovered mounts env (path_shaped_env env)

abbrev pub OnceIn : List DockerMount → DockerMount → Type 0
OnceIn mounts mount = times mount.target mounts ≤ 1

-- What holds of a request that is accepted: its mounts have a plan for its working directory, no
-- target is declared twice, and each path in its environment is below a target.
abbrev pub Accepted : MountRequest → Type 0
Accepted request =
    (mounts : List DockerMount) × (docker_mounts request.mounts ≡ ok mounts)
    × ((plan : CwdMountPlan) × (plan_cwd_mount request.cwd request.mounts ≡ ok plan)
        × PlansFor request.cwd request.mounts plan)
    × All (OnceIn mounts) mounts
    × All (EnvIsCovered mounts) request.env

module _ (canonicalize : List ℕ → Option (List ℕ)) (cwd : List ℕ) where
  request_mounts-docker_mounts :
      (specs renamed : List MountSpec) (mounts : List DockerMount)
      → canonicalize_request_mounts canonicalize cwd specs ≡ ok (renamed, mounts)
      → docker_mounts renamed ≡ ok mounts
  unfolding canonicalize_request_mounts docker_mounts
  request_mounts-docker_mounts [] renamed mounts h =
      let e = same_answer (ok ([], [])) ([], []) (renamed, mounts) refl h in
      ap (λ p. docker_mounts p.0) (sym e) ∙ ap (λ p. ok p.1) e
  request_mounts-docker_mounts (spec ∷ specs) renamed mounts h =
      let (source, found, h1) =
        and_then-ok (canonicalize_mount_source canonicalize cwd spec.source) _ (renamed, mounts)
          h in
      let (first, made, h2) = and_then-ok (new_mount source spec.target) _ (renamed, mounts) h1 in
      let (others, done, h3) =
        and_then-ok (canonicalize_request_mounts canonicalize cwd specs) _ (renamed, mounts) h2 in
      let both : List MountSpec × List DockerMount =
        (with_source spec source ∷ others.0, first ∷ others.1) in
      let e = same_answer (ok both) both (renamed, mounts) refl h3 in
      ap (λ p. docker_mounts p.0) (sym e)
      ∙ and_then-eq (new_mount source spec.target) _ first _ made (
          and_then-eq (docker_mounts others.0) _ others.1 _
            (request_mounts-docker_mounts specs others.0 others.1 done) refl)
      ∙ ap (λ p. ok p.1) e

some_not_none : (text : List ℕ) → ¬ (some text ≡ none)
some_not_none text h = cc

at_most : (n : ℕ) → ltb 1 n ≡ false → n ≤ 1
at_most n h = ground arith

never_none : (target : List ℕ) (rest : Option (List ℕ)) → ¬ (earlier target rest ≡ none)
never_none target none h = cc
never_none target (some other) h = elim (Bool-cases (text_before other target)) [
  | inl e ↦ some_not_none other (sym (ap (λ b. if b then some other else some target) e) ∙ h)
  | inr e ↦ some_not_none target (sym (ap (λ b. if b then some other else some target) e) ∙ h)
]

not_repeated :
    (b : Bool) (target : List ℕ) (rest : Option (List ℕ))
    → (if b then earlier target rest else rest) ≡ none
    → (b ≡ false) × (rest ≡ none)
not_repeated true target rest h = absurd (never_none target rest h)
not_repeated false target rest h = (refl, h)

once_each :
    (all mounts : List DockerMount) → first_repeated all mounts ≡ none → All (OnceIn all) mounts
once_each all [] h = tt
once_each all (mount ∷ mounts) h =
    let (few, rest) =
      not_repeated (ltb 1 (times mount.target all)) mount.target (first_repeated all mounts) h in
    (at_most (times mount.target all) few, once_each all mounts rest)

targets_once :
    (mounts : List DockerMount) (r : Option (List ℕ)) → unless_repeated r ≡ ok tt → r ≡ none
targets_once mounts none h = refl
targets_once mounts (some target) h = absurd cc

passes : (b : Bool) (e : MountError) → (if b then ok tt else err e) ≡ ok (tt {0}) → b ≡ true
passes true e h = refl
passes false e h = absurd cc

path_passes :
    (env : LaunchEnv) (mounts : List DockerMount) (path : List ℕ)
    → check_path env mounts path ≡ ok tt
    → IsCovered mounts path
unfolding check_path
path_passes env mounts path h =
    let (normalized, found, e) =
      and_then-ok (ok_or_else (env_not_absolute env.key env.value) (normalize_container_path path))
        _ tt h in
    (
      normalized,
      ok_or_else-ok (env_not_absolute env.key env.value) (normalize_container_path path) normalized
          found,
      passes (any_covers normalized mounts) _ e,
    )

paths_pass :
    (env : LaunchEnv) (mounts : List DockerMount) (paths : List (List ℕ))
    → check_paths env mounts paths ≡ ok tt
    → All (IsCovered mounts) paths
unfolding check_paths
paths_pass env mounts [] h = tt
paths_pass env mounts (path ∷ paths) h =
    let (a, first, rest) = and_then-ok (check_path env mounts path) _ tt h in
    (path_passes env mounts path first, paths_pass env mounts paths rest)

env_passes :
    (mounts : List DockerMount) (env : LaunchEnv) (entry : Option PathShapedEnv)
    → check_env mounts env entry ≡ ok tt
    → AreCovered mounts env entry
unfolding check_env
env_passes mounts env none h = tt
env_passes mounts env (some entry) h =
    paths_pass env mounts (path_values entry.value_shape env.value) h

envs_pass :
    (mounts : List DockerMount) (envs : List LaunchEnv)
    → reject_uncovered_path_envs envs mounts ≡ ok tt
    → All (EnvIsCovered mounts) envs
unfolding reject_uncovered_path_envs
envs_pass mounts [] h = tt
envs_pass mounts (env ∷ envs) h =
    let (a, first, rest) = and_then-ok (check_env mounts env (path_shaped_env env)) _ tt h in
    (env_passes mounts env (path_shaped_env env) first, envs_pass mounts envs rest)

planned_again :
    (cwd : List ℕ) (specs : List MountSpec) (mounts : List DockerMount) (plan : CwdMountPlan)
    → docker_mounts specs ≡ ok mounts
    → validate_cwd_mount_plan cwd mounts ≡ ok plan
    → plan_cwd_mount cwd specs ≡ ok plan
unfolding plan_cwd_mount
planned_again cwd specs mounts plan h k = and_then-eq (docker_mounts specs) _ mounts _ h k

-- If the preflight accepts a request, the launch has a plan for its working directory and mounts,
-- which is as `PlansFor` says; no target is declared twice; and each path in the variables of the
-- catalog is absolute and covered by a target.
pub validate_docker_mounts-Accepted :
    (canonicalize : List ℕ → Option (List ℕ)) (request checked : MountRequest)
    → validate_docker_mounts canonicalize request ≡ ok checked
    → Accepted checked
unfolding validate_docker_mounts
validate_docker_mounts-Accepted canonicalize request checked h =
    let (cwd, found, h1) = and_then-ok (canonicalize_cwd canonicalize request.cwd) _ checked h in
    let ((specs, mounts), made, h2) =
      and_then-ok (canonicalize_request_mounts canonicalize cwd request.mounts) _ checked h1 in
    let (_, once, h3) = and_then-ok (reject_duplicate_mount_targets mounts) _ checked h2 in
    let (plan, valid, h4) = and_then-ok (validate_cwd_mount_plan cwd mounts) _ checked h3 in
    let (_, env, h5) = and_then-ok (reject_uncovered_path_envs request.env mounts) _ checked h4 in
    let accepted : MountRequest = record { cwd = cwd; mounts = specs; env = request.env } in
    let docker = request_mounts-docker_mounts canonicalize cwd request.mounts specs mounts made in
    let planned = planned_again cwd specs mounts plan docker valid in
    rw (← same_answer (ok accepted) accepted checked refl h5) (
      mounts,
      docker,
      (plan, planned, plan_cwd_mount-Plans cwd specs plan planned),
      once_each mounts mounts (targets_once mounts (first_repeated mounts mounts) once),
      envs_pass mounts request.env env,
    )
