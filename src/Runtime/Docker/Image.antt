-- ===== src/Runtime/Docker/Image.antt =====
-- What spawn_preflight.rs asks of a Docker request besides its mounts: the profile, and the user and
-- the architecture of the image (internal/runtime/daemon/src/docker_preflight.rs). The answers of
-- `docker` are parameters; a check asks each question at most once.
pub mod User
pub mod Allowed
pub mod Admitted
mod Tests
use Prim.Native.String.{String}
use text.Mathlib.Text.{◌==◌ as str_eq}
use littleorgans.Base.{
  ℕ, Bool, true, false, not, ◌&&◌, ◌||◌, leb, ◌==◌, Option, none, some, List, [], ◌∷◌,
  if◌then◌else◌,
}
use littleorgans.Base.Exec.{Result, ok, err}
use littleorgans.Base.Text.{same_text, is_empty, codes}
use littleorgans.Runtime.Lifecycle.{IsolationPolicy, host, docker}
use littleorgans.Runtime.Paths.{split_text}
use littleorgans.Runtime.Docker.{MountError, and_then}
use littleorgans.Runtime.Docker.Preflight.{MountRequest, validate_docker_mounts}

-- The failures of `docker` come with their texts. A profile is refused with its name.
pub data PreflightError : Type 0 where
  mounts_refused : MountError → PreflightError
  unsupported_behavior privileged_profile unknown_profile : Option String → PreflightError
  docker_unavailable docker_image_unavailable metadata_unavailable : String → PreflightError
  image_not_configured : PreflightError
  runs_as_root no_arm64_manifest : String → PreflightError

pub record DockerPreflightConfig : Type 0 where
  pub image : Option String
  pub allow_root_image_user : Bool
  pub allow_arm64_manifest_escape : Bool

-- What the checks read and write of a request.
pub record DockerRequest : Type 0 where
  pub isolation : IsolationPolicy
  pub image : Option String
  pub mounted : MountRequest

-- `DockerImageInspector`
pub record Inspector : Type 0 where
  pub ensure_available : Result PreflightError (Unit {0})
  pub image_user : String → Result PreflightError (Option (List ℕ))
  pub image_architecture : String → Result PreflightError String
  pub arm64_manifest_available : String → Result PreflightError Bool

-- The code points that `str::trim` cuts off: those with the property White_Space.
abbrev pub is_whitespace : ℕ → Bool
is_whitespace c =
    (leb 9 c && leb c 13)
    || (c == 32
        || (c == 133
            || (c == 160
                || (c == 5_760
                    || ((leb 8_192 c && leb c 8_202)
                        || (c == 8_232
                            || (c == 8_233 || (c == 8_239 || (c == 8_287 || c == 12_288)))))))))

abbrev pub trim_start : List ℕ → List ℕ
trim_start [] = []
trim_start (c ∷ cs) = let rest = trim_start cs in if is_whitespace c then rest else c ∷ cs

-- A text that is only whitespace after a point ends there.
abbrev pub trim_end : List ℕ → List ℕ
trim_end [] = []
trim_end (c ∷ cs) =
    let rest = trim_end cs in if is_whitespace c && is_empty rest then [] else c ∷ rest

abbrev pub trim : List ℕ → List ℕ
trim text = trim_end (trim_start text)

abbrev pub first_part : List (List ℕ) → List ℕ → List ℕ
first_part [] text = text
first_part (part ∷ _) text = part

unfoldable pub image_user_is_root : Option (List ℕ) → Bool
image_user_is_root none = true
image_user_is_root (some user) =
    let primary = trim (first_part (split_text 58 user) user) in
    is_empty primary || (same_text primary (codes "0") || same_text primary (codes "root"))

abbrev pub is_named : Option String → String → Bool
is_named none name = false
is_named (some profile) name = str_eq profile name

abbrev pub image_or : Option String → Option String → Result PreflightError String
image_or (some image) other = ok image
image_or none (some image) = ok image
image_or none none = err image_not_configured

abbrev pub is_docker_image_unavailable : PreflightError → Bool
is_docker_image_unavailable (docker_image_unavailable _) = true
is_docker_image_unavailable _ = false

abbrev pub refused_mounts : {A : Type 0} → Result MountError A → Result PreflightError A
refused_mounts (ok a) = ok a
refused_mounts (err e) = err (mounts_refused e)

abbrev pub check : Bool → PreflightError → Result PreflightError (Unit {0})
check true e = ok tt
check false e = err e

abbrev pub manifest_or : PreflightError → Result PreflightError Bool → Result PreflightError Bool
manifest_or local_error (ok available) = ok available
manifest_or local_error (err _) = err local_error

abbrev pub is_accepted_profile : Option String → Bool
is_accepted_profile none = true
is_accepted_profile (some name) =
    str_eq name "default"
    || (str_eq name "own-init" || (str_eq name "allow-root" || str_eq name "arm64-manifest-escape"))

abbrev pub refused_profile : Option String → PreflightError
refused_profile profile =
    if is_named profile "pattern-e" || is_named profile "tmux-primary"
    then unsupported_behavior profile
    else if is_named profile "privileged"
    then privileged_profile profile
    else unknown_profile profile

abbrev pub with_mounted : DockerRequest → MountRequest → DockerRequest
with_mounted request mounted = record request { mounted = mounted }

module _ (config : DockerPreflightConfig) (inspector : Inspector) (host_arch : String) where
  abbrev pub image_for : DockerRequest → Result PreflightError String
  image_for request = image_or request.image config.image

  abbrev pub docker_root_allowed : Option String → Bool
  docker_root_allowed profile = config.allow_root_image_user || is_named profile "allow-root"

  abbrev pub docker_manifest_escape_allowed : Option String → Bool
  docker_manifest_escape_allowed profile =
      config.allow_arm64_manifest_escape || is_named profile "arm64-manifest-escape"

  abbrev pub arm64_by : String → Result PreflightError String → Result PreflightError Bool
  arm64_by image (ok arch) = ok (str_eq arch "arm64")
  arm64_by image (err local_error) =
      if is_docker_image_unavailable local_error
      then manifest_or local_error (inspector.arm64_manifest_available image)
      else err local_error

  abbrev pub docker_image_arm64_available : String → Result PreflightError Bool
  docker_image_arm64_available image = arm64_by image (inspector.image_architecture image)

  abbrev pub check_architecture : String → Option String → Result PreflightError (Unit {0})
  check_architecture image profile =
      if str_eq host_arch "aarch64" && not (docker_manifest_escape_allowed profile)
      then and_then (docker_image_arm64_available image)
          (λ available. check available (no_arm64_manifest image))
      else ok tt

  abbrev pub validate_docker_image_metadata_on_arch :
      DockerRequest → Option String → Result PreflightError (Unit {0})
  unfolding image_user_is_root
  validate_docker_image_metadata_on_arch request profile = and_then inspector.ensure_available (λ _.
      and_then (image_for request) (λ image. and_then (inspector.image_user image) (λ user.
        and_then
          (check (not (image_user_is_root user && not (docker_root_allowed profile)))
            (runs_as_root image))
          (λ _. check_architecture image profile))))

  unfoldable pub check_docker_profile :
      (List ℕ → Option (List ℕ))
      → DockerRequest
      → Option String
      → Result PreflightError DockerRequest
  unfolding validate_docker_mounts validate_docker_image_metadata_on_arch
  check_docker_profile canonicalize request profile =
      if is_accepted_profile profile
      then and_then (refused_mounts (validate_docker_mounts canonicalize request.mounted))
          (λ mounted.
            and_then (validate_docker_image_metadata_on_arch (with_mounted request mounted) profile)
              (λ _. ok (with_mounted request mounted)))
      else err (refused_profile profile)

  abbrev pub check_by :
      (List ℕ → Option (List ℕ))
      → DockerRequest
      → IsolationPolicy
      → Result PreflightError DockerRequest
  unfolding check_docker_profile
  check_by canonicalize request host = ok request
  check_by canonicalize request (docker profile) = check_docker_profile canonicalize request profile

  unfoldable pub check_isolation_policy :
      (List ℕ → Option (List ℕ)) → DockerRequest → Result PreflightError DockerRequest
  unfolding check_by
  check_isolation_policy canonicalize request = check_by canonicalize request request.isolation
