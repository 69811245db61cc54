-- ===== src/Runtime/Docker/Image/Tests.antt =====
-- Runs of the preflight's checks of an image, and the example of the theorem about them.
use Prim.Native.String.{String}
use littleorgans.Base.{ℕ, ◌≡◌, refl, Bool, true, false, Option, none, some, List, [], ◌∷◌}
use littleorgans.Base.Exec.{ok, err}
use littleorgans.Runtime.Lifecycle.{docker}
use littleorgans.Runtime.Paths.{container_paths_overlap}
use littleorgans.Runtime.Docker.{
  MountSpec, new_mount, reject_cwd_source_descendants, select_next, plan_by,
}
use littleorgans.Runtime.Docker.Preflight.{MountRequest, validate_docker_mounts, check_path}
use littleorgans.Base.Text.{codes}
use littleorgans.Runtime.Docker.Image.{
  runs_as_root, no_arm64_manifest, privileged_profile, docker_image_unavailable,
  DockerPreflightConfig, DockerRequest, Inspector, image_user_is_root, check_architecture,
  validate_docker_image_metadata_on_arch, check_docker_profile, check_by, check_isolation_policy,
}
use littleorgans.Runtime.Docker.Image.Admitted.{Admitted, check_isolation_policy-Admitted}

abbrev bind : List ℕ → List ℕ → Bool → MountSpec
bind source target read_only = record { source = source; target = target; read_only = read_only }

root : image_user_is_root (some (codes " root:staff")) ≡ true
unfolding image_user_is_root
root = refl

unset : image_user_is_root none ≡ true
unfolding image_user_is_root
unset = refl

-- The uid 0 with a second zero.
zeros : image_user_is_root (some (codes "00")) ≡ false
unfolding image_user_is_root
zeros = refl

abbrev config : DockerPreflightConfig
config = record {
  image = some "agent";
  allow_root_image_user = false;
  allow_arm64_manifest_escape = false;
}

-- The image is not here; its manifest may have arm64.
abbrev asked : String → Bool → Inspector
asked user arm64 = record {
  ensure_available = ok tt;
  image_user = λ image. ok (some (codes user));
  image_architecture = λ image. err (docker_image_unavailable "no such image");
  arm64_manifest_available = λ image. ok arm64;
}

abbrev plain : List ℕ → Option (List ℕ)
plain path = some path

abbrev mounted : MountRequest
mounted = record {
  cwd = codes "/work";
  mounts = bind (codes "/etc") (codes "/config") true ∷ [];
  env = record { key = codes "CLAUDE_CONFIG_DIR"; value = codes "/config/claude" } ∷ [];
}

abbrev request : Option String → DockerRequest
request profile = record { isolation = docker profile; image = none; mounted = mounted }

admitted :
    check_isolation_policy config (asked "agent" true) "aarch64" plain (request none)
    ≡ ok (request none)
unfolding check_isolation_policy check_docker_profile validate_docker_mounts new_mount
    reject_cwd_source_descendants select_next plan_by check_path container_paths_overlap
    validate_docker_image_metadata_on_arch check_by check_architecture
admitted = refl

check_isolation_policy-Admitted_example :
    Admitted config (asked "agent" true) "aarch64" (docker none) (request none)
check_isolation_policy-Admitted_example =
    check_isolation_policy-Admitted config (asked "agent" true) "aarch64" plain (request none)
      (request none) admitted

asks_root :
    check_isolation_policy config (asked "root" true) "x86_64" plain (request none)
    ≡ err (runs_as_root "agent")
unfolding check_isolation_policy check_docker_profile validate_docker_mounts new_mount
    reject_cwd_source_descendants select_next plan_by check_path container_paths_overlap
    validate_docker_image_metadata_on_arch image_user_is_root
asks_root = refl

other_architecture :
    check_isolation_policy config (asked "agent" false) "aarch64" plain (request none)
    ≡ err (no_arm64_manifest "agent")
unfolding check_isolation_policy check_docker_profile validate_docker_mounts new_mount
    reject_cwd_source_descendants select_next plan_by check_path container_paths_overlap
    validate_docker_image_metadata_on_arch image_user_is_root
other_architecture = refl

privileged :
    check_isolation_policy config (asked "agent" true) "x86_64" plain (request (some "privileged"))
    ≡ err (privileged_profile (some "privileged"))
unfolding check_isolation_policy check_docker_profile
privileged = refl
