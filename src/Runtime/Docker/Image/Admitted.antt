-- ===== src/Runtime/Docker/Image/Admitted.antt =====
-- What holds of a request that the preflight admits to Docker.
use Prim.Native.String.{String}
use text.Mathlib.Text.{◌==◌ as str_eq}
use text.Mathlib.TextEquality.{eq_iff}
use littleorgans.Runtime.Docker.Image.Allowed.{
  IsUnavailable, is_docker_image_unavailable-IsUnavailable, AcceptedProfile,
  is_accepted_profile-AcceptedProfile, AllowedBy, allowed_by, ImageOf, image_or-ImageOf, other_name,
}
use littleorgans.Runtime.Docker.Image.User.{NotRoot, image_user_is_root-NotRoot}
use littleorgans.Base.{
  ℕ, ◌≡◌, ◌≢◌, refl, sym, ap, ◌∙◌, Bool, ◌⊎◌, inl, inr, true, false, not, ◌&&◌, Option, List,
  if◌then◌else◌, arith,
}
use littleorgans.Base.Exec.{Result, ok, err}
use littleorgans.Runtime.Lifecycle.{IsolationPolicy, host, docker}
use littleorgans.Runtime.Docker.{MountError}
use littleorgans.Runtime.Docker.Results.{and_then-ok, same_answer}
use littleorgans.Runtime.Docker.Preflight.{validate_docker_mounts}
use littleorgans.Runtime.Docker.Preflight.Accepted.{Accepted, validate_docker_mounts-Accepted}
use littleorgans.Runtime.Docker.Image.{
  PreflightError, DockerPreflightConfig, DockerRequest, Inspector, image_user_is_root, image_for,
  docker_root_allowed, docker_manifest_escape_allowed, is_docker_image_unavailable, manifest_or,
  arm64_by, docker_image_arm64_available, check_architecture, check, refused_mounts, with_mounted,
  validate_docker_image_metadata_on_arch, is_accepted_profile, check_docker_profile, check_by,
  check_isolation_policy, runs_as_root, no_arm64_manifest,
}

refused_mounts-ok :
    {A : Type 0} → (r : Result MountError A) (a : A) → refused_mounts r ≡ ok a → r ≡ ok a
refused_mounts-ok (ok b) a h = ap ok (same_answer (refused_mounts (ok b)) b a refl h)
refused_mounts-ok (err e) a h = absurd cc

if-cases :
    {A : Type 0}
    → (b : Bool) (x y z : A) → (if b then x else y) ≡ z
    → ((b ≡ true) × (x ≡ z)) ⊎ ((b ≡ false) × (y ≡ z))
if-cases true x y z h = inl (refl, h)
if-cases false x y z h = inr (refl, h)

not_both : (a b : Bool) → (a && not b) ≡ false → (a ≡ false) ⊎ (b ≡ true)
not_both false b h = inl refl
not_both true b h = inr (ground arith)

both : (a b : Bool) → (a && not b) ≡ true → b ≡ false
both a b h = ground arith

neither : (b : Bool) → not b ≡ true → b ≡ false
neither b h = ground arith

check-ok : (b : Bool) (e : PreflightError) → check b e ≡ ok tt → b ≡ true
check-ok true e h = refl
check-ok false e h = absurd cc

module _ (config : DockerPreflightConfig) (inspector : Inspector) (host_arch : String) where
  -- The image says that it is for arm64; or it is not here, and its manifest has arm64.
  abbrev pub HasArm64 : String → Type 0
  HasArm64 image =
      (inspector.image_architecture image ≡ ok "arm64")
      ⊎ ((e : PreflightError) × (inspector.image_architecture image ≡ err e)
          × IsUnavailable e
          × (inspector.arm64_manifest_available image ≡ ok true))

  abbrev pub RootAllowed : Option String → Option (List ℕ) → Type 0
  RootAllowed profile user =
      NotRoot user ⊎ AllowedBy config.allow_root_image_user profile "allow-root"

  abbrev pub ArchAllowed : Option String → String → Type 0
  ArchAllowed profile image =
      (host_arch ≢ "aarch64")
      ⊎ (AllowedBy config.allow_arm64_manifest_escape profile "arm64-manifest-escape"
          ⊎ HasArm64 image)

  -- Docker answers, and has an image for the request, with its user and architecture allowed.
  abbrev pub ImageAllowed : Option String → DockerRequest → Type 0
  ImageAllowed profile request =
      (image : String) × (user : Option (List ℕ)) × (inspector.ensure_available ≡ ok tt)
      × ImageOf request.image config.image image
      × (inspector.image_user image ≡ ok user)
      × RootAllowed profile user
      × ArchAllowed profile image

  abbrev pub Admitted : IsolationPolicy → DockerRequest → Type 0
  Admitted host request = Unit {0}
  Admitted (docker profile) request =
      AcceptedProfile profile × Accepted request.mounted × ImageAllowed profile request

  arm64_by-HasArm64 :
      (image : String) (answer : Result PreflightError String)
      → inspector.image_architecture image ≡ answer
      → arm64_by config inspector host_arch image answer ≡ ok true
      → HasArm64 image
  arm64_by-HasArm64 image (ok arch) e h = inl (
      e
      ∙ ap ok (
          (eq_iff arch "arm64").0
            (sym (same_answer (ok true) true (str_eq arch "arm64") refl (sym h)))))
  arm64_by-HasArm64 image (err local) e h =
      elim (if-cases (is_docker_image_unavailable local) _ _ _ h) [
        | inr (there, k) ↦ absurd cc
        | inl (gone, k) ↦ inr (
          local,
          e,
          is_docker_image_unavailable-IsUnavailable local gone,
          manifest-ok local (inspector.arm64_manifest_available image) k,
        )
      ]
    where
      manifest-ok :
          (local : PreflightError) (r : Result PreflightError Bool)
          → manifest_or local r ≡ ok true
          → r ≡ ok true
      manifest-ok local (ok b) h = h
      manifest-ok local (err e) h = absurd cc

  check_architecture-ArchAllowed :
      (image : String) (profile : Option String)
      → check_architecture config inspector host_arch image profile ≡ ok tt
      → ArchAllowed profile image
  check_architecture-ArchAllowed image profile h =
      elim (if-cases (str_eq host_arch "aarch64" && not escape) _ _ _ h) [
        | inr (free, k) ↦ elim (not_both (str_eq host_arch "aarch64") escape free) [
          | inl other ↦ inl (other_name host_arch "aarch64" other)
          | inr allowed ↦
              inr (inl (allowed_by config.allow_arm64_manifest_escape profile _ allowed))
        ]
        | inl (bound, k) ↦
            let (available, found, passed) =
              and_then-ok (docker_image_arm64_available config inspector host_arch image) _ tt k in
            inr (
              inr (
                arm64_by-HasArm64 image (inspector.image_architecture image) refl
                  (found ∙ ap ok (check-ok available (no_arm64_manifest image) passed))))
      ]
    where
      escape : Bool
      escape = docker_manifest_escape_allowed config inspector host_arch profile

  root_allowed :
      (profile : Option String) (user : Option (List ℕ))
      → (image_user_is_root user && not (docker_root_allowed config inspector host_arch profile))
        ≡ false
      → RootAllowed profile user
  root_allowed profile user h =
      elim (not_both (image_user_is_root user)
        (docker_root_allowed config inspector host_arch profile) h) [
          | inl other ↦ inl (image_user_is_root-NotRoot user other)
          | inr allowed ↦ inr (allowed_by config.allow_root_image_user profile _ allowed)
        ]

  validate_docker_image_metadata_on_arch-ImageAllowed :
      (request : DockerRequest) (profile : Option String)
      → validate_docker_image_metadata_on_arch config inspector host_arch request profile ≡ ok tt
      → ImageAllowed profile request
  unfolding validate_docker_image_metadata_on_arch
  validate_docker_image_metadata_on_arch-ImageAllowed request profile h =
      let (_, available, h1) = and_then-ok inspector.ensure_available _ tt h in
      let (image, chosen, h2) =
        and_then-ok (image_for config inspector host_arch request) _ tt h1 in
      let (user, read, h3) = and_then-ok (inspector.image_user image) _ tt h2 in
      let root = image_user_is_root user in
      let allowed = docker_root_allowed config inspector host_arch profile in
      let (_, unprivileged, h4) =
        and_then-ok (check (not (root && not allowed)) (runs_as_root image)) _ tt h3 in
      (
        image,
        user,
        available,
        image_or-ImageOf request.image config.image image chosen,
        read,
        root_allowed profile user
            (neither (root && not allowed) (check-ok _ (runs_as_root image) unprivileged)),
        check_architecture-ArchAllowed image profile h4,
      )

  check_docker_profile-Admitted :
      (canonicalize : List ℕ → Option (List ℕ)) (request checked : DockerRequest)
      (profile : Option String)
      → check_docker_profile config inspector host_arch canonicalize request profile ≡ ok checked
      → Admitted (docker profile) checked
  unfolding check_docker_profile
  check_docker_profile-Admitted canonicalize request checked profile h =
      elim (if-cases (is_accepted_profile profile) _ _ _ h) [
        | inr (other, k) ↦ absurd cc
        | inl (accepted, k) ↦
            let (mounted, mounts, h1) =
              and_then-ok (refused_mounts (validate_docker_mounts canonicalize request.mounted)) _
                checked k in
            let (_, image, h2) =
              and_then-ok
                (validate_docker_image_metadata_on_arch config inspector host_arch
                  (with_mounted request mounted) profile)
                _ checked h1 in
            rw
              (← same_answer (ok (with_mounted request mounted)) (with_mounted request mounted)
                checked refl h2)
              (
                is_accepted_profile-AcceptedProfile profile accepted,
                validate_docker_mounts-Accepted canonicalize request.mounted mounted (
                    refused_mounts-ok (validate_docker_mounts canonicalize request.mounted) mounted
                      mounts),
                validate_docker_image_metadata_on_arch-ImageAllowed (with_mounted request mounted)
                    profile image,
              )
      ]

  check_by-Admitted :
      (canonicalize : List ℕ → Option (List ℕ)) (request checked : DockerRequest)
      (policy : IsolationPolicy)
      → check_by config inspector host_arch canonicalize request policy ≡ ok checked
      → Admitted policy checked
  unfolding check_by
  check_by-Admitted canonicalize request checked host h = tt
  check_by-Admitted canonicalize request checked (docker profile) h =
      check_docker_profile-Admitted canonicalize request checked profile h

-- For any answers of docker and of canonicalize, a Docker request that the preflight admits has no
-- profile or one of the four accepted names, mounts and variables that have a plan, and an image, its
-- own or the configured one, whose user docker tells. The name of the user is neither empty, 0 nor
-- root unless the configuration or the profile allows root, and on aarch64 the image is for arm64, or
-- is not here and has a manifest for arm64, unless the configuration or the profile allows others.
pub check_isolation_policy-Admitted :
    (config : DockerPreflightConfig) (inspector : Inspector) (host_arch : String)
    (canonicalize : List ℕ → Option (List ℕ)) (request checked : DockerRequest)
    → check_isolation_policy config inspector host_arch canonicalize request ≡ ok checked
    → Admitted config inspector host_arch request.isolation checked
unfolding check_isolation_policy
check_isolation_policy-Admitted config inspector host_arch canonicalize request checked h =
    check_by-Admitted config inspector host_arch canonicalize request checked request.isolation h
