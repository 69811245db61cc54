-- ===== src/Runtime/Docker/Image/Allowed.antt =====
-- What the tests of a profile, a configuration, an image and an error of spawn_preflight.rs say.
use Prim.Native.String.{String}
use text.Mathlib.Text.{◌==◌ as str_eq}
use text.Mathlib.TextEquality.{eq_iff}
use littleorgans.Base.{
  ◌≡◌, ◌≢◌, refl, ap, Bool, ◌⊎◌, inl, inr, true, false, ◌||◌, Option, none, some,
}
use littleorgans.Base.Exec.{ok}
use littleorgans.Runtime.Docker.Results.{same_answer}
use littleorgans.Runtime.Docker.Image.{
  PreflightError, mounts_refused, is_docker_image_unavailable, is_named, image_or,
  docker_image_unavailable, unsupported_behavior, privileged_profile, unknown_profile,
  docker_unavailable, metadata_unavailable, image_not_configured, is_accepted_profile, runs_as_root,
  no_arm64_manifest,
}

pub other_name : (name name' : String) → str_eq name name' ≡ false → name ≢ name'
other_name name name' h e = unequal h ((eq_iff name name').1 e)
  where
    unequal : {b : Bool} → b ≡ false → b ≡ true → ⊥
    unequal h k = absurd cc

-- The error says that the image is not here.
abbrev pub IsUnavailable : PreflightError → Type 0
IsUnavailable e = (text : String) × (e ≡ docker_image_unavailable text)

pub is_docker_image_unavailable-IsUnavailable :
    (e : PreflightError) → is_docker_image_unavailable e ≡ true → IsUnavailable e
is_docker_image_unavailable-IsUnavailable (docker_image_unavailable text) h = (text, refl)
is_docker_image_unavailable-IsUnavailable (mounts_refused _) h = absurd cc
is_docker_image_unavailable-IsUnavailable (unsupported_behavior _) h = absurd cc
is_docker_image_unavailable-IsUnavailable (privileged_profile _) h = absurd cc
is_docker_image_unavailable-IsUnavailable (unknown_profile _) h = absurd cc
is_docker_image_unavailable-IsUnavailable (docker_unavailable _) h = absurd cc
is_docker_image_unavailable-IsUnavailable (metadata_unavailable _) h = absurd cc
is_docker_image_unavailable-IsUnavailable image_not_configured h = absurd cc
is_docker_image_unavailable-IsUnavailable (runs_as_root _) h = absurd cc
is_docker_image_unavailable-IsUnavailable (no_arm64_manifest _) h = absurd cc

-- No profile, or one of four names.
abbrev pub AcceptedProfile : Option String → Type 0
AcceptedProfile none = Unit {0}
AcceptedProfile (some name) =
    (name ≡ "default")
    ⊎ ((name ≡ "own-init") ⊎ ((name ≡ "allow-root") ⊎ (name ≡ "arm64-manifest-escape")))

one_of :
    (a b c d : Bool)
    → (a || (b || (c || d))) ≡ true
    → (a ≡ true) ⊎ ((b ≡ true) ⊎ ((c ≡ true) ⊎ (d ≡ true)))
one_of true b c d h = inl refl
one_of false true c d h = inr (inl refl)
one_of false false true d h = inr (inr (inl refl))
one_of false false false d h = inr (inr (inr h))

pub is_accepted_profile-AcceptedProfile :
    (profile : Option String) → is_accepted_profile profile ≡ true → AcceptedProfile profile
is_accepted_profile-AcceptedProfile none h = tt
is_accepted_profile-AcceptedProfile (some name) h =
    elim (one_of (str_eq name "default") (str_eq name "own-init") (str_eq name "allow-root")
      (str_eq name "arm64-manifest-escape") h) [
        | inl e ↦ inl ((eq_iff name "default").0 e)
        | inr (inl e) ↦ inr (inl ((eq_iff name "own-init").0 e))
        | inr (inr (inl e)) ↦ inr (inr (inl ((eq_iff name "allow-root").0 e)))
        | inr (inr (inr e)) ↦ inr (inr (inr ((eq_iff name "arm64-manifest-escape").0 e)))
      ]

-- The configuration allows it, or the profile has the name that does.
abbrev pub AllowedBy : Bool → Option String → String → Type 0
AllowedBy allowed profile name = (allowed ≡ true) ⊎ (profile ≡ some name)

pub allowed_by :
    (allowed : Bool) (profile : Option String) (name : String)
    → (allowed || is_named profile name) ≡ true
    → AllowedBy allowed profile name
allowed_by true profile name h = inl refl
allowed_by false none name h = absurd cc
allowed_by false (some other) name h = inr (ap some ((eq_iff other name).0 h))

-- The image of a request is its own, or the configured one where it has none.
abbrev pub ImageOf : Option String → Option String → String → Type 0
ImageOf own configured image = (own ≡ some image) ⊎ ((own ≡ none) × (configured ≡ some image))

pub image_or-ImageOf :
    (own configured : Option String) (image : String)
    → image_or own configured ≡ ok image
    → ImageOf own configured image
image_or-ImageOf (some own) configured image h =
    inl (ap some (same_answer (ok own) own image refl h))
image_or-ImageOf none (some other) image h =
    inr (refl, ap some (same_answer (ok other) other image refl h))
image_or-ImageOf none none image h = absurd cc
