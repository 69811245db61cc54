-- ===== src/Runtime/Docker/Argv/Tests.antt =====
-- Runs of the command line, and the examples of the theorems about it.
use littleorgans.Base.{ℕ, ◌≡◌, refl, Bool, true, false, List, [], ◌∷◌}
use littleorgans.Runtime.Docker.{MountSpec}
use littleorgans.Base.Text.{codes}
use littleorgans.Runtime.Docker.Argv.{bind_mount_arg, container_command}
use littleorgans.Runtime.Docker.Argv.Mounts.{append_mount_args_injective}

abbrev bind : List ℕ → List ℕ → Bool → MountSpec
bind source target read_only = record { source = source; target = target; read_only = read_only }

-- A comma in a target reads as an option.
same_argument :
    bind_mount_arg (bind (codes "/a") (codes "/b") true)
    ≡ bind_mount_arg (bind (codes "/a") (codes "/b,readonly") false)
unfolding bind_mount_arg
same_argument = refl

abbrev mounts : List MountSpec
mounts = bind (codes "/etc") (codes "/config") true ∷ (bind (codes "/b") (codes "/c") false ∷ [])

append_mount_args_injective_example : mounts ≡ mounts
append_mount_args_injective_example =
    append_mount_args_injective mounts mounts ((refl, refl), ((refl, refl), tt))
      ((refl, refl), ((refl, refl), tt)) refl

base_name : container_command (codes "/usr/bin/claude") ≡ codes "claude"
base_name = refl
