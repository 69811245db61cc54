-- ===== src/Runtime/Docker/Argv.antt =====
-- internal/runtime/daemon/src/docker_argv.rs: the command line of `docker run`. The text of a session's
-- id and the path of `docker` are parameters.
pub mod Mounts
mod Tests
use littleorgans.Base.{
  ℕ, Bool, true, false, not, Option, none, some, List, [], ◌∷◌, ◌++◌, if◌then◌else◌, drop,
  get_last?,
}
use Prim.Native.String.{String}
use littleorgans.Base.Exec.{Result, ok, err}
use littleorgans.Base.Text.{starts_with, codes}
use littleorgans.Runtime.Paths.{slash, Component, normal, components}
use littleorgans.Runtime.Docker.{MountError, MountSpec, CwdMountPlan, and_then, plan_cwd_mount}
use littleorgans.Runtime.Docker.Preflight.{LaunchEnv}
use littleorgans.Runtime.Docker.Image.{is_named}

pub record ShellResume : Type 0 where
  pub argv : List (List ℕ)
  pub env : List LaunchEnv
  pub cwd : List ℕ

pub record LaunchSpec : Type 0 where
  pub argv : List (List ℕ)
  pub env : List LaunchEnv
  pub cwd : List ℕ
  pub shell_resume : Option ShellResume

pub data LaunchError : Type 0 where
  empty_argv : LaunchError
  mount_error : MountError → LaunchError

abbrev pub command_of : List (List ℕ) → Result LaunchError (List ℕ)
command_of [] = err empty_argv
command_of (command ∷ _) = ok command

abbrev pub planned : {A : Type 0} → Result MountError A → Result LaunchError A
planned (ok a) = ok a
planned (err e) = err (mount_error e)

-- The last component of the path if it is a name, or the whole path.
abbrev pub name_or : List ℕ → Option Component → List ℕ
name_or command (some (normal name)) = name
name_or command _ = command

abbrev pub container_command : List ℕ → List ℕ
container_command command =
    if starts_with command slash then name_or command (get_last? (components command)) else command

abbrev pub append_env_args : List LaunchEnv → List (List ℕ)
append_env_args [] = []
append_env_args (entry ∷ env) =
    codes "--env" ∷ ((entry.key ++ 61 ∷ entry.value) ∷ append_env_args env)

unfoldable pub bind_mount_arg : MountSpec → List ℕ
bind_mount_arg mount =
    codes "type=bind,source="
    ++ (mount.source
        ++ (codes ",target="
            ++ (mount.target ++ (if mount.read_only then codes ",readonly" else []))))

abbrev pub append_mount_args : List MountSpec → List (List ℕ)
unfolding bind_mount_arg
append_mount_args [] = []
append_mount_args (mount ∷ mounts) =
    codes "--mount" ∷ (bind_mount_arg mount ∷ append_mount_args mounts)

abbrev pub auto_mount_args : Bool → List ℕ → List (List ℕ)
auto_mount_args false cwd = []
auto_mount_args true cwd =
    codes "--mount" ∷ ((codes "type=bind,src=" ++ (cwd ++ (codes ",dst=" ++ cwd))) ∷ [])

abbrev pub tty_args : Bool → List (List ℕ)
tty_args false = []
tty_args true = codes "-i" ∷ (codes "-t" ∷ (codes "--sig-proxy=false" ∷ []))

abbrev pub init_args : Option String → List (List ℕ)
init_args profile = if not (is_named profile "own-init") then codes "--init" ∷ [] else []

module _ (docker_command id_text : List ℕ) where
  abbrev pub container_name : List ℕ
  container_name = codes "rtm-" ++ id_text

  abbrev pub run_args : List (List ℕ)
  run_args =
      docker_command
      ∷ codes "run"
      ∷ codes "--rm"
      ∷ codes "--name"
      ∷ container_name
      ∷ codes "--label"
      ∷ (codes "com.littleorgans.runtime.session=" ++ id_text)
      ∷ []

  -- The arguments before `--workdir`, and those from there on.
  abbrev pub before_workdir : List ℕ → List MountSpec → Bool → List (List ℕ)
  before_workdir cwd mounts auto = run_args ++ auto_mount_args auto cwd ++ append_mount_args mounts

  abbrev pub workdir_args : List ℕ → Bool → List (List ℕ)
  workdir_args workdir tty = codes "--workdir" ∷ (workdir ∷ tty_args tty)

  abbrev pub docker_run_base_argv :
      List ℕ → List MountSpec → Bool → Result LaunchError (List (List ℕ))
  unfolding plan_cwd_mount before_workdir
  docker_run_base_argv cwd mounts tty =
      and_then (planned (plan_cwd_mount cwd mounts)) (λ plan.
        ok (before_workdir cwd mounts plan.auto_mount_cwd ++ workdir_args plan.workdir tty))

  abbrev pub docker_run_argv :
      Option String
      → List ℕ
      → LaunchSpec
      → List MountSpec
      → Bool
      → Result LaunchError (List (List ℕ))
  unfolding docker_run_base_argv
  docker_run_argv profile image launch mounts tmux_target =
      and_then (docker_run_base_argv launch.cwd mounts tmux_target)
        (λ argv. ok (argv ++ init_args profile ++ append_env_args launch.env ++ image ∷ []))

  unfoldable pub docker_run_launch :
      Option String → List ℕ → LaunchSpec → List MountSpec → Bool → Result LaunchError LaunchSpec
  unfolding docker_run_argv
  docker_run_launch profile image launch mounts tmux_target =
      and_then (command_of launch.argv) (λ command.
        and_then (docker_run_argv profile image launch mounts tmux_target) (λ argv.
          ok (record launch { argv = argv ++ container_command command ∷ drop 1 launch.argv })))
