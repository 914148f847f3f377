-- ===== src/Spec/Mounts.antt =====
-- internal/spec/mounts.go: the runner container's configuration, with the mounts of
-- internal/spec/dind.go, externals.go and diag.go. A memory limit is a number from 0.
pub mod Laws
use garm_provider_docker.Base.{
  ℕ, zero, suc, String, Bool, true, false, ◌&&◌, not, none, List, [], ◌∷◌, ◌++◌, Labels, ◌==◌, ◌⧺◌,
  if◌then◌else◌,
}
use garm_provider_docker.Base.Texts.{itoa}
use garm_provider_docker.Docker.Configs.{
  type_volume, Mount, ContainerConfig, HostConfig, empty_host_config,
}

abbrev pub credential_dir : String
credential_dir = "/run/garm"

abbrev pub runner_work_dir : String
runner_work_dir = "/actions-runner/_work"

abbrev pub runner_uid : String
runner_uid = "1001"

abbrev pub runner_gid : String
runner_gid = "1001"

abbrev pub credential_dir_mode : String
credential_dir_mode = "0700"

-- `16 << 20`
abbrev pub credential_tmpfs_size_bytes : ℕ
credential_tmpfs_size_bytes = 16777216

abbrev pub runner_ipv6_sysctl : String
runner_ipv6_sysctl = "net.ipv6.conf.all.disable_ipv6"

abbrev pub dind_socket_dir : String
dind_socket_dir = "/run"

abbrev pub dind_state_dir : String
dind_state_dir = "/var/lib/docker"

abbrev pub dind_socket_gid : String
dind_socket_gid = "2000"

abbrev pub runner_externals_dir : String
runner_externals_dir = "/actions-runner/externals"

abbrev pub runner_diag_dir : String
runner_diag_dir = "/actions-runner/_diag"

unfoldable pub credential_tmpfs_map : Labels
credential_tmpfs_map =
    (
      credential_dir,
      "rw,noexec,nosuid,nodev,size="
          ⧺ itoa credential_tmpfs_size_bytes
          ⧺ ",mode="
          ⧺ credential_dir_mode
          ⧺ ",uid="
          ⧺ runner_uid
          ⧺ ",gid="
          ⧺ runner_gid,
    )
    ∷ []

abbrev volume_at : String → String → Bool → Mount
volume_at name target read_only = record {
  kind = type_volume;
  source = name;
  target = target;
  read_only = read_only;
  tmpfs_options = none;
}

unfoldable pub workspace_mount : Mount
workspace_mount = volume_at "" runner_work_dir false

unfoldable pub named_workspace_mount : String → Mount
named_workspace_mount name = volume_at name runner_work_dir false

unfoldable pub cache_volume_mount : String → String → Mount
cache_volume_mount name target = volume_at name target false

unfoldable pub socket_volume_mount : String → Mount
socket_volume_mount name = volume_at name dind_socket_dir false

unfoldable pub dind_state_mount : String → Mount
dind_state_mount name = volume_at name dind_state_dir false

unfoldable pub externals_ro_mount : String → Mount
externals_ro_mount name = volume_at name runner_externals_dir true

unfoldable pub diag_logs_mount : String → Mount
diag_logs_mount name = volume_at name runner_diag_dir false

pub record RunnerContainerSpec : Type 0 where
  pub image : String
  pub env : List String
  pub labels : Labels
  pub memory_bytes : ℕ
  pub workspace_volume_name : String
  pub network_name : String
  pub socket_volume_name : String
  pub toolcache_volume_name : String
  pub toolcache_mount_path : String
  pub pnpm_volume_name : String
  pub pnpm_mount_path : String
  pub externals_volume_name : String
  pub diag_volume_name : String

-- The mounts of which each is appended under its test.
abbrev pub present : List (Bool × Mount) → List Mount
present [] = []
present ((test, m) ∷ es) = if test then m ∷ present es else present es

abbrev pub given : String → Bool
given name = not (name == "")

abbrev pub optional_mounts : RunnerContainerSpec → List (Bool × Mount)
optional_mounts s =
    (given s.socket_volume_name, socket_volume_mount s.socket_volume_name)
    ∷ (
      given s.toolcache_volume_name && given s.toolcache_mount_path,
      cache_volume_mount s.toolcache_volume_name s.toolcache_mount_path,
    )
    ∷ (
      given s.pnpm_volume_name && given s.pnpm_mount_path,
      cache_volume_mount s.pnpm_volume_name s.pnpm_mount_path,
    )
    ∷ (given s.externals_volume_name, externals_ro_mount s.externals_volume_name)
    ∷ (given s.diag_volume_name, diag_logs_mount s.diag_volume_name)
    ∷ []

unfoldable pub runner_mounts : RunnerContainerSpec → List Mount
runner_mounts s =
    (if given s.workspace_volume_name
      then named_workspace_mount s.workspace_volume_name
      else workspace_mount)
    ∷ present (optional_mounts s)

unfoldable pub build_runner_container : RunnerContainerSpec → ContainerConfig × HostConfig
build_runner_container s = (
  record {
    image = s.image;
    env = s.env;
    entrypoint = [];
    cmd = [];
    tty = false;
    labels = s.labels;
  },
  record empty_host_config {
    tmpfs = credential_tmpfs_map;
    mounts = runner_mounts s;
    sysctls = (runner_ipv6_sysctl, "1") ∷ [];
    group_add = if given s.socket_volume_name then dind_socket_gid ∷ [] else [];
    network_mode = s.network_name;
    memory = s.memory_bytes;
  },
)
