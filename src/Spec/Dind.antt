-- ===== src/Spec/Dind.antt =====
-- internal/spec/dind.go, with the mode selection and the container spec of internal/spec/mounts.go.
pub mod Laws
use garm_provider_docker.Base.{
  ℕ, String, Bool, true, false, List, [], ◌∷◌, ◌++◌, map, Labels, Result, ok, err, failed, ◌==◌,
  ◌⧺◌, if◌then◌else◌,
}
use garm_provider_docker.Docker.Configs.{Mount, ContainerConfig, HostConfig, empty_host_config}
use garm_provider_docker.Config.Settings.{
  dind_mode_none, dind_mode_privileged_sidecar, dind_mode_sysbox_runc,
}
use garm_provider_docker.Spec.Mounts.{
  dind_socket_gid, socket_volume_mount, dind_state_mount, named_workspace_mount, externals_ro_mount,
  present, given,
}

abbrev pub dind_runtime_sysbox : String
dind_runtime_sysbox = "sysbox-runc"

abbrev pub dind_docker_host : String
dind_docker_host = "unix:///run/docker.sock"

abbrev pub dind_tls_disabled_env : String
dind_tls_disabled_env = "DOCKER_TLS_CERTDIR="

abbrev pub dind_mode_unknown : String
dind_mode_unknown = "unknown"

-- Whether the sidecar is privileged, and its runtime.
unfoldable pub dind_runtime_selection : String → Result (Bool × String)
dind_runtime_selection mode =
    if mode == dind_mode_privileged_sidecar
    then ok (true, "")
    else if mode == dind_mode_sysbox_runc
    then ok (false, dind_runtime_sysbox)
    else err failed

unfoldable pub dind_shares_runner_netns : String → Bool
dind_shares_runner_netns mode = mode == dind_mode_privileged_sidecar

unfoldable pub dind_mode_of : Bool → String → String
dind_mode_of privileged runtime =
    if runtime == dind_runtime_sysbox
    then dind_mode_sysbox_runc
    else if privileged
    then dind_mode_privileged_sidecar
    else dind_mode_unknown

unfoldable pub dind_command : String → List String → List String → List String
dind_command storage_driver registry_mirrors insecure_registries =
    ("dockerd"
      ∷ ("--host=" ⧺ dind_docker_host)
      ∷ ("--storage-driver=" ⧺ storage_driver)
      ∷ ("--group=" ⧺ dind_socket_gid)
      ∷ [])
    ++ map (λ m. "--registry-mirror=" ⧺ m) registry_mirrors
    ++ map (λ r. "--insecure-registry=" ⧺ r) insecure_registries

unfoldable pub container_network_mode : String → String
container_network_mode id = "container:" ⧺ id

pub record DindContainerSpec : Type 0 where
  pub image : String
  pub env : List String
  pub labels : Labels
  pub memory_bytes : ℕ
  pub storage_driver : String
  pub registry_mirrors : List String
  pub insecure_registries : List String
  pub privileged : Bool
  pub runtime : String
  pub netns_container_id : String
  pub network_name : String
  pub socket_volume_name : String
  pub dind_state_volume_name : String
  pub workspace_volume_name : String
  pub externals_volume_name : String

unfoldable pub dind_mounts : DindContainerSpec → List Mount
dind_mounts s =
    socket_volume_mount s.socket_volume_name
    ∷ dind_state_mount s.dind_state_volume_name
    ∷ present (
        (given s.workspace_volume_name, named_workspace_mount s.workspace_volume_name)
        ∷ (given s.externals_volume_name, externals_ro_mount s.externals_volume_name)
        ∷ [])

unfoldable pub build_dind_container : DindContainerSpec → ContainerConfig × HostConfig
build_dind_container s = (
  record {
    image = s.image;
    env = dind_tls_disabled_env ∷ s.env;
    entrypoint = [];
    cmd = dind_command s.storage_driver s.registry_mirrors s.insecure_registries;
    tty = false;
    labels = s.labels;
  },
  record empty_host_config {
    privileged = s.privileged;
    mounts = dind_mounts s;
    runtime = s.runtime;
    network_mode =
        if given s.netns_container_id
        then container_network_mode s.netns_container_id
        else s.network_name;
    memory = s.memory_bytes;
  },
)
