-- ===== src/Spec/Helpers.antt =====
-- internal/spec/diag.go and externals.go: the helper containers that no job runs in, and the names of
-- stamp containers. `sha256_hex` stands for SHA-256 in hexadecimal.
use garm_provider_docker.Base.{ℕ, ◌*◌, String, false, none, List, [], ◌∷◌, Labels, ◌⧺◌}
use garm_provider_docker.Base.Texts.{itoa}
use Prim.Native.String.{slice}
use garm_provider_docker.Docker.Configs.{
  type_volume, Mount, ContainerConfig, HostConfig, empty_host_config,
}
use garm_provider_docker.Spec.Mounts.{runner_externals_dir}

-- A helper runs one command with no network.
abbrev helper_config : String → List String → Labels → ContainerConfig
helper_config image entrypoint labels = record {
  image = image;
  env = [];
  entrypoint = entrypoint;
  cmd = [];
  tty = false;
  labels = labels;
}

abbrev helper_host : List Mount → HostConfig
helper_host mounts = record empty_host_config { network_mode = "none"; mounts = mounts }

abbrev writable_volume : String → String → Mount
writable_volume name target = record {
  kind = type_volume;
  source = name;
  target = target;
  read_only = false;
  tmpfs_options = none;
}

abbrev pub diag_prune_mount_dir : String
diag_prune_mount_dir = "/garm-diag-logs"

-- `24 * 60`
abbrev pub diag_minutes_per_day : ℕ
diag_minutes_per_day = 1440

unfoldable pub diag_prune_script : ℕ → String
diag_prune_script retention_days =
    "find "
    ⧺ diag_prune_mount_dir
    ⧺ " -type f -mmin +"
    ⧺ itoa (retention_days * diag_minutes_per_day)
    ⧺ " -delete"

pub record DiagPruneContainerSpec : Type 0 where
  pub image : String
  pub volume_name : String
  pub retention_days : ℕ
  pub labels : Labels

unfoldable pub build_diag_prune_container : DiagPruneContainerSpec → ContainerConfig × HostConfig
build_diag_prune_container s = (
  helper_config s.image ("/bin/sh" ∷ "-ec" ∷ diag_prune_script s.retention_days ∷ []) s.labels,
  helper_host (writable_volume s.volume_name diag_prune_mount_dir ∷ []),
)

abbrev pub externals_seeded_marker_basename : String
externals_seeded_marker_basename = ".garm-seeded"

abbrev pub externals_seed_staging_dir : String
externals_seed_staging_dir = "/garm-externals-seed"

unfoldable pub externals_seed_script : String
externals_seed_script =
    "exec 9>\"" ⧺ externals_seed_staging_dir ⧺ "/.garm-seed.lock\"\nflock 9\nif [ -e \""
    ⧺ externals_seed_staging_dir ⧺ "/" ⧺ externals_seeded_marker_basename
    ⧺ "\" ]; then\n  exit 0\nfi\nif [ -d \"" ⧺ runner_externals_dir ⧺ "\" ]; then\n  cp -a \""
    ⧺ runner_externals_dir ⧺ "/.\" \"" ⧺ externals_seed_staging_dir ⧺ "/\"\nfi\nsync\ntouch \""
    ⧺ externals_seed_staging_dir ⧺ "/" ⧺ externals_seeded_marker_basename ⧺ "\"\n"

pub record ExternalsSeedContainerSpec : Type 0 where
  pub image : String
  pub volume_name : String
  pub labels : Labels

unfoldable pub build_externals_seed_container :
    ExternalsSeedContainerSpec → ContainerConfig × HostConfig
build_externals_seed_container s = (
  helper_config s.image ("/bin/sh" ∷ "-ec" ∷ externals_seed_script ∷ []) s.labels,
  helper_host (writable_volume s.volume_name externals_seed_staging_dir ∷ []),
)

unfoldable pub build_stamp_container : String → Labels → ContainerConfig × HostConfig
build_stamp_container image labels = (helper_config image ("true" ∷ []) labels, helper_host [])

abbrev pub diag_prune_stamp_prefix : String
diag_prune_stamp_prefix = "garm-diagprune-stamp-"

abbrev pub diag_prune_stamp_hash_len : ℕ
diag_prune_stamp_hash_len = 16

-- ThrottleStamp
pub data ThrottleStamp : Type 0 where
  stamp_orphan_sweep stamp_cache_gc : ThrottleStamp

abbrev pub stamp_text : ThrottleStamp → String
stamp_text stamp_orphan_sweep = "sweep"
stamp_text stamp_cache_gc = "cachegc"

module _ (sha256_hex : String → String) where
  unfoldable pub diag_prune_stamp_name : String → String
  diag_prune_stamp_name controller_id =
      diag_prune_stamp_prefix ⧺ slice (sha256_hex controller_id) 0 diag_prune_stamp_hash_len

  unfoldable pub throttle_stamp_name : String → ThrottleStamp → String
  throttle_stamp_name controller_id pass =
      "garm-"
      ⧺ stamp_text pass
      ⧺ "-stamp-"
      ⧺ slice (sha256_hex controller_id) 0 diag_prune_stamp_hash_len
