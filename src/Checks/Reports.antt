-- ===== src/Checks/Reports.antt =====
-- The reports of internal/topology/dindio_parse.go and exitreport.go, the mounts and the mode of
-- internal/spec, at concrete inputs.
use garm_provider_docker.Base.{
  String, true, false, List, [], ◌∷◌, ok, map, ◌≡◌, ◌≢◌, ◌⧺◌, All, refl, arith,
}
use garm_provider_docker.Base.Texts.{cut, all_chars, has_prefix, split_on}
use garm_provider_docker.Topology.Reports.IoStat.{finished, read_lines, is_decimal}
use garm_provider_docker.Topology.Reports.IoStat.Laws.{
  read_lines-io_record, io_record, IoLine, writes_of,
}
use garm_provider_docker.Topology.Reports.Phase.{job_started, classify_runner_phase}
use garm_provider_docker.Topology.Reports.Phase.Laws.{classify_runner_phase-running}
use garm_provider_docker.Config.Cache.{
  default_cache, validate_cache, validate_cache_mount_path, validate_enabled_cache,
  cache_segment_pattern, clean_rooted, collides, path_is_at_or_under, canonicalize_var_run,
  reserved_mount_paths,
}
use garm_provider_docker.Config.Cache.Collisions.{validate_cache_mount_path-Apart, Apart}
use garm_provider_docker.Spec.Mounts.{RunnerContainerSpec, build_runner_container}
use garm_provider_docker.Spec.Mounts.Laws.{build_runner_container-TargetsDiffer, TargetsDiffer}

-- The second count makes the sum wrap; each line has its own keys.
abbrev two_lines : List IoLine
two_lines =
    record {
      writes = record { device = "8:0"; bytes = 18446744073709551615 };
      before = "rbytes=1" ∷ [];
      after = "rios=2" ∷ [];
    }
    ∷ record {
      writes = record { device = "251:0"; bytes = 4 };
      before = "rbytes=7" ∷ [];
      after = [];
    }
    ∷ []

read_lines-io_record_example :
    finished (
      read_lines
        (("io_stat" ∷ []) ∷ map io_record two_lines)
        (false, record { written = 0; devices = [] }))
    ≡ ok (record { written = 3; devices = writes_of two_lines })
unfolding cut is_decimal all_chars
read_lines-io_record_example =
    read_lines-io_record two_lines
      ((refl, omega arith, (refl, tt)), ((refl, omega arith, (refl, tt)), tt))

classify_runner_phase-running_example :
    classify_runner_phase
      ("2026-01-01 00:00:00Z: Running job: Job x completed with result: y" ∷ [])
      false
    ≡ job_started
classify_runner_phase-running_example =
    classify_runner_phase-running [] "2026-01-01 00:00:00Z" "Job x completed with result: y" false
      refl refl

abbrev runner_spec : RunnerContainerSpec
runner_spec = record {
  image = "runner";
  env = [];
  labels = [];
  memory_bytes = 0;
  workspace_volume_name = "job-n1-workspace";
  network_name = "job-net";
  socket_volume_name = "job-n1-socket";
  toolcache_volume_name = "garm-cache-toolcache-a";
  toolcache_mount_path = "/opt/hostedtoolcache";
  pnpm_volume_name = "garm-cache-pnpm-a";
  pnpm_mount_path = "/opt/pnpm-store";
  externals_volume_name = "garm-cache-externals-a";
  diag_volume_name = "garm-cache-diag-a";
}

build_runner_container-TargetsDiffer_example :
    TargetsDiffer ((build_runner_container runner_spec).1.mounts)
unfolding default_cache validate_cache validate_enabled_cache cache_segment_pattern all_chars
    validate_cache_mount_path has_prefix clean_rooted split_on collides path_is_at_or_under
    canonicalize_var_run
build_runner_container-TargetsDiffer_example =
    build_runner_container-TargetsDiffer default_cache runner_spec refl refl refl refl

abbrev tool_path : String
tool_path = "/opt/hostedtoolcache"

abbrev root_path : String
root_path = "/"

validate_cache_mount_path-Apart_example :
    (has_prefix tool_path root_path ≡ true)
    × (clean_rooted tool_path ≡ tool_path)
    × (tool_path ≢ root_path)
    × (tool_path ≢ "/var/run")
    × ((t : String) → tool_path ≢ ("/var/run" ⧺ "/") ⧺ t)
    × All (Apart tool_path) reserved_mount_paths
unfolding all_chars validate_cache_mount_path has_prefix clean_rooted split_on collides
    path_is_at_or_under canonicalize_var_run
validate_cache_mount_path-Apart_example = validate_cache_mount_path-Apart tool_path refl
