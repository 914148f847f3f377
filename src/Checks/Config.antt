-- ===== src/Checks/Config.antt =====
-- internal/config, internal/extraspecs and internal/spec/env.go at concrete inputs.
use garm_provider_docker.Base.{◌≤◌, String, true, false, [], ◌∷◌, Labels, refl}
use garm_provider_docker.Base.Texts.{trim_space, to_lower, decimal, max_int64}
use garm_provider_docker.Config.ByteSize.{
  parse_byte_size, parse_positive_byte_size, split_digits, parse_int,
}
use garm_provider_docker.Config.ByteSize.Bounds.{parse_positive_byte_size-bounds}
use garm_provider_docker.Config.Settings.{
  Config, Flavor, effective_dind_mode, effective_runner_memory_bytes, effective_dind_memory_bytes,
  effective_runner_image, env_allowed,
}
use garm_provider_docker.ExtraSpecs.Resolve.{ExtraSpecs, Resolved, resolve, bound_memory}
use garm_provider_docker.Spec.Env.{
  RunnerEnvOptions, entity_org, build_runner_env, NamedIn, common_names, build_runner_env-NamedIn,
}
use garm_provider_docker.ExtraSpecs.Bounds.{resolve-IsWithin, IsWithin}

abbrev large : Flavor
large = record { runner_memory = "16GiB"; dind_memory = ""; runner_image = "" }

abbrev config : Config
config = record {
  runner_image = "runner";
  dind_mode = "none";
  allowed_dind_modes = "none" ∷ "sysbox-runc" ∷ [];
  dind_image = "";
  allow_unpinned_dind_image = false;
  storage_driver = "overlay2";
  resources = record { runner_memory = "8GiB"; dind_memory = "4GiB" };
  flavors = ("large", large) ∷ [];
  allowed_env = "CI" ∷ [];
}

abbrev specs : ExtraSpecs
specs = record {
  flavor = "large";
  dind_mode = "sysbox-runc";
  runner_memory = "12GiB";
  dind_memory = "";
  storage_driver = "";
  runner_labels = [];
  extra_env = ("CI", "1") ∷ [];
}

abbrev sysbox : String
sysbox = "sysbox-runc"

abbrev env : Labels
env = ("CI", "1") ∷ []

parse_positive_byte_size-bounds_example : (1 ≤ 1024) × (1024 ≤ max_int64)
unfolding parse_positive_byte_size parse_byte_size split_digits parse_int trim_space to_lower
    decimal
parse_positive_byte_size-bounds_example = parse_positive_byte_size-bounds "1 KiB" 1024 refl

abbrev granted : Resolved
granted = record {
  flavor = "large";
  dind_mode = "sysbox-runc";
  runner_image = "runner";
  runner_memory_bytes = 12884901888;
  dind_memory_bytes = 4294967296;
  storage_driver = "overlay2";
  extra_runner_labels = [];
  extra_env = ("CI", "1") ∷ [];
}

resolve-IsWithin_example : IsWithin specs config granted
unfolding resolve bound_memory effective_dind_mode effective_runner_memory_bytes
    effective_dind_memory_bytes effective_runner_image env_allowed parse_positive_byte_size
    parse_byte_size split_digits parse_int trim_space to_lower decimal
resolve-IsWithin_example = resolve-IsWithin specs config granted refl

abbrev options : RunnerEnvOptions
options = record {
  jit_config_enabled = true;
  github_url = "https://github.com";
  runner_work_dir = "/work";
  docker_host = "unix:///var/run/docker.sock";
  tool_cache_dir = "";
  pnpm_store_dir = "/pnpm";
  entity = entity_org "acme";
  runner_name = "job";
  runner_group = "";
  labels = [];
}

build_runner_env-NamedIn_example : NamedIn common_names (build_runner_env options)
build_runner_env-NamedIn_example = build_runner_env-NamedIn options refl
