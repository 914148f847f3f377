-- ===== src/Checks/Fake.antt =====
-- The fake of internal/docker/fake.go after a few calls.
use garm_provider_docker.Base.{Bool, false, List, [], ◌∷◌, none, Labels, ◌≡◌, refl}
use garm_provider_docker.Base.Tables.{assign, find_value}
use garm_provider_docker.Base.Texts.{itoa}
use garm_provider_docker.Docker.Filters.{LabelFilter}
use garm_provider_docker.Docker.Configs.{
  Mount, ContainerConfig, HostConfig, empty_host_config, type_volume,
}
use garm_provider_docker.Docker.Fake.{
  FakeClient, FakeContainer, new_fake_client, find, find_by_name,
}
use garm_provider_docker.Docker.Fake.Containers.{
  container_create, missing_volume, create_refusal, reject_unsupported_tmpfs_mount, create_failure,
  record_container, made_container,
}
use garm_provider_docker.Docker.Fake.Invariant.{
  Reachable, at_start, after, create, step, WellFormed,
}
use garm_provider_docker.Docker.Fake.Reached.{Reachable-WellFormed}
use garm_provider_docker.Docker.Fake.Mounted.{missing_volume-none}
use garm_provider_docker.Docker.Fake.Contract.{fake_volumes, fake_volumes-VolumesLaws, Records}
use garm_provider_docker.Topology.Cache.{VolumesLaws}
use garm_provider_docker.Checks.Daemon.{satisfies, satisfies_sound, satisfies_complete}

abbrev config : ContainerConfig
config = record { image = "runner"; env = []; entrypoint = []; cmd = []; tty = false; labels = [] }

-- The volume is not there, so that the create makes it.
abbrev workspace : Mount
workspace = record {
  kind = type_volume;
  source = "job-n1-workspace";
  target = "/runner/_work";
  read_only = false;
  tmpfs_options = none;
}

abbrev host : HostConfig
host = record empty_host_config { mounts = workspace ∷ [] }

abbrev created : FakeClient
created = step (create config host "garm-job") new_fake_client

created_Reachable : Reachable created
created_Reachable = after new_fake_client (create config host "garm-job") at_start

Reachable-WellFormed_example : WellFormed created
Reachable-WellFormed_example = Reachable-WellFormed created created_Reachable

abbrev runner : FakeContainer
runner = record {
  id = "fake-1";
  name = "garm-job";
  image = "runner";
  labels = [];
  env = [];
  tmpfs_mounts = [];
  sysctls = [];
  network_mode = "";
  mounts = workspace ∷ [];
  cmd = [];
  privileged = false;
  runtime = "";
  raw_runtime = "";
  group_add = [];
  state = "created";
  oom_killed = false;
  exit_code = 0;
  finished_at = none;
  tty = false;
  log_driver = "";
}

missing_volume-none_example : missing_volume created runner.mounts ≡ none
unfolding new_fake_client step container_create find assign create_refusal
    reject_unsupported_tmpfs_mount create_failure find_by_name find_value record_container itoa
    made_container
missing_volume-none_example = missing_volume-none created "garm-job" runner created_Reachable refl

abbrev matches : List LabelFilter → Labels → Bool
matches fs l = satisfies l fs

fake_volumes-VolumesLaws_example : (S : VolumesLaws (fake_volumes matches)) × Records matches S
fake_volumes-VolumesLaws_example =
    fake_volumes-VolumesLaws matches (λ fs l. (satisfies_sound l fs, satisfies_complete l fs))
