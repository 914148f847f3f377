-- ===== src/Checks/Start.antt =====
-- The start of a runner of internal/provider/runner_start.go, on a host that has no IPv6.
use garm_provider_docker.Base.{
  String, Bool, true, false, not, [], ◌∷◌, Option, none, some, label, ok, failed, ◌⊎◌, refl, ◌==◌,
}
use garm_provider_docker.Base.Texts.{contains_text, to_lower}
use garm_provider_docker.Docker.Configs.{ContainerConfig, HostConfig, empty_host_config}
use garm_provider_docker.Spec.Mounts.{runner_ipv6_sysctl}
use garm_provider_docker.Provider.Start.{
  Failure, Starter, create_and_start_runner, create_and_start_runner_once, retry,
  classify_ipv6_sysctl_error, without_ipv6_sysctl, revalidate_referenced_caches,
}
use garm_provider_docker.Provider.Start.Laws.{create_and_start_runner-StartedAs, StartedAs}

abbrev no_ipv6 : Failure
no_ipv6 = record {
  class = failed;
  message =
      "write sysctl key net.ipv6.conf.all.disable_ipv6: open /proc/sys/net/ipv6/conf/all/disable_ipv6: No such file or directory";
  ended = false;
}

abbrev refusal : Bool → Option Failure
refusal true = some no_ipv6
refusal false = none

-- The world is whether the container that stands there has the sysctl; then it does not start.
abbrev host_without_ipv6 : Starter
host_without_ipv6 = record {
  World = Bool;
  create = λ cfg host name w. (("id-1", none), not (label host.sysctls runner_ipv6_sysctl == ""));
  start = λ id w. (refusal w, w);
  remove = λ id w. (ok tt, w);
  inspect_volume = λ name w. (ok [], w);
}

abbrev runner_config : ContainerConfig
runner_config = record {
  image = "runner";
  env = [];
  entrypoint = [];
  cmd = [];
  tty = false;
  labels = [];
}

abbrev runner_host : HostConfig
runner_host = record empty_host_config { sysctls = (runner_ipv6_sysctl, "1") ∷ [] }

abbrev quote : String → String
quote s = s

-- The second try succeeds.
create_and_start_runner-StartedAs_example :
    StartedAs host_without_ipv6 quote runner_config "job" [] "id-1" false runner_host
    ⊎ StartedAs host_without_ipv6 quote runner_config "job" [] "id-1" false
        (without_ipv6_sysctl runner_host)
unfolding create_and_start_runner create_and_start_runner_once retry classify_ipv6_sysctl_error
    without_ipv6_sysctl revalidate_referenced_caches contains_text to_lower
create_and_start_runner-StartedAs_example =
    create_and_start_runner-StartedAs host_without_ipv6 quote runner_config runner_host "job" []
      true "id-1" false (refl, refl, refl)
