-- ===== src/Provider/Instances.antt =====
-- internal/provider/status.go and the mappings of internal/provider/resolver.go: the ProviderInstance
-- that GARM sees of a container.
pub mod Laws
use garm_provider_docker.Base.{
  String, Bool, true, false, ◌||◌, Option, none, some, List, [], ◌∷◌, Labels, label, ◌⧺◌, ◌==◌,
  if◌then◌else◌,
}
use garm_provider_docker.Base.Texts.{trim_prefix, itoa}
use garm_provider_docker.Docker.Containers.{ContainerState, ContainerJson, ContainerSummary}
use garm_provider_docker.Spec.Labels.{label_instance_name, label_os_type, label_os_arch}

-- The values of params.InstanceStatus that the provider uses.
pub data InstanceStatus : Type 0 where
  running stopped pending_create error unknown : InstanceStatus

-- params.Address with its type.
pub data Address : Type 0 where
  private_address : String → Address

pub record ProviderInstance : Type 0 where
  pub provider_id : String
  pub name : String
  pub os_type : String
  pub os_arch : String
  pub status : InstanceStatus
  pub addresses : List Address
  pub provider_fault : Option String

unfoldable pub map_container_status : String → Bool → Bool → InstanceStatus
map_container_status state oom_killed dead =
    if oom_killed || dead
    then error
    else if state == "running"
    then running
    else if state == "exited"
    then stopped
    else if state == "created"
    then pending_create
    else unknown

unfoldable pub container_fault_message : ContainerState → String
container_fault_message s =
    if s.oom_killed
    then "container was killed for out-of-memory (exit_code="
      ⧺ itoa s.exit_code
      ⧺ ", finished_at="
      ⧺ s.finished_at
      ⧺ ")"
    else if s.dead
    then "container is in the daemon's dead state" ⧺ (if s.error == "" then "" else ": " ⧺ s.error)
    else "container reported an error state"

abbrev pub endpoint_addresses : List (String × Option String) → List Address
endpoint_addresses [] = []
endpoint_addresses ((network, none) ∷ es) = endpoint_addresses es
endpoint_addresses ((network, some ip) ∷ es) =
    if ip == "" then endpoint_addresses es else private_address ip ∷ endpoint_addresses es

unfoldable pub addresses_from_inspect : ContainerJson → List Address
addresses_from_inspect c = elim c.networks [ none ↦ [] | some es ↦ endpoint_addresses es ]

-- `c.Config.Labels`, or no labels.
abbrev pub config_labels : Option Labels → Labels
config_labels none = []
config_labels (some l) = l

-- The status of a container and the message of a status that is an error.
abbrev pub fault_of : InstanceStatus → String → Option String
fault_of error message = some message
fault_of running message = none
fault_of stopped message = none
fault_of pending_create message = none
fault_of unknown message = none

abbrev pub state_status : Option ContainerState → InstanceStatus
state_status none = unknown
state_status (some s) = map_container_status s.status s.oom_killed s.dead

abbrev pub state_fault : Option ContainerState → Option String
state_fault none = none
state_fault (some s) = fault_of (state_status (some s)) (container_fault_message s)

abbrev pub inspected_name : Labels → String → String
inspected_name labels name =
    if label labels label_instance_name == ""
    then trim_prefix name "/"
    else label labels label_instance_name

unfoldable pub to_provider_instance : ContainerJson → ProviderInstance
to_provider_instance c =
    let labels = config_labels c.config in
    record {
      provider_id = inspected_name labels c.name;
      name = inspected_name labels c.name;
      os_type = label labels label_os_type;
      os_arch = label labels label_os_arch;
      status = state_status c.state;
      addresses = addresses_from_inspect c;
      provider_fault = state_fault c.state;
    }

abbrev pub listed_name : Labels → List String → String
listed_name labels [] = label labels label_instance_name
listed_name labels (n ∷ ns) = inspected_name labels n

abbrev pub summary_fault : InstanceStatus → String → Option String
summary_fault status text = if text == "" then none else fault_of status text

unfoldable pub to_provider_instance_from_summary : ContainerSummary → ProviderInstance
to_provider_instance_from_summary c =
    let status = map_container_status c.state false (c.state == "dead") in
    record {
      provider_id = listed_name c.labels c.names;
      name = listed_name c.labels c.names;
      os_type = label c.labels label_os_type;
      os_arch = label c.labels label_os_arch;
      status = status;
      addresses = [];
      provider_fault = summary_fault status c.status;
    }
