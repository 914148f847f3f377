-- ===== src/Provider/Instances/Laws.antt =====
-- The status and the fault of an instance that GARM sees.
use garm_provider_docker.Base.{
  String, Bool, true, false, Option, none, some, ◌==◌, ◌≡◌, ◌⊎◌, ◌↔◌, refl, arith, [], ◌∷◌,
}
use garm_provider_docker.Docker.Containers.{ContainerState, ContainerJson, ContainerSummary}
use garm_provider_docker.Provider.Instances.{
  InstanceStatus, running, stopped, pending_create, error, unknown, ProviderInstance,
  map_container_status, state_status, state_fault, fault_of, container_fault_message,
  to_provider_instance, to_provider_instance_from_summary,
}

-- The status is an error exactly for a container that ran out of memory or is dead.
pub map_container_status-error_iff :
    (state : String) (oom dead : Bool)
    → (map_container_status state oom dead ≡ error) ↔ ((oom ≡ true) ⊎ (dead ≡ true))
unfolding map_container_status
map_container_status-error_iff state oom dead = ground arith

fault_of_iff :
    (s : InstanceStatus) (text : String)
    → (s ≡ error) ↔ ((message : String) × (fault_of s text ≡ some message))
fault_of_iff error text = (λ e. (text, refl), λ f. refl)
fault_of_iff running text = (λ e. ground (arith, e), λ (m, f). ground (arith, f))
fault_of_iff stopped text = (λ e. ground (arith, e), λ (m, f). ground (arith, f))
fault_of_iff pending_create text = (λ e. ground (arith, e), λ (m, f). ground (arith, f))
fault_of_iff unknown text = (λ e. ground (arith, e), λ (m, f). ground (arith, f))

state_fault_iff :
    (o : Option ContainerState)
    → (state_status o ≡ error) ↔ ((message : String) × (state_fault o ≡ some message))
state_fault_iff none = (λ e. ground (arith, e), λ (m, f). ground (arith, f))
state_fault_iff (some s) = fault_of_iff (state_status (some s)) (container_fault_message s)

-- An inspected container's instance has a fault exactly if its status is an error.
pub to_provider_instance-fault_iff :
    (c : ContainerJson)
    → ((to_provider_instance c).status ≡ error)
      ↔ ((message : String) × ((to_provider_instance c).provider_fault ≡ some message))
unfolding to_provider_instance
to_provider_instance-fault_iff c = state_fault_iff c.state

-- What an inspection and a list call say of one container.
pub record SameContainer (c : ContainerJson) (s : ContainerSummary) (state : ContainerState)
    : Type 0 where
  pub same_labels : c.config ≡ some s.labels
  pub same_name : s.names ≡ c.name ∷ []
  pub same_state : c.state ≡ some state
  pub same_status : s.state ≡ state.status
  pub same_dead : state.dead ≡ (state.status == "dead")

-- The parts of an instance that do not need an inspection.
abbrev pub IsAsListed : ProviderInstance → ProviderInstance → Type 0
IsAsListed a b =
    (a.provider_id ≡ b.provider_id)
    × (a.name ≡ b.name)
    × (a.os_type ≡ b.os_type)
    × (a.os_arch ≡ b.os_arch)
    × (a.status ≡ b.status)

-- If an inspection and a list entry show one container, with the same labels, name and status, where
-- the inspection says dead exactly for the status "dead" and does not say that it was killed for
-- out-of-memory, GetInstance and ListInstances give it the same id, name, OS and status.
pub to_provider_instance-IsAsListed :
    (c : ContainerJson) (s : ContainerSummary) (state : ContainerState)
    → SameContainer c s state
    → state.oom_killed ≡ false
    → IsAsListed (to_provider_instance c) (to_provider_instance_from_summary s)
unfolding to_provider_instance to_provider_instance_from_summary map_container_status
to_provider_instance-IsAsListed c s state same alive =
    rw (same.same_labels, same.same_name, same.same_state, same.same_status, same.same_dead, alive)
      (refl, refl, refl, refl, refl)

-- If it was, GetInstance says an error, and ListInstances does so only for a dead container.
pub to_provider_instance-oom :
    (c : ContainerJson) (s : ContainerSummary) (state : ContainerState)
    → SameContainer c s state
    → state.oom_killed ≡ true
    → ((to_provider_instance c).status ≡ error)
      × (((to_provider_instance_from_summary s).status ≡ error) ↔ (state.dead ≡ true))
unfolding to_provider_instance to_provider_instance_from_summary map_container_status
to_provider_instance-oom c s state same oom =
    rw (same.same_state, same.same_status, oom) (refl, ground (arith, same.same_dead))
