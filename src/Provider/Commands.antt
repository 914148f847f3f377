-- ===== src/Provider/Commands.antt =====
-- internal/provider: delete.go, stop.go, start.go, get.go, list.go and remove_all.go. The exit codes
-- of taxonomy.go follow from an error's class: `instance_not_found` is notFoundError. ListInstances
-- is modelled from its filters on, after the sweep and the cache pass that it starts.
pub mod Preserved
pub mod Laws
pub mod Complete
use garm_provider_docker.Base.{
  String, ℕ, Bool, true, false, Option, none, some, List, [], ◌∷◌, ◌++◌, map, Labels, label, Result,
  ok, err, Error, instance_not_found, ◌==◌, if◌then◌else◌,
}
use garm_provider_docker.Docker.Filters.{LabelFilter, has_value}
use garm_provider_docker.Docker.Client.{Client}
use garm_provider_docker.Docker.Containers.{ContainerJson, ContainerSummary, Engine}
use garm_provider_docker.Spec.Labels.{
  label_managed, label_controller_id, label_instance_name, label_role, label_pool_id, role_runner,
}
use garm_provider_docker.Topology.Teardown.{Outcome, teardown_allocation, teardown_all}
use garm_provider_docker.Provider.Instances.{
  ProviderInstance, config_labels, to_provider_instance, to_provider_instance_from_summary,
}
use garm_provider_docker.Provider.Resolver.{resolve, has_managed_allocation_resources}

module _ (C : Client) (E : Engine C) (controller_id : String) where
  abbrev pub scope_name : String → Option Labels → String
  scope_name instance_id config =
      if label (config_labels config) label_instance_name == ""
      then instance_id
      else label (config_labels config) label_instance_name

  abbrev pub lingering_name : String → Result Bool → Result (Option String)
  lingering_name instance_id (err e) = err e
  lingering_name instance_id (ok true) = ok (some instance_id)
  lingering_name instance_id (ok false) = ok none

  abbrev pub resolved_name :
      String → Result (Option ContainerJson) → C.World → Result (Option String) × C.World
  resolved_name instance_id (err e) w = (err e, w)
  resolved_name instance_id (ok (some c)) w = (ok (some (scope_name instance_id c.config)), w)
  resolved_name instance_id (ok none) w =
      let (lingering, w1) = has_managed_allocation_resources C E controller_id instance_id w in
      (lingering_name instance_id lingering, w1)

  unfoldable pub resolve_instance_name : String → C.World → Result (Option String) × C.World
  resolve_instance_name instance_id w =
      let (found, w1) = resolve C E controller_id instance_id w in
      resolved_name instance_id found w1

  -- `torn` and the error of a teardown.
  abbrev pub torn_down : Bool → List Error → Result (Unit {0})
  torn_down found (e ∷ es) = err e
  torn_down true [] = ok tt
  torn_down false [] = err instance_not_found

  abbrev pub delete_named : Result (Option String) → C.World → Result (Unit {0}) × C.World
  delete_named (err e) w = (err e, w)
  delete_named (ok none) w = (err instance_not_found, w)
  delete_named (ok (some name)) w =
      let (o, w1) = teardown_allocation C controller_id name w in (torn_down o.found o.errs, w1)

  unfoldable pub delete_instance : String → C.World → Result (Unit {0}) × C.World
  delete_instance instance_id w =
      let (name, w1) = resolve_instance_name instance_id w in delete_named name w1

  -- The runner of an instance, or the early return of Stop, Start and GetInstance.
  abbrev pub with_runner :
      {A : Type 0}
      → Result (Option ContainerJson)
      → C.World
      → (ContainerJson → Result A × C.World)
      → Result A × C.World
  with_runner (err e) w next = (err e, w)
  with_runner (ok none) w next = (err instance_not_found, w)
  with_runner (ok (some c)) w next = next c

  unfoldable pub stop : String → Bool → C.World → Result (Unit {0}) × C.World
  stop instance_id force w =
      let (found, w1) = resolve C E controller_id instance_id w in
      with_runner found w1 (λ c. E.stop_within (if force then some 0 else none) c.id w1)

  unfoldable pub start : String → C.World → Result (Unit {0}) × C.World
  start instance_id w =
      let (found, w1) = resolve C E controller_id instance_id w in
      with_runner found w1 (λ c. E.start c.id w1)

  unfoldable pub get_instance : String → C.World → Result ProviderInstance × C.World
  get_instance instance_id w =
      let (found, w1) = resolve C E controller_id instance_id w in
      with_runner found w1 (λ c. (ok (to_provider_instance c), w1))

  unfoldable pub instances_filter : String → List LabelFilter
  instances_filter pool_id =
      (has_value label_managed "true"
        ∷ has_value label_controller_id controller_id
        ∷ has_value label_role role_runner
        ∷ [])
      ++ (if pool_id == "" then [] else has_value label_pool_id pool_id ∷ [])

  unfoldable pub list_instances : String → C.World → Result (List ProviderInstance) × C.World
  list_instances pool_id w =
      let (listed, w1) = E.summaries (instances_filter pool_id) w in
      (elim listed [ err e ↦ err e | ok cs ↦ ok (map to_provider_instance_from_summary cs) ], w1)

  unfoldable pub remove_all_instances : C.World → Result (Unit {0}) × C.World
  remove_all_instances w =
      let (o, w1) = teardown_all C controller_id w in
      (elim o.errs [ [] ↦ ok tt | e ∷ es ↦ err e ], w1)
