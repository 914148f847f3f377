-- ===== src/Provider/Resolver.antt =====
-- internal/provider/resolver.go and the filters of internal/provider/provider.go: which container is
-- the runner of an instance, and whether anything of an allocation lingers.
pub mod Laws
pub mod Complete
use garm_provider_docker.Base.{
  String, Bool, true, false, Option, none, some, List, [], ◌∷◌, ◌++◌, Labels, Result, ok, err,
  not_found, if◌then◌else◌,
}
use garm_provider_docker.Docker.Filters.{LabelFilter, has_value}
use garm_provider_docker.Docker.Client.{container, network, volume, Resource, Client}
use garm_provider_docker.Docker.Containers.{ContainerJson, Engine}
use garm_provider_docker.Spec.Labels.{
  matches_predicate, is_managed_runner, label_managed, label_controller_id, label_instance_name,
  label_role, role_runner,
}

unfoldable pub managed_by_instance_name_filter : String → String → List LabelFilter
managed_by_instance_name_filter controller_id instance_name =
    has_value label_managed "true"
    ∷ has_value label_controller_id controller_id
    ∷ has_value label_instance_name instance_name
    ∷ []

unfoldable pub managed_runner_by_instance_name_filter : String → String → List LabelFilter
unfolding managed_by_instance_name_filter
managed_runner_by_instance_name_filter controller_id instance_name =
    managed_by_instance_name_filter controller_id instance_name
    ++ has_value label_role role_runner ∷ []

abbrev pub owned_config : String → Option Labels → Bool
owned_config controller_id none = false
owned_config controller_id (some labels) = is_managed_runner labels controller_id

unfoldable pub owns_runner : String → ContainerJson → Bool
owns_runner controller_id c = owned_config controller_id c.config

module _ (C : Client) (E : Engine C) (controller_id : String) where
  -- One turn of the loop, `rest` being the later turns.
  abbrev pub candidate :
      Result ContainerJson
      → C.World
      → Result (Option ContainerJson) × C.World
      → Result (Option ContainerJson) × C.World
  candidate (err not_found) w rest = rest
  candidate (err e) w rest = (err e, w)
  candidate (ok c) w rest = if owns_runner controller_id c then (ok (some c), w) else rest

  unfoldable pub first_owned : List Resource → C.World → Result (Option ContainerJson) × C.World
  first_owned [] w = (ok none, w)
  first_owned (r ∷ rs) w =
      let (got, w1) = E.inspect r.id w in let rest = first_owned rs w1 in candidate got w1 rest

  abbrev pub from_list :
      {A B : Type 0}
      → Result (List A)
      → C.World
      → (List A → Result B × C.World)
      → Result B × C.World
  from_list (err e) w next = (err e, w)
  from_list (ok rs) w next = next rs

  -- resolve and resolveByOwnedLabel: `found` is that there is one.
  unfoldable pub resolve : String → C.World → Result (Option ContainerJson) × C.World
  resolve instance_id w =
      let (listed, w1) =
        C.list container (managed_runner_by_instance_name_filter controller_id instance_id) w in
      from_list listed w1 (λ rs. first_owned rs w1)

  abbrev pub any_managed : List Resource → Bool
  any_managed [] = false
  any_managed (r ∷ rs) = if matches_predicate r.labels controller_id then true else any_managed rs

  unfoldable pub has_managed_allocation_resources : String → C.World → Result Bool × C.World
  has_managed_allocation_resources instance_name w =
      let f = managed_by_instance_name_filter controller_id instance_name in
      let (conts, w1) = C.list container f w in
      let (nets, w2) = C.list network f w1 in
      let (vols, w3) = C.list volume f w2 in
      from_list conts w1 (λ cs.
        if any_managed cs
        then (ok true, w1)
        else from_list nets w2 (λ ns.
          if any_managed ns
          then (ok true, w2)
          else from_list vols w3 (λ vs. (ok (any_managed vs), w3))))
