-- ===== src/Provider/Commands/Preserved.antt =====
-- internal/provider/resolver.go, delete.go: what the daemon's lists and inspections preserve, so does
-- the resolution of an instance.
use garm_provider_docker.Base.{
  String, Bool, true, false, Option, none, some, List, [], ◌∷◌, Result, ok, err, failed, not_found,
  conflict, forbidden, duplicate, instance_not_found, both, if◌then◌else◌,
}
use garm_provider_docker.Docker.Filters.{LabelFilter}
use garm_provider_docker.Docker.Client.{Kind, container, network, volume, Resource, Client}
use garm_provider_docker.Docker.Containers.{ContainerJson, Engine}
use garm_provider_docker.Provider.Resolver.{
  resolve, first_owned, candidate, from_list, owns_runner, managed_by_instance_name_filter,
  managed_runner_by_instance_name_filter, has_managed_allocation_resources, any_managed,
}
use garm_provider_docker.Provider.Commands.{resolved_name, resolve_instance_name}

module _ (C : Client) (E : Engine C) (controller_id : String) (P : C.World → Type 0)
    (by_list : (K : Kind) (fs : List LabelFilter) (w : C.World) → P w → P (C.list K fs w).1)
    (by_inspect : (i : String) (w : C.World) → P w → P (E.inspect i w).1) where
  candidate-preserves :
      (got : Result ContainerJson) (w : C.World) (rest : Result (Option ContainerJson) × C.World)
      → P w
      → P rest.1
      → P (candidate C E controller_id got w rest).1
  candidate-preserves (err not_found) w rest here later = later
  candidate-preserves (err failed) w rest here later = here
  candidate-preserves (err conflict) w rest here later = here
  candidate-preserves (err forbidden) w rest here later = here
  candidate-preserves (err duplicate) w rest here later = here
  candidate-preserves (err instance_not_found) w rest here later = here
  candidate-preserves (err (both a b)) w rest here later = here
  candidate-preserves (ok c) w rest here later = either (owns_runner controller_id c)
    where
      either : (b : Bool) → P (if b then (ok (some c), w) else rest).1
      either true = here
      either false = later

  first_owned-preserves :
      (rs : List Resource) (w : C.World) → P w → P (first_owned C E controller_id rs w).1
  unfolding first_owned
  first_owned-preserves [] w h = h
  first_owned-preserves (r ∷ rs) w h =
      let h' : P (E.inspect r.id w).1 = by_inspect r.id w h in
      candidate-preserves (E.inspect r.id w).0 _ _ h' (first_owned-preserves rs _ h')

  from_list-preserves :
      {B : Type 0} (listed : Result (List Resource)) (w : C.World)
      (next : List Resource → Result B × C.World)
      → P w
      → ((rs : List Resource) → P (next rs).1)
      → P (from_list C E controller_id listed w next).1
  from_list-preserves (err e) w next h k = h
  from_list-preserves (ok rs) w next h k = k rs

  if-preserves :
      {B : Type 0} (b : Bool) (r s : Result B × C.World) → P r.1 → P s.1 → P (if b then r else s).1
  if-preserves true r s h k = h
  if-preserves false r s h k = k

  pub resolve-preserves :
      (name : String) (w : C.World) → P w → P (resolve C E controller_id name w).1
  unfolding resolve
  resolve-preserves name w h =
      let filters = managed_runner_by_instance_name_filter controller_id name in
      let h' : P (C.list container filters w).1 = by_list container filters w h in
      from_list-preserves (C.list container filters w).0 _ _ h'
        (λ rs. first_owned-preserves rs _ h')

  has_managed_allocation_resources-preserves :
      (name : String) (w : C.World)
      → P w
      → P (has_managed_allocation_resources C E controller_id name w).1
  unfolding has_managed_allocation_resources
  has_managed_allocation_resources-preserves name w h =
      let f = managed_by_instance_name_filter controller_id name in
      let h1 : P (C.list container f w).1 = by_list container f w h in
      let h2 : P (C.list network f (C.list container f w).1).1 = by_list network f _ h1 in
      let h3 : P (C.list volume f (C.list network f (C.list container f w).1).1).1 =
        by_list volume f _ h2 in
      from_list-preserves (C.list container f w).0 _ _ h1 (λ cs.
        if-preserves (any_managed C E controller_id cs) _ _ h1 (
          from_list-preserves (C.list network f (C.list container f w).1).0 _ _ h2 (λ ns.
            if-preserves (any_managed C E controller_id ns) _ _ h2 (
              from_list-preserves (C.list volume f (C.list network f (C.list container f w).1).1).0
                _ _ h3 (λ vs. h3)))))

  resolved_name-preserves :
      (name : String) (found : Result (Option ContainerJson)) (w : C.World)
      → P w
      → P (resolved_name C E controller_id name found w).1
  resolved_name-preserves name (err e) w h = h
  resolved_name-preserves name (ok (some c)) w h = h
  resolved_name-preserves name (ok none) w h = has_managed_allocation_resources-preserves name w h

  pub resolve_instance_name-preserves :
      (name : String) (w : C.World) → P w → P (resolve_instance_name C E controller_id name w).1
  unfolding resolve_instance_name
  resolve_instance_name-preserves name w h =
      resolved_name-preserves name (resolve C E controller_id name w).0 _
        (resolve-preserves name w h)
