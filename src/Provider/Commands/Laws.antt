-- ===== src/Provider/Commands/Laws.antt =====
-- internal/provider: what a delete leaves alone, and what the commands that need a runner do
-- without one.
use garm_provider_docker.Base.{
  String, Bool, true, false, Option, none, some, Labels, Result, ok, err, ◌≡◌, refl, subst, arith,
  label, eq_iff,
}
use garm_provider_docker.Docker.Client.{Kind, Client, ClientLaws, IsNamed}
use garm_provider_docker.Docker.Containers.{ContainerJson, Engine, EngineLaws}
use garm_provider_docker.Spec.Labels.{matches_predicate, label_instance_name}
use garm_provider_docker.Topology.Teardown.Allocation.{teardown_allocation-keeps_others}
use garm_provider_docker.Provider.Instances.{config_labels}
use garm_provider_docker.Provider.Resolver.{resolve, has_managed_allocation_resources}
use garm_provider_docker.Provider.Resolver.Laws.{IsRunnerOf, resolve-IsRunnerOf}
use garm_provider_docker.Provider.Commands.Preserved.{resolve_instance_name-preserves}
use garm_provider_docker.Provider.Commands.{
  scope_name, lingering_name, resolved_name, resolve_instance_name, delete_named, delete_instance,
}

module _ (C : Client) (L : ClientLaws C) (E : Engine C) (U : EngineLaws C L E)
    (controller_id : String) where
  -- The name that scopes a teardown is the instance's.
  pub resolve_instance_name-own :
      (instance_id : String) (w : C.World) (name : String)
      → (resolve_instance_name C E controller_id instance_id w).0 ≡ ok (some name)
      → name ≡ instance_id
  unfolding resolve_instance_name
  resolve_instance_name-own instance_id w name e =
      named (resolve C E controller_id instance_id w).0 _
        (λ c f. resolve-IsRunnerOf C L E U controller_id instance_id w c f) e
    where
      lingered :
          (r : Result Bool)
          → lingering_name C E controller_id instance_id r ≡ ok (some name)
          → name ≡ instance_id
      lingered (err e) h = ground (arith, h)
      lingered (ok true) h = cc h
      lingered (ok false) h = ground (arith, h)

      named :
          (found : Result (Option ContainerJson)) (w : C.World)
          → ((c : ContainerJson)
              → found ≡ ok (some c)
              → IsRunnerOf C L E U controller_id instance_id c.config)
          → (resolved_name C E controller_id instance_id found w).0 ≡ ok (some name)
          → name ≡ instance_id
      named (err x) w runner h = ground (arith, h)
      named (ok none) w runner h =
          lingered (has_managed_allocation_resources C E controller_id instance_id w).0 h
      named (ok (some c)) w runner h =
          let (own, mine) = runner c refl in
          let same : scope_name C E controller_id instance_id c.config ≡ name = cc h in
          ground (arith, same, mine, eq_iff (label (config_labels c.config) label_instance_name) "")

  -- DeleteInstance keeps each resource that is not this controller's or is of another instance,
  -- unless it is a volume that nobody named, whatever the daemon answers and whatever else is created meanwhile.
  pub delete_instance-keeps_others :
      (instance_id : String) (w : C.World) (J : Kind) (j : String) (l : Labels)
      → IsNamed L J j
      → L.view w J j ≡ some l
      → ¬ ((matches_predicate l controller_id ≡ true) × (label l label_instance_name ≡ instance_id))
      → L.view (delete_instance C E controller_id instance_id w).1 J j ≡ some l
  unfolding delete_instance
  delete_instance-keeps_others instance_id w J j l lasts h other =
      torn (resolve_instance_name C E controller_id instance_id w).0 _
        (resolve_instance_name-own instance_id w)
        (resolve_instance_name-preserves C E controller_id (λ v. L.view v J j ≡ some l)
          (λ K fs v k. L.list_keeps K fs v J j l k) (λ i v k. U.inspect_keeps i v J j l k)
          instance_id w h)
    where
      torn :
          (found : Result (Option String)) (w : C.World)
          → ((name : String) → found ≡ ok (some name) → name ≡ instance_id)
          → L.view w J j ≡ some l
          → L.view (delete_named C E controller_id found w).1 J j ≡ some l
      torn (err e) w own h = h
      torn (ok none) w own h = h
      torn (ok (some name)) w own h =
          teardown_allocation-keeps_others C L controller_id name w J j l lasts h
            (λ (p, n). other (p, subst (λ x. label l label_instance_name ≡ x) (own name refl) n))
