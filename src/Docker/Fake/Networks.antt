-- ===== src/Docker/Fake/Networks.antt =====
-- internal/docker/fake.go: creating, removing and listing networks.
use garm_provider_docker.Base.{
  ℕ, suc, String, Bool, false, ◌||◌, Option, none, some, List, [], ◌∷◌, ◌++◌, Labels, is_some,
  Result, ok, err, Error, not_found, conflict, forbidden, ◌==◌, ◌⧺◌, if◌then◌else◌,
}
use garm_provider_docker.Base.Tables.{assign, erase}
use garm_provider_docker.Base.Texts.{itoa}
use garm_provider_docker.Docker.Filters.{LabelFilter}
use garm_provider_docker.Docker.Fake.{
  FakeContainer, FakeNetwork, FakeClient, ◌or_else◌, find_network, find_network_by_name,
  injected_or,
}
use garm_provider_docker.Docker.Fake.Containers.{Response, created_or, unless_leaking}
use garm_provider_docker.Topology.Create.{NetworkSummary}

abbrev pub network_id : ℕ → String
network_id n = "fake-net-" ⧺ itoa n

unfoldable pub network_refusal : FakeClient → String → Option Error
network_refusal f name =
    unless_leaking f.injected.network_create_err_leaks f.injected.network_create_err
    or_else (if is_some (find_network_by_name f name) then some conflict else none)

unfoldable pub record_network : FakeClient → String → Labels → FakeClient
record_network f name labels =
    let id = network_id (suc f.next_id) in
    record f {
      next_id = suc f.next_id;
      networks = assign id (record { id = id; name = name; labels = labels }) f.networks;
    }

unfoldable pub network_create : String → Labels → FakeClient → Response × FakeClient
network_create name labels f =
    created_or (network_refusal f name)
      ((network_id (suc f.next_id), f.injected.network_create_err), record_network f name labels) f

-- A container, running or not, is attached to the network by its name or its id.
unfoldable pub has_endpoints : FakeNetwork → List (String × FakeContainer) → Bool
has_endpoints n [] = false
has_endpoints n ((k, c) ∷ cs) =
    (c.network_mode == n.name || c.network_mode == n.id) || has_endpoints n cs

abbrev pub remove_network : Option FakeNetwork → FakeClient → Result (Unit {0}) × FakeClient
remove_network none f = (err not_found, f)
remove_network (some n) f = if has_endpoints n f.containers then (err forbidden, f) else (
  ok tt,
  record f {
    networks = erase n.id f.networks;
    remove_order = f.remove_order ++ ("network:" ⧺ n.id) ∷ [];
  },
)

unfoldable pub network_remove : String → FakeClient → Result (Unit {0}) × FakeClient
network_remove id f =
    injected_or f.injected.network_remove_err f (remove_network (find_network f id) f)

module _ (matches : List LabelFilter → Labels → Bool) where
  abbrev pub matching_networks :
      List LabelFilter → List (String × FakeNetwork) → List NetworkSummary
  matching_networks fs [] = []
  matching_networks fs ((k, n) ∷ ns) =
      if matches fs n.labels
      then record { id = n.id; name = n.name; labels = n.labels } ∷ matching_networks fs ns
      else matching_networks fs ns

  unfoldable pub network_list : List LabelFilter → FakeClient → List NetworkSummary
  network_list fs f = matching_networks fs f.networks
