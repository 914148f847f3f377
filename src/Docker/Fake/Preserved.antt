-- ===== src/Docker/Fake/Preserved.antt =====
-- internal/docker/fake.go: each call keeps the maps well formed, so every state that is reached is.
use garm_provider_docker.Base.{
  ℕ, suc, String, Bool, true, false, Option, none, some, List, [], ◌∷◌, Labels, lookup, is_some,
  Error, conflict, ◌≡◌, ◌≢◌, refl, sym, ap, subst, ◌∙◌, arith, eq_iff, ◌==◌, Bool-cases, inl, inr,
  if◌then◌else◌, ◌&&◌, not,
}
use garm_provider_docker.Base.Tables.{
  assign, find_value, lookup-assign, assign-Distinct, find_value-some, find_value-none,
}
use garm_provider_docker.Docker.Configs.{Mount, ContainerConfig, HostConfig}
use garm_provider_docker.Docker.Fake.{
  FakeContainer, FakeNetwork, FakeVolume, FakeClient, new_fake_client, find, find_by_name,
  find_network, find_network_by_name, or_by_name, ◌or_else◌,
}
use garm_provider_docker.Docker.Fake.Containers.{
  Response, put, create_missing, names_volume, created_or, record_container, made_container,
  container_id, unless_leaking,
}
use garm_provider_docker.Docker.Fake.Networks.{
  network_create, network_refusal, record_network, network_id,
}
use garm_provider_docker.Docker.Fake.Invariant.{
  NamesDiffer, ContainersOk, NetworksOk, VolumesOk, WellFormed, assign-Keyed, assign-AllNumbered,
  suc-AllNumbered,
}

pub new_fake_client-WellFormed : WellFormed new_fake_client
unfolding new_fake_client
new_fake_client-WellFormed = record {
  containers_ok = record {
    containers_Keyed = λ k v e. ground (arith, e);
    containers_Numbered = λ k v e. ground (arith, e);
    containers_Distinct = tt;
  };
  networks_ok = record {
    networks_Keyed = λ k v e. ground (arith, e);
    networks_Numbered = λ k v e. ground (arith, e);
    networks_Distinct = tt;
    networks_NamesDiffer = λ j k a b e. ground (arith, e);
  };
  volumes_ok = record { volumes_Keyed = λ k v e. ground (arith, e); volumes_Distinct = tt };
}

-- A container that is found stands under its id.
pub find-lookup :
    (f : FakeClient) (x : String) (c : FakeContainer)
    → WellFormed f
    → find f x ≡ some c
    → lookup c.id f.containers ≡ some c
unfolding find find_by_name
find-lookup f x c wf e =
    found (lookup x f.containers) refl
      (find_value (λ (d : FakeContainer). d.name == x) f.containers) refl e
  where
    under : (k : String) → lookup k f.containers ≡ some c → lookup c.id f.containers ≡ some c
    under k at =
        subst (λ i. lookup i f.containers ≡ some c) (sym (wf.containers_ok.containers_Keyed k c at))
          at

    found :
        (o : Option FakeContainer)
        → lookup x f.containers ≡ o
        → (p : Option FakeContainer)
        → find_value (λ (d : FakeContainer). d.name == x) f.containers ≡ p
        → or_by_name o p ≡ some c
        → lookup c.id f.containers ≡ some c
    found (some d) a p b h = under x (a ∙ h)
    found none a p b h =
        let (k, at, named) =
          find_value-some _ f.containers c wf.containers_ok.containers_Distinct (b ∙ h) in
        under k at

pub find_network-lookup :
    (f : FakeClient) (x : String) (n : FakeNetwork)
    → WellFormed f
    → find_network f x ≡ some n
    → lookup n.id f.networks ≡ some n
unfolding find_network find_network_by_name
find_network-lookup f x n wf e =
    found (lookup x f.networks) refl (find_value (λ (d : FakeNetwork). d.name == x) f.networks) refl
      e
  where
    under : (k : String) → lookup k f.networks ≡ some n → lookup n.id f.networks ≡ some n
    under k at =
        subst (λ i. lookup i f.networks ≡ some n) (sym (wf.networks_ok.networks_Keyed k n at)) at

    found :
        (o : Option FakeNetwork)
        → lookup x f.networks ≡ o
        → (p : Option FakeNetwork) → find_value (λ (d : FakeNetwork). d.name == x) f.networks ≡ p
        → or_by_name o p ≡ some n
        → lookup n.id f.networks ≡ some n
    found (some d) a p b h = under x (a ∙ h)
    found none a p b h =
        let (k, at, named) =
          find_value-some _ f.networks n wf.networks_ok.networks_Distinct (b ∙ h) in
        under k at

put-ContainersOk :
    (n : ℕ) (cs : List (String × FakeContainer)) (c old : FakeContainer)
    → ContainersOk n cs
    → lookup c.id cs ≡ some old
    → ContainersOk n (assign c.id c cs)
put-ContainersOk n cs c old good at = record {
  containers_Keyed = assign-Keyed _ cs c.id c refl good.containers_Keyed;
  containers_Numbered =
      assign-AllNumbered (λ (c : FakeContainer). c.id) cs "fake-" n c.id c
        (good.containers_Numbered c.id old at) good.containers_Numbered;
  containers_Distinct = assign-Distinct cs c.id c good.containers_Distinct;
}

pub put-WellFormed :
    (f : FakeClient) (c old : FakeContainer)
    → WellFormed f
    → lookup c.id f.containers ≡ some old
    → WellFormed (put f c)
put-WellFormed f c old wf at = record {
  containers_ok = put-ContainersOk f.next_id f.containers c old wf.containers_ok at;
  networks_ok = wf.networks_ok;
  volumes_ok = wf.volumes_ok;
}

create_missing-VolumesOk :
    (ms : List Mount) (vs : List (String × FakeVolume))
    → VolumesOk vs
    → VolumesOk (create_missing ms vs)
unfolding create_missing
create_missing-VolumesOk [] vs good = good
create_missing-VolumesOk (m ∷ ms) vs good =
    create_missing-VolumesOk ms _
      (either (names_volume m.kind m.source && not (is_some (lookup m.source vs))))
  where
    either :
        (b : Bool)
        → VolumesOk (if b then assign m.source (record { name = m.source; labels = [] }) vs else vs)
    either false = good
    either true = record {
      volumes_Keyed = assign-Keyed _ vs m.source _ refl good.volumes_Keyed;
      volumes_Distinct = assign-Distinct vs m.source _ good.volumes_Distinct;
    }

pub suc-NetworksOk :
    (n : ℕ) (ns : List (String × FakeNetwork)) → NetworksOk n ns → NetworksOk (suc n) ns
suc-NetworksOk n ns good = record {
  networks_Keyed = good.networks_Keyed;
  networks_Numbered =
      suc-AllNumbered (λ (n : FakeNetwork). n.id) ns "fake-net-" n good.networks_Numbered;
  networks_Distinct = good.networks_Distinct;
  networks_NamesDiffer = good.networks_NamesDiffer;
}

pub suc-ContainersOk :
    (n : ℕ) (cs : List (String × FakeContainer)) → ContainersOk n cs → ContainersOk (suc n) cs
suc-ContainersOk n cs good = record {
  containers_Keyed = good.containers_Keyed;
  containers_Numbered =
      suc-AllNumbered (λ (c : FakeContainer). c.id) cs "fake-" n good.containers_Numbered;
  containers_Distinct = good.containers_Distinct;
}

pub record_container-WellFormed :
    (f : FakeClient) (cfg : ContainerConfig) (host : HostConfig) (name : String)
    → WellFormed f
    → WellFormed (record_container f cfg host name)
unfolding record_container made_container
record_container-WellFormed f cfg host name wf =
    let grown = suc-ContainersOk f.next_id f.containers wf.containers_ok in
    let made = made_container f.injected cfg host (container_id (suc f.next_id)) name in
    record {
      containers_ok = record {
        containers_Keyed = assign-Keyed _ f.containers _ made refl grown.containers_Keyed;
        containers_Numbered =
            assign-AllNumbered (λ (c : FakeContainer). c.id) f.containers "fake-" _ _ made
              (suc f.next_id, omega arith, refl) grown.containers_Numbered;
        containers_Distinct = assign-Distinct f.containers _ made grown.containers_Distinct;
      };
      networks_ok = suc-NetworksOk f.next_id f.networks wf.networks_ok;
      volumes_ok = create_missing-VolumesOk host.mounts f.volumes wf.volumes_ok;
    }

pub created_or-WellFormed :
    (refusal : Option Error) (r : Response) (f g : FakeClient)
    → WellFormed f
    → (refusal ≡ none → WellFormed g)
    → WellFormed (created_or refusal (r, g) f).1
created_or-WellFormed (some e) r f g wf made = wf
created_or-WellFormed none r f g wf made = made refl

-- A network of a name that no network has.
record_network-NamesDiffer :
    (ns : List (String × FakeNetwork)) (new : FakeNetwork)
    → ((k : String) (n : FakeNetwork) → lookup k ns ≡ some n → n.name ≢ new.name)
    → NamesDiffer ns
    → NamesDiffer (assign new.id new ns)
record_network-NamesDiffer ns new fresh differ j k a b at bt same =
    elim (Bool-cases (new.id == j)) [
      | inl here ↦ elim (Bool-cases (new.id == k)) [
        | inl both ↦ ground (arith, here, both, eq_iff new.id j, eq_iff new.id k)
        | inr other ↦
            let is_new : some new ≡ some a =
              ground (arith, at, lookup-assign ns new.id new j, here) in
            let old : lookup k ns ≡ some b =
              ground (arith, bt, lookup-assign ns new.id new k, other) in
            let e : new ≡ a = cc is_new in
            elim (fresh k b old (sym same ∙ ap (λ (x : FakeNetwork). x.name) (sym e))) [ ]
      ]
      | inr there ↦
          let was : lookup j ns ≡ some a =
            ground (arith, at, lookup-assign ns new.id new j, there) in
          elim (Bool-cases (new.id == k)) [
            | inl here ↦
                let is_new : some new ≡ some b =
                  ground (arith, bt, lookup-assign ns new.id new k, here) in
                let e : new ≡ b = cc is_new in
                elim (fresh j a was (same ∙ ap (λ (x : FakeNetwork). x.name) (sym e))) [ ]
            | inr other ↦
                differ j k a b was (ground (arith, bt, lookup-assign ns new.id new k, other)) same
          ]
    ]

-- No refusal means that no network has the name.
pub network_refusal-none :
    (f : FakeClient) (name : String)
    → network_refusal f name ≡ none
    → find_network_by_name f name ≡ none
unfolding network_refusal
network_refusal-none f name e =
    checked (unless_leaking f.injected.network_create_err_leaks f.injected.network_create_err)
      (find_network_by_name f name) e
  where
    checked :
        (first : Option Error) (o : Option FakeNetwork)
        → (first or_else (if is_some o then some conflict else none)) ≡ none
        → o ≡ none
    checked (some x) o h = ground (arith, h)
    checked none (some n) h = ground (arith, h)
    checked none none h = refl

pub network_create-WellFormed :
    (name : String) (labels : Labels) (f : FakeClient)
    → WellFormed f
    → WellFormed (network_create name labels f).1
unfolding network_create record_network find_network_by_name
network_create-WellFormed name labels f wf =
    created_or-WellFormed (network_refusal f name) _ f (record_network f name labels) wf (λ free.
      let absent : find_network_by_name f name ≡ none = network_refusal-none f name free in
      let grown = suc-NetworksOk f.next_id f.networks wf.networks_ok in
      let new : FakeNetwork = record {
        id = network_id (suc f.next_id);
        name = name;
        labels = labels;
      } in
      record {
        containers_ok = suc-ContainersOk f.next_id f.containers wf.containers_ok;
        networks_ok = record {
          networks_Keyed = assign-Keyed _ f.networks new.id new refl grown.networks_Keyed;
          networks_Numbered =
              assign-AllNumbered (λ (n : FakeNetwork). n.id) f.networks "fake-net-" _ _ new
                (suc f.next_id, omega arith, refl) grown.networks_Numbered;
          networks_Distinct = assign-Distinct f.networks new.id new grown.networks_Distinct;
          networks_NamesDiffer =
              record_network-NamesDiffer f.networks new
                (λ k n at e. ground (
                  arith,
                  find_value-none (λ (d : FakeNetwork). d.name == name) f.networks k n absent at,
                  eq_iff n.name name,
                  e,
                ))
                grown.networks_NamesDiffer;
        };
        volumes_ok = wf.volumes_ok;
      })
