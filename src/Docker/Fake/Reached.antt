-- ===== src/Docker/Fake/Reached.antt =====
-- internal/docker/fake.go: what holds in every state that the fake's calls reach.
use garm_provider_docker.Base.{
  ℕ, suc, String, Bool, true, false, Option, none, some, List, [], ◌∷◌, ◌++◌, Labels, lookup, Error,
  Result, ◌≡◌, refl, sym, subst, arith, if◌then◌else◌, ◌==◌,
}
use garm_provider_docker.Base.Tables.{erase, assign-Distinct, erase-Distinct, lookup-erase}
use garm_provider_docker.Docker.Fake.{
  FakeContainer, FakeNetwork, FakeVolume, FakeClient, find, find_network, injected_or,
}
use garm_provider_docker.Docker.Fake.Containers.{
  container_create, container_start, container_stop, container_wait, container_remove, set_state,
  set_exit_code, set_finished_at, stop_found, state_forced, code_forced, time_forced,
  create_refusal, record_container, started, start_found, start_refusal, injected_start,
  remove_found, wait_found,
}
use garm_provider_docker.Docker.Fake.Networks.{network_remove, remove_network, has_endpoints}
use garm_provider_docker.Docker.Fake.Volumes.{
  volume_create, volume_remove, existing_or, remove_volume, in_use,
}
use garm_provider_docker.Docker.Fake.Images.{image_pull, pull_or}
use garm_provider_docker.Docker.Fake.Invariant.{
  Call, create, start, remove, stop, wait, force_state, force_exit_code, force_time, make_network,
  make_volume, drop_network, drop_volume, pull, inject, step, Reachable, at_start, after,
  ContainersOk, NetworksOk, WellFormed, assign-Keyed, erase-Keyed, erase-AllNumbered,
}
use garm_provider_docker.Docker.Fake.Preserved.{
  new_fake_client-WellFormed, find-lookup, put-WellFormed, record_container-WellFormed,
  created_or-WellFormed, network_create-WellFormed, suc-NetworksOk, suc-ContainersOk,
}

erase-ContainersOk :
    (n : ℕ) (cs : List (String × FakeContainer)) (k : String)
    → ContainersOk n cs
    → ContainersOk n (erase k cs)
erase-ContainersOk n cs k good = record {
  containers_Keyed = erase-Keyed _ cs k good.containers_Keyed;
  containers_Numbered =
      erase-AllNumbered (λ (c : FakeContainer). c.id) cs "fake-" n k good.containers_Numbered;
  containers_Distinct = erase-Distinct cs k good.containers_Distinct;
}

erase-NetworksOk :
    (n : ℕ) (ns : List (String × FakeNetwork)) (k : String)
    → NetworksOk n ns
    → NetworksOk n (erase k ns)
erase-NetworksOk n ns k good = record {
  networks_Keyed = erase-Keyed _ ns k good.networks_Keyed;
  networks_Numbered =
      erase-AllNumbered (λ (n : FakeNetwork). n.id) ns "fake-net-" n k good.networks_Numbered;
  networks_Distinct = erase-Distinct ns k good.networks_Distinct;
  networks_NamesDiffer = λ i j a b at bt same.
      good.networks_NamesDiffer i j a b (ground (arith, at, lookup-erase ns k i))
        (ground (arith, bt, lookup-erase ns k j)) same;
}

either-WellFormed :
    {A : Type 0} (b : Bool) (r s : Result A × FakeClient)
    → WellFormed r.1
    → WellFormed s.1
    → WellFormed (if b then r else s).1
either-WellFormed true r s p q = p
either-WellFormed false r s p q = q

module _ (f : FakeClient) (wf : WellFormed f) where
  start_found-WellFormed :
      (failure : Option Error) (found : Option FakeContainer)
      → ((c : FakeContainer) → found ≡ some c → lookup c.id f.containers ≡ some c)
      → WellFormed (start_found failure found f).1
  start_found-WellFormed (some e) found at = wf
  start_found-WellFormed none none at = wf
  start_found-WellFormed none (some c) at = begun (start_refusal f c)
    where
      begun : (refusal : Option Error) → WellFormed (started refusal c f).1
      begun (some e) = wf
      begun none = put-WellFormed f _ c wf (at c refl)

  remove_found-WellFormed : (found : Option FakeContainer) → WellFormed (remove_found found f).1
  remove_found-WellFormed none = wf
  remove_found-WellFormed (some c) = record {
    containers_ok = erase-ContainersOk f.next_id f.containers c.id wf.containers_ok;
    networks_ok = wf.networks_ok;
    volumes_ok = wf.volumes_ok;
  }

  if-WellFormed :
      (b : Bool) (g h : FakeClient) → WellFormed g → WellFormed h → WellFormed (if b then g else h)
  if-WellFormed true g h p q = p
  if-WellFormed false g h p q = q

  wait_found-WellFormed :
      (now : ℕ) (found : Option FakeContainer)
      → ((c : FakeContainer) → found ≡ some c → lookup c.id f.containers ≡ some c)
      → WellFormed (wait_found now found f).1
  wait_found-WellFormed now none at = wf
  wait_found-WellFormed now (some c) at =
      if-WellFormed _ _ f (put-WellFormed f _ c wf (at c refl)) wf

  remove_network-WellFormed : (found : Option FakeNetwork) → WellFormed (remove_network found f).1
  remove_network-WellFormed none = wf
  remove_network-WellFormed (some n) =
      either-WellFormed (has_endpoints n f.containers) _ _ wf (record {
        containers_ok = wf.containers_ok;
        networks_ok = erase-NetworksOk f.next_id f.networks n.id wf.networks_ok;
        volumes_ok = wf.volumes_ok;
      })

  remove_volume-WellFormed :
      (found : Option FakeVolume) (name : String) → WellFormed (remove_volume found name f).1
  remove_volume-WellFormed none name = wf
  remove_volume-WellFormed (some v) name =
      either-WellFormed (in_use name f.containers) _ _ wf (record {
        containers_ok = wf.containers_ok;
        networks_ok = wf.networks_ok;
        volumes_ok = record {
          volumes_Keyed = erase-Keyed _ f.volumes name wf.volumes_ok.volumes_Keyed;
          volumes_Distinct = erase-Distinct f.volumes name wf.volumes_ok.volumes_Distinct;
        };
      })

  existing_or-WellFormed :
      (name : String) (labels : Labels) (old : Option FakeVolume)
      → WellFormed (existing_or old name labels f).1
  existing_or-WellFormed name labels (some v) = wf
  existing_or-WellFormed name labels none = record {
    containers_ok = wf.containers_ok;
    networks_ok = wf.networks_ok;
    volumes_ok = record {
      volumes_Keyed = assign-Keyed _ f.volumes name _ refl wf.volumes_ok.volumes_Keyed;
      volumes_Distinct = assign-Distinct f.volumes name _ wf.volumes_ok.volumes_Distinct;
    };
  }

-- The next number is taken.
numbered-WellFormed :
    (f : FakeClient) → WellFormed f → WellFormed (record f { next_id = suc f.next_id })
numbered-WellFormed f wf = record {
  containers_ok = suc-ContainersOk f.next_id f.containers wf.containers_ok;
  networks_ok = suc-NetworksOk f.next_id f.networks wf.networks_ok;
  volumes_ok = wf.volumes_ok;
}

injected_or-WellFormed :
    {A : Type 0} (failure : Option Error) (f : FakeClient) (r : Result A × FakeClient)
    → WellFormed f
    → WellFormed r.1
    → WellFormed (injected_or failure f r).1
injected_or-WellFormed (some e) f r wf p = wf
injected_or-WellFormed none f r wf p = p

-- A container of the map is written.
pub keyed-lookup :
    (f : FakeClient) (id : String) (c : FakeContainer)
    → WellFormed f
    → lookup id f.containers ≡ some c
    → lookup c.id f.containers ≡ some c
keyed-lookup f id c wf at =
    subst (λ i. lookup i f.containers ≡ some c) (sym (wf.containers_ok.containers_Keyed id c at)) at

-- Each call keeps the maps well formed.
pub step-WellFormed : (c : Call) (f : FakeClient) → WellFormed f → WellFormed (step c f)
unfolding step container_create container_start container_stop container_wait container_remove
    set_state set_exit_code set_finished_at network_remove volume_remove image_pull volume_create
step-WellFormed (create cfg host name) f wf =
    created_or-WellFormed (create_refusal f host name) _ f (record_container f cfg host name) wf
      (λ free. record_container-WellFormed f cfg host name wf)
step-WellFormed (start id) f wf =
    start_found-WellFormed f wf (injected_start f.injected (find f id)) (find f id)
      (λ c e. find-lookup f id c wf e)
step-WellFormed (remove id) f wf =
    injected_or-WellFormed f.injected.remove_err f _ wf (remove_found-WellFormed f wf (find f id))
step-WellFormed (stop now id) f wf = stopped (find f id) refl
  where
    stopped : (o : Option FakeContainer) → find f id ≡ o → WellFormed (stop_found now o f).1
    stopped none e = wf
    stopped (some c) e = put-WellFormed f _ c wf (find-lookup f id c wf e)
step-WellFormed (wait now id) f wf =
    injected_or-WellFormed f.injected.batch_wait_err f _ wf
      (wait_found-WellFormed f wf now (find f id) (λ c e. find-lookup f id c wf e))
step-WellFormed (force_state now id state oom) f wf = forced (lookup id f.containers) refl
  where
    forced :
        (o : Option FakeContainer)
        → lookup id f.containers ≡ o
        → WellFormed (state_forced now state oom o f)
    forced none e = wf
    forced (some c) e = put-WellFormed f _ c wf (keyed-lookup f id c wf e)
step-WellFormed (force_exit_code id code) f wf = forced (lookup id f.containers) refl
  where
    forced :
        (o : Option FakeContainer) → lookup id f.containers ≡ o → WellFormed (code_forced code o f)
    forced none e = wf
    forced (some c) e = put-WellFormed f _ c wf (keyed-lookup f id c wf e)
step-WellFormed (force_time id t) f wf = forced (lookup id f.containers) refl
  where
    forced :
        (o : Option FakeContainer) → lookup id f.containers ≡ o → WellFormed (time_forced t o f)
    forced none e = wf
    forced (some c) e = put-WellFormed f _ c wf (keyed-lookup f id c wf e)
step-WellFormed (make_network name labels) f wf = network_create-WellFormed name labels f wf
step-WellFormed (make_volume name labels) f wf =
    injected_or-WellFormed f.injected.volume_create_err f _ wf (
      either-WellFormed (name == "") _ _
        (existing_or-WellFormed _ (numbered-WellFormed f wf) _ labels _)
        (existing_or-WellFormed f wf name labels _))
step-WellFormed (drop_network id) f wf =
    injected_or-WellFormed f.injected.network_remove_err f _ wf
      (remove_network-WellFormed f wf (find_network f id))
step-WellFormed (drop_volume name) f wf =
    injected_or-WellFormed f.injected.volume_remove_err f _ wf
      (remove_volume-WellFormed f wf (lookup name f.volumes) name)
step-WellFormed (pull ref) f wf = pulled f.injected.pull_err
  where
    pulled :
        (o : Option Error)
        → WellFormed (pull_or o ref (record f { pulled_images = f.pulled_images ++ ref ∷ [] })).1
    pulled (some e) = record {
      containers_ok = wf.containers_ok;
      networks_ok = wf.networks_ok;
      volumes_ok = wf.volumes_ok;
    }
    pulled none = record {
      containers_ok = wf.containers_ok;
      networks_ok = wf.networks_ok;
      volumes_ok = wf.volumes_ok;
    }
step-WellFormed (inject i) f wf = record {
  containers_ok = wf.containers_ok;
  networks_ok = wf.networks_ok;
  volumes_ok = wf.volumes_ok;
}

-- In every state that the fake's calls reach, containers and networks stand under their ids, which
-- are numbered up to the last number given out, volumes stand under their names, no key stands twice,
-- and no two networks have the same name.
pub Reachable-WellFormed : (f : FakeClient) → Reachable f → WellFormed f
Reachable-WellFormed f at_start = new_fake_client-WellFormed
Reachable-WellFormed f (after g c r) = step-WellFormed c g (Reachable-WellFormed g r)
