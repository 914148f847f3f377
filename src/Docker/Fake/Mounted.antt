-- ===== src/Docker/Fake/Mounted.antt =====
-- internal/docker/fake.go: no call takes a mounted volume away, so a start never misses one.
use garm_provider_docker.Base.{
  ℕ, suc, String, Bool, true, false, Option, none, some, List, [], ◌∷◌, ◌++◌, Labels, lookup, Error,
  Result, All, ◌≡◌, refl, arith, if◌then◌else◌, ◌==◌,
}
use garm_provider_docker.Docker.Configs.{Mount}
use garm_provider_docker.Docker.Fake.{
  FakeContainer, FakeNetwork, FakeVolume, FakeClient, new_fake_client, find, find_network,
  injected_or,
}
use garm_provider_docker.Docker.Fake.Containers.{
  Response, container_create, container_start, container_stop, container_wait, container_remove,
  set_state, set_exit_code, set_finished_at, stop_found, state_forced, code_forced, time_forced,
  put, created_or, record_container, create_refusal, made_container, started, start_found,
  start_refusal, injected_start, remove_found, wait_found, missing_volume,
}
use garm_provider_docker.Docker.Fake.Networks.{
  network_create, network_remove, network_refusal, record_network, remove_network, has_endpoints,
}
use garm_provider_docker.Docker.Fake.Volumes.{
  volume_create, volume_remove, existing_or, remove_volume, in_use,
}
use garm_provider_docker.Docker.Fake.Images.{image_pull, pull_or}
use garm_provider_docker.Docker.Fake.Invariant.{
  Call, create, start, remove, stop, wait, force_state, force_exit_code, force_time, make_network,
  make_volume, drop_network, drop_volume, pull, inject, step, Reachable, at_start, after,
  WellFormed,
}
use garm_provider_docker.Docker.Fake.Preserved.{find-lookup}
use garm_provider_docker.Docker.Fake.Reached.{Reachable-WellFormed}
use garm_provider_docker.Docker.Fake.Backed.{
  Present, Backed, assign-Grows, create_missing-Grows, create_missing-Present, assign-Backed,
  erase-Backed, Backed-Grows, in_use-false, unmounted-Present,
}

abbrev pub IsBacked : FakeClient → Type 0
IsBacked f = Backed f.volumes f.containers

if-IsBacked :
    (b : Bool) (f g : FakeClient) → IsBacked f → IsBacked g → IsBacked (if b then f else g)
if-IsBacked true f g p q = p
if-IsBacked false f g p q = q

either-IsBacked :
    {A : Type 0} (b : Bool) (r s : Result A × FakeClient)
    → IsBacked r.1
    → IsBacked s.1
    → IsBacked (if b then r else s).1
either-IsBacked true r s p q = p
either-IsBacked false r s p q = q

guarded-IsBacked :
    (b : Bool) (r s : Result (Unit {0}) × FakeClient)
    → IsBacked r.1
    → (b ≡ false → IsBacked s.1)
    → IsBacked (if b then r else s).1
guarded-IsBacked true r s p q = p
guarded-IsBacked false r s p q = q refl

injected_or-IsBacked :
    {A : Type 0} (failure : Option Error) (f : FakeClient) (r : Result A × FakeClient)
    → IsBacked f
    → IsBacked r.1
    → IsBacked (injected_or failure f r).1
injected_or-IsBacked (some e) f r h p = h
injected_or-IsBacked none f r h p = p

created_or-IsBacked :
    (refusal : Option Error) (r : Response) (f g : FakeClient)
    → IsBacked f
    → IsBacked g
    → IsBacked (created_or refusal (r, g) f).1
created_or-IsBacked (some e) r f g h p = h
created_or-IsBacked none r f g h p = p

module _ (f : FakeClient) (h : IsBacked f) where
  -- A container is written, its mounts as they were.
  put-IsBacked :
      (id : String) (c d : FakeContainer)
      → lookup id f.containers ≡ some c
      → d.mounts ≡ c.mounts
      → IsBacked (put f d)
  put-IsBacked id c d at same = assign-Backed f.volumes f.containers d.id d h (rw same (h id c at))

  start_found-IsBacked :
      (failure : Option Error) (found : Option FakeContainer)
      → ((c : FakeContainer) → found ≡ some c → lookup c.id f.containers ≡ some c)
      → IsBacked (start_found failure found f).1
  start_found-IsBacked (some e) found at = h
  start_found-IsBacked none none at = h
  start_found-IsBacked none (some c) at = begun (start_refusal f c)
    where
      begun : (refusal : Option Error) → IsBacked (started refusal c f).1
      begun (some e) = h
      begun none = put-IsBacked c.id c _ (at c refl) refl

  wait_found-IsBacked :
      (now : ℕ) (found : Option FakeContainer)
      → ((c : FakeContainer) → found ≡ some c → lookup c.id f.containers ≡ some c)
      → IsBacked (wait_found now found f).1
  wait_found-IsBacked now none at = h
  wait_found-IsBacked now (some c) at = if-IsBacked _ _ f (put-IsBacked c.id c _ (at c refl) refl) h

  remove_found-IsBacked : (found : Option FakeContainer) → IsBacked (remove_found found f).1
  remove_found-IsBacked none = h
  remove_found-IsBacked (some c) = erase-Backed f.volumes f.containers c.id h

  remove_network-IsBacked : (found : Option FakeNetwork) → IsBacked (remove_network found f).1
  remove_network-IsBacked none = h
  remove_network-IsBacked (some n) = either-IsBacked (has_endpoints n f.containers) _ _ h h

  -- A volume that is removed is in no container's mounts.
  remove_volume-IsBacked :
      (found : Option FakeVolume) (name : String) → IsBacked (remove_volume found name f).1
  remove_volume-IsBacked none name = h
  remove_volume-IsBacked (some v) name =
      guarded-IsBacked (in_use name f.containers) _ _ h (λ free k c at.
        unmounted-Present f.volumes name c.mounts (in_use-false name f.containers k c free at)
          (h k c at))

  existing_or-IsBacked :
      (name : String) (labels : Labels) (old : Option FakeVolume)
      → IsBacked (existing_or old name labels f).1
  existing_or-IsBacked name labels (some v) = h
  existing_or-IsBacked name labels none =
      Backed-Grows f.volumes _ f.containers (assign-Grows f.volumes name _) h

step-IsBacked : (c : Call) (f : FakeClient) → WellFormed f → IsBacked f → IsBacked (step c f)
unfolding step container_create record_container made_container container_start container_stop
    container_wait container_remove set_state set_exit_code set_finished_at network_create
    record_network network_remove volume_remove image_pull volume_create
step-IsBacked (create cfg host name) f wf h =
    created_or-IsBacked (create_refusal f host name) _ f (record_container f cfg host name) h (
      assign-Backed _ f.containers _ _
        (Backed-Grows f.volumes _ f.containers (create_missing-Grows host.mounts f.volumes) h)
        (create_missing-Present host.mounts f.volumes))
step-IsBacked (start id) f wf h =
    start_found-IsBacked f h (injected_start f.injected (find f id)) (find f id)
      (λ c e. find-lookup f id c wf e)
step-IsBacked (remove id) f wf h =
    injected_or-IsBacked f.injected.remove_err f _ h (remove_found-IsBacked f h (find f id))
step-IsBacked (stop now id) f wf h = stopped (find f id) refl
  where
    stopped : (o : Option FakeContainer) → find f id ≡ o → IsBacked (stop_found now o f).1
    stopped none e = h
    stopped (some c) e = put-IsBacked f h c.id c _ (find-lookup f id c wf e) refl
step-IsBacked (wait now id) f wf h =
    injected_or-IsBacked f.injected.batch_wait_err f _ h
      (wait_found-IsBacked f h now (find f id) (λ c e. find-lookup f id c wf e))
step-IsBacked (force_state now id state oom) f wf h = forced (lookup id f.containers) refl
  where
    forced :
        (o : Option FakeContainer)
        → lookup id f.containers ≡ o
        → IsBacked (state_forced now state oom o f)
    forced none e = h
    forced (some c) e = put-IsBacked f h id c _ e refl
step-IsBacked (force_exit_code id code) f wf h = forced (lookup id f.containers) refl
  where
    forced :
        (o : Option FakeContainer) → lookup id f.containers ≡ o → IsBacked (code_forced code o f)
    forced none e = h
    forced (some c) e = put-IsBacked f h id c _ e refl
step-IsBacked (force_time id t) f wf h = forced (lookup id f.containers) refl
  where
    forced : (o : Option FakeContainer) → lookup id f.containers ≡ o → IsBacked (time_forced t o f)
    forced none e = h
    forced (some c) e = put-IsBacked f h id c _ e refl
step-IsBacked (make_network name labels) f wf h =
    created_or-IsBacked (network_refusal f name) _ f (record_network f name labels) h h
step-IsBacked (make_volume name labels) f wf h =
    injected_or-IsBacked f.injected.volume_create_err f _ h (
      either-IsBacked (name == "") _ _
        (existing_or-IsBacked (record f { next_id = suc f.next_id }) h _ labels _)
        (existing_or-IsBacked f h name labels _))
step-IsBacked (drop_network id) f wf h =
    injected_or-IsBacked f.injected.network_remove_err f _ h
      (remove_network-IsBacked f h (find_network f id))
step-IsBacked (drop_volume name) f wf h =
    injected_or-IsBacked f.injected.volume_remove_err f _ h
      (remove_volume-IsBacked f h (lookup name f.volumes) name)
step-IsBacked (pull ref) f wf h = pulled f.injected.pull_err
  where
    pulled :
        (o : Option Error)
        → IsBacked (pull_or o ref (record f { pulled_images = f.pulled_images ++ ref ∷ [] })).1
    pulled (some e) = h
    pulled none = h
step-IsBacked (inject i) f wf h = h

-- In every state that the fake's calls reach, each named volume that a container mounts is there.
pub Reachable-IsBacked : (f : FakeClient) → Reachable f → IsBacked f
unfolding new_fake_client
Reachable-IsBacked f at_start = λ k c e. ground (arith, e)
Reachable-IsBacked f (after g c r) =
    step-IsBacked c g (Reachable-WellFormed g r) (Reachable-IsBacked g r)

-- In every state that the fake's calls reach, the check of a start for a named volume that is
-- missing passes for each container that an id or a name finds.
pub missing_volume-none :
    (f : FakeClient) (id : String) (c : FakeContainer)
    → Reachable f
    → find f id ≡ some c
    → missing_volume f c.mounts ≡ none
unfolding missing_volume
missing_volume-none f id c r e =
    all_there c.mounts
      (Reachable-IsBacked f r c.id c (find-lookup f id c (Reachable-WellFormed f r) e))
  where
    all_there : (ms : List Mount) → All (Present f.volumes) ms → missing_volume f ms ≡ none
    all_there [] h = refl
    all_there (m ∷ ms) (p, h) = ground (arith, p, all_there ms h)
