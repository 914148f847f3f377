-- ===== src/Docker/Fake/Invariant.antt =====
-- internal/docker/fake.go: the calls as steps, the states that they reach, and what holds of the maps
-- in each: entries stand under their own ids, ids are numbered, and networks' names differ.
use garm_provider_docker.Base.{
  ℕ, suc, ◌≤◌, String, Bool, some, List, Labels, lookup, ◌≡◌, sym, ap, subst, ◌∙◌, arith, eq_iff,
  ◌==◌, ◌⧺◌, Bool-cases, inl, inr,
}
use garm_provider_docker.Base.Tables.{assign, erase, Distinct, lookup-assign, lookup-erase}
use garm_provider_docker.Base.Texts.{itoa}
use garm_provider_docker.Docker.Configs.{ContainerConfig, HostConfig}
use garm_provider_docker.Docker.Fake.{
  FakeContainer, FakeNetwork, FakeVolume, Injected, FakeClient, new_fake_client,
}
use garm_provider_docker.Docker.Fake.Containers.{
  container_create, container_start, container_stop, container_wait, container_remove, set_state,
  set_exit_code, set_finished_at,
}
use garm_provider_docker.Docker.Fake.Networks.{network_create, network_remove}
use garm_provider_docker.Docker.Fake.Volumes.{volume_create, volume_remove}
use garm_provider_docker.Docker.Fake.Images.{image_pull}

-- A call of the fake, or a test's change of what it injects.
pub data Call : Type 0 where
  create : ContainerConfig → HostConfig → String → Call
  start remove : String → Call
  stop wait : ℕ → String → Call
  force_state : ℕ → String → String → Bool → Call
  force_exit_code force_time : String → ℕ → Call
  make_network make_volume : String → Labels → Call
  drop_network drop_volume pull : String → Call
  inject : Injected → Call

unfoldable pub step : Call → FakeClient → FakeClient
step (create cfg host name) f = (container_create cfg host name f).1
step (start id) f = (container_start id f).1
step (remove id) f = (container_remove id f).1
step (stop now id) f = (container_stop now id f).1
step (wait now id) f = (container_wait now id f).1
step (force_state now id state oom) f = set_state now id state oom f
step (force_exit_code id code) f = set_exit_code id code f
step (force_time id t) f = set_finished_at id t f
step (make_network name labels) f = (network_create name labels f).1
step (make_volume name labels) f = (volume_create name labels f).1
step (drop_network id) f = (network_remove id f).1
step (drop_volume name) f = (volume_remove name f).1
step (pull ref) f = (image_pull ref f).1
step (inject i) f = record f { injected = i }

pub data Reachable : FakeClient → Type 0 where
  at_start : Reachable new_fake_client
  after : (f : FakeClient) (c : Call) → Reachable f → Reachable (step c f)

-- An id that was given out: its prefix with a number up to `n`.
abbrev pub Numbered : String → ℕ → String → Type 0
Numbered prefix n k = (m : ℕ) × (m ≤ n) × (k ≡ prefix ⧺ itoa m)

-- Entries stand under their own names.
abbrev pub Keyed : {V : Type 0} → (V → String) → List (String × V) → Type 0
Keyed {V} name m = (k : String) (v : V) → lookup k m ≡ some v → name v ≡ k

abbrev pub AllNumbered : {V : Type 0} → String → ℕ → List (String × V) → Type 0
AllNumbered {V} prefix n m = (k : String) (v : V) → lookup k m ≡ some v → Numbered prefix n k

abbrev pub NamesDiffer : List (String × FakeNetwork) → Type 0
NamesDiffer m =
    (j k : String) (a b : FakeNetwork)
    → lookup j m ≡ some a
    → lookup k m ≡ some b
    → a.name ≡ b.name
    → j ≡ k

pub record ContainersOk (n : ℕ) (cs : List (String × FakeContainer)) : Type 0 where
  pub containers_Keyed : Keyed (λ (c : FakeContainer). c.id) cs
  pub containers_Numbered : AllNumbered "fake-" n cs
  pub containers_Distinct : Distinct cs

pub record NetworksOk (n : ℕ) (ns : List (String × FakeNetwork)) : Type 0 where
  pub networks_Keyed : Keyed (λ (n : FakeNetwork). n.id) ns
  pub networks_Numbered : AllNumbered "fake-net-" n ns
  pub networks_Distinct : Distinct ns
  pub networks_NamesDiffer : NamesDiffer ns

pub record VolumesOk (vs : List (String × FakeVolume)) : Type 0 where
  pub volumes_Keyed : Keyed (λ (v : FakeVolume). v.name) vs
  pub volumes_Distinct : Distinct vs

pub record WellFormed (f : FakeClient) : Type 0 where
  pub containers_ok : ContainersOk f.next_id f.containers
  pub networks_ok : NetworksOk f.next_id f.networks
  pub volumes_ok : VolumesOk f.volumes

module _ {V : Type 0} (name : V → String) (m : List (String × V)) where
  pub assign-Keyed : (k : String) (v : V) → name v ≡ k → Keyed name m → Keyed name (assign k v m)
  assign-Keyed k v own keyed j u at = elim (Bool-cases (k == j)) [
    | inl here ↦
        let new : some v ≡ some u = ground (arith, at, lookup-assign m k v j, here) in
        let same : v ≡ u = cc new in ap name (sym same) ∙ own ∙ (eq_iff k j).0 here
    | inr other ↦ keyed j u (ground (arith, at, lookup-assign m k v j, other))
  ]

  pub erase-Keyed : (k : String) → Keyed name m → Keyed name (erase k m)
  erase-Keyed k keyed j u at = keyed j u (ground (arith, at, lookup-erase m k j))

  pub assign-AllNumbered :
      (prefix : String) (n : ℕ) (k : String) (v : V)
      → Numbered prefix n k
      → AllNumbered prefix n m
      → AllNumbered prefix n (assign k v m)
  assign-AllNumbered prefix n k v own numbered j u at = elim (Bool-cases (k == j)) [
    | inl here ↦ subst (Numbered prefix n) ((eq_iff k j).0 here) own
    | inr other ↦ numbered j u (ground (arith, at, lookup-assign m k v j, other))
  ]

  pub erase-AllNumbered :
      (prefix : String) (n : ℕ) (k : String)
      → AllNumbered prefix n m
      → AllNumbered prefix n (erase k m)
  erase-AllNumbered prefix n k numbered j u at =
      numbered j u (ground (arith, at, lookup-erase m k j))

  pub suc-AllNumbered :
      (prefix : String) (n : ℕ) → AllNumbered prefix n m → AllNumbered prefix (suc n) m
  suc-AllNumbered prefix n numbered j u at =
      let (i, le, e) = numbered j u at in (i, omega (arith, le), e)
