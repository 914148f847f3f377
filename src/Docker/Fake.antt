-- ===== src/Docker/Fake.antt =====
-- internal/docker/fake.go: the in-memory daemon's state, and what it looks up in it. Its lock makes
-- each call one step. Hooks, which land other calls between two, are sequences of such steps here.
-- Logs, executed commands and their output are left out; FinishedAt is the time since an epoch, if
-- the container has finished.
pub mod Containers
pub mod Networks
pub mod Volumes
pub mod Inspect
pub mod Images
pub mod Invariant
pub mod Preserved
pub mod Reached
pub mod Backed
pub mod Mounted
pub mod Contract
use garm_provider_docker.Base.{
  ℕ, String, Bool, true, false, ◌&&◌, not, Option, none, some, List, [], ◌∷◌, Labels, lookup,
  is_some, Error, failed, Result, ok, err, ◌==◌, ◌⧺◌, if◌then◌else◌,
}
use garm_provider_docker.Docker.Configs.{Mount}
use garm_provider_docker.Base.Tables.{find_value}
use garm_provider_docker.Base.Texts.{strip_prefix, has_prefix}

pub record FakeContainer : Type 0 where
  pub id : String
  pub name : String
  pub image : String
  pub labels : Labels
  pub env : List String
  pub tmpfs_mounts : Labels
  pub sysctls : Labels
  pub network_mode : String
  pub mounts : List Mount
  pub cmd : List String
  pub privileged : Bool
  pub runtime : String
  pub raw_runtime : String
  pub group_add : List String
  pub state : String
  pub oom_killed : Bool
  pub exit_code : ℕ
  pub finished_at : Option ℕ
  pub tty : Bool
  pub log_driver : String

pub record FakeNetwork : Type 0 where
  pub id : String
  pub name : String
  pub labels : Labels

pub record FakeVolume : Type 0 where
  pub name : String
  pub labels : Labels

pub record CreatedContainer : Type 0 where
  pub name : String
  pub labels : Labels
  pub entrypoint : List String
  pub cmd : List String
  pub mounts : List Mount
  pub network_mode : String
  pub sysctls : Labels

-- The errors that a test injects, and the host that it asks for.
pub record Injected : Type 0 where
  pub pull_err : Option Error
  pub create_err : Option Error
  pub create_err_leaks_container : Bool
  pub create_err_container_name : String
  pub start_err : Option Error
  pub start_err_container_name : String
  pub host_lacks_ipv6 : Bool
  pub ipv6_sysctl_fails_at_create : Bool
  pub ipv6_sysctl_denied : Bool
  pub inspect_err : Option Error
  pub remove_err : Option Error
  pub network_create_err : Option Error
  pub network_create_err_leaks : Bool
  pub network_remove_err : Option Error
  pub volume_create_err : Option Error
  pub volume_remove_err : Option Error
  pub batch_exit_code : ℕ
  pub batch_wait_err : Option Error
  pub default_log_driver : String

pub record FakeClient : Type 0 where
  pub next_id : ℕ
  pub containers : List (String × FakeContainer)
  pub networks : List (String × FakeNetwork)
  pub volumes : List (String × FakeVolume)
  pub pulled_images : List String
  pub present_images : List String
  pub image_labels : List (String × Labels)
  pub created : List CreatedContainer
  pub remove_order : List String
  pub injected : Injected

abbrev pub no_injection : Injected
no_injection = record {
  pull_err = none;
  create_err = none;
  create_err_leaks_container = false;
  create_err_container_name = "";
  start_err = none;
  start_err_container_name = "";
  host_lacks_ipv6 = false;
  ipv6_sysctl_fails_at_create = false;
  ipv6_sysctl_denied = false;
  inspect_err = none;
  remove_err = none;
  network_create_err = none;
  network_create_err_leaks = false;
  network_remove_err = none;
  volume_create_err = none;
  volume_remove_err = none;
  batch_exit_code = 0;
  batch_wait_err = none;
  default_log_driver = "";
}

unfoldable pub new_fake_client : FakeClient
new_fake_client = record {
  next_id = 0;
  containers = [];
  networks = [];
  volumes = [];
  pulled_images = [];
  present_images = [];
  image_labels = [];
  created = [];
  remove_order = [];
  injected = no_injection;
}

-- The first of some checks that fails.
infixr 3 ◌or_else◌
abbrev pub ◌or_else◌ : Option Error → Option Error → Option Error
some e or_else next = some e
none or_else next = next

-- An injected error, or what the call does.
abbrev pub injected_or {ℓ} :
    {A : Type ℓ} → Option Error → FakeClient → Result A × FakeClient → Result A × FakeClient
injected_or (some e) f r = (err e, f)
injected_or none f r = r

unfoldable pub find_by_name : FakeClient → String → Option FakeContainer
find_by_name f name = find_value (λ (c : FakeContainer). c.name == name) f.containers

abbrev pub or_by_name {ℓ} : {V : Type ℓ} → Option V → Option V → Option V
or_by_name (some v) other = some v
or_by_name none other = other

unfoldable pub find : FakeClient → String → Option FakeContainer
find f id_or_name = or_by_name (lookup id_or_name f.containers) (find_by_name f id_or_name)

unfoldable pub find_network_by_name : FakeClient → String → Option FakeNetwork
find_network_by_name f name = find_value (λ (n : FakeNetwork). n.name == name) f.networks

unfoldable pub find_network : FakeClient → String → Option FakeNetwork
find_network f id_or_name =
    or_by_name (lookup id_or_name f.networks) (find_network_by_name f id_or_name)

-- `<ref>` of a `container:<ref>` network mode.
unfoldable pub joined_netns_owner : String → Option String
joined_netns_owner mode = elim (strip_prefix "container:" mode) [
  | none ↦ none
  | some ref ↦ if ref == "" then none else some ref
]

abbrev pub built_in_mode : String → Bool
built_in_mode mode =
    if mode == ""
    then true
    else if mode == "bridge"
    then true
    else if mode == "host"
    then true
    else if mode == "none"
    then true
    else if mode == "default"
    then true
    else mode == "container"

unfoldable pub is_user_defined_network : String → Bool
is_user_defined_network mode = not (is_some (joined_netns_owner mode)) && not (built_in_mode mode)

unfoldable pub normalize_runtime : String → String
normalize_runtime runtime = if runtime == "" then "runc" else runtime

-- The rejection of a net.ipv6.* sysctl; its text, which names the key, is left out.
unfoldable pub ipv6_sysctl_err : Injected → Option Error
ipv6_sysctl_err i =
    if i.host_lacks_ipv6 then some failed else if i.ipv6_sysctl_denied then some failed else none

unfoldable pub ipv6_sysctl_key : Labels → String
ipv6_sysctl_key [] = ""
ipv6_sysctl_key ((k, v) ∷ sysctls) = if has_prefix k "net.ipv6." then k else ipv6_sysctl_key sysctls
