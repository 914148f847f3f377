-- ===== src/Docker/Fake/Containers.antt =====
-- internal/docker/fake.go: creating, starting, stopping, waiting for, removing and listing
-- containers.
use garm_provider_docker.Base.{
  ℕ, suc, String, Bool, true, false, ◌&&◌, ◌||◌, not, Option, none, some, List, [], ◌∷◌, ◌++◌,
  Labels, lookup, is_some, Result, ok, err, Error, failed, not_found, conflict, ◌==◌, ◌⧺◌,
  if◌then◌else◌,
}
use garm_provider_docker.Base.Tables.{assign, erase}
use garm_provider_docker.Base.Texts.{has_prefix, itoa}
use garm_provider_docker.Docker.Filters.{LabelFilter}
use garm_provider_docker.Docker.Containers.{ContainerSummary}
use garm_provider_docker.Docker.Configs.{
  MountType, type_bind, type_volume, type_tmpfs, Mount, ContainerConfig, HostConfig,
}
use garm_provider_docker.Docker.Fake.{
  FakeContainer, FakeVolume, Injected, FakeClient, ◌or_else◌, find_by_name, find,
  find_network_by_name, joined_netns_owner, is_user_defined_network, ipv6_sysctl_err,
  ipv6_sysctl_key, injected_or,
}

abbrev pub bad_option : List String → Bool
bad_option [] = false
bad_option (key ∷ rest) = key == "uid" || key == "gid"

abbrev pub any_bad_option : List (List String) → Bool
any_bad_option [] = false
any_bad_option (o ∷ os) = bad_option o || any_bad_option os

abbrev pub bad_tmpfs : MountType → Option (List (List String)) → Bool
bad_tmpfs type_tmpfs (some options) = any_bad_option options
bad_tmpfs type_tmpfs none = false
bad_tmpfs type_bind options = false
bad_tmpfs type_volume options = false

unfoldable pub reject_unsupported_tmpfs_mount : List Mount → Option Error
reject_unsupported_tmpfs_mount [] = none
reject_unsupported_tmpfs_mount (m ∷ ms) =
    if bad_tmpfs m.kind m.tmpfs_options then some failed else reject_unsupported_tmpfs_mount ms

-- `m.Type == mount.TypeVolume && m.Source != ""`
abbrev pub names_volume : MountType → String → Bool
names_volume type_volume source = not (source == "")
names_volume type_bind source = false
names_volume type_tmpfs source = false

-- A missing named volume is created with no labels.
unfoldable pub create_missing : List Mount → List (String × FakeVolume) → List (String × FakeVolume)
create_missing [] vs = vs
create_missing (m ∷ ms) vs = create_missing ms (
    if names_volume m.kind m.source && not (is_some (lookup m.source vs))
    then assign m.source (record { name = m.source; labels = [] }) vs
    else vs)

-- `createErr`, for the container that it is limited to.
unfoldable pub create_failure : Injected → String → Option Error
create_failure i name =
    if not (i.create_err_container_name == "") && not (name == i.create_err_container_name)
    then none
    else i.create_err

abbrev pub unless_leaking : Bool → Option Error → Option Error
unless_leaking true failure = none
unless_leaking false failure = failure

-- The returns before anything is recorded.
unfoldable pub create_refusal : FakeClient → HostConfig → String → Option Error
create_refusal f host name =
    let failure = create_failure f.injected name in
    reject_unsupported_tmpfs_mount host.mounts
    or_else unless_leaking f.injected.create_err_leaks_container failure
    or_else (if f.injected.ipv6_sysctl_fails_at_create && not (ipv6_sysctl_key host.sysctls == "")
        then ipv6_sysctl_err f.injected
        else none)
    or_else (if not (is_some failure) && not (name == "") && is_some (find_by_name f name)
        then some conflict
        else none)

abbrev pub container_id : ℕ → String
container_id n = "fake-" ⧺ itoa n

unfoldable pub made_container :
    Injected → ContainerConfig → HostConfig → String → String → FakeContainer
made_container i cfg host id name = record {
  id = id;
  name = if name == "" then id else name;
  image = cfg.image;
  labels = cfg.labels;
  env = cfg.env;
  tmpfs_mounts = host.tmpfs;
  sysctls = host.sysctls;
  network_mode = host.network_mode;
  mounts = host.mounts;
  cmd = cfg.cmd;
  privileged = host.privileged;
  runtime = host.runtime;
  raw_runtime = host.runtime;
  group_add = host.group_add;
  state = "created";
  oom_killed = false;
  exit_code = 0;
  finished_at = none;
  tty = cfg.tty;
  log_driver = if host.log_type == "" then i.default_log_driver else host.log_type;
}

unfoldable pub record_container : FakeClient → ContainerConfig → HostConfig → String → FakeClient
record_container f cfg host name =
    let id = container_id (suc f.next_id) in
    record f {
      next_id = suc f.next_id;
      volumes = create_missing host.mounts f.volumes;
      containers = assign id (made_container f.injected cfg host id name) f.containers;
      created =
          f.created
          ++ (record {
            name = if name == "" then id else name;
            labels = cfg.labels;
            entrypoint = cfg.entrypoint;
            cmd = cfg.cmd;
            mounts = host.mounts;
            network_mode = host.network_mode;
            sysctls = host.sysctls;
          })
            ∷ [];
    }

-- The response's id and the error; an ambiguous create has both.
abbrev pub Response : Type 0
Response = String × Option Error

abbrev pub created_or : Option Error → Response × FakeClient → FakeClient → Response × FakeClient
created_or (some e) made f = (("", some e), f)
created_or none made f = made

unfoldable pub container_create :
    ContainerConfig → HostConfig → String → FakeClient → Response × FakeClient
container_create cfg host name f =
    created_or (create_refusal f host name)
      (
        (container_id (suc f.next_id), create_failure f.injected name),
        record_container f cfg host name,
      )
      f

-- Each net.ipv6.* sysctl of a container is checked.
unfoldable pub sysctl_refusal : Injected → Labels → Option Error
sysctl_refusal i [] = none
sysctl_refusal i ((k, v) ∷ sysctls) =
    (if has_prefix k "net.ipv6." then ipv6_sysctl_err i else none) or_else sysctl_refusal i sysctls

abbrev pub joinable : Option FakeContainer → Option Error
joinable none = some not_found
joinable (some owner) = if owner.state == "running" then none else some conflict

unfoldable pub missing_volume : FakeClient → List Mount → Option Error
missing_volume f [] = none
missing_volume f (m ∷ ms) =
    if names_volume m.kind m.source && not (is_some (lookup m.source f.volumes))
    then some failed
    else missing_volume f ms

abbrev pub network_gone : FakeClient → String → Bool
network_gone f mode =
    is_user_defined_network mode
    && not (is_some (find_network_by_name f mode))
    && not (is_some (lookup mode f.networks))

unfoldable pub start_refusal : FakeClient → FakeContainer → Option Error
start_refusal f c =
    sysctl_refusal f.injected c.sysctls
    or_else (if network_gone f c.network_mode then some failed else none)
    or_else elim (joined_netns_owner c.network_mode) [
      | none ↦ none
      | some ref ↦ joinable (find f ref)
    ]
    or_else missing_volume f c.mounts

-- A container's fields are written in place: the map's entry under its id.
abbrev pub put : FakeClient → FakeContainer → FakeClient
put f c = record f { containers = assign c.id c f.containers }

abbrev pub injected_start : Injected → Option FakeContainer → Option Error
injected_start i none = if i.start_err_container_name == "" then i.start_err else none
injected_start i (some c) =
    if i.start_err_container_name == "" || c.name == i.start_err_container_name
    then i.start_err
    else none

abbrev pub started : Option Error → FakeContainer → FakeClient → Result (Unit {0}) × FakeClient
started (some e) c f = (err e, f)
started none c f = (ok tt, put f (record c { state = "running" }))

abbrev pub start_found :
    Option Error → Option FakeContainer → FakeClient → Result (Unit {0}) × FakeClient
start_found (some e) found f = (err e, f)
start_found none none f = (err not_found, f)
start_found none (some c) f = started (start_refusal f c) c f

unfoldable pub container_start : String → FakeClient → Result (Unit {0}) × FakeClient
container_start id f = start_found (injected_start f.injected (find f id)) (find f id) f

abbrev pub stop_found : ℕ → Option FakeContainer → FakeClient → Result (Unit {0}) × FakeClient
stop_found now none f = (err not_found, f)
stop_found now (some c) f = (ok tt, put f (record c { state = "exited"; finished_at = some now }))

unfoldable pub container_stop : ℕ → String → FakeClient → Result (Unit {0}) × FakeClient
container_stop now id f = stop_found now (find f id) f

-- FinishedAt is stamped once.
abbrev pub finished_once : ℕ → Option ℕ → Option ℕ
finished_once now none = some now
finished_once now (some t) = some t

abbrev pub state_forced : ℕ → String → Bool → Option FakeContainer → FakeClient → FakeClient
state_forced now state oom_killed none f = f
state_forced now state oom_killed (some c) f = put f (record c {
  state = state;
  oom_killed = oom_killed;
  finished_at =
      if state == "exited" || state == "dead"
      then finished_once now c.finished_at
      else c.finished_at;
})

unfoldable pub set_state : ℕ → String → String → Bool → FakeClient → FakeClient
set_state now id state oom_killed f = state_forced now state oom_killed (lookup id f.containers) f

abbrev pub code_forced : ℕ → Option FakeContainer → FakeClient → FakeClient
code_forced exit_code none f = f
code_forced exit_code (some c) f = put f (record c { exit_code = exit_code })

unfoldable pub set_exit_code : String → ℕ → FakeClient → FakeClient
set_exit_code id exit_code f = code_forced exit_code (lookup id f.containers) f

abbrev pub time_forced : ℕ → Option FakeContainer → FakeClient → FakeClient
time_forced finished_at none f = f
time_forced finished_at (some c) f = put f (record c { finished_at = some finished_at })

unfoldable pub set_finished_at : String → ℕ → FakeClient → FakeClient
set_finished_at id finished_at f = time_forced finished_at (lookup id f.containers) f

abbrev pub remove_found : Option FakeContainer → FakeClient → Result (Unit {0}) × FakeClient
remove_found none f = (err not_found, f)
remove_found (some c) f = (
  ok tt,
  record f {
    containers = erase c.id f.containers;
    remove_order = f.remove_order ++ ("container:" ⧺ c.id) ∷ [];
  },
)

unfoldable pub container_remove : String → FakeClient → Result (Unit {0}) × FakeClient
container_remove id f = injected_or f.injected.remove_err f (remove_found (find f id) f)

abbrev pub wait_found : ℕ → Option FakeContainer → FakeClient → Result ℕ × FakeClient
wait_found now none f = (err not_found, f)
wait_found now (some c) f = (
  ok f.injected.batch_exit_code,
  if c.state == "running" || c.state == "created"
      then put f (record c { state = "exited"; finished_at = finished_once now c.finished_at })
      else f,
)

unfoldable pub container_wait : ℕ → String → FakeClient → Result ℕ × FakeClient
container_wait now id f = injected_or f.injected.batch_wait_err f (wait_found now (find f id) f)

unfoldable pub to_container_summary : FakeContainer → ContainerSummary
to_container_summary c = record {
  id = c.id;
  names = ("/" ⧺ c.name) ∷ [];
  labels = c.labels;
  state = c.state;
  status = c.state;
}

-- `matches` is MatchKVList of the SDK's filters.
module _ (matches : List LabelFilter → Labels → Bool) where
  abbrev pub matching_containers :
      List LabelFilter → List (String × FakeContainer) → List ContainerSummary
  matching_containers fs [] = []
  matching_containers fs ((k, c) ∷ cs) =
      if matches fs c.labels
      then to_container_summary c ∷ matching_containers fs cs
      else matching_containers fs cs

  unfoldable pub container_list : List LabelFilter → FakeClient → List ContainerSummary
  container_list fs f = matching_containers fs f.containers
