-- ===== src/Docker/Fake/Inspect.antt =====
-- internal/docker/fake.go: what an inspection shows of a container. `format` is the text of a time.
use garm_provider_docker.Base.{
  ℕ, String, Bool, Option, none, some, List, [], ◌∷◌, Labels, Result, ok, err, not_found, not, ◌==◌,
  ◌⧺◌, if◌then◌else◌,
}
use garm_provider_docker.Docker.Containers.{ContainerJson}
use garm_provider_docker.Docker.Configs.{MountType, Mount}
use garm_provider_docker.Docker.Fake.{
  FakeContainer, FakeClient, find, is_user_defined_network, normalize_runtime,
}

pub record MountPoint : Type 0 where
  pub kind : MountType
  pub name : String
  pub destination : String
  pub rw : Bool

unfoldable pub mount_points : List Mount → List MountPoint
mount_points [] = []
mount_points (m ∷ ms) =
    record { kind = m.kind; name = m.source; destination = m.target; rw = not m.read_only }
    ∷ mount_points ms

-- The parts of an inspection that ContainerJson does not have.
pub record Inspection : Type 0 where
  pub json : ContainerJson
  pub image : String
  pub tty : Bool
  pub env : List String
  pub cmd : List String
  pub tmpfs : Labels
  pub privileged : Bool
  pub runtime : String
  pub group_add : List String
  pub network_mode : String
  pub mounts : List MountPoint

module _ (format : ℕ → String) where
  abbrev pub finished_text : Option ℕ → String
  finished_text none = ""
  finished_text (some t) = format t

  unfoldable pub to_container_json : FakeContainer → Inspection
  to_container_json c = record {
    json = record {
      id = c.id;
      name = "/" ⧺ c.name;
      config = some c.labels;
      state = some (record {
        status = c.state;
        oom_killed = c.oom_killed;
        dead = c.state == "dead";
        exit_code = c.exit_code;
        finished_at = finished_text c.finished_at;
        error = "";
      });
      networks =
          if is_user_defined_network c.network_mode
          then some ((c.network_mode, some "10.240.0.2") ∷ [])
          else none;
    };
    image = c.image;
    tty = c.tty;
    env = c.env;
    cmd = c.cmd;
    tmpfs = c.tmpfs_mounts;
    privileged = c.privileged;
    runtime = normalize_runtime c.runtime;
    group_add = c.group_add;
    network_mode = c.network_mode;
    mounts = mount_points c.mounts;
  }

  abbrev pub inspect_found : Option FakeContainer → Result Inspection
  inspect_found none = err not_found
  inspect_found (some c) = ok (to_container_json c)

  unfoldable pub container_inspect : String → FakeClient → Result Inspection
  container_inspect id f = elim f.injected.inspect_err [
    | some e ↦ err e
    | none ↦ inspect_found (find f id)
  ]

unfoldable pub raw_runtime : String → FakeClient → String
raw_runtime id f = elim (find f id) [ none ↦ "" | some c ↦ c.raw_runtime ]
