-- ===== src/Docker/Configs.antt =====
-- The Docker SDK's configuration of a container, as far as the provider sets it.
use garm_provider_docker.Base.{ℕ, String, Bool, Option, List, [], Labels, false}

-- mount.TypeBind, mount.TypeVolume and mount.TypeTmpfs.
pub data MountType : Type 0 where
  type_bind type_volume type_tmpfs : MountType

-- mount.Mount; `tmpfs_options` is TmpfsOptions.Options where TmpfsOptions is set.
pub record Mount : Type 0 where
  pub kind : MountType
  pub source : String
  pub target : String
  pub read_only : Bool
  pub tmpfs_options : Option (List (List String))

-- container.Config and container.HostConfig; a nil one has the same effect as empty fields.
pub record ContainerConfig : Type 0 where
  pub image : String
  pub env : List String
  pub entrypoint : List String
  pub cmd : List String
  pub tty : Bool
  pub labels : Labels

pub record HostConfig : Type 0 where
  pub tmpfs : Labels
  pub network_mode : String
  pub mounts : List Mount
  pub privileged : Bool
  pub runtime : String
  pub group_add : List String
  pub log_type : String
  pub sysctls : Labels
  pub memory : ℕ

-- The fields that a literal does not set.
abbrev pub empty_host_config : HostConfig
empty_host_config = record {
  tmpfs = [];
  network_mode = "";
  mounts = [];
  privileged = false;
  runtime = "";
  group_add = [];
  log_type = "";
  sysctls = [];
  memory = 0;
}
