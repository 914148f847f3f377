-- ===== src/Config/Settings.antt =====
-- internal/config/config.go, dind.go, resources.go, flavor.go and extra_specs.go: the operator's
-- settings and the ceilings on what a pool may ask for. `pinned` stands for the image reference
-- parser's verdict (validateDigestPinnedImage, github.com/distribution/reference).
pub mod Ceiling
use garm_provider_docker.Base.{
  ℕ, String, Bool, true, false, ◌&&◌, ◌||◌, not, List, [], ◌∷◌, Option, none, some, lookup,
  contains, is_some, ◌==◌, if◌then◌else◌, Result, ok, err, failed, ◌>>=◌, ◌>>◌, require,
}
use garm_provider_docker.Config.ByteSize.{parse_byte_size}

abbrev pub dind_mode_none : String
dind_mode_none = "none"

abbrev pub dind_mode_privileged_sidecar : String
dind_mode_privileged_sidecar = "privileged-sidecar"

abbrev pub dind_mode_sysbox_runc : String
dind_mode_sysbox_runc = "sysbox-runc"

abbrev pub all_dind_modes : List String
all_dind_modes = dind_mode_none ∷ dind_mode_privileged_sidecar ∷ dind_mode_sysbox_runc ∷ []

pub record Resources : Type 0 where
  pub runner_memory : String
  pub dind_memory : String

pub record Flavor : Type 0 where
  pub runner_memory : String
  pub dind_memory : String
  pub runner_image : String

-- The fields of Config that these checks read.
pub record Config : Type 0 where
  pub runner_image : String
  pub dind_mode : String
  pub allowed_dind_modes : List String
  pub dind_image : String
  pub allow_unpinned_dind_image : Bool
  pub storage_driver : String
  pub resources : Resources
  pub flavors : List (String × Flavor)
  pub allowed_env : List String

-- Each mode is one of the vocabulary.
abbrev pub all_modes_valid : List String → Bool
all_modes_valid [] = true
all_modes_valid (m ∷ ms) = contains all_dind_modes m && all_modes_valid ms

module _ (pinned : String → Bool → Bool) where
  unfoldable pub validate_dind_mode : Config → Result (Unit {0})
  validate_dind_mode c = do
    require (contains all_dind_modes c.dind_mode)
    require (all_modes_valid c.allowed_dind_modes)
    require (contains c.allowed_dind_modes c.dind_mode)
    require (c.dind_mode == dind_mode_none || not (c.dind_image == ""))
    require (c.dind_image == "" || pinned c.dind_image c.allow_unpinned_dind_image)

abbrev pub no_modes : List String → Bool
no_modes [] = true
no_modes (m ∷ ms) = false

unfoldable pub effective_dind_mode : Config → String → Result String
effective_dind_mode c pool_mode =
    let mode = if pool_mode == "" then c.dind_mode else pool_mode in
    require (not (no_modes c.allowed_dind_modes))
    >> require (contains c.allowed_dind_modes mode)
    >> ok mode

unfoldable pub validate_allowed_dind_modes : Config → Result (Unit {0})
validate_allowed_dind_modes c =
    require (not (no_modes c.allowed_dind_modes)) >> require (all_modes_valid c.allowed_dind_modes)

unfoldable pub validate_storage_driver : Config → Result (Unit {0})
validate_storage_driver c = require (c.storage_driver == "overlay2" || c.storage_driver == "vfs")

-- A size that is set parses.
abbrev pub valid_size : String → Result (Unit {0})
valid_size s = if s == "" then ok tt else (parse_byte_size s >>= λ n. ok tt)

unfoldable pub validate_resources : Resources → Result (Unit {0})
validate_resources r = valid_size r.runner_memory >> valid_size r.dind_memory

-- runnerMemoryBytes and dindMemoryBytes: 0 is unlimited.
abbrev pub memory_bytes : String → Result ℕ
memory_bytes s = if s == "" then ok 0 else parse_byte_size s

-- A flavor's size if the flavor is there and sets it, else the config-wide one.
abbrev pub flavored : Option String → String → Result ℕ
flavored none s = memory_bytes s
flavored (some f) s = if f == "" then memory_bytes s else parse_byte_size f

abbrev pub runner_memory_of : Option Flavor → Option String
runner_memory_of none = none
runner_memory_of (some f) = some f.runner_memory

abbrev pub dind_memory_of : Option Flavor → Option String
dind_memory_of none = none
dind_memory_of (some f) = some f.dind_memory

unfoldable pub effective_runner_memory_bytes : Config → String → Result ℕ
effective_runner_memory_bytes c flavor_name =
    flavored (runner_memory_of (lookup flavor_name c.flavors)) c.resources.runner_memory

unfoldable pub effective_dind_memory_bytes : Config → String → Result ℕ
effective_dind_memory_bytes c flavor_name =
    flavored (dind_memory_of (lookup flavor_name c.flavors)) c.resources.dind_memory

abbrev pub image_of : Option Flavor → String → String
image_of none image = image
image_of (some f) image = if f.runner_image == "" then image else f.runner_image

unfoldable pub effective_runner_image : Config → String → String
effective_runner_image c flavor_name = image_of (lookup flavor_name c.flavors) c.runner_image

unfoldable pub env_allowed : Config → String → Bool
env_allowed c name = contains c.allowed_env name
