-- ===== src/ExtraSpecs/Resolve.antt =====
-- internal/extraspecs/extraspecs.go: the checks on extra_env names that end Parse, and Resolve, which
-- bounds a pool's request by the operator's configuration.
use garm_provider_docker.Base.{
  ℕ, String, Char, code, Bool, true, false, ◌&&◌, ◌||◌, not, List, [], ◌∷◌, Labels, lookup,
  contains, is_some, ltb, eqb, ◌==◌, if◌then◌else◌, Result, ok, err, failed, ◌>>=◌, ◌>>◌, require,
}
use garm_provider_docker.Base.Texts.{trim_space, has_prefix, all_chars, between, to_upper}
use garm_provider_docker.Config.ByteSize.{parse_positive_byte_size}
use garm_provider_docker.Config.Settings.{
  Config, effective_dind_mode, effective_runner_memory_bytes, effective_dind_memory_bytes,
  effective_runner_image, env_allowed,
}

-- ExtraSpecs, as decoded.
pub record ExtraSpecs : Type 0 where
  pub flavor : String
  pub dind_mode : String
  pub runner_memory : String
  pub dind_memory : String
  pub storage_driver : String
  pub runner_labels : List String
  pub extra_env : Labels

abbrev pub is_env_start : Char → Bool
is_env_start c = between b'A' b'Z' (code c) || between b'a' b'z' (code c) || eqb (code c) b'_'

abbrev pub is_env_char : Char → Bool
is_env_char c = is_env_start c || between b'0' b'9' (code c)

-- ^[A-Za-z_][A-Za-z0-9_]*$
unfoldable pub valid_env_name : String → Bool
valid_env_name String.[] = false
valid_env_name (String.◌∷◌ c s) = is_env_start c && all_chars is_env_char s

abbrev pub reserved_env_prefixes : List String
reserved_env_prefixes = "RUNNER_" ∷ "DOCKER_" ∷ "ACTIONS_RUNNER_INPUT_" ∷ "GARM_" ∷ "LD_" ∷ []

abbrev pub reserved_env_exact : List String
reserved_env_exact =
    "JIT_CONFIG_ENABLED" ∷ "GITHUB_URL" ∷ "RUN_AS_ROOT" ∷ "WAIT_FOR_DOCKER_SECONDS" ∷ "BASH_ENV"
    ∷ "ENV" ∷ "IFS" ∷ "PATH" ∷ "NODE_OPTIONS" ∷ []

abbrev pub has_any_prefix : List String → String → Bool
has_any_prefix [] s = false
has_any_prefix (p ∷ ps) s = has_prefix s p || has_any_prefix ps s

unfoldable pub reserved_env_name : String → Bool
reserved_env_name name =
    let upper = to_upper (trim_space name) in
    has_any_prefix reserved_env_prefixes upper || contains reserved_env_exact upper

-- The loop over extra_env at the end of Parse.
unfoldable pub check_env_names : Labels → Result (Unit {0})
check_env_names [] = ok tt
check_env_names ((name, value) ∷ env) =
    require (valid_env_name name) >> require (not (reserved_env_name name)) >> check_env_names env

pub record Resolved : Type 0 where
  pub flavor : String
  pub dind_mode : String
  pub runner_image : String
  pub runner_memory_bytes : ℕ
  pub dind_memory_bytes : ℕ
  pub storage_driver : String
  pub extra_runner_labels : List String
  pub extra_env : Labels

unfoldable pub bound_memory : String → ℕ → Result ℕ
bound_memory override ceiling_bytes =
    if override == ""
    then ok ceiling_bytes
    else parse_positive_byte_size override >>= λ req.
        if ltb 0 ceiling_bytes && ltb ceiling_bytes req then err failed else ok req

abbrev pub all_allowed : Config → Labels → Bool
all_allowed cfg [] = true
all_allowed cfg ((name, value) ∷ env) = env_allowed cfg name && all_allowed cfg env

unfoldable pub resolve : ExtraSpecs → Config → Result Resolved
resolve s cfg = do
  require (s.flavor == "" || is_some (lookup s.flavor cfg.flavors))
  dind_mode ← effective_dind_mode cfg s.dind_mode
  runner_ceiling ← effective_runner_memory_bytes cfg s.flavor
  runner_memory_bytes ← bound_memory s.runner_memory runner_ceiling
  dind_ceiling ← effective_dind_memory_bytes cfg s.flavor
  dind_memory_bytes ← bound_memory s.dind_memory dind_ceiling
  require (all_allowed cfg s.extra_env)
  ok (record {
    flavor = s.flavor;
    dind_mode = dind_mode;
    runner_image = effective_runner_image cfg s.flavor;
    runner_memory_bytes = runner_memory_bytes;
    dind_memory_bytes = dind_memory_bytes;
    storage_driver = if s.storage_driver == "" then cfg.storage_driver else s.storage_driver;
    extra_runner_labels = s.runner_labels;
    extra_env = s.extra_env;
  })
