-- ===== src/Spec/Env.antt =====
-- internal/spec/env.go: the runner container's environment. A variable is a name with its value; the
-- source joins the two with "=". The store directory is absolute and clean, so path.Join appends.
use garm_provider_docker.Base.{
  String, Bool, true, false, List, [], ◌∷◌, ◌++◌, All, contains, Labels, ◌==◌, ◌⧺◌, refl, ◌≡◌,
  if◌then◌else◌, arith,
}

abbrev pub pnpm_metadata_cache_subdir : String
pnpm_metadata_cache_subdir = "metadata-cache"

unfoldable pub pnpm_metadata_cache_dir : String → String
pnpm_metadata_cache_dir store_dir =
    if store_dir == "" then "" else store_dir ⧺ "/" ⧺ pnpm_metadata_cache_subdir

-- Entity: its scope, with the fields that the scope sets.
pub data Entity : Type 0 where
  entity_repo : String → String → Entity
  entity_org entity_enterprise : String → Entity

pub record RunnerEnvOptions : Type 0 where
  pub jit_config_enabled : Bool
  pub github_url : String
  pub runner_work_dir : String
  pub docker_host : String
  pub tool_cache_dir : String
  pub pnpm_store_dir : String
  pub entity : Entity
  pub runner_name : String
  pub runner_group : String
  pub labels : List String

abbrev pub format_bool : Bool → String
format_bool true = "true"
format_bool false = "false"

-- `if s != "" { env = append(env, …) }`
abbrev pub when_set : String → Labels → Labels
when_set s env = if s == "" then [] else env

-- strings.Join(labels, ",")
abbrev pub comma_separated : List String → String
comma_separated [] = ""
comma_separated (l ∷ []) = l
comma_separated (l ∷ m ∷ ls) = l ⧺ "," ⧺ comma_separated (m ∷ ls)

abbrev pub entity_env : Entity → Labels
entity_env (entity_enterprise name) = ("RUNNER_ENTERPRISE", name) ∷ []
entity_env (entity_org org) = ("RUNNER_ORG", org) ∷ []
entity_env (entity_repo org repo) = ("RUNNER_ORG", org) ∷ ("RUNNER_REPO", repo) ∷ []

abbrev pub labels_env : List String → Labels
labels_env [] = []
labels_env (l ∷ ls) = ("RUNNER_LABELS", comma_separated (l ∷ ls)) ∷ []

abbrev pub pnpm_env : String → Labels
pnpm_env dir =
    ("npm_config_store_dir", dir)
    ∷ ("pnpm_config_store_dir", dir)
    ∷ ("npm_config_cache_dir", pnpm_metadata_cache_dir dir)
    ∷ ("pnpm_config_cache_dir", pnpm_metadata_cache_dir dir)
    ∷ []

abbrev pub base_env : RunnerEnvOptions → Labels
base_env opts =
    ("JIT_CONFIG_ENABLED", format_bool opts.jit_config_enabled)
    ∷ ("RUNNER_WORKDIR", opts.runner_work_dir)
    ∷ ("GITHUB_URL", opts.github_url)
    ∷ ("DISABLE_RUNNER_UPDATE", "true")
    ∷ []

abbrev pub docker_env : String → Labels
docker_env host = ("DOCKER_HOST", host) ∷ ("DOCKER_SOCK_GID", "2000") ∷ []

abbrev pub tool_cache_env : String → Labels
tool_cache_env dir = ("RUNNER_TOOL_CACHE", dir) ∷ []

-- What both ways of delivering credentials set.
unfoldable pub common_env : RunnerEnvOptions → Labels
common_env opts =
    (base_env opts ++ when_set opts.docker_host (docker_env opts.docker_host))
    ++ (when_set opts.tool_cache_dir (tool_cache_env opts.tool_cache_dir)
        ++ when_set opts.pnpm_store_dir (pnpm_env opts.pnpm_store_dir))

-- What is set only without JIT.
unfoldable pub registration_env : RunnerEnvOptions → Labels
registration_env opts =
    (entity_env opts.entity
      ++ when_set opts.runner_group (("RUNNER_GROUP", opts.runner_group) ∷ []))
    ++ ((("RUNNER_NAME", opts.runner_name) ∷ [])
        ++ (labels_env opts.labels
            ++ (("RUNNER_NO_DEFAULT_LABELS", "true") ∷ ("RUNNER_EPHEMERAL", "true") ∷ [])))

unfoldable pub build_runner_env : RunnerEnvOptions → Labels
build_runner_env opts =
    if opts.jit_config_enabled then common_env opts else common_env opts ++ registration_env opts

abbrev pub common_names : List String
common_names =
    "JIT_CONFIG_ENABLED" ∷ "RUNNER_WORKDIR" ∷ "GITHUB_URL" ∷ "DISABLE_RUNNER_UPDATE" ∷ "DOCKER_HOST"
    ∷ "DOCKER_SOCK_GID" ∷ "RUNNER_TOOL_CACHE" ∷ "npm_config_store_dir" ∷ "pnpm_config_store_dir"
    ∷ "npm_config_cache_dir" ∷ "pnpm_config_cache_dir" ∷ []

-- Each variable's name is in the list.
abbrev pub NamedIn : List String → Labels → Type 0
NamedIn names env = All (λ (n, v). contains names n ≡ true) env

NamedIn-append :
    (names : List String) (a b : Labels)
    → NamedIn names a
    → NamedIn names b
    → NamedIn names (a ++ b)
NamedIn-append names [] b p q = q
NamedIn-append names ((n, v) ∷ a) b (h, p) q = (h, NamedIn-append names a b p q)

NamedIn-when_set :
    (names : List String) (s : String) (env : Labels)
    → NamedIn names env
    → NamedIn names (when_set s env)
NamedIn-when_set names s env h = either (s == "")
  where
    either : (b : Bool) → NamedIn names (if b then [] else env)
    either true = tt
    either false = h

common_env-NamedIn : (opts : RunnerEnvOptions) → NamedIn common_names (common_env opts)
unfolding common_env
common_env-NamedIn opts =
    let docker = when_set opts.docker_host (docker_env opts.docker_host) in
    let tools = when_set opts.tool_cache_dir (tool_cache_env opts.tool_cache_dir) in
    let pnpm = when_set opts.pnpm_store_dir (pnpm_env opts.pnpm_store_dir) in
    NamedIn-append common_names (base_env opts ++ docker) (tools ++ pnpm)
      (NamedIn-append common_names (base_env opts) docker (refl, (refl, (refl, (refl, tt))))
        (NamedIn-when_set common_names opts.docker_host (docker_env opts.docker_host)
          (refl, (refl, tt))))
      (NamedIn-append common_names tools pnpm
        (NamedIn-when_set common_names opts.tool_cache_dir (tool_cache_env opts.tool_cache_dir)
          (refl, tt))
        (NamedIn-when_set common_names opts.pnpm_store_dir (pnpm_env opts.pnpm_store_dir)
          (refl, (refl, (refl, (refl, tt))))))

-- With JIT credentials, the runner's environment has only the variables that configure its
-- surroundings: none of the names, groups, labels and entities that the credentials hold themselves.
pub build_runner_env-NamedIn :
    (opts : RunnerEnvOptions)
    → opts.jit_config_enabled ≡ true
    → NamedIn common_names (build_runner_env opts)
unfolding build_runner_env
build_runner_env-NamedIn opts jit =
    chosen opts.jit_config_enabled (common_env opts) _ jit (common_env-NamedIn opts)
  where
    chosen :
        (b : Bool) (a c : Labels)
        → b ≡ true
        → NamedIn common_names a
        → NamedIn common_names (if b then a else c)
    chosen true a c e h = h
    chosen false a c e h = ground (arith, e)
