-- ===== src/Config/Cache.antt =====
-- internal/config/cache.go: the cache section and its checks.
pub mod Collisions
use garm_provider_docker.Base.{
  ℕ, String, Bool, true, false, ◌&&◌, ◌||◌, not, List, [], ◌∷◌, Result, ok, err, Error, failed,
  require, ◌>>◌, ◌==◌, ◌⧺◌, if◌then◌else◌, eqb,
}
use garm_provider_docker.Base.Integers.{ℤ, pos, is_negative}
use garm_provider_docker.Base.Texts.{
  is_digit, between, has_prefix, trim_prefix, all_chars, split_on, is_char,
}
use Prim.Native.Char.{Char, code}

pub record Cache : Type 0 where
  pub enabled : Bool
  pub generation : String
  pub pnpm_major : String
  pub toolcache_path : String
  pub pnpm_store_path : String
  pub allow_org_shared : Bool
  pub stale_cache_eviction_days : ℤ
  pub diagnostic_log_retention_days : ℤ

unfoldable pub default_cache : Cache
default_cache = record {
  enabled = true;
  generation = "1";
  pnpm_major = "9";
  toolcache_path = "/opt/hostedtoolcache";
  pnpm_store_path = "/opt/pnpm-store";
  allow_org_shared = false;
  stale_cache_eviction_days = pos 30;
  diagnostic_log_retention_days = pos 7;
}

abbrev pub reserved_mount_paths : List String
reserved_mount_paths =
    "/run/garm" ∷ "/run" ∷ "/actions-runner" ∷ "/actions-runner/_work" ∷ "/actions-runner/externals"
    ∷ "/actions-runner/_diag" ∷ "/var/lib/docker" ∷ []

abbrev is_alphanumeric : Char → Bool
is_alphanumeric c = is_digit c || between b'A' b'Z' (code c) || between b'a' b'z' (code c)

-- `[a-zA-Z0-9._-]`
abbrev is_segment_char : Char → Bool
is_segment_char c = is_alphanumeric c || is_char b'.' c || is_char b'_' c || is_char b'-' c

unfoldable pub cache_segment_pattern : String → Bool
cache_segment_pattern String.[] = false
cache_segment_pattern (String.◌∷◌ c s) = is_alphanumeric c && all_chars is_segment_char s

-- One element of a rooted path, the elements so far being in reverse.
abbrev push_element : List String → String → List String
push_element stack element =
    if element == ""
    then stack
    else if element == "."
    then stack
    else if element == ".."
    then elim stack [ [] ↦ [] | top ∷ rest ↦ rest ]
    else element ∷ stack

abbrev push_elements : List String → List String → List String
push_elements stack [] = stack
push_elements stack (e ∷ es) = push_elements (push_element stack e) es

abbrev rooted : List String → String → String
rooted [] tail = tail
rooted (e ∷ es) tail = rooted es ("/" ⧺ e ⧺ tail)

-- path.Clean on a path that begins with a slash.
unfoldable pub clean_rooted : String → String
clean_rooted path =
    let cleaned = rooted (push_elements [] (split_on (is_char b'/') path)) "" in
    if cleaned == "" then "/" else cleaned

unfoldable pub canonicalize_var_run : String → String
canonicalize_var_run p =
    if p == "/var/run"
    then "/run"
    else if has_prefix p "/var/run/"
    then "/run" ⧺ trim_prefix p "/var/run"
    else p

unfoldable pub path_is_at_or_under : String → String → Bool
path_is_at_or_under a b = a == b || has_prefix a (b ⧺ "/")

unfoldable pub collides : String → List String → Bool
collides canon [] = false
collides canon (r ∷ rs) =
    path_is_at_or_under canon r || path_is_at_or_under r canon || collides canon rs

unfoldable pub validate_cache_mount_path : String → Result (Unit {0})
validate_cache_mount_path raw =
    require (not (raw == ""))
    >> require (has_prefix raw "/")
    >> require (clean_rooted raw == raw)
    >> require (not (clean_rooted raw == "/"))
    >> require (not (collides (canonicalize_var_run (clean_rooted raw)) reserved_mount_paths))

unfoldable pub validate_enabled_cache : Cache → Result (Unit {0})
validate_enabled_cache c =
    require (cache_segment_pattern c.generation)
    >> require (cache_segment_pattern c.pnpm_major)
    >> validate_cache_mount_path c.toolcache_path
    >> validate_cache_mount_path c.pnpm_store_path
    >> require (not (c.toolcache_path == c.pnpm_store_path))

unfoldable pub validate_cache : Cache → Result (Unit {0})
validate_cache c =
    require (not (is_negative c.stale_cache_eviction_days))
    >> require (not (is_negative c.diagnostic_log_retention_days))
    >> (if c.enabled then validate_enabled_cache c else ok tt)
