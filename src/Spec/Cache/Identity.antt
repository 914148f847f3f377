-- ===== src/Spec/Cache/Identity.antt =====
-- internal/spec/cache.go, diag.go and externals.go: which allocations may use persistent caches, and
-- the names and labels of cache volumes.
pub mod Read
use garm_provider_docker.Base.{
  String, Bool, true, false, List, [], ◌∷◌, Labels, with_label, with_label_if, ◌==◌, ◌⧺◌,
}
use garm_provider_docker.Base.Texts.{has_prefix}
use garm_provider_docker.Spec.Labels.{
  label_managed, label_controller_id, label_cache, label_cache_kind, label_repo,
  label_repo_url_digest, label_last_used, label_generation, label_pnpm_major, label_os_release,
  label_image_digest,
}

pub data CacheEntityScope : Type 0 where
  repo org enterprise unknown : CacheEntityScope

unfoldable pub cache_scope_allowed : CacheEntityScope → Bool → Bool
cache_scope_allowed repo allow_org_shared = true
cache_scope_allowed org allow_org_shared = allow_org_shared
cache_scope_allowed enterprise allow_org_shared = allow_org_shared
cache_scope_allowed unknown allow_org_shared = false

abbrev pub cache_volume_name_prefix : String
cache_volume_name_prefix = "garm-cache-"

unfoldable pub has_cache_volume_name_prefix : String → Bool
unfolding has_prefix
has_cache_volume_name_prefix name = has_prefix name cache_volume_name_prefix

abbrev pub kind_toolcache : String
kind_toolcache = "toolcache"

abbrev pub kind_pnpm : String
kind_pnpm = "pnpm"

abbrev pub kind_externals : String
kind_externals = "externals"

abbrev pub kind_diag_logs : String
kind_diag_logs = "diag-logs"

unfoldable pub toolcache_volume_name : String → String → String → String
toolcache_volume_name repo_key os_key generation =
    cache_volume_name_prefix ⧺ kind_toolcache ⧺ "-" ⧺ repo_key ⧺ "-" ⧺ os_key ⧺ "-" ⧺ generation

unfoldable pub pnpm_volume_name : String → String → String → String
pnpm_volume_name repo_key os_key pnpm_major =
    cache_volume_name_prefix ⧺ kind_pnpm ⧺ "-" ⧺ repo_key ⧺ "-" ⧺ os_key ⧺ "-" ⧺ pnpm_major

unfoldable pub diag_volume_name : String → String
diag_volume_name repo_key = cache_volume_name_prefix ⧺ kind_diag_logs ⧺ "-" ⧺ repo_key

unfoldable pub externals_volume_name : String → String
externals_volume_name image_digest = cache_volume_name_prefix ⧺ kind_externals ⧺ "-" ⧺ image_digest

pub record CacheVolumeIdentity : Type 0 where
  pub controller_id : String
  pub repo_key : String
  pub repo_url_digest : String
  pub os_key : String

unfoldable pub base_cache_labels : CacheVolumeIdentity → String → String → Labels
base_cache_labels c kind last_used =
    with_label_if
      ((label_managed, "true")
        ∷ (label_controller_id, c.controller_id)
        ∷ (label_cache, "true")
        ∷ (label_cache_kind, kind)
        ∷ (label_repo, c.repo_key)
        ∷ (label_last_used, last_used)
        ∷ [])
      label_repo_url_digest c.repo_url_digest

unfoldable pub add_os_key : CacheVolumeIdentity → Labels → Labels
add_os_key c labels = with_label_if labels label_os_release c.os_key

unfoldable pub toolcache_labels : CacheVolumeIdentity → String → String → Labels
unfolding base_cache_labels add_os_key
toolcache_labels c generation last_used =
    add_os_key c
      (with_label (base_cache_labels c kind_toolcache last_used) label_generation generation)

unfoldable pub pnpm_labels : CacheVolumeIdentity → String → String → Labels
unfolding base_cache_labels add_os_key
pnpm_labels c pnpm_major last_used =
    add_os_key c (with_label (base_cache_labels c kind_pnpm last_used) label_pnpm_major pnpm_major)

unfoldable pub diag_labels : CacheVolumeIdentity → String → Labels
unfolding base_cache_labels
diag_labels c last_used = base_cache_labels c kind_diag_logs last_used

pub record ExternalsVolumeIdentity : Type 0 where
  pub controller_id : String
  pub image_digest : String

unfoldable pub externals_labels : ExternalsVolumeIdentity → String → Labels
externals_labels e last_used =
    (label_managed, "true")
    ∷ (label_controller_id, e.controller_id)
    ∷ (label_cache, "true")
    ∷ (label_cache_kind, kind_externals)
    ∷ (label_image_digest, e.image_digest)
    ∷ (label_last_used, last_used)
    ∷ []
