-- ===== src/Spec/Cache/Exclusion.antt =====
-- ADR-004's predicate (MatchesPredicate) against the labels of cache volumes.
use garm_provider_docker.Base.{String, false, Labels, ◌≡◌, ◌≢◌, ok, arith, eq_iff}
use garm_provider_docker.Spec.Labels.{matches_predicate}
use garm_provider_docker.Spec.Cache.Identity.{
  CacheVolumeIdentity, ExternalsVolumeIdentity, toolcache_labels, pnpm_labels, diag_labels,
  externals_labels, kind_toolcache, kind_pnpm, kind_diag_logs, kind_externals,
}
use garm_provider_docker.Spec.Cache.Identity.Read.{
  Reads, Reads-toolcache_labels, Reads-pnpm_labels, Reads-diag_labels, Reads-externals_labels,
}
use garm_provider_docker.Spec.Cache.Adoption.{validate_cache_volume_kind}

excluded :
    {labels : Labels} {k r d i g p o c u : String} (controller : String)
    → Reads labels k r d i g p o c u
    → matches_predicate labels controller ≡ false
unfolding matches_predicate
excluded controller h = ground arith

-- No cache volume that the provider labels, of any kind, satisfies the teardown predicate of any
-- controller.
pub cache_volumes_excluded :
    (c : CacheVolumeIdentity) (e : ExternalsVolumeIdentity) (salt used controller : String)
    → (matches_predicate (toolcache_labels c salt used) controller ≡ false)
      × (matches_predicate (pnpm_labels c salt used) controller ≡ false)
      × (matches_predicate (diag_labels c used) controller ≡ false)
      × (matches_predicate (externals_labels e used) controller ≡ false)
cache_volumes_excluded c e salt used controller = (
  excluded controller (Reads-toolcache_labels c used salt),
  excluded controller (Reads-pnpm_labels c used salt),
  excluded controller (Reads-diag_labels c used),
  excluded controller (Reads-externals_labels e used),
)

module _ {labels : Labels} {r d i g p o c u : String} where
  toolcache_valid :
      Reads labels kind_toolcache r d i g p o c u
      → r ≢ ""
      → d ≢ ""
      → g ≢ ""
      → validate_cache_volume_kind labels ≡ ok tt
  unfolding validate_cache_volume_kind
  toolcache_valid h r' d' g' =
      rw
        (
          h.managed, h.cache, h.kind_is, h.repo_is, h.digest_is, h.generation_is,
          validate_cache_volume_kind,
        )
        (ground (arith, eq_iff r "", eq_iff d "", eq_iff g ""))

  pnpm_valid :
      Reads labels kind_pnpm r d i g p o c u
      → r ≢ ""
      → d ≢ ""
      → p ≢ ""
      → validate_cache_volume_kind labels ≡ ok tt
  unfolding validate_cache_volume_kind
  pnpm_valid h r' d' p' =
      rw
        (
          h.managed, h.cache, h.kind_is, h.repo_is, h.digest_is, h.pnpm_is,
          validate_cache_volume_kind,
        )
        (ground (arith, eq_iff r "", eq_iff d "", eq_iff p ""))

  diag_valid :
      Reads labels kind_diag_logs r d i g p o c u
      → r ≢ ""
      → d ≢ ""
      → validate_cache_volume_kind labels ≡ ok tt
  unfolding validate_cache_volume_kind
  diag_valid h r' d' =
      rw (h.managed, h.cache, h.kind_is, h.repo_is, h.digest_is, validate_cache_volume_kind)
        (ground (arith, eq_iff r "", eq_iff d ""))

  externals_valid :
      Reads labels kind_externals r d i g p o c u
      → i ≢ ""
      → validate_cache_volume_kind labels ≡ ok tt
  unfolding validate_cache_volume_kind
  externals_valid h i' =
      rw (h.managed, h.cache, h.kind_is, h.image_is, validate_cache_volume_kind)
        (ground (arith, eq_iff i ""))

-- Every cache volume that the provider labels passes the check of its kind, so the garbage
-- collection reports it as the provider's own.
pub validate_cache_volume_kind-own :
    (c : CacheVolumeIdentity) (e : ExternalsVolumeIdentity) (salt used : String)
    → c.repo_key ≢ ""
    → c.repo_url_digest ≢ ""
    → e.image_digest ≢ ""
    → salt ≢ ""
    → (validate_cache_volume_kind (toolcache_labels c salt used) ≡ ok tt)
      × (validate_cache_volume_kind (pnpm_labels c salt used) ≡ ok tt)
      × (validate_cache_volume_kind (diag_labels c used) ≡ ok tt)
      × (validate_cache_volume_kind (externals_labels e used) ≡ ok tt)
validate_cache_volume_kind-own c e salt used r d i s = (
  toolcache_valid (Reads-toolcache_labels c used salt) r d s,
  pnpm_valid (Reads-pnpm_labels c used salt) r d s,
  diag_valid (Reads-diag_labels c used) r d,
  externals_valid (Reads-externals_labels e used) i,
)
