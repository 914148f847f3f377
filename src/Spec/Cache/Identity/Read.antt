-- ===== src/Spec/Cache/Identity/Read.antt =====
-- What the labels of each kind of cache volume read back as.
use garm_provider_docker.Base.{
  String, false, Labels, label, has_label, ◌≡◌, arith, eq_iff, with_label,
}
use garm_provider_docker.Spec.Labels.{
  label_managed, label_controller_id, label_cache, label_cache_kind, label_repo,
  label_repo_url_digest, label_last_used, label_generation, label_pnpm_major, label_os_release,
  label_image_digest, label_instance_name,
}
use garm_provider_docker.Spec.Cache.Identity.{
  CacheVolumeIdentity, ExternalsVolumeIdentity, toolcache_labels, pnpm_labels, diag_labels,
  externals_labels, kind_toolcache, kind_pnpm, kind_diag_logs, kind_externals,
}

-- The identity labels of a cache volume, with "" for an absent one.
pub record Reads (labels : Labels)
    (kind repo digest image generation pnpm os controller used : String) : Type 0 where
  pub managed : label labels label_managed ≡ "true"
  pub cache : label labels label_cache ≡ "true"
  pub kind_is : label labels label_cache_kind ≡ kind
  pub repo_is : label labels label_repo ≡ repo
  pub digest_is : label labels label_repo_url_digest ≡ digest
  pub image_is : label labels label_image_digest ≡ image
  pub generation_is : label labels label_generation ≡ generation
  pub pnpm_is : label labels label_pnpm_major ≡ pnpm
  pub os_is : label labels label_os_release ≡ os
  pub controller_is : label labels label_controller_id ≡ controller
  pub used_is : label labels label_last_used ≡ used
  pub no_instance : has_label labels label_instance_name ≡ false

module _ (c : CacheVolumeIdentity) (used : String) where
  pub Reads-toolcache_labels :
      (generation : String)
      → Reads
          (toolcache_labels c generation used)
          kind_toolcache
          c.repo_key
          c.repo_url_digest
          ""
          generation
          ""
          c.os_key
          c.controller_id
          used
  unfolding toolcache_labels with_label
  Reads-toolcache_labels generation =
      ground (arith, eq_iff c.repo_url_digest "", eq_iff c.os_key "")

  pub Reads-pnpm_labels :
      (pnpm_major : String)
      → Reads
          (pnpm_labels c pnpm_major used)
          kind_pnpm
          c.repo_key
          c.repo_url_digest
          ""
          ""
          pnpm_major
          c.os_key
          c.controller_id
          used
  unfolding pnpm_labels with_label
  Reads-pnpm_labels pnpm_major = ground (arith, eq_iff c.repo_url_digest "", eq_iff c.os_key "")

  pub Reads-diag_labels :
      Reads
        (diag_labels c used)
        kind_diag_logs
        c.repo_key
        c.repo_url_digest
        ""
        ""
        ""
        ""
        c.controller_id
        used
  unfolding diag_labels with_label
  Reads-diag_labels = ground (arith, eq_iff c.repo_url_digest "")

pub Reads-externals_labels :
    (e : ExternalsVolumeIdentity) (used : String)
    → Reads
        (externals_labels e used)
        kind_externals
        ""
        ""
        e.image_digest
        ""
        ""
        ""
        e.controller_id
        used
unfolding externals_labels
Reads-externals_labels e used = ground arith
