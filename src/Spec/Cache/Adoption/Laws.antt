-- ===== src/Spec/Cache/Adoption/Laws.antt =====
-- Adoption (ValidateAdoptedCacheVolume) against the labels that the provider writes on volumes.
use garm_provider_docker.Base.{
  String, true, List, [], ◌∷◌, Labels, label, has_label, ◌==◌, ◌≡◌, ◌≢◌, ◌↔◌, refl, ok, arith,
  eq_iff, inl, inr, Bool-cases, require_two,
}
use garm_provider_docker.Docker.Filters.{Satisfies}
use garm_provider_docker.Spec.Labels.{label_managed, label_cache}
use garm_provider_docker.Spec.Cache.Identity.{
  CacheVolumeIdentity, ExternalsVolumeIdentity, toolcache_labels, externals_labels,
}
use garm_provider_docker.Spec.Cache.Identity.Read.{
  Reads, Reads-toolcache_labels, Reads-externals_labels,
}
use garm_provider_docker.Spec.Cache.Adoption.{
  validate_adopted_cache_volume, agree_on, cache_identity_label_keys, is_managed_cache,
  cache_identity_filter, identity_filters,
}

-- Every key that `want` sets has the same value in `got`.
abbrev pub Agree : List String → Labels → Labels → Type 0
Agree [] got want = Unit
Agree (k ∷ ks) got want = (label want k ≢ "" → label got k ≡ label want k) × Agree ks got want

agree_on_iff :
    (ks : List String) (got want : Labels) → (agree_on ks got want ≡ true) ↔ Agree ks got want
unfolding agree_on
agree_on_iff [] got want = (λ _. tt, λ _. refl)
agree_on_iff (k ∷ ks) got want =
    ground (
      arith,
      agree_on_iff ks got want,
      eq_iff (label want k) "",
      eq_iff (label got k) (label want k),
    )

-- A volume is adopted exactly when it is a managed cache and agrees on every identity label that the
-- wanted cache has.
pub validate_adopted_iff :
    (got want : Labels)
    → (validate_adopted_cache_volume got want ≡ ok tt)
      ↔ ((is_managed_cache got ≡ true) × Agree cache_identity_label_keys got want)
unfolding validate_adopted_cache_volume
validate_adopted_iff got want =
    let both = require_two (is_managed_cache got) (agree_on cache_identity_label_keys got want) in
    let agree = agree_on_iff cache_identity_label_keys got want in
    (λ h. ((both.0 h).0, agree.0 (both.0 h).1), λ h. both.1 (h.0, agree.1 h.1))

managed_cache :
    {labels : Labels} {k r d i g p o c u : String}
    → Reads labels k r d i g p o c u
    → is_managed_cache labels ≡ true
managed_cache h = rw (h.managed, h.cache) refl

module _ (have want : CacheVolumeIdentity) (seen made : String) where
  -- If the wanted key, URL digest, OS release and generation are not empty, a volume that the provider
  -- labelled as a toolcache is adopted as the wanted one exactly when those four agree: neither the
  -- creating controller nor the time of creation counts.
  pub toolcache-adoption :
      (generation wanted : String)
      → want.repo_key ≢ ""
      → want.repo_url_digest ≢ ""
      → want.os_key ≢ ""
      → wanted ≢ ""
      → (validate_adopted_cache_volume
            (toolcache_labels have generation seen)
            (toolcache_labels want wanted made)
          ≡ ok tt)
        ↔ ((have.repo_key ≡ want.repo_key)
            × (have.repo_url_digest ≡ want.repo_url_digest)
            × (have.os_key ≡ want.os_key)
            × (generation ≡ wanted))
  toolcache-adoption generation wanted k d o g =
      let got = Reads-toolcache_labels have seen generation in
      let need = Reads-toolcache_labels want made wanted in
      let iff =
        validate_adopted_iff (toolcache_labels have generation seen)
          (toolcache_labels want wanted made) in
      let managed = managed_cache got in
      (λ h. let (m, agree) = iff.0 h in ground arith, λ h. iff.1 (managed, ground arith))

-- An externals volume is adopted exactly when it was seeded from the same image.
pub externals-adoption :
    (have want : ExternalsVolumeIdentity) (seen made : String)
    → want.image_digest ≢ ""
    → (validate_adopted_cache_volume (externals_labels have seen) (externals_labels want made)
        ≡ ok tt)
      ↔ (have.image_digest ≡ want.image_digest)
externals-adoption have want seen made d =
    let got = Reads-externals_labels have seen in
    let need = Reads-externals_labels want made in
    let iff = validate_adopted_iff (externals_labels have seen) (externals_labels want made) in
    let managed = managed_cache got in
    (λ h. let (m, agree) = iff.0 h in ground arith, λ h. iff.1 (managed, ground arith))

-- Volumes of different kinds never stand in for one another.
pub adoption_same_kind :
    {got want : Labels} {k r d i g p o c u k' r' d' i' g' p' o' c' u' : String}
    → Reads got k r d i g p o c u
    → Reads want k' r' d' i' g' p' o' c' u'
    → k' ≢ ""
    → validate_adopted_cache_volume got want ≡ ok tt
    → k ≡ k'
adoption_same_kind {got} {want} have need named h =
    let (m, agree) = (validate_adopted_iff got want).0 h in ground arith

label_present :
    (labels : Labels) (k v : String) → label labels k ≡ v → v ≢ "" → has_label labels k ≡ true
label_present labels k v e n = ground arith

Satisfies-identity_filters :
    (ks : List String) (got want : Labels)
    → Agree ks got want
    → Satisfies got (identity_filters ks want)
unfolding identity_filters
Satisfies-identity_filters [] got want h = tt
Satisfies-identity_filters (k ∷ ks) got want h = elim (Bool-cases (label want k == "")) [
  | inl unset ↦ rw unset (Satisfies-identity_filters ks got want h.1)
  | inr named ↦
      let set : label want k ≢ "" = λ e. ground (arith, eq_iff (label want k) "") in
      rw named (
        label_present got k (label want k) (h.0 set) set,
        h.0 set,
        Satisfies-identity_filters ks got want h.1,
      )
]

-- The discovery filter misses no volume that could be adopted, whatever its name.
pub Satisfies-cache_identity_filter :
    (got want : Labels)
    → validate_adopted_cache_volume got want ≡ ok tt
    → Satisfies got (cache_identity_filter want)
unfolding cache_identity_filter
Satisfies-cache_identity_filter got want h =
    let (m, agree) = (validate_adopted_iff got want).0 h in
    let managed : label got label_managed ≡ "true" =
      ground (arith, eq_iff (label got label_managed) "true") in
    let cache : label got label_cache ≡ "true" =
      ground (arith, eq_iff (label got label_cache) "true") in
    let filled : ◌≢◌ {A = String} "true" "" = ground (arith, eq_iff "true" "") in
    (
      label_present got _ _ managed filled,
      managed,
      (
        label_present got _ _ cache filled,
        cache,
        Satisfies-identity_filters cache_identity_label_keys got want agree,
      ),
    )
