-- ===== src/Spec/Cache/Adoption.antt =====
-- internal/spec/cache.go: when an existing volume may be adopted as a given cache, and when its
-- labels prove it to be a cache at all.
pub mod Laws
use garm_provider_docker.Base.{
  String, Bool, true, false, ◌&&◌, ◌||◌, not, List, [], ◌∷◌, ◌++◌, Option, none, some, Labels,
  label, ◌==◌, if◌then◌else◌, Result, ok, err, ◌>>◌, ◌>>=◌, require,
}
use garm_provider_docker.Docker.Filters.{LabelFilter, has_value}
use garm_provider_docker.Spec.Labels.{
  label_managed, label_controller_id, label_cache, label_cache_kind, label_repo,
  label_repo_url_digest, label_generation, label_pnpm_major, label_os_release, label_image_digest,
}
use garm_provider_docker.Spec.Cache.Identity.{
  kind_toolcache, kind_pnpm, kind_externals, kind_diag_logs,
}

abbrev pub cache_identity_label_keys : List String
cache_identity_label_keys =
    label_cache_kind ∷ label_repo ∷ label_repo_url_digest ∷ label_image_digest ∷ label_generation
    ∷ label_pnpm_major ∷ label_os_release ∷ []

-- The loop over the identity keys: a key that `want` leaves empty is skipped.
unfoldable pub agree_on : List String → Labels → Labels → Bool
agree_on [] got want = true
agree_on (k ∷ ks) got want =
    (label want k == "" || label got k == label want k) && agree_on ks got want

abbrev pub is_managed_cache : Labels → Bool
is_managed_cache labels = label labels label_managed == "true" && label labels label_cache == "true"

unfoldable pub validate_adopted_cache_volume : Labels → Labels → Result (Unit {0})
validate_adopted_cache_volume got want = do
  require (is_managed_cache got)
  require (agree_on cache_identity_label_keys got want)

unfoldable pub required_cache_identity_keys : String → Option (List String)
required_cache_identity_keys kind =
    if kind == kind_toolcache
    then some (label_repo ∷ label_repo_url_digest ∷ label_generation ∷ [])
    else if kind == kind_pnpm
    then some (label_repo ∷ label_repo_url_digest ∷ label_pnpm_major ∷ [])
    else if kind == kind_diag_logs
    then some (label_repo ∷ label_repo_url_digest ∷ [])
    else if kind == kind_externals
    then some (label_image_digest ∷ [])
    else none

unfoldable pub all_present : List String → Labels → Bool
all_present [] labels = true
all_present (k ∷ ks) labels = not (label labels k == "") && all_present ks labels

abbrev pub all_present_of : Option (List String) → Labels → Result (Unit {0})
all_present_of none labels = require false
all_present_of (some ks) labels = require (all_present ks labels)

unfoldable pub validate_cache_volume_kind : Labels → Result (Unit {0})
unfolding required_cache_identity_keys all_present
validate_cache_volume_kind labels = do
  require (is_managed_cache labels)
  all_present_of (required_cache_identity_keys (label labels label_cache_kind)) labels

unfoldable pub validate_diag_prune_target : Labels → Labels → String → Result (Unit {0})
unfolding validate_cache_volume_kind
validate_diag_prune_target got snapshot controller_id = do
  validate_cache_volume_kind got
  require (label got label_cache_kind == kind_diag_logs)
  require (label got label_controller_id == controller_id)
  require (label got label_repo == label snapshot label_repo)
  require (label got label_repo_url_digest == label snapshot label_repo_url_digest)

-- CacheIdentityFilter's loop.
unfoldable pub identity_filters : List String → Labels → List LabelFilter
identity_filters [] want = []
identity_filters (k ∷ ks) want =
    let rest = identity_filters ks want in
    if label want k == "" then rest else has_value k (label want k) ∷ rest

unfoldable pub cache_identity_filter : Labels → List LabelFilter
unfolding identity_filters
cache_identity_filter want =
    has_value label_managed "true"
    ∷ has_value label_cache "true"
    ∷ identity_filters cache_identity_label_keys want
