-- ===== src/Topology/Gc.antt =====
-- internal/topology/gc.go: the cache volumes that the garbage collection reports or prunes. Each
-- function is given what the daemon's VolumeList returned.
pub mod Laws
use garm_provider_docker.Base.{
  String, Bool, true, false, ◌&&◌, ◌||◌, not, List, [], ◌∷◌, Option, none, some, Labels, label,
  Result, ok, err, ◌==◌, if◌then◌else◌,
}
use garm_provider_docker.Docker.Filters.{LabelFilter, has_value}
use garm_provider_docker.Docker.Client.{Resource}
use garm_provider_docker.Spec.Labels.{
  label_managed, label_controller_id, label_cache, label_cache_kind,
}
use garm_provider_docker.Spec.Cache.Identity.{kind_diag_logs, has_cache_volume_name_prefix}
use garm_provider_docker.Spec.Cache.Adoption.{validate_cache_volume_kind}

unfoldable pub cache_volume_filter : String → List LabelFilter
cache_volume_filter controller_id =
    has_value label_managed "true"
    ∷ has_value label_controller_id controller_id
    ∷ has_value label_cache "true"
    ∷ []

pub record StaleCache : Type 0 where
  pub name : String
  pub reason : String

abbrev pub passes : Result (Unit {0}) → Bool
passes (ok u) = true
passes (err e) = false

-- The checks on a listed volume, re-done on its labels.
abbrev pub is_own_cache : String → Labels → Bool
is_own_cache controller_id labels =
    label labels label_controller_id == controller_id && passes (validate_cache_volume_kind labels)

abbrev pub add_stale : Bool → Option String → String → List StaleCache → List StaleCache
add_stale true (some reason) name rest = record { name = name; reason = reason } ∷ rest
add_stale true none name rest = rest
add_stale false verdict name rest = rest

unfoldable pub list_stale_caches :
    String → (Labels → Option String) → List Resource → List StaleCache
list_stale_caches controller_id decide [] = []
list_stale_caches controller_id decide (v ∷ vs) =
    add_stale (is_own_cache controller_id v.labels) (decide v.labels) v.id
      (list_stale_caches controller_id decide vs)

abbrev pub add_if {ℓ} : {A : Type ℓ} → Bool → A → List A → List A
add_if true x xs = x ∷ xs
add_if false x xs = xs

unfoldable pub list_diag_volumes : String → List Resource → List Resource
list_diag_volumes controller_id [] = []
list_diag_volumes controller_id (v ∷ vs) =
    add_if
      (label v.labels label_cache_kind == kind_diag_logs && is_own_cache controller_id v.labels) v
      (list_diag_volumes controller_id vs)

unfoldable pub list_unprovable_cache_cruft : List Resource → List String
list_unprovable_cache_cruft [] = []
list_unprovable_cache_cruft (v ∷ vs) =
    add_if (has_cache_volume_name_prefix v.id && not (label v.labels label_cache == "true")) v.id
      (list_unprovable_cache_cruft vs)
