-- ===== src/Spec/Labels.antt =====
-- internal/spec/labels.go: label keys, the labels of job-scoped resources, and the ownership
-- predicate. A time enters as the text that `Format(time.RFC3339)` gives.
pub mod Laws
use garm_provider_docker.Base.{
  String, Bool, true, ◌&&◌, not, ◌∷◌, [], Labels, ◌==◌, label, has_label, with_label,
}

abbrev pub label_managed : String
label_managed = "garm.docker/managed"

abbrev pub label_controller_id : String
label_controller_id = "garm.docker/controller-id"

abbrev pub label_pool_id : String
label_pool_id = "garm.docker/pool-id"

abbrev pub label_instance_name : String
label_instance_name = "garm.docker/instance-name"

abbrev pub label_role : String
label_role = "garm.docker/role"

abbrev pub label_resource : String
label_resource = "garm.docker/resource"

abbrev pub label_created_at : String
label_created_at = "garm.docker/created-at"

abbrev pub label_cache : String
label_cache = "garm.docker/cache"

abbrev pub label_repo : String
label_repo = "garm.docker/repo"

abbrev pub label_repo_url_digest : String
label_repo_url_digest = "garm.docker/repo-url-digest"

abbrev pub label_generation : String
label_generation = "garm.docker/generation"

abbrev pub label_pnpm_major : String
label_pnpm_major = "garm.docker/pnpm-major"

abbrev pub label_last_used : String
label_last_used = "garm.docker/last-used"

abbrev pub label_cache_kind : String
label_cache_kind = "garm.docker/cache-kind"

abbrev pub label_image_digest : String
label_image_digest = "garm.docker/image-digest"

abbrev pub label_os_release : String
label_os_release = "garm.docker/os-release"

abbrev pub label_os_type : String
label_os_type = "garm.docker/os-type"

abbrev pub label_os_arch : String
label_os_arch = "garm.docker/os-arch"

abbrev pub label_create_nonce : String
label_create_nonce = "garm.docker/create-nonce"

-- Role values: containers only.
abbrev pub role_runner : String
role_runner = "runner"

abbrev pub role_dind : String
role_dind = "dind"

abbrev pub role_cache_helper : String
role_cache_helper = "cache-helper"

abbrev pub role_diag_prune_stamp : String
role_diag_prune_stamp = "diag-prune-stamp"

abbrev pub role_throttle_stamp : String
role_throttle_stamp = "throttle-stamp"

-- Resource kinds: networks and volumes only.
abbrev pub resource_job_network : String
resource_job_network = "job-network"

abbrev pub resource_workspace : String
resource_workspace = "workspace"

abbrev pub resource_socket : String
resource_socket = "socket"

abbrev pub resource_dind_state : String
resource_dind_state = "dind-state"

pub record AllocationIdentity : Type 0 where
  pub controller_id : String
  pub pool_id : String
  pub instance_name : String

unfoldable pub base_labels : AllocationIdentity → String → Labels
base_labels id created_at =
    (label_managed, "true")
    ∷ (label_controller_id, id.controller_id)
    ∷ (label_pool_id, id.pool_id)
    ∷ (label_instance_name, id.instance_name)
    ∷ (label_created_at, created_at)
    ∷ []

unfoldable pub container_labels : AllocationIdentity → String → String → Labels
unfolding base_labels
container_labels id role created_at = with_label (base_labels id created_at) label_role role

unfoldable pub resource_labels : AllocationIdentity → String → String → Labels
unfolding base_labels
resource_labels id resource created_at =
    with_label (base_labels id created_at) label_resource resource

-- ADR-004's predicate: the early returns, in their order.
unfoldable pub matches_predicate : Labels → String → Bool
matches_predicate labels controller_id =
    label labels label_managed == "true"
    && label labels label_controller_id == controller_id
    && has_label labels label_instance_name
    && not (label labels label_cache == "true")

unfoldable pub is_managed_runner : Labels → String → Bool
is_managed_runner labels controller_id =
    matches_predicate labels controller_id && label labels label_role == role_runner

unfoldable pub network_labels : AllocationIdentity → String → Labels
unfolding resource_labels
network_labels id created_at = resource_labels id resource_job_network created_at

unfoldable pub workspace_volume_labels : AllocationIdentity → String → Labels
unfolding resource_labels
workspace_volume_labels id created_at = resource_labels id resource_workspace created_at

unfoldable pub socket_volume_labels : AllocationIdentity → String → Labels
unfolding resource_labels
socket_volume_labels id created_at = resource_labels id resource_socket created_at

unfoldable pub dind_state_volume_labels : AllocationIdentity → String → Labels
unfolding resource_labels
dind_state_volume_labels id created_at = resource_labels id resource_dind_state created_at

unfoldable pub dind_container_labels : AllocationIdentity → String → Labels
unfolding container_labels
dind_container_labels id created_at = container_labels id role_dind created_at
