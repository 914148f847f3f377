-- ===== src/Spec/Labels/Laws.antt =====
-- The ownership predicate (internal/spec/labels.go) against the labels that the provider writes.
use garm_provider_docker.Base.{
  String, true, ◌==◌, ◌≡◌, arith, eq_iff, label, has_label, with_label, Labels,
}
use garm_provider_docker.Spec.Labels.{
  AllocationIdentity, container_labels, resource_labels, matches_predicate, label_create_nonce,
  label_managed, label_controller_id, label_instance_name,
}

-- A job-scoped container's labels satisfy a controller's predicate exactly when that controller
-- created it, also after a create nonce was added.
pub matches_predicate-container_labels :
    (id : AllocationIdentity) (role created_at nonce controller : String)
    → matches_predicate
        (with_label (container_labels id role created_at) label_create_nonce nonce)
        controller
      ≡ (id.controller_id == controller)
unfolding matches_predicate container_labels with_label
matches_predicate-container_labels id role created_at nonce controller = ground arith

-- A job-scoped network's or volume's labels satisfy a controller's predicate exactly when that
-- controller created it, also after a create nonce was added.
pub matches_predicate-resource_labels :
    (id : AllocationIdentity) (resource created_at nonce controller : String)
    → matches_predicate
        (with_label (resource_labels id resource created_at) label_create_nonce nonce)
        controller
      ≡ (id.controller_id == controller)
unfolding matches_predicate resource_labels with_label
matches_predicate-resource_labels id resource created_at nonce controller = ground arith

pub matches_predicate_fields :
    (l : Labels) (controller_id : String)
    → matches_predicate l controller_id ≡ true
    → (label l label_managed ≡ "true")
      × (label l label_controller_id ≡ controller_id)
      × (has_label l label_instance_name ≡ true)
unfolding matches_predicate
matches_predicate_fields l controller_id h = ground (
  arith,
  eq_iff (label l label_managed) "true",
  eq_iff (label l label_controller_id) controller_id,
)
