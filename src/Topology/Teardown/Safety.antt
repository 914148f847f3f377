-- ===== src/Topology/Teardown/Safety.antt =====
-- internal/topology/teardown.go: what TeardownAll and Rollback never remove.
use garm_provider_docker.Base.{String, true, false, some, Labels, ◌≡◌, arith, label, eq_iff}
use garm_provider_docker.Docker.Client.{Kind, Client, ClientLaws, IsNamed}
use garm_provider_docker.Spec.Labels.{matches_predicate, label_instance_name, label_create_nonce}
use garm_provider_docker.Topology.Teardown.{
  exact, all, may_remove, match_predicate_filters, instance_scoped_filter,
  instance_scoped_nonce_filter, teardown_all, rollback,
}
use garm_provider_docker.Topology.Teardown.Phase.{run_teardown-Present}

-- Whatever the daemon answers and whatever else is created meanwhile, TeardownAll keeps each
-- resource, of any kind, whose labels fail the controller's ownership predicate, unless it is a volume
-- that nobody named: those of another controller, and cache volumes, stay.
pub teardown_all-keeps :
    (C : Client) (L : ClientLaws C) (controller_id : String) (w : C.World) (J : Kind) (j : String)
    (l : Labels)
    → IsNamed L J j
    → L.view w J j ≡ some l
    → matches_predicate l controller_id ≡ false
    → L.view (teardown_all C controller_id w).1 J j ≡ some l
unfolding teardown_all may_remove
teardown_all-keeps C L controller_id w J j l lasts h foreign =
    run_teardown-Present C L controller_id (match_predicate_filters controller_id) all w J j l
      (λ s w'. ground arith) lasts h

-- Whatever the daemon answers and whatever else is created meanwhile, Rollback keeps each resource
-- that is not this controller's, or of another instance, or of another create nonce, unless it is a
-- volume that nobody named.
pub rollback-keeps :
    (C : Client) (L : ClientLaws C) (controller_id instance_name nonce : String) (w : C.World)
    (J : Kind) (j : String) (l : Labels)
    → IsNamed L J j
    → L.view w J j ≡ some l
    → ¬ (
        (matches_predicate l controller_id ≡ true)
        × (label l label_instance_name ≡ instance_name)
        × (label l label_create_nonce ≡ nonce))
    → L.view (rollback C controller_id instance_name nonce w).1 J j ≡ some l
unfolding rollback may_remove instance_scoped_nonce_filter instance_scoped_filter
rollback-keeps C L controller_id instance_name nonce w J j l lasts h other =
    run_teardown-Present C L controller_id
      (instance_scoped_nonce_filter controller_id instance_name nonce) (exact nonce) w J j l
      (λ (m, v, (c, u, (k, i, (n, o, e)))) w'.
        ground (arith, eq_iff (label l label_create_nonce) nonce))
      lasts h
