-- ===== src/Checks/Teardown.antt =====
-- Teardowns of internal/topology/teardown.go at a small daemon.
use garm_provider_docker.Base.{
  String, Bool, true, false, [], none, some, Labels, ok, ◌≡◌, ◌≢◌, refl, label, with_label, arith,
  ◌==◌, if◌then◌else◌, subst, eq_iff,
}
use garm_provider_docker.Base.Texts.Laws.{cons_differs}
use garm_provider_docker.Docker.Client.{container, volume}
use garm_provider_docker.Spec.Labels.{
  AllocationIdentity, container_labels, resource_labels, network_labels, base_labels,
  matches_predicate, label_create_nonce, role_runner, workspace_volume_labels,
}
use garm_provider_docker.Topology.Teardown.{
  teardown_all, rollback, teardown_allocation, run_teardown, remove_kind, remove_each, remove_one,
  force_remove, may_remove, live_claim_nonce, claim_nonces, match_predicate_filters,
  instance_scoped_filter, instance_scoped_nonce_filter, sort_by_rank, insert_by_rank, generation,
}
use garm_provider_docker.Topology.Teardown.Safety.{teardown_all-keeps, rollback-keeps}
use garm_provider_docker.Topology.Teardown.Gone.{teardown_all_complete, rollback_complete}
use garm_provider_docker.Topology.Teardown.Allocation.{
  teardown_allocation-keeps_others, teardown_allocation-keeps_generation, IsClaim,
}
use garm_provider_docker.Topology.Teardown.Generation.{
  teardown_allocation_complete, may_remove-spares_claim,
}
use garm_provider_docker.Checks.Daemon.{daemon, daemon_laws, daemon_quiet, Slots, slot}

abbrev pub ours : AllocationIdentity
ours = record { controller_id = "ctl"; pool_id = "pool"; instance_name = "job" }

abbrev pub theirs : AllocationIdentity
theirs = record { controller_id = "other"; pool_id = "pool"; instance_name = "job" }

abbrev pub runner_labels : Labels
runner_labels = with_label (container_labels ours role_runner "t0") label_create_nonce "n1"

abbrev pub claim_labels : Labels
claim_labels = with_label (network_labels ours "t0") label_create_nonce "n1"

abbrev old_volume_labels : Labels
old_volume_labels = with_label (workspace_volume_labels ours "t0") label_create_nonce "n0"

abbrev pub foreign_labels : Labels
foreign_labels = with_label (container_labels theirs role_runner "t0") label_create_nonce "n1"

-- A runner, its claim network, and a workspace of an older generation.
abbrev pub allocation : Slots
allocation = record { c = some runner_labels; n = some claim_labels; v = some old_volume_labels }

abbrev pub shared : Slots
shared = record { c = some foreign_labels; n = some claim_labels; v = none }

other_nonce : label old_volume_labels label_create_nonce ≢ "n1"
unfolding workspace_volume_labels resource_labels base_labels with_label
other_nonce e = ground (arith, (eq_iff "n0" "n1").1 e)

pub one_claim :
    (k : String) (d : Labels)
    → (if k == "it" then some claim_labels else none) ≡ some d
    → IsClaim "ctl" "job" d
    → label d label_create_nonce ≡ "n1"
unfolding network_labels resource_labels base_labels with_label
one_claim k d at claim = subst (λ x. label x label_create_nonce ≡ "n1") (seen (k == "it") at) refl
  where
    seen : (b : Bool) → (if b then some claim_labels else none) ≡ some d → claim_labels ≡ d
    seen true e = cc e
    seen false e = ground arith

teardown_all-keeps_example :
    slot container (teardown_all daemon "ctl" shared).1 ≡ some foreign_labels
unfolding matches_predicate container_labels base_labels with_label
teardown_all-keeps_example =
    teardown_all-keeps daemon daemon_laws "ctl" shared container "it" foreign_labels (λ e. refl)
      refl refl

teardown_all_complete_example : slot volume (teardown_all daemon "ctl" allocation).1 ≡ none
unfolding matches_predicate container_labels resource_labels network_labels workspace_volume_labels
    base_labels with_label teardown_all run_teardown remove_kind remove_each remove_one force_remove
    may_remove match_predicate_filters sort_by_rank insert_by_rank
teardown_all_complete_example =
    teardown_all_complete daemon daemon_laws daemon_quiet "ctl" allocation volume "it"
      old_volume_labels (cons_differs _ _) refl refl refl

rollback-keeps_example :
    slot volume (rollback daemon "ctl" "job" "n1" allocation).1 ≡ some old_volume_labels
unfolding resource_labels workspace_volume_labels base_labels with_label
rollback-keeps_example =
    rollback-keeps daemon daemon_laws "ctl" "job" "n1" allocation volume "it" old_volume_labels
      (λ e. refl) refl (λ (m, i, n). other_nonce n)

rollback_complete_example : slot container (rollback daemon "ctl" "job" "n1" allocation).1 ≡ none
unfolding matches_predicate container_labels resource_labels network_labels workspace_volume_labels
    base_labels with_label rollback run_teardown remove_kind remove_each remove_one force_remove
    may_remove instance_scoped_filter instance_scoped_nonce_filter sort_by_rank insert_by_rank
rollback_complete_example =
    rollback_complete daemon daemon_laws daemon_quiet "ctl" "job" "n1" allocation container "it"
      runner_labels (cons_differs _ _) (cons_differs _ _) (cons_differs _ _) refl refl refl refl
      refl

teardown_allocation-keeps_others_example :
    slot container (teardown_allocation daemon "ctl" "job" shared).1 ≡ some foreign_labels
unfolding matches_predicate container_labels base_labels with_label
teardown_allocation-keeps_others_example =
    teardown_allocation-keeps_others daemon daemon_laws "ctl" "job" shared container "it"
      foreign_labels (λ e. refl) refl (λ (m, i). ground (arith, m))

teardown_allocation-keeps_generation_example :
    slot volume (teardown_allocation daemon "ctl" "job" allocation).1 ≡ some old_volume_labels
unfolding matches_predicate resource_labels network_labels workspace_volume_labels base_labels
    with_label
teardown_allocation-keeps_generation_example =
    teardown_allocation-keeps_generation daemon daemon_laws "ctl" "job" "n1" allocation "it"
      claim_labels (cons_differs _ _) (cons_differs _ _) refl (refl, refl, refl) one_claim volume
      "it" old_volume_labels (λ e. refl) refl other_nonce

teardown_allocation_complete_example :
    slot container (teardown_allocation daemon "ctl" "job" allocation).1 ≡ none
unfolding matches_predicate container_labels resource_labels network_labels workspace_volume_labels
    base_labels with_label teardown_allocation run_teardown remove_kind remove_each remove_one
    force_remove may_remove instance_scoped_filter claim_nonces sort_by_rank insert_by_rank
teardown_allocation_complete_example =
    teardown_allocation_complete daemon daemon_laws daemon_quiet "ctl" "job" "n1" allocation "it"
      claim_labels (cons_differs _ _) (cons_differs _ _) refl (refl, refl, refl) one_claim container
      "it" runner_labels refl refl refl refl refl

may_remove-spares_claim_example :
    (may_remove daemon "ctl" (generation []) runner_labels allocation).0 ≢ ok true
unfolding live_claim_nonce matches_predicate container_labels resource_labels network_labels
    base_labels with_label
may_remove-spares_claim_example =
    may_remove-spares_claim daemon daemon_laws "ctl" allocation "it" claim_labels [] runner_labels
      (cons_differs _ _) (cons_differs _ _) (cons_differs _ _) refl refl (refl, refl, refl)
      one_claim
