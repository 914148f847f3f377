-- ===== src/Checks/Provider.antt =====
-- The commands of internal/provider, its helpers, and the orphan sweep, at a small daemon.
use garm_provider_docker.Base.{
  ℕ, ◌==◌, ◌+◌, ◌≤◌, if◌then◌else◌, String, Bool, true, false, ◌&&◌, Option, none, some, Labels,
  err, not_found, Result, ok, ◌≡◌, ◌≢◌, refl, arith, with_label,
}
use garm_provider_docker.Base.Texts.Laws.{cons_differs}
use garm_provider_docker.Docker.Client.{container}
use garm_provider_docker.Spec.Labels.{
  container_labels, resource_labels, network_labels, workspace_volume_labels, base_labels,
  matches_predicate, is_managed_runner,
}
use garm_provider_docker.Topology.Teardown.{
  teardown_allocation, run_teardown, remove_kind, remove_each, remove_one, force_remove, may_remove,
  instance_scoped_filter, claim_nonces, sort_by_rank, insert_by_rank,
}
use garm_provider_docker.Topology.Sweep.Orphans.{sweep_orphans}
use garm_provider_docker.Topology.Sweep.Orphans.Laws.{sweep_orphans-keeps}
use garm_provider_docker.Provider.Instances.{
  to_provider_instance, to_provider_instance_from_summary,
}
use garm_provider_docker.Provider.Instances.Laws.{to_provider_instance-IsAsListed, IsAsListed}
use garm_provider_docker.Provider.Resolver.{
  resolve, first_owned, managed_runner_by_instance_name_filter, owns_runner,
}
use garm_provider_docker.Provider.Commands.{delete_instance, resolve_instance_name}
use garm_provider_docker.Provider.Commands.Laws.{delete_instance-keeps_others}
use garm_provider_docker.Provider.Commands.Complete.{
  resolve_instance_name-finds, delete_instance_complete,
}
use garm_provider_docker.Provider.Helpers.{
  reap_leaked_helpers, helper_reap_max, helper_labels, is_own_helper,
}
use garm_provider_docker.Provider.Helpers.Laws.{
  reap_leaked_helpers-le, reap_leaked_helpers-keeps, AtMostOne, NoneIfFailed,
}
use garm_provider_docker.Checks.Daemon.{daemon, daemon_laws, daemon_quiet, Slots, slot}
use garm_provider_docker.Checks.Engine.{engine, engine_laws, shown, entry, running}
use garm_provider_docker.Checks.Teardown.{
  runner_labels, claim_labels, foreign_labels, allocation, shared, one_claim,
}

-- Every creation time reads as 100.
abbrev parse : String → Option ℕ
parse s = some 100

delete_instance-keeps_others_example :
    slot container (delete_instance daemon engine "ctl" "job" shared).1 ≡ some foreign_labels
unfolding matches_predicate container_labels base_labels with_label
delete_instance-keeps_others_example =
    delete_instance-keeps_others daemon daemon_laws engine engine_laws "ctl" "job" shared container
      "it" foreign_labels (λ e. refl) refl (λ (m, i). ground (arith, m))

resolve_instance_name-finds_example :
    (resolve_instance_name daemon engine "ctl" "job" allocation).0 ≢ ok none
unfolding matches_predicate container_labels base_labels with_label
resolve_instance_name-finds_example =
    resolve_instance_name-finds daemon daemon_laws engine engine_laws "ctl" "job" allocation
      container "it" runner_labels (cons_differs _ _) (cons_differs _ _) refl refl refl

sweep_orphans-keeps_example :
    slot container (sweep_orphans daemon engine "ctl" parse parse 100 120 1200 shared).1
    ≡ some foreign_labels
unfolding matches_predicate container_labels base_labels with_label
sweep_orphans-keeps_example =
    sweep_orphans-keeps daemon daemon_laws engine engine_laws "ctl" parse parse 100 120 1200
      container "it" foreign_labels (λ m. ground (arith, m)) (λ e. refl) shared refl

to_provider_instance-IsAsListed_example :
    IsAsListed
      (to_provider_instance (shown runner_labels))
      (to_provider_instance_from_summary (entry runner_labels))
to_provider_instance-IsAsListed_example =
    to_provider_instance-IsAsListed (shown runner_labels) (entry runner_labels) running
      (record {
        same_labels = refl;
        same_name = refl;
        same_state = refl;
        same_status = refl;
        same_dead = refl;
      })
      refl

abbrev helper : Slots
helper = record { c = some (helper_labels "ctl" "t0"); n = none; v = none }

-- The containers that are gone, where at most one was there.
abbrev missing : Slots → ℕ
missing s = elim s.c [ none ↦ 1 | some l ↦ 0 ]

missing-le_one : (s : Slots) → missing s ≤ 1
missing-le_one s = at_most s.c
  where
    at_most : (o : Option Labels) → elim o [ none ↦ 1 | some l ↦ 0 ] ≤ 1
    at_most none = omega arith
    at_most (some l) = omega arith

at_most_one : AtMostOne daemon engine "ctl" parse 5000000000000 missing
at_most_one i w = let most = missing-le_one (daemon.remove container i w).1 in omega arith

abbrev removal : Bool → Slots → Result (Unit {0}) × Slots
removal b w = if b then (ok tt, record w { c = none }) else (err not_found, w)

none_if_failed : NoneIfFailed daemon engine "ctl" parse 5000000000000 missing
none_if_failed i w e h other = answered (i == "it") h
  where
    answered : (b : Bool) → (removal b w).0 ≡ err e → missing (removal b w).1 ≤ missing w
    answered true h = ground (arith, h)
    answered false h = omega arith

reap_leaked_helpers-le_example :
    missing (reap_leaked_helpers daemon engine "ctl" parse 5000000000000 helper).1
    ≤ missing helper + helper_reap_max
reap_leaked_helpers-le_example =
    reap_leaked_helpers-le daemon engine "ctl" parse 5000000000000 missing at_most_one
      none_if_failed (λ fs w. omega arith) helper

not_helper : (a : Bool) → (is_own_helper "ctl" foreign_labels && a) ≡ false
unfolding is_own_helper container_labels base_labels with_label
not_helper a = refl

reap_leaked_helpers-keeps_example :
    slot container (reap_leaked_helpers daemon engine "ctl" parse 5000000000000 shared).1
    ≡ some foreign_labels
reap_leaked_helpers-keeps_example =
    reap_leaked_helpers-keeps daemon engine "ctl" parse 5000000000000 daemon_laws engine_laws
      container "it" foreign_labels shared (λ s. not_helper _) refl

delete_instance_complete_example :
    slot container (delete_instance daemon engine "ctl" "job" allocation).1 ≡ none
unfolding matches_predicate container_labels resource_labels network_labels workspace_volume_labels
    base_labels with_label teardown_allocation run_teardown remove_kind remove_each remove_one
    force_remove may_remove instance_scoped_filter claim_nonces sort_by_rank insert_by_rank
    delete_instance resolve_instance_name resolve first_owned managed_runner_by_instance_name_filter
    owns_runner is_managed_runner
delete_instance_complete_example =
    delete_instance_complete daemon daemon_laws engine engine_laws "ctl" "job" daemon_quiet "n1"
      allocation "it" claim_labels (cons_differs _ _) (cons_differs _ _) refl (refl, refl, refl)
      one_claim container "it" runner_labels refl refl refl refl refl
