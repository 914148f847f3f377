-- ===== src/Checks/Topology.antt =====
-- The sweep, the creates and the garbage collection of internal/topology, and the throttle of
-- internal/provider/throttle.go, at concrete inputs.
use garm_provider_docker.Base.{
  ℕ, ◌-◌, String, Bool, true, false, List, [], ◌∷◌, Option, none, some, Labels, Result, ok, err,
  not_found, conflict, All, ◌≡◌, ◌≢◌, sym, ◌∙◌, refl, arith, with_label, eq_iff,
}
use garm_provider_docker.Docker.Client.{Resource}
use garm_provider_docker.Spec.Labels.{
  AllocationIdentity, container_labels, resource_labels, workspace_volume_labels, base_labels,
  matches_predicate, role_runner, role_throttle_stamp, label_create_nonce, label_managed,
  label_controller_id, label_role, label_created_at,
}
use garm_provider_docker.Spec.Names.{job_network_name}
use garm_provider_docker.Topology.Sweep.{
  SweptContainer, sweep_instance, see_runners, note, parse_created_at, is_active_runner_state,
}
use garm_provider_docker.Topology.Sweep.Laws.{
  sweep_instance-Finished, sweep_instance-CreatedBy, FinishedRunner, CreatedBy,
}
use garm_provider_docker.Topology.Create.{
  Store, create_claim_network, create_fresh_volume, owns_volume_for_replacement,
}
use garm_provider_docker.Topology.Create.Laws.{create_claim_network-Explains, Explains}
use garm_provider_docker.Topology.Create.Fresh.{
  create_fresh_volume-FreshlyMade, create_fresh_volume-refuses, FreshlyMade,
}
use garm_provider_docker.Topology.Gc.{list_stale_caches}
use garm_provider_docker.Topology.Gc.Laws.{list_stale_caches-StaleFor, StaleFor}
use garm_provider_docker.Spec.Cache.Identity.{externals_labels}
use garm_provider_docker.Provider.Throttle.{
  Daemon, Stamp, judge, claim_stamp, create_stamp, replace_stamp, is_own_stamp, usable_age,
}
use garm_provider_docker.Provider.Throttle.Claims.{claim_stamp-Won, Won}

abbrev job : AllocationIdentity
job = record { controller_id = "ctl"; pool_id = "pool"; instance_name = "job" }

-- Only one creation time is ever written here.
abbrev parse : String → Option ℕ
parse s = some 100

abbrev runner_labels : Labels
runner_labels = container_labels job role_runner "t0"

-- A runner that finished at 150.
abbrev exited : SweptContainer
exited = record { labels = runner_labels; state = "exited"; finished_at = ok (some 150) }

-- A runner that was created and never started.
abbrev unstarted : SweptContainer
unstarted = record { labels = runner_labels; state = "created"; finished_at = ok none }

sweep_instance-Finished_example : All (FinishedRunner "ctl" parse (1000 - 120)) (exited ∷ [])
unfolding sweep_instance see_runners note parse_created_at is_active_runner_state container_labels
    base_labels with_label matches_predicate
sweep_instance-Finished_example =
    sweep_instance-Finished "ctl" parse 1000 120 1200 (exited ∷ []) [] [] refl

sweep_instance-CreatedBy_example : All (CreatedBy "ctl" parse (2000 - 1200)) (runner_labels ∷ [])
unfolding sweep_instance see_runners note parse_created_at is_active_runner_state container_labels
    base_labels with_label matches_predicate
sweep_instance-CreatedBy_example =
    sweep_instance-CreatedBy "ctl" parse 2000 120 1200 (unstarted ∷ []) [] []
      ((λ t e. ground (arith, e)), tt) refl

-- A store that holds at most one volume, of any name; networks are always created.
abbrev kept_or : Option Labels → Labels → Labels
kept_or none new = new
kept_or (some l) new = l

abbrev store : Store
store = record {
  World = Option Labels;
  network_create = λ n l w. (ok "net-1", w);
  network_list = λ fs w. (ok [], w);
  network_remove = λ i w. (ok tt, w);
  volume_create = λ n l w. (ok (kept_or w l), some (kept_or w l));
  volume_remove = λ n w. (ok tt, none);
}

abbrev foreign_labels : Labels
foreign_labels = ("owner", "someone") ∷ []

create_claim_network-Explains_example :
    Explains store "ctl" "job" "n1"
      (job_network_name "job")
      (create_claim_network store "ctl" job "n1" "t0" none).0
      (ok "net-1")
      none
      (create_claim_network store "ctl" job "n1" "t0" none).1
create_claim_network-Explains_example = create_claim_network-Explains store "ctl" job "n1" "t0" none

create_fresh_volume-FreshlyMade_example :
    FreshlyMade store "ctl" "job-n1-workspace" "n1"
      (with_label (workspace_volume_labels job "t0") label_create_nonce "n1")
      none
      (create_fresh_volume store "ctl" "job-n1-workspace"
        (workspace_volume_labels job "t0")
        "n1"
        none).1
unfolding create_fresh_volume workspace_volume_labels resource_labels base_labels with_label
create_fresh_volume-FreshlyMade_example =
    create_fresh_volume-FreshlyMade store "ctl" "job-n1-workspace" "n1"
      (workspace_volume_labels job "t0") none refl

kept : (want l : Labels) (v : Option Labels) → v ≡ some l → some (kept_or v want) ≡ some l
kept want l (some x) e = e
kept want l none e = ground (arith, e)

returned_own :
    (want got l : Labels) (v : Option Labels) → v ≡ some l → ok (kept_or v want) ≡ ok got → got ≡ l
returned_own want got l (some x) e f =
    let same : x ≡ l = cc e in let taken : x ≡ got = cc f in sym taken ∙ same
returned_own want got l none e f = ground (arith, e)

create_fresh_volume-refuses_example :
    ((create_fresh_volume store "ctl" "job-n1-workspace"
        (workspace_volume_labels job "t0")
        "n1"
        (some foreign_labels)).0
      ≢ ok tt)
    × ((create_fresh_volume store "ctl" "job-n1-workspace"
          (workspace_volume_labels job "t0")
          "n1"
          (some foreign_labels)).1
        ≡ some foreign_labels)
unfolding owns_volume_for_replacement matches_predicate
create_fresh_volume-refuses_example =
    create_fresh_volume-refuses store "ctl" "job-n1-workspace" "n1"
      (workspace_volume_labels job "t0") (some foreign_labels) (λ v. v) foreign_labels refl
      (λ want v e. kept want foreign_labels v e)
      (λ want got v e f. returned_own want got foreign_labels v e f)
      (λ e. ground (arith, (eq_iff "" "n1").1 e)) refl

abbrev externals : Labels
externals = externals_labels (record { controller_id = "ctl"; image_digest = "sha256:ab" }) "t0"

abbrev caches : List Resource
caches = record { id = "garm-cache-externals-ab"; labels = externals } ∷ []

list_stale_caches-StaleFor_example :
    All (StaleFor "ctl" (λ l. some "old") caches) (list_stale_caches "ctl" (λ l. some "old") caches)
list_stale_caches-StaleFor_example = list_stale_caches-StaleFor "ctl" (λ l. some "old") caches

abbrev stamp : Stamp
stamp = record {
  id = "c1";
  labels =
      (label_managed, "true")
      ∷ (label_controller_id, "ctl")
      ∷ (label_role, role_throttle_stamp)
      ∷ (label_created_at, "t0")
      ∷ [];
}

-- A daemon with a stamp or none; the name is taken while there is one.
abbrev taken : Bool → Result Stamp
taken true = ok stamp
taken false = err not_found

abbrev made : Bool → Result (Unit {0})
made true = err conflict
made false = ok tt

abbrev stamps : Daemon
stamps = record {
  World = Bool;
  image_inspect = λ w. (ok tt, w);
  inspect = λ n w. (taken w, w);
  remove = λ i w. (ok tt, false);
  create = λ n w. (made w, true);
}

claim_stamp-Won_example :
    Won stamps parse 400 "ctl" role_throttle_stamp 180 "stamp"
      (taken true)
      true
      (claim_stamp stamps (judge parse 400 "ctl" role_throttle_stamp 180) "stamp" true).1
unfolding judge is_own_stamp usable_age claim_stamp replace_stamp create_stamp
claim_stamp-Won_example =
    claim_stamp-Won stamps parse 400 "ctl" role_throttle_stamp 180 "stamp" true refl
