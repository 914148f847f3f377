-- ===== src/Topology/Create.antt =====
-- internal/topology/create.go: an allocation's claim network and its fresh volumes. The wrappers that
-- only name a volume's kind (CreateWorkspaceVolume and the like) are its callers.
pub mod Laws
pub mod Fresh
use garm_provider_docker.Base.{
  String, Bool, true, false, ◌&&◌, ◌||◌, not, List, [], ◌∷◌, ◌++◌, Option, none, some, Labels,
  label, with_label, Result, ok, err, Error, failed, not_found, conflict, both, join, ◌==◌,
  if◌then◌else◌, ◌≡◌,
}
use garm_provider_docker.Docker.Filters.{LabelFilter, has_value}
use garm_provider_docker.Docker.Client.{Resource}
use garm_provider_docker.Spec.Labels.{
  AllocationIdentity, network_labels, matches_predicate, label_managed, label_controller_id,
  label_instance_name, label_create_nonce, label_resource, resource_job_network,
}
use garm_provider_docker.Spec.Names.{job_network_name}
use garm_provider_docker.Topology.Teardown.{instance_scoped_filter}

-- A network of a list call has a name besides its id.
pub record NetworkSummary : Type 0 where
  pub id : String
  pub name : String
  pub labels : Labels

-- The daemon's networks and volumes. `volume_create` returns the labels of the volume that has the
-- name.
pub record Store : Type 1 where
  pub World : Type 0
  pub network_create : String → Labels → World → Result String × World
  pub network_list : List LabelFilter → World → Result (List NetworkSummary) × World
  pub network_remove : String → World → Result (Unit {0}) × World
  pub volume_create : String → Labels → World → Result Labels × World
  pub volume_remove : String → World → Result (Unit {0}) × World

-- CreateClaimNetwork's three returns, of which one is set.
pub data Claim : Type 0 where
  claimed : String → Claim
  duplicate_instance : Claim
  refused : Error → Claim

unfoldable pub filters_for_nonce : String → String → List LabelFilter
filters_for_nonce controller_id nonce =
    has_value label_managed "true"
    ∷ has_value label_controller_id controller_id
    ∷ has_value label_create_nonce nonce
    ∷ []

unfoldable pub owns_volume_for_replacement : String → Labels → Labels → Bool
owns_volume_for_replacement controller_id existing want =
    matches_predicate existing controller_id
    && label existing label_instance_name == label want label_instance_name
    && label existing label_resource == label want label_resource

module _ (S : Store) (controller_id : String) where
  abbrev pub any_ours : String → List NetworkSummary → Bool
  any_ours name [] = false
  any_ours name (n ∷ ns) =
      (n.name == name && matches_predicate n.labels controller_id) || any_ours name ns

  unfoldable pub existing_claim_is_ours : String → String → S.World → Result Bool × S.World
  existing_claim_is_ours name instance_name w =
      let (listed, w1) =
        S.network_list
          (instance_scoped_filter controller_id instance_name
            ++ has_value label_resource resource_job_network ∷ [])
          w in
      (elim listed [ err e ↦ err e | ok ns ↦ ok (any_ours name ns) ], w1)

  abbrev pub removal_errors : Result (Unit {0}) → List Error
  removal_errors (ok u) = []
  removal_errors (err not_found) = []
  removal_errors (err e) = e ∷ []

  unfoldable pub remove_own : String → List NetworkSummary → S.World → List Error × S.World
  remove_own nonce [] w = ([], w)
  remove_own nonce (n ∷ ns) w =
      let (r, w1) = S.network_remove n.id w in
      let mine = label n.labels label_create_nonce == nonce in
      let (es, w2) = remove_own nonce ns (if mine then w1 else w) in
      ((if mine then removal_errors r else []) ++ es, w2)

  abbrev pub removed_own : String → Result (List NetworkSummary) → S.World → Option Error × S.World
  removed_own nonce (err e) w = (some e, w)
  removed_own nonce (ok ns) w = let (es, w1) = remove_own nonce ns w in (join es, w1)

  unfoldable pub best_effort_remove_own_network : String → S.World → Option Error × S.World
  best_effort_remove_own_network nonce w =
      let (listed, w1) = S.network_list (filters_for_nonce controller_id nonce) w in
      removed_own nonce listed w1

  abbrev pub on_conflict : Result Bool → Claim
  on_conflict (err e) = refused e
  on_conflict (ok true) = duplicate_instance
  on_conflict (ok false) = refused failed

  abbrev pub with_cleanup : Error → Option Error → Claim
  with_cleanup e none = refused e
  with_cleanup e (some f) = refused (both e f)

  abbrev pub claim_result : Result String → String → String → String → S.World → Claim × S.World
  claim_result (ok id) name instance_name nonce w = (claimed id, w)
  claim_result (err conflict) name instance_name nonce w =
      let (ours, w1) = existing_claim_is_ours name instance_name w in (on_conflict ours, w1)
  claim_result (err e) name instance_name nonce w =
      let (cleanup, w1) = best_effort_remove_own_network nonce w in (with_cleanup e cleanup, w1)

  unfoldable pub create_claim_network :
      AllocationIdentity → String → String → S.World → Claim × S.World
  create_claim_network identity nonce created_at w =
      let name = job_network_name identity.instance_name in
      let labels = with_label (network_labels identity created_at) label_create_nonce nonce in
      let (made, w1) = S.network_create name labels w in
      claim_result made name identity.instance_name nonce w1

  -- The second create, after the removal of a stale volume.
  abbrev pub recreated : String → Result Labels → S.World → Result (Unit {0}) × S.World
  recreated nonce (err e) w = (err e, w)
  recreated nonce (ok got) w =
      (if label got label_create_nonce == nonce then ok tt else err failed, w)

  abbrev pub replaced :
      String → Labels → String → Result (Unit {0}) → S.World → Result (Unit {0}) × S.World
  replaced name want nonce (err not_found) w =
      let (made, w1) = S.volume_create name want w in recreated nonce made w1
  replaced name want nonce (err e) w = (err e, w)
  replaced name want nonce (ok u) w =
      let (made, w1) = S.volume_create name want w in recreated nonce made w1

  abbrev pub replace_if : Bool → String → Labels → String → S.World → Result (Unit {0}) × S.World
  replace_if false name want nonce w = (err failed, w)
  replace_if true name want nonce w =
      let (removed, w1) = S.volume_remove name w in replaced name want nonce removed w1

  abbrev pub fresh_or : Bool → S.World → Result (Unit {0}) × S.World → Result (Unit {0}) × S.World
  fresh_or true w k = (ok tt, w)
  fresh_or false w k = k

  abbrev pub created_fresh :
      String → Labels → String → Result Labels → S.World → Result (Unit {0}) × S.World
  created_fresh name want nonce (err e) w = (err e, w)
  created_fresh name want nonce (ok got) w =
      fresh_or (label got label_create_nonce == nonce) w
        (replace_if (owns_volume_for_replacement controller_id got want) name want nonce w)

  unfoldable pub create_fresh_volume :
      String → Labels → String → S.World → Result (Unit {0}) × S.World
  create_fresh_volume name labels nonce w =
      let want = with_label labels label_create_nonce nonce in
      let (made, w1) = S.volume_create name want w in created_fresh name want nonce made w1
