-- ===== src/Topology/Teardown.antt =====
-- internal/topology/teardown.go: which resources a teardown may remove, and the removal of an
-- allocation's containers, volumes and network. The reports of teardowns that log first
-- (TeardownAllocationReportingIO) change nothing that is removed, and are left out.
pub mod Phase
pub mod Safety
pub mod Complete
pub mod Gone
pub mod Generation
pub mod Allocation
use garm_provider_docker.Base.{
  String, Bool, true, false, ◌&&◌, ◌||◌, not, ℕ, ltb, List, [], ◌∷◌, ◌++◌, Option, none, some, map,
  Labels, label, with_label, lookup, Result, ok, err, Error, not_found, join, ◌==◌, if◌then◌else◌,
}
use garm_provider_docker.Docker.Filters.{LabelFilter, has_key, has_value}
use garm_provider_docker.Docker.Client.{Kind, container, network, volume, Resource, Client}
use garm_provider_docker.Spec.Labels.{
  matches_predicate, label_managed, label_controller_id, label_instance_name, label_create_nonce,
  label_resource, label_role, resource_job_network, role_runner, role_dind,
}

unfoldable pub match_predicate_filters : String → List LabelFilter
match_predicate_filters controller_id =
    has_value label_managed "true"
    ∷ has_value label_controller_id controller_id
    ∷ has_key label_instance_name
    ∷ []

unfoldable pub instance_scoped_filter : String → String → List LabelFilter
instance_scoped_filter controller_id instance_name =
    has_value label_managed "true"
    ∷ has_value label_controller_id controller_id
    ∷ has_value label_instance_name instance_name
    ∷ []

unfoldable pub instance_scoped_nonce_filter : String → String → String → List LabelFilter
unfolding instance_scoped_filter
instance_scoped_nonce_filter controller_id instance_name nonce =
    instance_scoped_filter controller_id instance_name ++ has_value label_create_nonce nonce ∷ []

-- teardownMode with the field of teardownScope that each mode reads.
pub data TeardownScope : Type 0 where
  exact : String → TeardownScope
  generation : List (String × String) → TeardownScope
  all : TeardownScope

unfoldable pub role_rank : Labels → ℕ
role_rank labels =
    if label labels label_role == role_runner
    then 0
    else if label labels label_role == role_dind
    then 1
    else 2

-- sort.SliceStable by roleRank.
unfoldable pub insert_by_rank : Resource → List Resource → List Resource
unfolding role_rank
insert_by_rank r [] = r ∷ []
insert_by_rank r (s ∷ rs) =
    if ltb (role_rank s.labels) (role_rank r.labels) then s ∷ insert_by_rank r rs else r ∷ s ∷ rs

unfoldable pub sort_by_rank : List Resource → List Resource
unfolding insert_by_rank
sort_by_rank [] = []
sort_by_rank (r ∷ rs) = insert_by_rank r (sort_by_rank rs)

-- What a phase returns: `found` and its error.
pub record Outcome : Type 0 where
  pub found : Bool
  pub errs : List Error

abbrev pub nothing : Outcome
nothing = record { found = false; errs = [] }

abbrev pub failure : Error → Outcome
failure e = record { found = false; errs = e ∷ [] }

abbrev pub and_then : Outcome → Outcome → Outcome
and_then a b = record { found = a.found || b.found; errs = a.errs ++ b.errs }

-- `if err != nil && !errdefs.IsNotFound(err) { errs = append(errs, err) }`
abbrev pub removed : Result (Unit {0}) → Outcome
removed (ok u) = record { found = true; errs = [] }
removed (err not_found) = record { found = true; errs = [] }
removed (err e) = record { found = true; errs = e ∷ [] }

-- A phase's `errors.Join(errs...)`.
abbrev pub joined : Outcome → Outcome
joined o = record { found = o.found; errs = elim (join o.errs) [ none ↦ [] | some e ↦ e ∷ [] ] }

module _ (C : Client) (controller_id : String) where
  -- The first live claim network among the listed ones.
  unfoldable pub first_claim : List Resource → Option String
  unfolding matches_predicate
  first_claim [] = none
  first_claim (n ∷ ns) =
      if matches_predicate n.labels controller_id
        && label n.labels label_resource == resource_job_network
      then some (label n.labels label_create_nonce)
      else first_claim ns

  unfoldable pub live_claim_nonce : String → C.World → Result (Option String) × C.World
  live_claim_nonce instance_name w =
      let (listed, w') =
        C.list network
          (instance_scoped_filter controller_id instance_name
            ++ has_value label_resource resource_job_network ∷ [])
          w in
      (elim listed [ ok ns ↦ ok (first_claim ns) | err e ↦ err e ], w')

  -- A leftover, unless a generation has since claimed the name.
  abbrev pub unclaimed : String → Result (Option String) → Result Bool
  unclaimed nonce (err e) = err e
  unclaimed nonce (ok none) = ok true
  unclaimed nonce (ok (some live)) = ok (not (not (live == "") && nonce == live))

  unfoldable pub may_remove : TeardownScope → Labels → C.World → Result Bool × C.World
  may_remove scope labels w =
      let nonce = label labels label_create_nonce in
      elim (matches_predicate labels controller_id) [
        | false ↦ (ok false, w)
        | true ↦ elim scope [
          | exact wanted ↦ (ok (nonce == wanted), w)
          | all ↦ (ok true, w)
          | generation captured ↦ elim (lookup (label labels label_instance_name) captured) [
            | some gen ↦ (ok (nonce == gen), w)
            | none ↦
                let (live, w') = live_claim_nonce (label labels label_instance_name) w in
                (unclaimed nonce live, w')
          ]
        ]
      ]

  -- One turn of a removal loop: a container is stopped first, its error dropped, and
  -- removed with the volumes that it has without a name.
  unfoldable pub force_remove : Kind → String → C.World → Result (Unit {0}) × C.World
  force_remove container id w = C.remove_with_volumes id (C.stop id w).1
  force_remove network id w = C.remove network id w
  force_remove volume id w = C.remove volume id w

  abbrev pub gated : Result Bool → C.World → Outcome × C.World → Outcome × C.World
  gated (err e) w o = (failure e, w)
  gated (ok false) w o = (nothing, w)
  gated (ok true) w o = o

  unfoldable pub remove_one : TeardownScope → Kind → Resource → C.World → Outcome × C.World
  remove_one scope kind r w =
      let (may, w1) = may_remove scope r.labels w in
      let (result, w2) = force_remove kind r.id w1 in gated may w1 (removed result, w2)

  unfoldable pub remove_each : TeardownScope → Kind → List Resource → C.World → Outcome × C.World
  remove_each scope kind [] w = (nothing, w)
  remove_each scope kind (r ∷ rs) w =
      let (a, w1) = remove_one scope kind r w in
      let (b, w2) = remove_each scope kind rs w1 in (and_then a b, w2)

  abbrev pub in_order : Kind → List Resource → List Resource
  in_order container rs = sort_by_rank rs
  in_order network rs = rs
  in_order volume rs = rs

  abbrev pub phase :
      Result (List Resource) → C.World → (List Resource → Outcome × C.World) → Outcome × C.World
  phase (err e) w k = (failure e, w)
  phase (ok rs) w k = k rs

  -- removeContainers, removeVolumes and removeNetworks.
  unfoldable pub remove_kind : TeardownScope → List LabelFilter → Kind → C.World → Outcome × C.World
  remove_kind scope filters kind w =
      let (listed, w1) = C.list kind filters w in
      phase listed w1
        (λ rs. let (o, w2) = remove_each scope kind (in_order kind rs) w1 in (joined o, w2))

  unfoldable pub run_teardown : List LabelFilter → TeardownScope → C.World → Outcome × C.World
  run_teardown filters scope w =
      let (c, w1) = remove_kind scope filters container w in
      let (v, w2) = remove_kind scope filters volume w1 in
      let (n, w3) = remove_kind scope filters network w2 in (joined (and_then c (and_then v n)), w3)

  unfoldable pub teardown_all : C.World → Outcome × C.World
  teardown_all w = run_teardown (match_predicate_filters controller_id) all w

  unfoldable pub rollback : String → String → C.World → Outcome × C.World
  rollback instance_name nonce w =
      run_teardown (instance_scoped_nonce_filter controller_id instance_name nonce) (exact nonce) w

  -- The map of claimNoncesByInstance; a later network overwrites an earlier one.
  unfoldable pub claim_nonces : List (String × String) → List Resource → List (String × String)
  claim_nonces out [] = out
  claim_nonces out (n ∷ ns) =
      claim_nonces
        (if matches_predicate n.labels controller_id
            && label n.labels label_resource == resource_job_network
            && not (label n.labels label_instance_name == "")
          then with_label out (label n.labels label_instance_name)
              (label n.labels label_create_nonce)
          else out)
        ns

  unfoldable pub teardown_allocation : String → C.World → Outcome × C.World
  teardown_allocation instance_name w =
      let filters = instance_scoped_filter controller_id instance_name in
      let (listed, w1) = C.list network filters w in
      phase listed w1 (λ ns. run_teardown filters (generation (claim_nonces [] ns)) w1)
