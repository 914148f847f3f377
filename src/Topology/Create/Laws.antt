-- ===== src/Topology/Create/Laws.antt =====
-- internal/topology/create.go: who wins a claim, and what a claim that is lost removes.
use garm_provider_docker.Base.{
  String, Bool, true, false, Option, none, some, List, [], ◌∷◌, Labels, label, with_label, Result,
  ok, err, Error, failed, not_found, conflict, forbidden, duplicate, instance_not_found, both, ◌==◌,
  ◌&&◌, ◌||◌, if◌then◌else◌, ◌≡◌, ◌≢◌, ◌⊎◌, inl, inr, refl, subst, arith, eq_iff,
}
use garm_provider_docker.Docker.Filters.{LabelFilter, has_value}
use garm_provider_docker.Spec.Labels.{
  AllocationIdentity, network_labels, matches_predicate, label_create_nonce, label_managed,
  label_controller_id, label_instance_name, label_resource, resource_job_network,
}
use garm_provider_docker.Spec.Names.{job_network_name}
use garm_provider_docker.Topology.Teardown.{instance_scoped_filter}
use garm_provider_docker.Topology.Create.{
  Store, NetworkSummary, Claim, claimed, duplicate_instance, refused, create_claim_network,
  claim_result, on_conflict, with_cleanup, existing_claim_is_ours, any_ours, remove_own,
  removed_own, best_effort_remove_own_network, filters_for_nonce,
}

-- The labels that the claim network is created with.
abbrev pub claim_labels : AllocationIdentity → String → String → Labels
claim_labels identity nonce created_at =
    with_label (network_labels identity created_at) label_create_nonce nonce

-- A list shows this network.
abbrev pub Shown : NetworkSummary → List NetworkSummary → Type 0
Shown n [] = ⊥
Shown n (m ∷ ms) = (m ≡ n) ⊎ Shown n ms

-- Removals of networks of a list that carry the nonce, from one state to another.
pub data OwnRemovals (S : Store) (nonce : String) (ns : List NetworkSummary)
    : S.World → S.World → Type 0 where
  done : (w : S.World) → OwnRemovals S nonce ns w w
  removing :
      (n : NetworkSummary) (w w' : S.World)
      → Shown n ns
      → label n.labels label_create_nonce ≡ nonce
      → OwnRemovals S nonce ns (S.network_remove n.id w).1 w'
      → OwnRemovals S nonce ns w w'

abbrev pub shown_of : Result (List NetworkSummary) → List NetworkSummary
shown_of (err e) = []
shown_of (ok ns) = ns

module _ (S : Store) (controller_id instance_name nonce : String) where
  -- The job networks of the instance.
  abbrev pub claim_filter : List LabelFilter
  claim_filter =
      has_value label_managed "true"
      ∷ has_value label_controller_id controller_id
      ∷ has_value label_instance_name instance_name
      ∷ has_value label_resource resource_job_network
      ∷ []

  -- A network of the name that the ownership predicate holds of.
  abbrev pub ShowsOurs : String → List NetworkSummary → Type 0
  ShowsOurs name ns =
      (n : NetworkSummary) × Shown n ns
      × (n.name ≡ name)
      × (matches_predicate n.labels controller_id ≡ true)

  -- One list call, and then at most removals of networks that it shows with the nonce.
  abbrev pub CleanedUp : S.World → S.World → Type 0
  CleanedUp w last =
      (fs : List LabelFilter) × OwnRemovals S nonce (shown_of (S.network_list fs w).0)
        (S.network_list fs w).1 last

  -- What a claim's outcome says of the create call, with what it left, and of the last state. `name`
  -- is the claim network's.
  abbrev pub Explains : String → Claim → Result String → S.World → S.World → Type 0
  Explains name (claimed id) made w last = (made ≡ ok id) × (w ≡ last)
  Explains name duplicate_instance made w last =
      (made ≡ err conflict)
      × ((ns : List NetworkSummary) × (S.network_list claim_filter w ≡ (ok ns, last))
          × ShowsOurs name ns)
  Explains name (refused e) made w last = ((id : String) → made ≢ ok id) × CleanedUp w last

  any_ours-ShowsOurs :
      (name : String) (ns : List NetworkSummary)
      → any_ours S controller_id name ns ≡ true
      → ShowsOurs name ns
  any_ours-ShowsOurs name [] h = ground (arith, h)
  any_ours-ShowsOurs name (n ∷ ns) h =
      either (n.name == name) (matches_predicate n.labels controller_id) refl refl
        (λ e. any_ours-ShowsOurs name ns e) h
    where
      later : ShowsOurs name ns → ShowsOurs name (n ∷ ns)
      later (m, at, own, mine) = (m, inr at, own, mine)

      either :
          (a b : Bool)
          → (n.name == name) ≡ a
          → matches_predicate n.labels controller_id ≡ b
          → (any_ours S controller_id name ns ≡ true → ShowsOurs name ns)
          → (a && b || any_ours S controller_id name ns) ≡ true
          → ShowsOurs name (n ∷ ns)
      either true true e f rest h = (n, inl refl, (eq_iff n.name name).0 e, f)
      either true false e f rest h = later (rest h)
      either false b e f rest h = later (rest h)

  only_listed :
      (fs : List LabelFilter) (w last : S.World) (listed : Result (List NetworkSummary))
      → S.network_list fs w ≡ (listed, last)
      → CleanedUp w last
  only_listed fs w last listed h = (
    fs,
    subst
        (λ (r : Result (List NetworkSummary) × S.World).
          OwnRemovals S nonce (shown_of (S.network_list fs w).0) (S.network_list fs w).1 r.1)
        h (done (S.network_list fs w).1),
  )

  ours-Explains :
      (name : String) (listed : Result (List NetworkSummary)) (w last : S.World)
      → S.network_list claim_filter w ≡ (listed, last)
      → Explains name
          (on_conflict S controller_id
            (elim listed [ err e ↦ err e | ok ns ↦ ok (any_ours S controller_id name ns) ]))
          (err conflict)
          w
          last
  ours-Explains name (err e) w last h =
      (λ id k. ground (arith, k), only_listed claim_filter w last (err e) h)
  ours-Explains name (ok ns) w last h =
      either (any_ours S controller_id name ns) (λ e. any_ours-ShowsOurs name ns e)
    where
      either :
          (b : Bool)
          → (b ≡ true → ShowsOurs name ns)
          → Explains name (on_conflict S controller_id (ok b)) (err conflict) w last
      either true seen = (refl, (ns, h, seen refl))
      either false seen = (λ id k. ground (arith, k), only_listed claim_filter w last (ok ns) h)

  remove_own-OwnRemovals :
      (all ns : List NetworkSummary) (w : S.World)
      → ((n : NetworkSummary) → Shown n ns → Shown n all)
      → OwnRemovals S nonce all w (remove_own S controller_id nonce ns w).1
  unfolding remove_own
  remove_own-OwnRemovals all [] w within = done w
  remove_own-OwnRemovals all (n ∷ ns) w within =
      either (label n.labels label_create_nonce == nonce)
        (λ e. (eq_iff (label n.labels label_create_nonce) nonce).0 e)
        (λ v. remove_own-OwnRemovals all ns v (λ m at. within m (inr at)))
    where
      either :
          (b : Bool)
          → (b ≡ true → label n.labels label_create_nonce ≡ nonce)
          → ((v : S.World) → OwnRemovals S nonce all v (remove_own S controller_id nonce ns v).1)
          → OwnRemovals S nonce all w
              (remove_own S controller_id nonce ns (if b then (S.network_remove n.id w).1 else w)).1
      either true own rest = removing n w _ (within n (inl refl)) (own refl) (rest _)
      either false own rest = rest w

  removed_own-OwnRemovals :
      (listed : Result (List NetworkSummary)) (w : S.World)
      → OwnRemovals S nonce (shown_of listed) w (removed_own S controller_id nonce listed w).1
  removed_own-OwnRemovals (err e) w = done w
  removed_own-OwnRemovals (ok ns) w = remove_own-OwnRemovals ns ns w (λ n at. at)

  with_cleanup-Explains :
      (e : Error) (cleanup : Option Error) (name : String) (w last : S.World)
      → CleanedUp w last
      → Explains name (with_cleanup S controller_id e cleanup) (err e) w last
  with_cleanup-Explains e none name w last own = (λ id h. ground (arith, h), own)
  with_cleanup-Explains e (some f) name w last own = (λ id h. ground (arith, h), own)

  cleanup-Explains :
      (e : Error) (name : String) (w : S.World)
      → Explains name
          (with_cleanup S controller_id e
            (best_effort_remove_own_network S controller_id nonce w).0)
          (err e)
          w
          (best_effort_remove_own_network S controller_id nonce w).1
  unfolding best_effort_remove_own_network
  cleanup-Explains e name w = with_cleanup-Explains e _ name w _ (
    filters_for_nonce controller_id nonce,
    removed_own-OwnRemovals (S.network_list (filters_for_nonce controller_id nonce) w).0 _,
  )

  claim_result-Explains :
      (made : Result String) (name : String) (w : S.World)
      → Explains name
          (claim_result S controller_id made name instance_name nonce w).0
          made
          w
          (claim_result S controller_id made name instance_name nonce w).1
  unfolding existing_claim_is_ours instance_scoped_filter
  claim_result-Explains (ok id) name w = (refl, refl)
  claim_result-Explains (err conflict) name w =
      ours-Explains name (S.network_list claim_filter w).0 w (S.network_list claim_filter w).1 refl
  claim_result-Explains (err failed) name w = cleanup-Explains failed name w
  claim_result-Explains (err not_found) name w = cleanup-Explains not_found name w
  claim_result-Explains (err forbidden) name w = cleanup-Explains forbidden name w
  claim_result-Explains (err duplicate) name w = cleanup-Explains duplicate name w
  claim_result-Explains (err instance_not_found) name w = cleanup-Explains instance_not_found name w
  claim_result-Explains (err (both e f)) name w = cleanup-Explains (both e f) name w

-- If a claim succeeds, the create call made the network that it names and was the last call. It is a
-- duplicate only if the create call conflicted and the one list call of the instance's job networks
-- behind it, which was the last call, shows a network of the claim's name that the ownership predicate
-- holds of. If it is refused, the create call returned no network, and what follows it is one list
-- call and then at most removals of networks that this list shows with the claim's own nonce.
pub create_claim_network-Explains :
    (S : Store) (controller_id : String) (identity : AllocationIdentity) (nonce created_at : String)
    (w : S.World)
    → Explains S controller_id identity.instance_name nonce
        (job_network_name identity.instance_name)
        (create_claim_network S controller_id identity nonce created_at w).0
        (S.network_create
          (job_network_name identity.instance_name)
          (claim_labels identity nonce created_at)
          w).0
        (S.network_create
          (job_network_name identity.instance_name)
          (claim_labels identity nonce created_at)
          w).1
        (create_claim_network S controller_id identity nonce created_at w).1
unfolding create_claim_network
create_claim_network-Explains S controller_id identity nonce created_at w =
    claim_result-Explains S controller_id identity.instance_name nonce _ _ _
