-- ===== src/Topology/Teardown/Allocation.antt =====
-- internal/topology/teardown.go: a teardown of one allocation and the generation that its claim
-- network holds (claimNoncesByInstance, liveClaimNonce).
use garm_provider_docker.Base.{
  String, true, List, [], ◌∷◌, some, Labels, All, ◌≡◌, ◌≢◌, inl, inr, sym, subst, arith, label,
  lookup, eq_iff, lookup-with_label, has_label-label,
}
use garm_provider_docker.Base.Texts.Laws.{cons_differs}
use garm_provider_docker.Docker.Filters.{LabelFilter, Satisfies}
use garm_provider_docker.Docker.Client.{
  Kind, network, Resource, Client, ClientLaws, IsNamed, Listed,
}
use garm_provider_docker.Spec.Labels.{
  matches_predicate, label_instance_name, label_create_nonce, label_resource, resource_job_network,
  label_managed, label_controller_id,
}
use garm_provider_docker.Spec.Labels.Laws.{matches_predicate_fields}
use garm_provider_docker.Topology.Teardown.{
  generation, may_remove, instance_scoped_filter, claim_nonces, first_claim, teardown_allocation,
}
use garm_provider_docker.Topology.Teardown.Phase.{run_teardown-Present, Untouched, phase-case}

-- The labels of a claim network of the instance.
abbrev pub IsClaim : String → String → Labels → Type 0
IsClaim controller_id instance_name l =
    (matches_predicate l controller_id ≡ true)
    × (label l label_resource ≡ resource_job_network)
    × (label l label_instance_name ≡ instance_name)

-- An entry that claims the instance holds this generation.
abbrev pub ClaimsFor : String → String → String → Resource → Type 0
ClaimsFor controller_id instance_name gen r =
    IsClaim controller_id instance_name r.labels → label r.labels label_create_nonce ≡ gen

module _ (C : Client) (controller_id instance_name gen : String) where
  claim_nonces-keeps :
      (ns : List Resource) (out : List (String × String))
      → All (ClaimsFor controller_id instance_name gen) ns
      → lookup instance_name out ≡ some gen
      → lookup instance_name (claim_nonces C controller_id out ns) ≡ some gen
  unfolding claim_nonces
  claim_nonces-keeps [] out claims h = h
  claim_nonces-keeps (n ∷ ns) out (c, claims) h = claim_nonces-keeps ns _ claims (
      ground (
        arith,
        lookup-with_label out (label n.labels label_instance_name)
            (label n.labels label_create_nonce) instance_name,
        eq_iff (label n.labels label_instance_name) instance_name,
        eq_iff (label n.labels label_resource) resource_job_network,
      ))

  pub claim_nonces-Listed :
      (ns : List Resource) (out : List (String × String)) (j : String) (l : Labels)
      → instance_name ≢ ""
      → All (ClaimsFor controller_id instance_name gen) ns
      → Listed j l ns
      → IsClaim controller_id instance_name l
      → lookup instance_name (claim_nonces C controller_id out ns) ≡ some gen
  unfolding claim_nonces
  claim_nonces-Listed [] out j l named claims at claim = elim at [ ]
  claim_nonces-Listed (n ∷ ns) out j l named (c, claims) (inr at) claim =
      claim_nonces-Listed ns _ j l named claims at claim
  claim_nonces-Listed (n ∷ ns) out j l named (c, claims) (inl (i, e)) claim =
      let here : IsClaim controller_id instance_name n.labels =
        subst (IsClaim controller_id instance_name) (sym e) claim in
      let (p, k, m) = here in
      claim_nonces-keeps ns _ claims (
        ground (
          arith,
          c here,
          p,
          k,
          m,
          lookup-with_label out (label n.labels label_instance_name)
              (label n.labels label_create_nonce) instance_name,
          eq_iff (label n.labels label_instance_name) "",
          eq_iff (label n.labels label_instance_name) instance_name,
          eq_iff (label n.labels label_resource) resource_job_network,
        ))

  pub first_claim-Listed :
      (ns : List Resource) (j : String) (l : Labels)
      → All (ClaimsFor controller_id instance_name gen) ns
      → All (λ r. label r.labels label_instance_name ≡ instance_name) ns
      → Listed j l ns
      → IsClaim controller_id instance_name l
      → first_claim C controller_id ns ≡ some gen
  unfolding first_claim
  first_claim-Listed [] j l claims same at claim = elim at [ ]
  first_claim-Listed (n ∷ ns) j l (c, claims) (s, same) (inl (i, e)) claim =
      let here : IsClaim controller_id instance_name n.labels =
        subst (IsClaim controller_id instance_name) (sym e) claim in
      let (p, k, m) = here in
      ground (arith, c here, p, k, m, eq_iff (label n.labels label_resource) resource_job_network)
  first_claim-Listed (n ∷ ns) j l (c, claims) (s, same) (inr at) claim = ground (
    arith,
    first_claim-Listed ns j l claims same at claim,
    c,
    s,
    eq_iff (label n.labels label_resource) resource_job_network,
  )

-- What the teardown's filter shows of the instance, of a controller with a name.
pub IsClaim-Satisfies :
    (controller_id instance_name : String) (l : Labels)
    → controller_id ≢ ""
    → instance_name ≢ ""
    → IsClaim controller_id instance_name l
    → Satisfies l (instance_scoped_filter controller_id instance_name)
unfolding instance_scoped_filter matches_predicate
IsClaim-Satisfies controller_id instance_name l named given (p, k, m) =
    let (a, b, c) = matches_predicate_fields l controller_id p in
    (
      has_label-label l label_managed _ a (cons_differs _ _),
      a,
      (
        has_label-label l label_controller_id _ b named,
        b,
        (has_label-label l label_instance_name _ m given, m, tt),
      ),
    )

-- A teardown of an instance keeps each resource that is not this controller's or is of another
-- instance, unless it is a volume that nobody named, whatever the daemon answers and whatever else is
-- created meanwhile.
pub teardown_allocation-keeps_others :
    (C : Client) (L : ClientLaws C) (controller_id instance_name : String) (w : C.World) (J : Kind)
    (j : String) (l : Labels)
    → IsNamed L J j
    → L.view w J j ≡ some l
    → ¬ ((matches_predicate l controller_id ≡ true) × (label l label_instance_name ≡ instance_name))
    → L.view (teardown_allocation C controller_id instance_name w).1 J j ≡ some l
unfolding teardown_allocation may_remove instance_scoped_filter
teardown_allocation-keeps_others C L controller_id instance_name w J j l lasts h other =
    let filters = instance_scoped_filter controller_id instance_name in
    let kept : L.view (C.list network filters w).1 J j ≡ some l =
      L.list_keeps network filters w J j l h in
    phase-case C L controller_id (λ v. L.view v J j ≡ some l) (C.list network filters w).0 _ _ kept
      (λ ns e.
        run_teardown-Present C L controller_id filters
          (generation (claim_nonces C controller_id [] ns)) _ J j l
          (λ (m, v, (c, u, (k, i, e))) w'. ground arith) lasts kept)

pub listed-ClaimsFor :
    (C : Client) (L : ClientLaws C) (controller_id instance_name gen : String)
    (fs : List LabelFilter) (w : C.World) (ns : List Resource)
    → ((k : String) (d : Labels)
        → L.view w network k ≡ some d
        → IsClaim controller_id instance_name d
        → label d label_create_nonce ≡ gen)
    → All (λ r. (L.view w network r.id ≡ some r.labels) × Satisfies r.labels fs) ns
    → All (ClaimsFor controller_id instance_name gen) ns
listed-ClaimsFor C L controller_id instance_name gen fs w [] one sound = tt
listed-ClaimsFor C L controller_id instance_name gen fs w (n ∷ ns) one ((v, s), sound) =
    (one n.id n.labels v, listed-ClaimsFor C L controller_id instance_name gen fs w ns one sound)

generation-Untouched :
    (C : Client) (L : ClientLaws C) (controller_id instance_name gen : String)
    (captured : List (String × String)) (l : Labels)
    → lookup instance_name captured ≡ some gen
    → label l label_create_nonce ≢ gen
    → Untouched C L controller_id
        (generation captured)
        (instance_scoped_filter controller_id instance_name)
        l
unfolding may_remove instance_scoped_filter
generation-Untouched C L controller_id instance_name gen captured l at other
      (m, v, (c, u, (k, i, e))) w =
    ground (
      arith,
      subst (λ x. lookup x captured ≡ some gen) (sym i) at,
      eq_iff (label l label_create_nonce) gen,
    )

-- If, as the teardown of a named instance by a controller with an id starts, the instance has a claim network, and all of its
-- claim networks then hold the create nonce `gen`, the teardown keeps each resource that
-- is there as it starts with another create nonce, unless it is a volume that nobody named.
pub teardown_allocation-keeps_generation :
    (C : Client) (L : ClientLaws C) (controller_id instance_name gen : String) (w : C.World)
    (i : String) (c : Labels)
    → controller_id ≢ ""
    → instance_name ≢ ""
    → L.view w network i ≡ some c
    → IsClaim controller_id instance_name c
    → ((k : String) (d : Labels)
        → L.view (C.list network (instance_scoped_filter controller_id instance_name) w).1 network k
          ≡ some d
        → IsClaim controller_id instance_name d
        → label d label_create_nonce ≡ gen)
    → (J : Kind) (j : String) (l : Labels) → IsNamed L J j
    → L.view w J j ≡ some l
    → label l label_create_nonce ≢ gen
    → L.view (teardown_allocation C controller_id instance_name w).1 J j ≡ some l
unfolding teardown_allocation
teardown_allocation-keeps_generation C L controller_id instance_name gen w i c named given at claim
      one J j l lasts h other =
    let filters = instance_scoped_filter controller_id instance_name in
    let kept : L.view (C.list network filters w).1 J j ≡ some l =
      L.list_keeps network filters w J j l h in
    phase-case C L controller_id (λ v. L.view v J j ≡ some l) (C.list network filters w).0 _ _ kept
      (λ ns e.
        let captured : lookup instance_name (claim_nonces C controller_id [] ns) ≡ some gen =
          claim_nonces-Listed C controller_id instance_name gen ns [] i c given
            (listed-ClaimsFor C L controller_id instance_name gen filters _ ns one
              (L.list_sound network filters w ns e))
            (L.list_complete network filters w ns e i c at
              (IsClaim-Satisfies controller_id instance_name c named given claim))
            claim in
        run_teardown-Present C L controller_id filters
          (generation (claim_nonces C controller_id [] ns)) _ J j l
          (generation-Untouched C L controller_id instance_name gen _ l captured other) lasts kept)
