-- ===== src/Topology/Teardown/Generation.antt =====
-- internal/topology/teardown.go: a teardown of one allocation that returns no error has removed the
-- generation that held the claim network; a generation that claims the name later is spared.
use garm_provider_docker.Base.{
  String, true, List, [], ◌∷◌, ◌++◌, none, some, Labels, Result, ok, err, ◌≡◌, ◌≢◌, refl, sym,
  subst, arith, All, label, eq_iff, has_label-label, lookup, eq_refl,
}
use garm_provider_docker.Base.Texts.{has_prefix, strip_prefix}
use garm_provider_docker.Base.Texts.Laws.{cons_differs}
use garm_provider_docker.Docker.Filters.{LabelFilter, Satisfies, has_value}
use garm_provider_docker.Docker.Client.{
  Kind, network, Resource, Client, ClientLaws, Undisturbed, labelled-IsNamed,
}
use garm_provider_docker.Spec.Labels.{
  matches_predicate, label_instance_name, label_create_nonce, label_managed, label_controller_id,
  label_resource, resource_job_network,
}
use garm_provider_docker.Spec.Labels.Laws.{matches_predicate_fields}
use garm_provider_docker.Topology.Teardown.{
  generation, may_remove, phase, Outcome, instance_scoped_filter, teardown_allocation, claim_nonces,
  unclaimed, live_claim_nonce, first_claim,
}
use garm_provider_docker.Topology.Teardown.Gone.{run_teardown-Condemned}
use garm_provider_docker.Topology.Teardown.Allocation.{
  IsClaim, IsClaim-Satisfies, claim_nonces-Listed, listed-ClaimsFor, first_claim-Listed,
}

phase_ok :
    (C : Client) (controller_id : String) (P : C.World → Type 0) (listed : Result (List Resource))
    (w : C.World) (k : List Resource → Outcome × C.World)
    → ((phase C controller_id listed w k).0).errs ≡ []
    → ((rs : List Resource) → listed ≡ ok rs → ((k rs).0).errs ≡ [] → P (k rs).1)
    → P (phase C controller_id listed w k).1
phase_ok C controller_id P (err e) w k h q = ground (arith, h)
phase_ok C controller_id P (ok rs) w k h q = q rs refl h

-- If nobody else creates resources, the controller's id and the instance's name are not empty, the
-- instance has a claim network as its teardown starts, all of its claim networks then hold the
-- create nonce `gen`, and the teardown returns no error, each of this controller's resources of the
-- instance that were there at the start and carry that nonce is gone.
pub teardown_allocation_complete :
    (C : Client) (L : ClientLaws C) (Q : Undisturbed C L) (controller_id instance_name gen : String)
    (w : C.World) (i : String) (c : Labels)
    → controller_id ≢ ""
    → instance_name ≢ ""
    → L.view w network i ≡ some c
    → IsClaim controller_id instance_name c
    → ((k : String) (d : Labels)
        → L.view (C.list network (instance_scoped_filter controller_id instance_name) w).1 network k
          ≡ some d
        → IsClaim controller_id instance_name d
        → label d label_create_nonce ≡ gen)
    → (J : Kind) (j : String) (l : Labels) → L.view w J j ≡ some l
    → matches_predicate l controller_id ≡ true
    → label l label_instance_name ≡ instance_name
    → label l label_create_nonce ≡ gen
    → ((teardown_allocation C controller_id instance_name w).0).errs ≡ []
    → L.view (teardown_allocation C controller_id instance_name w).1 J j ≡ none
unfolding teardown_allocation may_remove instance_scoped_filter has_prefix strip_prefix
teardown_allocation_complete C L Q controller_id instance_name gen w i c named given at claim one J
      j l here own mine n h =
    let filters = instance_scoped_filter controller_id instance_name in
    let (a, b, d) = matches_predicate_fields l controller_id own in
    phase_ok C controller_id (λ v. L.view v J j ≡ none) (C.list network filters w).0 _ _ h
      (λ ns e done.
        let captured : lookup instance_name (claim_nonces C controller_id [] ns) ≡ some gen =
          claim_nonces-Listed C controller_id instance_name gen ns [] i c given
            (listed-ClaimsFor C L controller_id instance_name gen filters _ ns one
              (L.list_sound network filters w ns e))
            (L.list_complete network filters w ns e i c at
              (IsClaim-Satisfies controller_id instance_name c named given claim))
            claim in
        run_teardown-Condemned C L Q controller_id filters
          (generation (claim_nonces C controller_id [] ns)) _ J j l
          (λ w'. ground (
            arith,
            subst (λ x. lookup x (claim_nonces C controller_id [] ns) ≡ some gen) (sym mine)
                captured,
            eq_iff (label l label_create_nonce) gen,
          ))
          (
            has_label-label l label_managed _ a (cons_differs _ _),
            a,
            (
              has_label-label l label_controller_id _ b named,
              b,
              (has_label-label l label_instance_name _ mine given, mine, tt),
            ),
          )
          (labelled-IsNamed C L w J j label_managed l here refl
            (λ z. ground (arith, a, z, eq_iff "" "true")))
          (L.list_keeps network filters w J j l here) done)

claims_of :
    (C : Client) (L : ClientLaws C) (controller_id instance_name : String) (w : C.World)
    (ns : List Resource)
    → All
        (λ r.
          (L.view w network r.id ≡ some r.labels)
          × Satisfies r.labels (
              instance_scoped_filter controller_id instance_name
              ++ has_value label_resource resource_job_network ∷ []))
        ns
    → All (λ r. label r.labels label_instance_name ≡ instance_name) ns
unfolding instance_scoped_filter
claims_of C L controller_id instance_name w [] sound = tt
claims_of C L controller_id instance_name w (n ∷ ns) ((v, (m, u, (c, d, (k, i, r)))), sound) =
    (i, claims_of C L controller_id instance_name w ns sound)

spares-case :
    (C : Client) (controller_id nonce : String) (listed : Result (List Resource))
    → nonce ≢ ""
    → ((ns : List Resource) → listed ≡ ok ns → first_claim C controller_id ns ≡ some nonce)
    → unclaimed C controller_id nonce
        (elim listed [ ok ns ↦ ok (first_claim C controller_id ns) | err e ↦ err e ])
      ≢ ok true
spares-case C controller_id nonce (err e) fresh seen = ground arith
spares-case C controller_id nonce (ok ns) fresh seen =
    ground (arith, seen ns refl, eq_iff nonce "", eq_refl nonce)

-- What the filters of liveClaimNonce show of the instance.
live_filters : String → String → List LabelFilter
live_filters controller_id instance_name =
    instance_scoped_filter controller_id instance_name
    ++ has_value label_resource resource_job_network ∷ []

live-Satisfies :
    (controller_id instance_name : String) (l : Labels)
    → controller_id ≢ ""
    → instance_name ≢ ""
    → IsClaim controller_id instance_name l
    → Satisfies l (live_filters controller_id instance_name)
unfolding live_filters instance_scoped_filter
live-Satisfies controller_id instance_name l named given (p, k, m) =
    let (a, b, c) = matches_predicate_fields l controller_id p in
    (
      has_label-label l label_managed _ a (cons_differs _ _),
      a,
      (
        has_label-label l label_controller_id _ b named,
        b,
        (
          has_label-label l label_instance_name _ m given,
          m,
          (has_label-label l label_resource _ k (cons_differs _ _), k, tt),
        ),
      ),
    )

-- A teardown that found no claim network of a resource's instance as it started never removes the
-- resource if a generation with the resource's create nonce has claimed the name since: if, when the
-- decision is made, a claim network of the instance is there, all of those then seen hold the
-- resource's nonce, and the controller's id, the instance's name and the nonce are not empty, the
-- gate does not let the resource be removed.
pub may_remove-spares_claim :
    (C : Client) (L : ClientLaws C) (controller_id : String) (w : C.World) (i : String) (c : Labels)
    (captured : List (String × String)) (l : Labels)
    → controller_id ≢ ""
    → label l label_instance_name ≢ ""
    → label l label_create_nonce ≢ ""
    → lookup (label l label_instance_name) captured ≡ none
    → L.view w network i ≡ some c
    → IsClaim controller_id (label l label_instance_name) c
    → ((k : String) (d : Labels)
        → L.view (live_claim_nonce C controller_id (label l label_instance_name) w).1 network k
          ≡ some d
        → IsClaim controller_id (label l label_instance_name) d
        → label d label_create_nonce ≡ label l label_create_nonce)
    → (may_remove C controller_id (generation captured) l w).0 ≢ ok true
unfolding may_remove live_claim_nonce live_filters
may_remove-spares_claim C L controller_id w i c captured l named given fresh uncaptured at claim
      one =
    let instance_name = label l label_instance_name in
    let nonce = label l label_create_nonce in
    let filters = live_filters controller_id instance_name in
    let seen : (ns : List Resource)
        → (C.list network filters w).0 ≡ ok ns
        → first_claim C controller_id ns ≡ some nonce =
      λ ns e.
        first_claim-Listed C controller_id instance_name nonce ns i c
          (listed-ClaimsFor C L controller_id instance_name nonce filters _ ns one
            (L.list_sound network filters w ns e))
          (claims_of C L controller_id instance_name _ ns (L.list_sound network filters w ns e))
          (L.list_complete network filters w ns e i c at
            (live-Satisfies controller_id instance_name c named given claim))
          claim in
    ground
      (arith, uncaptured, spares-case C controller_id nonce (C.list network filters w).0 fresh seen)
