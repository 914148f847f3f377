-- ===== src/Topology/Teardown/Gone.antt =====
-- internal/topology/teardown.go: a teardown that returns no error has removed what it is for.
use garm_provider_docker.Base.{
  String, true, List, [], ◌∷◌, none, some, Labels, Result, ok, err, ◌≡◌, ◌≢◌, refl, arith, All,
  label, eq_iff, has_label-label,
}
use garm_provider_docker.Base.Texts.{has_prefix, strip_prefix}
use garm_provider_docker.Base.Texts.Laws.{cons_differs}
use garm_provider_docker.Docker.Filters.{LabelFilter, Satisfies}
use garm_provider_docker.Docker.Client.{
  Kind, container, network, volume, Resource, Client, ClientLaws, Undisturbed, Listed, IsNamed,
  labelled-IsNamed,
}
use garm_provider_docker.Spec.Labels.{
  matches_predicate, label_instance_name, label_create_nonce, label_managed, label_controller_id,
}
use garm_provider_docker.Spec.Labels.Laws.{matches_predicate_fields}
use garm_provider_docker.Topology.Teardown.{
  TeardownScope, exact, all, may_remove, remove_each, remove_kind, run_teardown, in_order, phase,
  joined, and_then, match_predicate_filters, instance_scoped_filter, instance_scoped_nonce_filter,
  teardown_all, rollback,
}
use garm_provider_docker.Topology.Teardown.Complete.{
  Condemned, Absent, remove_kind-Absent, remove_each-Condemned, in_order-Listed, joined_empty,
  append_empty,
}
use garm_provider_docker.Topology.Teardown.Phase.{
  remove_each-Present, Harmless, phase-case, in_order-All,
}

module _ (C : Client) (L : ClientLaws C) (Q : Undisturbed C L) (controller_id : String) where
  -- A phase of a kind that returns no error has removed each resource of that kind that it may.
  phase-Condemned :
      (scope : TeardownScope) (K : Kind) (listed : Result (List Resource)) (w : C.World)
      (j : String) (l : Labels)
      → Condemned C L Q controller_id scope l
      → ((rs : List Resource) → listed ≡ ok rs → Listed j l rs)
      → ((phase C controller_id listed w (λ rs. (
        joined (remove_each C controller_id scope K (in_order C controller_id K rs) w).0,
        (remove_each C controller_id scope K (in_order C controller_id K rs) w).1,
      ))).0
        ).errs
        ≡ []
      → Absent C L Q controller_id K j
          (phase C controller_id listed w (λ rs. (
            joined (remove_each C controller_id scope K (in_order C controller_id K rs) w).0,
            (remove_each C controller_id scope K (in_order C controller_id K rs) w).1,
          ))).1
  phase-Condemned scope K (err e) w j l doom at h = ground (arith, h)
  phase-Condemned scope K (ok rs) w j l doom at h =
      remove_each-Condemned C L Q controller_id scope K _ w j l doom
        (in_order-Listed C L Q controller_id K j l rs (at rs refl))
        (joined_empty (remove_each C controller_id scope K (in_order C controller_id K rs) w).0 h)

  remove_kind-Condemned :
      (scope : TeardownScope) (fs : List LabelFilter) (K : Kind) (w : C.World) (j : String)
      (l : Labels)
      → Condemned C L Q controller_id scope l
      → Satisfies l fs
      → L.view w K j ≡ some l
      → ((remove_kind C controller_id scope fs K w).0).errs ≡ []
      → Absent C L Q controller_id K j (remove_kind C controller_id scope fs K w).1
  unfolding remove_kind
  remove_kind-Condemned scope fs K w j l doom s at h =
      phase-Condemned scope K (C.list K fs w).0 _ j l doom
        (λ rs e. L.list_complete K fs w rs e j l at s) h

  every_entry : (P : Resource → Type 0) (rs : List Resource) → ((r : Resource) → P r) → All P rs
  every_entry P [] p = tt
  every_entry P (r ∷ rs) p = (p r, every_entry P rs p)

  -- A phase keeps the resources of other kinds.
  remove_kind-Present_other :
      (scope : TeardownScope) (fs : List LabelFilter) (K : Kind) (w : C.World) (J : Kind)
      (j : String) (l : Labels)
      → K ≢ J
      → IsNamed L J j
      → L.view w J j ≡ some l
      → L.view (remove_kind C controller_id scope fs K w).1 J j ≡ some l
  unfolding remove_kind
  remove_kind-Present_other scope fs K w J j l differ lasts h =
      let kept : L.view (C.list K fs w).1 J j ≡ some l = L.list_keeps K fs w J j l h in
      phase-case C L controller_id (λ v. L.view v J j ≡ some l) (C.list K fs w).0 _ _ kept
        (λ rs e.
          remove_each-Present C L controller_id scope K _ _ J j l
            (in_order-All C L controller_id (λ (r : Resource). L.is_id K r.id ≡ true) K rs
              (L.list_ids K fs w rs e))
            lasts
            (every_entry (Harmless C L controller_id scope K J j l) _ (λ r k. elim (differ k) [ ]))
            kept)

  pub run_teardown-Condemned :
      (fs : List LabelFilter) (scope : TeardownScope) (w : C.World) (J : Kind) (j : String)
      (l : Labels)
      → Condemned C L Q controller_id scope l
      → Satisfies l fs
      → IsNamed L J j
      → L.view w J j ≡ some l
      → ((run_teardown C controller_id fs scope w).0).errs ≡ []
      → L.view (run_teardown C controller_id fs scope w).1 J j ≡ none
  unfolding run_teardown
  run_teardown-Condemned fs scope w J j l doom s lasts at h =
      let (c0, w1) = remove_kind C controller_id scope fs container w in
      let (v0, w2) = remove_kind C controller_id scope fs volume w1 in
      let (n0, w3) = remove_kind C controller_id scope fs network w2 in
      let (c, vn) = append_empty _ _ (joined_empty (and_then c0 (and_then v0 n0)) h) in
      let (v, n) = append_empty _ _ vn in each_kind J lasts at c v n
    where
      each_kind :
          (J : Kind)
          → IsNamed L J j
          → L.view w J j ≡ some l
          → ((remove_kind C controller_id scope fs container w).0).errs ≡ []
          → ((remove_kind C controller_id scope fs volume
              (remove_kind C controller_id scope fs container w).1).0
            ).errs
            ≡ []
          → ((remove_kind C controller_id scope fs network
              (remove_kind C controller_id scope fs volume
                (remove_kind C controller_id scope fs container w).1).1).0
            ).errs
            ≡ []
          → L.view
              (remove_kind C controller_id scope fs network
                (remove_kind C controller_id scope fs volume
                  (remove_kind C controller_id scope fs container w).1).1).1
              J
              j
            ≡ none
      each_kind container lasts at c v n =
          remove_kind-Absent C L Q controller_id scope fs network _ container j (
            remove_kind-Absent C L Q controller_id scope fs volume _ container j
              (remove_kind-Condemned scope fs container w j l doom s at c))
      each_kind volume lasts at c v n =
          remove_kind-Absent C L Q controller_id scope fs network _ volume j (
            remove_kind-Condemned scope fs volume _ j l doom s
              (remove_kind-Present_other scope fs container w volume j l (λ e. cc e) lasts at) v)
      each_kind network lasts at c v n =
          remove_kind-Condemned scope fs network _ j l doom s
            (remove_kind-Present_other scope fs volume _ network j l (λ e. cc e) lasts
              (remove_kind-Present_other scope fs container w network j l (λ e. cc e) lasts at))
            n

-- If nobody else creates resources and TeardownAll returns no error, each of the resources that the
-- ownership predicate of a controller with an id holds of is gone.
pub teardown_all_complete :
    (C : Client) (L : ClientLaws C) (Q : Undisturbed C L) (controller_id : String) (w : C.World)
    (J : Kind) (j : String) (l : Labels)
    → controller_id ≢ ""
    → L.view w J j ≡ some l
    → matches_predicate l controller_id ≡ true
    → ((teardown_all C controller_id w).0).errs ≡ []
    → L.view (teardown_all C controller_id w).1 J j ≡ none
unfolding teardown_all may_remove match_predicate_filters has_prefix strip_prefix
teardown_all_complete C L Q controller_id w J j l named at own h =
    let (a, b, c) = matches_predicate_fields l controller_id own in
    run_teardown-Condemned C L Q controller_id (match_predicate_filters controller_id) all w J j l
      (λ w'. ground arith)
      (
        has_label-label l label_managed _ a (cons_differs _ _),
        a,
        (has_label-label l label_controller_id _ b named, b, (c, tt)),
      )
      (labelled-IsNamed C L w J j label_managed l at refl
        (λ e. ground (arith, a, e, eq_iff "" "true")))
      at h

-- If nobody else creates resources and Rollback returns no error, each of this controller's
-- resources of the instance that carry the attempt's create nonce is gone. The controller's id, the
-- instance's name and the nonce are not empty.
pub rollback_complete :
    (C : Client) (L : ClientLaws C) (Q : Undisturbed C L)
    (controller_id instance_name nonce : String) (w : C.World) (J : Kind) (j : String) (l : Labels)
    → controller_id ≢ ""
    → instance_name ≢ ""
    → nonce ≢ ""
    → L.view w J j ≡ some l
    → matches_predicate l controller_id ≡ true
    → label l label_instance_name ≡ instance_name
    → label l label_create_nonce ≡ nonce
    → ((rollback C controller_id instance_name nonce w).0).errs ≡ []
    → L.view (rollback C controller_id instance_name nonce w).1 J j ≡ none
unfolding rollback may_remove instance_scoped_nonce_filter instance_scoped_filter has_prefix
    strip_prefix
rollback_complete C L Q controller_id instance_name nonce w J j l named given fresh at own i n h =
    let (a, b, c) = matches_predicate_fields l controller_id own in
    run_teardown-Condemned C L Q controller_id
      (instance_scoped_nonce_filter controller_id instance_name nonce) (exact nonce) w J j l
      (λ w'. ground (arith, eq_iff (label l label_create_nonce) nonce))
      (
        has_label-label l label_managed _ a (cons_differs _ _),
        a,
        (
          has_label-label l label_controller_id _ b named,
          b,
          (
            has_label-label l label_instance_name _ i given,
            i,
            (has_label-label l label_create_nonce _ n fresh, n, tt),
          ),
        ),
      )
      (labelled-IsNamed C L w J j label_managed l at refl
        (λ e. ground (arith, a, e, eq_iff "" "true")))
      at h
