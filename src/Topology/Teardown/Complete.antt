-- ===== src/Topology/Teardown/Complete.antt =====
-- internal/topology/teardown.go: what is gone when a teardown returns no error.
use garm_provider_docker.Base.{
  Option-cases, String, Bool, true, false, List, [], ◌∷◌, ◌++◌, none, some, Labels, Result, ok, err,
  Error, not_found, join, ◌≡◌, ◌≢◌, ◌⊎◌, inl, inr, refl, sym, subst, arith, label,
}
use garm_provider_docker.Docker.Filters.{LabelFilter, has_value}
use garm_provider_docker.Docker.Client.{
  Kind, container, network, volume, Resource, Client, ClientLaws, Undisturbed, Listed,
}
use garm_provider_docker.Spec.Labels.{label_instance_name, label_resource, resource_job_network}
use garm_provider_docker.Topology.Teardown.{
  TeardownScope, may_remove, live_claim_nonce, force_remove, remove_one, remove_each, remove_kind,
  insert_by_rank, sort_by_rank, in_order, gated, removed, joined, Outcome, instance_scoped_filter,
}
use garm_provider_docker.Topology.Teardown.Phase.{gated-case, phase-case}

Listed-insert_by_rank :
    (j : String) (l : Labels) (r : Resource) (rs : List Resource)
    → Listed j l (r ∷ rs)
    → Listed j l (insert_by_rank r rs)
unfolding insert_by_rank
Listed-insert_by_rank j l r [] at = at
Listed-insert_by_rank j l r (s ∷ rs) (inl here) =
    ground (arith, Listed-insert_by_rank j l r rs (inl here), here)
Listed-insert_by_rank j l r (s ∷ rs) (inr (inl there)) = ground (arith, there)
Listed-insert_by_rank j l r (s ∷ rs) (inr (inr at)) =
    ground (arith, Listed-insert_by_rank j l r rs (inr at), at)

Listed-sort_by_rank :
    (j : String) (l : Labels) (rs : List Resource) → Listed j l rs → Listed j l (sort_by_rank rs)
unfolding sort_by_rank
Listed-sort_by_rank j l [] at = at
Listed-sort_by_rank j l (r ∷ rs) (inl here) =
    Listed-insert_by_rank j l r (sort_by_rank rs) (inl here)
Listed-sort_by_rank j l (r ∷ rs) (inr at) =
    Listed-insert_by_rank j l r (sort_by_rank rs) (inr (Listed-sort_by_rank j l rs at))

pub append_empty : (xs ys : List Error) → xs ++ ys ≡ [] → (xs ≡ []) × (ys ≡ [])
append_empty [] ys h = (refl, h)
append_empty (x ∷ xs) ys h = ground arith

pub joined_empty : (o : Outcome) → (joined o).errs ≡ [] → o.errs ≡ []
joined_empty o h = no_errors o.errs h
  where
    no_errors : (es : List Error) → elim (join es) [ none ↦ [] | some e ↦ e ∷ [] ] ≡ [] → es ≡ []
    no_errors [] h = refl
    no_errors (e ∷ es) h = ground (arith, Option-cases (join es))

removed_empty : (r : Result (Unit {0})) → (removed r).errs ≡ [] → (r ≡ ok tt) ⊎ (r ≡ err not_found)
removed_empty (ok u) h = inl refl
removed_empty (err not_found) h = inr refl
removed_empty (err e) h = ground arith

module _ (C : Client) (L : ClientLaws C) (Q : Undisturbed C L) (controller_id : String) where
  abbrev pub Absent : Kind → String → C.World → Type 0
  Absent J j w = L.view w J j ≡ none

  pub may_remove-Absent :
      (scope : TeardownScope) (x : Labels) (w : C.World) (J : Kind) (j : String)
      → Absent J j w
      → Absent J j (may_remove C controller_id scope x w).1
  unfolding may_remove live_claim_nonce
  may_remove-Absent scope x w J j h = ground (
    arith,
    Q.list_quiet network
        (instance_scoped_filter controller_id (label x label_instance_name)
          ++ has_value label_resource resource_job_network ∷ [])
        w J j h,
  )

  pub force_remove-Absent :
      (K : Kind) (i : String) (w : C.World) (J : Kind) (j : String)
      → Absent J j w
      → Absent J j (force_remove C controller_id K i w).1
  unfolding force_remove
  force_remove-Absent container i w J j h =
      Q.remove_with_volumes_quiet i (C.stop i w).1 J j (Q.stop_quiet i w J j h)
  force_remove-Absent network i w J j h = Q.remove_quiet network i w J j h
  force_remove-Absent volume i w J j h = Q.remove_quiet volume i w J j h

  pub remove_one-Absent :
      (scope : TeardownScope) (K : Kind) (r : Resource) (w : C.World) (J : Kind) (j : String)
      → Absent J j w
      → Absent J j (remove_one C controller_id scope K r w).1
  unfolding remove_one
  remove_one-Absent scope K r w J j h =
      let kept : Absent J j (may_remove C controller_id scope r.labels w).1 =
        may_remove-Absent scope r.labels w J j h in
      gated-case C L controller_id (Absent J j) (may_remove C controller_id scope r.labels w).0 _ _
        kept (λ e. force_remove-Absent K r.id _ J j kept)

  pub remove_each-Absent :
      (scope : TeardownScope) (K : Kind) (rs : List Resource) (w : C.World) (J : Kind) (j : String)
      → Absent J j w
      → Absent J j (remove_each C controller_id scope K rs w).1
  unfolding remove_each
  remove_each-Absent scope K [] w J j h = h
  remove_each-Absent scope K (r ∷ rs) w J j h =
      remove_each-Absent scope K rs _ J j (remove_one-Absent scope K r w J j h)

  pub remove_kind-Absent :
      (scope : TeardownScope) (fs : List LabelFilter) (K : Kind) (w : C.World) (J : Kind)
      (j : String)
      → Absent J j w
      → Absent J j (remove_kind C controller_id scope fs K w).1
  unfolding remove_kind
  remove_kind-Absent scope fs K w J j h =
      let kept : Absent J j (C.list K fs w).1 = Q.list_quiet K fs w J j h in
      phase-case C L controller_id (Absent J j) (C.list K fs w).0 _ _ kept
        (λ rs e. remove_each-Absent scope K _ _ J j kept)

  -- The gate lets a resource with these labels be removed, or fails.
  abbrev pub Condemned : TeardownScope → Labels → Type 0
  Condemned scope l = (w : C.World) → (may_remove C controller_id scope l w).0 ≢ ok false

  gated-Condemned :
      (K : Kind) (i : String) (may : Result Bool) (w : C.World)
      → may ≢ ok false
      → ((gated C controller_id may w (
        removed (force_remove C controller_id K i w).0,
        (force_remove C controller_id K i w).1,
      )).0
        ).errs
        ≡ []
      → Absent K i
          (gated C controller_id may w (
            removed (force_remove C controller_id K i w).0,
            (force_remove C controller_id K i w).1,
          )).1
  unfolding force_remove
  gated-Condemned K i (err e) w doom h = ground (arith, h)
  gated-Condemned K i (ok false) w doom h = elim (doom refl) [ ]
  gated-Condemned container i (ok true) w doom h =
      L.remove_with_volumes_gone i _ (removed_empty _ h)
  gated-Condemned network i (ok true) w doom h = L.remove_gone network i _ (removed_empty _ h)
  gated-Condemned volume i (ok true) w doom h = L.remove_gone volume i _ (removed_empty _ h)

  pub remove_each-Condemned :
      (scope : TeardownScope) (K : Kind) (rs : List Resource) (w : C.World) (j : String)
      (l : Labels)
      → Condemned scope l
      → Listed j l rs
      → ((remove_each C controller_id scope K rs w).0).errs ≡ []
      → Absent K j (remove_each C controller_id scope K rs w).1
  unfolding remove_each remove_one
  remove_each-Condemned scope K [] w j l doom at h = elim at [ ]
  remove_each-Condemned scope K (r ∷ rs) w j l doom (inl (i, e)) h =
      remove_each-Absent scope K rs _ K j (
        subst (λ x. Absent K x (remove_one C controller_id scope K r w).1) i
          (gated-Condemned K r.id (may_remove C controller_id scope r.labels w).0 _
            (subst (λ x. (may_remove C controller_id scope x w).0 ≢ ok false) (sym e) (doom w))
            (append_empty _ _ h).0))
  remove_each-Condemned scope K (r ∷ rs) w j l doom (inr at) h =
      remove_each-Condemned scope K rs _ j l doom at (append_empty _ _ h).1

  pub in_order-Listed :
      (K : Kind) (j : String) (l : Labels) (rs : List Resource)
      → Listed j l rs
      → Listed j l (in_order C controller_id K rs)
  in_order-Listed container j l rs at = Listed-sort_by_rank j l rs at
  in_order-Listed network j l rs at = at
  in_order-Listed volume j l rs at = at
