-- ===== src/Topology/Teardown/Phase.antt =====
-- internal/topology/teardown.go: what one phase of a teardown keeps.
use garm_provider_docker.Base.{
  String, Bool, true, false, List, [], ◌∷◌, ◌++◌, some, Labels, Result, ok, err, All, ◌≡◌, ◌≢◌,
  refl, sym, ◌∙◌, arith, label, subst, ap,
}
use garm_provider_docker.Docker.Filters.{LabelFilter, has_value, Satisfies}
use garm_provider_docker.Docker.Client.{
  Kind, container, network, volume, Resource, Client, ClientLaws, IsNamed,
}
use garm_provider_docker.Spec.Labels.{label_instance_name, label_resource, resource_job_network}
use garm_provider_docker.Topology.Teardown.{
  TeardownScope, may_remove, live_claim_nonce, force_remove, remove_one, remove_each, remove_kind,
  run_teardown, sort_by_rank, insert_by_rank, in_order, gated, phase, instance_scoped_filter,
  Outcome,
}

pub All-insert_by_rank :
    (P : Resource → Type 0) (r : Resource) (rs : List Resource)
    → P r
    → All P rs
    → All P (insert_by_rank r rs)
unfolding insert_by_rank
All-insert_by_rank P r [] p ps = (p, tt)
All-insert_by_rank P r (s ∷ rs) p (q, ps) = ground (arith, All-insert_by_rank P r rs p ps)

pub All-sort_by_rank :
    (P : Resource → Type 0) (rs : List Resource) → All P rs → All P (sort_by_rank rs)
unfolding sort_by_rank
All-sort_by_rank P [] ps = tt
All-sort_by_rank P (r ∷ rs) (p, ps) =
    All-insert_by_rank P r (sort_by_rank rs) p (All-sort_by_rank P rs ps)

some_injective : {a b : Labels} → some a ≡ some b → a ≡ b
some_injective {a} {b} e = cc e

module _ (C : Client) (L : ClientLaws C) (controller_id : String) where
  abbrev pub Present : Kind → String → Labels → C.World → Type 0
  Present J j l w = L.view w J j ≡ some l

  -- The gate never lets a resource with these labels be removed.
  abbrev pub Spared : TeardownScope → Labels → Type 0
  Spared scope l = (w : C.World) → (may_remove C controller_id scope l w).0 ≢ ok true

  pub may_remove-Present :
      (scope : TeardownScope) (x : Labels) (w : C.World) (J : Kind) (j : String) (l : Labels)
      → Present J j l w
      → Present J j l (may_remove C controller_id scope x w).1
  unfolding may_remove live_claim_nonce
  may_remove-Present scope x w J j l h = ground (
    arith,
    L.list_keeps network
        (instance_scoped_filter controller_id (label x label_instance_name)
          ++ has_value label_resource resource_job_network ∷ [])
        w J j l h,
  )

  pub force_remove-Present :
      (K : Kind) (i : String) (w : C.World) (J : Kind) (j : String) (l : Labels)
      → L.is_id K i ≡ true
      → IsNamed L J j
      → Present J j l w
      → ¬ ((K ≡ J) × (i ≡ j))
      → Present J j l (force_remove C controller_id K i w).1
  unfolding force_remove
  force_remove-Present container i w J j l id lasts h apart =
      L.remove_with_volumes_keeps i (C.stop i w).1 J j l id lasts (L.stop_keeps i w J j l h) apart
  force_remove-Present network i w J j l id lasts h apart =
      L.remove_keeps network i w J j l id h apart
  force_remove-Present volume i w J j l id lasts h apart =
      L.remove_keeps volume i w J j l id h apart

  pub gated-case :
      (P : C.World → Type 0) (may : Result Bool) (w : C.World) (o : Outcome × C.World)
      → P w
      → (may ≡ ok true → P o.1)
      → P (gated C controller_id may w o).1
  gated-case P (err e) w o p q = p
  gated-case P (ok false) w o p q = p
  gated-case P (ok true) w o p q = q refl

  -- A resource at `j` with labels `l`, when it is the one that an entry names.
  abbrev pub Harmless : TeardownScope → Kind → Kind → String → Labels → Resource → Type 0
  Harmless scope K J j l r = (K ≡ J) → (r.id ≡ j) → (r.labels ≡ l) × Spared scope l

  pub remove_one-Present :
      (scope : TeardownScope) (K : Kind) (r : Resource) (w : C.World) (J : Kind) (j : String)
      (l : Labels)
      → L.is_id K r.id ≡ true
      → IsNamed L J j
      → Harmless scope K J j l r
      → Present J j l w
      → Present J j l (remove_one C controller_id scope K r w).1
  unfolding remove_one
  remove_one-Present scope K r w J j l id lasts harmless h =
      let kept : Present J j l (may_remove C controller_id scope r.labels w).1 =
        may_remove-Present scope r.labels w J j l h in
      gated-case (Present J j l) (may_remove C controller_id scope r.labels w).0 _ _ kept (λ e.
        force_remove-Present K r.id (may_remove C controller_id scope r.labels w).1 J j l id lasts
          kept
          (λ (k, i).
            let (same, spared) = harmless k i in
            spared w (subst (λ x. (may_remove C controller_id scope x w).0 ≡ ok true) same e)))

  pub remove_each-Present :
      (scope : TeardownScope) (K : Kind) (rs : List Resource) (w : C.World) (J : Kind) (j : String)
      (l : Labels)
      → All (λ (r : Resource). L.is_id K r.id ≡ true) rs
      → IsNamed L J j
      → All (Harmless scope K J j l) rs
      → Present J j l w
      → Present J j l (remove_each C controller_id scope K rs w).1
  unfolding remove_each
  remove_each-Present scope K [] w J j l ids lasts harmless h = h
  remove_each-Present scope K (r ∷ rs) w J j l (id, ids) lasts (s, harmless) h =
      remove_each-Present scope K rs (remove_one C controller_id scope K r w).1 J j l ids lasts
        harmless (remove_one-Present scope K r w J j l id lasts s h)

  -- A resource that the filters do not show, or that the gate spares.
  abbrev pub Untouched : TeardownScope → List LabelFilter → Labels → Type 0
  Untouched scope filters l = Satisfies l filters → Spared scope l

  pub listed-Harmless :
      (scope : TeardownScope) (fs : List LabelFilter) (K : Kind) (w : C.World) (J : Kind)
      (j : String) (l : Labels) (rs : List Resource)
      → Untouched scope fs l
      → Present J j l w
      → All (λ r. (L.view w K r.id ≡ some r.labels) × Satisfies r.labels fs) rs
      → All (Harmless scope K J j l) rs
  listed-Harmless scope fs K w J j l [] untouched h sound = tt
  listed-Harmless scope fs K w J j l (r ∷ rs) untouched h ((v, s), sound) =
      let same : (K ≡ J) → (r.id ≡ j) → r.labels ≡ l =
        λ k i. some_injective (sym v ∙ ap (λ x. L.view w x r.id) k ∙ ap (L.view w J) i ∙ h) in
      (
        λ k i. (same k i, untouched (subst (λ x. Satisfies x fs) (same k i) s)),
        listed-Harmless scope fs K w J j l rs untouched h sound,
      )

  pub in_order-All :
      (P : Resource → Type 0) (K : Kind) (rs : List Resource)
      → All P rs
      → All P (in_order C controller_id K rs)
  in_order-All P container rs ps = All-sort_by_rank P rs ps
  in_order-All P network rs ps = ps
  in_order-All P volume rs ps = ps

  pub phase-case :
      (P : C.World → Type 0) (listed : Result (List Resource)) (w : C.World)
      (k : List Resource → Outcome × C.World)
      → P w
      → ((rs : List Resource) → listed ≡ ok rs → P (k rs).1)
      → P (phase C controller_id listed w k).1
  phase-case P (err e) w k p q = p
  phase-case P (ok rs) w k p q = q rs refl

  pub remove_kind-Present :
      (scope : TeardownScope) (fs : List LabelFilter) (K : Kind) (w : C.World) (J : Kind)
      (j : String) (l : Labels)
      → Untouched scope fs l
      → IsNamed L J j
      → Present J j l w
      → Present J j l (remove_kind C controller_id scope fs K w).1
  unfolding remove_kind
  remove_kind-Present scope fs K w J j l untouched lasts h =
      let kept : Present J j l (C.list K fs w).1 = L.list_keeps K fs w J j l h in
      phase-case (Present J j l) (C.list K fs w).0 _ _ kept (λ rs e.
        remove_each-Present scope K _ _ J j l
          (in_order-All (λ (r : Resource). L.is_id K r.id ≡ true) K rs (L.list_ids K fs w rs e))
          lasts
          (in_order-All (Harmless scope K J j l) K rs (
            listed-Harmless scope fs K (C.list K fs w).1 J j l rs untouched kept
              (L.list_sound K fs w rs e)))
          kept)

  pub run_teardown-Present :
      (fs : List LabelFilter) (scope : TeardownScope) (w : C.World) (J : Kind) (j : String)
      (l : Labels)
      → Untouched scope fs l
      → IsNamed L J j
      → Present J j l w
      → Present J j l (run_teardown C controller_id fs scope w).1
  unfolding run_teardown
  run_teardown-Present fs scope w J j l untouched lasts h =
      remove_kind-Present scope fs network _ J j l untouched lasts (
        remove_kind-Present scope fs volume _ J j l untouched lasts
          (remove_kind-Present scope fs container w J j l untouched lasts h))
