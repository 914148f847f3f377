-- ===== src/Provider/Commands/Complete.antt =====
-- internal/provider/delete.go: what a delete that returns has removed, and when it finds nothing.
use garm_provider_docker.Base.{
  String, Bool, true, false, Option, none, some, List, [], ◌∷◌, Labels, Result, ok, err, Error, ◌≡◌,
  ◌≢◌, refl, sym, subst, arith, label, ◌∙◌,
}
use garm_provider_docker.Docker.Client.{Kind, network, Client, ClientLaws, Undisturbed}
use garm_provider_docker.Docker.Containers.{ContainerJson, Engine, EngineLaws}
use garm_provider_docker.Spec.Labels.{matches_predicate, label_instance_name, label_create_nonce}
use garm_provider_docker.Topology.Teardown.{teardown_allocation, instance_scoped_filter}
use garm_provider_docker.Topology.Teardown.Allocation.{IsClaim}
use garm_provider_docker.Topology.Teardown.Generation.{teardown_allocation_complete}
use garm_provider_docker.Provider.Resolver.{resolve, has_managed_allocation_resources}
use garm_provider_docker.Provider.Resolver.Complete.{has_managed_allocation_resources-finds}
use garm_provider_docker.Provider.Commands.{
  lingering_name, resolved_name, resolve_instance_name, torn_down, delete_named, delete_instance,
}
use garm_provider_docker.Provider.Commands.Preserved.{
  resolve-preserves, resolve_instance_name-preserves,
}
use garm_provider_docker.Provider.Commands.Laws.{resolve_instance_name-own}

module _ (C : Client) (L : ClientLaws C) (E : Engine C) (U : EngineLaws C L E)
    (controller_id instance_id : String) where
  -- If the controller's id and the instance's name are not empty and a resource of this controller, of
  -- any kind, is there under the instance's name, a delete does not find that there is nothing to tear
  -- down: it has a name to tear down, or the error of a daemon call.
  pub resolve_instance_name-finds :
      (w : C.World) (J : Kind) (j : String) (l : Labels)
      → controller_id ≢ ""
      → instance_id ≢ ""
      → L.view w J j ≡ some l
      → matches_predicate l controller_id ≡ true
      → label l label_instance_name ≡ instance_id
      → (resolve_instance_name C E controller_id instance_id w).0 ≢ ok none
  unfolding resolve_instance_name
  resolve_instance_name-finds w J j l named given h own mine =
      looked (resolve C E controller_id instance_id w).0 _ (
        resolve-preserves C E controller_id (λ v. L.view v J j ≡ some l)
          (λ K fs v k. L.list_keeps K fs v J j l k) (λ i v k. U.inspect_keeps i v J j l k)
          instance_id w h)
    where
      lingered :
          (r : Result Bool)
          → r ≢ ok false
          → lingering_name C E controller_id instance_id r ≢ ok none
      lingered (err e) seen n = ground (arith, n)
      lingered (ok true) seen n = ground (arith, n)
      lingered (ok false) seen n = seen refl

      looked :
          (found : Result (Option ContainerJson)) (w : C.World)
          → L.view w J j ≡ some l
          → (resolved_name C E controller_id instance_id found w).0 ≢ ok none
      looked (err e) w h n = ground (arith, n)
      looked (ok (some c)) w h n = ground (arith, n)
      looked (ok none) w h n =
          lingered (has_managed_allocation_resources C E controller_id instance_id w).0
            (has_managed_allocation_resources-finds C L E U controller_id instance_id w J j l named
              given h own mine)
            n

  torn_down-ok :
      (found : Bool) (errs : List Error)
      → torn_down C E controller_id found errs ≡ ok tt
      → errs ≡ []
  torn_down-ok found (e ∷ es) h = ground (arith, h)
  torn_down-ok true [] h = refl
  torn_down-ok false [] h = refl

  -- What is there now was there before, if nothing appears and nothing changes.
  seen_before :
      (before now : Option Labels) (d : Labels)
      → (before ≡ none → now ≡ none)
      → ((x : Labels) → before ≡ some x → now ≡ some x)
      → now ≡ some d
      → before ≡ some d
  seen_before none now d absent keeps e = ground (arith, absent refl, e)
  seen_before (some x) now d absent keeps e = sym (keeps x refl) ∙ e

  -- If nobody else creates resources, the controller's id and the instance's name are not empty, the
  -- instance has a claim network, all of its claim networks hold the create nonce `gen`, and
  -- DeleteInstance succeeds, each of this controller's resources of the instance that was there with
  -- that nonce is gone.
  pub delete_instance_complete :
      (Q : Undisturbed C L) (gen : String) (w : C.World) (i : String) (c : Labels)
      → controller_id ≢ ""
      → instance_id ≢ ""
      → L.view w network i ≡ some c
      → IsClaim controller_id instance_id c
      → ((k : String) (d : Labels)
          → L.view w network k ≡ some d
          → IsClaim controller_id instance_id d
          → label d label_create_nonce ≡ gen)
      → (J : Kind) (j : String) (l : Labels) → L.view w J j ≡ some l
      → matches_predicate l controller_id ≡ true
      → label l label_instance_name ≡ instance_id
      → label l label_create_nonce ≡ gen
      → (delete_instance C E controller_id instance_id w).0 ≡ ok tt
      → L.view (delete_instance C E controller_id instance_id w).1 J j ≡ none
  unfolding delete_instance
  delete_instance_complete Q gen w i c named given at claim one J j l here own mine nonce h =
      let kept : (K : Kind) (k : String) (d : Labels)
          → L.view w K k ≡ some d
          → L.view (resolve_instance_name C E controller_id instance_id w).1 K k ≡ some d =
        λ K k d v.
          resolve_instance_name-preserves C E controller_id (λ v. L.view v K k ≡ some d)
            (λ M fs v e. L.list_keeps M fs v K k d e) (λ x v e. U.inspect_keeps x v K k d e)
            instance_id w v in
      let absent : (k : String)
          → L.view w network k ≡ none
          → L.view (resolve_instance_name C E controller_id instance_id w).1 network k ≡ none =
        λ k v.
          resolve_instance_name-preserves C E controller_id (λ v. L.view v network k ≡ none)
            (λ M fs v e. Q.list_quiet M fs v network k e) (λ x v e. U.inspect_quiet x v network k e)
            instance_id w v in
      torn (resolve_instance_name C E controller_id instance_id w).0 _
        (resolve_instance_name-own C L E U controller_id instance_id w) (kept network i c at)
        (λ k d v. one k d (seen_before _ _ d (absent k) (kept network k) v)) (kept J j l here) h
    where
      torn :
          (found : Result (Option String)) (w : C.World)
          → ((name : String) → found ≡ ok (some name) → name ≡ instance_id)
          → L.view w network i ≡ some c
          → ((k : String) (d : Labels)
              → L.view w network k ≡ some d
              → IsClaim controller_id instance_id d
              → label d label_create_nonce ≡ gen)
          → L.view w J j ≡ some l
          → (delete_named C E controller_id found w).0 ≡ ok tt
          → L.view (delete_named C E controller_id found w).1 J j ≡ none
      torn (err e) w mine' at one here h = ground (arith, h)
      torn (ok none) w mine' at one here h = ground (arith, h)
      torn (ok (some name)) w mine' at one here h =
          let same : name ≡ instance_id = mine' name refl in
          let filters = instance_scoped_filter controller_id instance_id in
          subst (λ x. L.view (teardown_allocation C controller_id x w).1 J j ≡ none) (sym same)
            (teardown_allocation_complete C L Q controller_id instance_id gen w i c named given at
              claim
              (λ k d v. one k d (
                seen_before _ _ d (λ n. Q.list_quiet network filters w network k n)
                  (λ x e. L.list_keeps network filters w network k x e) v))
              J j l here own mine nonce
              (subst (λ x. ((teardown_allocation C controller_id x w).0).errs ≡ []) same
                (torn_down-ok _ _ h)))
