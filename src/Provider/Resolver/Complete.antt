-- ===== src/Provider/Resolver/Complete.antt =====
-- internal/provider/resolver.go: a runner that is there resolves, and a resource that is there
-- lingers.
use garm_provider_docker.Base.{
  String, Bool, true, false, Option, none, some, List, [], ◌∷◌, Labels, Result, ok, err, failed,
  not_found, conflict, forbidden, duplicate, instance_not_found, both, ◌≡◌, ◌≢◌, refl, sym, subst,
  arith, label, if◌then◌else◌, has_label-label, inl, inr, eq_iff, ◌⊎◌,
}
use garm_provider_docker.Base.Texts.Laws.{cons_differs}
use garm_provider_docker.Docker.Filters.{Satisfies}
use garm_provider_docker.Docker.Client.{
  Kind, container, network, volume, Resource, Client, ClientLaws, Listed,
}
use garm_provider_docker.Docker.Containers.{ContainerJson, Engine, EngineLaws}
use garm_provider_docker.Spec.Labels.{
  matches_predicate, is_managed_runner, label_managed, label_controller_id, label_instance_name,
  label_role, role_runner,
}
use garm_provider_docker.Spec.Labels.Laws.{matches_predicate_fields}
use garm_provider_docker.Provider.Resolver.{
  managed_runner_by_instance_name_filter, managed_by_instance_name_filter, owned_config,
  owns_runner, candidate, first_owned, from_list, resolve, any_managed,
  has_managed_allocation_resources,
}

module _ (C : Client) (L : ClientLaws C) (E : Engine C) (U : EngineLaws C L E)
    (controller_id : String) where
  first_owned-Listed :
      (rs : List Resource) (w : C.World) (j : String) (l : Labels)
      → Listed j l rs
      → L.view w container j ≡ some l
      → is_managed_runner l controller_id ≡ true
      → (first_owned C E controller_id rs w).0 ≢ ok none
  unfolding first_owned owns_runner
  first_owned-Listed [] w j l at v own = elim at [ ]
  first_owned-Listed (r ∷ rs) w j l at v own =
      let kept : L.view (E.inspect r.id w).1 container j ≡ some l =
        U.inspect_keeps r.id w container j l v in
      let later : Listed j l rs
          → (first_owned C E controller_id rs (E.inspect r.id w).1).0 ≢ ok none =
        λ at'. first_owned-Listed rs _ j l at' kept own in
      let seen : r.id ≡ j → (E.inspect r.id w).0 ≢ err not_found = λ i e.
        ground
          (arith, subst (λ x. L.view w container x ≡ none) i (U.inspect_missing r.id w e), v) in
      let shows : r.id ≡ j → (c : ContainerJson) → (E.inspect r.id w).0 ≡ ok c → c.config ≡ some l =
        λ i c e.
          U.inspect_shows r.id w c l (subst (λ x. L.view w container x ≡ some l) (sym i) v) e in
      turn (E.inspect r.id w).0 _ (first_owned C E controller_id rs (E.inspect r.id w).1) at later
        seen shows
    where
      turn :
          (got : Result ContainerJson) (w : C.World)
          (rest : Result (Option ContainerJson) × C.World)
          → Listed j l (r ∷ rs)
          → (Listed j l rs → rest.0 ≢ ok none)
          → (r.id ≡ j → got ≢ err not_found)
          → (r.id ≡ j → (c : ContainerJson) → got ≡ ok c → c.config ≡ some l)
          → (candidate C E controller_id got w rest).0 ≢ ok none
      turn (err not_found) w rest (inl (i, e)) later seen shows = elim (seen i refl) [ ]
      turn (err not_found) w rest (inr at) later seen shows = later at
      turn (err failed) w rest at later seen shows = λ e. ground (arith, e)
      turn (err conflict) w rest at later seen shows = λ e. ground (arith, e)
      turn (err forbidden) w rest at later seen shows = λ e. ground (arith, e)
      turn (err duplicate) w rest at later seen shows = λ e. ground (arith, e)
      turn (err instance_not_found) w rest at later seen shows = λ e. ground (arith, e)
      turn (err (both a b)) w rest at later seen shows = λ e. ground (arith, e)
      turn (ok d) w rest (inl (i, e)) later seen shows = λ n. owned d.config (shows i d refl) n
        where
          owned :
              (o : Option Labels)
              → o ≡ some l
              → (if owned_config controller_id o then (ok (some d), w) else rest).0 ≢ ok none
          owned o e = rw e (rw own (λ n. ground (arith, n)))
      turn (ok d) w rest (inr at) later seen shows = either (owned_config controller_id d.config)
        where
          either : (b : Bool) → (if b then (ok (some d), w) else rest).0 ≢ ok none
          either true = λ e. ground (arith, e)
          either false = later at

  instance-Satisfies :
      (name : String) (l : Labels)
      → controller_id ≢ ""
      → name ≢ ""
      → matches_predicate l controller_id ≡ true
      → label l label_instance_name ≡ name
      → Satisfies l (managed_by_instance_name_filter controller_id name)
  unfolding managed_by_instance_name_filter
  instance-Satisfies name l named given own mine =
      let (a, b, c) = matches_predicate_fields l controller_id own in
      (
        has_label-label l label_managed _ a (cons_differs _ _),
        a,
        (has_label-label l label_controller_id _ b named, b, (c, mine, tt)),
      )

  runner-Satisfies :
      (name : String) (l : Labels)
      → controller_id ≢ ""
      → name ≢ ""
      → is_managed_runner l controller_id ≡ true
      → label l label_instance_name ≡ name
      → Satisfies l (managed_runner_by_instance_name_filter controller_id name)
  unfolding managed_runner_by_instance_name_filter managed_by_instance_name_filter is_managed_runner
  runner-Satisfies name l named given own mine =
      let managed : matches_predicate l controller_id ≡ true = ground (arith, own) in
      let role : label l label_role ≡ role_runner =
        ground (arith, own, eq_iff (label l label_role) role_runner) in
      let (a, b, (c, d, (e, f, u))) = instance-Satisfies name l named given managed mine in
      (a, b, (c, d, (e, f, (has_label-label l label_role _ role (cons_differs _ _), role, tt))))

  -- If a managed runner of the controller with the instance's name is there, and neither the name nor
  -- the controller's id is empty, the instance does not resolve to nothing: a runner is returned, or
  -- the error of a daemon call.
  pub resolve-finds :
      (instance_id : String) (w : C.World) (j : String) (l : Labels)
      → controller_id ≢ ""
      → instance_id ≢ ""
      → L.view w container j ≡ some l
      → is_managed_runner l controller_id ≡ true
      → label l label_instance_name ≡ instance_id
      → (resolve C E controller_id instance_id w).0 ≢ ok none
  unfolding resolve
  resolve-finds name w j l named given v own mine =
      let filters = managed_runner_by_instance_name_filter controller_id name in
      let kept : L.view (C.list container filters w).1 container j ≡ some l =
        L.list_keeps container filters w container j l v in
      listed (C.list container filters w).0 _ (λ rs e.
        first_owned-Listed rs _ j l
          (L.list_complete container filters w rs e j l v
            (runner-Satisfies name l named given own mine))
          kept own)
    where
      listed :
          (r : Result (List Resource)) (w : C.World)
          → ((rs : List Resource) → r ≡ ok rs → (first_owned C E controller_id rs w).0 ≢ ok none)
          → (from_list C E controller_id r w (λ rs. first_owned C E controller_id rs w)).0 ≢ ok none
      listed (err e) w h = λ n. ground (arith, n)
      listed (ok rs) w h = h rs refl

  any_managed-Listed :
      (rs : List Resource) (j : String) (l : Labels)
      → Listed j l rs
      → matches_predicate l controller_id ≡ true
      → any_managed C E controller_id rs ≡ true
  any_managed-Listed [] j l at own = elim at [ ]
  any_managed-Listed (r ∷ rs) j l (inl (i, e)) own = rw (e, own) refl
  any_managed-Listed (r ∷ rs) j l (inr at) own = ground (arith, any_managed-Listed rs j l at own)

  abbrev AllManaged : Result (List Resource) → Type 0
  AllManaged r = (rs : List Resource) → r ≡ ok rs → any_managed C E controller_id rs ≡ true

  -- The three checks of hasManagedAllocationResources, one of which sees the resource.
  lingers :
      (conts nets vols : Result (List Resource)) (w1 w2 w3 : C.World)
      → AllManaged conts ⊎ (AllManaged nets ⊎ AllManaged vols)
      → (from_list C E controller_id conts w1 (λ cs.
          if any_managed C E controller_id cs
          then (ok true, w1)
          else from_list C E controller_id nets w2 (λ ns.
            if any_managed C E controller_id ns
            then (ok true, w2)
            else from_list C E controller_id vols w3
                (λ vs. (ok (any_managed C E controller_id vs), w3))))).0
        ≢ ok false
  lingers (err e) nets vols w1 w2 w3 h = λ n. ground (arith, n)
  lingers (ok cs) nets vols w1 w2 w3 (inl h) = rw (h cs refl) (λ n. ground (arith, n))
  lingers (ok cs) nets vols w1 w2 w3 (inr h) =
      after (any_managed C E controller_id cs) nets vols w2 w3 h
    where
      last :
          (b : Bool) (vols : Result (List Resource)) (w2 w3 : C.World)
          → AllManaged vols
          → (if b
              then (ok true, w2)
              else from_list C E controller_id vols w3
                  (λ vs. (ok (any_managed C E controller_id vs), w3))).0
            ≢ ok false
      last true vols w2 w3 h = λ n. ground (arith, n)
      last false (err e) w2 w3 h = λ n. ground (arith, n)
      last false (ok vs) w2 w3 h = rw (h vs refl) (λ n. ground (arith, n))

      after :
          (b : Bool) (nets vols : Result (List Resource)) (w2 w3 : C.World)
          → AllManaged nets ⊎ AllManaged vols
          → (if b
              then (ok true, w1)
              else from_list C E controller_id nets w2 (λ ns.
                if any_managed C E controller_id ns
                then (ok true, w2)
                else from_list C E controller_id vols w3
                    (λ vs. (ok (any_managed C E controller_id vs), w3)))).0
            ≢ ok false
      after true nets vols w2 w3 h = λ n. ground (arith, n)
      after false (err e) vols w2 w3 h = λ n. ground (arith, n)
      after false (ok ns) vols w2 w3 (inl h) = rw (h ns refl) (λ n. ground (arith, n))
      after false (ok ns) vols w2 w3 (inr h) = last (any_managed C E controller_id ns) vols w2 w3 h

  pub has_managed_allocation_resources-finds :
      (name : String) (w : C.World) (J : Kind) (j : String) (l : Labels)
      → controller_id ≢ ""
      → name ≢ ""
      → L.view w J j ≡ some l
      → matches_predicate l controller_id ≡ true
      → label l label_instance_name ≡ name
      → (has_managed_allocation_resources C E controller_id name w).0 ≢ ok false
  unfolding has_managed_allocation_resources
  has_managed_allocation_resources-finds name w J j l named given v own mine =
      let f = managed_by_instance_name_filter controller_id name in
      let w1 = (C.list container f w).1 in
      let w2 = (C.list network f w1).1 in
      let s : Satisfies l f = instance-Satisfies name l named given own mine in
      let v1 : L.view w1 J j ≡ some l = L.list_keeps container f w J j l v in
      let v2 : L.view w2 J j ≡ some l = L.list_keeps network f w1 J j l v1 in
      lingers (C.list container f w).0 (C.list network f w1).0 (C.list volume f w2).0 _ _ _
        (seen J v v1 v2 s)
    where
      seen :
          (K : Kind)
          → L.view w K j ≡ some l
          → L.view (C.list container (managed_by_instance_name_filter controller_id name) w).1 K j
            ≡ some l
          → L.view
              (C.list network
                (managed_by_instance_name_filter controller_id name)
                (C.list container (managed_by_instance_name_filter controller_id name) w).1).1
              K
              j
            ≡ some l
          → Satisfies l (managed_by_instance_name_filter controller_id name)
          → AllManaged (C.list container (managed_by_instance_name_filter controller_id name) w).0
            ⊎ (AllManaged
                  (C.list network
                    (managed_by_instance_name_filter controller_id name)
                    (C.list container (managed_by_instance_name_filter controller_id name) w).1).0
                ⊎ AllManaged
                    (C.list volume
                      (managed_by_instance_name_filter controller_id name)
                      (C.list network
                        (managed_by_instance_name_filter controller_id name)
                        (C.list container
                          (managed_by_instance_name_filter controller_id name)
                          w).1).1).0)
      seen container v v1 v2 s =
          inl (λ rs e. any_managed-Listed rs j l (L.list_complete container _ w rs e j l v s) own)
      seen network v v1 v2 s =
          inr (
            inl (λ rs e. any_managed-Listed rs j l (L.list_complete network _ _ rs e j l v1 s) own))
      seen volume v v1 v2 s =
          inr
            (inr (λ rs e. any_managed-Listed rs j l (L.list_complete volume _ _ rs e j l v2 s) own))
