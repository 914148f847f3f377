-- ===== src/Topology/Sweep/Orphans/Laws.antt =====
-- internal/topology/sweep.go: what a sweep leaves alone.
use garm_provider_docker.Base.{
  ℕ, String, Bool, true, false, List, [], ◌∷◌, Option, none, some, Labels, Result, ok, err, failed,
  not_found, conflict, forbidden, duplicate, instance_not_found, both, on_ok, ◌≡◌,
}
use garm_provider_docker.Docker.Client.{
  Kind, container, network, volume, Client, ClientLaws, IsNamed,
}
use garm_provider_docker.Docker.Containers.{ContainerSummary, ContainerJson, Engine, EngineLaws}
use garm_provider_docker.Spec.Labels.{matches_predicate}
use garm_provider_docker.Topology.Teardown.{match_predicate_filters, instance_scoped_filter}
use garm_provider_docker.Topology.Teardown.Allocation.{teardown_allocation-keeps_others}
use garm_provider_docker.Topology.Sweep.{SweptContainer, sweep_instance}
use garm_provider_docker.Topology.Sweep.Orphans.{
  resource_labels_of, inspected, inspect_if, swept, needs_inspect, with_swept, inspect_runners,
  tear_if, sweep_one, sweep_each, enumerate_instance_names, sweep_named, sweep_orphans,
}

module _ (C : Client) (L : ClientLaws C) (E : Engine C) (U : EngineLaws C L E)
    (controller_id : String) (parse parse_nano : String → Option ℕ)
    (now exited_grace inflight_grace : ℕ) (J : Kind) (j : String) (l : Labels)
    (foreign : ¬ (matches_predicate l controller_id ≡ true)) (lasts : IsNamed L J j) where
  abbrev Kept : C.World → Type 0
  Kept w = L.view w J j ≡ some l

  on_ok-Kept :
      {S T : Type 0} (r : Result S) (w : C.World) (next : S → Result T × C.World)
      → Kept w
      → ((s : S) → Kept (next s).1)
      → Kept (on_ok r w next).1
  on_ok-Kept (err e) w next h k = h
  on_ok-Kept (ok s) w next h k = k s

  with_swept-Kept :
      (s : SweptContainer) (r : Result (List SweptContainer) × C.World)
      → Kept r.1
      → Kept (with_swept C E controller_id parse parse_nano now exited_grace inflight_grace s r).1
  with_swept-Kept s (err e, w) h = h
  with_swept-Kept s (ok ss, w) h = h

  inspected-Kept :
      (c : ContainerSummary) (got : Result ContainerJson) (w : C.World)
      (later : Result (List SweptContainer) × C.World)
      → Kept w
      → Kept later.1
      → Kept
          (inspected C E controller_id parse parse_nano now exited_grace inflight_grace c got w
            later).1
  inspected-Kept c (err not_found) w later h k = with_swept-Kept _ later k
  inspected-Kept c (err failed) w later h k = h
  inspected-Kept c (err conflict) w later h k = h
  inspected-Kept c (err forbidden) w later h k = h
  inspected-Kept c (err duplicate) w later h k = h
  inspected-Kept c (err instance_not_found) w later h k = h
  inspected-Kept c (err (both a b)) w later h k = h
  inspected-Kept c (ok d) w later h k = with_swept-Kept _ later k

  inspect_if-Kept :
      (b : Bool) (r s : Result (List SweptContainer) × C.World)
      → Kept r.1
      → Kept s.1
      → Kept (inspect_if C E controller_id parse parse_nano now exited_grace inflight_grace b r s).1
  inspect_if-Kept true r s h k = h
  inspect_if-Kept false r s h k = k

  inspect_runners-Kept :
      (cs : List ContainerSummary) (w : C.World)
      → Kept w
      → Kept
          (inspect_runners C E controller_id parse parse_nano now exited_grace inflight_grace cs
            w).1
  unfolding inspect_runners
  inspect_runners-Kept [] w h = h
  inspect_runners-Kept (c ∷ cs) w h =
      let h1 : Kept (E.inspect c.id w).1 = U.inspect_keeps c.id w J j l h in
      inspect_if-Kept
        (needs_inspect C E controller_id parse parse_nano now exited_grace inflight_grace c) _ _
        (inspected-Kept c (E.inspect c.id w).0 _ _ h1 (inspect_runners-Kept cs _ h1))
        (with_swept-Kept
          (swept C E controller_id parse parse_nano now exited_grace inflight_grace c none) _
          (inspect_runners-Kept cs w h))

  tear_if-Kept :
      (go : Bool) (name : String) (w : C.World)
      → Kept w
      → Kept
          (tear_if C E controller_id parse parse_nano now exited_grace inflight_grace go name w).1
  tear_if-Kept false name w h = h
  tear_if-Kept true name w h =
      teardown_allocation-keeps_others C L controller_id name w J j l lasts h
        (λ (own, mine). foreign own)

  sweep_one-Kept :
      (name : String) (w : C.World)
      → Kept w
      → Kept (sweep_one C E controller_id parse parse_nano now exited_grace inflight_grace name w).1
  unfolding sweep_one
  sweep_one-Kept name w h =
      let f = instance_scoped_filter controller_id name in
      let h1 : Kept (E.summaries f w).1 = U.summaries_keeps f w J j l h in
      let h2 : Kept (C.list network f (E.summaries f w).1).1 = L.list_keeps network f _ J j l h1 in
      let h3 : Kept (C.list volume f (C.list network f (E.summaries f w).1).1).1 =
        L.list_keeps volume f _ J j l h2 in
      on_ok-Kept (E.summaries f w).0 _ _ h1 (λ cs.
        on_ok-Kept (C.list network f (E.summaries f w).1).0 _ _ h2 (λ ns.
          on_ok-Kept (C.list volume f (C.list network f (E.summaries f w).1).1).0 _ _ h3 (λ vs.
            let h4 = inspect_runners-Kept cs _ h3 in
            on_ok-Kept
              (inspect_runners C E controller_id parse parse_nano now exited_grace inflight_grace cs
                (C.list volume f (C.list network f (E.summaries f w).1).1).1).0
              _ _ h4
              (λ rs.
                on_ok-Kept
                  (sweep_instance controller_id parse now exited_grace inflight_grace rs
                    (resource_labels_of ns) (resource_labels_of vs))
                  _ _ h4 (λ go. tear_if-Kept go name _ h4)))))

  sweep_each-Kept :
      (names : List String) (w : C.World)
      → Kept w
      → Kept
          (sweep_each C E controller_id parse parse_nano now exited_grace inflight_grace names w).1
  unfolding sweep_each
  sweep_each-Kept [] w h = h
  sweep_each-Kept (name ∷ names) w h = sweep_each-Kept names _ (sweep_one-Kept name w h)

  sweep_named-Kept :
      (names : Result (List String)) (w : C.World)
      → Kept w
      → Kept
          (sweep_named C E controller_id parse parse_nano now exited_grace inflight_grace names w).1
  sweep_named-Kept (err e) w h = h
  sweep_named-Kept (ok names) w h = sweep_each-Kept names w h

  -- An orphan sweep keeps each resource that the controller's ownership predicate does not hold of,
  -- unless it is a volume that nobody named,
  -- whatever the daemon answers, at any time and with any grace periods.
  pub sweep_orphans-keeps :
      (w : C.World)
      → L.view w J j ≡ some l
      → L.view
          (sweep_orphans C E controller_id parse parse_nano now exited_grace inflight_grace w).1
          J
          j
        ≡ some l
  unfolding sweep_orphans enumerate_instance_names
  sweep_orphans-keeps w h =
      let f = match_predicate_filters controller_id in
      let h1 : Kept (C.list container f w).1 = L.list_keeps container f w J j l h in
      let h2 : Kept (C.list network f (C.list container f w).1).1 =
        L.list_keeps network f _ J j l h1 in
      let h3 : Kept (C.list volume f (C.list network f (C.list container f w).1).1).1 =
        L.list_keeps volume f _ J j l h2 in
      sweep_named-Kept
        (enumerate_instance_names C E controller_id parse parse_nano now exited_grace inflight_grace
          w).0
        _
        (on_ok-Kept (C.list container f w).0 _ _ h1 (λ cs.
          on_ok-Kept (C.list network f (C.list container f w).1).0 _ _ h2 (λ ns.
            on_ok-Kept (C.list volume f (C.list network f (C.list container f w).1).1).0 _ _ h3
              (λ vs. h3))))
