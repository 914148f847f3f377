-- ===== src/Topology/Sweep/Orphans.antt =====
-- internal/topology/sweep.go: the sweep over the instances of a controller (SweepOrphans), with the
-- daemon's calls that sweepInstance decides on. `names` of a map's range are in any order, here in one.
-- The reports of exited runners only log, and are left out.
pub mod Laws
use garm_provider_docker.Base.{
  ℕ, String, Bool, true, false, ◌&&◌, not, List, [], ◌∷◌, ◌++◌, Option, none, some, Labels, Result,
  ok, err, Error, not_found, on_ok, join, ◌==◌, if◌then◌else◌,
}
use garm_provider_docker.Docker.Client.{network, volume, container, Resource, Client}
use garm_provider_docker.Docker.Containers.{ContainerState, ContainerJson, ContainerSummary, Engine}
use garm_provider_docker.Topology.Teardown.{
  Outcome, match_predicate_filters, instance_scoped_filter, teardown_allocation,
}
use garm_provider_docker.Topology.Sweep.{
  SweptContainer, is_active_runner_state, is_own_runner, sweep_instance, instance_names,
}

abbrev pub resource_labels_of : List Resource → List Labels
resource_labels_of [] = []
resource_labels_of (r ∷ rs) = r.labels ∷ resource_labels_of rs

module _ (C : Client) (E : Engine C) (controller_id : String) (parse parse_nano : String → Option ℕ)
    (now exited_grace inflight_grace : ℕ) where
  -- `parse_nano` has no time for a text that it cannot read or that is zero.
  abbrev pub finished_time : Option ContainerState → Option ℕ
  finished_time none = none
  finished_time (some st) = if st.finished_at == "" then none else parse_nano st.finished_at

  abbrev pub swept : ContainerSummary → Option ℕ → SweptContainer
  swept c time = record { labels = c.labels; state = c.state; finished_at = ok time }

  abbrev pub needs_inspect : ContainerSummary → Bool
  needs_inspect c =
      is_own_runner controller_id parse c.labels && not (is_active_runner_state c.state)

  abbrev pub with_swept :
      SweptContainer
      → Result (List SweptContainer) × C.World
      → Result (List SweptContainer) × C.World
  with_swept s (rest, w) = on_ok rest w (λ ss. (ok (s ∷ ss), w))

  -- runnerFinishedAt of a runner that is not live, in front of the `later` containers.
  abbrev pub inspected :
      ContainerSummary
      → Result ContainerJson
      → C.World
      → Result (List SweptContainer) × C.World
      → Result (List SweptContainer) × C.World
  inspected c (err not_found) w later = with_swept (swept c none) later
  inspected c (err e) w later = (err e, w)
  inspected c (ok got) w later = with_swept (swept c (finished_time got.state)) later

  abbrev pub inspect_if :
      Bool
      → Result (List SweptContainer) × C.World
      → Result (List SweptContainer) × C.World
      → Result (List SweptContainer) × C.World
  inspect_if true seen unseen = seen
  inspect_if false seen unseen = unseen

  -- Each runner that is not live is inspected, up to the first inspection that fails.
  unfoldable pub inspect_runners :
      List ContainerSummary → C.World → Result (List SweptContainer) × C.World
  inspect_runners [] w = (ok [], w)
  inspect_runners (c ∷ cs) w =
      let (got, w1) = E.inspect c.id w in
      inspect_if (needs_inspect c) (inspected c got w1 (inspect_runners cs w1))
        (with_swept (swept c none) (inspect_runners cs w))

  abbrev pub torn_down : Outcome × C.World → Result Bool × C.World
  torn_down (o, w) = (elim o.errs [ [] ↦ ok o.found | e ∷ es ↦ err e ], w)

  abbrev pub tear_if : Bool → String → C.World → Result Bool × C.World
  tear_if false instance_name w = (ok false, w)
  tear_if true instance_name w = torn_down (teardown_allocation C controller_id instance_name w)

  unfoldable pub sweep_one : String → C.World → Result Bool × C.World
  sweep_one instance_name w =
      let f = instance_scoped_filter controller_id instance_name in
      let (conts, w1) = E.summaries f w in
      let (nets, w2) = C.list network f w1 in
      let (vols, w3) = C.list volume f w2 in
      on_ok conts w1 (λ cs. on_ok nets w2 (λ ns. on_ok vols w3 (λ vs.
        let (runners, w4) = inspect_runners cs w3 in
        on_ok runners w4 (λ rs.
          on_ok
            (sweep_instance controller_id parse now exited_grace inflight_grace rs
              (resource_labels_of ns) (resource_labels_of vs))
            w4 (λ go. tear_if go instance_name w4)))))

  abbrev pub failures : Result Bool → List Error
  failures (ok b) = []
  failures (err e) = e ∷ []

  -- An instance's error is kept, and the sweep goes on.
  unfoldable pub sweep_each : List String → C.World → List Error × C.World
  sweep_each [] w = ([], w)
  sweep_each (name ∷ names) w =
      let (result, w1) = sweep_one name w in
      let (errs, w2) = sweep_each names w1 in (failures result ++ errs, w2)

  unfoldable pub enumerate_instance_names : C.World → Result (List String) × C.World
  enumerate_instance_names w =
      let f = match_predicate_filters controller_id in
      let (conts, w1) = C.list container f w in
      let (nets, w2) = C.list network f w1 in
      let (vols, w3) = C.list volume f w2 in
      on_ok conts w1 (λ cs. on_ok nets w2 (λ ns. on_ok vols w3 (λ vs. (
        ok (
            instance_names controller_id parse
              (resource_labels_of cs ++ resource_labels_of ns ++ resource_labels_of vs)),
        w3,
      ))))

  abbrev pub sweep_named : Result (List String) → C.World → Option Error × C.World
  sweep_named (err e) w = (some e, w)
  sweep_named (ok names) w = let (errs, w1) = sweep_each names w in (join errs, w1)

  unfoldable pub sweep_orphans : C.World → Option Error × C.World
  sweep_orphans w = let (names, w1) = enumerate_instance_names w in sweep_named names w1
