-- ===== src/Docker/Containers.antt =====
-- What the provider reads of a container beyond its labels: docker/docker's `types.ContainerJSON` and
-- `types.Container`, and the daemon calls of internal/docker/client.go that return or change them.
use garm_provider_docker.Base.{
  String, ℕ, Option, none, some, Bool, true, List, Labels, Result, ok, err, not_found, All, ◌≡◌,
}
use garm_provider_docker.Docker.Filters.{LabelFilter}
use garm_provider_docker.Docker.Client.{Kind, container, Client, ClientLaws}

-- `State` of an inspected container. An exit code is a number from 0.
pub record ContainerState : Type 0 where
  pub status : String
  pub oom_killed : Bool
  pub dead : Bool
  pub exit_code : ℕ
  pub finished_at : String
  pub error : String

-- `Config`, `State` and `NetworkSettings` may be nil. An endpoint's entry is its address, or nil.
pub record ContainerJson : Type 0 where
  pub id : String
  pub name : String
  pub config : Option Labels
  pub state : Option ContainerState
  pub networks : Option (List (String × Option String))

-- An entry of ContainerList.
pub record ContainerSummary : Type 0 where
  pub id : String
  pub names : List String
  pub labels : Labels
  pub state : String
  pub status : String

-- ContainerInspect, ContainerStart, ContainerStop with its timeout, and ContainerList.
pub record Engine (C : Client) : Type 0 where
  pub inspect : String → C.World → Result ContainerJson × C.World
  pub start : String → C.World → Result (Unit {0}) × C.World
  pub stop_within : Option ℕ → String → C.World → Result (Unit {0}) × C.World
  pub summaries : List LabelFilter → C.World → Result (List ContainerSummary) × C.World

-- An inspection shows a container that exists, with its labels, and changes nothing.
pub record EngineLaws (C : Client) (L : ClientLaws C) (E : Engine C) : Type 0 where
  pub inspect_keeps :
      (i : String) (w : C.World) (J : Kind) (j : String) (l : Labels)
      → L.view w J j ≡ some l
      → L.view (E.inspect i w).1 J j ≡ some l
  pub summaries_keeps :
      (fs : List LabelFilter) (w : C.World) (J : Kind) (j : String) (l : Labels)
      → L.view w J j ≡ some l
      → L.view (E.summaries fs w).1 J j ≡ some l
  pub summaries_sound :
      (fs : List LabelFilter) (w : C.World) (cs : List ContainerSummary)
      → (E.summaries fs w).0 ≡ ok cs
      → All
          (λ (c : ContainerSummary). L.view (E.summaries fs w).1 container c.id ≡ some c.labels)
          cs
  pub summaries_ids :
      (fs : List LabelFilter) (w : C.World) (cs : List ContainerSummary)
      → (E.summaries fs w).0 ≡ ok cs
      → All (λ (c : ContainerSummary). L.is_id container c.id ≡ true) cs
  pub inspect_shows :
      (i : String) (w : C.World) (c : ContainerJson) (l : Labels)
      → L.view w container i ≡ some l
      → (E.inspect i w).0 ≡ ok c
      → c.config ≡ some l
  pub inspect_missing :
      (i : String) (w : C.World) → (E.inspect i w).0 ≡ err not_found → L.view w container i ≡ none
  pub inspect_quiet :
      (i : String) (w : C.World) (J : Kind) (j : String)
      → L.view w J j ≡ none
      → L.view (E.inspect i w).1 J j ≡ none
