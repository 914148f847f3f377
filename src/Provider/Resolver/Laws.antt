-- ===== src/Provider/Resolver/Laws.antt =====
-- internal/provider/resolver.go: a runner that resolves is this controller's and the instance's.
use garm_provider_docker.Base.{
  String, Bool, true, false, Option, none, some, List, [], ◌∷◌, Labels, Result, ok, err, failed,
  not_found, conflict, forbidden, duplicate, instance_not_found, both, All, ◌≡◌, refl, ap, subst,
  arith, label, if◌then◌else◌, ◌∙◌,
}
use garm_provider_docker.Docker.Filters.{Satisfies}
use garm_provider_docker.Docker.Client.{container, Resource, Client, ClientLaws}
use garm_provider_docker.Docker.Containers.{ContainerJson, Engine, EngineLaws}
use garm_provider_docker.Spec.Labels.{is_managed_runner, label_instance_name}
use garm_provider_docker.Provider.Instances.{config_labels}
use garm_provider_docker.Provider.Resolver.{
  managed_runner_by_instance_name_filter, managed_by_instance_name_filter, owned_config,
  owns_runner, candidate, first_owned, from_list, resolve,
}

module _ (C : Client) (L : ClientLaws C) (E : Engine C) (U : EngineLaws C L E)
    (controller_id : String) where
  -- A runner of this controller with this instance's name.
  abbrev pub IsRunnerOf : String → Option Labels → Type 0
  IsRunnerOf name config =
      (is_managed_runner (config_labels config) controller_id ≡ true)
      × (label (config_labels config) label_instance_name ≡ name)

  abbrev pub Resolved : String → Result (Option ContainerJson) → Type 0
  Resolved name r = (c : ContainerJson) → r ≡ ok (some c) → IsRunnerOf name c.config

  -- The listed containers are there under the instance's name.
  abbrev pub AreOf : String → C.World → List Resource → Type 0
  AreOf name w rs =
      All
        (λ r.
          (L.view w container r.id ≡ some r.labels) × (label r.labels label_instance_name ≡ name))
        rs

  owned-IsRunnerOf :
      (name : String) (config : Option Labels) (l : Labels)
      → config ≡ some l
      → label l label_instance_name ≡ name
      → owned_config controller_id config ≡ true
      → IsRunnerOf name config
  owned-IsRunnerOf name none l e n own = ground arith
  owned-IsRunnerOf name (some k) l e n own =
      let same : k ≡ l = cc e in (own, ap (λ x. label x label_instance_name) same ∙ n)

  pub inspect-AreOf :
      (name : String) (i : String) (w : C.World) (rs : List Resource)
      → AreOf name w rs
      → AreOf name (E.inspect i w).1 rs
  inspect-AreOf name i w [] h = tt
  inspect-AreOf name i w (r ∷ rs) ((v, n), h) =
      ((U.inspect_keeps i w container r.id r.labels v, n), inspect-AreOf name i w rs h)

  candidate-Resolved :
      (name : String) (got : Result ContainerJson) (l : Labels) (w : C.World)
      (rest : Result (Option ContainerJson) × C.World)
      → ((c : ContainerJson) → got ≡ ok c → c.config ≡ some l)
      → label l label_instance_name ≡ name
      → Resolved name rest.0
      → Resolved name (candidate C E controller_id got w rest).0
  unfolding owns_runner
  candidate-Resolved name (err not_found) l w rest shows n later = later
  candidate-Resolved name (err failed) l w rest shows n later = λ c e. ground (arith, e)
  candidate-Resolved name (err conflict) l w rest shows n later = λ c e. ground (arith, e)
  candidate-Resolved name (err forbidden) l w rest shows n later = λ c e. ground (arith, e)
  candidate-Resolved name (err duplicate) l w rest shows n later = λ c e. ground (arith, e)
  candidate-Resolved name (err instance_not_found) l w rest shows n later = λ c e. ground (arith, e)
  candidate-Resolved name (err (both a b)) l w rest shows n later = λ c e. ground (arith, e)
  candidate-Resolved name (ok d) l w rest shows n later = chosen (owns_runner controller_id d) refl
    where
      chosen :
          (b : Bool)
          → owns_runner controller_id d ≡ b
          → Resolved name (if b then (ok (some d), w) else rest).0
      chosen false own = later
      chosen true own = λ c e.
          let same : d ≡ c = cc e in
          subst (λ (x : ContainerJson). IsRunnerOf name x.config) same
            (owned-IsRunnerOf name d.config l (shows d refl) n own)

  first_owned-Resolved :
      (name : String) (rs : List Resource) (w : C.World)
      → AreOf name w rs
      → Resolved name (first_owned C E controller_id rs w).0
  unfolding first_owned
  first_owned-Resolved name [] w h = λ c e. ground (arith, e)
  first_owned-Resolved name (r ∷ rs) w ((v, n), h) =
      candidate-Resolved name (E.inspect r.id w).0 r.labels _ _
        (λ c e. U.inspect_shows r.id w c r.labels v e) n
        (first_owned-Resolved name rs _ (inspect-AreOf name r.id w rs h))

  filtered :
      (name : String) (w : C.World) (rs : List Resource)
      → All
          (λ r.
            (L.view w container r.id ≡ some r.labels)
            × Satisfies r.labels (managed_runner_by_instance_name_filter controller_id name))
          rs
      → AreOf name w rs
  unfolding managed_runner_by_instance_name_filter managed_by_instance_name_filter
  filtered name w [] h = tt
  filtered name w (r ∷ rs) ((v, (m, u, (c, d, (k, i, s)))), h) = ((v, i), filtered name w rs h)

  listed-Resolved :
      (name : String) (listed : Result (List Resource)) (w : C.World)
      → ((rs : List Resource) → listed ≡ ok rs → AreOf name w rs)
      → Resolved name
          (from_list C E controller_id listed w (λ rs. first_owned C E controller_id rs w)).0
  listed-Resolved name (err e) w h = λ c e. ground (arith, e)
  listed-Resolved name (ok rs) w h = first_owned-Resolved name rs w (h rs refl)

  -- A container that resolves for an instance is a managed runner of this controller, and has the
  -- instance's name.
  pub resolve-IsRunnerOf :
      (instance_id : String) (w : C.World) (c : ContainerJson)
      → (resolve C E controller_id instance_id w).0 ≡ ok (some c)
      → IsRunnerOf instance_id c.config
  unfolding resolve
  resolve-IsRunnerOf name w c e =
      let filters = managed_runner_by_instance_name_filter controller_id name in
      listed-Resolved name (C.list container filters w).0 _
        (λ rs l. filtered name _ rs (L.list_sound container filters w rs l)) c e
