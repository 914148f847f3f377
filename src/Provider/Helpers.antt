-- ===== src/Provider/Helpers.antt =====
-- internal/provider/gc.go: the removal of helper containers that a provider left behind
-- (reapLeakedHelpers), and the labels of helpers. Times are nanoseconds; `parse` reads RFC 3339.
pub mod Laws
use garm_provider_docker.Base.{
  ℕ, suc, ◌+◌, String, Bool, true, false, ◌&&◌, ◌||◌, not, Option, none, some, List, [], ◌∷◌,
  Labels, label, has_label, leb, Result, ok, err, not_found, ◌==◌, if◌then◌else◌,
}
use garm_provider_docker.Docker.Filters.{LabelFilter, has_value}
use garm_provider_docker.Docker.Client.{container, Client}
use garm_provider_docker.Docker.Containers.{ContainerSummary, Engine}
use garm_provider_docker.Spec.Labels.{
  label_managed, label_controller_id, label_role, label_created_at, label_instance_name,
  role_cache_helper,
}

abbrev pub helper_reap_max : ℕ
helper_reap_max = 50

-- Two minutes.
abbrev pub helper_terminal_grace : ℕ
helper_terminal_grace = 120000000000

-- helperAge, as the time that the age counts from.
unfoldable pub helper_created : (String → Option ℕ) → String → Option ℕ
helper_created parse created_at = if created_at == "" then none else parse created_at

-- `age >= limit`; a time in the future has a negative age.
abbrev pub is_older : ℕ → Option ℕ → ℕ → Bool → Bool
is_older now none limit unknown = unknown
is_older now (some t) limit unknown = leb (t + limit) now

-- externalsSeedTimeout and five minutes: fifteen.
abbrev pub helper_running_max_age : ℕ
helper_running_max_age = 900000000000

unfoldable pub helper_reapable : ℕ → String → Option ℕ → Bool
helper_reapable now state created =
    if state == "created" || state == "running"
    then is_older now created helper_running_max_age false
    else is_older now created helper_terminal_grace true

unfoldable pub owned_helper_labels : String → String → String → Labels
owned_helper_labels controller_id role created_at =
    (label_managed, "true")
    ∷ (label_controller_id, controller_id)
    ∷ (label_role, role)
    ∷ (label_created_at, created_at)
    ∷ []

unfoldable pub helper_labels : String → String → Labels
unfolding owned_helper_labels
helper_labels controller_id created_at =
    owned_helper_labels controller_id role_cache_helper created_at

unfoldable pub helper_filter : String → List LabelFilter
helper_filter controller_id =
    has_value label_managed "true"
    ∷ has_value label_controller_id controller_id
    ∷ has_value label_role role_cache_helper
    ∷ []

-- The checks on top of the filter.
unfoldable pub is_own_helper : String → Labels → Bool
is_own_helper controller_id labels =
    label labels label_role == role_cache_helper
    && label labels label_controller_id == controller_id
    && not (has_label labels label_instance_name)

module _ (C : Client) (E : Engine C) (controller_id : String) (parse : String → Option ℕ)
    (now : ℕ) where
  abbrev pub wants_reap : ContainerSummary → Bool
  wants_reap c =
      is_own_helper controller_id c.labels
      && helper_reapable now c.state (helper_created parse (label c.labels label_created_at))

  abbrev pub reaped_one : Result (Unit {0}) → ℕ → ℕ
  reaped_one (ok u) n = suc n
  reaped_one (err not_found) n = suc n
  reaped_one (err e) n = n

  -- `if wants { remove }`, and `if reaped >= helperReapMax { break }`.
  abbrev pub reap_if : Bool → String → ℕ → C.World → ℕ × C.World
  reap_if false id n w = (n, w)
  reap_if true id n w = let (r, w1) = C.remove container id w in (reaped_one r n, w1)

  abbrev pub unless_full : Bool → ℕ → C.World → ℕ × C.World → ℕ × C.World
  unless_full true n w next = (n, w)
  unless_full false n w next = next

  unfoldable pub reap_each : List ContainerSummary → ℕ → C.World → ℕ × C.World
  reap_each [] n w = (n, w)
  reap_each (c ∷ cs) n w =
      let (m, w1) = reap_if (wants_reap c) c.id n w in
      unless_full (leb helper_reap_max n) n w (reap_each cs m w1)

  abbrev pub reap_listed : Result (List ContainerSummary) → C.World → ℕ × C.World
  reap_listed (err e) w = (0, w)
  reap_listed (ok cs) w = reap_each cs 0 w

  -- How many were reaped.
  unfoldable pub reap_leaked_helpers : C.World → ℕ × C.World
  reap_leaked_helpers w =
      let (listed, w1) = E.summaries (helper_filter controller_id) w in reap_listed listed w1
