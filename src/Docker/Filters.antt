-- ===== src/Docker/Filters.antt =====
-- The label filters that the provider lists Docker resources with (filters.Args of the Docker SDK).
use garm_provider_docker.Base.{String, true, List, [], ◌∷◌, Labels, label, has_label, ◌≡◌}

-- A key alone, or a key with its value.
pub data LabelFilter : Type 0 where
  has_key : String → LabelFilter
  has_value : String → String → LabelFilter

-- The documented meaning of Docker's `label` filters: a resource is listed if it has every key, with
-- its value where one is given.
abbrev pub Satisfies : Labels → List LabelFilter → Type 0
Satisfies labels [] = Unit
Satisfies labels (has_key k ∷ fs) = (has_label labels k ≡ true) × Satisfies labels fs
Satisfies labels (has_value k v ∷ fs) =
    (has_label labels k ≡ true) × (label labels k ≡ v) × Satisfies labels fs
