-- ===== src/Base/Maps.antt =====
-- Go's `map[string]string` as an association list. A missing key reads as "".
use Prim.Native.String.{String}
use mathlib.Core.Path.{◌≡◌, refl, sym}
use mathlib.Core.Logic.{◌≢◌}
use mathlib.Core.Bool.{Bool, true, false}
use mathlib.Core.Option.{Option, none, some}
use mathlib.Core.List.{List, [], ◌∷◌}
use native.Mathlib.Omega.{arith}
use text.Mathlib.Text.{◌==◌}
use text.Mathlib.TextEquality.{eq_iff}
use garm_provider_docker.Base.Tests.{if◌then◌else◌}

abbrev pub Labels : Type 0
Labels = List (String × String)

-- `v, ok := m[k]`
abbrev pub lookup {ℓ} : {V : Type ℓ} → String → List (String × V) → Option V
lookup k [] = none
lookup k ((j, v) ∷ m) = if j == k then some v else lookup k m

abbrev pub or_empty : Option String → String
or_empty none = ""
or_empty (some v) = v

abbrev pub is_some {ℓ} : {A : Type ℓ} → Option A → Bool
is_some none = false
is_some (some a) = true

-- `m[k]`
abbrev pub label : Labels → String → String
label m k = or_empty (lookup k m)

-- `_, ok := m[k]`
abbrev pub has_label : Labels → String → Bool
has_label m k = is_some (lookup k m)

-- `m[k] = v`
unfoldable pub with_label : Labels → String → String → Labels
with_label [] k v = (k, v) ∷ []
with_label ((j, w) ∷ m) k v = if j == k then (k, v) ∷ m else (j, w) ∷ with_label m k v

-- `if v != "" { m[k] = v }`
abbrev pub with_label_if : Labels → String → String → Labels
with_label_if m k v = if v == "" then m else with_label m k v

pub lookup-with_label :
    (m : Labels) (k v j : String)
    → lookup j (with_label m k v) ≡ (if k == j then some v else lookup j m)
unfolding with_label
lookup-with_label [] k v j = refl
lookup-with_label ((i, w) ∷ m) k v j =
    ground (arith, lookup-with_label m k v j, eq_iff i k, eq_iff i j, eq_iff k j)

pub label-with_label :
    (m : Labels) (k v j : String) → label (with_label m k v) j ≡ (if k == j then v else label m j)
label-with_label m k v j = ground (arith, lookup-with_label m k v j)

pub has_label-with_label :
    (m : Labels) (k v j : String)
    → has_label (with_label m k v) j ≡ (if k == j then true else has_label m j)
has_label-with_label m k v j = ground (arith, lookup-with_label m k v j)

-- A key with a value other than "" is in the map.
pub has_label-label : (m : Labels) (k v : String) → label m k ≡ v → v ≢ "" → has_label m k ≡ true
has_label-label m k v e h = has_some (lookup k m) v e h
  where
    has_some : (o : Option String) (v : String) → or_empty o ≡ v → v ≢ "" → is_some o ≡ true
    has_some none v e h = elim (h (sym e)) [ ]
    has_some (some a) v e h = refl
