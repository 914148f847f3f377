-- ===== src/Base/Tables.antt =====
-- Go's maps from texts to values of any type, as association lists: `lookup` of Maps reads them.
use Prim.Native.String.{String}
use mathlib.Core.Path.{◌≡◌, refl}
use mathlib.Core.Logic.{inl, inr}
use mathlib.Core.Bool.{Bool, true, false}
use mathlib.Core.Option.{Option, none, some}
use mathlib.Core.List.{List, [], ◌∷◌}
use native.Mathlib.Omega.{arith}
use text.Mathlib.Text.{◌==◌}
use text.Mathlib.TextEquality.{eq_iff}
use text.Mathlib.TextPositions.{eq_refl}
use garm_provider_docker.Base.Tests.{if◌then◌else◌, Bool-cases}
use garm_provider_docker.Base.Maps.{lookup}
use garm_provider_docker.Base.Lists.{All}

module _ {V : Type 0} where
  -- `m[k] = v`
  unfoldable pub assign : String → V → List (String × V) → List (String × V)
  assign k v [] = (k, v) ∷ []
  assign k v ((j, u) ∷ m) = if j == k then (k, v) ∷ m else (j, u) ∷ assign k v m

  -- `delete(m, k)`
  unfoldable pub erase : String → List (String × V) → List (String × V)
  erase k [] = []
  erase k ((j, u) ∷ m) = let rest = erase k m in if j == k then rest else (j, u) ∷ rest

  -- The first value that passes a test, in the order of a `range` over the map.
  unfoldable pub find_value : (V → Bool) → List (String × V) → Option V
  find_value p [] = none
  find_value p ((j, u) ∷ m) = if p u then some u else find_value p m

  -- No key stands twice.
  abbrev pub Distinct : List (String × V) → Type 0
  Distinct [] = Unit
  Distinct ((j, u) ∷ m) = (lookup j m ≡ none) × Distinct m

  pub lookup-assign :
      (m : List (String × V)) (k : String) (v : V) (j : String)
      → lookup j (assign k v m) ≡ (if k == j then some v else lookup j m)
  unfolding assign
  lookup-assign [] k v j = refl
  lookup-assign ((i, u) ∷ m) k v j =
      ground (arith, lookup-assign m k v j, eq_iff i k, eq_iff i j, eq_iff k j)

  pub lookup-erase :
      (m : List (String × V)) (k j : String)
      → lookup j (erase k m) ≡ (if k == j then none else lookup j m)
  unfolding erase
  lookup-erase [] k j = ground arith
  lookup-erase ((i, u) ∷ m) k j =
      ground (arith, lookup-erase m k j, eq_iff i k, eq_iff i j, eq_iff k j)

  pub assign-Distinct :
      (m : List (String × V)) (k : String) (v : V) → Distinct m → Distinct (assign k v m)
  unfolding assign
  assign-Distinct [] k v d = (refl, tt)
  assign-Distinct ((i, u) ∷ m) k v (d, ds) = elim (Bool-cases (i == k)) [
    | inl same ↦ rw same (ground (arith, d, eq_iff i k), ds)
    | inr other ↦ rw other (
      ground (arith, lookup-assign m k v i, d, other, eq_iff k i, eq_iff i k),
      assign-Distinct m k v ds,
    )
  ]

  pub erase-Distinct : (m : List (String × V)) (k : String) → Distinct m → Distinct (erase k m)
  unfolding erase
  erase-Distinct [] k d = tt
  erase-Distinct ((i, u) ∷ m) k (d, ds) = elim (Bool-cases (i == k)) [
    | inl same ↦ rw same (erase-Distinct m k ds)
    | inr other ↦ rw other (ground (arith, lookup-erase m k i, d), erase-Distinct m k ds)
  ]

  -- A value that is found is in the map under some key.
  pub find_value-some :
      (p : V → Bool) (m : List (String × V)) (v : V)
      → Distinct m
      → find_value p m ≡ some v
      → (k : String) × (lookup k m ≡ some v) × (p v ≡ true)
  unfolding find_value
  find_value-some p [] v d e = ground (arith, e)
  find_value-some p ((i, u) ∷ m) v (d, ds) e = elim (Bool-cases (p u)) [
    | inl passed ↦
        let here : some u ≡ some v = ground (arith, e, passed) in
        let same : u ≡ v = cc here in (i, rw (eq_refl i) here, ground (arith, passed, same))
    | inr missed ↦
        let (k, at, ok) = find_value-some p m v ds (ground (arith, e, missed)) in
        (k, ground (arith, at, d, eq_iff i k), ok)
  ]

  -- No value in the map passes a test that finds none.
  pub find_value-none :
      (p : V → Bool) (m : List (String × V)) (k : String) (v : V)
      → find_value p m ≡ none
      → lookup k m ≡ some v
      → p v ≡ false
  unfolding find_value
  find_value-none p [] k v e at = ground (arith, at)
  find_value-none p ((i, u) ∷ m) k v e at = elim (Bool-cases (p u)) [
    | inl passed ↦ ground (arith, e, passed)
    | inr missed ↦ elim (Bool-cases (i == k)) [
      | inl here ↦
          let first : some u ≡ some v = ground (arith, at, here) in
          let same : u ≡ v = cc first in ground (arith, missed, same)
      | inr later ↦ find_value-none p m k v (ground (arith, e, missed)) (ground (arith, at, later))
    ]
  ]

  -- Each entry of the list is what the map has under its key.
  pub entries_Distinct :
      (m : List (String × V)) → Distinct m → All (λ (e : String × V). lookup e.0 m ≡ some e.1) m
  entries_Distinct [] d = tt
  entries_Distinct ((i, u) ∷ m) (d, ds) = (rw (eq_refl i) refl, under m (entries_Distinct m ds))
    where
      under :
          (es : List (String × V))
          → All (λ (e : String × V). lookup e.0 m ≡ some e.1) es
          → All (λ (e : String × V). lookup e.0 ((i, u) ∷ m) ≡ some e.1) es
      under [] h = tt
      under ((k, v) ∷ es) (at, h) = (ground (arith, at, d, eq_iff i k), under es h)
