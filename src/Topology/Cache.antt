-- ===== src/Topology/Cache.antt =====
-- internal/topology/cache.go: finding or creating the volume of a cache (EnsureCacheVolume,
-- discoverCacheByIdentity).
pub mod Laws
pub mod Reuse
use garm_provider_docker.Base.{
  ℕ, zero, suc, ◌-◌, String, Bool, true, false, List, [], ◌∷◌, Option, none, some, Labels, Result,
  ok, err, Error, failed, All, ◌≡◌, ◌≢◌, ◌==◌, if◌then◌else◌,
}
use garm_provider_docker.Docker.Filters.{LabelFilter, Satisfies}
use garm_provider_docker.Docker.Client.{Resource, Listed}
use garm_provider_docker.Spec.Cache.Adoption.{validate_adopted_cache_volume, cache_identity_filter}
use garm_provider_docker.Spec.Cache.Keys.{alternate_cache_volume_name}
use garm_provider_docker.Spec.Names.{validate_derived_name}
use Prim.Native.String.{compare}
use Prim.Native.Nat.{Ordering}

-- The daemon's volumes: VolumeList, and VolumeCreate with the labels it returns.
pub record Volumes : Type 1 where
  pub World : Type 0
  pub list : List LabelFilter → World → Result (List Resource) × World
  pub create : String → Labels → World → Result Labels × World
  pub remove : String → World → Result (Unit {0}) × World

-- What the daemon documents of lists and creates: a volume keeps its labels, and VolumeCreate returns those that the
-- volume of that name has, where a name is given.
pub record VolumesLaws (V : Volumes) : Type 0 where
  pub view : V.World → String → Option Labels
  pub list_keeps :
      (fs : List LabelFilter) (w : V.World) (j : String) (l : Labels)
      → view w j ≡ some l
      → view (V.list fs w).1 j ≡ some l
  pub list_sound :
      (fs : List LabelFilter) (w : V.World) (rs : List Resource)
      → (V.list fs w).0 ≡ ok rs
      → All (λ (r : Resource). view (V.list fs w).1 r.id ≡ some r.labels) rs
  pub list_complete :
      (fs : List LabelFilter) (w : V.World) (rs : List Resource)
      → (V.list fs w).0 ≡ ok rs
      → (j : String) (l : Labels) → view w j ≡ some l
      → Satisfies l fs
      → Listed j l rs
  pub create_keeps :
      (n : String) (new : Labels) (w : V.World) (j : String) (l : Labels)
      → view w j ≡ some l
      → view (V.create n new w).1 j ≡ some l
  pub create_returns :
      (n : String) (new got : Labels) (w : V.World)
      → n ≢ ""
      → (V.create n new w).0 ≡ ok got
      → view (V.create n new w).1 n ≡ some got

pub record CacheVolumeResult : Type 0 where
  pub name : String
  pub hit : Bool

abbrev pub text_before : String → String → Bool
text_before a b = elim (compare a b) [ Ordering.lt ↦ true | _ ↦ false ]

-- `if best == "" || v.Name < best { best = v.Name }`, for a valid volume.
abbrev pub smaller : Result (Unit {0}) → String → String → String
smaller (err e) name best = best
smaller (ok u) name best = if best == "" then name else if text_before name best then name else best

unfoldable pub best_name : Labels → List Resource → String → String
best_name want [] best = best
best_name want (v ∷ vs) best =
    best_name want vs (smaller (validate_adopted_cache_volume v.labels want) v.id best)

abbrev pub max_cache_reconcile_attempts : ℕ
max_cache_reconcile_attempts = 8

module _ (V : Volumes) (sha256_hex : String → String) where
  -- The loop of EnsureCacheVolume from the given attempt, with `left` attempts after it.
  abbrev pub slot_free : {A : Type 0} → Result (Unit {0}) → A → A → A
  slot_free (ok u) here next = here
  slot_free (err e) here next = next

  abbrev pub created : {A : Type 0} → Result Labels → (Error → A) → (Labels → A) → A
  created (err e) k h = k e
  created (ok got) k h = h got

  unfoldable pub reconcile :
      String → Labels → ℕ → ℕ → String → V.World → Result CacheVolumeResult × V.World
  reconcile preferred labels zero attempt candidate w =
      let (made, w1) = V.create candidate labels w in
      created made (λ e. (err e, w1))
        (λ got.
          slot_free (validate_adopted_cache_volume got labels)
            (ok (record { name = candidate; hit = false }), w1) (err failed, w1))
  reconcile preferred labels (suc left) attempt candidate w =
      let (made, w1) = V.create candidate labels w in
      let next = alternate_cache_volume_name sha256_hex preferred attempt in
      let later = reconcile preferred labels left (suc attempt) next w1 in
      created made (λ e. (err e, w1))
        (λ got.
          slot_free (validate_adopted_cache_volume got labels)
            (ok (record { name = candidate; hit = false }), w1)
            (slot_free (validate_derived_name next) later (err failed, w1)))

  unfoldable pub discover_cache_by_identity : Labels → V.World → Result String × V.World
  discover_cache_by_identity want w =
      let (listed, w1) = V.list (cache_identity_filter want) w in
      (elim listed [ err e ↦ err e | ok vs ↦ ok (best_name want vs "") ], w1)

  abbrev pub found_or :
      Result String
      → V.World
      → Result CacheVolumeResult × V.World
      → Result CacheVolumeResult × V.World
  found_or (err e) w k = (err e, w)
  found_or (ok name) w k = if name == "" then k else (ok (record { name = name; hit = true }), w)

  unfoldable pub ensure_cache_volume :
      String → Labels → V.World → Result CacheVolumeResult × V.World
  ensure_cache_volume preferred labels w =
      let (found, w1) = discover_cache_by_identity labels w in
      found_or found w1
        (reconcile preferred labels (max_cache_reconcile_attempts - 1) 1 preferred w1)
