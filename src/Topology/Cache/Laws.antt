-- ===== src/Topology/Cache/Laws.antt =====
-- internal/topology/cache.go: what EnsureCacheVolume returns and leaves alone.
use garm_provider_docker.Base.{
  ℕ, zero, suc, String, Bool, true, false, List, [], ◌∷◌, some, Labels, Result, ok, err, Error,
  failed, All, ◌≡◌, ◌≢◌, refl, subst, arith, ◌==◌, if◌then◌else◌, eq_iff,
}
use garm_provider_docker.Docker.Client.{Resource}
use garm_provider_docker.Spec.Cache.Adoption.{validate_adopted_cache_volume, cache_identity_filter}
use garm_provider_docker.Spec.Names.{validate_derived_name}
use garm_provider_docker.Topology.Cache.{
  Volumes, VolumesLaws, CacheVolumeResult, reconcile, ensure_cache_volume,
  discover_cache_by_identity, best_name, smaller, text_before, created, slot_free, found_or,
}

same_result : (a b : CacheVolumeResult) → ok a ≡ ok b → a ≡ b
same_result a b e = cc e

same_name : (a b : String) → ok a ≡ ok b → a ≡ b
same_name a b e = cc e

eq_false : (n : String) → n ≡ "" → ¬ ((n == "") ≡ false)
eq_false n z e = ground (arith, eq_iff n "")

-- A volume of this name is there, with labels that the adoption check accepts.
module _ (V : Volumes) (L : VolumesLaws V) (sha256_hex : String → String) (want : Labels) where
  abbrev pub Adopted : String → V.World → Type 0
  Adopted n w =
      (got : Labels) × (L.view w n ≡ some got) × (validate_adopted_cache_volume got want ≡ ok tt)

  abbrev pub GoodResult : Result CacheVolumeResult × V.World → Type 0
  GoodResult (r, w) = (found : CacheVolumeResult) → r ≡ ok found → Adopted found.name w

  slot_free-GoodResult :
      (v : Result (Unit {0})) (here next : Result CacheVolumeResult × V.World)
      → (v ≡ ok tt → GoodResult here)
      → GoodResult next
      → GoodResult (slot_free V sha256_hex v here next)
  slot_free-GoodResult (ok u) here next h k = h refl
  slot_free-GoodResult (err e) here next h k = k

  failed-GoodResult : (e : Error) (w : V.World) → GoodResult (err e, w)
  failed-GoodResult e w found h = ground (arith, h)

  made-GoodResult :
      (made : Result Labels) (w : V.World) (n : String) (next : Result CacheVolumeResult × V.World)
      → ((got : Labels) → made ≡ ok got → L.view w n ≡ some got)
      → GoodResult next
      → GoodResult (
          created V sha256_hex made
            (λ e. (err e, w))
            (λ got.
              slot_free V sha256_hex
                (validate_adopted_cache_volume got want)
                (ok (record { name = n; hit = false }), w)
                next))
  made-GoodResult (err e) w n next seen h = failed-GoodResult e w
  made-GoodResult (ok got) w n next seen h =
      slot_free-GoodResult (validate_adopted_cache_volume got want) _ next
        (λ v found e.
          subst (λ (r : CacheVolumeResult). Adopted r.name w)
            (same_result (record { name = n; hit = false }) found e) (got, seen got refl, v))
        h

  -- A name that the check of derived names passes is not empty.
  checked-not_empty : (n : String) → validate_derived_name n ≡ ok tt → n ≢ ""
  unfolding validate_derived_name
  checked-not_empty n v e = ground (arith, v, eq_iff n "", e)

  reconcile-GoodResult :
      (preferred : String) (left attempt : ℕ) (candidate : String) (w : V.World)
      → candidate ≢ ""
      → GoodResult (reconcile V sha256_hex preferred want left attempt candidate w)
  unfolding reconcile
  reconcile-GoodResult preferred zero attempt candidate w given =
      made-GoodResult (V.create candidate want w).0 _ candidate _
        (λ got e. L.create_returns candidate want got w given e) (failed-GoodResult failed _)
  reconcile-GoodResult preferred (suc left) attempt candidate w given =
      made-GoodResult (V.create candidate want w).0 _ candidate _
        (λ got e. L.create_returns candidate want got w given e)
        (slot_free-GoodResult (validate_derived_name _) _ _
          (λ v. reconcile-GoodResult preferred left (suc attempt) _ _ (checked-not_empty _ v))
          (failed-GoodResult failed _))

  -- The empty name, or one of an adopted volume.
  abbrev pub NamesAdopted : V.World → String → Type 0
  NamesAdopted w n = n ≢ "" → Adopted n w

  best_name-NamesAdopted :
      (vs : List Resource) (best : String) (w : V.World)
      → All (λ (r : Resource). L.view w r.id ≡ some r.labels) vs
      → NamesAdopted w best
      → NamesAdopted w (best_name want vs best)
  unfolding best_name
  best_name-NamesAdopted [] best w seen h = h
  best_name-NamesAdopted (v ∷ vs) best w (s, seen) h = best_name-NamesAdopted vs _ w seen (
      smaller_case (validate_adopted_cache_volume v.labels want) v.id best (λ e. (v.labels, s, e))
        h)
    where
      either :
          (a b : Bool) (n best : String)
          → NamesAdopted w n
          → NamesAdopted w best
          → NamesAdopted w (if a then n else (if b then n else best))
      either true b n best new old = new
      either false true n best new old = new
      either false false n best new old = old

      smaller_case :
          (r : Result (Unit {0})) (n best : String)
          → (r ≡ ok tt → Adopted n w)
          → NamesAdopted w best
          → NamesAdopted w (smaller r n best)
      smaller_case (err e) n best new old = old
      smaller_case (ok u) n best new old =
          either (best == "") (text_before n best) n best (λ x. new refl) old

  found-GoodResult :
      (found : Result String) (w : V.World) (k : Result CacheVolumeResult × V.World)
      → ((n : String) → found ≡ ok n → NamesAdopted w n)
      → GoodResult k
      → GoodResult (found_or V sha256_hex found w k)
  found-GoodResult (err e) w k named h = failed-GoodResult e w
  found-GoodResult (ok n) w k named h = held (n == "") (λ e. named n refl (λ z. eq_false n z e))
    where
      held :
          (b : Bool)
          → (b ≡ false → Adopted n w)
          → GoodResult (if b then k else (ok (record { name = n; hit = true }), w))
      held true here found e = h found e
      held false here found e =
          subst (λ (r : CacheVolumeResult). Adopted r.name w)
            (same_result (record { name = n; hit = true }) found e) (here refl)

  discovered-NamesAdopted :
      (listed : Result (List Resource)) (w : V.World) (n : String)
      → ((rs : List Resource)
          → listed ≡ ok rs
          → All (λ (r : Resource). L.view w r.id ≡ some r.labels) rs)
      → elim listed [ err e ↦ err e | ok vs ↦ ok (best_name want vs "") ] ≡ ok n
      → NamesAdopted w n
  discovered-NamesAdopted (err e) w n seen h = ground (arith, h)
  discovered-NamesAdopted (ok vs) w n seen h =
      subst (NamesAdopted w) (same_name _ n h)
        (best_name-NamesAdopted vs "" w (seen vs refl) (λ z. elim (z refl) [ ]))

-- Whenever EnsureCacheVolume is given a preferred name that is not empty and returns a volume, whether
-- found or created, at the preferred name or an alternate, the volume exists with labels that the adoption check accepts for the wanted identity.
pub ensure_cache_volume-adopted :
    (V : Volumes) (L : VolumesLaws V) (sha256_hex : String → String) (preferred : String)
    (want : Labels) (w : V.World) (found : CacheVolumeResult)
    → preferred ≢ ""
    → (ensure_cache_volume V sha256_hex preferred want w).0 ≡ ok found
    → (got : Labels) × (L.view (ensure_cache_volume V sha256_hex preferred want w).1 found.name
        ≡ some got)
      × (validate_adopted_cache_volume got want ≡ ok tt)
unfolding ensure_cache_volume discover_cache_by_identity
ensure_cache_volume-adopted V L sha256_hex preferred want w found given h =
    found-GoodResult V L sha256_hex want (discover_cache_by_identity V sha256_hex want w).0 _ _
      (λ n e.
        discovered-NamesAdopted V L sha256_hex want (V.list (cache_identity_filter want) w).0 _ n
          (λ rs e'. L.list_sound (cache_identity_filter want) w rs e') e)
      (reconcile-GoodResult V L sha256_hex want preferred _ _ _ _ given) found h
