-- ===== src/Topology/Cache/Reuse.antt =====
-- internal/topology/cache.go: EnsureCacheVolume reuses a cache that exists, and leaves every volume
-- as it is.
use garm_provider_docker.Base.{
  ℕ, zero, suc, String, Bool, true, false, List, [], ◌∷◌, some, Labels, Result, ok, err, Error, All,
  ◌≡◌, ◌≢◌, ◌⊎◌, inl, inr, refl, sym, subst, arith, ◌==◌, if◌then◌else◌, eq_iff,
}
use garm_provider_docker.Docker.Client.{Resource, Listed}
use garm_provider_docker.Spec.Cache.Adoption.{validate_adopted_cache_volume, cache_identity_filter}
use garm_provider_docker.Spec.Cache.Adoption.Laws.{Satisfies-cache_identity_filter}
use garm_provider_docker.Spec.Names.{validate_derived_name}
use garm_provider_docker.Topology.Cache.{
  Volumes, VolumesLaws, CacheVolumeResult, reconcile, ensure_cache_volume,
  discover_cache_by_identity, best_name, smaller, text_before, created, slot_free, found_or,
}

smaller_named :
    (r : Result (Unit {0})) (n best : String)
    → n ≢ ""
    → (r ≡ ok tt) ⊎ (best ≢ "")
    → smaller r n best ≢ ""
smaller_named (err e) n best named (inl h) = ground (arith, h)
smaller_named (err e) n best named (inr h) = h
smaller_named (ok u) n best named h = chosen (best == "") (text_before n best) (λ e b. empty e b)
  where
    empty : (best == "") ≡ false → best ≢ ""
    empty e b = ground (arith, eq_iff best "")

    chosen :
        (a b : Bool) → (a ≡ false → best ≢ "") → (if a then n else (if b then n else best)) ≢ ""
    chosen true b h = named
    chosen false true h = named
    chosen false false h = h refl

abbrev Named : List Resource → Type 0
Named = All (λ (r : Resource). r.id ≢ "")

best_name-keeps :
    (want : Labels) (vs : List Resource) (best : String)
    → Named vs
    → best ≢ ""
    → best_name want vs best ≢ ""
unfolding best_name
best_name-keeps want [] best named h = h
best_name-keeps want (v ∷ vs) best (n, named) h =
    best_name-keeps want vs _ named
      (smaller_named (validate_adopted_cache_volume v.labels want) v.id best n (inr h))

best_name-Listed :
    (want : Labels) (vs : List Resource) (best j : String) (l : Labels)
    → Named vs
    → Listed j l vs
    → validate_adopted_cache_volume l want ≡ ok tt
    → best_name want vs best ≢ ""
unfolding best_name
best_name-Listed want [] best j l named at valid = elim at [ ]
best_name-Listed want (v ∷ vs) best j l (n, named) (inr at) valid =
    best_name-Listed want vs _ j l named at valid
best_name-Listed want (v ∷ vs) best j l (n, named) (inl (i, e)) valid =
    best_name-keeps want vs _ named (
      smaller_named (validate_adopted_cache_volume v.labels want) v.id best n
        (inl (subst (λ x. validate_adopted_cache_volume x want ≡ ok tt) (sym e) valid)))

found-hit :
    (V : Volumes) (sha256_hex : String → String) (want : Labels) (listed : Result (List Resource))
    (vs : List Resource) (w : V.World) (k : Result CacheVolumeResult × V.World)
    → listed ≡ ok vs
    → best_name want vs "" ≢ ""
    → found_or V sha256_hex (elim listed [ err e ↦ err e | ok rs ↦ ok (best_name want rs "") ]) w k
      ≡ (ok (record { name = best_name want vs ""; hit = true }), w)
found-hit V sha256_hex want (err e) vs w k h named = ground (arith, h)
found-hit V sha256_hex want (ok rs) vs w k h named =
    rw (same_list rs vs h, not_empty (best_name want vs "") named) refl
  where
    same_list : (a b : List Resource) → ok a ≡ ok b → a ≡ b
    same_list a b e = cc e

    not_empty : (n : String) → n ≢ "" → (n == "") ≡ false
    not_empty n h = ground (arith, eq_iff n "")

-- If the volume list succeeds, lists only volumes with a name, and a volume with a name is there
-- that the adoption check accepts for the wanted identity, EnsureCacheVolume returns a hit and
-- creates nothing: it leaves the daemon as the list call did.
pub ensure_cache_volume-hit :
    (V : Volumes) (L : VolumesLaws V) (sha256_hex : String → String) (preferred : String)
    (want : Labels) (w : V.World) (vs : List Resource) (j : String) (l : Labels)
    → (V.list (cache_identity_filter want) w).0 ≡ ok vs
    → All (λ (r : Resource). r.id ≢ "") vs
    → L.view w j ≡ some l
    → validate_adopted_cache_volume l want ≡ ok tt
    → ensure_cache_volume V sha256_hex preferred want w ≡ (
      ok (record { name = best_name want vs ""; hit = true }),
      (V.list (cache_identity_filter want) w).1,
    )
unfolding ensure_cache_volume discover_cache_by_identity
ensure_cache_volume-hit V L sha256_hex preferred want w vs j l h named at valid =
    found-hit V sha256_hex want (V.list (cache_identity_filter want) w).0 vs _ _ h (
      best_name-Listed want vs "" j l named
        (L.list_complete (cache_identity_filter want) w vs h j l at
          (Satisfies-cache_identity_filter l want valid))
        valid)

module _ (V : Volumes) (L : VolumesLaws V) (sha256_hex : String → String) (want : Labels) where
  slot_free-case :
      {A : Type 0} (P : A → Type 0) (v : Result (Unit {0})) (here next : A)
      → P here
      → P next
      → P (slot_free V sha256_hex v here next)
  slot_free-case P (ok u) here next h k = h
  slot_free-case P (err e) here next h k = k

  created-case :
      {A : Type 0} (P : A → Type 0) (made : Result Labels) (k : Error → A) (h : Labels → A)
      → ((e : Error) → P (k e))
      → ((got : Labels) → P (h got))
      → P (created V sha256_hex made k h)
  created-case P (err e) k h a b = a e
  created-case P (ok got) k h a b = b got

  reconcile-keeps :
      (preferred : String) (left attempt : ℕ) (candidate : String) (w : V.World) (j : String)
      (l : Labels)
      → L.view w j ≡ some l
      → L.view (reconcile V sha256_hex preferred want left attempt candidate w).1 j ≡ some l
  unfolding reconcile
  reconcile-keeps preferred zero attempt candidate w j l h =
      let kept = L.create_keeps candidate want w j l h in
      created-case (λ (r, v). L.view v j ≡ some l) _ _ _ (λ e. kept)
        (λ got.
          slot_free-case (λ (r, v). L.view v j ≡ some l) (validate_adopted_cache_volume got want) _
            _ kept kept)
  reconcile-keeps preferred (suc left) attempt candidate w j l h =
      let kept = L.create_keeps candidate want w j l h in
      created-case (λ (r, v). L.view v j ≡ some l) _ _ _ (λ e. kept)
        (λ got.
          slot_free-case (λ (r, v). L.view v j ≡ some l) (validate_adopted_cache_volume got want) _
            _ kept
            (slot_free-case (λ (r, v). L.view v j ≡ some l) (validate_derived_name _) _ _
              (reconcile-keeps preferred left (suc attempt) _ _ j l kept) kept))

found-keeps :
    (V : Volumes) (L : VolumesLaws V) (sha256_hex : String → String) (j : String) (l : Labels)
    (found : Result String) (w : V.World) (k : Result CacheVolumeResult × V.World)
    → L.view w j ≡ some l
    → L.view k.1 j ≡ some l
    → L.view (found_or V sha256_hex found w k).1 j ≡ some l
found-keeps V L sha256_hex j l (err e) w k h r = h
found-keeps V L sha256_hex j l (ok n) w k h r = ground (arith, h, r)

-- Whatever a removal does, EnsureCacheVolume never removes or relabels a volume, whatever holds the names that it tries and
-- whether it succeeds or fails.
pub ensure_cache_volume-keeps :
    (V : Volumes) (L : VolumesLaws V) (sha256_hex : String → String) (preferred : String)
    (want : Labels) (w : V.World) (j : String) (l : Labels)
    → L.view w j ≡ some l
    → L.view (ensure_cache_volume V sha256_hex preferred want w).1 j ≡ some l
unfolding ensure_cache_volume discover_cache_by_identity
ensure_cache_volume-keeps V L sha256_hex preferred want w j l h =
    let kept = L.list_keeps (cache_identity_filter want) w j l h in
    found-keeps V L sha256_hex j l (discover_cache_by_identity V sha256_hex want w).0 _ _ kept
      (reconcile-keeps V L sha256_hex want preferred _ _ _ _ j l kept)
