-- ===== src/Checks/Volumes.antt =====
-- A daemon's volumes with room for one, and EnsureCacheVolume of internal/topology/cache.go there.
use garm_provider_docker.Base.{
  String, Bool, true, false, List, [], ◌∷◌, Option, none, some, Labels, Result, ok, err, failed,
  All, ◌≡◌, refl, subst, arith, ◌==◌, if◌then◌else◌, with_label,
}
use garm_provider_docker.Base.Texts.Laws.{cons_differs}
use garm_provider_docker.Docker.Filters.{LabelFilter}
use garm_provider_docker.Docker.Client.{volume, Resource, Listed}
use garm_provider_docker.Spec.Cache.Identity.{
  CacheVolumeIdentity, toolcache_labels, base_cache_labels, add_os_key,
}
use garm_provider_docker.Spec.Cache.Adoption.{
  validate_adopted_cache_volume, cache_identity_filter, agree_on, identity_filters,
}
use garm_provider_docker.Topology.Cache.{
  Volumes, VolumesLaws, ensure_cache_volume, discover_cache_by_identity, best_name, reconcile,
}
use garm_provider_docker.Topology.Cache.Laws.{ensure_cache_volume-adopted}
use garm_provider_docker.Topology.Cache.Reuse.{ensure_cache_volume-hit, ensure_cache_volume-keeps}
use garm_provider_docker.Checks.Daemon.{
  Slots, view, satisfies, entries, entries_complete, same_list,
}

abbrev kept_or : Option Labels → Labels → Labels
kept_or none new = new
kept_or (some l) new = l

abbrev make_if : Bool → Labels → Slots → Result Labels × Slots
make_if true new s = (ok (kept_or s.v new), record s { v = some (kept_or s.v new) })
make_if false new s = (err failed, s)

abbrev make : String → Labels → Slots → Result Labels × Slots
make n new s = make_if (n == "it") new s

abbrev volumes : Volumes
volumes = record {
  World = Slots;
  list = λ fs s. (ok (entries fs s.v), s);
  create = make;
  remove = λ n s. (ok tt, record s { v = none });
}

make-keeps :
    (n : String) (new : Labels) (s : Slots) (j : String) (l : Labels)
    → view s volume j ≡ some l
    → view (make n new s).1 volume j ≡ some l
make-keeps n new s j l h = held (n == "it") (j == "it") s.v h
  where
    held :
        (a b : Bool) (o : Option Labels)
        → (if b then o else none) ≡ some l
        → (if b then (make_if a new (record s { v = o })).1.v else none) ≡ some l
    held false b o h = h
    held true false o h = h
    held true true none h = ground (arith, h)
    held true true (some x) h = h

same_labels : {a b : Labels} → ok a ≡ ok b → some a ≡ some b
same_labels e = cc e

make-returns :
    (n : String) (new got : Labels) (s : Slots)
    → (make n new s).0 ≡ ok got
    → view (make n new s).1 volume n ≡ some got
make-returns n new got s h = given (n == "it") h
  where
    given :
        (a : Bool)
        → (make_if a new s).0 ≡ ok got
        → (if a then (make_if a new s).1.v else none) ≡ some got
    given true h = same_labels h
    given false h = ground (arith, h)

entries-present :
    (fs : List LabelFilter) (s : Slots) (o : Option Labels)
    → s.v ≡ o
    → All (λ (r : Resource). view s volume r.id ≡ some r.labels) (entries fs o)
entries-present fs s none e = tt
entries-present fs s (some l) e = listed (satisfies l fs)
  where
    listed :
        (b : Bool)
        → All
            (λ (r : Resource). view s volume r.id ≡ some r.labels)
            (if b then record { id = "it"; labels = l } ∷ [] else [])
    listed true = (e, tt)
    listed false = tt

abbrev volumes_laws : VolumesLaws volumes
volumes_laws = record {
  view = λ s j. view s volume j;
  list_keeps = λ fs w j l h. h;
  list_sound = λ fs w rs e.
      subst (All (λ (r : Resource). view w volume r.id ≡ some r.labels)) (same_list _ _ e)
        (entries-present fs w w.v refl);
  list_complete =
      λ fs w rs e j l at s. subst (Listed j l) (same_list _ _ e) (entries_complete fs j l w.v at s);
  create_keeps = make-keeps;
  create_returns = λ n new got w given e. make-returns n new got w e;
}

abbrev cache : CacheVolumeIdentity
cache = record {
  controller_id = "ctl";
  repo_key = "acme-repo-0123";
  repo_url_digest = "abcd";
  os_key = "ubuntu-24.04";
}

abbrev wanted : Labels
wanted = toolcache_labels cache "3" "t1"

abbrev older : Labels
older = toolcache_labels cache "3" "t0"

abbrev empty : Slots
empty = record { c = none; n = none; v = none }

abbrev warm : Slots
warm = record { c = none; n = none; v = some older }

ensure_cache_volume-keeps_example :
    view (ensure_cache_volume volumes (λ s. "0123456789abcdef") "it" wanted warm).1 volume "it"
    ≡ some older
ensure_cache_volume-keeps_example =
    ensure_cache_volume-keeps volumes volumes_laws (λ s. "0123456789abcdef") "it" wanted warm "it"
      older refl

ensure_cache_volume-adopted_example :
    (got : Labels) × (view
        (ensure_cache_volume volumes (λ s. "0123456789abcdef") "it" wanted empty).1
        volume
        "it"
      ≡ some got)
    × (validate_adopted_cache_volume got wanted ≡ ok tt)
unfolding ensure_cache_volume discover_cache_by_identity best_name reconcile toolcache_labels
    base_cache_labels add_os_key with_label validate_adopted_cache_volume agree_on
    cache_identity_filter identity_filters
ensure_cache_volume-adopted_example =
    ensure_cache_volume-adopted volumes volumes_laws (λ s. "0123456789abcdef") "it" wanted empty
      (record { name = "it"; hit = false }) (cons_differs _ _) refl

ensure_cache_volume-hit_example :
    ensure_cache_volume volumes (λ s. "0123456789abcdef") "preferred" wanted warm
    ≡ (ok (record { name = "it"; hit = true }), warm)
unfolding best_name toolcache_labels base_cache_labels add_os_key with_label
    validate_adopted_cache_volume agree_on cache_identity_filter identity_filters
ensure_cache_volume-hit_example =
    ensure_cache_volume-hit volumes volumes_laws (λ s. "0123456789abcdef") "preferred" wanted warm
      (record { id = "it"; labels = older } ∷ []) "it" older refl (cons_differs _ _, tt) refl refl
