-- ===== src/Config/Cache/Collisions.antt =====
-- internal/config/cache.go: a cache path that passes is no path of the runner's own mounts.
use garm_provider_docker.Base.{
  code, String, Bool, true, false, Result, ok, err, List, [], ◌∷◌, All, ◌≡◌, ◌≢◌, refl, sym, ap,
  ◌∙◌, subst, arith, some, ◌⧺◌, bool_false, eq_iff, failed, ◌==◌, require, ◌>>◌, not,
}
use garm_provider_docker.Config.Cache.{
  Cache, validate_cache, validate_enabled_cache, validate_cache_mount_path, reserved_mount_paths,
  collides, path_is_at_or_under, canonicalize_var_run, clean_rooted, cache_segment_pattern,
}
use garm_provider_docker.Base.Texts.{has_prefix, strip_prefix, trim_prefix}
use garm_provider_docker.Base.Texts.Laws.{has_prefix_append, strip_prefix_append}
use text.Mathlib.TextEquality.{Char-path}
use text.Mathlib.TextLemmas.{append_assoc, nil-append, cons-append}

-- Neither of the paths is the other, or at a place below it.
abbrev pub Apart : String → String → Type 0
Apart a b = (a ≢ b) × ((t : String) → a ≢ (b ⧺ "/") ⧺ t) × ((t : String) → b ≢ (a ⧺ "/") ⧺ t)

below-at_or_under : (a b t : String) → a ≡ (b ⧺ "/") ⧺ t → path_is_at_or_under a b ≡ true
unfolding path_is_at_or_under
below-at_or_under a b t e =
    let inside : has_prefix a (b ⧺ "/") ≡ true =
      subst (λ x. has_prefix x (b ⧺ "/") ≡ true) (sym e) (has_prefix_append (b ⧺ "/") t) in
    ground (arith, inside)

self-at_or_under : (a b : String) → a ≡ b → path_is_at_or_under a b ≡ true
unfolding path_is_at_or_under
self-at_or_under a b e = ground (arith, (eq_iff a b).1 e)

separate-Apart :
    (a b : String) → path_is_at_or_under a b ≡ false → path_is_at_or_under b a ≡ false → Apart a b
separate-Apart a b h k = (
  (λ e. ground (arith, h, self-at_or_under a b e)),
  (λ t e. ground (arith, h, below-at_or_under a b t e)),
  λ t e. ground (arith, k, below-at_or_under b a t e),
)

collides-Apart :
    (canon : String) (rs : List String) → collides canon rs ≡ false → All (Apart canon) rs
unfolding collides
collides-Apart canon [] h = tt
collides-Apart canon (r ∷ rs) h = (
  separate-Apart canon r (ground (arith, h)) (ground (arith, h)),
  collides-Apart canon rs (ground (arith, h)),
)

-- "/var/run" is "/run", and so reserved with what is below it.
var_run-reserved : collides (canonicalize_var_run "/var/run") reserved_mount_paths ≡ true
unfolding canonicalize_var_run collides path_is_at_or_under has_prefix
var_run-reserved = refl

run-reserved :
    (canon t : String) → canon ≡ ("/run" ⧺ "/") ⧺ t → collides canon reserved_mount_paths ≡ true
unfolding collides
run-reserved canon t e = ground (arith, below-at_or_under canon "/run" t e)

bare-has_prefix : has_prefix "/var/run" "/var/run/" ≡ false
unfolding has_prefix strip_prefix
bare-has_prefix = refl

canonicalize-inside :
    (p : String)
    → (p == "/var/run") ≡ false
    → has_prefix p "/var/run/" ≡ true
    → canonicalize_var_run p ≡ "/run" ⧺ trim_prefix p "/var/run"
unfolding canonicalize_var_run
canonicalize-inside p longer under = ground (arith, longer, under)

trim_prefix-strip_prefix :
    (p prefix rest : String) → strip_prefix prefix p ≡ some rest → trim_prefix p prefix ≡ rest
unfolding trim_prefix
trim_prefix-strip_prefix p prefix rest h = ground (arith, h)

canonicalize-below :
    (t : String) → canonicalize_var_run (("/var/run" ⧺ "/") ⧺ t) ≡ ("/run" ⧺ "/") ⧺ t
canonicalize-below t =
    let p : String = ("/var/run" ⧺ "/") ⧺ t in
    let under : has_prefix p "/var/run/" ≡ true = has_prefix_append ("/var/run" ⧺ "/") t in
    let rest : strip_prefix "/var/run" p ≡ some ("/" ⧺ t) =
      ap (strip_prefix "/var/run") (append_assoc "/var/run" "/" t)
      ∙ strip_prefix_append "/var/run" ("/" ⧺ t) in
    let longer : (p == "/var/run") ≡ false = bool_false (p == "/var/run") (λ e. ground (
      arith,
      bare-has_prefix,
      subst (λ x. has_prefix x "/var/run/" ≡ true) ((eq_iff p "/var/run").0 e) under,
    )) in
    canonicalize-inside p longer under
    ∙ ap (λ x. "/run" ⧺ x) (trim_prefix-strip_prefix p "/var/run" ("/" ⧺ t) rest)
    ∙ sym (append_assoc "/run" "/" t)

var_run_below-reserved :
    (t : String)
    → collides (canonicalize_var_run (("/var/run" ⧺ "/") ⧺ t)) reserved_mount_paths ≡ true
var_run_below-reserved t =
    run-reserved (canonicalize_var_run (("/var/run" ⧺ "/") ⧺ t)) t (canonicalize-below t)

-- A text begins with a prefix only if something follows it.
has_prefix-rest : (s p : String) → has_prefix s p ≡ true → (t : String) × (s ≡ p ⧺ t)
unfolding has_prefix strip_prefix
has_prefix-rest s String.[] h = (s, sym (nil-append s))
has_prefix-rest String.[] (String.◌∷◌ d p) h = ground (arith, h)
has_prefix-rest (String.◌∷◌ c s) (String.◌∷◌ d p) h =
    let (t, rest) = has_prefix-rest s p (ground (arith, h)) in
    let same : code d ≡ code c = ground (arith, h) in
    (
      t,
      ap (String.◌∷◌ c) rest
          ∙ ap (λ x. String.◌∷◌ x (p ⧺ t)) (sym (Char-path d c same))
          ∙ sym (cons-append d p t),
    )

canonicalize-other :
    (raw : String)
    → raw ≢ "/var/run"
    → ((t : String) → raw ≢ ("/var/run" ⧺ "/") ⧺ t)
    → canonicalize_var_run raw ≡ raw
unfolding canonicalize_var_run
canonicalize-other raw not_run not_below =
    let apart : (raw == "/var/run") ≡ false =
      bool_false (raw == "/var/run") (λ e. not_run ((eq_iff raw "/var/run").0 e)) in
    let outside : has_prefix raw "/var/run/" ≡ false =
      bool_false (has_prefix raw "/var/run/")
        (λ e. let (t, same) = has_prefix-rest raw "/var/run/" e in not_below t same) in
    rw (apart, outside) refl

-- A cache mount path that passes is absolute, is its own canonical form and not the root, is not
-- "/var/run" or below it, and neither is, contains nor lies below a reserved mount path.
pub validate_cache_mount_path-Apart :
    (raw : String)
    → validate_cache_mount_path raw ≡ ok tt
    → (has_prefix raw "/" ≡ true)
      × (clean_rooted raw ≡ raw)
      × (raw ≢ "/")
      × (raw ≢ "/var/run")
      × ((t : String) → raw ≢ ("/var/run" ⧺ "/") ⧺ t)
      × All (Apart raw) reserved_mount_paths
unfolding validate_cache_mount_path
validate_cache_mount_path-Apart raw h =
    let absolute : has_prefix raw "/" ≡ true = ground (arith, h) in
    let canonical : (clean_rooted raw == raw) ≡ true = ground (arith, h) in
    let below : (clean_rooted raw == "/") ≡ false = ground (arith, h) in
    let free : collides (canonicalize_var_run (clean_rooted raw)) reserved_mount_paths ≡ false =
      ground (arith, h) in
    let own : clean_rooted raw ≡ raw = (eq_iff (clean_rooted raw) raw).0 canonical in
    let open_place : collides (canonicalize_var_run raw) reserved_mount_paths ≡ false =
      subst (λ x. collides (canonicalize_var_run x) reserved_mount_paths ≡ false) own free in
    let not_run : raw ≢ "/var/run" = λ e. ground (
      arith,
      subst (λ x. collides (canonicalize_var_run x) reserved_mount_paths ≡ false) e open_place,
      var_run-reserved,
    ) in
    let not_below : (t : String) → raw ≢ ("/var/run" ⧺ "/") ⧺ t = λ t e. ground (
      arith,
      subst (λ x. collides (canonicalize_var_run x) reserved_mount_paths ≡ false) e open_place,
      var_run_below-reserved t,
    ) in
    (
      absolute,
      own,
      (λ z. ground (arith, below, own, z, eq_iff (clean_rooted raw) "/")),
      not_run,
      not_below,
      collides-Apart raw reserved_mount_paths (
          subst (λ x. collides x reserved_mount_paths ≡ false)
            (canonicalize-other raw not_run not_below) open_place),
    )

-- A path that passes is none of these.
pub not_reserved :
    (raw r : String)
    → validate_cache_mount_path r ≡ err failed
    → validate_cache_mount_path raw ≡ ok tt
    → raw ≢ r
not_reserved raw r bad h e =
    ground (arith, bad, subst (λ x. validate_cache_mount_path x ≡ ok tt) e h)

pub validate_cache-paths :
    (c : Cache)
    → c.enabled ≡ true
    → validate_cache c ≡ ok tt
    → (validate_cache_mount_path c.toolcache_path ≡ ok tt)
      × (validate_cache_mount_path c.pnpm_store_path ≡ ok tt)
      × (c.toolcache_path ≢ c.pnpm_store_path)
unfolding validate_cache validate_enabled_cache
validate_cache-paths c on h =
    let checked : validate_enabled_cache c ≡ ok tt = ground (arith, h, on) in enabled checked
  where
    enabled :
        validate_enabled_cache c ≡ ok tt
        → (validate_cache_mount_path c.toolcache_path ≡ ok tt)
          × (validate_cache_mount_path c.pnpm_store_path ≡ ok tt)
          × (c.toolcache_path ≢ c.pnpm_store_path)
    enabled k =
        each (cache_segment_pattern c.generation) (cache_segment_pattern c.pnpm_major)
          (validate_cache_mount_path c.toolcache_path) (validate_cache_mount_path c.pnpm_store_path)
          (c.toolcache_path == c.pnpm_store_path) (λ e. (eq_iff _ _).1 e) k
      where
        each :
            (a b : Bool) (p q : Result (Unit {0})) (same : Bool)
            → (c.toolcache_path ≡ c.pnpm_store_path → same ≡ true)
            → (require a >> require b >> p >> q >> require (not same)) ≡ ok tt
            → (p ≡ ok tt) × (q ≡ ok tt) × (c.toolcache_path ≢ c.pnpm_store_path)
        each true true (ok u) (ok v) false differ k = (refl, refl, λ e. ground (arith, differ e))
        each true true (ok u) (ok v) true differ k = ground (arith, k)
        each true true (ok u) (err e) same differ k = ground (arith, k)
        each true true (err e) q same differ k = ground (arith, k)
        each true false p q same differ k = ground (arith, k)
        each false b p q same differ k = ground (arith, k)
