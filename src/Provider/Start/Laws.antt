-- ===== src/Provider/Start/Laws.antt =====
-- internal/provider/runner_start.go: a runner that starts mounts caches that were confirmed after its
-- own create.
use garm_provider_docker.Base.{
  String, Bool, true, false, ◌&&◌, Option, none, some, List, [], ◌∷◌, Labels, label, Result, ok,
  err, Error, failed, not_found, conflict, forbidden, duplicate, instance_not_found, both, All, ◌≡◌,
  ◌≢◌, ◌⊎◌, inl, inr, refl, ap, subst, ◌∙◌, arith, ◌==◌, if◌then◌else◌,
}
use garm_provider_docker.Docker.Configs.{ContainerConfig, HostConfig}
use garm_provider_docker.Spec.Cache.Adoption.{validate_adopted_cache_volume}
use garm_provider_docker.Spec.Names.{runner_container_name}
use garm_provider_docker.Spec.Mounts.{runner_ipv6_sysctl}
use garm_provider_docker.Provider.Start.{
  Failure, Starter, CacheRef, Rejection, not_rejected, missing, refused, classify_ipv6_sysctl_error,
  without_ipv6_sysctl, confirmed, revalidate_referenced_caches, Started, start_checked,
  created_then, create_and_start_runner_once, joined_failure, after_removal, retry_if, retry,
  first_or_retry, create_and_start_runner,
}

module _ (S : Starter) (quote : String → String) where
  -- An inspection showed the cache with labels that the adoption check accepts.
  abbrev pub IsConfirmed : CacheRef → Type 0
  IsConfirmed r =
      (w : S.World) × (got : Labels) × ((S.inspect_volume r.name w).0 ≡ ok got)
      × (validate_adopted_cache_volume got r.want ≡ ok tt)

  both_true : (a b : Bool) → (a && b) ≡ true → (a ≡ true) × (b ≡ true)
  both_true true b h = (refl, h)
  both_true false b h = ground (arith, h)

  pair_of :
      (p : Option Failure × S.World) (last : S.World) → p.0 ≡ none → p.1 ≡ last → p ≡ (none, last)
  pair_of (x, y) last e f = ap (λ a. (a, y)) e ∙ ap (λ b. (none, b)) f

  confirmed-ok :
      (got : Result Labels) (want : Labels)
      → confirmed S quote got want ≡ true
      → (l : Labels) × (got ≡ ok l) × (validate_adopted_cache_volume l want ≡ ok tt)
  confirmed-ok (err e) want h = ground (arith, h)
  confirmed-ok (ok l) want h = (l, refl, valid (validate_adopted_cache_volume l want) h)
    where
      valid : (r : Result (Unit {0})) → elim r [ ok u ↦ true | err e ↦ false ] ≡ true → r ≡ ok tt
      valid (ok u) h = refl
      valid (err e) h = ground (arith, h)

  revalidate-All :
      (refs : List CacheRef) (w : S.World)
      → (revalidate_referenced_caches S quote refs w).0 ≡ true
      → All IsConfirmed refs
  unfolding revalidate_referenced_caches
  revalidate-All [] w h = tt
  revalidate-All (r ∷ rs) w h =
      let (here, later) = both_true (confirmed S quote (S.inspect_volume r.name w).0 r.want) _ h in
      let (l, e, v) = confirmed-ok (S.inspect_volume r.name w).0 r.want here in
      ((w, l, e, v), revalidate-All rs _ later)

  -- The container was created under this host configuration, its caches were then confirmed, and it
  -- was then started, in the world that is left.
  abbrev pub StartedAs :
      ContainerConfig → String → List CacheRef → String → S.World → HostConfig → Type 0
  StartedAs cfg name refs id last host =
      (w0 w1 : S.World) × (S.create cfg host (runner_container_name name) w0 ≡ ((id, none), w1))
      × ((revalidate_referenced_caches S quote refs w1).0 ≡ true)
      × All IsConfirmed refs
      × (S.start id (revalidate_referenced_caches S quote refs w1).1 ≡ (none, last))

  -- A start that returns an id and no error.
  abbrev pub Succeeds : Started S quote → String → S.World → Type 0
  Succeeds r id last = (r.0.0 ≡ id) × (r.0.1 ≡ none) × (r.1 ≡ last)

  started-ok :
      (failure : Option Failure) (prefix : Failure → Failure)
      → elim failure [ none ↦ none | some f ↦ some (prefix f) ] ≡ none
      → failure ≡ none
  started-ok none prefix h = refl
  started-ok (some f) prefix h = ground (arith, h)

  once-StartedAs :
      (cfg : ContainerConfig) (host : HostConfig) (name : String) (refs : List CacheRef)
      (w : S.World) (id : String) (last : S.World)
      → Succeeds (create_and_start_runner_once S quote cfg host name refs w) id last
      → StartedAs cfg name refs id last host
  unfolding create_and_start_runner_once
  once-StartedAs cfg host name refs w id last h =
      made (S.create cfg host (runner_container_name name) w).0
        (S.create cfg host (runner_container_name name) w).1 refl h
    where
      checked :
          (i : String) (w1 : S.World) (good : Bool)
          → S.create cfg host (runner_container_name name) w ≡ ((i, none), w1)
          → (revalidate_referenced_caches S quote refs w1).0 ≡ good
          → Succeeds
              (start_checked S quote name i good (revalidate_referenced_caches S quote refs w1).1)
              id
              last
          → StartedAs cfg name refs id last host
      checked i w1 false e g (a, b, c) = ground (arith, b)
      checked i w1 true e g (a, b, c) = (
        w,
        w1,
        subst (λ x. S.create cfg host (runner_container_name name) w ≡ ((x, none), w1)) a e,
        g,
        revalidate-All refs w1 g,
        subst (λ x. S.start x (revalidate_referenced_caches S quote refs w1).1 ≡ (none, last)) a
            (pair_of (S.start i (revalidate_referenced_caches S quote refs w1).1) last
              (started-ok (S.start i (revalidate_referenced_caches S quote refs w1).1).0 _ b) c),
      )

      made :
          (r : String × Option Failure) (w1 : S.World)
          → S.create cfg host (runner_container_name name) w ≡ (r, w1)
          → Succeeds (created_then S quote name refs r w1) id last
          → StartedAs cfg name refs id last host
      made (i, some f) w1 e (a, b, c) = ground (arith, b)
      made (i, none) w1 e h = checked i w1 (revalidate_referenced_caches S quote refs w1).0 e refl h

  joined_some : (failure : Option Failure) (e : Error) → joined_failure S quote failure e ≢ none
  joined_some none e h = ground (arith, h)
  joined_some (some f) e h = ground (arith, h)

  removal-StartedAs :
      (cfg : ContainerConfig) (host : HostConfig) (name : String) (refs : List CacheRef)
      (id : String) (last : S.World) (i : String) (failure : Option Failure)
      (gone : Result (Unit {0})) (w : S.World) (again : Started S quote)
      → (Succeeds again id last → StartedAs cfg name refs id last host)
      → Succeeds (after_removal S quote i failure gone w again) id last
      → StartedAs cfg name refs id last host
  removal-StartedAs cfg host name refs id last i failure (ok u) w again k h = k h
  removal-StartedAs cfg host name refs id last i failure (err not_found) w again k h = k h
  removal-StartedAs cfg host name refs id last i failure (err failed) w again k (a, b, c) =
      elim (joined_some failure failed b) [ ]
  removal-StartedAs cfg host name refs id last i failure (err conflict) w again k (a, b, c) =
      elim (joined_some failure conflict b) [ ]
  removal-StartedAs cfg host name refs id last i failure (err forbidden) w again k (a, b, c) =
      elim (joined_some failure forbidden b) [ ]
  removal-StartedAs cfg host name refs id last i failure (err duplicate) w again k (a, b, c) =
      elim (joined_some failure duplicate b) [ ]
  removal-StartedAs cfg host name refs id last i failure (err instance_not_found) w again k
        (a, b, c) =
      elim (joined_some failure instance_not_found b) [ ]
  removal-StartedAs cfg host name refs id last i failure (err (both x y)) w again k (a, b, c) =
      elim (joined_some failure (both x y) b) [ ]

  retry-StartedAs :
      (cfg : ContainerConfig) (host : HostConfig) (name : String) (refs : List CacheRef)
      (i : String) (failure : Option Failure) (w : S.World) (id : String) (last : S.World)
      → Succeeds (retry S quote cfg host name refs i failure w) id last
      → StartedAs cfg name refs id last (without_ipv6_sysctl host)
  unfolding retry
  retry-StartedAs cfg host name refs i failure w id last h = either (i == "") h
    where
      either :
          (b : Bool)
          → Succeeds
              (if b
                then create_and_start_runner_once S quote cfg (without_ipv6_sysctl host) name refs w
                else after_removal S quote i failure (S.remove i w).0 (S.remove i w).1 (
                    create_and_start_runner_once S quote cfg
                      (without_ipv6_sysctl host)
                      name
                      refs
                      (S.remove i w).1))
              id
              last
          → StartedAs cfg name refs id last (without_ipv6_sysctl host)
      either true h = once-StartedAs cfg (without_ipv6_sysctl host) name refs w id last h
      either false h =
          removal-StartedAs cfg (without_ipv6_sysctl host) name refs id last i failure
            (S.remove i w).0 _ _ (once-StartedAs cfg (without_ipv6_sysctl host) name refs _ id last)
            h

  -- If createAndStartRunner returns a container's id and no error, that container was created under
  -- the runner's name, with the given host configuration or the same without the IPv6 sysctl, then
  -- each cache that the runner mounts was confirmed by an inspection, and the container's start, from
  -- the world that those inspections left, succeeded and left the world that is returned.
  pub create_and_start_runner-StartedAs :
      (cfg : ContainerConfig) (host : HostConfig) (name : String) (refs : List CacheRef)
      (w : S.World) (id : String) (last : S.World)
      → Succeeds (create_and_start_runner S quote cfg host name refs w) id last
      → StartedAs cfg name refs id last host
        ⊎ StartedAs cfg name refs id last (without_ipv6_sysctl host)
  unfolding create_and_start_runner
  create_and_start_runner-StartedAs cfg host name refs w id last h =
      let once = create_and_start_runner_once S quote cfg host name refs w in
      first once (retry S quote cfg host name refs once.0.0 once.0.1 once.1)
        (once-StartedAs cfg host name refs w id last)
        (retry-StartedAs cfg host name refs once.0.0 once.0.1 once.1 id last) h
    where
      pick :
          (t : Bool) (k : Rejection) (a b : Started S quote)
          → (Succeeds a id last → StartedAs cfg name refs id last host)
          → (Succeeds b id last → StartedAs cfg name refs id last (without_ipv6_sysctl host))
          → Succeeds (if t then a else retry_if S quote k a b) id last
          → StartedAs cfg name refs id last host
            ⊎ StartedAs cfg name refs id last (without_ipv6_sysctl host)
      pick true k a b p q h = inl (p h)
      pick false not_rejected a b p q h = inl (p h)
      pick false missing a b p q h = inr (q h)
      pick false refused a b p q h = inr (q h)

      first :
          (a : Started S quote) (b : Started S quote)
          → (Succeeds a id last → StartedAs cfg name refs id last host)
          → (Succeeds b id last → StartedAs cfg name refs id last (without_ipv6_sysctl host))
          → Succeeds (first_or_retry S quote host a b) id last
          → StartedAs cfg name refs id last host
            ⊎ StartedAs cfg name refs id last (without_ipv6_sysctl host)
      first ((i, f), v) b p q h =
          pick (label host.sysctls runner_ipv6_sysctl == "") (classify_ipv6_sysctl_error f)
            ((i, f), v) b p q h
